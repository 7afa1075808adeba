-- ===== src/Device/Accessors/Described.antt =====
-- src/Device.g.cpp: a property that a device reports to have is described by the other calls.
use lib_aspl.Prelude.{ℕ, ◌≡◌, refl, Bool, true, Option, none, some, ◌==◌, arith}
use lib_aspl.Object.Accessors.{ObjectView}
use lib_aspl.Object.Accessors.Agreement.{
  AreGiven, either-AreGiven, has_property-AreGiven as object_has_property-AreGiven,
}
use lib_aspl.Accessor.{Scope, Address, re_address, Reply, reply}
use lib_aspl.Device.Accessors.{
  Identity, name, manufacturer, device_uid, model_uid, serial_number, Description, firmware_version,
  icon, configuration_application, transport_type, related_devices, Timing, clock_is_stable,
  clock_algorithm, clock_domain, device_latency, device_safety_offset, Rate, time_stamp_period,
  sample_rate, sample_rates, stereo_channels, channel_layout, Condition, running, identify, alive,
  hidden, default_device, default_system_device, Content, device_streams, control_list,
  DeviceSelector, identity, description, timing, rate, condition, content, inherited,
  selector_number, DeviceView,
}
use lib_aspl.Device.Accessors.Has.{has_selector, has_property}
use lib_aspl.Device.Accessors.Settable.{
  settable_identity, settable_description, settable_timing, settable_rate, settable_condition,
  settable_content, settable_selector, is_property_settable,
}
use lib_aspl.Device.Accessors.Size.{
  size_identity, size_description, size_timing, size_rate, size_condition, size_content,
  size_selector, get_property_data_size,
}

module _ {F W V D : Type 0} (o : ObjectView V D) (v : D → DeviceView F W)
    (number : DeviceSelector → ℕ) (d : D) where
  identity-AreGiven :
      (c : Identity) (scope : Scope) (wanted : Bool)
      → AreGiven (settable_identity c wanted) (size_identity o v number c scope wanted d)
  unfolding settable_identity size_identity reply
  identity-AreGiven name scope wanted = (refl, refl)
  identity-AreGiven manufacturer scope wanted = (refl, refl)
  identity-AreGiven device_uid scope wanted = (refl, refl)
  identity-AreGiven model_uid scope wanted = (refl, refl)
  identity-AreGiven serial_number scope wanted = (refl, refl)

  description-AreGiven :
      (c : Description) (scope : Scope) (wanted : Bool)
      → AreGiven (settable_description c wanted) (size_description o v number c scope wanted d)
  unfolding settable_description size_description reply
  description-AreGiven firmware_version scope wanted = (refl, refl)
  description-AreGiven icon scope wanted = (refl, refl)
  description-AreGiven configuration_application scope wanted = (refl, refl)
  description-AreGiven transport_type scope wanted = (refl, refl)
  description-AreGiven related_devices scope wanted = (refl, refl)

  timing-AreGiven :
      (c : Timing) (scope : Scope) (wanted : Bool)
      → AreGiven (settable_timing c wanted) (size_timing o v number c scope wanted d)
  unfolding settable_timing size_timing reply
  timing-AreGiven clock_is_stable scope wanted = (refl, refl)
  timing-AreGiven clock_algorithm scope wanted = (refl, refl)
  timing-AreGiven clock_domain scope wanted = (refl, refl)
  timing-AreGiven device_latency scope wanted = (refl, refl)
  timing-AreGiven device_safety_offset scope wanted = (refl, refl)

  rate-AreGiven :
      (c : Rate) (scope : Scope) (wanted : Bool)
      → AreGiven (settable_rate c wanted) (size_rate o v number c scope wanted d)
  unfolding settable_rate size_rate reply
  rate-AreGiven time_stamp_period scope wanted = (refl, refl)
  rate-AreGiven sample_rate scope wanted = (refl, refl)
  rate-AreGiven sample_rates scope wanted = (refl, refl)
  rate-AreGiven stereo_channels scope wanted = (refl, refl)
  rate-AreGiven channel_layout scope wanted = (refl, refl)

  condition-AreGiven :
      (c : Condition) (scope : Scope) (wanted : Bool)
      → AreGiven (settable_condition c wanted) (size_condition o v number c scope wanted d)
  unfolding settable_condition size_condition reply
  condition-AreGiven running scope wanted = (refl, refl)
  condition-AreGiven identify scope wanted = (refl, refl)
  condition-AreGiven alive scope wanted = (refl, refl)
  condition-AreGiven hidden scope wanted = (refl, refl)
  condition-AreGiven default_device scope wanted = (refl, refl)
  condition-AreGiven default_system_device scope wanted = (refl, refl)

  content-AreGiven :
      (c : Content) (scope : Scope) (wanted : Bool)
      → AreGiven (settable_content c wanted) (size_content o v number c scope wanted d)
  unfolding settable_content size_content reply
  content-AreGiven device_streams scope wanted = (refl, refl)
  content-AreGiven control_list scope wanted = (refl, refl)

  selector-AreGiven :
      (sel : DeviceSelector) (scope : Scope) (wanted has : Bool) (r : Reply Bool) (q : Reply ℕ)
      → (has ≡ true → AreGiven r q)
      → has_selector sel scope has ≡ true
      → AreGiven (settable_selector sel wanted r) (size_selector o v number sel scope wanted d q)
  unfolding has_selector settable_selector size_selector
  selector-AreGiven (identity c) scope wanted has r q f h = identity-AreGiven c scope wanted
  selector-AreGiven (description c) scope wanted has r q f h = description-AreGiven c scope wanted
  selector-AreGiven (timing c) scope wanted has r q f h = timing-AreGiven c scope wanted
  selector-AreGiven (rate c) scope wanted has r q f h = rate-AreGiven c scope wanted
  selector-AreGiven (condition c) scope wanted has r q f h = condition-AreGiven c scope wanted
  selector-AreGiven (content c) scope wanted has r q f h = content-AreGiven c scope wanted
  selector-AreGiven (inherited sel) scope wanted has r q f h = f h

  -- A property that a device reports to have, inherited and custom ones included, is answered
  -- without error by IsPropertySettable and GetPropertyDataSize, whether or not their output
  -- pointers are null.
  pub has_property-AreGiven :
      (object_id : ℕ) (address : Option (Address DeviceSelector)) (wanted : Bool)
      → has_property o number object_id address ≡ true
      → AreGiven
          (is_property_settable o number object_id address wanted)
          (get_property_data_size o v number object_id address wanted d)
  unfolding has_property is_property_settable get_property_data_size
  has_property-AreGiven object_id none wanted h = ground arith
  has_property-AreGiven object_id (some address) wanted h =
      let base =
        object_has_property-AreGiven o d object_id
          (some (re_address (selector_number number address.selector) address)) wanted in
      either-AreGiven (object_id == o.self_id) _ _ _ _ _ _
        (selector-AreGiven address.selector address.scope wanted _ _ _ base) base h
