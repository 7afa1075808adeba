-- ===== src/Device/Accessors/Guarded.antt =====
-- src/Device.g.cpp: what `SetPropertyData` refuses of a device, and that it agrees with the calls that describe
-- the property.
use lib_aspl.Prelude.{ℕ, ◌≡◌, Bool, true, false, Option, none, some, ◌==◌, lookup, arith}
use lib_aspl.Status.{Status, unknown_property_error}
use lib_aspl.Object.Properties.{set_property_data_fallback}
use lib_aspl.Object.Accessors.{ObjectView, set_property_data as object_set_property_data}
use lib_aspl.Accessor.{Scope, Address, re_address, from_foundation, Reply, Input, write, reply}
use lib_aspl.Accessor.Guarded.{IsGuarded, accept-Refuses, own-IsGuarded}
use lib_aspl.Device.Accessors.{
  Identity, name, manufacturer, device_uid, model_uid, serial_number, Description, firmware_version,
  icon, configuration_application, transport_type, related_devices, Timing, clock_is_stable,
  clock_algorithm, clock_domain, device_latency, device_safety_offset, Rate, time_stamp_period,
  sample_rate, sample_rates, stereo_channels, channel_layout, Condition, running, identify, alive,
  hidden, default_device, default_system_device, Content, device_streams, control_list,
  DeviceSelector, identity, description, timing, rate, condition, content, inherited,
  selector_number, DeviceView,
}
use lib_aspl.Device.Accessors.Settable.{
  settable_identity, settable_description, settable_timing, settable_rate, settable_condition,
  settable_content, settable_selector, is_property_settable,
}
use lib_aspl.Device.Accessors.Size.{
  size_identity, size_description, size_timing, size_rate, size_condition, size_content,
  size_selector, get_property_data_size,
}
use lib_aspl.Device.Accessors.Set.{set_rate, set_condition, set_selector, set_property_data}

abbrev pub is_inherited : DeviceSelector → Bool
is_inherited (inherited sel) = true
is_inherited _ = false

module _ {F W V D : Type 0} (o : ObjectView V D) (v : D → DeviceView F W)
    (number : DeviceSelector → ℕ) (set_nominal_sample_rate : F → D → Status × D)
    (set_is_identifying : Bool → D → Status × D) (d : D) (in_size : ℕ)
    (in_data : Option (Input F V)) where
  identity-IsGuarded :
      (c : Identity) (scope : Scope) (otherwise : Status × D)
      → otherwise ≡ (unknown_property_error, d)
      → IsGuarded
          (settable_identity c true)
          (size_identity o v number c scope true d)
          in_size
          in_data
          d
          otherwise
  unfolding settable_identity size_identity reply write
  identity-IsGuarded name scope otherwise w = w
  identity-IsGuarded manufacturer scope otherwise w = w
  identity-IsGuarded device_uid scope otherwise w = w
  identity-IsGuarded model_uid scope otherwise w = w
  identity-IsGuarded serial_number scope otherwise w = w

  description-IsGuarded :
      (c : Description) (scope : Scope) (otherwise : Status × D)
      → otherwise ≡ (unknown_property_error, d)
      → IsGuarded
          (settable_description c true)
          (size_description o v number c scope true d)
          in_size
          in_data
          d
          otherwise
  unfolding settable_description size_description reply write
  description-IsGuarded firmware_version scope otherwise w = w
  description-IsGuarded icon scope otherwise w = w
  description-IsGuarded configuration_application scope otherwise w = w
  description-IsGuarded transport_type scope otherwise w = w
  description-IsGuarded related_devices scope otherwise w = w

  timing-IsGuarded :
      (c : Timing) (scope : Scope) (otherwise : Status × D)
      → otherwise ≡ (unknown_property_error, d)
      → IsGuarded
          (settable_timing c true)
          (size_timing o v number c scope true d)
          in_size
          in_data
          d
          otherwise
  unfolding settable_timing size_timing reply write
  timing-IsGuarded clock_is_stable scope otherwise w = w
  timing-IsGuarded clock_algorithm scope otherwise w = w
  timing-IsGuarded clock_domain scope otherwise w = w
  timing-IsGuarded device_latency scope otherwise w = w
  timing-IsGuarded device_safety_offset scope otherwise w = w

  rate-IsGuarded :
      (c : Rate) (scope : Scope) (otherwise : Status × D)
      → otherwise ≡ (unknown_property_error, d)
      → IsGuarded (settable_rate c true) (size_rate o v number c scope true d) in_size in_data d (
          set_rate o number set_nominal_sample_rate set_is_identifying c in_size in_data d
            otherwise)
  unfolding settable_rate size_rate set_rate reply write
  rate-IsGuarded time_stamp_period scope otherwise w = w
  rate-IsGuarded sample_rate scope otherwise w =
      accept-Refuses 8 in_size in_data (λ input. set_nominal_sample_rate input.float64_at) d
  rate-IsGuarded sample_rates scope otherwise w = w
  rate-IsGuarded stereo_channels scope otherwise w = w
  rate-IsGuarded channel_layout scope otherwise w = w

  condition-IsGuarded :
      (c : Condition) (scope : Scope) (otherwise : Status × D)
      → otherwise ≡ (unknown_property_error, d)
      → IsGuarded
          (settable_condition c true)
          (size_condition o v number c scope true d)
          in_size
          in_data
          d
          (set_condition o number set_nominal_sample_rate set_is_identifying c in_size in_data d
            otherwise)
  unfolding settable_condition size_condition set_condition reply write
  condition-IsGuarded running scope otherwise w = w
  condition-IsGuarded identify scope otherwise w =
      accept-Refuses 4 in_size in_data
        (λ input. set_is_identifying (from_foundation input.uint32_at)) d
  condition-IsGuarded alive scope otherwise w = w
  condition-IsGuarded hidden scope otherwise w = w
  condition-IsGuarded default_device scope otherwise w = w
  condition-IsGuarded default_system_device scope otherwise w = w

  content-IsGuarded :
      (c : Content) (scope : Scope) (otherwise : Status × D)
      → otherwise ≡ (unknown_property_error, d)
      → IsGuarded
          (settable_content c true)
          (size_content o v number c scope true d)
          in_size
          in_data
          d
          otherwise
  unfolding settable_content size_content reply write
  content-IsGuarded device_streams scope otherwise w = w
  content-IsGuarded control_list scope otherwise w = w

  selector-IsGuarded :
      (sel : DeviceSelector) (scope : Scope) (q : Reply Bool) (p : Reply ℕ) (otherwise : Status × D)
      → is_inherited sel ≡ false
      → otherwise ≡ (unknown_property_error, d)
      → IsGuarded
          (settable_selector sel true q)
          (size_selector o v number sel scope true d p)
          in_size
          in_data
          d
          (set_selector o number set_nominal_sample_rate set_is_identifying sel in_size in_data d
            otherwise)
  unfolding settable_selector size_selector set_selector
  selector-IsGuarded (identity c) scope q p otherwise l w = identity-IsGuarded c scope otherwise w
  selector-IsGuarded (description c) scope q p otherwise l w =
      description-IsGuarded c scope otherwise w
  selector-IsGuarded (timing c) scope q p otherwise l w = timing-IsGuarded c scope otherwise w
  selector-IsGuarded (rate c) scope q p otherwise l w = rate-IsGuarded c scope otherwise w
  selector-IsGuarded (condition c) scope q p otherwise l w = condition-IsGuarded c scope otherwise w
  selector-IsGuarded (content c) scope q p otherwise l w = content-IsGuarded c scope otherwise w
  selector-IsGuarded (inherited sel) scope q p otherwise l w = cc

  base_refuses :
      (address : Address DeviceSelector)
      → is_inherited address.selector ≡ false
      → lookup (number address.selector) o.custom_properties ≡ none
      → object_set_property_data o o.self_id
          (some (re_address (selector_number number address.selector) address))
          in_size
          in_data
          d
        ≡ (unknown_property_error, d)
  unfolding object_set_property_data set_property_data_fallback
  base_refuses address listed unregistered = ground arith

  -- For a property that the class of a device lists and whose selector no custom property has,
  -- SetPropertyData agrees with the two calls that describe it: one not settable is refused as
  -- unknown, one that is settable is refused with another size than the reported one, and with a
  -- null pointer. No refusal changes the state.
  pub set_property_data-IsGuarded :
      (address : Address DeviceSelector)
      → is_inherited address.selector ≡ false
      → lookup (number address.selector) o.custom_properties ≡ none
      → IsGuarded
          (is_property_settable o number o.self_id (some address) true)
          (get_property_data_size o v number o.self_id (some address) true d)
          in_size
          in_data
          d
          (set_property_data o number set_nominal_sample_rate set_is_identifying o.self_id
            (some address)
            in_size
            in_data
            d)
  unfolding is_property_settable get_property_data_size set_property_data
  set_property_data-IsGuarded address listed unregistered =
      own-IsGuarded (o.self_id == o.self_id) _ _ _ _ in_size in_data d _ _ (ground arith) (
        selector-IsGuarded address.selector address.scope _ _ _ listed
          (base_refuses address listed unregistered))
