-- ===== src/Device/Accessors/Within.antt =====
-- src/Device.g.cpp: the calls on the properties of a device never write more than the caller's buffer has
-- room for.
use lib_aspl.Prelude.{ℕ, refl, Option, none, some, ◌==◌, arith}
use lib_aspl.Object.Accessors.{ObjectView}
use lib_aspl.Object.Accessors.Within.{
  HoldsReferences, refused-IsWithin, either-IsWithin,
  get_property_data-IsWithin as object_get_property_data-IsWithin,
}
use lib_aspl.Accessor.Fits.{
  IsWithin, size_of, reply_value-IsWithin, reply_array-IsWithin, reply_whole-IsWithin,
}
use lib_aspl.Accessor.{
  Scope, Address, re_address, Value, uint32_array, byte_array, range_array, Buffers, DataReply,
}
use lib_aspl.Device.Accessors.{
  Identity, name, manufacturer, device_uid, model_uid, serial_number, Description, firmware_version,
  icon, configuration_application, transport_type, related_devices, Timing, clock_is_stable,
  clock_algorithm, clock_domain, device_latency, device_safety_offset, Rate, time_stamp_period,
  sample_rate, sample_rates, stereo_channels, channel_layout, Condition, running, identify, alive,
  hidden, default_device, default_system_device, Content, device_streams, control_list,
  DeviceSelector, identity, description, timing, rate, condition, content, inherited,
  selector_number, DeviceView,
}
use lib_aspl.Device.Accessors.Data.{
  data_identity, data_description, data_timing, data_rate, data_condition, data_content,
  data_selector, get_property_data,
}

module _ {F W V D : Type 0} (o : ObjectView V D) (v : D → DeviceView F W) (b : Buffers)
    (number : DeviceSelector → ℕ) (d : D) where
  identity-IsWithin :
      (c : Identity) (scope : Scope)
      → IsWithin {F = F} {W = W} {V = V} b (data_identity o v number c scope b d)
  unfolding data_identity size_of
  identity-IsWithin name scope = reply_value-IsWithin 8 b _ (omega arith)
  identity-IsWithin manufacturer scope = reply_value-IsWithin 8 b _ (omega arith)
  identity-IsWithin device_uid scope = reply_value-IsWithin 8 b _ (omega arith)
  identity-IsWithin model_uid scope = reply_value-IsWithin 8 b _ (omega arith)
  identity-IsWithin serial_number scope = reply_value-IsWithin 8 b _ (omega arith)

  description-IsWithin :
      (c : Description) (scope : Scope)
      → IsWithin {F = F} {W = W} {V = V} b (data_description o v number c scope b d)
  unfolding data_description size_of
  description-IsWithin firmware_version scope = reply_value-IsWithin 8 b _ (omega arith)
  description-IsWithin icon scope = reply_value-IsWithin 8 b _ (omega arith)
  description-IsWithin configuration_application scope = reply_value-IsWithin 8 b _ (omega arith)
  description-IsWithin transport_type scope = reply_value-IsWithin 4 b _ (omega arith)
  description-IsWithin related_devices scope = reply_array-IsWithin 4 b uint32_array _ (λ l. refl)

  timing-IsWithin :
      (c : Timing) (scope : Scope)
      → IsWithin {F = F} {W = W} {V = V} b (data_timing o v number c scope b d)
  unfolding data_timing size_of
  timing-IsWithin clock_is_stable scope = reply_value-IsWithin 4 b _ (omega arith)
  timing-IsWithin clock_algorithm scope = reply_value-IsWithin 4 b _ (omega arith)
  timing-IsWithin clock_domain scope = reply_value-IsWithin 4 b _ (omega arith)
  timing-IsWithin device_latency scope = reply_value-IsWithin 4 b _ (omega arith)
  timing-IsWithin device_safety_offset scope = reply_value-IsWithin 4 b _ (omega arith)

  rate-IsWithin :
      (c : Rate) (scope : Scope)
      → IsWithin {F = F} {W = W} {V = V} b (data_rate o v number c scope b d)
  unfolding data_rate size_of
  rate-IsWithin time_stamp_period scope = reply_value-IsWithin 4 b _ (omega arith)
  rate-IsWithin sample_rate scope = reply_value-IsWithin 8 b _ (omega arith)
  rate-IsWithin sample_rates scope = reply_array-IsWithin 16 b range_array _ (λ l. refl)
  rate-IsWithin stereo_channels scope = reply_array-IsWithin 4 b uint32_array _ (λ l. refl)
  rate-IsWithin channel_layout scope = reply_whole-IsWithin 1 b byte_array _ refl

  condition-IsWithin :
      (c : Condition) (scope : Scope)
      → IsWithin {F = F} {W = W} {V = V} b (data_condition o v number c scope b d)
  unfolding data_condition size_of
  condition-IsWithin running scope = reply_value-IsWithin 4 b _ (omega arith)
  condition-IsWithin identify scope = reply_value-IsWithin 4 b _ (omega arith)
  condition-IsWithin alive scope = reply_value-IsWithin 4 b _ (omega arith)
  condition-IsWithin hidden scope = reply_value-IsWithin 4 b _ (omega arith)
  condition-IsWithin default_device scope = reply_value-IsWithin 4 b _ (omega arith)
  condition-IsWithin default_system_device scope = reply_value-IsWithin 4 b _ (omega arith)

  content-IsWithin :
      (c : Content) (scope : Scope)
      → IsWithin {F = F} {W = W} {V = V} b (data_content o v number c scope b d)
  unfolding data_content size_of
  content-IsWithin device_streams scope = reply_array-IsWithin 4 b uint32_array _ (λ l. refl)
  content-IsWithin control_list scope = reply_array-IsWithin 4 b uint32_array _ (λ l. refl)

  selector-IsWithin :
      (sel : DeviceSelector) (scope : Scope) (otherwise : DataReply (Value F W V))
      → IsWithin b otherwise
      → IsWithin b (data_selector o v number sel scope b d otherwise)
  unfolding data_selector
  selector-IsWithin (identity c) scope otherwise w = identity-IsWithin c scope
  selector-IsWithin (description c) scope otherwise w = description-IsWithin c scope
  selector-IsWithin (timing c) scope otherwise w = timing-IsWithin c scope
  selector-IsWithin (rate c) scope otherwise w = rate-IsWithin c scope
  selector-IsWithin (condition c) scope otherwise w = condition-IsWithin c scope
  selector-IsWithin (content c) scope otherwise w = content-IsWithin c scope
  selector-IsWithin (inherited sel) scope otherwise w = w

  -- If every custom property is registered with the size of a reference, then whatever object,
  -- property and buffer GetPropertyData of a device is called with, neither the size that it
  -- reports nor the bytes that it writes exceed inDataSize.
  pub get_property_data-IsWithin :
      (object_id : ℕ) (address : Option (Address DeviceSelector))
      → HoldsReferences o.custom_properties
      → IsWithin {F = F} {W = W} b (get_property_data o v number object_id address b d)
  unfolding get_property_data
  get_property_data-IsWithin object_id none sized = refused-IsWithin b _ refl refl
  get_property_data-IsWithin object_id (some address) sized =
      let w =
        object_get_property_data-IsWithin b o d object_id
          (some (re_address (selector_number number address.selector) address)) sized in
      either-IsWithin b (object_id == o.self_id) _ _
        (selector-IsWithin address.selector address.scope _ w) w
