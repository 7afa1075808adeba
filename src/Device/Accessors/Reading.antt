-- ===== src/Device/Accessors/Reading.antt =====
-- src/Device.g.cpp: what the HAL reads from a device when it asks for the size of a property first.
use lib_aspl.Prelude.{ℕ, ◌^◌, ◌<◌, ◌≡◌, refl, true, Option, none, some, ◌==◌, arith}
use lib_aspl.Object.Accessors.{ObjectView}
use lib_aspl.Accessor.Fits.{
  size_of, ReadsWhole, reply_value-ReadsWhole, reply_array-ReadsWhole, reply_whole-ReadsWhole,
  own-ReadsWhole,
}
use lib_aspl.Accessor.{
  Scope, Address, Value, uint32, float64, cf_string, cf_url, uint32_array, byte_array, range_array,
  to_foundation, Buffers, Reply, DataReply,
}
use lib_aspl.Device.Accessors.{
  Identity, name, manufacturer, device_uid, model_uid, serial_number, Description, firmware_version,
  icon, configuration_application, transport_type, related_devices, Timing, clock_is_stable,
  clock_algorithm, clock_domain, device_latency, device_safety_offset, Rate, time_stamp_period,
  sample_rate, sample_rates, stereo_channels, channel_layout, Condition, running, identify, alive,
  hidden, default_device, default_system_device, Content, device_streams, control_list,
  DeviceSelector, identity, description, timing, rate, condition, content, inherited, DeviceView,
}
use lib_aspl.Device.Accessors.Size.{
  size_identity, size_description, size_timing, size_rate, size_condition, size_content,
  size_selector, get_property_data_size,
}
use lib_aspl.Device.Accessors.Data.{
  data_identity, data_description, data_timing, data_rate, data_condition, data_content,
  data_selector, get_property_data,
}

module _ {F W V D : Type 0} (o : ObjectView V D) (v : D → DeviceView F W)
    (number : DeviceSelector → ℕ) where
  unfoldable pub value_identity : Identity → (scope : Scope) → D → Value F W V
  value_identity name scope d = cf_string (v d).name_text
  value_identity manufacturer scope d = cf_string (v d).manufacturer_text
  value_identity device_uid scope d = cf_string (v d).device_uid_text
  value_identity model_uid scope d = cf_string (v d).model_uid_text
  value_identity serial_number scope d = cf_string (v d).serial_number_text

  unfoldable pub value_description : Description → (scope : Scope) → D → Value F W V
  value_description firmware_version scope d = cf_string (v d).firmware_version_text
  value_description icon scope d = cf_url (v d).icon_url
  value_description configuration_application scope d =
      cf_string (v d).configuration_application_bundle_id
  value_description transport_type scope d = uint32 (v d).transport_type_code
  value_description related_devices scope d = uint32_array (v d).related_device_ids

  unfoldable pub value_timing : Timing → (scope : Scope) → D → Value F W V
  unfolding to_foundation
  value_timing clock_is_stable scope d = uint32 (to_foundation (v d).is_clock_stable)
  value_timing clock_algorithm scope d = uint32 (v d).clock_algorithm_code
  value_timing clock_domain scope d = uint32 (v d).clock_domain_number
  value_timing device_latency scope d = uint32 (v d).latency
  value_timing device_safety_offset scope d = uint32 (v d).safety_offset

  unfoldable pub value_rate : Rate → (scope : Scope) → D → Value F W V
  value_rate time_stamp_period scope d = uint32 (v d).zero_time_stamp_period
  value_rate sample_rate scope d = float64 (v d).nominal_sample_rate
  value_rate sample_rates scope d = range_array (v d).available_sample_rates
  value_rate stereo_channels scope d = uint32_array (v d).preferred_channels_for_stereo
  value_rate channel_layout scope d = byte_array (v d).preferred_channel_layout

  unfoldable pub value_condition : Condition → (scope : Scope) → D → Value F W V
  unfolding to_foundation
  value_condition running scope d = uint32 (to_foundation (v d).is_running)
  value_condition identify scope d = uint32 (to_foundation (v d).is_identifying)
  value_condition alive scope d = uint32 (to_foundation (v d).is_alive)
  value_condition hidden scope d = uint32 (to_foundation (v d).is_hidden)
  value_condition default_device scope d = uint32 (to_foundation (v d).can_be_default_device)
  value_condition default_system_device scope d =
      uint32 (to_foundation (v d).can_be_default_system_device)

  unfoldable pub value_content : Content → (scope : Scope) → D → Value F W V
  value_content device_streams scope d = uint32_array ((v d).stream_ids scope)
  value_content control_list scope d = uint32_array (v d).control_ids

  -- The value of a property that the class lists.
  unfoldable pub listed_value : DeviceSelector → (scope : Scope) → D → Option (Value F W V)
  unfolding value_identity value_description value_timing value_rate value_condition value_content
  listed_value (identity c) scope d = some (value_identity c scope d)
  listed_value (description c) scope d = some (value_description c scope d)
  listed_value (timing c) scope d = some (value_timing c scope d)
  listed_value (rate c) scope d = some (value_rate c scope d)
  listed_value (condition c) scope d = some (value_condition c scope d)
  listed_value (content c) scope d = some (value_content c scope d)
  listed_value (inherited sel) scope d = none

module _ {F W V D : Type 0} (o : ObjectView V D) (v : D → DeviceView F W)
    (number : DeviceSelector → ℕ) (d : D) (b : Buffers) where
  identity-ReadsWhole :
      (c : Identity) (scope : Scope)
      → size_of {F = F} {W = W} {V = V} (value_identity o v number c scope d) < 2 ^ 32
      → ReadsWhole {F = F} {W = W} {V = V}
          (value_identity o v number c scope d)
          b
          (size_identity o v number c scope true d)
          (data_identity o v number c scope b d)
  unfolding value_identity size_identity data_identity size_of to_foundation
  identity-ReadsWhole name scope small = reply_value-ReadsWhole 8 b _ refl
  identity-ReadsWhole manufacturer scope small = reply_value-ReadsWhole 8 b _ refl
  identity-ReadsWhole device_uid scope small = reply_value-ReadsWhole 8 b _ refl
  identity-ReadsWhole model_uid scope small = reply_value-ReadsWhole 8 b _ refl
  identity-ReadsWhole serial_number scope small = reply_value-ReadsWhole 8 b _ refl

  description-ReadsWhole :
      (c : Description) (scope : Scope)
      → size_of {F = F} {W = W} {V = V} (value_description o v number c scope d) < 2 ^ 32
      → ReadsWhole {F = F} {W = W} {V = V}
          (value_description o v number c scope d)
          b
          (size_description o v number c scope true d)
          (data_description o v number c scope b d)
  unfolding value_description size_description data_description size_of to_foundation
  description-ReadsWhole firmware_version scope small = reply_value-ReadsWhole 8 b _ refl
  description-ReadsWhole icon scope small = reply_value-ReadsWhole 8 b _ refl
  description-ReadsWhole configuration_application scope small = reply_value-ReadsWhole 8 b _ refl
  description-ReadsWhole transport_type scope small = reply_value-ReadsWhole 4 b _ refl
  description-ReadsWhole related_devices scope small =
      reply_array-ReadsWhole 4 b uint32_array _ refl small (omega arith)

  timing-ReadsWhole :
      (c : Timing) (scope : Scope)
      → size_of {F = F} {W = W} {V = V} (value_timing o v number c scope d) < 2 ^ 32
      → ReadsWhole {F = F} {W = W} {V = V}
          (value_timing o v number c scope d)
          b
          (size_timing o v number c scope true d)
          (data_timing o v number c scope b d)
  unfolding value_timing size_timing data_timing size_of to_foundation
  timing-ReadsWhole clock_is_stable scope small = reply_value-ReadsWhole 4 b _ refl
  timing-ReadsWhole clock_algorithm scope small = reply_value-ReadsWhole 4 b _ refl
  timing-ReadsWhole clock_domain scope small = reply_value-ReadsWhole 4 b _ refl
  timing-ReadsWhole device_latency scope small = reply_value-ReadsWhole 4 b _ refl
  timing-ReadsWhole device_safety_offset scope small = reply_value-ReadsWhole 4 b _ refl

  rate-ReadsWhole :
      (c : Rate) (scope : Scope)
      → size_of {F = F} {W = W} {V = V} (value_rate o v number c scope d) < 2 ^ 32
      → ReadsWhole {F = F} {W = W} {V = V}
          (value_rate o v number c scope d)
          b
          (size_rate o v number c scope true d)
          (data_rate o v number c scope b d)
  unfolding value_rate size_rate data_rate size_of to_foundation
  rate-ReadsWhole time_stamp_period scope small = reply_value-ReadsWhole 4 b _ refl
  rate-ReadsWhole sample_rate scope small = reply_value-ReadsWhole 8 b _ refl
  rate-ReadsWhole sample_rates scope small =
      reply_array-ReadsWhole 16 b range_array _ refl small (omega arith)
  rate-ReadsWhole stereo_channels scope small =
      reply_array-ReadsWhole 4 b uint32_array _ refl small (omega arith)
  rate-ReadsWhole channel_layout scope small = reply_whole-ReadsWhole 1 b byte_array _ refl small

  condition-ReadsWhole :
      (c : Condition) (scope : Scope)
      → size_of {F = F} {W = W} {V = V} (value_condition o v number c scope d) < 2 ^ 32
      → ReadsWhole {F = F} {W = W} {V = V}
          (value_condition o v number c scope d)
          b
          (size_condition o v number c scope true d)
          (data_condition o v number c scope b d)
  unfolding value_condition size_condition data_condition size_of to_foundation
  condition-ReadsWhole running scope small = reply_value-ReadsWhole 4 b _ refl
  condition-ReadsWhole identify scope small = reply_value-ReadsWhole 4 b _ refl
  condition-ReadsWhole alive scope small = reply_value-ReadsWhole 4 b _ refl
  condition-ReadsWhole hidden scope small = reply_value-ReadsWhole 4 b _ refl
  condition-ReadsWhole default_device scope small = reply_value-ReadsWhole 4 b _ refl
  condition-ReadsWhole default_system_device scope small = reply_value-ReadsWhole 4 b _ refl

  content-ReadsWhole :
      (c : Content) (scope : Scope)
      → size_of {F = F} {W = W} {V = V} (value_content o v number c scope d) < 2 ^ 32
      → ReadsWhole {F = F} {W = W} {V = V}
          (value_content o v number c scope d)
          b
          (size_content o v number c scope true d)
          (data_content o v number c scope b d)
  unfolding value_content size_content data_content size_of to_foundation
  content-ReadsWhole device_streams scope small =
      reply_array-ReadsWhole 4 b uint32_array _ refl small (omega arith)
  content-ReadsWhole control_list scope small =
      reply_array-ReadsWhole 4 b uint32_array _ refl small (omega arith)

  selector-ReadsWhole :
      (sel : DeviceSelector) (scope : Scope) (value : Value F W V) (q : Reply ℕ)
      (r : DataReply (Value F W V))
      → listed_value o v number sel scope d ≡ some value
      → size_of value < 2 ^ 32
      → ReadsWhole value b
          (size_selector o v number sel scope true d q)
          (data_selector o v number sel scope b d r)
  unfolding listed_value size_selector data_selector
  selector-ReadsWhole (identity c) scope value q r e small =
      ground (arith, identity-ReadsWhole c scope (ground arith))
  selector-ReadsWhole (description c) scope value q r e small =
      ground (arith, description-ReadsWhole c scope (ground arith))
  selector-ReadsWhole (timing c) scope value q r e small =
      ground (arith, timing-ReadsWhole c scope (ground arith))
  selector-ReadsWhole (rate c) scope value q r e small =
      ground (arith, rate-ReadsWhole c scope (ground arith))
  selector-ReadsWhole (condition c) scope value q r e small =
      ground (arith, condition-ReadsWhole c scope (ground arith))
  selector-ReadsWhole (content c) scope value q r e small =
      ground (arith, content-ReadsWhole c scope (ground arith))
  selector-ReadsWhole (inherited sel) scope value q r e small = ground arith

  -- A property that the class of a device lists, with a value of less than 4 GiB, is read whole:
  -- GetPropertyDataSize reports the size of the value, and GetPropertyData with a buffer of that
  -- size or more succeeds, reports the size and gives the value.
  pub get_property_data-ReadsWhole :
      (address : Address DeviceSelector) (value : Value F W V)
      → listed_value o v number address.selector address.scope d ≡ some value
      → size_of value < 2 ^ 32
      → ReadsWhole value b
          (get_property_data_size o v number o.self_id (some address) true d)
          (get_property_data o v number o.self_id (some address) b d)
  unfolding get_property_data_size get_property_data
  get_property_data-ReadsWhole address value e small =
      own-ReadsWhole value b (o.self_id == o.self_id) _ _ _ _ (ground arith)
        (selector-ReadsWhole address.selector address.scope value _ _ e small)
