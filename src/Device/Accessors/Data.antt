-- ===== src/Device/Accessors/Data.antt =====
-- src/Device.g.cpp: Device::GetPropertyData.
use lib_aspl.Prelude.{ℕ, Option, none, some, ◌==◌, if◌then◌else◌}
use lib_aspl.Status.{illegal_operation_error}
use lib_aspl.Object.Accessors.{ObjectView, get_property_data as object_get_property_data}
use lib_aspl.Accessor.{
  Scope, Address, re_address, Value, uint32, float64, cf_string, cf_url, uint32_array, byte_array,
  range_array, to_foundation, Buffers, DataReply, reply_value, reply_array, reply_whole,
}
use lib_aspl.Device.Accessors.{
  Identity, name, manufacturer, device_uid, model_uid, serial_number, Description, firmware_version,
  icon, configuration_application, transport_type, related_devices, Timing, clock_is_stable,
  clock_algorithm, clock_domain, device_latency, device_safety_offset, Rate, time_stamp_period,
  sample_rate, sample_rates, stereo_channels, channel_layout, Condition, running, identify, alive,
  hidden, default_device, default_system_device, Content, device_streams, control_list,
  DeviceSelector, identity, description, timing, rate, condition, content, inherited,
  selector_number, DeviceView,
}

module _ {F W V D : Type 0} (o : ObjectView V D) (v : D → DeviceView F W)
    (number : DeviceSelector → ℕ) where
  unfoldable pub data_identity :
      Identity → (scope : Scope) (b : Buffers) → D → DataReply (Value F W V)
  unfolding reply_value
  data_identity name scope b d = reply_value 8 b (cf_string (v d).name_text)
  data_identity manufacturer scope b d = reply_value 8 b (cf_string (v d).manufacturer_text)
  data_identity device_uid scope b d = reply_value 8 b (cf_string (v d).device_uid_text)
  data_identity model_uid scope b d = reply_value 8 b (cf_string (v d).model_uid_text)
  data_identity serial_number scope b d = reply_value 8 b (cf_string (v d).serial_number_text)

  unfoldable pub data_description :
      Description → (scope : Scope) (b : Buffers) → D → DataReply (Value F W V)
  unfolding reply_array reply_value
  data_description firmware_version scope b d =
      reply_value 8 b (cf_string (v d).firmware_version_text)
  data_description icon scope b d = reply_value 8 b (cf_url (v d).icon_url)
  data_description configuration_application scope b d =
      reply_value 8 b (cf_string (v d).configuration_application_bundle_id)
  data_description transport_type scope b d = reply_value 4 b (uint32 (v d).transport_type_code)
  data_description related_devices scope b d = reply_array 4 b uint32_array (v d).related_device_ids

  unfoldable pub data_timing : Timing → (scope : Scope) (b : Buffers) → D → DataReply (Value F W V)
  unfolding reply_value to_foundation
  data_timing clock_is_stable scope b d =
      reply_value 4 b (uint32 (to_foundation (v d).is_clock_stable))
  data_timing clock_algorithm scope b d = reply_value 4 b (uint32 (v d).clock_algorithm_code)
  data_timing clock_domain scope b d = reply_value 4 b (uint32 (v d).clock_domain_number)
  data_timing device_latency scope b d = reply_value 4 b (uint32 (v d).latency)
  data_timing device_safety_offset scope b d = reply_value 4 b (uint32 (v d).safety_offset)

  unfoldable pub data_rate : Rate → (scope : Scope) (b : Buffers) → D → DataReply (Value F W V)
  unfolding reply_array reply_value reply_whole
  data_rate time_stamp_period scope b d = reply_value 4 b (uint32 (v d).zero_time_stamp_period)
  data_rate sample_rate scope b d = reply_value 8 b (float64 (v d).nominal_sample_rate)
  data_rate sample_rates scope b d = reply_array 16 b range_array (v d).available_sample_rates
  data_rate stereo_channels scope b d =
      reply_array 4 b uint32_array (v d).preferred_channels_for_stereo
  data_rate channel_layout scope b d = reply_whole 1 b byte_array (v d).preferred_channel_layout

  unfoldable pub data_condition :
      Condition → (scope : Scope) (b : Buffers) → D → DataReply (Value F W V)
  unfolding reply_value to_foundation
  data_condition running scope b d = reply_value 4 b (uint32 (to_foundation (v d).is_running))
  data_condition identify scope b d = reply_value 4 b (uint32 (to_foundation (v d).is_identifying))
  data_condition alive scope b d = reply_value 4 b (uint32 (to_foundation (v d).is_alive))
  data_condition hidden scope b d = reply_value 4 b (uint32 (to_foundation (v d).is_hidden))
  data_condition default_device scope b d =
      reply_value 4 b (uint32 (to_foundation (v d).can_be_default_device))
  data_condition default_system_device scope b d =
      reply_value 4 b (uint32 (to_foundation (v d).can_be_default_system_device))

  unfoldable pub data_content :
      Content → (scope : Scope) (b : Buffers) → D → DataReply (Value F W V)
  unfolding reply_array
  data_content device_streams scope b d = reply_array 4 b uint32_array ((v d).stream_ids scope)
  data_content control_list scope b d = reply_array 4 b uint32_array (v d).control_ids

  unfoldable pub data_selector :
      DeviceSelector
      → (scope : Scope) (b : Buffers) → D
      → (otherwise : DataReply (Value F W V)) → DataReply (Value F W V)
  unfolding data_identity data_description data_timing data_rate data_condition data_content
  data_selector (identity c) scope b d otherwise = data_identity c scope b d
  data_selector (description c) scope b d otherwise = data_description c scope b d
  data_selector (timing c) scope b d otherwise = data_timing c scope b d
  data_selector (rate c) scope b d otherwise = data_rate c scope b d
  data_selector (condition c) scope b d otherwise = data_condition c scope b d
  data_selector (content c) scope b d otherwise = data_content c scope b d
  data_selector (inherited sel) scope b d otherwise = otherwise

  unfoldable pub get_property_data :
      (object_id : ℕ)
      → Option (Address DeviceSelector)
      → (b : Buffers) → D
      → DataReply (Value F W V)
  unfolding data_selector
  get_property_data object_id none b d = (illegal_operation_error, none, none)
  get_property_data object_id (some address) b d =
      let base : DataReply (Value F W V) =
        object_get_property_data o object_id
          (some (re_address (selector_number number address.selector) address)) b d in
      if object_id == o.self_id then data_selector address.selector address.scope b d base else base
