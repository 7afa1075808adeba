-- ===== src/Device/Accessors/Size.antt =====
-- src/Device.g.cpp: Device::GetPropertyDataSize.
use lib_aspl.Prelude.{ℕ, Bool, Option, none, some, ◌==◌, if◌then◌else◌, length}
use lib_aspl.Status.{illegal_operation_error}
use lib_aspl.Object.Accessors.{ObjectView, get_property_data_size as object_get_property_data_size}
use lib_aspl.Accessor.{Scope, Address, re_address, Reply, reply, byte_size}
use lib_aspl.Device.Accessors.{
  Identity, name, manufacturer, device_uid, model_uid, serial_number, Description, firmware_version,
  icon, configuration_application, transport_type, related_devices, Timing, clock_is_stable,
  clock_algorithm, clock_domain, device_latency, device_safety_offset, Rate, time_stamp_period,
  sample_rate, sample_rates, stereo_channels, channel_layout, Condition, running, identify, alive,
  hidden, default_device, default_system_device, Content, device_streams, control_list,
  DeviceSelector, identity, description, timing, rate, condition, content, inherited,
  selector_number, DeviceView,
}

module _ {F W V D : Type 0} (o : ObjectView V D) (v : D → DeviceView F W)
    (number : DeviceSelector → ℕ) where
  unfoldable pub size_identity : Identity → (scope : Scope) (wanted : Bool) → D → Reply ℕ
  unfolding reply
  size_identity name scope wanted d = reply wanted 8
  size_identity manufacturer scope wanted d = reply wanted 8
  size_identity device_uid scope wanted d = reply wanted 8
  size_identity model_uid scope wanted d = reply wanted 8
  size_identity serial_number scope wanted d = reply wanted 8

  unfoldable pub size_description : Description → (scope : Scope) (wanted : Bool) → D → Reply ℕ
  unfolding reply
  size_description firmware_version scope wanted d = reply wanted 8
  size_description icon scope wanted d = reply wanted 8
  size_description configuration_application scope wanted d = reply wanted 8
  size_description transport_type scope wanted d = reply wanted 4
  size_description related_devices scope wanted d =
      reply wanted (byte_size 4 (length (v d).related_device_ids))

  unfoldable pub size_timing : Timing → (scope : Scope) (wanted : Bool) → D → Reply ℕ
  unfolding reply
  size_timing clock_is_stable scope wanted d = reply wanted 4
  size_timing clock_algorithm scope wanted d = reply wanted 4
  size_timing clock_domain scope wanted d = reply wanted 4
  size_timing device_latency scope wanted d = reply wanted 4
  size_timing device_safety_offset scope wanted d = reply wanted 4

  unfoldable pub size_rate : Rate → (scope : Scope) (wanted : Bool) → D → Reply ℕ
  unfolding reply
  size_rate time_stamp_period scope wanted d = reply wanted 4
  size_rate sample_rate scope wanted d = reply wanted 8
  size_rate sample_rates scope wanted d =
      reply wanted (byte_size 16 (length (v d).available_sample_rates))
  size_rate stereo_channels scope wanted d =
      reply wanted (byte_size 4 (length (v d).preferred_channels_for_stereo))
  size_rate channel_layout scope wanted d =
      reply wanted (byte_size 1 (length (v d).preferred_channel_layout))

  unfoldable pub size_condition : Condition → (scope : Scope) (wanted : Bool) → D → Reply ℕ
  unfolding reply
  size_condition running scope wanted d = reply wanted 4
  size_condition identify scope wanted d = reply wanted 4
  size_condition alive scope wanted d = reply wanted 4
  size_condition hidden scope wanted d = reply wanted 4
  size_condition default_device scope wanted d = reply wanted 4
  size_condition default_system_device scope wanted d = reply wanted 4

  unfoldable pub size_content : Content → (scope : Scope) (wanted : Bool) → D → Reply ℕ
  unfolding reply
  size_content device_streams scope wanted d =
      reply wanted (byte_size 4 (length ((v d).stream_ids scope)))
  size_content control_list scope wanted d = reply wanted (byte_size 4 (length (v d).control_ids))

  unfoldable pub size_selector :
      DeviceSelector → (scope : Scope) (wanted : Bool) → D → (otherwise : Reply ℕ) → Reply ℕ
  unfolding size_identity size_description size_timing size_rate size_condition size_content
  size_selector (identity c) scope wanted d otherwise = size_identity c scope wanted d
  size_selector (description c) scope wanted d otherwise = size_description c scope wanted d
  size_selector (timing c) scope wanted d otherwise = size_timing c scope wanted d
  size_selector (rate c) scope wanted d otherwise = size_rate c scope wanted d
  size_selector (condition c) scope wanted d otherwise = size_condition c scope wanted d
  size_selector (content c) scope wanted d otherwise = size_content c scope wanted d
  size_selector (inherited sel) scope wanted d otherwise = otherwise

  unfoldable pub get_property_data_size :
      (object_id : ℕ) → Option (Address DeviceSelector) → (wanted : Bool) → D → Reply ℕ
  unfolding size_selector
  get_property_data_size object_id none wanted d = (illegal_operation_error, none)
  get_property_data_size object_id (some address) wanted d =
      let base =
        object_get_property_data_size o object_id
          (some (re_address (selector_number number address.selector) address)) wanted d in
      if object_id == o.self_id
      then size_selector address.selector address.scope wanted d base
      else base
