-- ===== src/Device/Accessors/Settable.antt =====
-- src/Device.g.cpp: Device::IsPropertySettable.
use lib_aspl.Prelude.{ℕ, Bool, true, false, Option, none, some, ◌==◌, if◌then◌else◌}
use lib_aspl.Status.{illegal_operation_error}
use lib_aspl.Object.Accessors.{ObjectView, is_property_settable as object_is_property_settable}
use lib_aspl.Accessor.{Address, re_address, Reply, reply}
use lib_aspl.Device.Accessors.{
  Identity, name, manufacturer, device_uid, model_uid, serial_number, Description, firmware_version,
  icon, configuration_application, transport_type, related_devices, Timing, clock_is_stable,
  clock_algorithm, clock_domain, device_latency, device_safety_offset, Rate, time_stamp_period,
  sample_rate, sample_rates, stereo_channels, channel_layout, Condition, running, identify, alive,
  hidden, default_device, default_system_device, Content, device_streams, control_list,
  DeviceSelector, identity, description, timing, rate, condition, content, inherited,
  selector_number,
}

unfoldable pub settable_identity : Identity → (wanted : Bool) → Reply Bool
unfolding reply
settable_identity name wanted = reply wanted false
settable_identity manufacturer wanted = reply wanted false
settable_identity device_uid wanted = reply wanted false
settable_identity model_uid wanted = reply wanted false
settable_identity serial_number wanted = reply wanted false

unfoldable pub settable_description : Description → (wanted : Bool) → Reply Bool
unfolding reply
settable_description firmware_version wanted = reply wanted false
settable_description icon wanted = reply wanted false
settable_description configuration_application wanted = reply wanted false
settable_description transport_type wanted = reply wanted false
settable_description related_devices wanted = reply wanted false

unfoldable pub settable_timing : Timing → (wanted : Bool) → Reply Bool
unfolding reply
settable_timing clock_is_stable wanted = reply wanted false
settable_timing clock_algorithm wanted = reply wanted false
settable_timing clock_domain wanted = reply wanted false
settable_timing device_latency wanted = reply wanted false
settable_timing device_safety_offset wanted = reply wanted false

unfoldable pub settable_rate : Rate → (wanted : Bool) → Reply Bool
unfolding reply
settable_rate time_stamp_period wanted = reply wanted false
settable_rate sample_rate wanted = reply wanted true
settable_rate sample_rates wanted = reply wanted false
settable_rate stereo_channels wanted = reply wanted false
settable_rate channel_layout wanted = reply wanted false

unfoldable pub settable_condition : Condition → (wanted : Bool) → Reply Bool
unfolding reply
settable_condition running wanted = reply wanted false
settable_condition identify wanted = reply wanted true
settable_condition alive wanted = reply wanted false
settable_condition hidden wanted = reply wanted false
settable_condition default_device wanted = reply wanted false
settable_condition default_system_device wanted = reply wanted false

unfoldable pub settable_content : Content → (wanted : Bool) → Reply Bool
unfolding reply
settable_content device_streams wanted = reply wanted false
settable_content control_list wanted = reply wanted false

unfoldable pub settable_selector :
    DeviceSelector → (wanted : Bool) (otherwise : Reply Bool) → Reply Bool
unfolding settable_identity settable_description settable_timing settable_rate settable_condition
    settable_content
settable_selector (identity c) wanted otherwise = settable_identity c wanted
settable_selector (description c) wanted otherwise = settable_description c wanted
settable_selector (timing c) wanted otherwise = settable_timing c wanted
settable_selector (rate c) wanted otherwise = settable_rate c wanted
settable_selector (condition c) wanted otherwise = settable_condition c wanted
settable_selector (content c) wanted otherwise = settable_content c wanted
settable_selector (inherited sel) wanted otherwise = otherwise

module _ {V D : Type 0} (o : ObjectView V D) (number : DeviceSelector → ℕ) where
  unfoldable pub is_property_settable :
      (object_id : ℕ) → Option (Address DeviceSelector) → (wanted : Bool) → Reply Bool
  unfolding settable_selector
  is_property_settable object_id none wanted = (illegal_operation_error, none)
  is_property_settable object_id (some address) wanted =
      let base =
        object_is_property_settable o object_id
          (some (re_address (selector_number number address.selector) address)) wanted in
      if object_id == o.self_id then settable_selector address.selector wanted base else base
