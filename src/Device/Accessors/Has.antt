-- ===== src/Device/Accessors/Has.antt =====
-- src/Device.g.cpp: Device::HasProperty.
use lib_aspl.Prelude.{ℕ, Bool, true, false, Option, none, some, ◌==◌, if◌then◌else◌}
use lib_aspl.Object.Accessors.{ObjectView, has_property as object_has_property}
use lib_aspl.Accessor.{Scope, Address, re_address, in_or_out}
use lib_aspl.Device.Accessors.{
  Identity, name, manufacturer, device_uid, model_uid, serial_number, Description, firmware_version,
  icon, configuration_application, transport_type, related_devices, Timing, clock_is_stable,
  clock_algorithm, clock_domain, device_latency, device_safety_offset, Rate, time_stamp_period,
  sample_rate, sample_rates, stereo_channels, channel_layout, Condition, running, identify, alive,
  hidden, default_device, default_system_device, Content, device_streams, control_list,
  DeviceSelector, identity, description, timing, rate, condition, content, inherited,
  selector_number,
}

unfoldable pub has_identity : Identity → Bool
has_identity name = true
has_identity manufacturer = true
has_identity device_uid = true
has_identity model_uid = true
has_identity serial_number = true

unfoldable pub has_description : Description → Bool
has_description firmware_version = true
has_description icon = true
has_description configuration_application = true
has_description transport_type = true
has_description related_devices = true

unfoldable pub has_timing : Timing → Scope → Bool
unfolding in_or_out
has_timing clock_is_stable scope = true
has_timing clock_algorithm scope = true
has_timing clock_domain scope = true
has_timing device_latency scope = in_or_out scope
has_timing device_safety_offset scope = in_or_out scope

unfoldable pub has_rate : Rate → Scope → Bool
unfolding in_or_out
has_rate time_stamp_period scope = true
has_rate sample_rate scope = true
has_rate sample_rates scope = true
has_rate stereo_channels scope = in_or_out scope
has_rate channel_layout scope = in_or_out scope

unfoldable pub has_condition : Condition → Scope → Bool
unfolding in_or_out
has_condition running scope = true
has_condition identify scope = true
has_condition alive scope = true
has_condition hidden scope = true
has_condition default_device scope = in_or_out scope
has_condition default_system_device scope = in_or_out scope

unfoldable pub has_content : Content → Bool
has_content device_streams = true
has_content control_list = true

unfoldable pub has_selector : DeviceSelector → Scope → (otherwise : Bool) → Bool
unfolding has_identity has_description has_timing has_rate has_condition has_content
has_selector (identity c) scope otherwise = has_identity c
has_selector (description c) scope otherwise = has_description c
has_selector (timing c) scope otherwise = has_timing c scope
has_selector (rate c) scope otherwise = has_rate c scope
has_selector (condition c) scope otherwise = has_condition c scope
has_selector (content c) scope otherwise = has_content c
has_selector (inherited sel) scope otherwise = otherwise

module _ {V D : Type 0} (o : ObjectView V D) (number : DeviceSelector → ℕ) where
  unfoldable pub has_property : (object_id : ℕ) → Option (Address DeviceSelector) → Bool
  unfolding has_selector
  has_property object_id none = false
  has_property object_id (some address) =
      let base =
        object_has_property o object_id
          (some (re_address (selector_number number address.selector) address)) in
      if object_id == o.self_id then has_selector address.selector address.scope base else base
