-- ===== src/Device/Accessors.antt =====
-- src/Device.g.cpp: the five calls of the HAL on the properties of a device. What the switch does not list
-- goes on to the base class, Object.
pub mod Has
pub mod Settable
pub mod Size
pub mod Data
pub mod Set
pub mod Reading
pub mod Described
pub mod Within
pub mod Guarded
mod Tests
use lib_aspl.Prelude.{
  ℕ, ◌&&◌, ◌%◌, ◌^◌, ◌*◌, ◌≤◌, ◌<◌, ◌≡◌, refl, not, Bool, true, false, Option, none, some, List,
  ◌==◌, ltb, if◌then◌else◌, length, Map, lookup, arith, Option-cases, Bool-cases, inl, inr,
}
use lib_aspl.Status.{
  Status, no_error, illegal_operation_error, bad_property_size_error, unknown_property_error,
}
use lib_aspl.Stream.{Format, RangedFormat}
use lib_aspl.Object.Properties.{CustomProperties, set_property_data_fallback}
use lib_aspl.Object.Accessors.{
  ObjectView, ObjectCase, ObjectSelector, own, custom, has_property as object_has_property,
  is_property_settable as object_is_property_settable,
  get_property_data_size as object_get_property_data_size,
  get_property_data as object_get_property_data, set_property_data as object_set_property_data,
}
use lib_aspl.Object.Accessors.Within.{
  HoldsReferences, refused-IsWithin, either-IsWithin,
  get_property_data-IsWithin as object_get_property_data-IsWithin,
}
use lib_aspl.Object.Accessors.Agreement.{
  AreGiven, either-AreGiven, has_property-AreGiven as object_has_property-AreGiven,
}
use lib_aspl.Accessor.Fits.{
  IsWithin, size_of, ReadsWhole, reply_value-IsWithin, reply_array-IsWithin, reply_whole-IsWithin,
  reply_value-ReadsWhole, reply_array-ReadsWhole, reply_whole-ReadsWhole, own-ReadsWhole,
}
use lib_aspl.Accessor.{
  Scope, global_scope, input_scope, output_scope, other_scope, Address, re_address, Value, uint32,
  float32, float64, cf_string, cf_url, value_range, format, uint32_array, byte_array, range_array,
  format_array, info_array, reference, to_foundation, from_foundation, Buffers, Reply, DataReply,
  Input, input_reference, as_reference, write, reply, byte_size, take, reply_value, reply_array,
  reply_whole, accept, in_or_out,
}

-- The `case`s of the switches, in groups that follow one another.
pub data Identity : Type 0 where
  name : Identity
  manufacturer : Identity
  device_uid : Identity
  model_uid : Identity
  serial_number : Identity

pub data Description : Type 0 where
  firmware_version : Description
  icon : Description
  configuration_application : Description
  transport_type : Description
  related_devices : Description

pub data Timing : Type 0 where
  clock_is_stable : Timing
  clock_algorithm : Timing
  clock_domain : Timing
  device_latency : Timing
  device_safety_offset : Timing

pub data Rate : Type 0 where
  time_stamp_period : Rate
  sample_rate : Rate
  sample_rates : Rate
  stereo_channels : Rate
  channel_layout : Rate

pub data Condition : Type 0 where
  running : Condition
  identify : Condition
  alive : Condition
  hidden : Condition
  default_device : Condition
  default_system_device : Condition

pub data Content : Type 0 where
  device_streams : Content
  control_list : Content

pub data DeviceSelector : Type 0 where
  identity : Identity → DeviceSelector
  description : Description → DeviceSelector
  timing : Timing → DeviceSelector
  rate : Rate → DeviceSelector
  condition : Condition → DeviceSelector
  content : Content → DeviceSelector
  inherited : ObjectSelector → DeviceSelector

-- What the virtual getters return; an enumeration is its number.
pub record DeviceView (F W : Type 0) : Type 0 where
  pub name_text : W
  pub manufacturer_text : W
  pub device_uid_text : W
  pub model_uid_text : W
  pub serial_number_text : W
  pub firmware_version_text : W
  pub icon_url : W
  pub configuration_application_bundle_id : W
  pub transport_type_code : ℕ
  pub related_device_ids : List ℕ
  pub is_clock_stable : Bool
  pub clock_algorithm_code : ℕ
  pub clock_domain_number : ℕ
  pub latency : ℕ
  pub safety_offset : ℕ
  pub zero_time_stamp_period : ℕ
  pub nominal_sample_rate : F
  pub available_sample_rates : List (F × F)
  pub preferred_channels_for_stereo : List ℕ
  pub preferred_channel_layout : List ℕ
  pub is_running : Bool
  pub is_identifying : Bool
  pub is_alive : Bool
  pub is_hidden : Bool
  pub can_be_default_device : Bool
  pub can_be_default_system_device : Bool
  pub stream_ids : Scope → List ℕ
  pub control_ids : List ℕ

-- What the base class is asked about: `number` is the constant of CoreAudio that a `case` names.
abbrev pub selector_number : (number : DeviceSelector → ℕ) → DeviceSelector → ObjectSelector
selector_number number (inherited sel) = sel
selector_number number sel = custom (number sel)
