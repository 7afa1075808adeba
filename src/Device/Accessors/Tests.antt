-- ===== src/Device/Accessors/Tests.antt =====
-- A device with two streams, and the theorems on the calls of the HAL at it.
use lib_aspl.Prelude.{ℕ, refl, Bool, true, false, some, [], ◌∷◌, lookup, arith}
use lib_aspl.Status.{Status, no_error}
use lib_aspl.Accessor.{global_scope, input_scope, Address, Value, uint32_array, Buffers, Input}
use lib_aspl.Stream.{Format}
use lib_aspl.Accessor.Fits.{IsWithin, size_of, ReadsWhole}
use lib_aspl.Accessor.Guarded.{IsGuarded}
use lib_aspl.Object.Accessors.{ObjectView}
use lib_aspl.Object.Accessors.Within.{HoldsReferences}
use lib_aspl.Object.Accessors.Agreement.{AreGiven}
use lib_aspl.Device.Accessors.{
  DeviceView, DeviceSelector, content, device_streams, timing, device_latency, rate, sample_rate,
}
use lib_aspl.Device.Accessors.Has.{has_property}
use lib_aspl.Device.Accessors.Settable.{is_property_settable}
use lib_aspl.Device.Accessors.Size.{get_property_data_size}
use lib_aspl.Device.Accessors.Data.{get_property_data}
use lib_aspl.Device.Accessors.Set.{set_property_data}
use lib_aspl.Device.Accessors.Within.{get_property_data-IsWithin}
use lib_aspl.Device.Accessors.Reading.{listed_value, get_property_data-ReadsWhole}
use lib_aspl.Device.Accessors.Described.{has_property-AreGiven}
use lib_aspl.Device.Accessors.Guarded.{set_property_data-IsGuarded}

abbrev object : ObjectView ℕ ℕ
object = record {
  self_id = 5;
  number = λ c. 1;
  class_id = 100;
  base_class_id = 101;
  owner_id = 1;
  owned_object_ids = λ scope. [];
  custom_properties = [];
}

abbrev view : ℕ → DeviceView ℕ ℕ
view d = record {
  name_text = 1;
  manufacturer_text = 2;
  device_uid_text = 3;
  model_uid_text = 4;
  serial_number_text = 5;
  firmware_version_text = 6;
  icon_url = 7;
  configuration_application_bundle_id = 8;
  transport_type_code = 9;
  related_device_ids = 5 ∷ [];
  is_clock_stable = true;
  clock_algorithm_code = 0;
  clock_domain_number = 0;
  latency = 64;
  safety_offset = 4;
  zero_time_stamp_period = 44100;
  nominal_sample_rate = d;
  available_sample_rates = [];
  preferred_channels_for_stereo = 1 ∷ 2 ∷ [];
  preferred_channel_layout = [];
  is_running = false;
  is_identifying = false;
  is_alive = true;
  is_hidden = false;
  can_be_default_device = true;
  can_be_default_system_device = false;
  stream_ids = λ scope. 6 ∷ 7 ∷ [];
  control_ids = [];
}

abbrev number : DeviceSelector → ℕ
number sel = 2

abbrev at_streams : Address DeviceSelector
at_streams = record { selector = content device_streams; scope = global_scope; element = 0 }

abbrev at_latency : Address DeviceSelector
at_latency = record { selector = timing device_latency; scope = input_scope; element = 0 }

abbrev at_rate : Address DeviceSelector
at_rate = record { selector = rate sample_rate; scope = global_scope; element = 0 }

-- Room for one identifier, and for two.
abbrev short_buffer : Buffers
short_buffer = record { in_size = 7; size_wanted = true; data_wanted = true }

abbrev long_buffer : Buffers
long_buffer = record { in_size = 8; size_wanted = true; data_wanted = true }

abbrev all_streams : Value ℕ ℕ ℕ
all_streams = uint32_array (6 ∷ 7 ∷ [])

no_custom : HoldsReferences object.custom_properties
unfolding lookup
no_custom selector prop e = cc

get_property_data-IsWithin_example :
    IsWithin short_buffer
      (get_property_data object view number 5 (some at_streams) short_buffer 44100)
get_property_data-IsWithin_example =
    get_property_data-IsWithin object view short_buffer number 44100 5 (some at_streams) no_custom

get_property_data-ReadsWhole_example :
    ReadsWhole all_streams long_buffer
      (get_property_data_size object view number 5 (some at_streams) true 44100)
      (get_property_data object view number 5 (some at_streams) long_buffer 44100)
unfolding listed_value size_of
get_property_data-ReadsWhole_example =
    get_property_data-ReadsWhole object view number 44100 long_buffer at_streams all_streams refl
      (omega arith)

has_property-AreGiven_example :
    AreGiven
      (is_property_settable object number 5 (some at_latency) true)
      (get_property_data_size object view number 5 (some at_latency) true 44100)
unfolding has_property
has_property-AreGiven_example =
    has_property-AreGiven object view number 44100 5 (some at_latency) true refl

abbrev silent_format : Format ℕ
silent_format = record {
  sample_rate = 0;
  format_id = 0;
  format_flags = 0;
  bits_per_channel = 0;
  channels_per_frame = 0;
  bytes_per_frame = 0;
  frames_per_packet = 0;
  bytes_per_packet = 0;
}

abbrev new_rate : Input ℕ ℕ
new_rate = record {
  uint32_at = 0;
  float32_at = 0;
  float64_at = 48000;
  format_at = silent_format;
  reference_at = 0;
}

abbrev set_rate_value : ℕ → ℕ → Status × ℕ
set_rate_value value d = (no_error, value)

abbrev set_identify_value : Bool → ℕ → Status × ℕ
set_identify_value value d = (no_error, d)

set_property_data-IsGuarded_example :
    IsGuarded
      (is_property_settable object number 5 (some at_rate) true)
      (get_property_data_size object view number 5 (some at_rate) true 44100)
      4
      (some new_rate)
      44100
      (set_property_data object number set_rate_value set_identify_value 5
        (some at_rate)
        4
        (some new_rate)
        44100)
unfolding lookup
set_property_data-IsGuarded_example =
    set_property_data-IsGuarded object view number set_rate_value set_identify_value 44100 4
      (some new_rate) at_rate refl refl
