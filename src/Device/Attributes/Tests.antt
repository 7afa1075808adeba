-- ===== src/Device/Attributes/Tests.antt =====
-- A device with one range of sample rates and two channels, and the theorems at it.
use lib_aspl.Prelude.{
  ℕ, ◌≡◌, refl, Bool, true, false, not, none, some, [], ◌∷◌, ltb, ◌==◌, ◌⊎◌, ◌↔◌, arith, length,
}
use lib_aspl.Status.{Status, no_error, unsupported_operation_error}
use lib_aspl.Accessor.{global_scope, Value, float64, DataReply, Input}
use lib_aspl.Accessor.Setters.{apply_value, replay}
use lib_aspl.Object.Accessors.{ObjectView}
use lib_aspl.Device.Configuration.{
  Configuration, new_configuration, perform_configuration_change, abort_configuration_change,
}
use lib_aspl.Device.Accessors.{DeviceView, DeviceSelector}
use lib_aspl.Device.Attributes.{
  DeviceAttributes, get_available_sample_rates, check_nominal_sample_rate,
  set_nominal_sample_rate_impl, get_preferred_channel_count, get_preferred_channels,
  default_channels,
}
use lib_aspl.Device.Attributes.Channels.{get_preferred_channel_count-channels}
use lib_aspl.Device.Attributes.Rates.{IsWithinSome, check_nominal_sample_rate-IsWithinSome}
use lib_aspl.Device.Attributes.Served.{write_rate, read_rate, write_rate-read_rate}

abbrev same : ℕ → ℕ → Bool
same a b = a == b

abbrev at_most : ℕ → ℕ → Bool
at_most a b = not (ltb b a)

abbrev start : DeviceAttributes ℕ
start = record {
  latency = 0;
  safety_offset = 0;
  zero_time_stamp_period = 44100;
  nominal_sample_rate = 44100;
  available_sample_rates = some ((8000, 96000) ∷ []);
  preferred_channels_for_stereo = (1, 2);
  preferred_channel_count = none;
  preferred_channels = none;
  preferred_channel_layout = none;
  is_alive = true;
  is_hidden = false;
  can_be_default_device = true;
  can_be_default_system_device = true;
}

get_preferred_channel_count-channels_example :
    get_preferred_channel_count 2 start ≡ length (get_preferred_channels 1 0 2 start)
unfolding get_preferred_channels default_channels get_preferred_channel_count
get_preferred_channel_count-channels_example =
    get_preferred_channel_count-channels 1 0 2 start refl tt (λ e. cc) (omega arith)

check_nominal_sample_rate-IsWithinSome_example :
    (check_nominal_sample_rate at_most 48000 start ≡ no_error) ↔ (
      (get_available_sample_rates start ≡ [])
      ⊎ IsWithinSome at_most 48000 (get_available_sample_rates start))
check_nominal_sample_rate-IsWithinSome_example =
    check_nominal_sample_rate-IsWithinSome at_most 48000 start

-- The function that sets a rate has the rate for its number.
abbrev run : ℕ → DeviceAttributes ℕ → DeviceAttributes ℕ
run n d = apply_value same (λ a. a.nominal_sample_rate) set_nominal_sample_rate_impl n d

abbrev rate_code : ℕ → ℕ
rate_code x = x

abbrev refuse : Bool → Configuration → Status × Configuration
refuse value c = (unsupported_operation_error, c)

abbrev others : DeviceView ℕ ℕ
others = record {
  name_text = 1;
  manufacturer_text = 2;
  device_uid_text = 3;
  model_uid_text = 4;
  serial_number_text = 5;
  firmware_version_text = 6;
  icon_url = 7;
  configuration_application_bundle_id = 8;
  transport_type_code = 9;
  related_device_ids = 5 ∷ [];
  is_clock_stable = true;
  clock_algorithm_code = 0;
  clock_domain_number = 0;
  latency = 0;
  safety_offset = 0;
  zero_time_stamp_period = 0;
  nominal_sample_rate = 0;
  available_sample_rates = [];
  preferred_channels_for_stereo = [];
  preferred_channel_layout = [];
  is_running = false;
  is_identifying = false;
  is_alive = true;
  is_hidden = false;
  can_be_default_device = true;
  can_be_default_system_device = true;
  stream_ids = λ scope. [];
  control_ids = [];
}

abbrev object : ObjectView ℕ Configuration
object = record {
  self_id = 5;
  number = λ c. 1;
  class_id = 100;
  base_class_id = 101;
  owner_id = 1;
  owned_object_ids = λ scope. [];
  custom_properties = [];
}

abbrev number : DeviceSelector → ℕ
number sel = 2

abbrev published : Configuration
published = record new_configuration { host = true; has_owner = true }

abbrev new_rate : Input ℕ ℕ
new_rate = record {
  uint32_at = 0;
  float32_at = 0;
  float64_at = 48000;
  format_at = record {
    sample_rate = 0;
    format_id = 0;
    format_flags = 0;
    bits_per_channel = 0;
    channels_per_frame = 0;
    bytes_per_frame = 0;
    frames_per_packet = 0;
    bytes_per_packet = 0;
  };
  reference_at = 0;
}

abbrev hal_writes : Status × Configuration
hal_writes =
    write_rate same at_most run start rate_code refuse others object number global_scope 0 new_rate
      published

abbrev hal_reads : Configuration → DataReply (Value ℕ ℕ ℕ)
hal_reads c =
    read_rate same at_most run start rate_code refuse others object number global_scope 0
      (record { in_size = 8; size_wanted = true; data_wanted = true }) c

write_rate-read_rate_example :
    (hal_writes.0 ≡ no_error)
    × (hal_reads hal_writes.1 ≡ hal_reads published)
    × ((y : ℕ) × (same 48000 y ≡ true)
        × (hal_reads (perform_configuration_change 0 hal_writes.1)
            ≡ (no_error, some 8, some (float64 y))))
    × (hal_reads (abort_configuration_change 0 hal_writes.1) ≡ hal_reads published)
unfolding replay check_nominal_sample_rate get_available_sample_rates
write_rate-read_rate_example =
    write_rate-read_rate same at_most run start rate_code refuse others object number (λ x d. refl)
      global_scope 0 new_rate published refl refl refl refl
