-- ===== src/Stream/Tests.antt =====
-- A format of two channels, and the theorems at it.
use lib_aspl.Prelude.{
  lookup, true, false, some, ◌∷◌, ◌*◌, refl, ltb, get_elem?, arith, ℕ, ◌≡◌, Bool, [], ◌==◌,
}
use lib_aspl.Stream.{Format, ChannelDescription}
use lib_aspl.Status.{Status, no_error, is_ok}
use lib_aspl.Device.Configuration.{new_configuration, perform_configuration_change}
use lib_aspl.Accessor.{global_scope, Address, Value, Buffers, uint32}
use lib_aspl.Accessor.Setters.{apply_value, replay, device_at}
use lib_aspl.Object.Accessors.{ObjectView}
use lib_aspl.VolumeControl.{VolumeCurve}
use lib_aspl.Stream.Accessors.{StreamView, StreamSelector, position, active}
use lib_aspl.Stream.Attributes.{set_stream_value_async, StreamDevice}
use lib_aspl.Stream.Attributes.Orphan.{set_stream_value_async_lem}
use lib_aspl.Stream.Processing.{AttachedControls, process, expected, get_elem?-process}

abbrev same : ℕ → ℕ → Bool
same a b = a == b

abbrev stereo : Format ℕ
stereo = record {
  sample_rate = 44100;
  format_id = 1;
  format_flags = 0;
  bits_per_channel = 16;
  channels_per_frame = 2;
  bytes_per_frame = 4;
  frames_per_packet = 1;
  bytes_per_packet = 4;
}

abbrev left : ChannelDescription ℕ
left = record {
  channel_label = 1;
  channel_flags = 0;
  coordinate_0 = 5;
  coordinate_1 = 6;
  coordinate_2 = 7;
}

abbrev read : ℕ → ℕ
read d = d

abbrev allow : ℕ → ℕ → Status
allow value d = no_error

abbrev store : ℕ → ℕ → Status × ℕ
store value d = (no_error, value)

-- The function that sets a value has the value for its number.
abbrev run : ℕ → ℕ → ℕ
run n d = apply_value same read store n d

same_refl : (value : ℕ) → same value value ≡ true
same_refl value = ground arith

-- The device is gone.
abbrev orphan : StreamDevice
orphan = record { is_alive = false; configuration = new_configuration }

set_stream_value_async_lem_example :
    let id = new_configuration.last_configuration_request_id in
    let r = set_stream_value_async same read allow read 7 3 orphan in
    (is_ok r.0 ≡ true)
    × (same 7 (device_at run 3 (perform_configuration_change id r.1.configuration)) ≡ false)
unfolding replay lookup
set_stream_value_async_lem_example =
    set_stream_value_async_lem same read store run 3 allow read 7 (λ d. refl) (λ d. same_refl 7)
      orphan refl refl refl

abbrev object : ObjectView ℕ ℕ
object = record {
  self_id = 6;
  number = λ c. 1;
  class_id = 100;
  base_class_id = 101;
  owner_id = 5;
  owned_object_ids = λ scope. [];
  custom_properties = [];
}

abbrev view : ℕ → StreamView ℕ
view d = record {
  is_active = true;
  direction_number = 0;
  terminal_type_code = 1;
  starting_channel_number = 1;
  latency = 0;
  physical_format = stereo;
  virtual_format = stereo;
  available_physical_formats = [];
  available_virtual_formats = [];
}

abbrev number : StreamSelector → ℕ
number sel = 2

abbrev at_active : Address StreamSelector
at_active = record { selector = position active; scope = global_scope; element = 0 }

abbrev buffer : Buffers
buffer = record { in_size = 4; size_wanted = true; data_wanted = true }

abbrev one : Value ℕ ℕ ℕ
one = uint32 1

abbrev below : ℕ → ℕ → Bool
below a b = ltb a b

abbrev times : ℕ → ℕ → ℕ
times a b = a * b

abbrev curve : VolumeCurve ℕ ℕ
curve = record {
  minimum_raw = 0;
  maximum_raw = 9;
  minimum_db = 0;
  maximum_db = 9;
  convert_raw_to_db = read;
  convert_db_to_raw = read;
  convert_raw_to_scalar = read;
  convert_scalar_to_raw = read;
  convert_scalar_to_db = read;
  convert_db_to_scalar = read;
}

abbrev controls : AttachedControls ℕ
controls = record {
  volume = some (record { raw_volume = 3; notifications = [] });
  mute = some (record { is_muted = false });
}

get_elem?-process_example :
    get_elem? (process curve below times 0 8 0 controls 1 2 (2 ∷ 4 ∷ 5 ∷ [])) 1
    ≡ some (expected curve below times 0 8 0 controls 4)
get_elem?-process_example =
    get_elem?-process curve below times 0 8 0 1 2 (omega arith) controls (2 ∷ 4 ∷ 5 ∷ []) 1 4 refl
