-- ===== src/Device/Streams/Equipped/Tests.antt =====
-- An input stream with controls, and the theorem at it.
use lib_aspl.Prelude.{ℕ, ◌+◌, ◌≡◌, refl, false, arith, lookup}
use lib_aspl.Object.{done}
use lib_aspl.Device.Streams.{input}
use lib_aspl.Device.Streams.Created.{StreamParameters, default_parameters}
use lib_aspl.Device.Streams.Equipped.{EquippedDevice, new_equipped, add_stream_with_controls_async}
use lib_aspl.Device.Streams.Equipped.Attached.{
  IsEquipped, IsReady, add_stream_with_controls_async-IsEquipped,
}

abbrev params : StreamParameters ℕ
params = record (default_parameters 7 12 44100) { direction = input }

abbrev device : EquippedDevice ℕ
device = new_equipped params

abbrev volume_id : ℕ → ℕ
volume_id v = v + v

abbrev mute_id : ℕ → ℕ
mute_id m = m + m + 1

device-IsReady : IsReady volume_id mute_id (λ s. s + 30) false 1 2 input device
unfolding lookup
device-IsReady = record {
  volume_free = refl;
  mute_free = refl;
  apart = omega arith;
  few_streams = omega arith;
  few_volumes = omega arith;
  few_mutes = omega arith;
}

add_stream_with_controls_async-IsEquipped_example :
    (stream : ℕ) × (after : EquippedDevice ℕ) × (add_stream_with_controls_async volume_id mute_id
        (λ s. s + 30)
        false
        1
        2
        params
        device
      ≡ done (stream, after))
    × IsEquipped volume_id mute_id (λ s. s + 30) false 1 2 input device stream after
add_stream_with_controls_async-IsEquipped_example =
    add_stream_with_controls_async-IsEquipped volume_id mute_id (λ s. s + 30) false 1 2 params
      device device-IsReady
