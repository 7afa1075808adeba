-- ===== src/Device/Streams/Equipped.antt =====
-- src/Device.cpp and src/Stream.cpp: a stream that the device creates together with a volume and a mute
-- control, which it attaches to the stream. `make_shared` gives a control the next number of its kind,
-- and the store keeps its scope, the only parameter that is not a default. The changes that wait for the
-- HAL are kept apart for streams and for controls.
pub mod Attached
mod Tests
use lib_aspl.Prelude.{ℕ, ◌+◌, Bool, Option, none, some, if◌then◌else◌, ◌==◌}
use lib_aspl.Object.{Outcome, done, ◌>>=◌}
use lib_aspl.Device.Streams.{Direction, input, output}
use lib_aspl.Device.Streams.Created.{
  StreamParameters, CreatedStreams, no_created_streams, create_stream_async,
  create_stream_for_async,
}
use lib_aspl.Device.Controls.{
  DeviceControls, Traits, new_controls, add_volume_control_async, add_mute_control_async,
}

-- What a stream has attached, pointers that may be null.
pub record AttachedPointers : Type 0 where
  pub volume : Option ℕ
  pub mute : Option ℕ

pub record EquippedDevice (F : Type 0) : Type 0 where
  pub created : CreatedStreams F
  pub controls : DeviceControls
  pub next_volume : ℕ
  pub volume_scope : ℕ → ℕ
  pub next_mute : ℕ
  pub mute_scope : ℕ → ℕ
  pub attached : ℕ → AttachedPointers

abbrev pub new_equipped : {F : Type 0} → StreamParameters F → EquippedDevice F
new_equipped unused = record {
  created = no_created_streams unused;
  controls = new_controls;
  next_volume = 0;
  volume_scope = λ control. 0;
  next_mute = 0;
  mute_scope = λ control. 0;
  attached = λ stream. record { volume = none; mute = none };
}

-- A store with one more object.
abbrev pub set_at : {A : Type 0} → (key : ℕ) (value : A) → (ℕ → A) → ℕ → A
set_at key value store x = if x == key then value else store x

-- kAudioObjectPropertyScopeInput, kAudioObjectPropertyScopeOutput
abbrev pub scope_for : (scope_input scope_output : ℕ) → Direction → ℕ
scope_for scope_input scope_output input = scope_input
scope_for scope_input scope_output output = scope_output

-- `volume_id`, `mute_id` and `stream_id` give the identifiers, `enqueues` is the test of
-- `RequestConfigurationChange`.
module _ {F : Type 0} (volume_id mute_id stream_id : ℕ → ℕ) (enqueues : Bool) where
  -- AddVolumeControlAsync(AudioObjectPropertyScope)
  unfoldable pub create_volume_control_async :
      (scope : ℕ) → EquippedDevice F → Outcome (ℕ × EquippedDevice F)
  unfolding add_volume_control_async
  create_volume_control_async scope d = do
    let scopes : ℕ → ℕ = set_at d.next_volume scope d.volume_scope
    controls ←
        add_volume_control_async (record { scope = scopes; id = volume_id }) enqueues
          (some d.next_volume) d.controls
    done (
      d.next_volume,
      record d { next_volume = d.next_volume + 1; volume_scope = scopes; controls = controls },
    )

  -- AddMuteControlAsync(AudioObjectPropertyScope)
  unfoldable pub create_mute_control_async :
      (scope : ℕ) → EquippedDevice F → Outcome (ℕ × EquippedDevice F)
  unfolding add_mute_control_async
  create_mute_control_async scope d = do
    let scopes : ℕ → ℕ = set_at d.next_mute scope d.mute_scope
    controls ←
        add_mute_control_async (record { scope = scopes; id = mute_id }) enqueues (some d.next_mute)
          d.controls
    done (
      d.next_mute,
      record d { next_mute = d.next_mute + 1; mute_scope = scopes; controls = controls },
    )

  abbrev pub attach_volume_control :
      (stream : ℕ) (control : Option ℕ) → EquippedDevice F → EquippedDevice F
  attach_volume_control stream control d = record d {
    attached = set_at stream (record (d.attached stream) { volume = control }) d.attached;
  }

  abbrev pub attach_mute_control :
      (stream : ℕ) (control : Option ℕ) → EquippedDevice F → EquippedDevice F
  attach_mute_control stream control d = record d {
    attached = set_at stream (record (d.attached stream) { mute = control }) d.attached;
  }

  -- The rest of `AddStreamWithControlsAsync` when the stream is there.
  unfoldable pub equip_stream : (scope stream : ℕ) → EquippedDevice F → Outcome (EquippedDevice F)
  unfolding create_volume_control_async create_mute_control_async
  equip_stream scope stream d = do
    with_volume ← create_volume_control_async scope d
    with_mute ← create_mute_control_async scope with_volume.1
    done (
        attach_mute_control stream (some with_mute.0)
          (attach_volume_control stream (some with_volume.0) with_mute.1))

  module _ (scope_input scope_output : ℕ) where
    -- AddStreamWithControlsAsync(Direction)
    unfoldable pub add_stream_with_controls_for_async :
        (defaults : StreamParameters F) (dir : Direction) (rate : F) (channels : ℕ)
        → EquippedDevice F
        → Outcome (ℕ × EquippedDevice F)
    unfolding create_stream_for_async equip_stream
    add_stream_with_controls_for_async defaults dir rate channels d = do
      let made = create_stream_for_async stream_id defaults enqueues dir rate channels d.created
      equipped ←
          equip_stream (scope_for scope_input scope_output dir) made.0
            (record d { created = made.1 })
      done (made.0, equipped)

    -- AddStreamWithControlsAsync(const StreamParameters&)
    unfoldable pub add_stream_with_controls_async :
        StreamParameters F → EquippedDevice F → Outcome (ℕ × EquippedDevice F)
    unfolding create_stream_async equip_stream
    add_stream_with_controls_async params d = do
      let made = create_stream_async stream_id enqueues params d.created
      equipped ←
          equip_stream (scope_for scope_input scope_output params.direction) made.0
            (record d { created = made.1 })
      done (made.0, equipped)
