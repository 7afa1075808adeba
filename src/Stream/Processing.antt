-- ===== src/Stream/Processing.antt =====
-- src/VolumeControl.cpp, src/MuteControl.cpp and src/Stream.cpp: what the controls do to the samples.
use lib_aspl.Prelude.{
  ℕ, zero, suc, ◌*◌, ◌%◌, ◌/◌, ◌^◌, ◌<◌, ◌≡◌, Bool, Option, none, some, List, [], ◌∷◌,
  if◌then◌else◌, ltb, get_elem?, arith,
}
use lib_aspl.VolumeControl.{VolumeCurve, VolumeState, clamp, scale, apply_processing}
use lib_aspl.MuteControl.{MuteState, fill, silence}

-- The controls that a stream has attached, a shared pointer each.
pub record AttachedControls (R : Type 0) : Type 0 where
  pub volume : Option (VolumeState R)
  pub mute : Option MuteState

module _ {R F : Type 0} (curve : VolumeCurve R F) (less : F → F → Bool) (multiply : F → F → F)
    (nought one minus_one : F) where
  abbrev pub process_volume :
      Option (VolumeState R) → (frame_count channel_count : ℕ) → List F → List F
  process_volume none frame_count channel_count frames = frames
  process_volume (some s) frame_count channel_count frames =
      apply_processing curve less multiply one minus_one frame_count channel_count s frames

  abbrev pub process_mute : Option MuteState → (frame_count channel_count : ℕ) → List F → List F
  process_mute none frame_count channel_count frames = frames
  process_mute (some m) frame_count channel_count frames =
      silence nought frame_count channel_count m frames

  -- `Stream::ApplyProcessing`
  unfoldable pub process : AttachedControls R → (frame_count channel_count : ℕ) → List F → List F
  process controls frame_count channel_count frames =
      process_mute controls.mute frame_count channel_count
        (process_volume controls.volume frame_count channel_count frames)

  -- What should become of a sample: muted, or scaled by the volume and clipped, or neither.
  abbrev pub expected_volume : Option (VolumeState R) → F → F
  expected_volume none x = x
  expected_volume (some s) x =
      clamp less minus_one one (multiply x (curve.convert_raw_to_scalar s.raw_volume))

  abbrev pub expected_mute : Option MuteState → F → F
  expected_mute none x = x
  expected_mute (some m) x = if m.is_muted then nought else x

  abbrev pub expected : AttachedControls R → F → F
  expected controls x = expected_mute controls.mute (expected_volume controls.volume x)

  get_elem?-scale :
      (volume : F) (count : ℕ) (frames : List F) (i : ℕ) (x : F)
      → get_elem? frames i ≡ some x
      → get_elem? (scale curve less multiply one minus_one volume count frames) i
        ≡ some (if ltb i count then clamp less minus_one one (multiply x volume) else x)
  unfolding scale
  get_elem?-scale volume zero frames i x e = ground arith
  get_elem?-scale volume (suc n) [] i x e = ground arith
  get_elem?-scale volume (suc n) (s ∷ frames) zero x e = ground arith
  get_elem?-scale volume (suc n) (s ∷ frames) (suc i) x e =
      ground (arith, get_elem?-scale volume n frames i x e)

  get_elem?-fill :
      (count : ℕ) (frames : List F) (i : ℕ) (x : F)
      → get_elem? frames i ≡ some x
      → get_elem? (fill nought count frames) i ≡ some (if ltb i count then nought else x)
  unfolding fill
  get_elem?-fill zero frames i x e = ground arith
  get_elem?-fill (suc n) [] i x e = ground arith
  get_elem?-fill (suc n) (s ∷ frames) zero x e = ground arith
  get_elem?-fill (suc n) (s ∷ frames) (suc i) x e = ground (arith, get_elem?-fill n frames i x e)

  module _ (frame_count channel_count : ℕ) (small : frame_count * channel_count < 2 ^ 32) where
    get_elem?-process_volume :
        (volume : Option (VolumeState R)) (frames : List F) (i : ℕ) (x : F)
        → get_elem? frames i ≡ some x
        → get_elem? (process_volume volume frame_count channel_count frames) i
          ≡ some (if ltb i (frame_count * channel_count) then expected_volume volume x else x)
    unfolding apply_processing
    get_elem?-process_volume none frames i x e = ground arith
    get_elem?-process_volume (some s) frames i x e =
        let count : ℕ = frame_count * channel_count in
        let whole : count % 2 ^ 32 ≡ count = omega arith in
        ground (
          arith,
          whole,
          get_elem?-scale (curve.convert_raw_to_scalar s.raw_volume) count frames i x e,
        )

    get_elem?-process_mute :
        (mute : Option MuteState) (frames : List F) (i : ℕ) (x : F)
        → get_elem? frames i ≡ some x
        → get_elem? (process_mute mute frame_count channel_count frames) i
          ≡ some (if ltb i (frame_count * channel_count) then expected_mute mute x else x)
    unfolding silence
    get_elem?-process_mute none frames i x e = ground arith
    get_elem?-process_mute (some m) frames i x e =
        let count : ℕ = frame_count * channel_count in
        let whole : 4 * frame_count * channel_count % 2 ^ 64 / 4 ≡ count = omega arith in
        ground (arith, whole, get_elem?-fill count frames i x e)

    -- If the number of samples to process, frames times channels, is below 2 ^ 32, then each of
    -- them becomes what the attached controls make of it, scaled by the volume and clipped,
    -- then 0 if muted, and all other samples stay as they are.
    pub get_elem?-process :
        (controls : AttachedControls R) (frames : List F) (i : ℕ) (x : F)
        → get_elem? frames i ≡ some x
        → get_elem? (process controls frame_count channel_count frames) i
          ≡ some (if ltb i (frame_count * channel_count) then expected controls x else x)
    unfolding process
    get_elem?-process controls frames i x e =
        let y : F =
          (if ltb i (frame_count * channel_count) then expected_volume controls.volume x else x) in
        let first = get_elem?-process_volume controls.volume frames i x e in
        let scaled : List F = process_volume controls.volume frame_count channel_count frames in
        ground (arith, get_elem?-process_mute controls.mute scaled i y first)
