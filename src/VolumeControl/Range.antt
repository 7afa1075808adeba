-- ===== src/VolumeControl/Range.antt =====
-- src/VolumeControl.cpp: the raw volume stays within the range of the curve, and what the host is told
-- of its changes.
use lib_aspl.Prelude.{◌≡◌, refl, Bool, false, List, [], ◌∷◌, arith}
use lib_aspl.VolumeControl.{
  VolumeCurve, VolumeState, clamp, new_volume_control, set_raw_value_impl, set_raw_value,
  set_decibel_value, set_scalar_value,
}

-- Neither below `low` nor above `high`.
abbrev pub IsInRange : {A : Type 0} (less : A → A → Bool) (low high value : A) → Type 0
IsInRange less low high value = (less high value ≡ false) × (less value low ≡ false)

pub clamp-IsInRange :
    {A : Type 0} (less : A → A → Bool) (low high : A)
    → less high high ≡ false
    → less low low ≡ false
    → less high low ≡ false
    → (value : A) → IsInRange less low high (clamp less low high value)
unfolding clamp
clamp-IsInRange less low high same_high same_low ordered value = (ground arith, ground arith)

pub clamp-inside :
    {A : Type 0} (less : A → A → Bool) (low high value : A)
    → IsInRange less low high value
    → clamp less low high value ≡ value
unfolding clamp
clamp-inside less low high value inside = ground arith

-- What a client or the HAL does to the control.
pub data VolumeEvent (R F : Type 0) : Type 0 where
  sets_raw : R → VolumeEvent R F
  sets_decibel : F → VolumeEvent R F
  sets_scalar : F → VolumeEvent R F

module _ {R F : Type 0} (curve : VolumeCurve R F) (less_raw equal_raw : R → R → Bool)
    (less : F → F → Bool) (nought one : F) where
  abbrev pub volume_step : VolumeEvent R F → VolumeState R → VolumeState R
  volume_step (sets_raw value) s = (set_raw_value curve less_raw equal_raw value s).1
  volume_step (sets_decibel value) s =
      (set_decibel_value curve less_raw equal_raw less nought one value s).1
  volume_step (sets_scalar value) s =
      (set_scalar_value curve less_raw equal_raw less nought one value s).1

  unfoldable pub volume_run : List (VolumeEvent R F) → VolumeState R → VolumeState R
  volume_run [] s = s
  volume_run (e ∷ es) s = volume_run es (volume_step e s)

  -- The raw volume that an event asks for.
  abbrev pub asked : VolumeEvent R F → R
  asked (sets_raw value) = value
  asked (sets_decibel value) =
      curve.convert_db_to_raw (clamp less curve.minimum_db curve.maximum_db value)
  asked (sets_scalar value) = curve.convert_scalar_to_raw (clamp less nought one value)

  volume_step_lem :
      (e : VolumeEvent R F) (s : VolumeState R)
      → volume_step e s ≡ (set_raw_value curve less_raw equal_raw (asked e) s).1
  unfolding set_decibel_value set_scalar_value
  volume_step_lem (sets_raw value) s = refl
  volume_step_lem (sets_decibel value) s = refl
  volume_step_lem (sets_scalar value) s = refl

  module _ (same_high : less_raw curve.maximum_raw curve.maximum_raw ≡ false)
      (same_low : less_raw curve.minimum_raw curve.minimum_raw ≡ false)
      (ordered : less_raw curve.maximum_raw curve.minimum_raw ≡ false) where
    volume_step-IsInRange :
        (e : VolumeEvent R F) (s : VolumeState R)
        → IsInRange less_raw curve.minimum_raw curve.maximum_raw s.raw_volume
        → IsInRange less_raw curve.minimum_raw curve.maximum_raw (volume_step e s).raw_volume
    unfolding set_raw_value set_raw_value_impl
    volume_step-IsInRange e s inside = ground (
      arith,
      volume_step_lem e s,
      clamp-IsInRange less_raw curve.minimum_raw curve.maximum_raw same_high same_low ordered
          (asked e),
    )

    volume_run-IsInRange :
        (es : List (VolumeEvent R F)) (s : VolumeState R)
        → IsInRange less_raw curve.minimum_raw curve.maximum_raw s.raw_volume
        → IsInRange less_raw curve.minimum_raw curve.maximum_raw (volume_run es s).raw_volume
    unfolding volume_run
    volume_run-IsInRange [] s inside = inside
    volume_run-IsInRange (e ∷ es) s inside =
        volume_run-IsInRange es (volume_step e s) (volume_step-IsInRange e s inside)

    -- If the ends of the curve's raw range are in order, and neither is less than itself, then
    -- after any calls of the three setters on a new control the raw volume is within the range.
    pub new_volume_control-IsInRange :
        (es : List (VolumeEvent R F))
        → IsInRange less_raw curve.minimum_raw curve.maximum_raw
            (volume_run es (new_volume_control curve less_raw)).raw_volume
    new_volume_control-IsInRange es =
        volume_run-IsInRange es (new_volume_control curve less_raw) (same_high, ordered)
