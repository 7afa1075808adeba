-- ===== src/VolumeControl/Tests.antt =====
-- A control over a curve of a hundred steps, and the theorem at it.
use lib_aspl.Prelude.{ℕ, refl, Bool, List, [], ◌∷◌, ltb, ◌==◌}
use lib_aspl.VolumeControl.{VolumeCurve, new_volume_control}
use lib_aspl.VolumeControl.Range.{
  IsInRange, VolumeEvent, sets_raw, sets_decibel, sets_scalar, volume_run,
  new_volume_control-IsInRange,
}

abbrev below : ℕ → ℕ → Bool
below a b = ltb a b

abbrev same : ℕ → ℕ → Bool
same a b = a == b

abbrev curve : VolumeCurve ℕ ℕ
curve = record {
  minimum_raw = 10;
  maximum_raw = 110;
  minimum_db = 0;
  maximum_db = 50;
  convert_raw_to_db = λ x. x;
  convert_db_to_raw = λ x. x;
  convert_raw_to_scalar = λ x. x;
  convert_scalar_to_raw = λ x. x;
  convert_scalar_to_db = λ x. x;
  convert_db_to_scalar = λ x. x;
}

abbrev events : List (VolumeEvent ℕ ℕ)
events = sets_raw 300 ∷ sets_decibel 5 ∷ sets_scalar 7 ∷ []

new_volume_control-IsInRange_example :
    IsInRange below 10 110
      (volume_run curve below same below 0 1 events (new_volume_control curve below)).raw_volume
new_volume_control-IsInRange_example =
    new_volume_control-IsInRange curve below same below 0 1 refl refl refl events
