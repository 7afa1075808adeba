-- ===== src/VolumeControl.antt =====
-- src/VolumeControl.cpp. `R` is SInt32, `F` is Float32, each with its `<`. The curve between raw
-- values, decibels and the scale from 0 to 1 is a parameter: src/VolumeCurve.cpp comes from an example
-- of Apple's.
pub mod Accessors
pub mod Range
mod Tests
use lib_aspl.Prelude.{
  ℕ, zero, suc, ◌*◌, ◌%◌, ◌^◌, Bool, true, false, List, [], ◌∷◌, ◌++◌, if◌then◌else◌,
}
use lib_aspl.Status.{Status, no_error, is_ok}
use lib_aspl.Accessor.Setters.{Notifying}

-- `std::min(value, high)`, then `std::max(value, low)`.
unfoldable pub clamp : {A : Type 0} (less : A → A → Bool) (low high value : A) → A
clamp less low high value =
    let capped = if less high value then high else value in if less capped low then low else capped

-- VolumeCurve
pub record VolumeCurve (R F : Type 0) : Type 0 where
  pub minimum_raw : R
  pub maximum_raw : R
  pub minimum_db : F
  pub maximum_db : F
  pub convert_raw_to_db : R → F
  pub convert_db_to_raw : F → R
  pub convert_raw_to_scalar : R → F
  pub convert_scalar_to_raw : F → R
  pub convert_scalar_to_db : F → F
  pub convert_db_to_scalar : F → F

-- The two selectors that are reported together: the scalar value and the decibel value.
pub data LevelProperty : Type 0 where
  scalar_value : LevelProperty
  decibel_value : LevelProperty

pub record VolumeState (R : Type 0) : Type 0 where
  pub raw_volume : R
  pub notifications : List LevelProperty

module _ {R F : Type 0} (curve : VolumeCurve R F) (less_raw : R → R → Bool) where
  abbrev pub new_volume_control : VolumeState R
  new_volume_control = record { raw_volume = curve.maximum_raw; notifications = [] }

  unfoldable pub set_raw_value_impl : R → VolumeState R → Status × VolumeState R
  unfolding clamp
  set_raw_value_impl value s =
      (no_error, record s { raw_volume = clamp less_raw curve.minimum_raw curve.maximum_raw value })

  -- `equal_raw` is `==` of SInt32.
  module _ (equal_raw : R → R → Bool) where
    unfoldable pub set_raw_value : R → VolumeState R → Status × VolumeState R
    unfolding set_raw_value_impl
    set_raw_value value s =
        if equal_raw value s.raw_volume
        then (no_error, s)
        else let r = set_raw_value_impl value s in
          (
            r.0,
            if is_ok r.0
                then record r.1 {
                  notifications = r.1.notifications ++ scalar_value ∷ decibel_value ∷ [];
                }
                else r.1,
          )

    module _ (less : F → F → Bool) (nought one : F) where
      unfoldable pub set_decibel_value : F → VolumeState R → Status × VolumeState R
      unfolding clamp set_raw_value
      set_decibel_value value s =
          set_raw_value
            (curve.convert_db_to_raw (clamp less curve.minimum_db curve.maximum_db value)) s

      unfoldable pub set_scalar_value : F → VolumeState R → Status × VolumeState R
      unfolding clamp set_raw_value
      set_scalar_value value s =
          set_raw_value (curve.convert_scalar_to_raw (clamp less nought one value)) s

  abbrev pub get_decibel_value : VolumeState R → F
  get_decibel_value s = curve.convert_raw_to_db s.raw_volume

  abbrev pub get_scalar_value : VolumeState R → F
  get_scalar_value s = curve.convert_raw_to_scalar s.raw_volume

-- The two conversions that the HAL asks for.
module _ {R F : Type 0} (curve : VolumeCurve R F) (less : F → F → Bool) where
  unfoldable pub convert_scalar_to_decibels : (nought one : F) → F → F
  unfolding clamp
  convert_scalar_to_decibels nought one value =
      curve.convert_scalar_to_db (clamp less nought one value)

  unfoldable pub convert_decibels_to_scalar : F → F
  unfolding clamp
  convert_decibels_to_scalar value =
      curve.convert_db_to_scalar (clamp less curve.minimum_db curve.maximum_db value)

  -- The loop of `ApplyProcessing` over the first `count` samples.
  module _ (multiply : F → F → F) (one minus_one : F) where
    unfoldable pub scale : (volume : F) (count : ℕ) → List F → List F
    unfolding clamp
    scale volume zero frames = frames
    scale volume (suc n) [] = []
    scale volume (suc n) (s ∷ frames) =
        clamp less minus_one one (multiply s volume) ∷ scale volume n frames

    -- The product of the two counts is a UInt32.
    unfoldable pub apply_processing :
        (frame_count channel_count : ℕ) → VolumeState R → List F → List F
    unfolding scale
    apply_processing frame_count channel_count s frames =
        scale (curve.convert_raw_to_scalar s.raw_volume) (frame_count * channel_count % 2 ^ 32)
          frames
