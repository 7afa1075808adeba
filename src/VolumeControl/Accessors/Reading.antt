-- ===== src/VolumeControl/Accessors/Reading.antt =====
-- src/VolumeControl.g.cpp: what the HAL reads from a volume control when it asks for the size of a property first.
use lib_aspl.Prelude.{ℕ, ◌^◌, ◌<◌, ◌≡◌, refl, true, Option, none, some, ◌==◌, arith}
use lib_aspl.Object.Accessors.{ObjectView}
use lib_aspl.Accessor.Fits.{size_of, ReadsWhole, reply_value-ReadsWhole, own-ReadsWhole}
use lib_aspl.Accessor.{
  Scope, Address, Value, uint32, float32, value_range, to_foundation, Buffers, Reply, DataReply,
}
use lib_aspl.VolumeControl.Accessors.{
  Place, control_scope, control_element, Level, scalar, decibel, decibel_range, scalar_to_decibels,
  decibels_to_scalar, VolumeControlSelector, place, level, inherited, VolumeView, size_place,
  size_level, data_place, data_level, size_selector, get_property_data_size, data_selector,
  get_property_data,
}

module _ {F W V D : Type 0} (o : ObjectView V D) (v : D → VolumeView F)
    (number : VolumeControlSelector → ℕ) where
  unfoldable pub value_place : Place → (scope : Scope) (input : F) → D → Value F W V
  value_place control_scope scope input d = uint32 (v d).scope_code
  value_place control_element scope input d = uint32 (v d).element_number

  unfoldable pub value_level : Level → (scope : Scope) (input : F) → D → Value F W V
  value_level scalar scope input d = float32 (v d).scalar_value
  value_level decibel scope input d = float32 (v d).decibel_value
  value_level decibel_range scope input d = value_range (v d).range_in_decibels
  value_level scalar_to_decibels scope input d = float32 ((v d).convert_scalar_to_decibels input)
  value_level decibels_to_scalar scope input d = float32 ((v d).convert_decibels_to_scalar input)

  -- The value of a property that the class lists.
  unfoldable pub listed_value :
      VolumeControlSelector → (scope : Scope) (input : F) → D → Option (Value F W V)
  unfolding value_place value_level
  listed_value (place c) scope input d = some (value_place c scope input d)
  listed_value (level c) scope input d = some (value_level c scope input d)
  listed_value (inherited sel) scope input d = none

module _ {F W V D : Type 0} (o : ObjectView V D) (v : D → VolumeView F)
    (number : VolumeControlSelector → ℕ) (d : D) (b : Buffers) where
  place-ReadsWhole :
      (c : Place) (scope : Scope) (input : F)
      → size_of {F = F} {W = W} {V = V} (value_place o v number c scope input d) < 2 ^ 32
      → ReadsWhole {F = F} {W = W} {V = V}
          (value_place o v number c scope input d)
          b
          (size_place o v number c scope true d)
          (data_place o v number c scope input b d)
  unfolding value_place size_place data_place size_of to_foundation
  place-ReadsWhole control_scope scope input small = reply_value-ReadsWhole 4 b _ refl
  place-ReadsWhole control_element scope input small = reply_value-ReadsWhole 4 b _ refl

  level-ReadsWhole :
      (c : Level) (scope : Scope) (input : F)
      → size_of {F = F} {W = W} {V = V} (value_level o v number c scope input d) < 2 ^ 32
      → ReadsWhole {F = F} {W = W} {V = V}
          (value_level o v number c scope input d)
          b
          (size_level o v number c scope true d)
          (data_level o v number c scope input b d)
  unfolding value_level size_level data_level size_of to_foundation
  level-ReadsWhole scalar scope input small = reply_value-ReadsWhole 4 b _ refl
  level-ReadsWhole decibel scope input small = reply_value-ReadsWhole 4 b _ refl
  level-ReadsWhole decibel_range scope input small = reply_value-ReadsWhole 16 b _ refl
  level-ReadsWhole scalar_to_decibels scope input small = reply_value-ReadsWhole 4 b _ refl
  level-ReadsWhole decibels_to_scalar scope input small = reply_value-ReadsWhole 4 b _ refl

  selector-ReadsWhole :
      (sel : VolumeControlSelector) (scope : Scope) (input : F) (value : Value F W V) (q : Reply ℕ)
      (r : DataReply (Value F W V))
      → listed_value o v number sel scope input d ≡ some value
      → size_of value < 2 ^ 32
      → ReadsWhole value b
          (size_selector o v number sel scope true d q)
          (data_selector o v number sel scope input b d r)
  unfolding listed_value size_selector data_selector
  selector-ReadsWhole (place c) scope input value q r e small =
      ground (arith, place-ReadsWhole c scope input (ground arith))
  selector-ReadsWhole (level c) scope input value q r e small =
      ground (arith, level-ReadsWhole c scope input (ground arith))
  selector-ReadsWhole (inherited sel) scope input value q r e small = ground arith

  -- A property that the class of a volume control lists, with a value of less than 4 GiB, is read
  -- whole: GetPropertyDataSize reports the size of the value, and GetPropertyData with a buffer
  -- of that size or more succeeds, reports the size and gives the value.
  pub get_property_data-ReadsWhole :
      (address : Address VolumeControlSelector) (input : F) (value : Value F W V)
      → listed_value o v number address.selector address.scope input d ≡ some value
      → size_of value < 2 ^ 32
      → ReadsWhole value b
          (get_property_data_size o v number o.self_id (some address) true d)
          (get_property_data o v number o.self_id (some address) input b d)
  unfolding get_property_data_size get_property_data
  get_property_data-ReadsWhole address input value e small =
      own-ReadsWhole value b (o.self_id == o.self_id) _ _ _ _ (ground arith)
        (selector-ReadsWhole address.selector address.scope input value _ _ e small)
