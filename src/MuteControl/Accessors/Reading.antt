-- ===== src/MuteControl/Accessors/Reading.antt =====
-- src/MuteControl.g.cpp: what the HAL reads from a mute control when it asks for the size of a property first.
use lib_aspl.Prelude.{ℕ, ◌^◌, ◌<◌, ◌≡◌, refl, true, Option, none, some, ◌==◌, arith}
use lib_aspl.Object.Accessors.{ObjectView}
use lib_aspl.Accessor.Fits.{size_of, ReadsWhole, reply_value-ReadsWhole, own-ReadsWhole}
use lib_aspl.Accessor.{Scope, Address, Value, uint32, to_foundation, Buffers, Reply, DataReply}
use lib_aspl.MuteControl.Accessors.{
  MuteCase, mute_scope, mute_element, muted, MuteControlSelector, mute, inherited, MuteView,
  size_mute, data_mute, size_selector, get_property_data_size, data_selector, get_property_data,
}

module _ {F W V D : Type 0} (o : ObjectView V D) (v : D → MuteView)
    (number : MuteControlSelector → ℕ) where
  unfoldable pub value_mute : MuteCase → (scope : Scope) → D → Value F W V
  unfolding to_foundation
  value_mute mute_scope scope d = uint32 (v d).scope_code
  value_mute mute_element scope d = uint32 (v d).element_number
  value_mute muted scope d = uint32 (to_foundation (v d).is_muted)

  -- The value of a property that the class lists.
  unfoldable pub listed_value : MuteControlSelector → (scope : Scope) → D → Option (Value F W V)
  unfolding value_mute
  listed_value (mute c) scope d = some (value_mute c scope d)
  listed_value (inherited sel) scope d = none

module _ {F W V D : Type 0} (o : ObjectView V D) (v : D → MuteView)
    (number : MuteControlSelector → ℕ) (d : D) (b : Buffers) where
  mute-ReadsWhole :
      (c : MuteCase) (scope : Scope)
      → size_of {F = F} {W = W} {V = V} (value_mute o v number c scope d) < 2 ^ 32
      → ReadsWhole {F = F} {W = W} {V = V}
          (value_mute o v number c scope d)
          b
          (size_mute o v number c scope true d)
          (data_mute o v number c scope b d)
  unfolding value_mute size_mute data_mute size_of to_foundation
  mute-ReadsWhole mute_scope scope small = reply_value-ReadsWhole 4 b _ refl
  mute-ReadsWhole mute_element scope small = reply_value-ReadsWhole 4 b _ refl
  mute-ReadsWhole muted scope small = reply_value-ReadsWhole 4 b _ refl

  selector-ReadsWhole :
      (sel : MuteControlSelector) (scope : Scope) (value : Value F W V) (q : Reply ℕ)
      (r : DataReply (Value F W V))
      → listed_value o v number sel scope d ≡ some value
      → size_of value < 2 ^ 32
      → ReadsWhole value b
          (size_selector o v number sel scope true d q)
          (data_selector o v number sel scope b d r)
  unfolding listed_value size_selector data_selector
  selector-ReadsWhole (mute c) scope value q r e small =
      ground (arith, mute-ReadsWhole c scope (ground arith))
  selector-ReadsWhole (inherited sel) scope value q r e small = ground arith

  -- A property that the class of a mute control lists, with a value of less than 4 GiB, is read
  -- whole: GetPropertyDataSize reports the size of the value, and GetPropertyData with a buffer
  -- of that size or more succeeds, reports the size and gives the value.
  pub get_property_data-ReadsWhole :
      (address : Address MuteControlSelector) (value : Value F W V)
      → listed_value o v number address.selector address.scope d ≡ some value
      → size_of value < 2 ^ 32
      → ReadsWhole value b
          (get_property_data_size o v number o.self_id (some address) true d)
          (get_property_data o v number o.self_id (some address) b d)
  unfolding get_property_data_size get_property_data
  get_property_data-ReadsWhole address value e small =
      own-ReadsWhole value b (o.self_id == o.self_id) _ _ _ _ (ground arith)
        (selector-ReadsWhole address.selector address.scope value _ _ e small)
