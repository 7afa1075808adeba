-- ===== src/MuteControl/Accessors.antt =====
-- src/MuteControl.g.cpp: the five calls of the HAL on the properties of a mute control. What the switch does not list
-- goes on to the base class, Object.
pub mod Reading
pub mod Described
pub mod Within
pub mod Guarded
use lib_aspl.Prelude.{
  ℕ, ◌&&◌, ◌%◌, ◌^◌, ◌*◌, ◌≤◌, ◌<◌, ◌≡◌, refl, not, Bool, true, false, Option, none, some, List,
  ◌==◌, ltb, if◌then◌else◌, length, Map, lookup, arith, Option-cases, Bool-cases, inl, inr,
}
use lib_aspl.Status.{
  Status, no_error, illegal_operation_error, bad_property_size_error, unknown_property_error,
}
use lib_aspl.Stream.{Format, RangedFormat}
use lib_aspl.Object.Properties.{CustomProperties, set_property_data_fallback}
use lib_aspl.Object.Accessors.{
  ObjectView, ObjectCase, ObjectSelector, own, custom, has_property as object_has_property,
  is_property_settable as object_is_property_settable,
  get_property_data_size as object_get_property_data_size,
  get_property_data as object_get_property_data, set_property_data as object_set_property_data,
}
use lib_aspl.Object.Accessors.Within.{
  HoldsReferences, refused-IsWithin, either-IsWithin,
  get_property_data-IsWithin as object_get_property_data-IsWithin,
}
use lib_aspl.Object.Accessors.Agreement.{
  AreGiven, either-AreGiven, has_property-AreGiven as object_has_property-AreGiven,
}
use lib_aspl.Accessor.Fits.{
  IsWithin, size_of, ReadsWhole, reply_value-IsWithin, reply_array-IsWithin, reply_whole-IsWithin,
  reply_value-ReadsWhole, reply_array-ReadsWhole, reply_whole-ReadsWhole, own-ReadsWhole,
}
use lib_aspl.Accessor.{
  Scope, global_scope, input_scope, output_scope, other_scope, Address, re_address, Value, uint32,
  float32, float64, cf_string, cf_url, value_range, format, uint32_array, byte_array, range_array,
  format_array, info_array, reference, to_foundation, from_foundation, Buffers, Reply, DataReply,
  Input, input_reference, as_reference, write, reply, byte_size, take, reply_value, reply_array,
  reply_whole, accept, in_or_out,
}

-- The `case`s of the switches.
pub data MuteCase : Type 0 where
  mute_scope : MuteCase
  mute_element : MuteCase
  muted : MuteCase

pub data MuteControlSelector : Type 0 where
  mute : MuteCase → MuteControlSelector
  inherited : ObjectSelector → MuteControlSelector

-- What the virtual getters return.
pub record MuteView : Type 0 where
  pub scope_code : ℕ
  pub element_number : ℕ
  pub is_muted : Bool

-- What the base class is asked about: `number` is the constant of CoreAudio that a `case` names.
abbrev pub selector_number :
    (number : MuteControlSelector → ℕ) → MuteControlSelector → ObjectSelector
selector_number number (inherited sel) = sel
selector_number number sel = custom (number sel)

unfoldable pub has_mute : MuteCase → Bool
has_mute mute_scope = true
has_mute mute_element = true
has_mute muted = true

unfoldable pub has_selector : MuteControlSelector → Scope → (otherwise : Bool) → Bool
unfolding has_mute
has_selector (mute c) scope otherwise = has_mute c
has_selector (inherited sel) scope otherwise = otherwise

module _ {V D : Type 0} (o : ObjectView V D) (number : MuteControlSelector → ℕ) where
  unfoldable pub has_property : (object_id : ℕ) → Option (Address MuteControlSelector) → Bool
  unfolding has_selector
  has_property object_id none = false
  has_property object_id (some address) =
      let base =
        object_has_property o object_id
          (some (re_address (selector_number number address.selector) address)) in
      if object_id == o.self_id then has_selector address.selector address.scope base else base

unfoldable pub settable_mute : MuteCase → (wanted : Bool) → Reply Bool
unfolding reply
settable_mute mute_scope wanted = reply wanted false
settable_mute mute_element wanted = reply wanted false
settable_mute muted wanted = reply wanted true

unfoldable pub settable_selector :
    MuteControlSelector → (wanted : Bool) (otherwise : Reply Bool) → Reply Bool
unfolding settable_mute
settable_selector (mute c) wanted otherwise = settable_mute c wanted
settable_selector (inherited sel) wanted otherwise = otherwise

module _ {V D : Type 0} (o : ObjectView V D) (number : MuteControlSelector → ℕ) where
  unfoldable pub is_property_settable :
      (object_id : ℕ) → Option (Address MuteControlSelector) → (wanted : Bool) → Reply Bool
  unfolding settable_selector
  is_property_settable object_id none wanted = (illegal_operation_error, none)
  is_property_settable object_id (some address) wanted =
      let base =
        object_is_property_settable o object_id
          (some (re_address (selector_number number address.selector) address)) wanted in
      if object_id == o.self_id then settable_selector address.selector wanted base else base

module _ {V D : Type 0} (o : ObjectView V D) (v : D → MuteView)
    (number : MuteControlSelector → ℕ) where
  unfoldable pub size_mute : MuteCase → (scope : Scope) (wanted : Bool) → D → Reply ℕ
  unfolding reply
  size_mute mute_scope scope wanted d = reply wanted 4
  size_mute mute_element scope wanted d = reply wanted 4
  size_mute muted scope wanted d = reply wanted 4

  unfoldable pub size_selector :
      MuteControlSelector → (scope : Scope) (wanted : Bool) → D → (otherwise : Reply ℕ) → Reply ℕ
  unfolding size_mute
  size_selector (mute c) scope wanted d otherwise = size_mute c scope wanted d
  size_selector (inherited sel) scope wanted d otherwise = otherwise

  unfoldable pub get_property_data_size :
      (object_id : ℕ) → Option (Address MuteControlSelector) → (wanted : Bool) → D → Reply ℕ
  unfolding size_selector
  get_property_data_size object_id none wanted d = (illegal_operation_error, none)
  get_property_data_size object_id (some address) wanted d =
      let base =
        object_get_property_data_size o object_id
          (some (re_address (selector_number number address.selector) address)) wanted d in
      if object_id == o.self_id
      then size_selector address.selector address.scope wanted d base
      else base

module _ {F W V D : Type 0} (o : ObjectView V D) (v : D → MuteView)
    (number : MuteControlSelector → ℕ) where
  unfoldable pub data_mute : MuteCase → (scope : Scope) (b : Buffers) → D → DataReply (Value F W V)
  unfolding reply_value to_foundation
  data_mute mute_scope scope b d = reply_value 4 b (uint32 (v d).scope_code)
  data_mute mute_element scope b d = reply_value 4 b (uint32 (v d).element_number)
  data_mute muted scope b d = reply_value 4 b (uint32 (to_foundation (v d).is_muted))

  unfoldable pub data_selector :
      MuteControlSelector
      → (scope : Scope) (b : Buffers) → D
      → (otherwise : DataReply (Value F W V)) → DataReply (Value F W V)
  unfolding data_mute
  data_selector (mute c) scope b d otherwise = data_mute c scope b d
  data_selector (inherited sel) scope b d otherwise = otherwise

  unfoldable pub get_property_data :
      (object_id : ℕ)
      → Option (Address MuteControlSelector)
      → (b : Buffers) → D
      → DataReply (Value F W V)
  unfolding data_selector
  get_property_data object_id none b d = (illegal_operation_error, none, none)
  get_property_data object_id (some address) b d =
      let base : DataReply (Value F W V) =
        object_get_property_data o object_id
          (some (re_address (selector_number number address.selector) address)) b d in
      if object_id == o.self_id then data_selector address.selector address.scope b d base else base

module _ {F V D : Type 0} (o : ObjectView V D) (number : MuteControlSelector → ℕ)
    (set_is_muted : Bool → D → Status × D) where
  unfoldable pub set_mute :
      MuteCase
      → (in_size : ℕ) (in_data : Option (Input F V)) → D
      → (otherwise : Status × D) → Status × D
  unfolding accept from_foundation
  set_mute mute_scope in_size in_data d otherwise = otherwise
  set_mute mute_element in_size in_data d otherwise = otherwise
  set_mute muted in_size in_data d otherwise =
      accept 4 in_size in_data (λ input. set_is_muted (from_foundation input.uint32_at)) d

  unfoldable pub set_selector :
      MuteControlSelector
      → (in_size : ℕ) (in_data : Option (Input F V)) → D
      → (otherwise : Status × D) → Status × D
  unfolding set_mute
  set_selector (mute c) in_size in_data d otherwise = set_mute c in_size in_data d otherwise
  set_selector (inherited sel) in_size in_data d otherwise = otherwise

  unfoldable pub set_property_data :
      (object_id : ℕ)
      → Option (Address MuteControlSelector)
      → (in_size : ℕ) (in_data : Option (Input F V)) → D
      → Status × D
  unfolding set_selector
  set_property_data object_id none in_size in_data d = (illegal_operation_error, d)
  set_property_data object_id (some address) in_size in_data d =
      let base =
        object_set_property_data o object_id
          (some (re_address (selector_number number address.selector) address)) in_size in_data d in
      if object_id == o.self_id then set_selector address.selector in_size in_data d base else base
