-- ===== src/VolumeControl/Accessors.antt =====
-- src/VolumeControl.g.cpp: the five calls of the HAL on the properties of a volume control. What the switch does not list
-- goes on to the base class, Object.
pub mod Reading
pub mod Described
pub mod Within
pub mod Guarded
use lib_aspl.Prelude.{
  ℕ, ◌&&◌, ◌%◌, ◌^◌, ◌*◌, ◌≤◌, ◌<◌, ◌≡◌, refl, not, Bool, true, false, Option, none, some, List,
  ◌==◌, ltb, if◌then◌else◌, length, Map, lookup, arith, Option-cases, Bool-cases, inl, inr,
}
use lib_aspl.Status.{
  Status, no_error, illegal_operation_error, bad_property_size_error, unknown_property_error,
}
use lib_aspl.Stream.{Format, RangedFormat}
use lib_aspl.Object.Properties.{CustomProperties, set_property_data_fallback}
use lib_aspl.Object.Accessors.{
  ObjectView, ObjectCase, ObjectSelector, own, custom, has_property as object_has_property,
  is_property_settable as object_is_property_settable,
  get_property_data_size as object_get_property_data_size,
  get_property_data as object_get_property_data, set_property_data as object_set_property_data,
}
use lib_aspl.Object.Accessors.Within.{
  HoldsReferences, refused-IsWithin, either-IsWithin,
  get_property_data-IsWithin as object_get_property_data-IsWithin,
}
use lib_aspl.Object.Accessors.Agreement.{
  AreGiven, either-AreGiven, has_property-AreGiven as object_has_property-AreGiven,
}
use lib_aspl.Accessor.Fits.{
  IsWithin, size_of, ReadsWhole, reply_value-IsWithin, reply_array-IsWithin, reply_whole-IsWithin,
  reply_value-ReadsWhole, reply_array-ReadsWhole, reply_whole-ReadsWhole, own-ReadsWhole,
}
use lib_aspl.Accessor.{
  Scope, global_scope, input_scope, output_scope, other_scope, Address, re_address, Value, uint32,
  float32, float64, cf_string, cf_url, value_range, format, uint32_array, byte_array, range_array,
  format_array, info_array, reference, to_foundation, from_foundation, Buffers, Reply, DataReply,
  Input, input_reference, as_reference, write, reply, byte_size, take, reply_value, reply_array,
  reply_whole, accept, in_or_out,
}

-- The `case`s of the switches, in groups that follow one another.
pub data Place : Type 0 where
  control_scope : Place
  control_element : Place

pub data Level : Type 0 where
  scalar : Level
  decibel : Level
  decibel_range : Level
  scalar_to_decibels : Level
  decibels_to_scalar : Level

pub data VolumeControlSelector : Type 0 where
  place : Place → VolumeControlSelector
  level : Level → VolumeControlSelector
  inherited : ObjectSelector → VolumeControlSelector

-- What the virtual getters return, with the two conversions.
pub record VolumeView (F : Type 0) : Type 0 where
  pub scope_code : ℕ
  pub element_number : ℕ
  pub scalar_value : F
  pub decibel_value : F
  pub range_in_decibels : F × F
  pub convert_scalar_to_decibels : F → F
  pub convert_decibels_to_scalar : F → F

-- What the base class is asked about: `number` is the constant of CoreAudio that a `case` names.
abbrev pub selector_number :
    (number : VolumeControlSelector → ℕ) → VolumeControlSelector → ObjectSelector
selector_number number (inherited sel) = sel
selector_number number sel = custom (number sel)

unfoldable pub has_place : Place → Bool
has_place control_scope = true
has_place control_element = true

unfoldable pub has_level : Level → Bool
has_level scalar = true
has_level decibel = true
has_level decibel_range = true
has_level scalar_to_decibels = true
has_level decibels_to_scalar = true

unfoldable pub has_selector : VolumeControlSelector → Scope → (otherwise : Bool) → Bool
unfolding has_place has_level
has_selector (place c) scope otherwise = has_place c
has_selector (level c) scope otherwise = has_level c
has_selector (inherited sel) scope otherwise = otherwise

module _ {V D : Type 0} (o : ObjectView V D) (number : VolumeControlSelector → ℕ) where
  unfoldable pub has_property : (object_id : ℕ) → Option (Address VolumeControlSelector) → Bool
  unfolding has_selector
  has_property object_id none = false
  has_property object_id (some address) =
      let base =
        object_has_property o object_id
          (some (re_address (selector_number number address.selector) address)) in
      if object_id == o.self_id then has_selector address.selector address.scope base else base

unfoldable pub settable_place : Place → (wanted : Bool) → Reply Bool
unfolding reply
settable_place control_scope wanted = reply wanted false
settable_place control_element wanted = reply wanted false

unfoldable pub settable_level : Level → (wanted : Bool) → Reply Bool
unfolding reply
settable_level scalar wanted = reply wanted true
settable_level decibel wanted = reply wanted true
settable_level decibel_range wanted = reply wanted false
settable_level scalar_to_decibels wanted = reply wanted false
settable_level decibels_to_scalar wanted = reply wanted false

unfoldable pub settable_selector :
    VolumeControlSelector → (wanted : Bool) (otherwise : Reply Bool) → Reply Bool
unfolding settable_place settable_level
settable_selector (place c) wanted otherwise = settable_place c wanted
settable_selector (level c) wanted otherwise = settable_level c wanted
settable_selector (inherited sel) wanted otherwise = otherwise

module _ {V D : Type 0} (o : ObjectView V D) (number : VolumeControlSelector → ℕ) where
  unfoldable pub is_property_settable :
      (object_id : ℕ) → Option (Address VolumeControlSelector) → (wanted : Bool) → Reply Bool
  unfolding settable_selector
  is_property_settable object_id none wanted = (illegal_operation_error, none)
  is_property_settable object_id (some address) wanted =
      let base =
        object_is_property_settable o object_id
          (some (re_address (selector_number number address.selector) address)) wanted in
      if object_id == o.self_id then settable_selector address.selector wanted base else base

module _ {F V D : Type 0} (o : ObjectView V D) (v : D → VolumeView F)
    (number : VolumeControlSelector → ℕ) where
  unfoldable pub size_place : Place → (scope : Scope) (wanted : Bool) → D → Reply ℕ
  unfolding reply
  size_place control_scope scope wanted d = reply wanted 4
  size_place control_element scope wanted d = reply wanted 4

  unfoldable pub size_level : Level → (scope : Scope) (wanted : Bool) → D → Reply ℕ
  unfolding reply
  size_level scalar scope wanted d = reply wanted 4
  size_level decibel scope wanted d = reply wanted 4
  size_level decibel_range scope wanted d = reply wanted 16
  size_level scalar_to_decibels scope wanted d = reply wanted 4
  size_level decibels_to_scalar scope wanted d = reply wanted 4

  unfoldable pub size_selector :
      VolumeControlSelector → (scope : Scope) (wanted : Bool) → D → (otherwise : Reply ℕ) → Reply ℕ
  unfolding size_place size_level
  size_selector (place c) scope wanted d otherwise = size_place c scope wanted d
  size_selector (level c) scope wanted d otherwise = size_level c scope wanted d
  size_selector (inherited sel) scope wanted d otherwise = otherwise

  unfoldable pub get_property_data_size :
      (object_id : ℕ) → Option (Address VolumeControlSelector) → (wanted : Bool) → D → Reply ℕ
  unfolding size_selector
  get_property_data_size object_id none wanted d = (illegal_operation_error, none)
  get_property_data_size object_id (some address) wanted d =
      let base =
        object_get_property_data_size o object_id
          (some (re_address (selector_number number address.selector) address)) wanted d in
      if object_id == o.self_id
      then size_selector address.selector address.scope wanted d base
      else base

module _ {F W V D : Type 0} (o : ObjectView V D) (v : D → VolumeView F)
    (number : VolumeControlSelector → ℕ) where
  unfoldable pub data_place :
      Place → (scope : Scope) (input : F) (b : Buffers) → D → DataReply (Value F W V)
  unfolding reply_value
  data_place control_scope scope input b d = reply_value 4 b (uint32 (v d).scope_code)
  data_place control_element scope input b d = reply_value 4 b (uint32 (v d).element_number)

  unfoldable pub data_level :
      Level → (scope : Scope) (input : F) (b : Buffers) → D → DataReply (Value F W V)
  unfolding reply_value
  data_level scalar scope input b d = reply_value 4 b (float32 (v d).scalar_value)
  data_level decibel scope input b d = reply_value 4 b (float32 (v d).decibel_value)
  data_level decibel_range scope input b d = reply_value 16 b (value_range (v d).range_in_decibels)
  data_level scalar_to_decibels scope input b d =
      reply_value 4 b (float32 ((v d).convert_scalar_to_decibels input))
  data_level decibels_to_scalar scope input b d =
      reply_value 4 b (float32 ((v d).convert_decibels_to_scalar input))

  unfoldable pub data_selector :
      VolumeControlSelector
      → (scope : Scope) (input : F) (b : Buffers) → D
      → (otherwise : DataReply (Value F W V)) → DataReply (Value F W V)
  unfolding data_place data_level
  data_selector (place c) scope input b d otherwise = data_place c scope input b d
  data_selector (level c) scope input b d otherwise = data_level c scope input b d
  data_selector (inherited sel) scope input b d otherwise = otherwise

  unfoldable pub get_property_data :
      (object_id : ℕ)
      → Option (Address VolumeControlSelector)
      → (input : F) (b : Buffers) → D
      → DataReply (Value F W V)
  unfolding data_selector
  get_property_data object_id none input b d = (illegal_operation_error, none, none)
  get_property_data object_id (some address) input b d =
      let base : DataReply (Value F W V) =
        object_get_property_data o object_id
          (some (re_address (selector_number number address.selector) address)) b d in
      if object_id == o.self_id
      then data_selector address.selector address.scope input b d base
      else base

module _ {F V D : Type 0} (o : ObjectView V D) (number : VolumeControlSelector → ℕ)
    (set_scalar_value : F → D → Status × D) (set_decibel_value : F → D → Status × D) where
  unfoldable pub set_level :
      Level
      → (in_size : ℕ) (in_data : Option (Input F V)) → D
      → (otherwise : Status × D) → Status × D
  unfolding accept from_foundation
  set_level scalar in_size in_data d otherwise =
      accept 4 in_size in_data (λ input. set_scalar_value input.float32_at) d
  set_level decibel in_size in_data d otherwise =
      accept 4 in_size in_data (λ input. set_decibel_value input.float32_at) d
  set_level decibel_range in_size in_data d otherwise = otherwise
  set_level scalar_to_decibels in_size in_data d otherwise = otherwise
  set_level decibels_to_scalar in_size in_data d otherwise = otherwise

  unfoldable pub set_selector :
      VolumeControlSelector
      → (in_size : ℕ) (in_data : Option (Input F V)) → D
      → (otherwise : Status × D) → Status × D
  unfolding set_level
  set_selector (place c) in_size in_data d otherwise = otherwise
  set_selector (level c) in_size in_data d otherwise = set_level c in_size in_data d otherwise
  set_selector (inherited sel) in_size in_data d otherwise = otherwise

  unfoldable pub set_property_data :
      (object_id : ℕ)
      → Option (Address VolumeControlSelector)
      → (in_size : ℕ) (in_data : Option (Input F V)) → D
      → Status × D
  unfolding set_selector
  set_property_data object_id none in_size in_data d = (illegal_operation_error, d)
  set_property_data object_id (some address) in_size in_data d =
      let base =
        object_set_property_data o object_id
          (some (re_address (selector_number number address.selector) address)) in_size in_data d in
      if object_id == o.self_id then set_selector address.selector in_size in_data d base else base
