-- ===== src/Stream/Accessors.antt =====
-- src/Stream.g.cpp: the five calls of the HAL on the properties of a stream. What the switch does not list
-- goes on to the base class, Object.
pub mod Reading
pub mod Described
pub mod Within
pub mod Guarded
use lib_aspl.Prelude.{
  ℕ, ◌&&◌, ◌%◌, ◌^◌, ◌*◌, ◌≤◌, ◌<◌, ◌≡◌, refl, not, Bool, true, false, Option, none, some, List,
  ◌==◌, ltb, if◌then◌else◌, length, Map, lookup, arith, Option-cases, Bool-cases, inl, inr,
}
use lib_aspl.Status.{
  Status, no_error, illegal_operation_error, bad_property_size_error, unknown_property_error,
}
use lib_aspl.Stream.{Format, RangedFormat}
use lib_aspl.Object.Properties.{CustomProperties, set_property_data_fallback}
use lib_aspl.Object.Accessors.{
  ObjectView, ObjectCase, ObjectSelector, own, custom, has_property as object_has_property,
  is_property_settable as object_is_property_settable,
  get_property_data_size as object_get_property_data_size,
  get_property_data as object_get_property_data, set_property_data as object_set_property_data,
}
use lib_aspl.Object.Accessors.Within.{
  HoldsReferences, refused-IsWithin, either-IsWithin,
  get_property_data-IsWithin as object_get_property_data-IsWithin,
}
use lib_aspl.Object.Accessors.Agreement.{
  AreGiven, either-AreGiven, has_property-AreGiven as object_has_property-AreGiven,
}
use lib_aspl.Accessor.Fits.{
  IsWithin, size_of, ReadsWhole, reply_value-IsWithin, reply_array-IsWithin, reply_whole-IsWithin,
  reply_value-ReadsWhole, reply_array-ReadsWhole, reply_whole-ReadsWhole, own-ReadsWhole,
}
use lib_aspl.Accessor.{
  Scope, global_scope, input_scope, output_scope, other_scope, Address, re_address, Value, uint32,
  float32, float64, cf_string, cf_url, value_range, format, uint32_array, byte_array, range_array,
  format_array, info_array, reference, to_foundation, from_foundation, Buffers, Reply, DataReply,
  Input, input_reference, as_reference, write, reply, byte_size, take, reply_value, reply_array,
  reply_whole, accept, in_or_out,
}

-- The `case`s of the switches, in groups that follow one another.
pub data Position : Type 0 where
  active : Position
  direction : Position
  terminal_type : Position
  starting_channel : Position
  stream_latency : Position

pub data FormatCase : Type 0 where
  physical : FormatCase
  virtual : FormatCase
  available_physical : FormatCase
  available_virtual : FormatCase

pub data StreamSelector : Type 0 where
  position : Position → StreamSelector
  format_case : FormatCase → StreamSelector
  inherited : ObjectSelector → StreamSelector

-- What the virtual getters return; an enumeration is its number.
pub record StreamView (F : Type 0) : Type 0 where
  pub is_active : Bool
  pub direction_number : ℕ
  pub terminal_type_code : ℕ
  pub starting_channel_number : ℕ
  pub latency : ℕ
  pub physical_format : Format F
  pub virtual_format : Format F
  pub available_physical_formats : List (RangedFormat F)
  pub available_virtual_formats : List (RangedFormat F)

-- What the base class is asked about: `number` is the constant of CoreAudio that a `case` names.
abbrev pub selector_number : (number : StreamSelector → ℕ) → StreamSelector → ObjectSelector
selector_number number (inherited sel) = sel
selector_number number sel = custom (number sel)

unfoldable pub has_position : Position → Bool
has_position active = true
has_position direction = true
has_position terminal_type = true
has_position starting_channel = true
has_position stream_latency = true

unfoldable pub has_format_case : FormatCase → Bool
has_format_case physical = true
has_format_case virtual = true
has_format_case available_physical = true
has_format_case available_virtual = true

unfoldable pub has_selector : StreamSelector → Scope → (otherwise : Bool) → Bool
unfolding has_position has_format_case
has_selector (position c) scope otherwise = has_position c
has_selector (format_case c) scope otherwise = has_format_case c
has_selector (inherited sel) scope otherwise = otherwise

module _ {V D : Type 0} (o : ObjectView V D) (number : StreamSelector → ℕ) where
  unfoldable pub has_property : (object_id : ℕ) → Option (Address StreamSelector) → Bool
  unfolding has_selector
  has_property object_id none = false
  has_property object_id (some address) =
      let base =
        object_has_property o object_id
          (some (re_address (selector_number number address.selector) address)) in
      if object_id == o.self_id then has_selector address.selector address.scope base else base

unfoldable pub settable_position : Position → (wanted : Bool) → Reply Bool
unfolding reply
settable_position active wanted = reply wanted true
settable_position direction wanted = reply wanted false
settable_position terminal_type wanted = reply wanted false
settable_position starting_channel wanted = reply wanted false
settable_position stream_latency wanted = reply wanted false

unfoldable pub settable_format_case : FormatCase → (wanted : Bool) → Reply Bool
unfolding reply
settable_format_case physical wanted = reply wanted true
settable_format_case virtual wanted = reply wanted true
settable_format_case available_physical wanted = reply wanted false
settable_format_case available_virtual wanted = reply wanted false

unfoldable pub settable_selector :
    StreamSelector → (wanted : Bool) (otherwise : Reply Bool) → Reply Bool
unfolding settable_position settable_format_case
settable_selector (position c) wanted otherwise = settable_position c wanted
settable_selector (format_case c) wanted otherwise = settable_format_case c wanted
settable_selector (inherited sel) wanted otherwise = otherwise

module _ {V D : Type 0} (o : ObjectView V D) (number : StreamSelector → ℕ) where
  unfoldable pub is_property_settable :
      (object_id : ℕ) → Option (Address StreamSelector) → (wanted : Bool) → Reply Bool
  unfolding settable_selector
  is_property_settable object_id none wanted = (illegal_operation_error, none)
  is_property_settable object_id (some address) wanted =
      let base =
        object_is_property_settable o object_id
          (some (re_address (selector_number number address.selector) address)) wanted in
      if object_id == o.self_id then settable_selector address.selector wanted base else base

module _ {F V D : Type 0} (o : ObjectView V D) (v : D → StreamView F)
    (number : StreamSelector → ℕ) where
  unfoldable pub size_position : Position → (scope : Scope) (wanted : Bool) → D → Reply ℕ
  unfolding reply
  size_position active scope wanted d = reply wanted 4
  size_position direction scope wanted d = reply wanted 4
  size_position terminal_type scope wanted d = reply wanted 4
  size_position starting_channel scope wanted d = reply wanted 4
  size_position stream_latency scope wanted d = reply wanted 4

  unfoldable pub size_format_case : FormatCase → (scope : Scope) (wanted : Bool) → D → Reply ℕ
  unfolding reply
  size_format_case physical scope wanted d = reply wanted 40
  size_format_case virtual scope wanted d = reply wanted 40
  size_format_case available_physical scope wanted d =
      reply wanted (byte_size 56 (length (v d).available_physical_formats))
  size_format_case available_virtual scope wanted d =
      reply wanted (byte_size 56 (length (v d).available_virtual_formats))

  unfoldable pub size_selector :
      StreamSelector → (scope : Scope) (wanted : Bool) → D → (otherwise : Reply ℕ) → Reply ℕ
  unfolding size_position size_format_case
  size_selector (position c) scope wanted d otherwise = size_position c scope wanted d
  size_selector (format_case c) scope wanted d otherwise = size_format_case c scope wanted d
  size_selector (inherited sel) scope wanted d otherwise = otherwise

  unfoldable pub get_property_data_size :
      (object_id : ℕ) → Option (Address StreamSelector) → (wanted : Bool) → D → Reply ℕ
  unfolding size_selector
  get_property_data_size object_id none wanted d = (illegal_operation_error, none)
  get_property_data_size object_id (some address) wanted d =
      let base =
        object_get_property_data_size o object_id
          (some (re_address (selector_number number address.selector) address)) wanted d in
      if object_id == o.self_id
      then size_selector address.selector address.scope wanted d base
      else base

module _ {F W V D : Type 0} (o : ObjectView V D) (v : D → StreamView F)
    (number : StreamSelector → ℕ) where
  unfoldable pub data_position :
      Position → (scope : Scope) (b : Buffers) → D → DataReply (Value F W V)
  unfolding reply_value to_foundation
  data_position active scope b d = reply_value 4 b (uint32 (to_foundation (v d).is_active))
  data_position direction scope b d = reply_value 4 b (uint32 (v d).direction_number)
  data_position terminal_type scope b d = reply_value 4 b (uint32 (v d).terminal_type_code)
  data_position starting_channel scope b d = reply_value 4 b (uint32 (v d).starting_channel_number)
  data_position stream_latency scope b d = reply_value 4 b (uint32 (v d).latency)

  unfoldable pub data_format_case :
      FormatCase → (scope : Scope) (b : Buffers) → D → DataReply (Value F W V)
  unfolding reply_array reply_value
  data_format_case physical scope b d = reply_value 40 b (format (v d).physical_format)
  data_format_case virtual scope b d = reply_value 40 b (format (v d).virtual_format)
  data_format_case available_physical scope b d =
      reply_array 56 b format_array (v d).available_physical_formats
  data_format_case available_virtual scope b d =
      reply_array 56 b format_array (v d).available_virtual_formats

  unfoldable pub data_selector :
      StreamSelector
      → (scope : Scope) (b : Buffers) → D
      → (otherwise : DataReply (Value F W V)) → DataReply (Value F W V)
  unfolding data_position data_format_case
  data_selector (position c) scope b d otherwise = data_position c scope b d
  data_selector (format_case c) scope b d otherwise = data_format_case c scope b d
  data_selector (inherited sel) scope b d otherwise = otherwise

  unfoldable pub get_property_data :
      (object_id : ℕ)
      → Option (Address StreamSelector)
      → (b : Buffers) → D
      → DataReply (Value F W V)
  unfolding data_selector
  get_property_data object_id none b d = (illegal_operation_error, none, none)
  get_property_data object_id (some address) b d =
      let base : DataReply (Value F W V) =
        object_get_property_data o object_id
          (some (re_address (selector_number number address.selector) address)) b d in
      if object_id == o.self_id then data_selector address.selector address.scope b d base else base

module _ {F V D : Type 0} (o : ObjectView V D) (number : StreamSelector → ℕ)
    (set_is_active : Bool → D → Status × D) (set_physical_format : Format F → D → Status × D)
    (set_virtual_format : Format F → D → Status × D) where
  unfoldable pub set_position :
      Position
      → (in_size : ℕ) (in_data : Option (Input F V)) → D
      → (otherwise : Status × D) → Status × D
  unfolding accept from_foundation
  set_position active in_size in_data d otherwise =
      accept 4 in_size in_data (λ input. set_is_active (from_foundation input.uint32_at)) d
  set_position direction in_size in_data d otherwise = otherwise
  set_position terminal_type in_size in_data d otherwise = otherwise
  set_position starting_channel in_size in_data d otherwise = otherwise
  set_position stream_latency in_size in_data d otherwise = otherwise

  unfoldable pub set_format_case :
      FormatCase
      → (in_size : ℕ) (in_data : Option (Input F V)) → D
      → (otherwise : Status × D) → Status × D
  unfolding accept from_foundation
  set_format_case physical in_size in_data d otherwise =
      accept 40 in_size in_data (λ input. set_physical_format input.format_at) d
  set_format_case virtual in_size in_data d otherwise =
      accept 40 in_size in_data (λ input. set_virtual_format input.format_at) d
  set_format_case available_physical in_size in_data d otherwise = otherwise
  set_format_case available_virtual in_size in_data d otherwise = otherwise

  unfoldable pub set_selector :
      StreamSelector
      → (in_size : ℕ) (in_data : Option (Input F V)) → D
      → (otherwise : Status × D) → Status × D
  unfolding set_position set_format_case
  set_selector (position c) in_size in_data d otherwise = set_position c in_size in_data d otherwise
  set_selector (format_case c) in_size in_data d otherwise =
      set_format_case c in_size in_data d otherwise
  set_selector (inherited sel) in_size in_data d otherwise = otherwise

  unfoldable pub set_property_data :
      (object_id : ℕ)
      → Option (Address StreamSelector)
      → (in_size : ℕ) (in_data : Option (Input F V)) → D
      → Status × D
  unfolding set_selector
  set_property_data object_id none in_size in_data d = (illegal_operation_error, d)
  set_property_data object_id (some address) in_size in_data d =
      let base =
        object_set_property_data o object_id
          (some (re_address (selector_number number address.selector) address)) in_size in_data d in
      if object_id == o.self_id then set_selector address.selector in_size in_data d base else base
