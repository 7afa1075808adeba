-- ===== src/Accessor.antt =====
-- What the generated accessors share (src/*.g.cpp): the values that they pass to the HAL
-- (src/Convert.hpp), the buffers of a call, and the shapes that a `case` of their switches has.
-- An object is asked about a selector, a scope and an element; `Sel` is what the switch of a class
-- makes of the selector. The tracer's calls are left out.
pub mod Fits
pub mod Guarded
pub mod Setters
use lib_aspl.Prelude.{
  ℕ, zero, suc, ◌*◌, ◌/◌, ◌%◌, ◌^◌, min, Bool, true, false, not, Option, none, some, List, [], ◌∷◌,
  if◌then◌else◌, ltb, ◌==◌, length,
}
use lib_aspl.Status.{Status, no_error, bad_property_size_error, illegal_operation_error, is_ok}
use lib_aspl.Object.Properties.{DataType}
use lib_aspl.Stream.{Format, RangedFormat}

-- AudioObjectPropertyScope
pub data Scope : Type 0 where
  global_scope : Scope
  input_scope : Scope
  output_scope : Scope
  other_scope : ℕ → Scope

-- The scopes of a property that only the two directions have.
unfoldable pub in_or_out : Scope → Bool
in_or_out input_scope = true
in_or_out output_scope = true
in_or_out _ = false

-- AudioObjectPropertyAddress
pub record Address (Sel : Type 0) : Type 0 where
  pub selector : Sel
  pub scope : Scope
  pub element : ℕ

abbrev pub re_address : {Sel Base : Type 0} → Base → Address Sel → Address Base
re_address base address = record {
  selector = base;
  scope = address.scope;
  element = address.element;
}

-- `F` is Float64 or Float32, `W` text, `V` a CoreFoundation reference of a custom property. An array
-- is a list; an enumeration is its number, which is what `Convert::ToFoundation` makes of it.
pub data Value (F W V : Type 0) : Type 0 where
  uint32 : ℕ → Value F W V
  float32 : F → Value F W V
  float64 : F → Value F W V
  cf_string : W → Value F W V
  cf_url : W → Value F W V
  value_range : F × F → Value F W V
  format : Format F → Value F W V
  uint32_array : List ℕ → Value F W V
  byte_array : List ℕ → Value F W V
  range_array : List (F × F) → Value F W V
  format_array : List (RangedFormat F) → Value F W V
  info_array : List (ℕ × DataType) → Value F W V
  reference : V → Value F W V

-- `Convert::ToFoundation` and `Convert::FromFoundation` between bool and UInt32.
unfoldable pub to_foundation : Bool → ℕ
to_foundation true = 1
to_foundation false = 0

unfoldable pub from_foundation : ℕ → Bool
from_foundation n = not (n == 0)

-- The buffers of `GetPropertyData`: inDataSize, and whether outDataSize and outData are not null.
pub record Buffers : Type 0 where
  pub in_size : ℕ
  pub size_wanted : Bool
  pub data_wanted : Bool

-- A status, with what is written to the output pointers.
abbrev pub Reply : Type 0 → Type 0
Reply A = Status × Option A

abbrev pub DataReply : Type 0 → Type 0
DataReply A = Status × Option ℕ × Option A

-- What inData reads as, at each type that a setter expects.
pub record Input (F V : Type 0) : Type 0 where
  pub uint32_at : ℕ
  pub float32_at : F
  pub float64_at : F
  pub format_at : Format F
  pub reference_at : V

abbrev pub input_reference : {F V : Type 0} → Option (Input F V) → Option V
input_reference none = none
input_reference (some input) = some input.reference_at

abbrev pub as_value : {F W V : Type 0} → Option V → Option (Value F W V)
as_value none = none
as_value (some v) = some (reference v)

abbrev pub as_reference : {F W V : Type 0} → DataReply V → DataReply (Value F W V)
as_reference r = (r.0, r.1, as_value r.2)

unfoldable pub write : {A : Type 0} → (wanted : Bool) → A → Option A
write wanted a = if wanted then some a else none

unfoldable pub reply : {A : Type 0} → (wanted : Bool) → A → Reply A
unfolding write
reply wanted a = (no_error, write wanted a)

-- The multiplication and the conversion to UInt32 of a size in bytes.
abbrev pub byte_size : (size count : ℕ) → ℕ
byte_size size count = count * size % 2 ^ 32

unfoldable pub take : {A : Type 0} → ℕ → List A → List A
take zero l = []
take (suc n) [] = []
take (suc n) (a ∷ l) = a ∷ take n l

module _ {A : Type 0} (size : ℕ) (b : Buffers) where
  -- A `case` of `GetPropertyData` for one value.
  unfoldable pub reply_value : A → DataReply A
  unfolding write
  reply_value value =
      if ltb b.in_size size
      then (bad_property_size_error, none, none)
      else (no_error, write b.size_wanted size, write b.data_wanted value)

  -- For an array: as many elements as the buffer has room for.
  unfoldable pub reply_array : {E : Type 0} → (List E → A) → List E → DataReply A
  unfolding write take
  reply_array of_list values =
      let count : ℕ = min (b.in_size / size) (length values) in
      (
        no_error,
        write b.size_wanted (byte_size size count),
        write b.data_wanted (of_list (take count values)),
      )

  -- For an array that is a structure of variable length: all of it, or an error.
  unfoldable pub reply_whole : {E : Type 0} → (List E → A) → List E → DataReply A
  unfolding write
  reply_whole of_list values =
      if ltb b.in_size (length values * size) then (bad_property_size_error, none, none) else (
        no_error,
        write b.size_wanted (byte_size size (length values)),
        write b.data_wanted (of_list values),
      )

-- A `case` of `SetPropertyData`: inDataSize has to be the size of the value; inData is null where
-- `in_data` is `none`.
unfoldable pub accept :
    {A D : Type 0} (size in_size : ℕ) (in_data : Option A) (setter : A → D → Status × D)
    → D
    → Status × D
accept size in_size in_data setter d =
    if not (in_size == size)
    then (bad_property_size_error, d)
    else elim in_data [ none ↦ (illegal_operation_error, d) | some value ↦ setter value d ]
