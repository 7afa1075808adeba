-- ===== src/Stream/Accessors/Reading.antt =====
-- src/Stream.g.cpp: what the HAL reads from a stream when it asks for the size of a property first.
use lib_aspl.Prelude.{ℕ, ◌^◌, ◌<◌, ◌≡◌, refl, true, Option, none, some, ◌==◌, arith}
use lib_aspl.Object.Accessors.{ObjectView}
use lib_aspl.Accessor.Fits.{
  size_of, ReadsWhole, reply_value-ReadsWhole, reply_array-ReadsWhole, own-ReadsWhole,
}
use lib_aspl.Accessor.{
  Scope, Address, Value, uint32, format, format_array, to_foundation, Buffers, Reply, DataReply,
}
use lib_aspl.Stream.Accessors.{
  Position, active, direction, terminal_type, starting_channel, stream_latency, FormatCase,
  physical, virtual, available_physical, available_virtual, StreamSelector, position, format_case,
  inherited, StreamView, size_position, size_format_case, data_position, data_format_case,
  size_selector, get_property_data_size, data_selector, get_property_data,
}

module _ {F W V D : Type 0} (o : ObjectView V D) (v : D → StreamView F)
    (number : StreamSelector → ℕ) where
  unfoldable pub value_position : Position → (scope : Scope) → D → Value F W V
  unfolding to_foundation
  value_position active scope d = uint32 (to_foundation (v d).is_active)
  value_position direction scope d = uint32 (v d).direction_number
  value_position terminal_type scope d = uint32 (v d).terminal_type_code
  value_position starting_channel scope d = uint32 (v d).starting_channel_number
  value_position stream_latency scope d = uint32 (v d).latency

  unfoldable pub value_format_case : FormatCase → (scope : Scope) → D → Value F W V
  value_format_case physical scope d = format (v d).physical_format
  value_format_case virtual scope d = format (v d).virtual_format
  value_format_case available_physical scope d = format_array (v d).available_physical_formats
  value_format_case available_virtual scope d = format_array (v d).available_virtual_formats

  -- The value of a property that the class lists.
  unfoldable pub listed_value : StreamSelector → (scope : Scope) → D → Option (Value F W V)
  unfolding value_position value_format_case
  listed_value (position c) scope d = some (value_position c scope d)
  listed_value (format_case c) scope d = some (value_format_case c scope d)
  listed_value (inherited sel) scope d = none

module _ {F W V D : Type 0} (o : ObjectView V D) (v : D → StreamView F)
    (number : StreamSelector → ℕ) (d : D) (b : Buffers) where
  position-ReadsWhole :
      (c : Position) (scope : Scope)
      → size_of {F = F} {W = W} {V = V} (value_position o v number c scope d) < 2 ^ 32
      → ReadsWhole {F = F} {W = W} {V = V}
          (value_position o v number c scope d)
          b
          (size_position o v number c scope true d)
          (data_position o v number c scope b d)
  unfolding value_position size_position data_position size_of to_foundation
  position-ReadsWhole active scope small = reply_value-ReadsWhole 4 b _ refl
  position-ReadsWhole direction scope small = reply_value-ReadsWhole 4 b _ refl
  position-ReadsWhole terminal_type scope small = reply_value-ReadsWhole 4 b _ refl
  position-ReadsWhole starting_channel scope small = reply_value-ReadsWhole 4 b _ refl
  position-ReadsWhole stream_latency scope small = reply_value-ReadsWhole 4 b _ refl

  format_case-ReadsWhole :
      (c : FormatCase) (scope : Scope)
      → size_of {F = F} {W = W} {V = V} (value_format_case o v number c scope d) < 2 ^ 32
      → ReadsWhole {F = F} {W = W} {V = V}
          (value_format_case o v number c scope d)
          b
          (size_format_case o v number c scope true d)
          (data_format_case o v number c scope b d)
  unfolding value_format_case size_format_case data_format_case size_of to_foundation
  format_case-ReadsWhole physical scope small = reply_value-ReadsWhole 40 b _ refl
  format_case-ReadsWhole virtual scope small = reply_value-ReadsWhole 40 b _ refl
  format_case-ReadsWhole available_physical scope small =
      reply_array-ReadsWhole 56 b format_array _ refl small (omega arith)
  format_case-ReadsWhole available_virtual scope small =
      reply_array-ReadsWhole 56 b format_array _ refl small (omega arith)

  selector-ReadsWhole :
      (sel : StreamSelector) (scope : Scope) (value : Value F W V) (q : Reply ℕ)
      (r : DataReply (Value F W V))
      → listed_value o v number sel scope d ≡ some value
      → size_of value < 2 ^ 32
      → ReadsWhole value b
          (size_selector o v number sel scope true d q)
          (data_selector o v number sel scope b d r)
  unfolding listed_value size_selector data_selector
  selector-ReadsWhole (position c) scope value q r e small =
      ground (arith, position-ReadsWhole c scope (ground arith))
  selector-ReadsWhole (format_case c) scope value q r e small =
      ground (arith, format_case-ReadsWhole c scope (ground arith))
  selector-ReadsWhole (inherited sel) scope value q r e small = ground arith

  -- A property that the class of a stream lists, with a value of less than 4 GiB, is read whole:
  -- GetPropertyDataSize reports the size of the value, and GetPropertyData with a buffer of that
  -- size or more succeeds, reports the size and gives the value.
  pub stream_get_property_data-ReadsWhole :
      (address : Address StreamSelector) (value : Value F W V)
      → listed_value o v number address.selector address.scope d ≡ some value
      → size_of value < 2 ^ 32
      → ReadsWhole value b
          (get_property_data_size o v number o.self_id (some address) true d)
          (get_property_data o v number o.self_id (some address) b d)
  unfolding get_property_data_size get_property_data
  stream_get_property_data-ReadsWhole address value e small =
      own-ReadsWhole value b (o.self_id == o.self_id) _ _ _ _ (ground arith)
        (selector-ReadsWhole address.selector address.scope value _ _ e small)
