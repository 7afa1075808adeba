-- ===== src/Stream/Accessors/Within.antt =====
-- src/Stream.g.cpp: the calls on the properties of a stream never write more than the caller's buffer has
-- room for.
use lib_aspl.Prelude.{ℕ, refl, Option, none, some, ◌==◌, arith}
use lib_aspl.Object.Accessors.{ObjectView}
use lib_aspl.Object.Accessors.Within.{
  HoldsReferences, refused-IsWithin, either-IsWithin,
  get_property_data-IsWithin as object_get_property_data-IsWithin,
}
use lib_aspl.Accessor.Fits.{IsWithin, size_of, reply_value-IsWithin, reply_array-IsWithin}
use lib_aspl.Accessor.{Scope, Address, re_address, Value, format_array, Buffers, DataReply}
use lib_aspl.Stream.Accessors.{
  Position, active, direction, terminal_type, starting_channel, stream_latency, FormatCase,
  physical, virtual, available_physical, available_virtual, StreamSelector, position, format_case,
  inherited, selector_number, StreamView, data_position, data_format_case, data_selector,
  get_property_data,
}

module _ {F W V D : Type 0} (o : ObjectView V D) (v : D → StreamView F) (b : Buffers)
    (number : StreamSelector → ℕ) (d : D) where
  position-IsWithin :
      (c : Position) (scope : Scope)
      → IsWithin {F = F} {W = W} {V = V} b (data_position o v number c scope b d)
  unfolding data_position size_of
  position-IsWithin active scope = reply_value-IsWithin 4 b _ (omega arith)
  position-IsWithin direction scope = reply_value-IsWithin 4 b _ (omega arith)
  position-IsWithin terminal_type scope = reply_value-IsWithin 4 b _ (omega arith)
  position-IsWithin starting_channel scope = reply_value-IsWithin 4 b _ (omega arith)
  position-IsWithin stream_latency scope = reply_value-IsWithin 4 b _ (omega arith)

  format_case-IsWithin :
      (c : FormatCase) (scope : Scope)
      → IsWithin {F = F} {W = W} {V = V} b (data_format_case o v number c scope b d)
  unfolding data_format_case size_of
  format_case-IsWithin physical scope = reply_value-IsWithin 40 b _ (omega arith)
  format_case-IsWithin virtual scope = reply_value-IsWithin 40 b _ (omega arith)
  format_case-IsWithin available_physical scope =
      reply_array-IsWithin 56 b format_array _ (λ l. refl)
  format_case-IsWithin available_virtual scope =
      reply_array-IsWithin 56 b format_array _ (λ l. refl)

  selector-IsWithin :
      (sel : StreamSelector) (scope : Scope) (otherwise : DataReply (Value F W V))
      → IsWithin b otherwise
      → IsWithin b (data_selector o v number sel scope b d otherwise)
  unfolding data_selector
  selector-IsWithin (position c) scope otherwise w = position-IsWithin c scope
  selector-IsWithin (format_case c) scope otherwise w = format_case-IsWithin c scope
  selector-IsWithin (inherited sel) scope otherwise w = w

  -- If every custom property is registered with the size of a reference, then whatever object,
  -- property and buffer GetPropertyData of a stream is called with, neither the size that it
  -- reports nor the bytes that it writes exceed inDataSize.
  pub get_property_data-IsWithin :
      (object_id : ℕ) (address : Option (Address StreamSelector))
      → HoldsReferences o.custom_properties
      → IsWithin {F = F} {W = W} b (get_property_data o v number object_id address b d)
  unfolding get_property_data
  get_property_data-IsWithin object_id none sized = refused-IsWithin b _ refl refl
  get_property_data-IsWithin object_id (some address) sized =
      let w =
        object_get_property_data-IsWithin b o d object_id
          (some (re_address (selector_number number address.selector) address)) sized in
      either-IsWithin b (object_id == o.self_id) _ _
        (selector-IsWithin address.selector address.scope _ w) w
