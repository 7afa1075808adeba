-- ===== src/Stream/Accessors/Described.antt =====
-- src/Stream.g.cpp: a property that a stream reports to have is described by the other calls.
use lib_aspl.Prelude.{ℕ, ◌≡◌, refl, Bool, true, Option, none, some, ◌==◌, arith}
use lib_aspl.Object.Accessors.{ObjectView}
use lib_aspl.Object.Accessors.Agreement.{
  AreGiven, either-AreGiven, has_property-AreGiven as object_has_property-AreGiven,
}
use lib_aspl.Accessor.{Scope, Address, re_address, Reply, reply}
use lib_aspl.Stream.Accessors.{
  Position, active, direction, terminal_type, starting_channel, stream_latency, FormatCase,
  physical, virtual, available_physical, available_virtual, StreamSelector, position, format_case,
  inherited, selector_number, StreamView, settable_position, settable_format_case, size_position,
  size_format_case, has_selector, has_property, settable_selector, is_property_settable,
  size_selector, get_property_data_size,
}

module _ {F V D : Type 0} (o : ObjectView V D) (v : D → StreamView F) (number : StreamSelector → ℕ)
    (d : D) where
  position-AreGiven :
      (c : Position) (scope : Scope) (wanted : Bool)
      → AreGiven (settable_position c wanted) (size_position o v number c scope wanted d)
  unfolding settable_position size_position reply
  position-AreGiven active scope wanted = (refl, refl)
  position-AreGiven direction scope wanted = (refl, refl)
  position-AreGiven terminal_type scope wanted = (refl, refl)
  position-AreGiven starting_channel scope wanted = (refl, refl)
  position-AreGiven stream_latency scope wanted = (refl, refl)

  format_case-AreGiven :
      (c : FormatCase) (scope : Scope) (wanted : Bool)
      → AreGiven (settable_format_case c wanted) (size_format_case o v number c scope wanted d)
  unfolding settable_format_case size_format_case reply
  format_case-AreGiven physical scope wanted = (refl, refl)
  format_case-AreGiven virtual scope wanted = (refl, refl)
  format_case-AreGiven available_physical scope wanted = (refl, refl)
  format_case-AreGiven available_virtual scope wanted = (refl, refl)

  selector-AreGiven :
      (sel : StreamSelector) (scope : Scope) (wanted has : Bool) (r : Reply Bool) (q : Reply ℕ)
      → (has ≡ true → AreGiven r q)
      → has_selector sel scope has ≡ true
      → AreGiven (settable_selector sel wanted r) (size_selector o v number sel scope wanted d q)
  unfolding has_selector settable_selector size_selector
  selector-AreGiven (position c) scope wanted has r q f h = position-AreGiven c scope wanted
  selector-AreGiven (format_case c) scope wanted has r q f h = format_case-AreGiven c scope wanted
  selector-AreGiven (inherited sel) scope wanted has r q f h = f h

  -- A property that a stream reports to have, inherited and custom ones included, is answered
  -- without error by IsPropertySettable and GetPropertyDataSize, whether or not their output
  -- pointers are null.
  pub has_property-AreGiven :
      (object_id : ℕ) (address : Option (Address StreamSelector)) (wanted : Bool)
      → has_property o number object_id address ≡ true
      → AreGiven
          (is_property_settable o number object_id address wanted)
          (get_property_data_size o v number object_id address wanted d)
  unfolding has_property is_property_settable get_property_data_size
  has_property-AreGiven object_id none wanted h = ground arith
  has_property-AreGiven object_id (some address) wanted h =
      let base =
        object_has_property-AreGiven o d object_id
          (some (re_address (selector_number number address.selector) address)) wanted in
      either-AreGiven (object_id == o.self_id) _ _ _ _ _ _
        (selector-AreGiven address.selector address.scope wanted _ _ _ base) base h
