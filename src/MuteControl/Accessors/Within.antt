-- ===== src/MuteControl/Accessors/Within.antt =====
-- src/MuteControl.g.cpp: the calls on the properties of a mute control never write more than the caller's buffer has
-- room for.
use lib_aspl.Prelude.{ℕ, refl, Option, none, some, ◌==◌, arith}
use lib_aspl.Object.Accessors.{ObjectView}
use lib_aspl.Object.Accessors.Within.{
  HoldsReferences, refused-IsWithin, either-IsWithin,
  get_property_data-IsWithin as object_get_property_data-IsWithin,
}
use lib_aspl.Accessor.Fits.{IsWithin, size_of, reply_value-IsWithin}
use lib_aspl.Accessor.{Scope, Address, re_address, Value, Buffers, DataReply}
use lib_aspl.MuteControl.Accessors.{
  MuteCase, mute_scope, mute_element, muted, MuteControlSelector, mute, inherited, selector_number,
  MuteView, data_mute, data_selector, get_property_data,
}

module _ {F W V D : Type 0} (o : ObjectView V D) (v : D → MuteView) (b : Buffers)
    (number : MuteControlSelector → ℕ) (d : D) where
  mute-IsWithin :
      (c : MuteCase) (scope : Scope)
      → IsWithin {F = F} {W = W} {V = V} b (data_mute o v number c scope b d)
  unfolding data_mute size_of
  mute-IsWithin mute_scope scope = reply_value-IsWithin 4 b _ (omega arith)
  mute-IsWithin mute_element scope = reply_value-IsWithin 4 b _ (omega arith)
  mute-IsWithin muted scope = reply_value-IsWithin 4 b _ (omega arith)

  selector-IsWithin :
      (sel : MuteControlSelector) (scope : Scope) (otherwise : DataReply (Value F W V))
      → IsWithin b otherwise
      → IsWithin b (data_selector o v number sel scope b d otherwise)
  unfolding data_selector
  selector-IsWithin (mute c) scope otherwise w = mute-IsWithin c scope
  selector-IsWithin (inherited sel) scope otherwise w = w

  -- If every custom property is registered with the size of a reference, then whatever object,
  -- property and buffer GetPropertyData of a mute control is called with, neither the size that
  -- it reports nor the bytes that it writes exceed inDataSize.
  pub get_property_data-IsWithin :
      (object_id : ℕ) (address : Option (Address MuteControlSelector))
      → HoldsReferences o.custom_properties
      → IsWithin {F = F} {W = W} b (get_property_data o v number object_id address b d)
  unfolding get_property_data
  get_property_data-IsWithin object_id none sized = refused-IsWithin b _ refl refl
  get_property_data-IsWithin object_id (some address) sized =
      let w =
        object_get_property_data-IsWithin b o d object_id
          (some (re_address (selector_number number address.selector) address)) sized in
      either-IsWithin b (object_id == o.self_id) _ _
        (selector-IsWithin address.selector address.scope _ w) w
