-- ===== src/VolumeControl/Accessors/Within.antt =====
-- src/VolumeControl.g.cpp: the calls on the properties of a volume control never write more than the caller's buffer has
-- room for.
use lib_aspl.Prelude.{ℕ, refl, Option, none, some, ◌==◌, arith}
use lib_aspl.Object.Accessors.{ObjectView}
use lib_aspl.Object.Accessors.Within.{
  HoldsReferences, refused-IsWithin, either-IsWithin,
  get_property_data-IsWithin as object_get_property_data-IsWithin,
}
use lib_aspl.Accessor.Fits.{IsWithin, size_of, reply_value-IsWithin}
use lib_aspl.Accessor.{Scope, Address, re_address, Value, Buffers, DataReply}
use lib_aspl.VolumeControl.Accessors.{
  Place, control_scope, control_element, Level, scalar, decibel, decibel_range, scalar_to_decibels,
  decibels_to_scalar, VolumeControlSelector, place, level, inherited, selector_number, VolumeView,
  data_place, data_level, data_selector, get_property_data,
}

module _ {F W V D : Type 0} (o : ObjectView V D) (v : D → VolumeView F) (b : Buffers)
    (number : VolumeControlSelector → ℕ) (d : D) where
  place-IsWithin :
      (c : Place) (scope : Scope) (input : F)
      → IsWithin {F = F} {W = W} {V = V} b (data_place o v number c scope input b d)
  unfolding data_place size_of
  place-IsWithin control_scope scope input = reply_value-IsWithin 4 b _ (omega arith)
  place-IsWithin control_element scope input = reply_value-IsWithin 4 b _ (omega arith)

  level-IsWithin :
      (c : Level) (scope : Scope) (input : F)
      → IsWithin {F = F} {W = W} {V = V} b (data_level o v number c scope input b d)
  unfolding data_level size_of
  level-IsWithin scalar scope input = reply_value-IsWithin 4 b _ (omega arith)
  level-IsWithin decibel scope input = reply_value-IsWithin 4 b _ (omega arith)
  level-IsWithin decibel_range scope input = reply_value-IsWithin 16 b _ (omega arith)
  level-IsWithin scalar_to_decibels scope input = reply_value-IsWithin 4 b _ (omega arith)
  level-IsWithin decibels_to_scalar scope input = reply_value-IsWithin 4 b _ (omega arith)

  selector-IsWithin :
      (sel : VolumeControlSelector) (scope : Scope) (input : F)
      (otherwise : DataReply (Value F W V))
      → IsWithin b otherwise
      → IsWithin b (data_selector o v number sel scope input b d otherwise)
  unfolding data_selector
  selector-IsWithin (place c) scope input otherwise w = place-IsWithin c scope input
  selector-IsWithin (level c) scope input otherwise w = level-IsWithin c scope input
  selector-IsWithin (inherited sel) scope input otherwise w = w

  -- If every custom property is registered with the size of a reference, then whatever object,
  -- property and buffer GetPropertyData of a volume control is called with, neither the size that
  -- it reports nor the bytes that it writes exceed inDataSize.
  pub get_property_data-IsWithin :
      (object_id : ℕ) (address : Option (Address VolumeControlSelector)) (input : F)
      → HoldsReferences o.custom_properties
      → IsWithin {F = F} {W = W} b (get_property_data o v number object_id address input b d)
  unfolding get_property_data
  get_property_data-IsWithin object_id none input sized = refused-IsWithin b _ refl refl
  get_property_data-IsWithin object_id (some address) input sized =
      let w =
        object_get_property_data-IsWithin b o d object_id
          (some (re_address (selector_number number address.selector) address)) sized in
      either-IsWithin b (object_id == o.self_id) _ _
        (selector-IsWithin address.selector address.scope input _ w) w
