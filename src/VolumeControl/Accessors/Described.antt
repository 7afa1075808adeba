-- ===== src/VolumeControl/Accessors/Described.antt =====
-- src/VolumeControl.g.cpp: a property that a volume control reports to have is described by the other calls.
use lib_aspl.Prelude.{ℕ, ◌≡◌, refl, Bool, true, Option, none, some, ◌==◌, arith}
use lib_aspl.Object.Accessors.{ObjectView}
use lib_aspl.Object.Accessors.Agreement.{
  AreGiven, either-AreGiven, has_property-AreGiven as object_has_property-AreGiven,
}
use lib_aspl.Accessor.{Scope, Address, re_address, Reply, reply}
use lib_aspl.VolumeControl.Accessors.{
  Place, control_scope, control_element, Level, scalar, decibel, decibel_range, scalar_to_decibels,
  decibels_to_scalar, VolumeControlSelector, place, level, inherited, selector_number, VolumeView,
  settable_place, settable_level, size_place, size_level, has_selector, has_property,
  settable_selector, is_property_settable, size_selector, get_property_data_size,
}

module _ {F V D : Type 0} (o : ObjectView V D) (v : D → VolumeView F)
    (number : VolumeControlSelector → ℕ) (d : D) where
  place-AreGiven :
      (c : Place) (scope : Scope) (wanted : Bool)
      → AreGiven (settable_place c wanted) (size_place o v number c scope wanted d)
  unfolding settable_place size_place reply
  place-AreGiven control_scope scope wanted = (refl, refl)
  place-AreGiven control_element scope wanted = (refl, refl)

  level-AreGiven :
      (c : Level) (scope : Scope) (wanted : Bool)
      → AreGiven (settable_level c wanted) (size_level o v number c scope wanted d)
  unfolding settable_level size_level reply
  level-AreGiven scalar scope wanted = (refl, refl)
  level-AreGiven decibel scope wanted = (refl, refl)
  level-AreGiven decibel_range scope wanted = (refl, refl)
  level-AreGiven scalar_to_decibels scope wanted = (refl, refl)
  level-AreGiven decibels_to_scalar scope wanted = (refl, refl)

  selector-AreGiven :
      (sel : VolumeControlSelector) (scope : Scope) (wanted has : Bool) (r : Reply Bool)
      (q : Reply ℕ)
      → (has ≡ true → AreGiven r q)
      → has_selector sel scope has ≡ true
      → AreGiven (settable_selector sel wanted r) (size_selector o v number sel scope wanted d q)
  unfolding has_selector settable_selector size_selector
  selector-AreGiven (place c) scope wanted has r q f h = place-AreGiven c scope wanted
  selector-AreGiven (level c) scope wanted has r q f h = level-AreGiven c scope wanted
  selector-AreGiven (inherited sel) scope wanted has r q f h = f h

  -- A property that a volume control reports to have, inherited and custom ones included, is
  -- answered without error by IsPropertySettable and GetPropertyDataSize, whether or not their
  -- output pointers are null.
  pub has_property-AreGiven :
      (object_id : ℕ) (address : Option (Address VolumeControlSelector)) (wanted : Bool)
      → has_property o number object_id address ≡ true
      → AreGiven
          (is_property_settable o number object_id address wanted)
          (get_property_data_size o v number object_id address wanted d)
  unfolding has_property is_property_settable get_property_data_size
  has_property-AreGiven object_id none wanted h = ground arith
  has_property-AreGiven object_id (some address) wanted h =
      let base =
        object_has_property-AreGiven o d object_id
          (some (re_address (selector_number number address.selector) address)) wanted in
      either-AreGiven (object_id == o.self_id) _ _ _ _ _ _
        (selector-AreGiven address.selector address.scope wanted _ _ _ base) base h
