-- ===== src/MuteControl/Accessors/Described.antt =====
-- src/MuteControl.g.cpp: a property that a mute control reports to have is described by the other calls.
use lib_aspl.Prelude.{ℕ, ◌≡◌, refl, Bool, true, Option, none, some, ◌==◌, arith}
use lib_aspl.Object.Accessors.{ObjectView}
use lib_aspl.Object.Accessors.Agreement.{
  AreGiven, either-AreGiven, has_property-AreGiven as object_has_property-AreGiven,
}
use lib_aspl.Accessor.{Scope, Address, re_address, Reply, reply}
use lib_aspl.MuteControl.Accessors.{
  MuteCase, mute_scope, mute_element, muted, MuteControlSelector, mute, inherited, selector_number,
  MuteView, settable_mute, size_mute, has_selector, has_property, settable_selector,
  is_property_settable, size_selector, get_property_data_size,
}

module _ {V D : Type 0} (o : ObjectView V D) (v : D → MuteView) (number : MuteControlSelector → ℕ)
    (d : D) where
  mute-AreGiven :
      (c : MuteCase) (scope : Scope) (wanted : Bool)
      → AreGiven (settable_mute c wanted) (size_mute o v number c scope wanted d)
  unfolding settable_mute size_mute reply
  mute-AreGiven mute_scope scope wanted = (refl, refl)
  mute-AreGiven mute_element scope wanted = (refl, refl)
  mute-AreGiven muted scope wanted = (refl, refl)

  selector-AreGiven :
      (sel : MuteControlSelector) (scope : Scope) (wanted has : Bool) (r : Reply Bool) (q : Reply ℕ)
      → (has ≡ true → AreGiven r q)
      → has_selector sel scope has ≡ true
      → AreGiven (settable_selector sel wanted r) (size_selector o v number sel scope wanted d q)
  unfolding has_selector settable_selector size_selector
  selector-AreGiven (mute c) scope wanted has r q f h = mute-AreGiven c scope wanted
  selector-AreGiven (inherited sel) scope wanted has r q f h = f h

  -- A property that a mute control reports to have, inherited and custom ones included, is
  -- answered without error by IsPropertySettable and GetPropertyDataSize, whether or not their
  -- output pointers are null.
  pub has_property-AreGiven :
      (object_id : ℕ) (address : Option (Address MuteControlSelector)) (wanted : Bool)
      → has_property o number object_id address ≡ true
      → AreGiven
          (is_property_settable o number object_id address wanted)
          (get_property_data_size o v number object_id address wanted d)
  unfolding has_property is_property_settable get_property_data_size
  has_property-AreGiven object_id none wanted h = ground arith
  has_property-AreGiven object_id (some address) wanted h =
      let base =
        object_has_property-AreGiven o d object_id
          (some (re_address (selector_number number address.selector) address)) wanted in
      either-AreGiven (object_id == o.self_id) _ _ _ _ _ _
        (selector-AreGiven address.selector address.scope wanted _ _ _ base) base h
