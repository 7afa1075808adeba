-- ===== src/Object/Accessors/Within.antt =====
-- src/Object.g.cpp and src/Object.cpp: the calls on the properties of an object never write more
-- than the caller's buffer has room for.
use lib_aspl.Prelude.{
  ℕ, ◌≡◌, refl, Bool, true, false, Option, none, some, ◌==◌, if◌then◌else◌, lookup, arith,
  Option-cases, inl, inr,
}
use lib_aspl.Object.Properties.{CustomProperties, get_property_data_fallback}
use lib_aspl.Accessor.{
  Scope, Address, Value, Buffers, DataReply, as_reference, uint32_array, info_array,
}
use lib_aspl.Accessor.Fits.{IsWithin, size_of, reply_value-IsWithin, reply_array-IsWithin}
use lib_aspl.Object.Accessors.{
  ObjectView, ObjectCase, class_property, base_class, owner, owned_objects,
  custom_property_info_list, ObjectSelector, own, custom, selector_number, data_own, data_selector,
  get_property_data,
}

-- Every custom property is a reference, as `CustomProperty::Create` makes it.
abbrev pub HoldsReferences : {V D : Type 0} → CustomProperties D V → Type 0
HoldsReferences props =
    (selector : ℕ) → (prop : _) → lookup selector props ≡ some prop → prop.size ≡ 8

module _ {F W V : Type 0} (b : Buffers) where
  pub refused-IsWithin : (r : DataReply (Value F W V)) → r.1 ≡ none → r.2 ≡ none → IsWithin b r
  refused-IsWithin r e f = record { size_le = λ n g. ground arith; data_le = λ v g. ground arith }

  pub either-IsWithin :
      (c : Bool) (r q : DataReply (Value F W V))
      → IsWithin b r
      → IsWithin b q
      → IsWithin b (if c then r else q)
  either-IsWithin true r q w x = w
  either-IsWithin false r q w x = x

module _ {F W V D : Type 0} (b : Buffers) (o : ObjectView V D) (d : D) where
  data_own-IsWithin :
      (c : ObjectCase) (scope : Scope) → IsWithin {F = F} {W = W} b (data_own o c scope b d)
  unfolding data_own size_of
  data_own-IsWithin class_property scope = reply_value-IsWithin 4 b _ (omega arith)
  data_own-IsWithin base_class scope = reply_value-IsWithin 4 b _ (omega arith)
  data_own-IsWithin owner scope = reply_value-IsWithin 4 b _ (omega arith)
  data_own-IsWithin owned_objects scope = reply_array-IsWithin 4 b uint32_array _ (λ l. refl)
  data_own-IsWithin custom_property_info_list scope =
      reply_array-IsWithin 12 b info_array _ (λ l. refl)

  fallback-IsWithin :
      (object_id selector : ℕ)
      → HoldsReferences o.custom_properties
      → IsWithin {F = F} {W = W} b (
          as_reference (
            get_property_data_fallback o.self_id o.custom_properties object_id selector b.in_size
              b.size_wanted b.data_wanted d))
  unfolding get_property_data_fallback size_of
  fallback-IsWithin object_id selector sized = record {
    size_le = λ n e. elim (Option-cases (lookup selector o.custom_properties)) [
      | inl missing ↦ ground arith
      | inr (prop, found) ↦ elim (Option-cases prop.getter) [
        | inl missing ↦ ground arith
        | inr (getter, here) ↦ ground arith
      ]
    ];
    data_le = λ v e. elim (Option-cases (lookup selector o.custom_properties)) [
      | inl missing ↦ ground arith
      | inr (prop, found) ↦ elim (Option-cases prop.getter) [
        | inl missing ↦ ground arith
        | inr (getter, here) ↦ ground (arith, sized selector prop found)
      ]
    ];
  }

  data_selector-IsWithin :
      (sel : ObjectSelector) (scope : Scope) (otherwise : DataReply (Value F W V))
      → IsWithin b otherwise
      → IsWithin b (data_selector o sel scope b d otherwise)
  unfolding data_selector
  data_selector-IsWithin (own c) scope otherwise w = data_own-IsWithin c scope
  data_selector-IsWithin (custom n) scope otherwise w = w

  pub get_property_data-IsWithin :
      (object_id : ℕ) (address : Option (Address ObjectSelector))
      → HoldsReferences o.custom_properties
      → IsWithin {F = F} {W = W} b (get_property_data o object_id address b d)
  unfolding get_property_data
  get_property_data-IsWithin object_id none sized = refused-IsWithin b _ refl refl
  get_property_data-IsWithin object_id (some address) sized =
      let w = fallback-IsWithin object_id (selector_number o address.selector) sized in
      either-IsWithin b (object_id == o.self_id) _ _
        (data_selector-IsWithin address.selector address.scope _ w) w
