-- ===== src/Object/Accessors/Agreement.antt =====
-- src/Object.g.cpp: how the calls on the properties of an object agree with one another.
use lib_aspl.Prelude.{
  ℕ, ◌<◌, ◌^◌, ◌≡◌, refl, Bool, true, false, Option, none, some, ◌==◌, if◌then◌else◌, lookup, arith,
  Option-cases, inl, inr,
}
use lib_aspl.Status.{no_error}
use lib_aspl.Object.Properties.{
  has_property_fallback, is_property_settable_fallback, get_property_data_size_fallback,
  get_custom_properties,
}
use lib_aspl.Accessor.{
  Scope, Address, Value, Buffers, Reply, uint32, uint32_array, info_array, reply,
}
use lib_aspl.Accessor.Fits.{size_of, ReadsWhole, reply_value-ReadsWhole, reply_array-ReadsWhole}
use lib_aspl.Object.Accessors.{
  ObjectView, ObjectCase, class_property, base_class, owner, owned_objects,
  custom_property_info_list, ObjectSelector, own, custom, selector_number, settable_own, size_own,
  data_own, has_selector, settable_selector, size_selector, data_selector, has_property,
  is_property_settable, get_property_data_size, get_property_data,
}

-- The replies to `IsPropertySettable` and `GetPropertyDataSize` are both without error.
abbrev pub AreGiven : Reply Bool → Reply ℕ → Type 0
AreGiven r q = (r.0 ≡ no_error) × (q.0 ≡ no_error)

-- The two calls take the same of two ways.
pub either-AreGiven :
    (c : Bool) (has has_not : Bool) (r r₁ : Reply Bool) (q q₁ : Reply ℕ)
    → (has ≡ true → AreGiven r q)
    → (has_not ≡ true → AreGiven r₁ q₁)
    → (if c then has else has_not) ≡ true
    → AreGiven (if c then r else r₁) (if c then q else q₁)
either-AreGiven true has has_not r r₁ q q₁ f g h = f h
either-AreGiven false has has_not r r₁ q q₁ f g h = g h

module _ {V D : Type 0} (o : ObjectView V D) (d : D) where
  own-AreGiven :
      (c : ObjectCase) (scope : Scope) (wanted : Bool)
      → AreGiven (settable_own c wanted) (size_own o c scope wanted d)
  unfolding settable_own size_own reply
  own-AreGiven class_property scope wanted = (refl, refl)
  own-AreGiven base_class scope wanted = (refl, refl)
  own-AreGiven owner scope wanted = (refl, refl)
  own-AreGiven owned_objects scope wanted = (refl, refl)
  own-AreGiven custom_property_info_list scope wanted = (refl, refl)

  fallback-AreGiven :
      (object_id selector : ℕ) (wanted : Bool)
      → has_property_fallback o.self_id o.custom_properties object_id selector ≡ true
      → AreGiven
          (is_property_settable_fallback o.self_id o.custom_properties object_id selector wanted)
          (get_property_data_size_fallback o.self_id o.custom_properties object_id selector wanted)
  unfolding has_property_fallback is_property_settable_fallback get_property_data_size_fallback
  fallback-AreGiven object_id selector wanted h =
      elim (Option-cases (lookup selector o.custom_properties)) [
        | inl missing ↦ ground arith
        | inr (prop, found) ↦ ground arith
      ]

  selector-AreGiven :
      (sel : ObjectSelector) (scope : Scope) (wanted has : Bool) (r : Reply Bool) (q : Reply ℕ)
      → (has ≡ true → AreGiven r q)
      → has_selector o sel has ≡ true
      → AreGiven (settable_selector o sel wanted r) (size_selector o sel scope wanted d q)
  unfolding has_selector settable_selector size_selector
  selector-AreGiven (own c) scope wanted has r q f h = own-AreGiven c scope wanted
  selector-AreGiven (custom n) scope wanted has r q f h = f h

  -- A property that the object has is answered for by the two calls that describe it.
  pub has_property-AreGiven :
      (object_id : ℕ) (address : Option (Address ObjectSelector)) (wanted : Bool)
      → has_property o object_id address ≡ true
      → AreGiven
          (is_property_settable o object_id address wanted)
          (get_property_data_size o object_id address wanted d)
  unfolding has_property is_property_settable get_property_data_size
  has_property-AreGiven object_id none wanted h = ground arith
  has_property-AreGiven object_id (some address) wanted h =
      let number = selector_number o address.selector in
      either-AreGiven (object_id == o.self_id) _ _ _ _ _ _
        (selector-AreGiven address.selector address.scope wanted _ _ _
          (fallback-AreGiven object_id number wanted))
        (fallback-AreGiven object_id number wanted) h

module _ {F W V D : Type 0} (o : ObjectView V D) (d : D) where
  unfoldable pub value_own : ObjectCase → (scope : Scope) → Value F W V
  value_own class_property scope = uint32 o.class_id
  value_own base_class scope = uint32 o.base_class_id
  value_own owner scope = uint32 o.owner_id
  value_own owned_objects scope = uint32_array (o.owned_object_ids scope)
  value_own custom_property_info_list scope = info_array (get_custom_properties o.custom_properties)

  own-ReadsWhole :
      (c : ObjectCase) (scope : Scope) (b : Buffers)
      → size_of (value_own c scope) < 2 ^ 32
      → ReadsWhole (value_own c scope) b (size_own o c scope true d) (data_own o c scope b d)
  unfolding value_own size_own data_own size_of
  own-ReadsWhole class_property scope b small = reply_value-ReadsWhole 4 b _ refl
  own-ReadsWhole base_class scope b small = reply_value-ReadsWhole 4 b _ refl
  own-ReadsWhole owner scope b small = reply_value-ReadsWhole 4 b _ refl
  own-ReadsWhole owned_objects scope b small =
      reply_array-ReadsWhole 4 b uint32_array _ refl small (omega arith)
  own-ReadsWhole custom_property_info_list scope b small =
      reply_array-ReadsWhole 12 b info_array _ refl small (omega arith)

  pub get_property_data-ReadsWhole :
      (c : ObjectCase) (scope : Scope) (element : ℕ) (b : Buffers)
      → size_of (value_own c scope) < 2 ^ 32
      → let address : Option (Address ObjectSelector) =
          some (record { selector = own c; scope = scope; element = element }) in
        ReadsWhole
          (value_own c scope)
          b
          (get_property_data_size o o.self_id address true d)
          (get_property_data o o.self_id address b d)
  unfolding get_property_data_size get_property_data size_selector data_selector
  get_property_data-ReadsWhole c scope element b small =
      ground (arith, own-ReadsWhole c scope b small)
