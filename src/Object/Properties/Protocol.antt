-- ===== src/Object/Properties/Protocol.antt =====
-- src/Object.cpp: how the five calls on custom properties agree with one another.
use lib_aspl.Prelude.{
  ℕ, ◌≤◌, ◌≡◌, Bool, true, false, Option, none, some, ◌==◌, if◌then◌else◌, lookup, lookup-insert,
  arith, Option-cases, inl, inr, ◌⊎◌,
}
use lib_aspl.Status.{Status, no_error, unknown_property_error, bad_object_error}
use lib_aspl.Object.Properties.{
  DataType, CustomProperty, CustomProperties, register_custom_property, has_property_fallback,
  is_property_settable_fallback, get_property_data_size_fallback, get_property_data_fallback,
  set_property_data_fallback,
}

module _ {S V : Type 0} (self_id object_id selector : ℕ) (props : CustomProperties S V)
    (s : S) where
  -- Where `HasPropertyFallback` denies the property, the four other calls write nothing, change
  -- nothing and return the same status: a bad object if the object is another one, else an unknown
  -- property.
  pub absent_property :
      has_property_fallback self_id props object_id selector ≡ false
      → (wanted data_wanted : Bool) (in_size : ℕ) (in_data : Option V)
      → let why : Status =
          (if object_id == self_id then unknown_property_error else bad_object_error) in
        (is_property_settable_fallback self_id props object_id selector wanted ≡ (why, none))
        × (get_property_data_size_fallback self_id props object_id selector wanted ≡ (why, none))
        × (get_property_data_fallback self_id props object_id selector in_size wanted data_wanted s
            ≡ (why, none, none))
        × (set_property_data_fallback self_id props object_id selector in_size in_data s ≡ (why, s))
  unfolding has_property_fallback is_property_settable_fallback get_property_data_size_fallback
      get_property_data_fallback set_property_data_fallback
  absent_property absent wanted data_wanted in_size in_data = ground arith

  -- A caller that asks for the size and passes a buffer of at least that size gets the value, unless
  -- the property has no getter.
  pub get_after_size :
      (size in_size : ℕ)
      → get_property_data_size_fallback self_id props object_id selector true
        ≡ (no_error, some size)
      → size ≤ in_size
      → (get_property_data_fallback self_id props object_id selector in_size true true s
          ≡ (unknown_property_error, none, none))
        ⊎ ((v : V) × (get_property_data_fallback self_id props object_id selector in_size true true
                s
              ≡ (no_error, some size, some v)))
  unfolding get_property_data_size_fallback get_property_data_fallback
  get_after_size size in_size e le = elim (Option-cases (lookup selector props)) [
    | inl missing ↦ ground arith
    | inr (prop, found) ↦ elim (Option-cases prop.getter) [
      | inl missing ↦ inl (ground arith)
      | inr (getter, here) ↦ inr (getter s, ground arith)
    ]
  ]

  -- Where the property is there, setting a value of the size it reports succeeds if it reports
  -- itself settable, and else fails as an unknown property and leaves the state alone.
  pub set_iff_settable :
      (settable : Bool) (size : ℕ) (v : V)
      → is_property_settable_fallback self_id props object_id selector true
        ≡ (no_error, some settable)
      → get_property_data_size_fallback self_id props object_id selector true
        ≡ (no_error, some size)
      → let r = set_property_data_fallback self_id props object_id selector size (some v) s in
        (if settable then r.0 ≡ no_error else r ≡ (unknown_property_error, s))
  unfolding is_property_settable_fallback get_property_data_size_fallback set_property_data_fallback
  set_iff_settable true size v e f = ground arith
  set_iff_settable false size v e f = ground arith

-- If the author's getter returns what the setter was given, then after registration of a property
-- with both, a value of the right size is set successfully, and getting the property gives its size
-- and that value.
pub get-set_property :
    {S V : Type 0} (self_id reference_size selector : ℕ) (data_type : DataType) (getter : S → V)
    (setter : V → S → S) (props : CustomProperties S V) (s : S) (v : V)
    → getter (setter v s) ≡ v
    → let q =
        register_custom_property reference_size selector data_type
          (some getter)
          (some setter)
          props in
      let r = set_property_data_fallback self_id q self_id selector reference_size (some v) s in
      (r.0 ≡ no_error)
      × (get_property_data_fallback self_id q self_id selector reference_size true true r.1
          ≡ (no_error, some reference_size, some v))
unfolding register_custom_property set_property_data_fallback get_property_data_fallback
get-set_property {S} {V} self_id reference_size selector data_type getter setter props s v law =
    let prop : CustomProperty S V = record {
      data_type = data_type;
      size = reference_size;
      getter = some getter;
      setter = some setter;
    } in
    ground (arith, law, lookup-insert selector prop props selector)
