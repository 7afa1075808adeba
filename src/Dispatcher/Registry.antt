-- ===== src/Dispatcher/Registry.antt =====
-- src/Dispatcher.cpp: the registry after any history of registrations under a default identifier,
-- registrations as the plugin object, and unregistrations.
use lib_aspl.Prelude.{
  ℕ, ◌+◌, ◌*◌, ◌^◌, ◌<◌, ◌≡◌, refl, ◌⊎◌, inl, inr, Bool, true, false, none, some, List, [], ◌∷◌,
  ◌==◌, if◌then◌else◌, arith, lookup, contains, lookup-insert, lookup-erase, Bool-cases,
}
use lib_aspl.Dispatcher.Ids.{object_unknown, plugin_object, is_reserved, allocate_id}
use lib_aspl.Dispatcher.Ids.Bitset.{is_set, is_set-lt, is_free-is_set}
use lib_aspl.Dispatcher.Ids.Allocate.{
  IsWithin, allocate_id-is_free, is_set-allocate_id, is_set-free_id, allocate_id-IsWithin,
  free_id-IsWithin, new_ids-IsWithin,
}
use lib_aspl.Dispatcher.{
  Dispatcher, Registration, registration, new_dispatcher, use_registration, find_object, enter,
  register_object, unregister_object,
}

-- The events of a history. An identifier is chosen by the registry, or is the plugin object's.
pub data Event {ℓ} (A : Type ℓ) : Type ℓ where
  registers : A → Event A
  registers_plugin : A → Event A
  unregisters : ℕ → Event A

module _ {ℓ} {A : Type ℓ} where
  -- The identifiers in use: the plugin object's, or one that the allocator has marked.
  abbrev pub IsInUse : Dispatcher A → ℕ → Type 0
  IsInUse d id =
      (id ≡ plugin_object) ⊎ ((is_reserved id ≡ false) × (is_set d.allocated_bits id ≡ true))

  -- The registry is consistent after at most `n` registrations.
  pub record IsManaged (n : ℕ) (d : Dispatcher A) : Type ℓ where
    pub within : IsWithin n d.ids
    pub marked : (id : ℕ) → contains id d.registered_objects ≡ true → IsInUse d id
    pub whole :
        (id : ℕ) (r : Registration A)
        → lookup id d.registered_objects ≡ some r
        → (o : A) × (r ≡ registration o)

  pub new_dispatcher-IsManaged : (hint : ℕ) → IsManaged 0 (new_dispatcher hint)
  unfolding new_dispatcher lookup
  new_dispatcher-IsManaged hint = record {
    within = new_ids-IsWithin hint;
    marked = λ id h. cc;
    whole = λ id r h. cc;
  }

  -- An identifier that the allocator gives out is not reserved, and nobody is registered under it.
  pub allocated_free :
      (n : ℕ) (d : Dispatcher A)
      → n + 1 < 2 ^ 26
      → IsManaged n d
      → (is_reserved (allocate_id d.ids).0 ≡ false)
        × (contains (allocate_id d.ids).0 d.registered_objects ≡ false)
  allocated_free n d small m =
      let id = (allocate_id d.ids).0 in
      ground (
        arith,
        m.marked id,
        allocate_id-is_free d.ids,
        is_free-is_set d.allocated_bits id,
        m.within.short,
      )

  -- What an entry of a new registration answers.
  enter-find_object :
      (alive : A → Bool) (d : Dispatcher A) (o : A) (id j : ℕ)
      → contains id d.registered_objects ≡ false
      → find_object alive (enter d o id).1 j
        ≡ (if j == id then (if alive o then some o else none) else find_object alive d j)
  unfolding enter find_object use_registration
  enter-find_object alive d o id j h =
      ground (arith, lookup-insert id (registration o) d.registered_objects j)

  enter_self-IsManaged :
      (n : ℕ) (d : Dispatcher A) (o : A) (id : ℕ)
      → contains id d.registered_objects ≡ false
      → IsInUse d id
      → IsManaged n d
      → IsManaged n (enter d o id).1
  unfolding enter
  enter_self-IsManaged n d o id fresh used m = rw fresh (record {
    within = m.within;
    marked =
        λ j h. ground (arith, lookup-insert id (registration o) d.registered_objects j, m.marked j);
    whole = λ j r h. elim (Bool-cases (j == id)) [
      | inl here ↦ (o, ground (arith, lookup-insert id (registration o) d.registered_objects j))
      | inr other ↦
          m.whole j r (ground (arith, lookup-insert id (registration o) d.registered_objects j))
    ];
  })

  in_use-lt :
      (n : ℕ) (d : Dispatcher A) (id : ℕ) → IsWithin n d.ids → IsInUse d id → id < 64 * (n + 1)
  in_use-lt n d id w used = ground (arith, is_set-lt d.allocated_bits id, w.short)

  unregister_object-IsManaged :
      (n : ℕ) (d : Dispatcher A) (id : ℕ) → IsManaged n d → IsManaged n (unregister_object d id)
  unfolding unregister_object
  unregister_object-IsManaged n d id m = elim (Bool-cases (id == object_unknown)) [
    | inl unknown ↦ rw unknown m
    | inr named ↦ elim (Bool-cases (contains id d.registered_objects)) [
      | inr absent ↦ rw (named, absent) m
      | inl present ↦
          rw (named, present)
            (record {
              within =
                  free_id-IsWithin n d.ids id (in_use-lt n d id m.within (m.marked id present))
                    m.within;
              marked = λ j h. ground (
                arith,
                lookup-erase id d.registered_objects j,
                is_set-free_id d.ids id j,
                m.marked j,
              );
              whole = λ j r h. m.whole j r (ground (arith, lookup-erase id d.registered_objects j));
            })
    ]
  ]

  allocate_id-IsManaged :
      (n : ℕ) (d : Dispatcher A)
      → n + 1 < 2 ^ 26
      → IsManaged n d
      → IsManaged (n + 1) (record d { ids = (allocate_id d.ids).1 })
  allocate_id-IsManaged n d small m = record {
    within = allocate_id-IsWithin n d.ids small m.within;
    marked = λ j h. ground (arith, m.marked j, is_set-allocate_id d.ids j);
    whole = m.whole;
  }

  register_object-IsManaged :
      (n : ℕ) (d : Dispatcher A) (o : A)
      → n + 1 < 2 ^ 26
      → IsManaged n d
      → IsManaged (n + 1) (register_object d o object_unknown).1
  unfolding register_object
  register_object-IsManaged n d o small m =
      let (unreserved, fresh) = allocated_free n d small m in
      enter_self-IsManaged (n + 1) (record d { ids = (allocate_id d.ids).1 }) o
        (allocate_id d.ids).0 fresh
        (inr (unreserved, ground (arith, is_set-allocate_id d.ids (allocate_id d.ids).0)))
        (allocate_id-IsManaged n d small m)

  register_plugin-IsManaged :
      (n : ℕ) (d : Dispatcher A) (o : A)
      → IsManaged n d
      → IsManaged n (register_object d o plugin_object).1
  unfolding register_object
  register_plugin-IsManaged n d o m =
      elim (Bool-cases (contains plugin_object d.registered_objects)) [
        | inl present ↦ rw (present, enter) m
        | inr fresh ↦ enter_self-IsManaged n d o plugin_object fresh (inl refl) m
      ]

  unfoldable pub step : Dispatcher A → Event A → Dispatcher A
  step d (registers o) = (register_object d o object_unknown).1
  step d (registers_plugin o) = (register_object d o plugin_object).1
  step d (unregisters id) = unregister_object d id

  unfoldable pub run : Dispatcher A → List (Event A) → Dispatcher A
  run d [] = d
  run d (e ∷ es) = run (step d e) es

  unfoldable pub registrations : List (Event A) → ℕ
  registrations [] = 0
  registrations (registers o ∷ es) = registrations es + 1
  registrations (registers_plugin o ∷ es) = registrations es
  registrations (unregisters id ∷ es) = registrations es

  -- A registry that is consistent after `n` allocations stays consistent over any history that
  -- allocates fewer than 2 ^ 26 identifiers in all and gives no explicit identifier but the plugin
  -- object's.
  pub run-IsManaged :
      (n : ℕ) (d : Dispatcher A) (es : List (Event A))
      → n + registrations es < 2 ^ 26
      → IsManaged n d
      → IsManaged (n + registrations es) (run d es)
  unfolding run registrations step
  run-IsManaged n d [] small m = let e : n + 0 ≡ n = omega arith in rw e m
  run-IsManaged n d (registers o ∷ es) small m =
      let e : n + (registrations es + 1) ≡ n + 1 + registrations es = omega arith in
      rw e (
        run-IsManaged (n + 1) (step d (registers o)) es (omega arith)
          (register_object-IsManaged n d o (omega arith) m))
  run-IsManaged n d (registers_plugin o ∷ es) small m =
      run-IsManaged n (step d (registers_plugin o)) es small (register_plugin-IsManaged n d o m)
  run-IsManaged n d (unregisters id ∷ es) small m =
      run-IsManaged n (step d (unregisters id)) es small (unregister_object-IsManaged n d id m)
