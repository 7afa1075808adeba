-- ===== src/Dispatcher/Directory.antt =====
-- src/Dispatcher.cpp against its contract: a partial map from identifiers to objects.
use lib_aspl.Prelude.{
  ℕ, ◌+◌, ◌^◌, ◌<◌, ◌≡◌, Bool, false, not, ◌&&◌, Option, none, some, ◌==◌, if◌then◌else◌, arith,
  lookup, contains, lookup-insert, lookup-erase, is_some, Option-cases, inl, inr,
}
use lib_aspl.Dispatcher.Ids.{plugin_object, is_reserved, allocate_id}
use lib_aspl.Dispatcher.{
  Dispatcher, registration, use_registration, find_object, enter, register_object,
  unregister_object,
}
use lib_aspl.Dispatcher.Registry.{
  Event, registers, registers_plugin, unregisters, IsManaged, allocated_free, step,
}

-- The contract's step: a default registration chooses a fresh identifier that is not reserved, the
-- plugin object keeps its place, and an unregistered identifier names nothing.
pub data DirectoryStep {ℓ} {A : Type ℓ} (v w : ℕ → Option A) : Event A → Type ℓ where
  adds :
      (o : A) (id : ℕ)
      → is_reserved id ≡ false
      → v id ≡ none
      → ((j : ℕ) → w j ≡ (if j == id then some o else v j))
      → DirectoryStep v w (registers o)
  adds_plugin :
      (o : A)
      → ((j : ℕ)
          → w j ≡ (if j == plugin_object && not (is_some (v plugin_object)) then some o else v j))
      → DirectoryStep v w (registers_plugin o)
  removes :
      (id : ℕ)
      → ((j : ℕ) → w j ≡ (if j == id then none else v j))
      → DirectoryStep v w (unregisters id)

module _ {ℓ} {A : Type ℓ} where
  pub view : Dispatcher A → ℕ → Option A
  view d id = elim (lookup id d.registered_objects) [ none ↦ none | some r ↦ r.object ]

  contains-view :
      (n : ℕ) (d : Dispatcher A) (id : ℕ)
      → IsManaged n d
      → contains id d.registered_objects ≡ is_some (view d id)
  unfolding view
  contains-view n d id m = elim (Option-cases (lookup id d.registered_objects)) [
    | inl e ↦ ground arith
    | inr (r, e) ↦ ground (arith, m.whole id r)
  ]

  -- In a consistent registry, `FindObject` returns the object registered under the identifier, but
  -- nothing if that object is already dying.
  pub find_object-view :
      (n : ℕ) (alive : A → Bool) (d : Dispatcher A) (id : ℕ)
      → IsManaged n d
      → find_object alive d id
        ≡ elim (view d id) [ none ↦ none | some o ↦ if alive o then some o else none ]
  unfolding find_object use_registration view
  find_object-view n alive d id m = elim (Option-cases (lookup id d.registered_objects)) [
    | inl e ↦ ground arith
    | inr (r, e) ↦ ground (arith, m.whole id r)
  ]

  -- Each event takes a consistent registry to one whose map from identifiers to objects is a step
  -- of the contract, as long as fewer than 2 ^ 26 identifiers have been allocated: in particular a
  -- registration under a default identifier never fails.
  pub step-DirectoryStep :
      (n : ℕ) (d : Dispatcher A) (e : Event A)
      → n + 1 < 2 ^ 26
      → IsManaged n d
      → DirectoryStep (view d) (view (step d e)) e
  unfolding step register_object enter view unregister_object
  step-DirectoryStep n d (registers o) small m =
      let id = (allocate_id d.ids).0 in
      let (unreserved, fresh) = allocated_free n d small m in
      adds o id unreserved (ground (arith, contains-view n d id m))
        λ j. ground (arith, lookup-insert id (registration o) d.registered_objects j)
  step-DirectoryStep n d (registers_plugin o) small m = adds_plugin o λ j. ground (
    arith,
    contains-view n d plugin_object m,
    lookup-insert plugin_object (registration o) d.registered_objects j,
  )
  step-DirectoryStep n d (unregisters id) small m = removes id λ j.
      ground (arith, contains-view n d id m, lookup-erase id d.registered_objects j, m.marked id)
