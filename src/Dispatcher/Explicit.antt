-- ===== src/Dispatcher/Explicit.antt =====
-- src/Dispatcher.cpp: identifiers that the caller of `RegisterObject` gives. They are not marked in
-- the bitset, but `UnregisterObject` unmarks and counts them like the others.
use lib_aspl.Prelude.{
  ℕ, some, Bool, List, length, ◌+◌, ◌-◌, ◌%◌, ◌^◌, ◌<◌, ◌≡◌, ◌≢◌, true, false, arith, contains,
  lookup-insert,
}
use lib_aspl.Dispatcher.Ids.{IdAllocator, object_unknown, allocate_id, free_id}
use lib_aspl.Dispatcher.Ids.Bitset.{is_free-is_set}
use lib_aspl.Dispatcher.Ids.Allocate.{
  IsWithin, allocate_id-is_free, allocate_id-IsWithin, is_set-allocate_id,
  num_allocated_ids-allocate_id,
}
use lib_aspl.Dispatcher.{
  Dispatcher, registration, find_object, use_registration, enter, register_object,
  unregister_object,
}

allocate_id-known :
    (s : IdAllocator) → length s.allocated_bits < 2 ^ 26 → (allocate_id s).0 ≢ object_unknown
allocate_id-known s few =
    let id : ℕ = (allocate_id s).0 in
    λ e. ground (arith, e, allocate_id-is_free s few, is_free-is_set s.allocated_bits id)

-- The allocator does not pick an identifier twice.
allocate_id-again :
    (s : IdAllocator)
    → length (allocate_id s).1.allocated_bits < 2 ^ 26
    → (allocate_id (allocate_id s).1).0 ≢ (allocate_id s).0
allocate_id-again s few =
    let next : IdAllocator = (allocate_id s).1 in
    let id : ℕ = (allocate_id next).0 in
    let bits : List ℕ = next.allocated_bits in
    λ e.
      ground
        (arith, e, allocate_id-is_free next few, is_free-is_set bits id, is_set-allocate_id s id)

module _ {ℓ} {A : Type ℓ} where
  -- A caller registers an object that is alive under the identifier that the allocator is about to
  -- pick, which nobody has got, and the allocator is within the bounds of `n` + 1 chunks, fewer than
  -- 2 ^ 26 - 1. The registration succeeds, but does not mark the identifier, so that the next
  -- registration under a default identifier picks the same one and fails: every identifier finds
  -- what it found before, this one the caller's object. After the failure the allocator does not
  -- pick the identifier once more.
  pub register_object-clash :
      (alive : A → Bool) (n : ℕ) (d : Dispatcher A) (first second : A)
      → n + 2 < 2 ^ 26
      → IsWithin n d.ids
      → contains (allocate_id d.ids).0 d.registered_objects ≡ false
      → alive first ≡ true
      → let id = (allocate_id d.ids).0 in
        let chosen = register_object d first id in
        let default = register_object chosen.1 second object_unknown in
        (chosen.0 ≡ id)
        × (default.0 ≡ object_unknown)
        × ((j : ℕ) → find_object alive default.1 j ≡ find_object alive chosen.1 j)
        × (find_object alive default.1 id ≡ some first)
        × ((allocate_id default.1.ids).0 ≢ id)
  unfolding register_object enter find_object use_registration
  register_object-clash alive n d first second few within fresh living =
      let id : ℕ = (allocate_id d.ids).0 in
      let known : id ≢ object_unknown = allocate_id-known d.ids (ground (arith, within.short)) in
      let later = allocate_id-IsWithin n d.ids (omega arith) within in
      let there = lookup-insert id (registration first) d.registered_objects id in
      let again : (allocate_id (allocate_id d.ids).1).0 ≢ id =
        allocate_id-again d.ids (ground (arith, later.short)) in
      (
        ground (arith, fresh, known),
        ground (arith, fresh, known, there),
        λ j. ground (arith, fresh, known, there),
        ground (arith, fresh, known, there, living),
        ground (arith, fresh, known, there, again),
      )

  -- With a count below 2 ^ 64 and fresh identifiers, registering and unregistering an object leaves
  -- the number of allocated identifiers alone if the dispatcher chose the identifier, and lowers it
  -- by one, modulo 2 ^ 64, if the caller gave it.
  pub count_after_unregister :
      (d : Dispatcher A) (o : A) (id : ℕ)
      → d.num_allocated_ids < 2 ^ 64
      → contains (allocate_id d.ids).0 d.registered_objects ≡ false
      → (allocate_id d.ids).0 ≢ object_unknown
      → id ≢ object_unknown
      → contains id d.registered_objects ≡ false
      → ((unregister_object
            (register_object d o object_unknown).1
            (allocate_id d.ids).0).num_allocated_ids
          ≡ d.num_allocated_ids)
        × ((unregister_object (register_object d o id).1 id).num_allocated_ids
            ≡ (d.num_allocated_ids + 2 ^ 64 - 1) % 2 ^ 64)
  unfolding register_object enter unregister_object free_id
  count_after_unregister d o id few fresh known given absent = ground (
    arith,
    num_allocated_ids-allocate_id d.ids,
    lookup-insert (allocate_id d.ids).0 (registration o) d.registered_objects (allocate_id d.ids).0,
    lookup-insert id (registration o) d.registered_objects id,
  )
