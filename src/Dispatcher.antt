-- ===== src/Dispatcher.antt =====
-- src/Dispatcher.cpp and include/aspl/Dispatcher.hpp: the registry of objects, one call at a time.
-- `FindObject` beside a running `UnregisterObject` is the subject of Dispatcher/Lookup.antt: between
-- calls no registration is held.
-- The tracer's calls are left out: they leave the registry alone.
pub mod Ids
pub mod Registry
pub mod Directory
pub mod Explicit
pub mod Lookup
mod Tests
use lib_aspl.Prelude.{
  ℕ, Bool, true, false, Option, none, some, [], ◌==◌, if◌then◌else◌, Map, lookup, contains, insert,
  erase,
}
use Ids.{IdAllocator, object_unknown, new_ids, allocate_id, free_id}

-- `unique` is true while `UnregisterObject` holds the mutex of the registration.
pub record Registration {ℓ} (A : Type ℓ) : Type ℓ where
  pub object : Option A
  pub unique : Bool

pub record Dispatcher {ℓ} (A : Type ℓ) : Type ℓ where
  pub registered_objects : Map (Registration A)
  pub ids : IdAllocator
  pub open ids use *

module _ {ℓ} {A : Type ℓ} where
  pub new_dispatcher : ℕ → Dispatcher A
  unfolding new_ids
  new_dispatcher hint = record { registered_objects = []; ids = new_ids hint }

  -- `alive` is false of an object whose last `shared_ptr` is gone: `shared_from_this` throws.
  pub use_registration : (A → Bool) → Registration A → Option A
  use_registration alive r =
      if r.unique
      then none
      else elim r.object [ none ↦ none | some o ↦ if alive o then some o else none ]

  unfoldable pub find_object : (A → Bool) → Dispatcher A → ℕ → Option A
  find_object alive d id = elim (lookup id d.registered_objects) [
    | none ↦ none
    | some r ↦ use_registration alive r
  ]

  abbrev pub registration : A → Registration A
  registration o = record { object = some o; unique = false }

  -- `RegisterObject` after the identifier is chosen.
  pub enter : Dispatcher A → A → ℕ → ℕ × Dispatcher A
  enter d o id =
      if contains id d.registered_objects
      then (object_unknown, d)
      else (id, record d { registered_objects = insert id (registration o) d.registered_objects })

  pub register_object : Dispatcher A → A → ℕ → ℕ × Dispatcher A
  unfolding enter
  register_object d o id =
      if id == object_unknown
      then enter (record d { ids = (allocate_id d.ids).1 }) o (allocate_id d.ids).0
      else enter d o id

  unfoldable pub unregister_object : Dispatcher A → ℕ → Dispatcher A
  unregister_object d id =
      if id == object_unknown
      then d
      else (if contains id d.registered_objects
          then record { registered_objects = erase id d.registered_objects; ids = free_id d.ids id }
          else d)
