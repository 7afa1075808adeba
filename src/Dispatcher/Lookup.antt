-- ===== src/Dispatcher/Lookup.antt =====
-- src/Dispatcher.cpp: any number of `FindObject` calls beside an `UnregisterObject` of the same object,
-- one access to the registration at a time. A `FindObject` may look into an older map for as long as it
-- runs, and a lock that is only tried may fail at any time.
use lib_aspl.Prelude.{ℕ, ◌≡◌, ◌≢◌, refl, Bool, true, false, ◌==◌, if◌then◌else◌, arith}

-- Where a call of `FindObject` stands: outside, with the registration, with the shared lock of it, or
-- about to use the object, which it has seen not to be null, under that lock.
pub data FinderPc : Type 0 where
  away : FinderPc
  found : FinderPc
  holding : FinderPc
  using_object : FinderPc

-- Where `UnregisterObject` stands.
pub data UnregisterPc : Type 0 where
  before : UnregisterPc
  cleared : UnregisterPc
  removed : UnregisterPc
  exclusive : UnregisterPc
  returned : UnregisterPc

pub record Race : Type 0 where
  pub object_set : Bool
  pub in_map : Bool
  pub unregister : UnregisterPc
  pub finders : ℕ → FinderPc

abbrev pub has_lock : FinderPc → Bool
has_lock away = false
has_lock found = false
has_lock holding = true
has_lock using_object = true

abbrev pub finder : Race → ℕ → FinderPc → Race
finder s j p = record s { finders = λ i. if i == j then p else s.finders i }

pub data RaceStep (s : Race) : Race → Type 0 where
  -- registeredObjects.find(objectID), in the map of the read lock
  find_registration : (j : ℕ) → s.finders j ≡ away → s.in_map ≡ true → RaceStep s (finder s j found)
  -- shared_lock objLock(registration.mutex, std::try_to_lock)
  try_lock :
      (j : ℕ) → s.finders j ≡ found → s.unregister ≢ exclusive → RaceStep s (finder s j holding)
  try_lock_fails : (j : ℕ) → s.finders j ≡ found → RaceStep s (finder s j away)
  -- registration.object.load()
  load :
      (j : ℕ) → s.finders j ≡ holding → s.object_set ≡ true → RaceStep s (finder s j using_object)
  load_null : (j : ℕ) → s.finders j ≡ holding → s.object_set ≡ false → RaceStep s (finder s j away)
  -- object->shared_from_this() is done, and the call returns
  find_returns : (j : ℕ) → s.finders j ≡ using_object → RaceStep s (finder s j away)
  -- registration->object.store(nullptr)
  clear : s.unregister ≡ before → RaceStep s (record s { unregister = cleared; object_set = false })
  -- registeredObjects_.Set
  remove_entry :
      s.unregister ≡ cleared → RaceStep s (record s { unregister = removed; in_map = false })
  -- unique_lock objLock(registration->mutex)
  lock_unique :
      s.unregister ≡ removed
      → ((j : ℕ) → has_lock (s.finders j) ≡ false)
      → RaceStep s (record s { unregister = exclusive })
  unregister_returns : s.unregister ≡ exclusive → RaceStep s (record s { unregister = returned })

abbrev pub registered : Race
registered = record { object_set = true; in_map = true; unregister = before; finders = λ j. away }

pub data Races : Race → Type 0 where
  starts : Races registered
  goes_on : {s t : Race} → Races s → RaceStep s t → Races t

-- Once the object is cleared it stays so, and from the unique lock on nobody uses it.
abbrev IsCleared : UnregisterPc → Bool → Type 0
IsCleared before b = (b ≡ true)
IsCleared cleared b = (b ≡ false)
IsCleared removed b = (b ≡ false)
IsCleared exclusive b = (b ≡ false)
IsCleared returned b = (b ≡ false)

abbrev IsUnused : UnregisterPc → FinderPc → Type 0
IsUnused exclusive p = (has_lock p ≡ false)
IsUnused returned p = (p ≢ using_object)
IsUnused _ p = Unit

record RaceInv (s : Race) : Type 0 where
  is_cleared : IsCleared s.unregister s.object_set
  unused : (j : ℕ) → IsUnused s.unregister (s.finders j)

RaceStep-Inv : {s t : Race} → RaceInv s → RaceStep s t → RaceInv t
RaceStep-Inv inv (find_registration j e m) = record {
  is_cleared = ground (arith, e, m, inv.is_cleared);
  unused = λ i. ground (arith, e, m, inv.is_cleared, inv.unused i);
}
RaceStep-Inv inv (try_lock j e ne) = record {
  is_cleared = ground (arith, e, ne, inv.is_cleared);
  unused = λ i. ground (arith, e, ne, inv.is_cleared, inv.unused i);
}
RaceStep-Inv inv (try_lock_fails j e) = record {
  is_cleared = ground (arith, e, inv.is_cleared);
  unused = λ i. ground (arith, e, inv.is_cleared, inv.unused i);
}
RaceStep-Inv inv (load j e b) = record {
  is_cleared = ground (arith, e, b, inv.is_cleared);
  unused = λ i. ground (arith, e, b, inv.is_cleared, inv.unused i);
}
RaceStep-Inv inv (load_null j e b) = record {
  is_cleared = ground (arith, e, b, inv.is_cleared);
  unused = λ i. ground (arith, e, b, inv.is_cleared, inv.unused i);
}
RaceStep-Inv inv (find_returns j e) = record {
  is_cleared = ground (arith, e, inv.is_cleared);
  unused = λ i. ground (arith, e, inv.is_cleared, inv.unused i);
}
RaceStep-Inv inv (clear e) = record {
  is_cleared = ground (arith, e, inv.is_cleared);
  unused = λ i. ground (arith, e, inv.is_cleared, inv.unused i);
}
RaceStep-Inv inv (remove_entry e) = record {
  is_cleared = ground (arith, e, inv.is_cleared);
  unused = λ i. ground (arith, e, inv.is_cleared, inv.unused i);
}
RaceStep-Inv inv (lock_unique e none_held) = record {
  is_cleared = ground (arith, e, inv.is_cleared);
  unused = λ i. ground (arith, e, none_held i, inv.is_cleared, inv.unused i);
}
RaceStep-Inv inv (unregister_returns e) = record {
  is_cleared = ground (arith, e, inv.is_cleared);
  unused = λ i. ground (arith, e, inv.is_cleared, inv.unused i);
}

Races-Inv : {s : Race} → Races s → RaceInv s
Races-Inv starts = record { is_cleared = refl; unused = λ j. tt }
Races-Inv (goes_on r st) = RaceStep-Inv (Races-Inv r) st

-- Whatever `FindObject` calls run beside it: after `UnregisterObject` has returned, none of them uses
-- the object, nor ever will, so that it can be destroyed.
pub unregistered_unused :
    {s : Race} → Races s → s.unregister ≡ returned → (j : ℕ) → s.finders j ≢ using_object
unregistered_unused r e j = ground (arith, e, (Races-Inv r).unused j)
