-- ===== src/Object/Ownership.antt =====
-- src/Object.cpp: adding and removing owned objects.
use lib_aspl.Prelude.{
  ℕ, ◌≤◌, ◌≡◌, ◌≢◌, false, Option, none, some, arith, inl, inr, Option-cases, IsAscending,
}
use lib_aspl.Dispatcher.Ids.{object_unknown}
use lib_aspl.Object.{
  ObjectState, Heap, update, Outcome, done, deadlock, add_entry, find_owned, erase_owned,
  remove_owned_object, add_owned_object,
}
use lib_aspl.Object.Owned.{
  holders, find_owned-none, holders-zero, find_owned-add_entry, holders-add_entry,
  add_entry-IsAscending, holders-erase_owned, find_owned-erase_owned, erase_owned-IsAscending,
}

-- The objects of a driver while no thread is inside an operation. Owners and owned objects name one
-- another, an object has one owner and stands in one scope, and identifiers are distinct.
pub record IsWellFormed (h : Heap) : Type 0 where
  pub available : (a : ℕ) → (h a).locked ≡ false
  pub sorted : (a : ℕ) → IsAscending (h a).owned_objects
  pub once : (a id : ℕ) → holders id (h a).owned_objects ≤ 1
  pub owned :
      (a id o : ℕ)
      → find_owned id (h a).owned_objects ≡ some o
      → ((h o).object_id ≡ id)
        × ((h o).owner_object ≡ some a)
        × ((h o).owner_object_id ≡ (h a).object_id)
  pub owner :
      (o a : ℕ)
      → (h o).owner_object ≡ some a
      → (find_owned (h o).object_id (h a).owned_objects ≡ some o) × (a ≢ o)
  pub orphan : (o : ℕ) → (h o).owner_object ≡ none → (h o).owner_object_id ≡ object_unknown
  pub distinct : (a b : ℕ) → (h a).object_id ≡ (h b).object_id → a ≡ b

-- What an object is after a call that returned.
abbrev pub result_at : Outcome Heap → ℕ → Option ObjectState
result_at (done h) a = some (h a)
result_at deadlock a = none

-- The heap in which `object` is owned by `self` in the given scope.
abbrev pub added : Heap → (self object scope : ℕ) → Heap
added h self object scope =
    update
      (update h self (record (h self) {
        owned_objects = add_entry scope (h object).object_id object (h self).owned_objects;
      }))
      object (record (h object) { owner_object = some self; owner_object_id = (h self).object_id })

-- The heap in which `object` is no longer owned by `self`.
abbrev pub removed : Heap → (self object : ℕ) → Heap
removed h self object =
    update
      (update h self (record (h self) {
        owned_objects = erase_owned (h object).object_id (h self).owned_objects;
      }))
      object (record (h object) { owner_object = none; owner_object_id = object_unknown })

pub add_owned_object-at :
    (h : Heap) (self object scope b : ℕ)
    → (h self).locked ≡ false
    → (h object).locked ≡ false
    → (h object).owner_object ≡ none
    → object ≢ self
    → result_at (add_owned_object self (some object) scope h) b ≡ some (added h self object scope b)
unfolding add_owned_object
add_owned_object-at h self object scope b ls lo free ne = ground arith

pub remove_owned_object-at :
    (h : Heap) (self object b : ℕ)
    → (h self).locked ≡ false
    → (h object).locked ≡ false
    → find_owned (h object).object_id (h self).owned_objects ≡ some object
    → object ≢ self
    → result_at (remove_owned_object self (h object).object_id h) b ≡ some (removed h self object b)
unfolding remove_owned_object
remove_owned_object-at h self object b ls lo free ne = ground arith

module _ (h : Heap) (w : IsWellFormed h) (object : ℕ) where
  -- An object without owner stands in no map.
  pub absent :
      (h object).owner_object ≡ none
      → (a : ℕ) → find_owned (h object).object_id (h a).owned_objects ≡ none
  absent free a = elim (Option-cases (find_owned (h object).object_id (h a).owned_objects)) [
    | inl e ↦ e
    | inr (o, e) ↦
        let (same, owner, _) = w.owned a (h object).object_id o e in
        let here : o ≡ object = w.distinct o object same in cc
  ]

  module _ (self scope : ℕ) (free : (h object).owner_object ≡ none) (ne : object ≢ self) where
    abbrev pub id : ℕ
    id = (h object).object_id

    pub no_holders : holders id (h self).owned_objects ≡ 0
    no_holders = find_owned-none id (h self).owned_objects (absent free self)

    pub added-IsWellFormed : IsWellFormed (added h self object scope)
    added-IsWellFormed = record {
      available = λ a. ground (arith, w.available a, w.available self, w.available object);
      sorted = λ a. ground (
        arith,
        w.sorted a,
        w.sorted self,
        w.sorted object,
        add_entry-IsAscending scope id object (h self).owned_objects,
      );
      once = λ a i. ground (
        arith,
        no_holders,
        w.once a i,
        w.once object i,
        w.once self i,
        holders-add_entry scope id object (h self).owned_objects i (w.sorted self) no_holders,
      );
      owned = λ a i o e. ground (
        arith,
        w.owned a i o,
        w.owned object i o,
        w.owned self i o,
        find_owned-add_entry scope id object (h self).owned_objects i (w.sorted self) no_holders,
      );
      owner = λ o a e. ground (
        arith,
        w.owner o a,
        w.owner object a,
        w.distinct o object,
        find_owned-add_entry scope id object (h self).owned_objects (h o).object_id (w.sorted self)
            no_holders,
      );
      orphan = λ o e. ground (arith, w.orphan o);
      distinct = λ a b e. ground (
        arith,
        w.distinct a b,
        w.distinct self b,
        w.distinct a self,
        w.distinct object b,
        w.distinct a object,
        w.distinct self object,
      );
    }

  module _ (self : ℕ) (held : (h object).owner_object ≡ some self) where
    abbrev pub key : ℕ
    key = (h object).object_id

    pub found : find_owned key (h self).owned_objects ≡ some object
    found = (w.owner object self held).0

    pub gone : holders key (erase_owned key (h self).owned_objects) ≡ 0
    gone = ground (arith, holders-erase_owned key (h self).owned_objects key, w.once self key)

    pub removed-IsWellFormed : IsWellFormed (removed h self object)
    removed-IsWellFormed = record {
      available = λ a. ground (arith, w.available a, w.available self, w.available object);
      sorted = λ a. ground (
        arith,
        w.sorted a,
        w.sorted object,
        erase_owned-IsAscending key (h self).owned_objects (w.sorted self),
      );
      once = λ a i. ground (
        arith,
        w.once a i,
        w.once object i,
        w.once self i,
        holders-erase_owned key (h self).owned_objects i,
      );
      owned = λ a i o e. ground (
        arith,
        w.owned a i o,
        w.owned object i o,
        w.owned self i o,
        gone,
        holders-zero key (erase_owned key (h self).owned_objects),
        find_owned-erase_owned key (h self).owned_objects i,
        w.distinct object o,
        found,
        w.owner object self,
      );
      owner = λ o a e. ground (
        arith,
        w.owner o a,
        w.distinct o object,
        find_owned-erase_owned key (h self).owned_objects (h o).object_id,
      );
      orphan = λ o e. ground (arith, w.orphan o);
      distinct = λ a b e. ground (
        arith,
        w.distinct a b,
        w.distinct self b,
        w.distinct a self,
        w.distinct object b,
        w.distinct a object,
        w.distinct self object,
      );
    }
