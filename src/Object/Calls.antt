-- ===== src/Object/Calls.antt =====
-- src/Object.cpp: what calls of `AddOwnedObject` and `RemoveOwnedObject` do to the whole heap.
use mathlib.Core.Path.{fun_ext}
use lib_aspl.Prelude.{ℕ, ◌≡◌, ◌≢◌, ap, sym, ◌∙◌, false, none, some, arith}
use lib_aspl.Object.{
  Heap, Outcome, done, deadlock, ◌>>=◌, add_entry, find_owned, erase_owned, remove_owned_object,
  add_owned_object,
}
use lib_aspl.Object.Owned.{holders-zero, find_owned-add_entry, find_owned-erase_owned}
use lib_aspl.Object.Ownership.{
  IsWellFormed, result_at, added, removed, add_owned_object-at, remove_owned_object-at, absent,
  no_holders, added-IsWellFormed, gone, removed-IsWellFormed, found,
}

module _ (h : Heap) (w : IsWellFormed h) (self object : ℕ) (ne : object ≢ self) where
  -- In a well-formed heap, adding another object that has no owner returns, leaves every object as
  -- `added` says, which differs in the two objects only, and keeps the heap well-formed.
  pub add_owned_object_lem :
      (scope : ℕ)
      → (h object).owner_object ≡ none
      → ((b : ℕ)
          → result_at (add_owned_object self (some object) scope h) b
            ≡ some (added h self object scope b))
        × IsWellFormed (added h self object scope)
  add_owned_object_lem scope free = (
    λ b. add_owned_object-at h self object scope b (w.available self) (w.available object) free ne,
    added-IsWellFormed h w object self scope free ne,
  )

  -- In a well-formed heap, adding another object that has an owner already, this one or a third,
  -- never returns: the call waits for a mutex that it holds itself.
  pub add_owned_object-deadlock :
      (scope : ℕ) {previous : ℕ}
      → (h object).owner_object ≡ some previous
      → add_owned_object self (some object) scope h ≡ deadlock
  unfolding add_owned_object
  add_owned_object-deadlock scope {previous} held = ground (
    arith,
    w.available self,
    w.available object,
    w.available previous,
    w.owner object previous held,
  )

  -- In a well-formed heap, removing another object that is owned returns, leaves every object as
  -- `removed` says, which differs in the two objects only, and keeps the heap well-formed.
  pub remove_owned_object_lem :
      (h object).owner_object ≡ some self
      → ((b : ℕ)
          → result_at (remove_owned_object self (h object).object_id h) b
            ≡ some (removed h self object b))
        × IsWellFormed (removed h self object)
  remove_owned_object_lem held = (
    λ b.
        remove_owned_object-at h self object b (w.available self) (w.available object)
          (found h w object self held) ne,
    removed-IsWellFormed h w object self held,
  )

-- A call that removes what is not owned returns and changes nothing.
pub remove_owned_object-absent :
    (h : Heap) (self id b : ℕ)
    → (h self).locked ≡ false
    → find_owned id (h self).owned_objects ≡ none
    → result_at (remove_owned_object self id h) b ≡ some (h b)
unfolding remove_owned_object
remove_owned_object-absent h self id b free e = ground arith

-- A call whose result is known at every object returns that heap.
returns : (r : Outcome Heap) (k : Heap) → ((b : ℕ) → result_at r b ≡ some (k b)) → r ≡ done k
returns (done h) k e = ap done (fun_ext (λ b. ground (arith, e b)))
returns deadlock k e = ground (arith, e 0)

find-removed-added :
    (h : Heap) (self object scope : ℕ)
    → IsWellFormed h
    → object ≢ self
    → (h object).owner_object ≡ none
    → (a j : ℕ)
    → (find_owned j (removed (added h self object scope) self object a).owned_objects
        ≡ find_owned j (h a).owned_objects)
      × ((removed (added h self object scope) self object object).owner_object ≡ none)
find-removed-added h self object scope w ne free a j =
    let id = (h object).object_id in
    let zero = no_holders h w object self scope free ne in
    let now = added-IsWellFormed h w object self scope free ne in
    let rest = add_entry scope id object (h self).owned_objects in
    ground (
      arith,
      absent h w object free self,
      find_owned-add_entry scope id object (h self).owned_objects j (w.sorted self) zero,
      find_owned-erase_owned id rest j,
      holders-zero id (erase_owned id rest),
      gone (added h self object scope) now object self (ground arith),
    )

-- In a well-formed heap, adding another object without owner and then removing it returns; then
-- every object finds under each identifier what it found before, and the object is without owner.
pub remove-add_owned_object :
    (h : Heap) (self object scope : ℕ)
    → IsWellFormed h
    → object ≢ self
    → (h object).owner_object ≡ none
    → (k : Heap) × (add_owned_object self (some object) scope h
          >>= remove_owned_object self (h object).object_id
        ≡ done k)
      × ((a j : ℕ) → find_owned j (k a).owned_objects ≡ find_owned j (h a).owned_objects)
      × ((k object).owner_object ≡ none)
remove-add_owned_object h self object scope w ne free =
    let once = added h self object scope in
    let (adds, now) = add_owned_object_lem h w self object ne scope free in
    let same : (once object).object_id ≡ (h object).object_id = ground arith in
    let (removes, later) = remove_owned_object_lem once now self object ne (ground arith) in
    let added_to : add_owned_object self (some object) scope h ≡ done once = returns _ once adds in
    let gone_again : remove_owned_object self (h object).object_id once
        ≡ done (removed once self object) =
      ap (λ id. remove_owned_object self id once) (sym same)
      ∙ returns _ (removed once self object) removes in
    (
      removed once self object,
      ap (λ r. r >>= remove_owned_object self (h object).object_id) added_to ∙ gone_again,
      λ a j. (find-removed-added h self object scope w ne free a j).0,
      (find-removed-added h self object scope w ne free self 0).1,
    )
