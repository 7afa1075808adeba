-- ===== src/Object/Owned.antt =====
-- src/Object.cpp: the two-level map of owned objects, as a partial map from identifiers.
use lib_aspl.Prelude.{
  ℕ, ◌+◌, ◌≡◌, ◌≢◌, refl, none, some, [], ◌∷◌, ◌==◌, if◌then◌else◌, lookup, contains, insert,
  lookup-insert, lookup-erase, arith, lookup-Above, IsAscending, insert-IsAscending, Above, max,
}
use lib_aspl.Object.{OwnedObjects, object_map, add_entry, find_owned, erase_owned}

-- In how many scopes an identifier stands.
unfoldable pub holders : ℕ → OwnedObjects → ℕ
holders id [] = 0
holders id ((scope, inner) ∷ m) = (if contains id inner then 1 else 0) + holders id m

pub find_owned-none : (id : ℕ) (m : OwnedObjects) → find_owned id m ≡ none → holders id m ≡ 0
unfolding find_owned holders
find_owned-none id [] e = refl
find_owned-none id ((scope, inner) ∷ m) e = ground (arith, find_owned-none id m)

pub holders-zero : (id : ℕ) (m : OwnedObjects) → holders id m ≡ 0 → find_owned id m ≡ none
unfolding find_owned holders
holders-zero id [] e = refl
holders-zero id ((scope, inner) ∷ m) e = ground (arith, holders-zero id m)

-- An insertion into the map of one scope.
insert_find :
    (scope id object : ℕ) (m : OwnedObjects) (j : ℕ)
    → IsAscending m
    → holders id m ≡ 0
    → find_owned j (insert scope (insert id object (object_map scope m)) m)
      ≡ (if j == id then some object else find_owned j m)
unfolding find_owned holders lookup insert
insert_find scope id object [] j up absent = ground arith
insert_find scope id object ((other, inner) ∷ m) j up absent = ground (
  arith,
  insert_find scope id object m j,
  lookup-Above scope other m up,
  lookup-insert id object inner j,
  lookup-insert {0} {V = ℕ} id object [] j,
  find_owned-none id m,
  holders-zero id m,
)

holders-insert :
    (scope id object : ℕ) (m : OwnedObjects) (j : ℕ)
    → IsAscending m
    → holders id m ≡ 0
    → holders j (insert scope (insert id object (object_map scope m)) m)
      ≡ holders j m + (if j == id then 1 else 0)
unfolding holders lookup insert
holders-insert scope id object [] j up absent = ground arith
holders-insert scope id object ((other, inner) ∷ m) j up absent = ground (
  arith,
  holders-insert scope id object m j,
  lookup-Above scope other m up,
  lookup-insert id object inner j,
)

module _ (scope id object : ℕ) (m : OwnedObjects) where
  -- `ownedObjects[scope][id] = object`, for an identifier that is not there yet.
  pub find_owned-add_entry :
      (j : ℕ)
      → IsAscending m
      → holders id m ≡ 0
      → find_owned j (add_entry scope id object m)
        ≡ (if j == id then some object else find_owned j m)
  unfolding add_entry
  find_owned-add_entry j up absent = insert_find scope id object m j up absent

  pub holders-add_entry :
      (j : ℕ)
      → IsAscending m
      → holders id m ≡ 0
      → holders j (add_entry scope id object m) ≡ holders j m + (if j == id then 1 else 0)
  unfolding add_entry
  holders-add_entry j up absent = holders-insert scope id object m j up absent

  pub add_entry-IsAscending : IsAscending m → IsAscending (add_entry scope id object m)
  unfolding add_entry
  add_entry-IsAscending up = insert-IsAscending scope _ m up

-- The loop of `RemoveOwnedObject` takes an identifier out of one scope, and leaves the others alone.
pub holders-erase_owned :
    (id : ℕ) (m : OwnedObjects) (j : ℕ)
    → holders j (erase_owned id m) + (if j == id then 1 else 0)
      ≡ (if j == id then max 1 (holders j m) else holders j m)
unfolding holders erase_owned
holders-erase_owned id [] j = ground arith
holders-erase_owned id ((scope, inner) ∷ m) j =
    ground (arith, holders-erase_owned id m j, lookup-erase id inner j)

pub find_owned-erase_owned :
    (id : ℕ) (m : OwnedObjects) (j : ℕ) → j ≢ id → find_owned j (erase_owned id m) ≡ find_owned j m
unfolding find_owned erase_owned
find_owned-erase_owned id [] j h = refl
find_owned-erase_owned id ((scope, inner) ∷ m) j h =
    ground (arith, find_owned-erase_owned id m j, lookup-erase id inner j)

erase_owned-Above : (id k : ℕ) (m : OwnedObjects) → Above k m → Above k (erase_owned id m)
unfolding erase_owned
erase_owned-Above id k [] up = tt
erase_owned-Above id k ((scope, inner) ∷ m) up = ground (arith, erase_owned-Above id scope m up.1)

pub erase_owned-IsAscending :
    (id : ℕ) (m : OwnedObjects) → IsAscending m → IsAscending (erase_owned id m)
unfolding erase_owned
erase_owned-IsAscending id [] up = tt
erase_owned-IsAscending id ((scope, inner) ∷ m) up = ground (arith, erase_owned-Above id scope m up)
