-- ===== src/Object/Ids.antt =====
-- src/Object.cpp, `GetOwnedObjectIDs`: the filter by scope and class.
use lib_aspl.Prelude.{
  ℕ, ◌≡◌, ◌≢◌, refl, Bool, false, ◌||◌, Option, none, some, List, [], ◌∷◌, ◌++◌, ◌==◌, arith, Map,
  lookup, lookup-Above, IsAscending, Above, is_some,
}
use lib_aspl.Object.{OwnedObjects, object_map, find_owned, scope_ids, get_owned_object_ids}

pub elem : ℕ → List ℕ → Bool
elem i [] = false
elem i (j ∷ xs) = i == j || elem i xs

elem-append : (i : ℕ) (xs ys : List ℕ) → elem i (xs ++ ys) ≡ (elem i xs || elem i ys)
unfolding elem
elem-append i [] ys = refl
elem-append i (j ∷ xs) ys = ground (arith, elem-append i xs ys)

-- Every map of a scope ascends, and so do the scopes.
abbrev pub AllAscending : OwnedObjects → Type 0
AllAscending [] = Unit
AllAscending ((scope, inner) ∷ m) = IsAscending inner × Above scope m × AllAscending m

module _ (is_instance : ℕ → ℕ → Bool) (class_id : ℕ) where
  -- Class 0 admits every object.
  abbrev pub admits : Option ℕ → Bool
  admits none = false
  admits (some o) = class_id == 0 || is_instance o class_id

  elem-scope_ids :
      (id k : ℕ) (m : Map ℕ)
      → Above k m
      → elem id (scope_ids is_instance class_id m) ≡ admits (lookup id m)
  unfolding elem lookup
  elem-scope_ids id k [] up = refl
  elem-scope_ids id k ((j, o) ∷ m) up =
      ground (arith, elem-scope_ids id j m up.1, lookup-Above id j m up.1)

  elem-scope_ids_ascending :
      (id : ℕ) (m : Map ℕ)
      → IsAscending m
      → elem id (scope_ids is_instance class_id m) ≡ admits (lookup id m)
  unfolding elem lookup
  elem-scope_ids_ascending id [] up = refl
  elem-scope_ids_ascending id ((j, o) ∷ m) up =
      ground (arith, elem-scope_ids id j m up, lookup-Above id j m up)

  -- For a scope other than the global one, in maps that ascend, the list holds an identifier
  -- exactly if the scope's map has it with an object of the class, where class 0 admits every
  -- object.
  pub elem-get_owned_object_ids :
      (scope_global scope id : ℕ) (m : OwnedObjects)
      → scope ≢ scope_global
      → AllAscending m
      → elem id (get_owned_object_ids is_instance scope_global scope class_id m)
        ≡ admits (lookup id (object_map scope m))
  unfolding get_owned_object_ids lookup elem
  elem-get_owned_object_ids scope_global scope id [] ne up = refl
  elem-get_owned_object_ids scope_global scope id ((other, inner) ∷ m) ne up = ground (
    arith,
    elem-get_owned_object_ids scope_global scope id m ne up.2,
    elem-append id (scope_ids is_instance class_id inner)
        (get_owned_object_ids is_instance scope_global scope class_id m),
    elem-scope_ids_ascending id inner up.0,
    lookup-Above scope other m up.1,
  )

-- For the global scope and class 0 the list holds every owned identifier.
pub elem-get_owned_object_ids_global :
    (is_instance : ℕ → ℕ → Bool) (scope_global id : ℕ) (m : OwnedObjects)
    → AllAscending m
    → elem id (get_owned_object_ids is_instance scope_global scope_global 0 m)
      ≡ is_some (find_owned id m)
unfolding get_owned_object_ids elem find_owned
elem-get_owned_object_ids_global is_instance g id [] up = refl
elem-get_owned_object_ids_global is_instance g id ((other, inner) ∷ m) up = ground (
  arith,
  elem-get_owned_object_ids_global is_instance g id m up.2,
  elem-append id (scope_ids is_instance 0 inner) (get_owned_object_ids is_instance g g 0 m),
  elem-scope_ids_ascending is_instance 0 id inner up.0,
)
