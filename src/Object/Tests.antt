-- ===== src/Object/Tests.antt =====
-- A small heap of objects, and the theorems at it.
use lib_aspl.Prelude.{ℕ, ◌+◌, ◌≡◌, ◌≢◌, refl, Bool, true, false, none, some, [], ◌∷◌, arith, ◌==◌}
use lib_aspl.Status.{no_error}
use lib_aspl.Dispatcher.Ids.{object_unknown}
use lib_aspl.Object.{
  Heap, deadlock, OwnedObjects, find_owned, add_owned_object, remove_owned_object,
}
use lib_aspl.Object.Owned.{holders}
use lib_aspl.Object.Ownership.{IsWellFormed, result_at, added, removed}
use lib_aspl.Object.Calls.{add_owned_object_lem, add_owned_object-deadlock, remove_owned_object_lem}
use lib_aspl.Object.Properties.{
  cf_string, CustomProperties, register_custom_property, get_property_data_fallback,
  set_property_data_fallback,
}
use lib_aspl.Object.Properties.Protocol.{get-set_property}

-- Every object is free; the one at address a has identifier a + 2.
abbrev free_objects : Heap
free_objects a = record {
  object_id = a + 2;
  owner_object = none;
  owner_object_id = object_unknown;
  owned_objects = [];
  locked = false;
}

free_objects-IsWellFormed : IsWellFormed free_objects
unfolding find_owned holders
free_objects-IsWellFormed = record {
  available = λ a. refl;
  sorted = λ a. tt;
  once = λ a id. ground arith;
  owned = λ a id o e. ground arith;
  owner = λ o a e. ground arith;
  orphan = λ o e. refl;
  distinct = λ a b e. ground arith;
}

different : ◌≢◌ {A = ℕ} 1 0
different = λ e. ground arith

-- The object at 1 is owned by the one at 0, in scope 7.
abbrev one_owned : Heap
one_owned = added free_objects 0 1 7

one_owned-IsWellFormed : IsWellFormed one_owned
one_owned-IsWellFormed =
    (add_owned_object_lem free_objects free_objects-IsWellFormed 0 1 different 7 refl).1

add_owned_object_lem_example :
    ((b : ℕ)
      → result_at (add_owned_object 0 (some 1) 7 free_objects) b
        ≡ some (added free_objects 0 1 7 b))
    × IsWellFormed (added free_objects 0 1 7)
add_owned_object_lem_example =
    add_owned_object_lem free_objects free_objects-IsWellFormed 0 1 different 7 refl

add_owned_object-deadlock_example : add_owned_object 0 (some 1) 7 one_owned ≡ deadlock
add_owned_object-deadlock_example =
    add_owned_object-deadlock one_owned one_owned-IsWellFormed 0 1 different 7 refl

remove_owned_object_lem_example :
    ((b : ℕ) → result_at (remove_owned_object 0 3 one_owned) b ≡ some (removed one_owned 0 1 b))
    × IsWellFormed (removed one_owned 0 1)
remove_owned_object_lem_example =
    remove_owned_object_lem one_owned one_owned-IsWellFormed 0 1 different refl

abbrev two_scopes : OwnedObjects
two_scopes = (3, (4, 14) ∷ (6, 16) ∷ []) ∷ (5, (7, 17) ∷ []) ∷ []

abbrev even_class : ℕ → ℕ → Bool
even_class object class_id = object == class_id

-- One property, 9, which gives and takes the whole state.
abbrev one_property : CustomProperties ℕ ℕ
one_property =
    (
      9,
      record { data_type = cf_string; size = 8; getter = some (λ s. s); setter = some (λ v s. v) },
    )
    ∷ []

abbrev keep : ℕ → ℕ
keep s = s

abbrev overwrite : ℕ → ℕ → ℕ
overwrite v s = v

get-set_property_example :
    let q = register_custom_property 8 9 cf_string (some keep) (some overwrite) [] in
    let r = set_property_data_fallback 1 q 1 9 8 (some 2) 40 in
    (r.0 ≡ no_error)
    × (get_property_data_fallback 1 q 1 9 8 true true r.1 ≡ (no_error, some 8, some 2))
get-set_property_example = get-set_property 1 8 9 cf_string keep overwrite [] 40 2 refl
