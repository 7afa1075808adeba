-- ===== src/Object.antt =====
-- src/Object.cpp and include/aspl/Object.hpp: which object owns which.
-- Objects are named by their addresses, and the heap maps an address to the object's members.
-- `writeMutex_` is an `std::mutex`: a thread that locks it twice never goes on. The tracer's calls
-- are left out.
pub mod Owned
pub mod Ownership
pub mod Calls
pub mod Ids
pub mod Accessors
pub mod Properties
mod Tests
use lib_aspl.Prelude.{
  ℕ, Bool, true, false, not, ◌&&◌, ◌||◌, Option, none, some, List, [], ◌∷◌, ◌++◌, ◌==◌,
  if◌then◌else◌, Map, lookup, contains, insert, erase,
}
use lib_aspl.Dispatcher.Ids.{object_unknown}

-- ownedObjects_: scope, identifier, address.
abbrev pub OwnedObjects : Type 0
OwnedObjects = Map (Map ℕ)

pub record ObjectState : Type 0 where
  pub object_id : ℕ
  pub owner_object : Option ℕ
  pub owner_object_id : ℕ
  pub owned_objects : OwnedObjects
  pub locked : Bool

abbrev pub Heap : Type 0
Heap = ℕ → ObjectState

abbrev pub update : Heap → ℕ → ObjectState → Heap
update h a o b = if b == a then o else h b

-- Either the call returns, or it waits for a mutex that its own thread holds.
pub data Outcome (A : Type 0) : Type 0 where
  done : A → Outcome A
  deadlock : Outcome A

infixl 5 ◌>>=◌
abbrev pub ◌>>=◌ : {A B : Type 0} → Outcome A → (A → Outcome B) → Outcome B
done a >>= f = f a
deadlock >>= f = deadlock

-- lock_guard writeLock(writeMutex_)
abbrev pub lock : ℕ → Heap → Outcome Heap
lock a h = if (h a).locked then deadlock else done (update h a (record (h a) { locked = true }))

abbrev pub unlock : ℕ → Heap → Heap
unlock a h = update h a (record (h a) { locked = false })

-- objectMap of a scope: `ownedObjects[scope]` makes an empty one if there is none.
abbrev pub object_map : ℕ → OwnedObjects → Map ℕ
object_map scope m = elim (lookup scope m) [ none ↦ [] | some inner ↦ inner ]

-- ownedObjects[scope][id] = object
pub add_entry : (scope id object : ℕ) → OwnedObjects → OwnedObjects
add_entry scope id object m = insert scope (insert id object (object_map scope m)) m

-- The loop of `RemoveOwnedObject`: the object of the first scope that has the identifier.
pub find_owned : ℕ → OwnedObjects → Option ℕ
find_owned id [] = none
find_owned id ((scope, inner) ∷ m) = elim (lookup id inner) [
  | none ↦ find_owned id m
  | some o ↦ some o
]

-- objectMap.erase(iter), in that scope.
pub erase_owned : ℕ → OwnedObjects → OwnedObjects
erase_owned id [] = []
erase_owned id ((scope, inner) ∷ m) =
    if contains id inner then (scope, erase id inner) ∷ m else (scope, inner) ∷ erase_owned id m

pub detach_owner : ℕ → Heap → Outcome Heap
detach_owner self h = do
  h₁ ← lock self h
  done (
      unlock self (
        update h₁ self
          (record (h₁ self) { owner_object = none; owner_object_id = object_unknown })))

pub remove_owned_object : (self id : ℕ) → Heap → Outcome Heap
unfolding detach_owner find_owned erase_owned
remove_owned_object self id h = do
  h₁ ← lock self h
  elim (find_owned id (h₁ self).owned_objects) [
    | none ↦ done (unlock self h₁)
    | some object ↦ do
      h₂ ← detach_owner object h₁
      done (
          unlock self (
            update h₂ self
              (record (h₂ self) { owned_objects = erase_owned id (h₁ self).owned_objects })))
  ]

-- The part of `AttachOwner` that leaves a previous owner.
pub leave_owner : ℕ → Heap → Outcome Heap
unfolding remove_owned_object
leave_owner self h = elim (h self).owner_object [
  | none ↦ done h
  | some previous ↦ remove_owned_object previous (h self).object_id h
]

pub attach_owner : (self owner : ℕ) → Heap → Outcome Heap
unfolding leave_owner
attach_owner self owner h = do
  h₁ ← lock self h
  h₂ ← leave_owner self h₁
  done (
      unlock self (
        update h₂ self
          (record (h₂ self) { owner_object = some owner; owner_object_id = (h₂ owner).object_id })))

-- `AddOwnedObject` past its guards.
pub add_object : (self object scope : ℕ) → Heap → Outcome Heap
unfolding attach_owner add_entry
add_object self object scope h = do
  h₁ ← attach_owner object self (
      update h self (record (h self) {
        owned_objects = add_entry scope (h object).object_id object (h self).owned_objects;
      }))
  done (unlock self h₁)

pub add_owned_object : (self : ℕ) (object : Option ℕ) (scope : ℕ) → Heap → Outcome Heap
unfolding add_object
add_owned_object self none scope h = do h₁ ← lock self h; done (unlock self h₁)
add_owned_object self (some object) scope h = do
  h₁ ← lock self h
  (if object == self then done (unlock self h₁) else add_object self object scope h₁)

-- kAudioObjectPropertyScopeGlobal, a parameter of the queries, as is the class test `IsInstance`.
abbrev pub scope_ids : (is_instance : ℕ → ℕ → Bool) (class_id : ℕ) → Map ℕ → List ℕ
scope_ids is_instance class_id [] = []
scope_ids is_instance class_id ((id, object) ∷ m) =
    let rest = scope_ids is_instance class_id m in
    if not (class_id == 0) && not (is_instance object class_id) then rest else id ∷ rest

unfoldable pub get_owned_object_ids :
    (is_instance : ℕ → ℕ → Bool) (scope_global scope class_id : ℕ) → OwnedObjects → List ℕ
get_owned_object_ids is_instance scope_global scope class_id [] = []
get_owned_object_ids is_instance scope_global scope class_id ((object_scope, inner) ∷ m) =
    let rest = get_owned_object_ids is_instance scope_global scope class_id m in
    if not (scope == scope_global) && not (scope == object_scope)
    then rest
    else scope_ids is_instance class_id inner ++ rest

abbrev pub has_owner : ObjectState → Bool
has_owner o = not (o.owner_object_id == object_unknown)
