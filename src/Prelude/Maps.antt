-- ===== src/Prelude/Maps.antt =====
-- `std::map` with unsigned keys: entries in ascending order of the keys, which iteration shows.
-- An `std::unordered_map` is modelled by the same type, which does not show in what order the code
-- iterates it: where it does, the order of the entries is a parameter.
use Prim.Native.Nat.{ℕ, ◌<◌, ◌≤◌}
use mathlib.Core.Path.{◌≡◌, refl}
use mathlib.Core.Bool.{Bool, true, false}
use mathlib.Core.List.{List, [], ◌∷◌}
use mathlib.Core.Option.{Option, none, some}
use native.Mathlib.Omega.{arith}
use lib_aspl.Prelude.Tests.{ltb, ◌==◌, if◌then◌else◌}

abbrev pub Map {ℓ} : Type ℓ → Type ℓ
Map V = List (ℕ × V)

abbrev pub is_some {ℓ} : {A : Type ℓ} → Option A → Bool
is_some none = false
is_some (some a) = true

module _ {ℓ} {V : Type ℓ} where
  -- find, at
  unfoldable pub lookup : ℕ → Map V → Option V
  lookup k [] = none
  lookup k ((j, v) ∷ m) = if k == j then some v else lookup k m

  -- count
  abbrev pub contains : ℕ → Map V → Bool
  contains k m = is_some (lookup k m)

  -- m[k] = v
  unfoldable pub insert : ℕ → V → Map V → Map V
  insert k v [] = (k, v) ∷ []
  insert k v ((j, w) ∷ m) =
      if k == j then (k, v) ∷ m else if ltb k j then (k, v) ∷ (j, w) ∷ m else (j, w) ∷ insert k v m

  -- erase
  unfoldable pub erase : ℕ → Map V → Map V
  erase k [] = []
  erase k ((j, w) ∷ m) = if k == j then erase k m else (j, w) ∷ erase k m

  pub lookup-insert :
      (k : ℕ) (v : V) (m : Map V) (i : ℕ)
      → lookup i (insert k v m) ≡ (if i == k then some v else lookup i m)
  unfolding lookup insert
  lookup-insert k v [] i = refl
  lookup-insert k v ((j, w) ∷ m) i = ground (arith, lookup-insert k v m i)

  pub lookup-erase :
      (k : ℕ) (m : Map V) (i : ℕ) → lookup i (erase k m) ≡ (if i == k then none else lookup i m)
  unfolding lookup erase
  lookup-erase k [] i = ground arith
  lookup-erase k ((j, w) ∷ m) i = ground (arith, lookup-erase k m i)

  -- The keys ascend, from above `k` on.
  abbrev pub Above : ℕ → Map V → Type 0
  Above k [] = Unit
  Above k ((j, w) ∷ m) = (k < j) × Above j m

  abbrev pub IsAscending : Map V → Type 0
  IsAscending [] = Unit
  IsAscending ((j, w) ∷ m) = Above j m

  pub lookup-Above : (i k : ℕ) (m : Map V) → Above k m → i ≤ k → lookup i m ≡ none
  unfolding lookup
  lookup-Above i k [] up le = refl
  lookup-Above i k ((j, w) ∷ m) up le = ground (arith, lookup-Above i j m up.1)

  Above-mono : {k l : ℕ} (m : Map V) → k ≤ l → Above l m → Above k m
  Above-mono [] le up = tt
  Above-mono ((j, w) ∷ m) le up = (omega arith, up.1)

  insert-Above : (i : ℕ) (v : V) (k : ℕ) (m : Map V) → k < i → Above k m → Above k (insert i v m)
  unfolding insert
  insert-Above i v k [] lt up = (lt, tt)
  insert-Above i v k ((j, w) ∷ m) lt up = ground (arith, insert-Above i v j m)

  pub insert-IsAscending : (i : ℕ) (v : V) (m : Map V) → IsAscending m → IsAscending (insert i v m)
  unfolding insert
  insert-IsAscending i v [] up = tt
  insert-IsAscending i v ((j, w) ∷ m) up = ground (arith, insert-Above i v j m)

  erase-Above : (i k : ℕ) (m : Map V) → Above k m → Above k (erase i m)
  unfolding erase
  erase-Above i k [] up = tt
  erase-Above i k ((j, w) ∷ m) up =
      ground (arith, erase-Above i j m up.1, Above-mono {k = k} {l = j} (erase i m))

  pub erase-IsAscending : (i : ℕ) (m : Map V) → IsAscending m → IsAscending (erase i m)
  unfolding erase
  erase-IsAscending i [] up = tt
  erase-IsAscending i ((j, w) ∷ m) up = ground (arith, erase-IsAscending i m, erase-Above i j m up)
