-- ===== src/Accessor/Guarded.antt =====
-- What `SetPropertyData` Refuses, in terms of what the HAL was told about the property.
use lib_aspl.Prelude.{ℕ, ◌≡◌, ◌≢◌, Bool, true, false, Option, none, some, if◌then◌else◌, arith}
use lib_aspl.Status.{
  Status, bad_property_size_error, illegal_operation_error, unknown_property_error,
}
use lib_aspl.Accessor.{Reply, accept}

abbrev pub told_settable : Reply Bool → Bool
told_settable (s, some b) = b
told_settable (s, none) = false

abbrev pub told_size : Reply ℕ → ℕ
told_size (s, some n) = n
told_size (s, none) = 0

-- `q` is what `IsPropertySettable` replied and `p` what `GetPropertyDataSize` did, `r` is what became
-- of the call. Each refusal leaves the state as it was.
abbrev pub Refuses :
    {A D : Type 0} (settable : Bool) (size in_size : ℕ) (in_data : Option A) (d : D)
    (r : Status × D)
    → Type 0
Refuses true size in_size in_data d r =
    (in_size ≢ size → r ≡ (bad_property_size_error, d))
    × (in_size ≡ size → in_data ≡ none → r ≡ (illegal_operation_error, d))
Refuses false size in_size in_data d r = (r ≡ (unknown_property_error, d))

abbrev pub IsGuarded :
    {A D : Type 0} (q : Reply Bool) (p : Reply ℕ) (in_size : ℕ) (in_data : Option A) (d : D)
    (r : Status × D)
    → Type 0
IsGuarded q p in_size in_data d r = Refuses (told_settable q) (told_size p) in_size in_data d r

pub accept-Refuses :
    {A D : Type 0} (size in_size : ℕ) (in_data : Option A) (setter : A → D → Status × D) (d : D)
    → Refuses true size in_size in_data d (accept size in_size in_data setter d)
unfolding accept
accept-Refuses size in_size in_data setter d = (λ ne. ground arith, λ e f. ground arith)

-- The object that is asked is the one that is meant.
pub own-IsGuarded :
    {A D : Type 0} (c : Bool) (q q₁ : Reply Bool) (p p₁ : Reply ℕ) (in_size : ℕ)
    (in_data : Option A) (d : D) (r r₁ : Status × D)
    → c ≡ true
    → IsGuarded q p in_size in_data d r
    → IsGuarded (if c then q else q₁) (if c then p else p₁) in_size in_data d (if c then r else r₁)
own-IsGuarded true q q₁ p p₁ in_size in_data d r r₁ e g = g
own-IsGuarded false q q₁ p p₁ in_size in_data d r r₁ e g = cc
