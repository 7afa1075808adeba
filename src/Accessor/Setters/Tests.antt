-- ===== src/Accessor/Setters/Tests.antt =====
-- A number that is set asynchronously, and the theorems at it.
use lib_aspl.Prelude.{ℕ, ◌≡◌, refl, Bool, true, ◌==◌, arith}
use lib_aspl.Status.{Status, no_error}
use lib_aspl.Device.Configuration.{
  Configuration, new_configuration, perform_configuration_change, abort_configuration_change,
}
use lib_aspl.Accessor.Setters.{apply_value, replay, device_at, set_value_async}
use lib_aspl.Accessor.Setters.Async.{set_value_async_at_once, set_value_async_later}

abbrev same : ℕ → ℕ → Bool
same a b = a == b

abbrev read : ℕ → ℕ
read d = d

abbrev store : ℕ → ℕ → Status × ℕ
store value d = (no_error, value)

abbrev allow : ℕ → ℕ → Status
allow value d = no_error

-- The function that sets a value has the value for its number.
abbrev run : ℕ → ℕ → ℕ
run n d = apply_value same read store n d

same_refl : (value : ℕ) → same value value ≡ true
same_refl value = ground arith

abbrev published : Configuration
published = record new_configuration { host = true; has_owner = true }

set_value_async_at_once_example :
    same 7 (device_at run 3 (set_value_async same read allow read 7 3 new_configuration).1) ≡ true
unfolding set_value_async replay
set_value_async_at_once_example =
    set_value_async_at_once same read store run 3 allow read 7 (λ d. refl) (λ d. same_refl 7)
      new_configuration refl refl

set_value_async_later_example :
    let r = set_value_async same read allow read 7 (device_at run 3 published) published in
    let id = published.last_configuration_request_id in
    (device_at run 3 r.1 ≡ device_at run 3 published)
    × (same 7 (device_at run 3 (perform_configuration_change id r.1)) ≡ true)
    × (device_at run 3 (abort_configuration_change id r.1) ≡ device_at run 3 published)
unfolding replay
set_value_async_later_example =
    set_value_async_later same read store run 3 allow read 7 (λ d. refl) (λ d. same_refl 7)
      published refl refl refl
