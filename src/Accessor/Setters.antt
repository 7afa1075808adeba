-- ===== src/Accessor/Setters.antt =====
-- What the generated setters share (src/*.g.cpp): the ones that take effect at once, `SetX`, and the
-- ones that ask the HAL first, `SetXAsync`. `A` is the type of the property, `D` the device, `equal`
-- the comparison of src/Compare.hpp, and `set_impl` the virtual `SetXImpl`.
pub mod Sync
pub mod Async
mod Tests
use lib_aspl.Prelude.{ℕ, Bool, true, false, List, [], ◌∷◌, ◌++◌, if◌then◌else◌}
use lib_aspl.Status.{Status, no_error, is_ok}
use lib_aspl.Device.Configuration.{Change, act, Configuration, request_configuration_change}

-- An object, with the properties that `NotifyPropertyChanged` has reported, the oldest first.
abbrev pub Notifying : Type 0 → Type 0
Notifying D = D × List ℕ

module _ {A D : Type 0} (equal : A → A → Bool) (get : D → A) (set_impl : A → D → Status × D) where
  unfoldable pub set_value : (selector : ℕ) (value : A) → Notifying D → Status × Notifying D
  set_value selector value s =
      if equal value (get s.0)
      then (no_error, s)
      else let r = set_impl value s.0 in
        (r.0, (r.1, if is_ok r.0 then s.1 ++ selector ∷ [] else s.1))

  -- The function that `SetXAsync` passes to `RequestConfigurationChange`.
  unfoldable pub apply_value : (value : A) → D → D
  apply_value value d = if equal value (get d) then d else (set_impl value d).1

-- `run` is what the function with a number does. The device is what the functions that were called
-- have made of `start`.
module _ {D : Type 0} (run : ℕ → D → D) where
  unfoldable pub replay : List ℕ → D → D
  replay [] d = d
  replay (n ∷ ns) d = replay ns (run n d)

  abbrev pub device_at : (start : D) → Configuration → D
  device_at start c = replay c.actions start

-- `code` is the number of the function for `value`; `check` is `CheckX`, if there is one.
unfoldable pub set_value_async :
    {A D : Type 0} (equal : A → A → Bool) (get : D → A) (check : A → D → Status) (code : A → ℕ)
    (value : A)
    → (device : D) (c : Configuration) → Status × Configuration
unfolding request_configuration_change
set_value_async equal get check code value device c =
    if equal value (get device)
    then (no_error, c)
    else let status = check value device in
      (status, if is_ok status then request_configuration_change (act (code value)) c else c)
