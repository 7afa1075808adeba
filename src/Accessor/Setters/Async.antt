-- ===== src/Accessor/Setters/Async.antt =====
-- src/*.g.cpp with src/Device.cpp: the setters that ask the HAL first, and what becomes of the value.
use lib_aspl.Prelude.{
  ℕ, ◌≡◌, refl, ap, ◌∙◌, Bool, true, false, some, List, [], ◌∷◌, ◌++◌, arith, lookup, insert,
  lookup-insert,
}
use lib_aspl.Status.{Status, is_ok}
use lib_aspl.Device.Configuration.{
  act, Configuration, enqueues, apply, request_configuration_change, perform_configuration_change,
  abort_configuration_change,
}
use lib_aspl.Accessor.Setters.{apply_value, replay, device_at, set_value_async}

pub replay-append :
    {D : Type 0} (run : ℕ → D → D) (n : ℕ) (ns : List ℕ) (d : D)
    → replay run (ns ++ n ∷ []) d ≡ run n (replay run ns d)
unfolding replay
replay-append run n [] d = refl
replay-append run n (m ∷ ns) d = replay-append run n ns (run m d)

-- `code value` is the number of the function that applies `value`, and what was set is read back.
module _ {A D : Type 0} (equal : A → A → Bool) (get : D → A) (set_impl : A → D → Status × D)
    (run : ℕ → D → D) (start : D) (check : A → D → Status) (code : A → ℕ) (value : A)
    (runs : (d : D) → run (code value) d ≡ apply_value equal get set_impl value d)
    (reads : (d : D) → equal value (get (set_impl value d).1) ≡ true) where
  applied : (d : D) → equal value (get (run (code value) d)) ≡ true
  unfolding apply_value
  applied d = ground (arith, runs d, reads d)

  performed : (ns : List ℕ) → equal value (get (replay run (ns ++ code value ∷ []) start)) ≡ true
  performed ns =
      ap (λ d. equal value (get d)) (replay-append run (code value) ns start)
      ∙ applied (replay run ns start)

  -- If the function of a value applies it, a value that is set is read back, and the device does
  -- not enqueue changes (it has no host or no owner, or is inside a change), then after an
  -- asynchronous setter without error the getter returns the value.
  pub set_value_async_at_once :
      (c : Configuration)
      → enqueues c ≡ false
      → let r = set_value_async equal get check code value (device_at run start c) c in
        is_ok r.0 ≡ true → equal value (get (device_at run start r.1)) ≡ true
  unfolding set_value_async request_configuration_change apply
  set_value_async_at_once c idle ok = ground (arith, performed c.actions)

  -- If the function of a value applies it, a value that is set is read back, the device enqueues
  -- changes, and the value is new and passes the check, then the asynchronous setter leaves the
  -- device as it is; when the HAL performs the change, the getter returns the value, and when it
  -- aborts the change, the device is still as it was.
  pub set_value_async_later :
      (c : Configuration)
      → enqueues c ≡ true
      → equal value (get (device_at run start c)) ≡ false
      → is_ok (check value (device_at run start c)) ≡ true
      → let r = set_value_async equal get check code value (device_at run start c) c in
        let id = c.last_configuration_request_id in
        (device_at run start r.1 ≡ device_at run start c)
        × (equal value (get (device_at run start (perform_configuration_change id r.1))) ≡ true)
        × (device_at run start (abort_configuration_change id r.1) ≡ device_at run start c)
  unfolding set_value_async request_configuration_change perform_configuration_change apply
      abort_configuration_change
  set_value_async_later c busy differs ok =
      let id = c.last_configuration_request_id in
      let m = c.pending_configuration_requests in
      let found : lookup id (insert id (act (code value)) m) ≡ some (act (code value)) =
        ground (arith, lookup-insert id (act (code value)) m id) in
      (ground arith, ground (arith, found, performed c.actions), ground arith)
