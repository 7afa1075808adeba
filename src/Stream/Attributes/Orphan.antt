-- ===== src/Stream/Attributes/Orphan.antt =====
-- src/Stream.cpp: the setters of a stream whose device is gone, and of one whose device is there.
use lib_aspl.Prelude.{ℕ, ap, ◌∙◌, ◌≡◌, Bool, true, false, none, arith, lookup, Bool-cases, inl, inr}
use lib_aspl.Status.{Status, is_ok}
use lib_aspl.Device.Configuration.{
  Configuration, enqueues, apply, request_configuration_change, perform_configuration_change,
}
use lib_aspl.Accessor.Setters.{apply_value, device_at, set_value_async}
use lib_aspl.Accessor.Setters.Async.{set_value_async_at_once, set_value_async_later}
use lib_aspl.Stream.Attributes.{StreamDevice, request_change, set_stream_value_async}

module _ {A D : Type 0} (equal : A → A → Bool) (get : D → A) (set_impl : A → D → Status × D)
    (run : ℕ → D → D) (start : D) (check : A → D → Status) (code : A → ℕ) (value : A)
    (runs : (d : D) → run (code value) d ≡ apply_value equal get set_impl value d)
    (reads : (d : D) → equal value (get (set_impl value d).1) ≡ true) where
  performs_nothing :
      (id : ℕ) (c : Configuration)
      → lookup id c.pending_configuration_requests ≡ none
      → device_at run start (perform_configuration_change id c) ≡ device_at run start c
  unfolding perform_configuration_change
  performs_nothing id c empty = ground (arith, empty)

  set_value_async-is_ok :
      (c : Configuration)
      → equal value (get (device_at run start c)) ≡ false
      → is_ok (check value (device_at run start c)) ≡ true
      → is_ok (set_value_async equal get check code value (device_at run start c) c).0 ≡ true
  unfolding set_value_async
  set_value_async-is_ok c differs ok = ground (arith, differs, ok)

  -- A device that does not enqueue leaves the queue alone.
  set_value_async-pending :
      (c : Configuration)
      → enqueues c ≡ false
      → let r = set_value_async equal get check code value (device_at run start c) c in
        r.1.pending_configuration_requests ≡ c.pending_configuration_requests
  unfolding set_value_async request_configuration_change apply
  set_value_async-pending c idle = ground (arith, idle)

  -- The device's own setter, at once or when the HAL performs the change.
  set_value_async-performed :
      (c : Configuration)
      → equal value (get (device_at run start c)) ≡ false
      → is_ok (check value (device_at run start c)) ≡ true
      → lookup c.last_configuration_request_id c.pending_configuration_requests ≡ none
      → let r = set_value_async equal get check code value (device_at run start c) c in
        (is_ok r.0 ≡ true)
        × (equal value (
              get (
                device_at run start
                  (perform_configuration_change c.last_configuration_request_id r.1)))
            ≡ true)
  set_value_async-performed c differs ok empty =
      let r = set_value_async equal get check code value (device_at run start c) c in
      let id : ℕ = c.last_configuration_request_id in
      let good : is_ok r.0 ≡ true = set_value_async-is_ok c differs ok in
      elim (Bool-cases (enqueues c)) [
        | inl busy ↦
            let (same, later, aborted) =
              set_value_async_later equal get set_impl run start check code value runs reads c busy
                differs ok in
            (good, later)
        | inr idle ↦
            let now =
              set_value_async_at_once equal get set_impl run start check code value runs reads c
                idle good in
            (
              good,
              ap (λ d. equal value (get d))
                    (performs_nothing id r.1
                      (ap (lookup id) (set_value_async-pending c idle) ∙ empty))
                  ∙ now,
            )
      ]

  -- If the function of a value applies it, a value that is set is read back, and the value is new
  -- and passes the check, then an asynchronous setter of a stream succeeds; and if no change waits
  -- under the next identifier yet, then once the HAL has performed the change with it, if there is
  -- one, the getter returns the value exactly if the device was still there at the call.
  pub set_stream_value_async_lem :
      (w : StreamDevice)
      → equal value (get (device_at run start w.configuration)) ≡ false
      → is_ok (check value (device_at run start w.configuration)) ≡ true
      → let id = w.configuration.last_configuration_request_id in
        lookup id w.configuration.pending_configuration_requests ≡ none
        → let r =
            set_stream_value_async equal get check code value
              (device_at run start w.configuration)
              w in
          (is_ok r.0 ≡ true)
          × (equal value
                (get (device_at run start (perform_configuration_change id r.1.configuration)))
              ≡ w.is_alive)
  unfolding set_stream_value_async request_change set_value_async
  set_stream_value_async_lem w differs ok empty =
      let c : Configuration = w.configuration in
      let id : ℕ = c.last_configuration_request_id in
      elim (Bool-cases w.is_alive) [
        | inl alive ↦
            let (good, kept) = set_value_async-performed c differs ok empty in
            (ground (arith, differs, ok), ground (arith, alive, differs, ok, kept))
        | inr gone ↦ (
          ground (arith, differs, ok),
          ground (arith, gone, differs, ok, performs_nothing id c empty),
        )
      ]
