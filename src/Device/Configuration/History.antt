-- ===== src/Device/Configuration/History.antt =====
-- src/Device.cpp: the queue of changes, over any history of calls.
use mathlib.Core.Path.{subst}
use lib_aspl.Prelude.{
  ℕ, ◌+◌, ◌<◌, ◌≤◌, ◌≡◌, refl, sym, ap, Bool, true, false, List, [], ◌∷◌, ◌++◌, if◌then◌else◌, Map,
  lookup, insert, erase, IsAscending, insert-IsAscending, erase-IsAscending, arith, ◌^◌, length,
}
use lib_aspl.Device.Configuration.{
  Change, Configuration, enqueues, enqueue, request_configuration_change, request_ownership_change,
  perform_configuration_change, abort_configuration_change, new_configuration,
}
use lib_aspl.Device.Configuration.Queue.{
  actions_of, actions_of_all, actions_at, after, apply_in_place, request_ownership_change-detach,
  perform_configuration_change_lem,
}

-- The calls that reach a device: from its user, from the HAL, and the driver's choice of the host.
pub data ConfigurationEvent : Type 0 where
  requests : Change → ConfigurationEvent
  performs : ℕ → ConfigurationEvent
  aborts : ℕ → ConfigurationEvent
  changes_owner : Bool → ConfigurationEvent
  sets_host : Bool → ConfigurationEvent

abbrev pub step : ConfigurationEvent → Configuration → Configuration
step (requests c) s = request_configuration_change c s
step (performs id) s = perform_configuration_change id s
step (aborts id) s = abort_configuration_change id s
step (changes_owner b) s = request_ownership_change b s
step (sets_host b) s = record s { host = b }

abbrev pub run : List ConfigurationEvent → Configuration → Configuration
run [] s = s
run (e ∷ es) s = run es (step e s)

-- Identifiers in the queue are below the next one.
abbrev pub Below : ℕ → Map Change → Type 0
Below k [] = Unit
Below k ((j, c) ∷ m) = (j < k) × Below k m

Below-mono : {k l : ℕ} (m : Map Change) → k ≤ l → Below k m → Below l m
Below-mono [] le b = tt
Below-mono ((j, c) ∷ m) le b = (omega arith, Below-mono m le b.1)

insert-Below : (l k : ℕ) (c : Change) (m : Map Change) → k < l → Below l m → Below l (insert k c m)
unfolding insert
insert-Below l k c [] lt b = (lt, tt)
insert-Below l k c ((j, d) ∷ m) lt b = ground (arith, insert-Below l k c m lt b.1)

erase-Below : (i k : ℕ) (m : Map Change) → Below k m → Below k (erase i m)
unfolding erase
erase-Below i k [] b = tt
erase-Below i k ((j, d) ∷ m) b = ground (arith, erase-Below i k m b.1)

-- The queue between calls: no handler runs, the identifiers ascend and are below the next one, of
-- which at most `n` were given out, and a device without owner has nothing in its queue.
pub record IsQueue (n : ℕ) (s : Configuration) : Type 0 where
  pub outside : s.inside_configuration_handler ≡ 0
  pub sorted : IsAscending s.pending_configuration_requests
  pub fresh : Below s.last_configuration_request_id s.pending_configuration_requests
  pub few : s.last_configuration_request_id ≤ n
  pub alone : s.has_owner ≡ false → s.pending_configuration_requests ≡ []

pub new_configuration-IsQueue : IsQueue 0 new_configuration
new_configuration-IsQueue = record {
  outside = refl;
  sorted = tt;
  fresh = tt;
  few = omega arith;
  alone = λ e. refl;
}

-- What an event does to a device in order, as one expression.
unfoldable pub stepped : ConfigurationEvent → Configuration → Configuration
stepped (requests c) s = if enqueues s then enqueue c s else after (actions_of c) s
stepped (performs id) s = record s {
  pending_configuration_requests = erase id s.pending_configuration_requests;
  actions = s.actions ++ actions_at (lookup id s.pending_configuration_requests);
}
stepped (aborts id) s = record s {
  pending_configuration_requests = erase id s.pending_configuration_requests;
}
stepped (changes_owner true) s = if s.has_owner then s else record s { has_owner = true }
stepped (changes_owner false) s =
    if s.has_owner
    then record s {
      has_owner = false;
      pending_configuration_requests = [];
      actions = s.actions ++ actions_of_all s.pending_configuration_requests;
    }
    else s
stepped (sets_host b) s = record s { host = b }

module _ (n : ℕ) (s : Configuration) (q : IsQueue n s) where
  pub step_lem : (e : ConfigurationEvent) → step e s ≡ stepped e s
  unfolding stepped request_configuration_change abort_configuration_change request_ownership_change
  step_lem (requests c) = ground (arith, apply_in_place c s)
  step_lem (performs id) = perform_configuration_change_lem s id q.outside
  step_lem (aborts id) = refl
  step_lem (changes_owner true) = refl
  step_lem (changes_owner false) = ground (arith, request_ownership_change-detach s, q.sorted)
  step_lem (sets_host b) = refl

  stepped-IsQueue : (e : ConfigurationEvent) → n + 1 < 2 ^ 64 → IsQueue (n + 1) (stepped e s)
  unfolding stepped erase
  stepped-IsQueue (requests c) lt =
      let k = s.last_configuration_request_id in
      let m = s.pending_configuration_requests in
      record {
        outside = ground (arith, q.outside);
        sorted = ground (arith, q.sorted, insert-IsAscending k c m);
        fresh =
            ground
              (arith, q.fresh, q.few, insert-Below (k + 1) k c m, Below-mono {k = k} {l = k + 1} m);
        few = ground (arith, q.few);
        alone = ground (arith, q.alone);
      }
  stepped-IsQueue (performs id) lt = record {
    outside = q.outside;
    sorted = erase-IsAscending id s.pending_configuration_requests q.sorted;
    fresh = erase-Below id s.last_configuration_request_id s.pending_configuration_requests q.fresh;
    few = ground (arith, q.few);
    alone = λ e. ap (erase id) (q.alone e);
  }
  stepped-IsQueue (aborts id) lt = record {
    outside = q.outside;
    sorted = erase-IsAscending id s.pending_configuration_requests q.sorted;
    fresh = erase-Below id s.last_configuration_request_id s.pending_configuration_requests q.fresh;
    few = ground (arith, q.few);
    alone = λ e. ap (erase id) (q.alone e);
  }
  stepped-IsQueue (changes_owner true) lt = record {
    outside = ground (arith, q.outside);
    sorted = ground (arith, q.sorted);
    fresh = ground (arith, q.fresh);
    few = ground (arith, q.few);
    alone = ground (arith, q.alone);
  }
  stepped-IsQueue (changes_owner false) lt = record {
    outside = ground (arith, q.outside);
    sorted = ground (arith, q.sorted);
    fresh = ground (arith, q.fresh);
    few = ground (arith, q.few);
    alone = ground (arith, q.alone);
  }
  stepped-IsQueue (sets_host b) lt = record {
    outside = q.outside;
    sorted = q.sorted;
    fresh = q.fresh;
    few = ground (arith, q.few);
    alone = q.alone;
  }

  pub step-IsQueue : (e : ConfigurationEvent) → n + 1 < 2 ^ 64 → IsQueue (n + 1) (step e s)
  step-IsQueue e lt = subst (IsQueue (n + 1)) (sym (step_lem e)) (stepped-IsQueue e lt)

-- A queue in order stays in order over any calls, fewer than 2 ^ 64 with those before: between
-- calls no handler is entered, the identifiers ascend below the next one, and a device without
-- owner has nothing waiting.
pub run-IsQueue :
    (n : ℕ) (s : Configuration) (es : List ConfigurationEvent)
    → IsQueue n s
    → n + length es < 2 ^ 64
    → IsQueue (n + length es) (run es s)
run-IsQueue n s [] q lt = subst (λ k. IsQueue k s) (omega arith) q
run-IsQueue n s (e ∷ es) q lt =
    subst (λ k. IsQueue k (run es (step e s))) (omega arith)
      (run-IsQueue (n + 1) (step e s) es (step-IsQueue n s q e (ground arith)) (ground arith))
