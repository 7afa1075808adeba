-- ===== src/Device/Configuration/Account.antt =====
-- src/Device.cpp: what becomes of the changes that are requested, over any history of calls.
use mathlib.Core.Path.{subst}
use lib_aspl.Prelude.{
  ℕ, ◌+◌, ◌<◌, ◌≡◌, refl, sym, true, false, List, [], ◌∷◌, ◌++◌, if◌then◌else◌, ◌==◌, Map, lookup,
  insert, erase, IsAscending, lookup-Above, arith, ◌^◌, length,
}
use lib_aspl.Device.Configuration.{Change, Configuration}
use lib_aspl.Device.Configuration.Queue.{Above-IsAscending, actions_of, actions_of_all, actions_at}
use lib_aspl.Device.Configuration.History.{
  ConfigurationEvent, requests, performs, aborts, changes_owner, sets_host, step, run, Below,
  IsQueue, stepped, step_lem, step-IsQueue,
}

-- How often an action stands in a list.
pub count : ℕ → List ℕ → ℕ
count n [] = 0
count n (m ∷ ms) = (if n == m then 1 else 0) + count n ms

pub count-append : (n : ℕ) (ms ns : List ℕ) → count n (ms ++ ns) ≡ count n ms + count n ns
unfolding count
count-append n [] ns = omega arith
count-append n (m ∷ ms) ns = ground (arith, count-append n ms ns)

insert-fresh :
    (n k : ℕ) (c : Change) (m : Map Change)
    → Below k m
    → count n (actions_of_all (insert k c m)) ≡ count n (actions_of_all m) + count n (actions_of c)
unfolding insert actions_of_all count
insert-fresh n k c [] b = ground (arith, count-append n (actions_of c) [])
insert-fresh n k c ((j, d) ∷ m) b = ground (
  arith,
  insert-fresh n k c m b.1,
  count-append n (actions_of d) (actions_of_all m),
  count-append n (actions_of d) (actions_of_all (insert k c m)),
)

erase-once :
    (n k : ℕ) (m : Map Change)
    → IsAscending m
    → count n (actions_of_all (erase k m)) + count n (actions_at (lookup k m))
      ≡ count n (actions_of_all m)
unfolding erase actions_of_all lookup count
erase-once n k [] up = refl
erase-once n k ((j, d) ∷ m) up = ground (
  arith,
  erase-once n k m (Above-IsAscending j m up),
  lookup-Above k j m up,
  count-append n (actions_of d) (actions_of_all m),
  count-append n (actions_of d) (actions_of_all (erase k m)),
)

-- The actions that an event asks for.
abbrev pub requested_by : ConfigurationEvent → List ℕ
requested_by (requests c) = actions_of c
requested_by (performs id) = []
requested_by (aborts id) = []
requested_by (changes_owner b) = []
requested_by (sets_host b) = []

-- The actions of the change that an event takes out of the queue for good.
abbrev pub aborted_by : ConfigurationEvent → Configuration → List ℕ
aborted_by (requests c) s = []
aborted_by (performs id) s = []
aborted_by (aborts id) s = actions_at (lookup id s.pending_configuration_requests)
aborted_by (changes_owner b) s = []
aborted_by (sets_host b) s = []

abbrev pub requested : ℕ → List ConfigurationEvent → ℕ
requested x [] = 0
requested x (e ∷ es) = count x (requested_by e) + requested x es

abbrev pub aborted : ℕ → List ConfigurationEvent → Configuration → ℕ
aborted x [] s = 0
aborted x (e ∷ es) s = count x (aborted_by e s) + aborted x es (step e s)

-- How often an action was done or waits in the queue.
abbrev pub present : ℕ → Configuration → ℕ
present x s = count x s.actions + count x (actions_of_all s.pending_configuration_requests)

module _ (n x : ℕ) (s : Configuration) (q : IsQueue n s) where
  stepped-present :
      (e : ConfigurationEvent)
      → present x (stepped e s) + count x (aborted_by e s) ≡ present x s + count x (requested_by e)
  unfolding stepped count actions_of_all
  stepped-present (requests c) = ground (
    arith,
    insert-fresh x s.last_configuration_request_id c s.pending_configuration_requests q.fresh,
    count-append x s.actions (actions_of c),
  )
  stepped-present (performs id) = ground (
    arith,
    erase-once x id s.pending_configuration_requests q.sorted,
    count-append x s.actions (actions_at (lookup id s.pending_configuration_requests)),
  )
  stepped-present (aborts id) =
      ground (arith, erase-once x id s.pending_configuration_requests q.sorted)
  stepped-present (changes_owner true) = ground arith
  stepped-present (changes_owner false) =
      ground (arith, count-append x s.actions (actions_of_all s.pending_configuration_requests))
  stepped-present (sets_host b) = ground arith

  step-present :
      (e : ConfigurationEvent)
      → present x (step e s) + count x (aborted_by e s) ≡ present x s + count x (requested_by e)
  step-present e =
      subst (λ t. present x t + count x (aborted_by e s) ≡ present x s + count x (requested_by e))
        (sym (step_lem n s q e)) (stepped-present e)

-- Over any calls that start at a queue in order, fewer than 2 ^ 64 with those before: for each
-- action, the times it was done or waits at the end, together with the times it was aborted, are
-- those it was done or waited at the start and was asked for since.
pub run-present :
    (n x : ℕ) (s : Configuration) (es : List ConfigurationEvent)
    → IsQueue n s
    → n + length es < 2 ^ 64
    → present x (run es s) + aborted x es s ≡ present x s + requested x es
run-present n x s [] q lt = ground arith
run-present n x s (e ∷ es) q lt = ground (
  arith,
  step-present n x s q e,
  run-present (n + 1) x (step e s) es (step-IsQueue n s q e (ground arith)) (ground arith),
)
