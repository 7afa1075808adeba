-- ===== src/Device/Configuration/Queue.antt =====
-- src/Device.cpp: what each call on the configuration does to a device whose queue is in order.
use mathlib.Core.List.{append_assoc, append-nil}
use lib_aspl.Prelude.{
  ℕ, ◌≤◌, ◌≡◌, refl, sym, ap, ◌∙◌, true, false, none, some, List, [], ◌∷◌, ◌++◌, Map, lookup, erase,
  length, IsAscending, Above, arith, Option, Option-cases, inl, inr,
}
use lib_aspl.Device.Configuration.{
  Change, act, request, both, Configuration, enqueues, apply, apply_pending,
  request_ownership_change, perform_configuration_change, perform_func, enter_handler,
  leave_handler,
}

-- The actions of a change, those of the changes that it asks for included, in the order of the code.
unfoldable pub actions_of : Change → List ℕ
actions_of (act n) = n ∷ []
actions_of (request c) = actions_of c
actions_of (both c d) = actions_of c ++ actions_of d

unfoldable pub actions_of_all : Map Change → List ℕ
actions_of_all [] = []
actions_of_all ((id, c) ∷ m) = actions_of c ++ actions_of_all m

abbrev pub actions_at : Option Change → List ℕ
actions_at none = []
actions_at (some c) = actions_of c

abbrev pub after : List ℕ → Configuration → Configuration
after ns s = record s { actions = s.actions ++ ns }

-- Where nothing is enqueued, a change happens as a whole, with what it asks for.
pub apply_in_place :
    (c : Change) (s : Configuration) → enqueues s ≡ false → apply c s ≡ after (actions_of c) s
unfolding apply actions_of
apply_in_place (act n) s e = refl
apply_in_place (request c) s e = ground (arith, apply_in_place c s e)
apply_in_place (both c d) s e =
    ap (apply d) (apply_in_place c s e)
    ∙ apply_in_place d (after (actions_of c) s) e
    ∙ ap (λ ns. record s { actions = ns }) (append_assoc s.actions (actions_of c) (actions_of d))

erase_absent : (i k : ℕ) (m : Map Change) → Above k m → i ≤ k → erase i m ≡ m
unfolding erase
erase_absent i k [] up le = refl
erase_absent i k ((j, c) ∷ m) up le = ground (arith, erase_absent i j m up.1)

pub Above-IsAscending : (k : ℕ) (m : Map Change) → Above k m → IsAscending m
Above-IsAscending k [] up = tt
Above-IsAscending k ((j, c) ∷ m) up = up.1

apply_pending_lem :
    (m : Map Change) (s : Configuration)
    → s.has_owner ≡ false
    → IsAscending m
    → apply_pending (length m) (record s { pending_configuration_requests = m })
      ≡ record s { pending_configuration_requests = []; actions = s.actions ++ actions_of_all m }
unfolding apply_pending actions_of_all erase
apply_pending_lem [] s free up =
    ap (λ ns. record s { pending_configuration_requests = []; actions = ns })
      (sym (append-nil s.actions))
apply_pending_lem ((id, c) ∷ m) s free up =
    let start : Configuration = record s { pending_configuration_requests = (id, c) ∷ m } in
    let step : Configuration → Configuration = λ t.
      apply_pending (length m)
        (record t { pending_configuration_requests = erase id t.pending_configuration_requests }) in
    let rest : erase id ((id, c) ∷ m) ≡ m = ground (arith, erase_absent id id m up) in
    ap step (apply_in_place c start (ground arith))
    ∙ ap
        (λ q.
          apply_pending (length m)
            (record s { pending_configuration_requests = q; actions = s.actions ++ actions_of c }))
        rest
    ∙ apply_pending_lem m (after (actions_of c) s) free (Above-IsAscending id m up)
    ∙ ap (λ ns. record s { pending_configuration_requests = []; actions = ns })
        (append_assoc s.actions (actions_of c) (actions_of_all m))

-- When a device with an ascending queue loses its owner, the loop ends with an empty queue, and all
-- waiting changes have been made, in the order of their identifiers.
pub request_ownership_change-detach :
    (s : Configuration)
    → s.has_owner ≡ true
    → IsAscending s.pending_configuration_requests
    → request_ownership_change false s ≡ record s {
      has_owner = false;
      pending_configuration_requests = [];
      actions = s.actions ++ actions_of_all s.pending_configuration_requests;
    }
unfolding request_ownership_change
request_ownership_change-detach s owned up = ground (
  arith,
  apply_pending_lem s.pending_configuration_requests (record s { has_owner = false }) refl up,
)

perform_func_lem :
    (id : ℕ) (s : Configuration)
    → enqueues s ≡ false
    → perform_func id s ≡ after (actions_at (lookup id s.pending_configuration_requests)) s
perform_func_lem id s e = elim (Option-cases (lookup id s.pending_configuration_requests)) [
  | inl missing ↦ ground (arith, missing, append-nil s.actions)
  | inr (c, found) ↦ ground (arith, found, apply_in_place c s e)
]

-- A request that the HAL performs: exactly that change happens, and it leaves the queue.
pub perform_configuration_change_lem :
    (s : Configuration) (id : ℕ)
    → s.inside_configuration_handler ≡ 0
    → perform_configuration_change id s ≡ record s {
      pending_configuration_requests = erase id s.pending_configuration_requests;
      actions = s.actions ++ actions_at (lookup id s.pending_configuration_requests);
    }
unfolding perform_configuration_change
perform_configuration_change_lem s id outside =
    ap (leave_handler id) (perform_func_lem id (enter_handler s) (ground arith))
    ∙ ap
        (λ n. record s {
          pending_configuration_requests = erase id s.pending_configuration_requests;
          actions = s.actions ++ actions_at (lookup id s.pending_configuration_requests);
          inside_configuration_handler = n;
        })
        (ground arith)
