-- ===== src/Device/Configuration.antt =====
-- src/Device.cpp: changes of a device's configuration, which the HAL performs later or which happen
-- at once. Which object the owner is, is the subject of Object.antt. `writeMutex_` is an `std::recursive_mutex`, so that a change may ask for another change
-- from inside; calls of different threads are serialized by it. The tracer's calls are left out.
pub mod Queue
pub mod History
pub mod Account
use lib_aspl.Prelude.{
  ℕ, zero, suc, ◌+◌, ◌-◌, ◌%◌, ◌^◌, Bool, true, false, not, ◌&&◌, none, some, List, [], ◌∷◌, ◌++◌,
  if◌then◌else◌, ◌==◌, Map, lookup, insert, erase, length,
}

-- The std::function that a caller passes: it does something to the device, a numbered action here,
-- asks for a further change, or does one after another. It neither gives away nor takes ownership.
pub data Change : Type 0 where
  act : ℕ → Change
  request : Change → Change
  both : Change → Change → Change

-- `actions` is what the changes have done to the device, `notified` the identifiers that the host was
-- told of; both start with the oldest.
pub record Configuration : Type 0 where
  pub host : Bool
  pub has_owner : Bool
  pub inside_configuration_handler : ℕ
  pub last_configuration_request_id : ℕ
  pub pending_configuration_requests : Map Change
  pub notified : List ℕ
  pub actions : List ℕ

abbrev pub u64 : ℕ → ℕ
u64 n = n % 2 ^ 64

abbrev pub new_configuration : Configuration
new_configuration = record {
  host = false;
  has_owner = false;
  inside_configuration_handler = 0;
  last_configuration_request_id = 0;
  pending_configuration_requests = [];
  notified = [];
  actions = [];
}

-- The test of `RequestConfigurationChange`.
abbrev pub enqueues : Configuration → Bool
enqueues s = s.host && s.has_owner && (s.inside_configuration_handler == 0)

abbrev pub enqueue : Change → Configuration → Configuration
enqueue c s = record s {
  last_configuration_request_id = u64 (s.last_configuration_request_id + 1);
  pending_configuration_requests =
      insert s.last_configuration_request_id c s.pending_configuration_requests;
  notified = s.notified ++ s.last_configuration_request_id ∷ [];
}

-- `RequestConfigurationChange`, where `applied` is the device after func().
abbrev pub request_with : Change → (applied s : Configuration) → Configuration
request_with c applied s = if enqueues s then enqueue c s else applied

-- func()
unfoldable pub apply : Change → Configuration → Configuration
apply (act n) s = record s { actions = s.actions ++ n ∷ [] }
apply (request c) s = request_with c (apply c s) s
apply (both c d) s = apply d (apply c s)

unfoldable pub request_configuration_change : Change → Configuration → Configuration
unfolding apply
request_configuration_change c s = request_with c (apply c s) s

-- The loop of `RequestOwnershipChange`, on fuel: one round for each change that is enqueued before it.
unfoldable pub apply_pending : (fuel : ℕ) → Configuration → Configuration
unfolding apply
apply_pending zero s = s
apply_pending (suc fuel) s = elim s.pending_configuration_requests [
  | [] ↦ s
  | (id, func) ∷ rest ↦
      let t = apply func s in
      apply_pending fuel
        (record t { pending_configuration_requests = erase id t.pending_configuration_requests })
]

unfoldable pub request_ownership_change :
    (should_have_ownership : Bool) → Configuration → Configuration
unfolding apply_pending
request_ownership_change true s = if s.has_owner then s else record s { has_owner = true }
request_ownership_change false s =
    if not s.has_owner
    then s
    else apply_pending (length s.pending_configuration_requests) (record s { has_owner = false })

-- `pendingConfigurationRequests_[reqID]` makes an empty entry if there is none, which is erased at
-- the end like any other.
abbrev pub perform_func : (change_action : ℕ) → Configuration → Configuration
perform_func change_action s = elim (lookup change_action s.pending_configuration_requests) [
  | none ↦ s
  | some func ↦ apply func s
]

abbrev pub enter_handler : Configuration → Configuration
enter_handler s = record s {
  inside_configuration_handler = u64 (s.inside_configuration_handler + 1);
}

abbrev pub leave_handler : (change_action : ℕ) → Configuration → Configuration
leave_handler change_action s = record s {
  pending_configuration_requests = erase change_action s.pending_configuration_requests;
  inside_configuration_handler = u64 (s.inside_configuration_handler + (2 ^ 64 - 1));
}

unfoldable pub perform_configuration_change : (change_action : ℕ) → Configuration → Configuration
perform_configuration_change change_action s =
    leave_handler change_action (perform_func change_action (enter_handler s))

unfoldable pub abort_configuration_change : (change_action : ℕ) → Configuration → Configuration
abort_configuration_change change_action s = record s {
  pending_configuration_requests = erase change_action s.pending_configuration_requests;
}
