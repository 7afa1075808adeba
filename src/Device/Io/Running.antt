-- ===== src/Device/Io/Running.antt =====
-- src/Device.cpp: a device under any sequence of starts and stops.
use mathlib.Core.Path.{subst}
use lib_aspl.Prelude.{
  ℕ, ◌+◌, ◌^◌, ◌<◌, ◌≤◌, ◌≡◌, refl, Bool, true, false, List, [], ◌∷◌, if◌then◌else◌, arith, length,
}
use lib_aspl.Status.{Status, no_error, is_ok}
use lib_aspl.Device.Io.{
  ControlCall, on_start_io, on_stop_io, IoState, new_io, get_is_running, start_io, stop_io,
}

-- A call of the HAL on this device, with the answer of the control handler and the time.
pub data IoEvent : Type 0 where
  starts : Status → ℕ → IoEvent
  stops : IoEvent

abbrev pub io_step : (self_id : ℕ) → IoEvent → IoState → Status × IoState
io_step self_id (starts answer now) s = start_io self_id self_id answer now s
io_step self_id stops s = stop_io self_id self_id s

abbrev pub io_run : (self_id : ℕ) → List IoEvent → IoState → IoState
io_run self_id [] s = s
io_run self_id (e ∷ es) s = io_run self_id es (io_step self_id e s).1

-- The HAL stops IO only where it has started it before.
abbrev pub IsMatched : (self_id : ℕ) → List IoEvent → IoState → Type 0
IsMatched self_id [] s = Unit
IsMatched self_id (starts answer now ∷ es) s =
    IsMatched self_id es (io_step self_id (starts answer now) s).1
IsMatched self_id (stops ∷ es) s =
    (0 < s.start_count) × IsMatched self_id es (io_step self_id stops s).1

-- The control handler is asked to start only while it is stopped, and to stop only while it is
-- started; `started` says which holds after the calls.
pub IsAlternating : (started : Bool) → List ControlCall → Type 0
IsAlternating true [] = (true ≡ false)
IsAlternating false [] = Unit
IsAlternating started (on_start_io answer ∷ cs) = (started ≡ is_ok answer) × IsAlternating false cs
IsAlternating started (on_stop_io ∷ cs) = (started ≡ false) × IsAlternating true cs

-- How often the handler went from stopped to started or back.
pub changes : List ControlCall → ℕ
changes [] = 0
changes (on_start_io answer ∷ cs) = (if is_ok answer then 1 else 0) + changes cs
changes (on_stop_io ∷ cs) = 1 + changes cs

-- The device is in order after at most `n` calls.
pub record IsConsistent (n : ℕ) (s : IoState) : Type 0 where
  pub few : s.start_count ≤ n
  pub alternating : IsAlternating (get_is_running s) s.control_calls
  pub notified : s.notifications ≡ changes s.control_calls

pub new_io-IsConsistent : IsConsistent 0 new_io
unfolding IsAlternating get_is_running changes
new_io-IsConsistent = record { few = omega arith; alternating = tt; notified = refl }

-- The count after a start or a stop, for the number of users that the HAL has.
start_count-start_io :
    (n self_id : ℕ) (s : IoState) (answer : Status) (now : ℕ)
    → n + 1 < 2 ^ 31
    → IsConsistent n s
    → (start_io self_id self_id answer now s).1.start_count
      ≡ s.start_count + (if is_ok (start_io self_id self_id answer now s).0 then 1 else 0)
unfolding start_io
start_count-start_io n self_id s answer now lt c = ground (arith, c.few)

start_io-IsConsistent :
    (n self_id : ℕ) (s : IoState) (answer : Status) (now : ℕ)
    → n + 1 < 2 ^ 31
    → IsConsistent n s
    → IsConsistent (n + 1) (start_io self_id self_id answer now s).1
unfolding start_io IsAlternating get_is_running changes
start_io-IsConsistent n self_id s answer now lt c = record {
  few = ground (arith, c.few);
  alternating = ground (arith, c.few, c.alternating);
  notified = ground (arith, c.few, c.notified);
}

stop_io-IsConsistent :
    (n self_id : ℕ) (s : IoState)
    → n + 1 < 2 ^ 31
    → 0 < s.start_count
    → IsConsistent n s
    → IsConsistent (n + 1) (stop_io self_id self_id s).1
unfolding stop_io IsAlternating get_is_running changes
stop_io-IsConsistent n self_id s lt pos c = record {
  few = ground (arith, c.few);
  alternating = ground (arith, c.few, c.alternating);
  notified = ground (arith, c.few, c.notified);
}

io_step-IsConsistent :
    (n self_id : ℕ) (e : IoEvent) (es : List IoEvent) (s : IoState)
    → n + 1 < 2 ^ 31
    → IsMatched self_id (e ∷ es) s
    → IsConsistent n s
    → IsConsistent (n + 1) (io_step self_id e s).1 × IsMatched self_id es (io_step self_id e s).1
io_step-IsConsistent n self_id (starts answer now) es s lt m c =
    (start_io-IsConsistent n self_id s answer now lt c, m)
io_step-IsConsistent n self_id stops es s lt m c = (stop_io-IsConsistent n self_id s lt m.0 c, m.1)

-- If the HAL stops only what it has started, in fewer than 2 ^ 31 calls, a consistent device stays
-- consistent: its control handler is started and stopped in turn, is started exactly while the
-- device reports that it is running, and the HAL is notified as often as that changes.
pub io_run-IsConsistent :
    (n self_id : ℕ) (es : List IoEvent) (s : IoState)
    → n + length es < 2 ^ 31
    → IsMatched self_id es s
    → IsConsistent n s
    → IsConsistent (n + length es) (io_run self_id es s)
io_run-IsConsistent n self_id [] s lt m c = subst (λ k. IsConsistent k s) (omega arith) c
io_run-IsConsistent n self_id (e ∷ es) s lt m c =
    let (now, later) = io_step-IsConsistent n self_id e es s (ground arith) m c in
    subst (λ k. IsConsistent k (io_run self_id es (io_step self_id e s).1)) (omega arith)
      (io_run-IsConsistent (n + 1) self_id es (io_step self_id e s).1 (ground arith) later now)

-- The starts that succeed, and the stops.
abbrev pub opened : (self_id : ℕ) → List IoEvent → IoState → ℕ
opened self_id [] s = 0
opened self_id (starts answer now ∷ es) s =
    (if is_ok (io_step self_id (starts answer now) s).0 then 1 else 0)
    + opened self_id es (io_step self_id (starts answer now) s).1
opened self_id (stops ∷ es) s = opened self_id es (io_step self_id stops s).1

abbrev pub closed : List IoEvent → ℕ
closed [] = 0
closed (starts answer now ∷ es) = closed es
closed (stops ∷ es) = 1 + closed es

start_count-stop_io :
    (n self_id : ℕ) (s : IoState)
    → n + 1 < 2 ^ 31
    → 0 < s.start_count
    → IsConsistent n s
    → (stop_io self_id self_id s).1.start_count + 1 ≡ s.start_count
unfolding stop_io
start_count-stop_io n self_id s lt pos c = ground (arith, c.few)

-- If the HAL stops only what it has started, in fewer than 2 ^ 31 calls, the count of a consistent
-- device grows by the starts that succeed and falls by the stops.
pub start_count-io_run :
    (n self_id : ℕ) (es : List IoEvent) (s : IoState)
    → n + length es < 2 ^ 31
    → IsMatched self_id es s
    → IsConsistent n s
    → (io_run self_id es s).start_count + closed es ≡ s.start_count + opened self_id es s
start_count-io_run n self_id [] s lt m c = refl
start_count-io_run n self_id (starts answer now ∷ es) s lt m c = ground (
  arith,
  start_count-start_io n self_id s answer now (ground arith) c,
  start_count-io_run (n + 1) self_id es (start_io self_id self_id answer now s).1 (ground arith) m
      (start_io-IsConsistent n self_id s answer now (ground arith) c),
)
start_count-io_run n self_id (stops ∷ es) s lt m c = ground (
  arith,
  start_count-stop_io n self_id s (ground arith) m.0 c,
  start_count-io_run (n + 1) self_id es (stop_io self_id self_id s).1 (ground arith) m.1
      (stop_io-IsConsistent n self_id s (ground arith) m.0 c),
)

-- At a count of 0 a stop is accepted; the next start is then accepted without asking the control
-- handler, whatever it would answer, and the device does not report that it is running after it.
pub start_io-unmatched_stop :
    (self_id : ℕ) (answer : Status) (now : ℕ) (s : IoState)
    → s.start_count ≡ 0
    → let stopped = stop_io self_id self_id s in
      let started = start_io self_id self_id answer now stopped.1 in
      (stopped.0 ≡ no_error)
      × (started.0 ≡ no_error)
      × (started.1.control_calls ≡ s.control_calls)
      × (get_is_running started.1 ≡ false)
unfolding stop_io start_io get_is_running
start_io-unmatched_stop self_id answer now s e = ground arith
