-- ===== src/Tracer/Raw.antt =====
-- src/Tracer.cpp: the counters under any calls of one thread.
use lib_aspl.Prelude.{ℕ, ◌≤◌, Bool, List, [], ◌∷◌, arith}
use lib_aspl.Status.{Status}
use lib_aspl.Tracer.{
  Mode, Style, ThreadState, operation_begin, message, operation_end, depth_hard_limit,
}

-- Any calls at all, paired or not.
pub data RawCall : Type 0 where
  begins : (op : ℕ) → RawCall
  tells : (text : ℕ) → RawCall
  finishes : (op : ℕ) → Status → RawCall

module _ (mode : Mode) (style : Style) (should_ignore : ℕ → Bool) where
  abbrev pub raw_step : RawCall → ThreadState → ThreadState
  raw_step (begins op) s = operation_begin mode style should_ignore op s
  raw_step (tells text) s = message mode style should_ignore text s
  raw_step (finishes op status) s = operation_end mode style should_ignore op status s

  abbrev pub raw_run : List RawCall → ThreadState → ThreadState
  raw_run [] s = s
  raw_run (c ∷ cs) s = raw_run cs (raw_step c s)

  abbrev pub IsBounded : ThreadState → Type 0
  IsBounded s = (s.depth_counter ≤ depth_hard_limit) × (s.ignore_counter ≤ s.depth_counter)

  raw_step-IsBounded : (c : RawCall) (s : ThreadState) → IsBounded s → IsBounded (raw_step c s)
  unfolding operation_begin message operation_end
  raw_step-IsBounded (begins op) s b = (ground (arith, b.0, b.1), ground (arith, b.0, b.1))
  raw_step-IsBounded (tells text) s b = (ground (arith, b.0, b.1), ground (arith, b.0, b.1))
  raw_step-IsBounded (finishes op status) s b = (ground (arith, b.0, b.1), ground (arith, b.0, b.1))

  -- From counters within bounds, any calls, paired or not, keep the depth within the hard limit and
  -- the depth at which operations are ignored within the depth.
  pub raw_run-IsBounded :
      (cs : List RawCall) (s : ThreadState) → IsBounded s → IsBounded (raw_run cs s)
  raw_run-IsBounded [] s b = b
  raw_run-IsBounded (c ∷ cs) s b = raw_run-IsBounded cs (raw_step c s) (raw_step-IsBounded c s b)
