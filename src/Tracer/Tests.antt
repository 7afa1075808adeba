-- ===== src/Tracer/Tests.antt =====
-- A short trace, and the theorems at it.
use lib_aspl.Prelude.{ℕ, ◌≡◌, refl, Bool, [], arith, ◌==◌}
use lib_aspl.Status.{no_error}
use lib_aspl.Tracer.{stderr, hierarchical, ThreadState}
use lib_aspl.Tracer.Nesting.{Calls, done, says, operates, height, trace, lines, trace-lines}

abbrev fresh : ThreadState
fresh = record { depth_counter = 0; ignore_counter = 0; printed = [] }

abbrev quiet : ℕ → Bool
quiet op = op == 2

-- Operation 1, which says 10 and calls operation 2, which says 11.
abbrev calls : Calls
calls = operates 1 no_error (says 10 (operates 2 no_error (says 11 done) done)) done

trace-lines_example :
    trace stderr hierarchical quiet calls fresh
    ≡ record fresh { printed = lines stderr hierarchical quiet 0 calls }
unfolding height
trace-lines_example = trace-lines stderr hierarchical quiet refl calls fresh refl (omega arith)
