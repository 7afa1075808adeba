-- ===== src/DoubleBuffer/Tests.antt =====
-- The double buffer's theorems in concrete states.
use lib_aspl.Prelude.{ℕ, ◌≤◌, ◌≡◌, refl, false, some, arith}
use lib_aspl.DoubleBuffer.{
  entered, outside, started, loaded, checking, reading, update, System, Step, enter, call, load,
  try_lock, accept, constructed, Reach, start, later,
}
use lib_aspl.DoubleBuffer.Invariant.{Inv, Reach-Inv, constructed-Inv}
use lib_aspl.DoubleBuffer.Safety.{reading_value}
use lib_aspl.DoubleBuffer.Setter.{SetDone, set_completes}
use lib_aspl.DoubleBuffer.Progress.{Progress, getter_progress}

-- Getter 0 is called, and takes its four steps to the value 7.
abbrev called : System ℕ
called = record (constructed 7) { getters = update (λ j. outside) 0 (started 1) }

abbrev index_loaded : System ℕ
index_loaded = record called { getters = update called.getters 0 (loaded 1 1) }

abbrev share_locked : System ℕ
share_locked = record index_loaded { getters = update index_loaded.getters 0 (checking 1 1) }

abbrev inside : System ℕ
inside = record share_locked { getters = update share_locked.getters 0 (reading 1 1) }

called_reached : Reach false (constructed 7) called
called_reached = later start (call 0 refl)

inside_reached : Reach false (constructed 7) inside
inside_reached =
    later (later (later called_reached (load 0 1 refl)) (try_lock 0 1 1 refl (λ e. cc)))
      (accept 0 1 1 refl refl)

-- A setter comes in meanwhile.
abbrev overtaken : System ℕ
overtaken = record inside { setter = entered 8 1; log = update (λ c. 7) 2 8 }

set_begins : Step false inside overtaken
set_begins = enter 8 refl

Reach-Inv_example : Inv overtaken
Reach-Inv_example = Reach-Inv (constructed-Inv 7) (later inside_reached set_begins) (omega arith)

reading_value_example : ((inside.buffers 1).value ≡ some 7) × (1 ≤ 1) × (1 ≤ inside.commits)
reading_value_example = reading_value inside_reached (omega arith) 0 1 1 refl

getter_progress_example : Progress false called 0
getter_progress_example = getter_progress called_reached (omega arith) 0 (λ e. cc)

set_completes_example : SetDone false called 9
set_completes_example = set_completes false called 9 refl (omega arith) (λ j. ground arith)
