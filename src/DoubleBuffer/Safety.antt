-- ===== src/DoubleBuffer/Safety.antt =====
-- include/aspl/DoubleBuffer.hpp: what the class promises, in every reachable state.
use lib_aspl.Prelude.{ℕ, ◌-◌, ◌≤◌, ◌<◌, ◌≡◌, refl, Bool, some, arith}
use lib_aspl.DoubleBuffer.{
  max_index, next_index, slot, reading, System, Step, enter, switch, constructed, Reach, later,
}
use lib_aspl.DoubleBuffer.Invariant.{commits_mono, constructed-Inv, Reach-Inv}

-- From an index in range, the next index is in range and names the other buffer, also where the
-- index wraps round.
pub next_index_lem :
    (old : ℕ)
    → old ≤ max_index
    → (slot (next_index old) ≡ 1 - slot old) × (next_index old ≤ max_index)
next_index_lem old h = ground arith

module _ {V : Type 0} {trivial : Bool} {v : V} {s : System V} (r : Reach trivial (constructed v) s)
    (few : s.commits < max_index) where
  -- In every state reached with fewer sets than there are indices, a getter that has its lock sees
  -- a value, never an empty buffer, and it is the value of a set that is no older than the one that
  -- was current when the getter was called.
  pub reading_value :
      (j k i : ℕ)
      → s.getters j ≡ reading k i
      → ((s.buffers (slot i)).value ≡ some (s.log i)) × (k ≤ i) × (i ≤ s.commits)
  reading_value j k i e = ground (arith, (Reach-Inv (constructed-Inv v) r few).known j)

log-Step :
    {V : Type 0} {trivial : Bool} {s t : System V}
    → Step trivial s t
    → (i : ℕ) → i ≤ s.commits
    → t.log i ≡ s.log i
log-Step (enter v e) i h = ground arith
log-Step (switch old e) i h = refl
log-Step _ i h = refl

module _ {V : Type 0} {trivial : Bool} {v : V} {s t : System V}
    (r : Reach trivial (constructed v) s) (st : Step trivial s t)
    (few : t.commits < max_index) where
  -- With fewer sets than there are indices, no step of anyone changes the value of the buffer under
  -- a getter that keeps its lock over the step.
  pub reading_stable :
      (j k i : ℕ)
      → s.getters j ≡ reading k i
      → t.getters j ≡ reading k i
      → (t.buffers (slot i)).value ≡ (s.buffers (slot i)).value
  reading_stable j k i e e' =
      let before = reading_value r (omega (arith, commits_mono st)) j k i e in
      let after = reading_value (later r st) few j k i e' in ground (arith, log-Step st i)
