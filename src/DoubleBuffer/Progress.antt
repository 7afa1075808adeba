-- ===== src/DoubleBuffer/Progress.antt =====
-- include/aspl/DoubleBuffer.hpp: getters are lock-free.
use lib_aspl.Prelude.{ℕ, ◌<◌, ◌≡◌, ◌≢◌, refl, Bool, Option, some, arith, ℕ_discrete}
use lib_aspl.DoubleBuffer.{
  Buffer, max_index, slot, SetterPc, locked, written, locked_old, emptied, GetterPc, outside,
  started, loaded, checking, rejected, reading, update, System, owns, Step, load, try_lock,
  try_lock_fails, accept, reject, retry, constructed, Reach,
}
use lib_aspl.DoubleBuffer.Invariant.{IsHidden, Step-Inv, Inv, constructed-Inv, Reach-Inv}

abbrev pub moves : {V : Type 0} → System V → ℕ → GetterPc → System V
moves s j p = record s { getters = update s.getters j p }

-- A run in which getter `j` alone takes steps.
pub data Alone {V : Type 0} (trivial : Bool) (j : ℕ) (s : System V) : System V → Type 0 where
  stays : Alone trivial j s s
  moved :
      {t : System V} (p : GetterPc)
      → Alone trivial j s t
      → Step trivial t (moves t j p)
      → Alone trivial j s (moves t j p)

-- Where the getter's own steps can take it, with everyone else suspended.
pub record Progress {V : Type 0} (trivial : Bool) (s : System V) (j : ℕ) : Type 0 where
  pub last : System V
  pub alone : Alone trivial j s last
  pub suspended : last.setter ≡ s.setter
  pub k : ℕ
  pub i : ℕ
  pub got : last.getters j ≡ reading k i

-- The setter never owns the mutex of the buffer that is current.
owns_elsewhere :
    {V : Type 0} (c : ℕ) (log : ℕ → V) (b : Buffer V) (p : SetterPc V)
    → 0 < c
    → c < max_index
    → IsHidden c log b p
    → owns p ≢ some (slot c)
owns_elsewhere c log b (locked v old) pos few h = ground arith
owns_elsewhere c log b (written old) pos few h = ground arith
owns_elsewhere c log b (locked_old old) pos few h = ground arith
owns_elsewhere c log b (emptied old) pos few h = ground arith
owns_elsewhere c log b _ pos few h = λ e. cc

Alone-front :
    {V : Type 0} {trivial : Bool} {j : ℕ} {s : System V} (p : GetterPc) {u : System V}
    → Step trivial s (moves s j p)
    → Alone trivial j (moves s j p) u
    → Alone trivial j s u
Alone-front p st stays = moved p stays st
Alone-front p st (moved q r last) = moved q (Alone-front p st r) last

index_discrete : Discrete (Option ℕ)
index_discrete = hlevel ℕ_discrete

here-moves : {V : Type 0} (s : System V) (j : ℕ) (p : GetterPc) → (moves s j p).getters j ≡ p
here-moves s j p = ground arith

not_owned :
    {V : Type 0} {s : System V}
    → Inv s
    → s.commits < max_index
    → owns s.setter ≢ some (slot s.current)
not_owned {s} inv few =
    rw inv.synced (owns_elsewhere s.commits s.log _ s.setter inv.some_set few inv.hidden)

module _ {V : Type 0} {trivial : Bool} {s : System V} (inv : Inv s) (few : s.commits < max_index)
    (j : ℕ) where
  started-Progress : (k : ℕ) → s.getters j ≡ started k → Progress trivial s j
  started-Progress k e = record {
    last = _;
    alone =
        moved (reading k s.current)
          (moved (checking k s.current) (moved (loaded k s.current) stays (load j k e))
            (try_lock j k s.current (ground arith) (not_owned inv few)))
          (accept j k s.current (ground arith) (ground (arith, inv.synced, inv.shown_index)));
    suspended = refl;
    k = k;
    i = s.current;
    got = ground arith;
  }

  -- A step of the getter before the rest of its way.
  first :
      (p : GetterPc)
      → Step trivial s (moves s j p)
      → Progress trivial (moves s j p) j
      → Progress trivial s j
  first p st rest = record {
    last = rest.last;
    alone = Alone-front p st rest.alone;
    suspended = rest.suspended;
    k = rest.k;
    i = rest.i;
    got = rest.got;
  }

module _ {V : Type 0} {trivial : Bool} {s : System V} (inv : Inv s) (few : s.commits < max_index)
    (j : ℕ) where
  restart : (k : ℕ) → Step trivial s (moves s j (started k)) → Progress trivial s j
  restart k st =
      first inv few j (started k) st
        (started-Progress (Step-Inv inv st few) few j k (here-moves s j (started k)))

  accepted : (k i : ℕ) → Step trivial s (moves s j (reading k i)) → Progress trivial s j
  accepted k i st = record {
    last = _;
    alone = moved (reading k i) stays st;
    suspended = refl;
    k = k;
    i = i;
    got = here-moves s j (reading k i);
  }

module _ {V : Type 0} {trivial : Bool} {s : System V} (inv : Inv s) (few : s.commits < max_index)
    (j : ℕ) where
  rejected-Progress : (k i : ℕ) → s.getters j ≡ rejected k i → Progress trivial s j
  rejected-Progress k i e = restart inv few j k (retry j k i e)

module _ {V : Type 0} {trivial : Bool} {s : System V} (inv : Inv s) (few : s.commits < max_index)
    (j : ℕ) where
  checking-Progress : (k i : ℕ) → s.getters j ≡ checking k i → Progress trivial s j
  checking-Progress k i e = elim (index_discrete (s.buffers (slot i)).index (some i)) [
    | yes same ↦ accepted inv few j k i (accept j k i e same)
    | no other ↦ first inv few j (rejected k i) (reject j k i e other) (
        rejected-Progress (Step-Inv {trivial = trivial} inv (reject j k i e other) few) few j k i
          (here-moves s j (rejected k i)))
  ]

module _ {V : Type 0} {trivial : Bool} {s : System V} (inv : Inv s) (few : s.commits < max_index)
    (j : ℕ) where
  loaded-Progress : (k i : ℕ) → s.getters j ≡ loaded k i → Progress trivial s j
  loaded-Progress k i e = elim (index_discrete (owns s.setter) (some (slot i))) [
    | yes busy ↦ restart inv few j k (try_lock_fails j k i e)
    | no available ↦ first inv few j (checking k i) (try_lock j k i e available) (
        checking-Progress (Step-Inv {trivial = trivial} inv (try_lock j k i e available) few) few j
          k i (here-moves s j (checking k i)))
  ]

  by_pc : (p : GetterPc) → s.getters j ≡ p → p ≢ outside → Progress trivial s j
  by_pc outside e h = absurd (h refl)
  by_pc (started k) e h = started-Progress inv few j k e
  by_pc (loaded k i) e h = loaded-Progress k i e
  by_pc (checking k i) e h = checking-Progress inv few j k i e
  by_pc (rejected k i) e h = rejected-Progress inv few j k i e
  by_pc (reading k i) e h = record {
    last = s;
    alone = stays;
    suspended = refl;
    k = k;
    i = i;
    got = e;
  }

-- No setter can hold up a getter: in every state reached with fewer sets than there are indices,
-- wherever the setter is suspended, a getter that has been called comes to reading by steps of its
-- own alone.
pub getter_progress :
    {V : Type 0} {trivial : Bool} {v : V} {s : System V}
    → Reach trivial (constructed v) s
    → s.commits < max_index
    → (j : ℕ) → s.getters j ≢ outside
    → Progress trivial s j
getter_progress {v = v} {s = s} r few j h =
    by_pc (Reach-Inv (constructed-Inv v) r few) few j (s.getters j) refl h
