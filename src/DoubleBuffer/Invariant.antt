-- ===== src/DoubleBuffer/Invariant.antt =====
-- include/aspl/DoubleBuffer.hpp: what holds in every state.
use lib_aspl.Prelude.{ℕ, ◌+◌, ◌-◌, ◌≤◌, ◌<◌, ◌≡◌, ◌≢◌, refl, ◌⊎◌, inl, Bool, none, some, arith}
use lib_aspl.DoubleBuffer.{
  Buffer, max_index, next_index, slot, SetterPc, idle, entered, marked, locked, written, unlocked,
  switched, invalidated, locked_old, emptied, GetterPc, outside, started, loaded, checking,
  rejected, reading, System, holds, owns, Step, enter, mark, lock_new, write, unlock_new, switch,
  finish_trivial, invalidate, lock_old, empty, finish, call, load, try_lock, try_lock_fails, accept,
  reject, retry, release, constructed, Reach, start, later,
}

module _ {V : Type 0} where
  -- The buffer that getters do not see, when no setter has claimed it yet, or any more: it has no
  -- index, or still shows the value before the current one.
  abbrev pub IsPrevious : ℕ → (ℕ → V) → Buffer V → Type 0
  IsPrevious c log b =
      (b.index ≡ none) ⊎ ((b.index ≡ some (c - 1)) × (b.value ≡ some (log (c - 1))))

  abbrev pub IsHidden : ℕ → (ℕ → V) → Buffer V → SetterPc V → Type 0
  IsHidden c log b idle = IsPrevious c log b
  IsHidden c log b (entered v old) = IsPrevious c log b × (old ≡ c) × (log (c + 1) ≡ v)
  IsHidden c log b (marked v old) = (b.index ≡ some (c + 1)) × (old ≡ c) × (log (c + 1) ≡ v)
  IsHidden c log b (locked v old) = (b.index ≡ some (c + 1)) × (old ≡ c) × (log (c + 1) ≡ v)
  IsHidden c log b (written old) =
      (b.index ≡ some (c + 1)) × (old ≡ c) × (b.value ≡ some (log (c + 1)))
  IsHidden c log b (unlocked old) =
      (b.index ≡ some (c + 1)) × (old ≡ c) × (b.value ≡ some (log (c + 1)))
  IsHidden c log b (switched old) = IsPrevious c log b × (old + 1 ≡ c)
  IsHidden c log b (invalidated old) = (b.index ≡ none) × (old + 1 ≡ c)
  IsHidden c log b (locked_old old) = (b.index ≡ none) × (old + 1 ≡ c)
  IsHidden c log b (emptied old) = (b.index ≡ none) × (old + 1 ≡ c)

  -- What a getter knows: its index was current after it was called, and once accepted the value of
  -- that index is there.
  abbrev pub Knows : System V → GetterPc → Type 0
  Knows s outside = Unit
  Knows s (started k) = k ≤ s.commits
  Knows s (loaded k i) = (k ≤ i) × (i ≤ s.commits)
  Knows s (checking k i) = (k ≤ i) × (i ≤ s.commits)
  Knows s (rejected k i) = (k ≤ i) × (i ≤ s.commits)
  Knows s (reading k i) = (k ≤ i) × (i ≤ s.commits) × ((s.buffers (slot i)).value ≡ some (s.log i))

  pub record Inv (s : System V) : Type 0 where
    pub some_set : 0 < s.commits
    pub synced : s.current ≡ s.commits
    pub shown_index : (s.buffers (slot s.commits)).index ≡ some s.commits
    pub shown_value : (s.buffers (slot s.commits)).value ≡ some (s.log s.commits)
    pub hidden : IsHidden s.commits s.log (s.buffers (slot (s.commits + 1))) s.setter
    pub known : (j : ℕ) → Knows s (s.getters j)
    pub exclusive : (j b : ℕ) → owns s.setter ≡ some b → holds (s.getters j) ≢ some b

  -- The premises of a step, for the catch-all clauses below, which cannot name them.
  abbrev pub Guard : {trivial : Bool} {s t : System V} → Step trivial s t → Type 0
  Guard {s} (enter v e) = s.setter ≡ idle
  Guard {s} (mark v old e) = s.setter ≡ entered v old
  Guard {s} (lock_new v old e h) = s.setter ≡ marked v old
  Guard {s} (write v old e) = s.setter ≡ locked v old
  Guard {s} (unlock_new old e) = s.setter ≡ written old
  Guard {s} (switch old e) = s.setter ≡ unlocked old
  Guard {s} (finish_trivial old e h) = s.setter ≡ switched old
  Guard {s} (invalidate old e h) = s.setter ≡ switched old
  Guard {s} (lock_old old e h) = s.setter ≡ invalidated old
  Guard {s} (empty old e) = s.setter ≡ locked_old old
  Guard {s} (finish old e) = s.setter ≡ emptied old
  Guard {s} (call j e) = s.getters j ≡ outside
  Guard {s} (load j k e) = s.getters j ≡ started k
  Guard {s} (try_lock j k i e h) = (s.getters j ≡ loaded k i) × (owns s.setter ≢ some (slot i))
  Guard {s} (try_lock_fails j k i e) = s.getters j ≡ loaded k i
  Guard {s} (accept j k i e h) =
      (s.getters j ≡ checking k i) × ((s.buffers (slot i)).index ≡ some i)
  Guard {s} (reject j k i e h) = s.getters j ≡ checking k i
  Guard {s} (retry j k i e) = s.getters j ≡ rejected k i
  Guard {s} (release j k i e) = s.getters j ≡ reading k i

  pub guard : {trivial : Bool} {s t : System V} (st : Step trivial s t) → Guard st
  guard (enter v e) = e
  guard (mark v old e) = e
  guard (lock_new v old e h) = e
  guard (write v old e) = e
  guard (unlock_new old e) = e
  guard (switch old e) = e
  guard (finish_trivial old e h) = e
  guard (invalidate old e h) = e
  guard (lock_old old e h) = e
  guard (empty old e) = e
  guard (finish old e) = e
  guard (call j e) = e
  guard (load j k e) = e
  guard (try_lock j k i e h) = (e, h)
  guard (try_lock_fails j k i e) = e
  guard (accept j k i e h) = (e, h)
  guard (reject j k i e h) = e
  guard (retry j k i e) = e
  guard (release j k i e) = e

  module _ {trivial : Bool} {s : System V} (inv : Inv s) where
    open inv use {some_set, synced, shown_index, shown_value, hidden, known, exclusive}

    Step-some_set : {t : System V} → Step trivial s t → 0 < t.commits
    Step-some_set (enter v e) = some_set
    Step-some_set (switch old e) = omega arith
    Step-some_set _ = some_set

    Step-synced : {t : System V} → Step trivial s t → t.commits < max_index → t.current ≡ t.commits
    Step-synced (enter v e) few = synced
    Step-synced (switch old e) few = ground arith
    Step-synced _ few = synced

    Step-shown_index :
        {t : System V}
        → Step trivial s t
        → t.commits < max_index
        → (t.buffers (slot t.commits)).index ≡ some t.commits
    Step-shown_index (enter v e) few = shown_index
    Step-shown_index st few = ground (arith, guard st)

    Step-shown_value :
        {t : System V}
        → Step trivial s t
        → t.commits < max_index
        → (t.buffers (slot t.commits)).value ≡ some (t.log t.commits)
    Step-shown_value (enter v e) few = ground arith
    Step-shown_value st few = ground (arith, guard st)

    Step-IsHidden :
        {t : System V}
        → Step trivial s t
        → t.commits < max_index
        → IsHidden t.commits t.log (t.buffers (slot (t.commits + 1))) t.setter
    Step-IsHidden (enter v e) few = ground arith
    Step-IsHidden st few = ground (arith, guard st)

    Step-known :
        {t : System V} → Step trivial s t → t.commits < max_index → (j : ℕ) → Knows t (t.getters j)
    Step-known (enter v e) few j = ground (arith, known j)
    Step-known (write v old e) few j = ground (arith, known j, exclusive j (slot (next_index old)))
    Step-known (empty old e) few j = ground (arith, known j, exclusive j (slot old))
    Step-known st few j = ground (arith, guard st, known j)

    Step-exclusive :
        {t : System V}
        → Step trivial s t
        → t.commits < max_index
        → (j b : ℕ) → owns t.setter ≡ some b
        → holds (t.getters j) ≢ some b
    Step-exclusive (enter v e) few j b h = ground arith
    Step-exclusive (lock_new v old e h) few j b q = ground (arith, h j)
    Step-exclusive (lock_old old e h) few j b q = ground (arith, h j)
    Step-exclusive st few j b q = ground (arith, guard st, exclusive j b)

    -- Every step keeps the invariant, as long as the index has not wrapped round.
    pub Step-Inv : {t : System V} → Step trivial s t → t.commits < max_index → Inv t
    Step-Inv st few = record {
      some_set = Step-some_set st;
      synced = Step-synced st few;
      shown_index = Step-shown_index st few;
      shown_value = Step-shown_value st few;
      hidden = Step-IsHidden st few;
      known = Step-known st few;
      exclusive = Step-exclusive st few;
    }

  pub commits_mono : {trivial : Bool} {s t : System V} → Step trivial s t → s.commits ≤ t.commits
  commits_mono (enter v e) = omega arith
  commits_mono (switch old e) = omega arith
  commits_mono _ = omega arith

  pub constructed-Inv : (v : V) → Inv (constructed v)
  constructed-Inv v = record {
    some_set = omega arith;
    synced = refl;
    shown_index = refl;
    shown_value = refl;
    hidden = inl refl;
    known = λ j. tt;
    exclusive = λ j b h. ground arith;
  }

  -- From a state that satisfies the invariant, every state reached with fewer sets than there are
  -- indices satisfies it.
  pub Reach-Inv :
      {trivial : Bool} {s t : System V} → Inv s → Reach trivial s t → t.commits < max_index → Inv t
  Reach-Inv inv start few = inv
  Reach-Inv inv (later r st) few =
      Step-Inv (Reach-Inv inv r (omega (arith, commits_mono st))) st few
