-- ===== src/DoubleBuffer/Setter.antt =====
-- include/aspl/DoubleBuffer.hpp: a whole call of `Set`, and what becomes of the old value.
use lib_aspl.Prelude.{
  ℕ, ◌+◌, ◌-◌, ◌≤◌, ◌<◌, ◌≡◌, ◌≢◌, refl, ◌∙◌, Bool, true, false, none, some, arith,
}
use lib_aspl.DoubleBuffer.{
  Buffer, max_index, next_index, slot, SetterPc, idle, entered, marked, locked, switched, emptied,
  update, System, holds, Step, enter, mark, lock_new, write, unlock_new, switch, finish_trivial,
  invalidate, lock_old, empty, finish, constructed, constructing, Reach, start, later,
}
use lib_aspl.DoubleBuffer.Safety.{next_index_lem}
use lib_aspl.DoubleBuffer.Invariant.{Inv, guard, commits_mono, constructed-Inv, Reach-Inv}

-- Of a type with a destructor, the value that getters no longer see is gone before the setter
-- returns.
abbrev IsDropped : {V : Type 0} → Buffer V → SetterPc V → Type 0
IsDropped b idle = b.value ≡ none
IsDropped b (entered v old) = b.value ≡ none
IsDropped b (marked v old) = b.value ≡ none
IsDropped b (locked v old) = b.value ≡ none
IsDropped b (emptied old) = b.value ≡ none
IsDropped b _ = Unit

module _ {V : Type 0} where
  abbrev Dropped : System V → Type 0
  Dropped s = IsDropped (s.buffers (slot (s.commits + 1))) s.setter

  Step-Dropped :
      {s t : System V} → Inv s → Step false s t → t.commits < max_index → Dropped s → Dropped t
  Step-Dropped inv (enter v e) few d = ground arith
  Step-Dropped inv (finish_trivial old e h) few d = cc
  Step-Dropped inv st few d = ground (arith, guard st, inv.hidden)

  Reach-Dropped :
      {v : V} {s : System V} → Reach false (constructed v) s → s.commits < max_index → Dropped s
  Reach-Dropped start few = refl
  Reach-Dropped {v} (later {t = m} r st) few =
      let before : m.commits < max_index = omega (arith, commits_mono st) in
      Step-Dropped (Reach-Inv (constructed-Inv v) r before) st few (Reach-Dropped r before)

  -- For a type that is not trivial, with fewer sets than there are indices: when no setter is
  -- inside `Set`, the current buffer stores the value that was set last, and the other buffer none.
  pub old_value_destroyed :
      {v : V} {s : System V}
      → Reach false (constructed v) s
      → s.commits < max_index
      → s.setter ≡ idle
      → ((s.buffers (slot s.current)).value ≡ some (s.log s.commits))
        × ((s.buffers (1 - slot s.current)).value ≡ none)
  old_value_destroyed {v} {s} r few e =
      let inv = Reach-Inv (constructed-Inv v) r few in
      let other : 1 - slot s.commits ≡ slot (s.commits + 1) = omega arith in
      rw (inv.synced, other) (inv.shown_value, ground (arith, Reach-Dropped r few))

-- The outcome of a call of `Set` with value `v` in state `s`.
pub record SetDone {V : Type 0} (trivial : Bool) (s : System V) (v : V) : Type 0 where
  pub last : System V
  pub reach : Reach trivial s last
  pub returned : last.setter ≡ idle
  pub moved_on : last.current ≡ next_index s.current
  pub shows :
      last.buffers (slot last.current) ≡ record { value = some v; index = some last.current }
  pub getters_kept : last.getters ≡ s.getters

module _ {V : Type 0} {s : System V} (v : V) (quiet : (j : ℕ) → holds (s.getters j) ≡ none)
    (old : ℕ) (e : s.setter ≡ entered v old) where
  -- Up to the switch of `currentIndex_` the code is the same for every type.
  up_to_switch :
      (trivial : Bool)
      → (t : System V) × Reach trivial s t
        × (t.setter ≡ switched old)
        × (t.current ≡ next_index old)
        × (t.buffers (slot (next_index old))
            ≡ record { value = some v; index = some (next_index old) })
        × (t.getters ≡ s.getters)
  up_to_switch trivial = (
    _,
    later
        (later
          (later
            (later (later start (mark v old e))
              (lock_new v old refl (λ j. ground (arith, quiet j))))
            (write v old refl))
          (unlock_new old refl))
        (switch old refl),
    refl,
    refl,
    ground arith,
    refl,
  )

Reach-trans :
    {V : Type 0} {trivial : Bool} {s t u : System V}
    → Reach trivial s t
    → Reach trivial t u
    → Reach trivial s u
Reach-trans r start = r
Reach-trans r (later q st) = later (Reach-trans r q) st

module _ {V : Type 0} where
  -- After the switch: the old value is dropped, if its type has a destructor.
  after_switch :
      (trivial : Bool) (t : System V) (old : ℕ)
      → ((j : ℕ) → holds (t.getters j) ≡ none)
      → t.setter ≡ switched old
      → (u : System V) × Reach trivial t u
        × (u.setter ≡ idle)
        × (u.current ≡ t.current)
        × ((b : ℕ) → b ≢ slot old → u.buffers b ≡ t.buffers b)
        × (u.getters ≡ t.getters)
  after_switch true t old quiet e =
      (_, later start (finish_trivial old e refl), refl, refl, λ b h. refl, refl)
  after_switch false t old quiet e = (
    _,
    later
        (later
          (later (later start (invalidate old e refl))
            (lock_old old refl (λ j. ground (arith, quiet j))))
          (empty old refl))
        (finish old refl),
    refl,
    refl,
    λ b h. ground arith,
    refl,
  )

  -- The two halves of the call, put together.
  assemble :
      {trivial : Bool} {s : System V} (t u : System V) (v : V) (old : ℕ)
      → Reach trivial s t
      → t.current ≡ next_index old
      → t.buffers (slot (next_index old)) ≡ record { value = some v; index = some (next_index old) }
      → t.getters ≡ s.getters
      → Reach trivial t u
      → u.setter ≡ idle
      → u.current ≡ t.current
      → ((b : ℕ) → b ≢ slot old → u.buffers b ≡ t.buffers b)
      → u.getters ≡ t.getters
      → s.current ≡ old
      → old ≤ max_index
      → SetDone trivial s v
  assemble t u v old r current shows kept q done same others still now fits =
      let here : u.current ≡ next_index old = same ∙ current in
      record {
        last = u;
        reach = Reach-trans r q;
        returned = done;
        moved_on = rw now here;
        shows =
            rw here
              (others (slot (next_index old)) (ground (arith, next_index_lem old fits)) ∙ shows);
        getters_kept = still ∙ kept;
      }

  set_from_entered :
      (trivial : Bool) (s : System V) (v : V) (old : ℕ)
      → ((j : ℕ) → holds (s.getters j) ≡ none)
      → s.setter ≡ entered v old
      → s.current ≡ old
      → old ≤ max_index
      → SetDone trivial s v
  set_from_entered trivial s v old quiet e now fits =
      let (t, r, pc, current, shows, kept) = up_to_switch v quiet old e trivial in
      let (u, q, done, same, others, still) =
        after_switch trivial t old (λ j. rw kept (quiet j)) pc in
      assemble t u v old r current shows kept q done same others still now fits

  -- From a state in which no setter is inside `Set` and no getter holds a lock, a call of `Set` can
  -- run to its end, whether or not the type is trivial: it leaves the new value as the current one
  -- under the next index, and the getters where they were.
  pub set_completes :
      (trivial : Bool) (s : System V) (v : V)
      → s.setter ≡ idle
      → s.current ≤ max_index
      → ((j : ℕ) → holds (s.getters j) ≡ none)
      → SetDone trivial s v
  set_completes trivial s v e fits quiet =
      let rest =
        set_from_entered trivial
          (record s { setter = entered v s.current; log = update s.log (s.commits + 1) v }) v
          s.current quiet refl refl fits in
      record {
        last = rest.last;
        reach = Reach-trans (later start (enter v e)) rest.reach;
        returned = rest.returned;
        moved_on = rest.moved_on;
        shows = rest.shows;
        getters_kept = rest.getters_kept;
      }

  -- The constructor, which calls `Set` on fresh members, ends with its argument as the value.
  pub constructor_completes : (trivial : Bool) (v : V) → SetDone trivial (constructing v) v
  constructor_completes trivial v =
      set_from_entered trivial (constructing v) v 0 (λ j. refl) refl refl (omega arith)
