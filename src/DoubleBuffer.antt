-- ===== src/DoubleBuffer.antt =====
-- include/aspl/DoubleBuffer.hpp: getters and setters over one double buffer, interleaved in any
-- order, one access to shared memory at a time. All atomics are sequentially consistent.
pub mod Invariant
pub mod Safety
pub mod Setter
pub mod Progress
mod Tests
use lib_aspl.Prelude.{
  ℕ, ◌+◌, ◌-◌, ◌%◌, ◌^◌, ◌≡◌, ◌≢◌, Bool, true, false, Option, none, some, ltb, ◌==◌, if◌then◌else◌,
}

-- `Buffer`; the index -1 is `none`. Who holds `mutex` is read off the threads.
pub record Buffer (V : Type 0) : Type 0 where
  pub value : Option V
  pub index : Option ℕ

-- `std::numeric_limits<BufferIndex>::max()`
abbrev pub max_index : ℕ
max_index = 2 ^ 63 - 1

abbrev pub next_index : ℕ → ℕ
next_index old = if ltb old max_index then old + 1 else 0

-- `GetBufferAt`
abbrev pub slot : ℕ → ℕ
slot index = index % 2

-- Where the setter that owns `writeMutex_` stands in `Set`, with the old index. `idle`: nobody owns
-- the mutex. Setters that wait for the mutex have done nothing yet, and are not represented.
pub data SetterPc (V : Type 0) : Type 0 where
  idle : SetterPc V
  entered : V → ℕ → SetterPc V
  marked : V → ℕ → SetterPc V
  locked : V → ℕ → SetterPc V
  written : ℕ → SetterPc V
  unlocked : ℕ → SetterPc V
  switched : ℕ → SetterPc V
  invalidated : ℕ → SetterPc V
  locked_old : ℕ → SetterPc V
  emptied : ℕ → SetterPc V

-- Where a getter stands in the constructor of `ReadLock` and after it. The first number records how
-- many values had been set when the getter was called; the second is `currentIndex`.
pub data GetterPc : Type 0 where
  outside : GetterPc
  started : ℕ → GetterPc
  loaded : ℕ → ℕ → GetterPc
  checking : ℕ → ℕ → GetterPc
  rejected : ℕ → ℕ → GetterPc
  reading : ℕ → ℕ → GetterPc

abbrev pub update : {A : Type 0} → (ℕ → A) → ℕ → A → ℕ → A
update f i a j = if j == i then a else f j

-- `commits` counts the switches of `currentIndex_`, and `log` holds the value of each; the code has
-- neither, and no step depends on them.
pub record System (V : Type 0) : Type 0 where
  pub current : ℕ
  pub buffers : ℕ → Buffer V
  pub setter : SetterPc V
  pub getters : ℕ → GetterPc
  pub commits : ℕ
  pub log : ℕ → V

-- The buffer whose `mutex` the getter holds shared.
abbrev pub holds : GetterPc → Option ℕ
holds (checking k i) = some (slot i)
holds (rejected k i) = some (slot i)
holds (reading k i) = some (slot i)
holds _ = none

-- The buffer whose `mutex` the setter holds.
abbrev pub owns : {V : Type 0} → SetterPc V → Option ℕ
owns (locked v old) = some (slot (next_index old))
owns (written old) = some (slot (next_index old))
owns (locked_old old) = some (slot old)
owns (emptied old) = some (slot old)
owns _ = none

module _ {V : Type 0} where
  abbrev pub with_index : System V → ℕ → Option ℕ → ℕ → Buffer V
  with_index s b i = update s.buffers b (record (s.buffers b) { index = i })

  abbrev pub with_value : System V → ℕ → Option V → ℕ → Buffer V
  with_value s b v = update s.buffers b (record (s.buffers b) { value = v })

-- One step of the setter or of getter `j`. `trivial` is `std::is_trivial<T>`.
pub data Step {V : Type 0} (trivial : Bool) (s : System V) : System V → Type 0 where
  -- lock writeMutex_; oldIndex = currentIndex_
  enter :
      (v : V)
      → s.setter ≡ idle
      → Step trivial s
          (record s { setter = entered v s.current; log = update s.log (s.commits + 1) v })
  -- newBuffer.index = newIndex
  mark :
      (v : V) (old : ℕ)
      → s.setter ≡ entered v old
      → Step trivial s (record s {
        setter = marked v old;
        buffers = with_index s (slot (next_index old)) (some (next_index old));
      })
  -- unique_lock lock(newBuffer.mutex)
  lock_new :
      (v : V) (old : ℕ)
      → s.setter ≡ marked v old
      → ((j : ℕ) → holds (s.getters j) ≢ some (slot (next_index old)))
      → Step trivial s (record s { setter = locked v old })
  -- newBuffer.value = value
  write :
      (v : V) (old : ℕ)
      → s.setter ≡ locked v old
      → Step trivial s (record s {
        setter = written old;
        buffers = with_value s (slot (next_index old)) (some v);
      })
  unlock_new :
      (old : ℕ) → s.setter ≡ written old → Step trivial s (record s { setter = unlocked old })
  -- currentIndex_ = newIndex
  switch :
      (old : ℕ)
      → s.setter ≡ unlocked old
      → Step trivial s
          (record s { setter = switched old; current = next_index old; commits = s.commits + 1 })
  finish_trivial :
      (old : ℕ)
      → s.setter ≡ switched old
      → trivial ≡ true
      → Step trivial s (record s { setter = idle })
  -- oldBuffer.index = -1
  invalidate :
      (old : ℕ)
      → s.setter ≡ switched old
      → trivial ≡ false
      → Step trivial s
          (record s { setter = invalidated old; buffers = with_index s (slot old) none })
  -- unique_lock lock(oldBuffer.mutex)
  lock_old :
      (old : ℕ)
      → s.setter ≡ invalidated old
      → ((j : ℕ) → holds (s.getters j) ≢ some (slot old))
      → Step trivial s (record s { setter = locked_old old })
  -- oldBuffer.value = {}
  empty :
      (old : ℕ)
      → s.setter ≡ locked_old old
      → Step trivial s (record s { setter = emptied old; buffers = with_value s (slot old) none })
  finish : (old : ℕ) → s.setter ≡ emptied old → Step trivial s (record s { setter = idle })
  call :
      (j : ℕ)
      → s.getters j ≡ outside
      → Step trivial s (record s { getters = update s.getters j (started s.commits) })
  -- currentIndex_.load()
  load :
      (j k : ℕ)
      → s.getters j ≡ started k
      → Step trivial s (record s { getters = update s.getters j (loaded k s.current) })
  -- try_lock_shared() succeeds only while no setter owns the mutex, and may fail at any time.
  try_lock :
      (j k i : ℕ)
      → s.getters j ≡ loaded k i
      → owns s.setter ≢ some (slot i)
      → Step trivial s (record s { getters = update s.getters j (checking k i) })
  try_lock_fails :
      (j k i : ℕ)
      → s.getters j ≡ loaded k i
      → Step trivial s (record s { getters = update s.getters j (started k) })
  -- currentBuffer.index.load() against currentIndex
  accept :
      (j k i : ℕ)
      → s.getters j ≡ checking k i
      → (s.buffers (slot i)).index ≡ some i
      → Step trivial s (record s { getters = update s.getters j (reading k i) })
  reject :
      (j k i : ℕ)
      → s.getters j ≡ checking k i
      → (s.buffers (slot i)).index ≢ some i
      → Step trivial s (record s { getters = update s.getters j (rejected k i) })
  -- unlock_shared() and continue
  retry :
      (j k i : ℕ)
      → s.getters j ≡ rejected k i
      → Step trivial s (record s { getters = update s.getters j (started k) })
  -- ~ReadLock()
  release :
      (j k i : ℕ)
      → s.getters j ≡ reading k i
      → Step trivial s (record s { getters = update s.getters j outside })

-- After the constructor has returned: it has called `Set`, which nobody else could see.
abbrev pub constructed : {V : Type 0} → V → System V
constructed v = record {
  current = 1;
  buffers = λ b.
      if b == 1
      then record { value = some v; index = some 1 }
      else record { value = none; index = none };
  setter = idle;
  getters = λ j. outside;
  commits = 1;
  log = λ c. v;
}

pub data Reach {V : Type 0} (trivial : Bool) (s : System V) : System V → Type 0 where
  start : Reach trivial s s
  later : {t u : System V} → Reach trivial s t → Step trivial t u → Reach trivial s u

-- In the constructor, about to call `Set` with the initial value.
abbrev pub constructing : {V : Type 0} → V → System V
constructing v = record {
  current = 0;
  buffers = λ b. record { value = none; index = none };
  setter = entered v 0;
  getters = λ j. outside;
  commits = 0;
  log = λ c. v;
}
