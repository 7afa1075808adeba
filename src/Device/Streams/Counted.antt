-- ===== src/Device/Streams/Counted.antt =====
-- src/Device.cpp: the counters of streams, which decide on the IO operations, against the lists.
use mathlib.Core.Path.{subst}
use lib_aspl.Prelude.{
  ℕ, zero, suc, ◌+◌, ◌%◌, ◌^◌, ◌≡◌, refl, Bool, true, false, none, some, List, [], ◌∷◌, ◌++◌,
  if◌then◌else◌, ◌==◌, length, length-append, arith, get_elem?, Option-cases, inl, inr, sym,
}
use lib_aspl.Device.Streams.{
  Direction, input, output, StreamChange, counts_up, counts_down, StreamTable, without,
  apply_change, request_change, list_stream, unlist_stream, add_stream_async, remove_stream_async,
  streams,
}

-- How often a stream stands in a list.
unfoldable pub standing : ℕ → List ℕ → ℕ
standing x [] = 0
standing x (y ∷ ys) = (if y == x then 1 else 0) + standing x ys

length-without : (x : ℕ) (xs : List ℕ) → length (without x xs) + standing x xs ≡ length xs
unfolding standing
length-without x [] = refl
length-without x (y ∷ ys) = ground (arith, length-without x ys)

abbrev pub num_streams : Direction → StreamTable → ℕ
num_streams input s = s.num_input_streams
num_streams output s = s.num_output_streams

-- The HAL's performance of the waiting change at a position, which takes it out of the queue.
abbrev pub drop_at : ℕ → List StreamChange → List StreamChange
drop_at i [] = []
drop_at zero (c ∷ cs) = cs
drop_at (suc i) (c ∷ cs) = c ∷ drop_at i cs

pub data StreamEvent : Type 0 where
  adds_stream : (enqueues : Bool) (stream : ℕ) → StreamEvent
  removes_stream : (enqueues : Bool) (stream : ℕ) → StreamEvent
  performs_change : (position : ℕ) → StreamEvent

module _ (direction : ℕ → Direction) (id : ℕ → ℕ) where
  abbrev pub is_of : Direction → ℕ → Bool
  is_of input stream = elim (direction stream) [ input ↦ true | output ↦ false ]
  is_of output stream = elim (direction stream) [ input ↦ false | output ↦ true ]

  -- The changes that wait and count a direction up, or down.
  unfoldable pub ups : Direction → List StreamChange → ℕ
  ups dir [] = 0
  ups dir (counts_up stream ∷ cs) = (if is_of dir stream then 1 else 0) + ups dir cs
  ups dir (counts_down stream ∷ cs) = ups dir cs

  unfoldable pub downs : Direction → List StreamChange → ℕ
  downs dir [] = 0
  downs dir (counts_up stream ∷ cs) = downs dir cs
  downs dir (counts_down stream ∷ cs) = (if is_of dir stream then 1 else 0) + downs dir cs

  ups-append :
      (dir : Direction) (cs : List StreamChange) (c : StreamChange)
      → ups dir (cs ++ c ∷ []) ≡ ups dir cs + ups dir (c ∷ [])
  unfolding ups
  ups-append dir [] c = ground arith
  ups-append dir (counts_up stream ∷ cs) c = ground (arith, ups-append dir cs c)
  ups-append dir (counts_down stream ∷ cs) c = ups-append dir cs c

  downs-append :
      (dir : Direction) (cs : List StreamChange) (c : StreamChange)
      → downs dir (cs ++ c ∷ []) ≡ downs dir cs + downs dir (c ∷ [])
  unfolding downs
  downs-append dir [] c = ground arith
  downs-append dir (counts_up stream ∷ cs) c = downs-append dir cs c
  downs-append dir (counts_down stream ∷ cs) c = ground (arith, downs-append dir cs c)

  abbrev pub perform_at : (position : ℕ) → StreamTable → StreamTable
  perform_at i s = elim (get_elem? s.pending i) [
    | none ↦ s
    | some change ↦ apply_change direction id change (record s { pending = drop_at i s.pending })
  ]

  abbrev pub stream_step : StreamEvent → StreamTable → StreamTable
  stream_step (adds_stream enqueues stream) s =
      add_stream_async direction id enqueues (some stream) s
  stream_step (removes_stream enqueues stream) s =
      remove_stream_async direction id enqueues (some stream) s
  stream_step (performs_change i) s = perform_at i s

  abbrev pub stream_run : List StreamEvent → StreamTable → StreamTable
  stream_run [] s = s
  stream_run (e ∷ es) s = stream_run es (stream_step e s)

  -- A stream is removed only while it is listed once.
  abbrev pub IsUsed : List StreamEvent → StreamTable → Type 0
  IsUsed [] s = Unit
  IsUsed (adds_stream enqueues stream ∷ es) s =
      IsUsed es (stream_step (adds_stream enqueues stream) s)
  IsUsed (removes_stream enqueues stream ∷ es) s =
      (standing stream (streams (direction stream) s) ≡ 1)
      × IsUsed es (stream_step (removes_stream enqueues stream) s)
  IsUsed (performs_change i ∷ es) s = IsUsed es (stream_step (performs_change i) s)

  -- The counter of a direction and what waits make up the streams that are listed, modulo 2 ^ 32.
  abbrev pub IsCounted : Direction → StreamTable → Type 0
  IsCounted dir s =
      (num_streams dir s + ups dir s.pending) % 2 ^ 32
      ≡ (length (streams dir s) + downs dir s.pending) % 2 ^ 32

  apply_change-IsCounted :
      (dir : Direction) (c : StreamChange) (s : StreamTable)
      → (num_streams dir s + ups dir (c ∷ s.pending)) % 2 ^ 32
        ≡ (length (streams dir s) + downs dir (c ∷ s.pending)) % 2 ^ 32
      → IsCounted dir (apply_change direction id c s)
  unfolding apply_change ups downs
  apply_change-IsCounted input (counts_up stream) s h = ground (arith, h)
  apply_change-IsCounted input (counts_down stream) s h = ground (arith, h)
  apply_change-IsCounted output (counts_up stream) s h = ground (arith, h)
  apply_change-IsCounted output (counts_down stream) s h = ground (arith, h)

  request_change-IsCounted :
      (dir : Direction) (enqueues : Bool) (c : StreamChange) (s : StreamTable)
      → (num_streams dir s + ups dir (c ∷ s.pending)) % 2 ^ 32
        ≡ (length (streams dir s) + downs dir (c ∷ s.pending)) % 2 ^ 32
      → IsCounted dir (request_change direction id enqueues c s)
  unfolding ups downs
  request_change-IsCounted dir false c s h = apply_change-IsCounted dir c s h
  request_change-IsCounted input true (counts_up stream) s h = ground (
    arith,
    h,
    ups-append input s.pending (counts_up stream),
    downs-append input s.pending (counts_up stream),
  )
  request_change-IsCounted output true (counts_up stream) s h = ground (
    arith,
    h,
    ups-append output s.pending (counts_up stream),
    downs-append output s.pending (counts_up stream),
  )
  request_change-IsCounted input true (counts_down stream) s h = ground (
    arith,
    h,
    ups-append input s.pending (counts_down stream),
    downs-append input s.pending (counts_down stream),
  )
  request_change-IsCounted output true (counts_down stream) s h = ground (
    arith,
    h,
    ups-append output s.pending (counts_down stream),
    downs-append output s.pending (counts_down stream),
  )

  drop_at-counts :
      (dir : Direction) (i : ℕ) (cs : List StreamChange) (c : StreamChange)
      → get_elem? cs i ≡ some c
      → (ups dir cs ≡ ups dir (c ∷ drop_at i cs)) × (downs dir cs ≡ downs dir (c ∷ drop_at i cs))
  unfolding ups downs
  drop_at-counts dir i [] c e = cc
  drop_at-counts dir zero (d ∷ cs) c e = ground (arith, e)
  drop_at-counts dir (suc i) (counts_up t ∷ cs) (counts_up u) e =
      ground (arith, drop_at-counts dir i cs (counts_up u) e)
  drop_at-counts dir (suc i) (counts_up t ∷ cs) (counts_down u) e =
      ground (arith, drop_at-counts dir i cs (counts_down u) e)
  drop_at-counts dir (suc i) (counts_down t ∷ cs) (counts_up u) e =
      ground (arith, drop_at-counts dir i cs (counts_up u) e)
  drop_at-counts dir (suc i) (counts_down t ∷ cs) (counts_down u) e =
      ground (arith, drop_at-counts dir i cs (counts_down u) e)

  perform_at-IsCounted :
      (dir : Direction) (i : ℕ) (s : StreamTable) → IsCounted dir s → IsCounted dir (perform_at i s)
  perform_at-IsCounted dir i s h = elim (Option-cases (get_elem? s.pending i)) [
    | inl missing ↦
        let same : perform_at i s ≡ s = ground (arith, missing) in
        subst (IsCounted dir) (sym same) h
    | inr (c, e) ↦
        let rest : StreamTable = record s { pending = drop_at i s.pending } in
        let same : perform_at i s ≡ apply_change direction id c rest = ground (arith, e) in
        subst (IsCounted dir) (sym same) (
          apply_change-IsCounted dir c rest (ground (arith, h, drop_at-counts dir i s.pending c e)))
  ]

  add_stream_async-IsCounted :
      (dir : Direction) (enqueues : Bool) (stream : ℕ) (s : StreamTable)
      → IsCounted dir s
      → IsCounted dir (add_stream_async direction id enqueues (some stream) s)
  unfolding add_stream_async ups downs
  add_stream_async-IsCounted input enqueues stream s h =
      request_change-IsCounted input enqueues (counts_up stream) (list_stream direction id stream s)
        (ground (arith, h, length-append s.inputs (stream ∷ [])))
  add_stream_async-IsCounted output enqueues stream s h =
      request_change-IsCounted output enqueues (counts_up stream)
        (list_stream direction id stream s)
        (ground (arith, h, length-append s.outputs (stream ∷ [])))

  remove_stream_async-IsCounted :
      (dir : Direction) (enqueues : Bool) (stream : ℕ) (s : StreamTable)
      → standing stream (streams (direction stream) s) ≡ 1
      → IsCounted dir s
      → IsCounted dir (remove_stream_async direction id enqueues (some stream) s)
  unfolding remove_stream_async ups downs
  remove_stream_async-IsCounted input enqueues stream s one h =
      request_change-IsCounted input enqueues (counts_down stream)
        (unlist_stream direction id stream s)
        (ground (arith, h, one, length-without stream s.inputs))
  remove_stream_async-IsCounted output enqueues stream s one h =
      request_change-IsCounted output enqueues (counts_down stream)
        (unlist_stream direction id stream s)
        (ground (arith, h, one, length-without stream s.outputs))

  -- From a device whose counters are right, over any calls in which a stream is removed only while
  -- it is listed once, and in whatever order the HAL performs the changes, each counter stays
  -- right: with the changes that wait it makes up the number of listed streams, modulo 2 ^ 32.
  pub stream_run-IsCounted :
      (dir : Direction) (es : List StreamEvent) (s : StreamTable)
      → IsUsed es s
      → IsCounted dir s
      → IsCounted dir (stream_run es s)
  stream_run-IsCounted dir [] s u h = h
  stream_run-IsCounted dir (adds_stream enqueues stream ∷ es) s u h =
      stream_run-IsCounted dir es (stream_step (adds_stream enqueues stream) s) u
        (add_stream_async-IsCounted dir enqueues stream s h)
  stream_run-IsCounted dir (removes_stream enqueues stream ∷ es) s u h =
      stream_run-IsCounted dir es (stream_step (removes_stream enqueues stream) s) u.1
        (remove_stream_async-IsCounted dir enqueues stream s u.0 h)
  stream_run-IsCounted dir (performs_change i ∷ es) s u h =
      stream_run-IsCounted dir es (stream_step (performs_change i) s) u
        (perform_at-IsCounted dir i s h)
