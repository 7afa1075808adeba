-- ===== src/Tracer/Nesting.antt =====
-- src/Tracer.cpp: what the tracer prints for calls that are nested as operations are.
use mathlib.Core.List.{append_assoc, append-nil}
use lib_aspl.Prelude.{
  ℕ, ◌+◌, ◌<◌, ◌≤◌, ◌≡◌, refl, sym, ap, ◌∙◌, max, Bool, true, false, List, [], ◌∷◌, ◌++◌,
  if◌then◌else◌, arith, Bool-cases, inl, inr,
}
use lib_aspl.Status.{Status}
use lib_aspl.Tracer.{
  Mode, Style, Line, ThreadState, format_operation_begin, format_message, format_operation_end,
  is_noop, is_ignoring, print, operation_begin, message, operation_end, depth_hard_limit,
}

-- The calls of one thread: messages, and operations with calls inside.
pub data Calls : Type 0 where
  done : Calls
  says : (text : ℕ) → Calls → Calls
  operates : (op : ℕ) → Status → (inside : Calls) → Calls → Calls

-- How deep the operations are nested.
unfoldable pub height : Calls → ℕ
height done = 0
height (says text cs) = height cs
height (operates op status inside cs) = max (height inside + 1) (height cs)

enclosed :
    (before within rest : List Line) (first last : Line)
    → ((before ++ first ∷ []) ++ within) ++ last ∷ [] ++ rest
      ≡ before ++ first ∷ (within ++ last ∷ rest)
enclosed before within rest first last =
    append_assoc ((before ++ first ∷ []) ++ within) (last ∷ []) rest
    ∙ append_assoc (before ++ first ∷ []) within (last ∷ rest)
    ∙ append_assoc before (first ∷ []) (within ++ last ∷ rest)

module _ (mode : Mode) (style : Style) (should_ignore : ℕ → Bool) where
  unfoldable pub trace : Calls → ThreadState → ThreadState
  trace done s = s
  trace (says text cs) s = trace cs (message mode style should_ignore text s)
  trace (operates op status inside cs) s = trace cs (
      operation_end mode style should_ignore op status
        (trace inside (operation_begin mode style should_ignore op s)))

  -- The lines that are to be seen at a depth: of an operation to be ignored, none.
  unfoldable pub lines : (depth : ℕ) → Calls → List Line
  lines depth done = []
  lines depth (says text cs) = format_message style text depth ∷ lines depth cs
  lines depth (operates op status inside cs) =
      let rest = lines depth cs in
      let within = lines (depth + 1) inside in
      if should_ignore op
      then rest
      else format_operation_begin style op (depth + 1)
        ∷ (within ++ format_operation_end style op status (depth + 1) ∷ rest)

  module _ (active : is_noop mode ≡ false) where
    begin-ignoring :
        (op : ℕ) (s : ThreadState)
        → is_ignoring s ≡ true
        → s.depth_counter < depth_hard_limit
        → operation_begin mode style should_ignore op s
          ≡ record s { depth_counter = s.depth_counter + 1 }
    unfolding operation_begin
    begin-ignoring op s e lt = ground (arith, active)

    end-ignoring :
        (op : ℕ) (status : Status) (s : ThreadState)
        → is_ignoring s ≡ true
        → operation_end mode style should_ignore op status
            (record s { depth_counter = s.depth_counter + 1 })
          ≡ s
    unfolding operation_end
    end-ignoring op status s e = ground (arith, active)

    message_lem :
        (text : ℕ) (s : ThreadState)
        → s.ignore_counter ≡ 0
        → message mode style should_ignore text s
          ≡ print (format_message style text s.depth_counter) s
    unfolding message
    message_lem text s e = ground (arith, active)

    begin_ignored :
        (op : ℕ) (s : ThreadState)
        → should_ignore op ≡ true
        → s.ignore_counter ≡ 0
        → s.depth_counter < depth_hard_limit
        → operation_begin mode style should_ignore op s
          ≡ record s { depth_counter = s.depth_counter + 1; ignore_counter = s.depth_counter + 1 }
    unfolding operation_begin
    begin_ignored op s i e lt = ground (arith, active)

    end_ignored :
        (op : ℕ) (status : Status) (s : ThreadState)
        → s.ignore_counter ≡ 0
        → operation_end mode style should_ignore op status
            (record s { depth_counter = s.depth_counter + 1; ignore_counter = s.depth_counter + 1 })
          ≡ s
    unfolding operation_end
    end_ignored op status s e = ground (arith, active)

    begin_seen :
        (op : ℕ) (s : ThreadState)
        → should_ignore op ≡ false
        → s.ignore_counter ≡ 0
        → s.depth_counter < depth_hard_limit
        → operation_begin mode style should_ignore op s
          ≡ print
              (format_operation_begin style op (s.depth_counter + 1))
              (record s { depth_counter = s.depth_counter + 1 })
    unfolding operation_begin
    begin_seen op s i e lt = ground (arith, active)

    end_seen :
        (op : ℕ) (status : Status) (s : ThreadState)
        → s.ignore_counter ≡ 0
        → operation_end mode style should_ignore op status
            (record s { depth_counter = s.depth_counter + 1 })
          ≡ print (format_operation_end style op status (s.depth_counter + 1)) s
    unfolding operation_end
    end_seen op status s e = ground (arith, active)

    -- Inside an ignored operation nothing is printed, and the counters come back.
    trace-ignoring :
        (cs : Calls) (s : ThreadState)
        → is_ignoring s ≡ true
        → s.depth_counter + height cs ≤ depth_hard_limit
        → trace cs s ≡ s
    unfolding trace height operation_begin operation_end message
    trace-ignoring done s e le = refl
    trace-ignoring (says text cs) s e le = ground (arith, trace-ignoring cs s)
    trace-ignoring (operates op status inside cs) s e le =
        let t : ThreadState = record s { depth_counter = s.depth_counter + 1 } in
        let ends : ThreadState → ThreadState =
          λ u. trace cs (operation_end mode style should_ignore op status u) in
        ap (λ u. ends (trace inside u)) (begin-ignoring op s e (ground arith))
        ∙ ap ends (trace-ignoring inside t (ground arith) (ground arith))
        ∙ ap (trace cs) (end-ignoring op status s e)
        ∙ trace-ignoring cs s e (ground arith)

    -- Unless the mode is noop, calls whose nesting stays within the hard limit and that start while
    -- nothing is ignored print the lines that are to be seen, in order, and leave both counters as
    -- they were.
    pub trace-lines :
        (cs : Calls) (s : ThreadState)
        → s.ignore_counter ≡ 0
        → s.depth_counter + height cs ≤ depth_hard_limit
        → trace cs s ≡ record s { printed = s.printed ++ lines s.depth_counter cs }
    unfolding trace height operation_begin operation_end message lines
    trace-lines done s e le = ap (λ ls. record s { printed = ls }) (sym (append-nil s.printed))
    trace-lines (says text cs) s e le =
        let line = format_message style text s.depth_counter in
        ap (trace cs) (message_lem text s e)
        ∙ trace-lines cs (print line s) e (ground arith)
        ∙ ap (λ ls. record s { printed = ls })
            (append_assoc s.printed (line ∷ []) (lines s.depth_counter cs))
    trace-lines (operates op status inside cs) s e le = elim (Bool-cases (should_ignore op)) [
      | inl i ↦
          let t : ThreadState = record s {
            depth_counter = s.depth_counter + 1;
            ignore_counter = s.depth_counter + 1;
          } in
          ap (λ u. ends (trace inside u)) (begin_ignored op s i e (ground arith))
          ∙ ap ends (trace-ignoring inside t (ground arith) (ground arith))
          ∙ ap (trace cs) (end_ignored op status s e)
          ∙ trace-lines cs s e (ground arith)
          ∙ ground (arith, i)
      | inr i ↦
          let deeper = s.depth_counter + 1 in
          let within = lines deeper inside in
          let before = s.printed ++ format_operation_begin style op deeper ∷ [] in
          let t : ThreadState = record s { depth_counter = deeper; printed = before } in
          let u : ThreadState = record s { printed = before ++ within } in
          let last = format_operation_end style op status deeper in
          ap (λ v. ends (trace inside v)) (begin_seen op s i e (ground arith))
          ∙ ap ends (trace-lines inside t e (ground arith))
          ∙ ap (trace cs) (end_seen op status u e)
          ∙ trace-lines cs (print last u) e (ground arith)
          ∙ ap (λ ls. record s { printed = ls })
              (ground (
                arith,
                i,
                enclosed s.printed within (lines s.depth_counter cs)
                    (format_operation_begin style op deeper) last,
              ))
    ]
      where
        ends : ThreadState → ThreadState
        ends u = trace cs (operation_end mode style should_ignore op status u)
