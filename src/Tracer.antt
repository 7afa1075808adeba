-- ===== src/Tracer.antt =====
-- src/Tracer.cpp and include/aspl/Tracer.hpp: the tracer's counters of one thread, which keep the
-- depth of nested operations and leave out those that are to be ignored. A line stands for the string
-- that is made of it; the lines are those given to the virtual method `Print`. The virtual method
-- `ShouldIgnore` is a parameter.
pub mod Nesting
pub mod Raw
mod Tests
use lib_aspl.Prelude.{
  ℕ, suc, ◌+◌, ◌-◌, min, Bool, true, false, not, ◌&&◌, List, [], ◌∷◌, ◌++◌, if◌then◌else◌, ◌==◌,
  ltb, leb,
}
use lib_aspl.Status.{Status}

pub data Mode : Type 0 where
  noop : Mode
  stderr : Mode
  syslog : Mode
  custom : Mode

pub data Style : Type 0 where
  flat : Style
  hierarchical : Style

-- The number of dashes comes first, 0 in the flat style.
pub data Line : Type 0 where
  operation_begun : (dashes op : ℕ) → Line
  message_shown : (dashes message : ℕ) → Line
  operation_ended : (dashes op : ℕ) → Status → Line
  unpaired : Line

-- Of one thread; `printed` starts with the oldest line.
pub record ThreadState : Type 0 where
  pub depth_counter : ℕ
  pub ignore_counter : ℕ
  pub printed : List Line

abbrev pub depth_soft_limit : ℕ
depth_soft_limit = 10

abbrev pub depth_hard_limit : ℕ
depth_hard_limit = 1000

-- `FormatOperationBegin`, `FormatMessage`, `FormatOperationEnd`
abbrev pub format_operation_begin : Style → (op depth : ℕ) → Line
format_operation_begin flat op depth = operation_begun 0 op
format_operation_begin hierarchical op depth = operation_begun (min depth depth_soft_limit) op

abbrev pub format_message : Style → (message depth : ℕ) → Line
format_message flat message depth = message_shown 0 message
format_message hierarchical message depth = message_shown (min depth depth_soft_limit + 1) message

abbrev pub format_operation_end : Style → (op : ℕ) → Status → (depth : ℕ) → Line
format_operation_end flat op status depth = operation_ended 0 op status
format_operation_end hierarchical op status depth =
    operation_ended (min depth depth_soft_limit) op status

abbrev pub is_noop : Mode → Bool
is_noop noop = true
is_noop stderr = false
is_noop syslog = false
is_noop custom = false

abbrev pub print : Line → ThreadState → ThreadState
print line s = record s { printed = s.printed ++ line ∷ [] }

-- The test that all three methods begin with.
abbrev pub is_ignoring : ThreadState → Bool
is_ignoring s = not (s.ignore_counter == 0) && leb s.ignore_counter s.depth_counter

abbrev pub deepen : ThreadState → ThreadState
deepen s =
    if ltb s.depth_counter depth_hard_limit
    then record s { depth_counter = s.depth_counter + 1 }
    else print unpaired s

module _ (mode : Mode) (style : Style) (should_ignore : ℕ → Bool) where
  unfoldable pub operation_begin : (op : ℕ) → ThreadState → ThreadState
  operation_begin op s =
      if is_noop mode
      then s
      else (let t = deepen s in
          if is_ignoring t
          then t
          else if should_ignore op
          then record t { ignore_counter = t.depth_counter }
          else print (format_operation_begin style op t.depth_counter) t)

  unfoldable pub message : (text : ℕ) → ThreadState → ThreadState
  message text s =
      if is_noop mode
      then s
      else if is_ignoring s
      then s
      else print (format_message style text s.depth_counter) s

  unfoldable pub operation_end : (op : ℕ) → Status → ThreadState → ThreadState
  operation_end op status s =
      if is_noop mode
      then s
      else if is_ignoring s
      then record s {
        ignore_counter = if s.depth_counter == s.ignore_counter then 0 else s.ignore_counter;
        depth_counter = s.depth_counter - 1;
      }
      else (let t = print (format_operation_end style op status s.depth_counter) s in
          if not (t.depth_counter == 0)
          then record t { depth_counter = t.depth_counter - 1 }
          else print unpaired t)
