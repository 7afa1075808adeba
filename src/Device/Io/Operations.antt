-- ===== src/Device/Io/Operations.antt =====
-- src/Device.cpp: the operations that a device announces, against those that reach its IO handler, and
-- the three calls that the HAL makes for one of them.
use mathlib.Core.Path.{subst}
use lib_aspl.Prelude.{
  ℕ, ◌+◌, ◌<◌, ◌≡◌, Bool, true, if◌then◌else◌, ◌≤◌, ◌≢◌, ◌⊎◌, ◌↔◌, inl, inr, Option-cases,
  ℕ_discrete, sym, false, none, Option, some, List, [], ◌∷◌, if◌then◌else◌, ltb, arith, length,
}
use lib_aspl.Status.{Status, no_error, bad_object_error, illegal_operation_error, is_ok}
use lib_aspl.Device.Io.{
  IoOperation, read_input, process_input, mix_output, process_mix, write_mix, other_operation,
  IoCall, on_read_client_input, on_process_client_input, on_process_client_output,
  on_write_client_output, on_process_mixed_output, on_write_mixed_output, will_do, do_io_operation,
  begin_io_operation, end_io_operation, StreamFormat,
}

-- The calls that take the output samples, from one client or mixed.
pub writes : List IoCall → ℕ
writes [] = 0
writes (on_read_client_input client stream bytes ∷ cs) = writes cs
writes (on_process_client_input client stream frames channels ∷ cs) = writes cs
writes (on_process_client_output client stream frames channels ∷ cs) = writes cs
writes (on_write_client_output client stream frames channels ∷ cs) = 1 + writes cs
writes (on_process_mixed_output stream frames channels ∷ cs) = writes cs
writes (on_write_mixed_output stream bytes ∷ cs) = 1 + writes cs

module _ (get_client : ℕ → Option ℕ) (get_stream : ℕ → Option StreamFormat)
    (self_id stream client : ℕ) (f : StreamFormat) (here : get_stream stream ≡ some f)
    (ins outs : ℕ) (mixing : Bool) (frames : ℕ) where
  abbrev calls : IoOperation → List IoCall
  calls operation =
      (do_io_operation get_client get_stream self_id self_id stream client operation frames).1

  -- Those of the operations of a cycle that the device announces, each done once.
  abbrev pub announced : IoOperation → List IoCall
  announced operation = if will_do ins outs mixing operation then calls operation else []

  -- On a stream that the device has, an operation that it announces succeeds and reaches the IO
  -- handler.
  pub do_io_operation-will_do :
      (operation : IoOperation)
      → will_do ins outs mixing operation ≡ true
      → ((do_io_operation get_client get_stream self_id self_id stream client operation frames).0
          ≡ no_error)
        × (0 < length (calls operation))
  unfolding will_do do_io_operation
  do_io_operation-will_do read_input e = ground (arith, here)
  do_io_operation-will_do process_input e = ground (arith, here)
  do_io_operation-will_do mix_output e = ground (arith, here)
  do_io_operation-will_do process_mix e = ground (arith, here)
  do_io_operation-will_do write_mix e = ground (arith, here)
  do_io_operation-will_do (other_operation n) e = ground (arith, here)

  -- On a stream that the device has, if of the three output operations those that it announces are
  -- done once each, the samples are handed over once if the device has output streams, and never
  -- else, with mixing and without.
  pub writes-announced :
      writes (announced mix_output) + writes (announced process_mix) + writes (announced write_mix)
      ≡ (if ltb 0 outs then 1 else 0)
  unfolding will_do do_io_operation writes
  writes-announced = ground (arith, here)

-- The operation succeeds, with at most two calls of the IO handler, and with at least one exactly if a
-- device could announce the operation, with a stream each way and mixing on or off.
abbrev pub IsPerformed : IoOperation → Status × List IoCall → Type 0
IsPerformed operation r =
    (r.0 ≡ no_error)
    × (length r.1 ≤ 2)
    × ((0 < length r.1)
        ↔ ((will_do 1 1 true operation ≡ true) ⊎ (will_do 1 1 false operation ≡ true)))

-- The HAL's three calls for one operation, the later ones only while the earlier ones succeed.
module _ (get_client : ℕ → Option ℕ) (get_stream : ℕ → Option StreamFormat) where
  abbrev pub perform_operation :
      (self_id object_id stream client frames : ℕ) → IoOperation → Status × List IoCall
  perform_operation self_id object_id stream client frames operation =
      if is_ok (begin_io_operation self_id object_id client operation frames)
      then (let done =
            do_io_operation get_client get_stream self_id object_id stream client operation
              frames in
          if is_ok done.0
          then (end_io_operation self_id object_id client operation frames, done.1)
          else done)
      else (begin_io_operation self_id object_id client operation frames, [])

  perform_operation-present :
      (self_id stream client frames : ℕ) (f : StreamFormat) (operation : IoOperation)
      → get_stream stream ≡ some f
      → IsPerformed operation (perform_operation self_id self_id stream client frames operation)
  unfolding begin_io_operation do_io_operation end_io_operation will_do
  perform_operation-present self_id stream client frames f read_input e = ground (arith, e)
  perform_operation-present self_id stream client frames f process_input e = ground (arith, e)
  perform_operation-present self_id stream client frames f mix_output e = ground (arith, e)
  perform_operation-present self_id stream client frames f process_mix e = ground (arith, e)
  perform_operation-present self_id stream client frames f write_mix e = ground (arith, e)
  perform_operation-present self_id stream client frames f (other_operation n) e = ground (arith, e)

  -- What the three calls for an operation come to: under another object's identifier a bad object,
  -- on a stream that the device does not have an illegal operation, both without a call of the IO
  -- handler; else success, with at most two calls of the handler, and at least one exactly if a
  -- device could announce the operation, with a stream each way and mixing on or off.
  pub perform_operation_lem :
      (self_id object_id stream client frames : ℕ) (operation : IoOperation)
      → let r = perform_operation self_id object_id stream client frames operation in
        ((object_id ≢ self_id) × (r ≡ (bad_object_error, [])))
        ⊎ (object_id ≡ self_id) × (get_stream stream ≡ none) × (r ≡ (illegal_operation_error, []))
        ⊎ (object_id ≡ self_id) × IsPerformed operation r
  unfolding begin_io_operation do_io_operation
  perform_operation_lem self_id object_id stream client frames operation =
      elim (ℕ_discrete object_id self_id) [
        | no other ↦ inl (other, ground (arith, other))
        | yes own ↦ elim (Option-cases (get_stream stream)) [
          | inl missing ↦ inr (inl (own, missing, ground (arith, own, missing)))
          | inr (f, e) ↦
              let answer : ℕ → Status × List IoCall =
                λ id. perform_operation self_id id stream client frames operation in
              inr (
                inr (
                  own,
                  subst (λ id. IsPerformed operation (answer id)) (sym own)
                      (perform_operation-present self_id stream client frames f operation e),
                ))
        ]
      ]
