-- ===== src/Device/Streams/Created/Placed.antt =====
-- src/Device.cpp: the channels of the streams that a device creates for a direction.
use mathlib.Core.Path.{subst}
use lib_aspl.Prelude.{
  ℕ, ◌+◌, ◌^◌, ◌≤◌, ◌<◌, ◌≡◌, Bool, some, List, [], ◌∷◌, ◌++◌, arith, refl, sym, ap, ◌∙◌,
}
use lib_aspl.Device.Streams.{
  Direction, input, output, StreamTable, without, add_stream_async, remove_stream_async, streams,
  apply_change,
}
use lib_aspl.Device.Streams.Created.{
  StreamParameters, CreatedStreams, make_stream, next_channel, parameters_for, create_stream_async,
  create_stream_for_async,
}
use lib_aspl.Device.Streams.Created.Ascending.{
  IsAscending, IsAscending-weaken, IsAscending-without, next_channel-bound, IsAscending-append,
}

-- The device creates a stream for a direction, or the driver removes one.
pub data CreatedEvent (F : Type 0) : Type 0 where
  creates : (enqueues : Bool) (dir : Direction) (rate : F) (channels : ℕ) → CreatedEvent F
  removes : (enqueues : Bool) (stream : ℕ) → CreatedEvent F

-- The two lists after a stream of direction `dir` was listed, and after it was taken out.
abbrev listed_in : (dir : Direction) (stream : ℕ) → StreamTable → List ℕ × List ℕ
listed_in input stream s = (s.inputs ++ stream ∷ [], s.outputs)
listed_in output stream s = (s.inputs, s.outputs ++ stream ∷ [])

abbrev unlisted_in : (dir : Direction) (stream : ℕ) → StreamTable → List ℕ × List ℕ
unlisted_in input stream s = (without stream s.inputs, s.outputs)
unlisted_in output stream s = (s.inputs, without stream s.outputs)

module _ (direction : ℕ → Direction) (id : ℕ → ℕ) (enqueues : Bool) (stream : ℕ)
    (s : StreamTable) where
  streams-add_stream_async :
      let t = add_stream_async direction id enqueues (some stream) s in
      (t.inputs, t.outputs) ≡ listed_in (direction stream) stream s
  unfolding add_stream_async apply_change
  streams-add_stream_async = ground arith

  streams-remove_stream_async :
      let t = remove_stream_async direction id enqueues (some stream) s in
      (t.inputs, t.outputs) ≡ unlisted_in (direction stream) stream s
  unfolding remove_stream_async apply_change
  streams-remove_stream_async = ground arith

module _ {F : Type 0} where
  -- The two lists, of inputs and of outputs.
  abbrev AreAscending :
      (next : ℕ) (parameters : ℕ → StreamParameters F) (bound : ℕ) → List ℕ × List ℕ → Type 0
  AreAscending next parameters bound lists =
      IsAscending next parameters bound 1 lists.0 × IsAscending next parameters bound 1 lists.1

  -- Each direction of the device's table.
  abbrev pub IsPlaced : (bound : ℕ) → CreatedStreams F → Type 0
  IsPlaced bound s =
      IsAscending s.next_stream s.parameters bound 1 s.table.inputs
      × IsAscending s.next_stream s.parameters bound 1 s.table.outputs

  unlisted_in-AreAscending :
      (dir : Direction) (stream bound : ℕ) (s : CreatedStreams F)
      → IsPlaced bound s
      → AreAscending s.next_stream s.parameters bound (unlisted_in dir stream s.table)
  unlisted_in-AreAscending input stream bound s (ins, outs) = (
    IsAscending-without s.next_stream s.parameters bound 1 1 stream s.table.inputs (omega arith)
        ins,
    outs,
  )
  unlisted_in-AreAscending output stream bound s (ins, outs) = (
    ins,
    IsAscending-without s.next_stream s.parameters bound 1 1 stream s.table.outputs (omega arith)
        outs,
  )

  -- `params` places the next stream where the loop over its direction says.
  listed_in-AreAscending :
      (dir : Direction) (params : StreamParameters F) (bound : ℕ) (s : CreatedStreams F)
      → 1 ≤ bound
      → bound < 2 ^ 32
      → params.starting_channel ≡ next_channel s.parameters 1 (streams dir s.table)
      → IsPlaced bound s
      → AreAscending
          (s.next_stream + 1)
          (make_stream params s).1.parameters
          (bound + params.format.channels_per_frame)
          (listed_in dir s.next_stream s.table)
  listed_in-AreAscending input params bound s pos small e (ins, outs) =
      let b : ℕ = bound + params.format.channels_per_frame in
      let found =
        next_channel-bound s.next_stream s.parameters bound 1 1 s.table.inputs small pos ins in
      (
        IsAscending-append s params bound b 1 1 s.table.inputs small (omega arith) (omega arith) e
            (ground (arith, e, found)) ins,
        IsAscending-weaken s params bound b 1 1 s.table.outputs (omega arith) (omega arith) outs,
      )
  listed_in-AreAscending output params bound s pos small e (ins, outs) =
      let b : ℕ = bound + params.format.channels_per_frame in
      let found =
        next_channel-bound s.next_stream s.parameters bound 1 1 s.table.outputs small pos outs in
      (
        IsAscending-weaken s params bound b 1 1 s.table.inputs (omega arith) (omega arith) ins,
        IsAscending-append s params bound b 1 1 s.table.outputs small (omega arith) (omega arith) e
            (ground (arith, e, found)) outs,
      )

  module _ (id : ℕ → ℕ) (defaults : StreamParameters F) where
    abbrev pub created_step : CreatedEvent F → CreatedStreams F → CreatedStreams F
    created_step (creates enqueues dir rate channels) s =
        (create_stream_for_async id defaults enqueues dir rate channels s).1
    created_step (removes enqueues stream) s = record s {
      table =
          remove_stream_async (λ x. (s.parameters x).direction) id enqueues (some stream) s.table;
    }

    abbrev pub created_run : List (CreatedEvent F) → CreatedStreams F → CreatedStreams F
    created_run [] s = s
    created_run (e ∷ es) s = created_run es (created_step e s)

    -- The channels that are asked for in all.
    abbrev pub all_channels : List (CreatedEvent F) → ℕ
    all_channels [] = 0
    all_channels (creates enqueues dir rate channels ∷ es) = channels + all_channels es
    all_channels (removes enqueues stream ∷ es) = all_channels es

    creates-IsPlaced :
        (enqueues : Bool) (dir : Direction) (rate : F) (channels bound : ℕ) (s : CreatedStreams F)
        → 1 ≤ bound
        → bound < 2 ^ 32
        → IsPlaced bound s
        → IsPlaced (bound + channels) (created_step (creates enqueues dir rate channels) s)
    unfolding create_stream_for_async create_stream_async parameters_for make_stream
    creates-IsPlaced enqueues dir rate channels bound s pos small placed =
        let params : StreamParameters F = parameters_for defaults dir rate channels s in
        let stored : ℕ → StreamParameters F = (make_stream params s).1.parameters in
        let direction : ℕ → Direction = λ x. (stored x).direction in
        let own : direction s.next_stream ≡ dir = ground arith in
        subst (AreAscending (s.next_stream + 1) stored (bound + channels))
          (sym (
            streams-add_stream_async direction id enqueues s.next_stream s.table
            ∙ ap (λ d. listed_in d s.next_stream s.table) own))
          (listed_in-AreAscending dir params bound s pos small refl placed)

    removes-IsPlaced :
        (enqueues : Bool) (stream bound : ℕ) (s : CreatedStreams F)
        → IsPlaced bound s
        → IsPlaced bound (created_step (removes enqueues stream) s)
    removes-IsPlaced enqueues stream bound s placed =
        let direction : ℕ → Direction = λ x. (s.parameters x).direction in
        subst (AreAscending s.next_stream s.parameters bound)
          (sym (streams-remove_stream_async direction id enqueues stream s.table))
          (unlisted_in-AreAscending (direction stream) stream bound s placed)

    -- If the streams of each direction take channels in ascending order without overlaps, from 1
    -- on and up to a bound, and the bound with all channels that are asked for is below 2 ^ 32, then
    -- after any sequence of streams created for a direction and streams removed, they still do.
    pub created_run-IsPlaced :
        (bound : ℕ) (es : List (CreatedEvent F)) (s : CreatedStreams F)
        → 1 ≤ bound
        → bound + all_channels es < 2 ^ 32
        → IsPlaced bound s
        → IsPlaced (bound + all_channels es) (created_run es s)
    created_run-IsPlaced bound [] s pos small placed =
        subst (λ b. IsPlaced b s) (omega arith) placed
    created_run-IsPlaced bound (creates enqueues dir rate channels ∷ es) s pos small placed =
        let e : CreatedEvent F = creates enqueues dir rate channels in
        subst (λ b. IsPlaced b (created_run es (created_step e s))) (omega arith)
          (created_run-IsPlaced (bound + channels) es (created_step e s) (omega arith) (omega arith)
            (creates-IsPlaced enqueues dir rate channels bound s pos (omega arith) placed))
    created_run-IsPlaced bound (removes enqueues stream ∷ es) s pos small placed =
        created_run-IsPlaced bound es (created_step (removes enqueues stream) s) pos small
          (removes-IsPlaced enqueues stream bound s placed)
