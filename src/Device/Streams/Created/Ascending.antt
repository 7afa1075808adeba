-- ===== src/Device/Streams/Created/Ascending.antt =====
-- src/Device.cpp: streams that take channels one after the other, in a list.
use lib_aspl.Prelude.{
  ℕ, ◌+◌, ◌^◌, ◌≤◌, ◌<◌, ◌≡◌, List, [], ◌∷◌, ◌++◌, if◌then◌else◌, ◌==◌, max, arith, true, false,
  ◌%◌,
}
use lib_aspl.Device.Streams.{without}
use lib_aspl.Device.Streams.Created.{StreamParameters, CreatedStreams, make_stream, next_channel}

module _ {F : Type 0} where
  -- Streams below `next` that take channels in ascending order, from `first` on and up to `bound`,
  -- without overlaps.
  abbrev pub IsAscending :
      (next : ℕ) (parameters : ℕ → StreamParameters F) (bound first : ℕ) → List ℕ → Type 0
  IsAscending next parameters bound first [] = first ≤ bound
  IsAscending next parameters bound first (stream ∷ rest) =
      (stream < next)
      × (first ≤ (parameters stream).starting_channel)
      × IsAscending next parameters bound
          ((parameters stream).starting_channel + (parameters stream).format.channels_per_frame)
          rest

  pub IsAscending-bound :
      (next : ℕ) (parameters : ℕ → StreamParameters F) (bound first : ℕ) (list : List ℕ)
      → IsAscending next parameters bound first list
      → first ≤ bound
  IsAscending-bound next parameters bound first [] a = a
  IsAscending-bound next parameters bound first (stream ∷ rest) (lt, le, a) =
      let end : ℕ =
        (parameters stream).starting_channel + (parameters stream).format.channels_per_frame in
      ground (arith, le, IsAscending-bound next parameters bound end rest a)

  -- A later store, a larger bound and an earlier first channel.
  pub IsAscending-weaken :
      (s : CreatedStreams F) (params : StreamParameters F) (bound bound' first first' : ℕ)
      (list : List ℕ)
      → first' ≤ first
      → bound ≤ bound'
      → IsAscending s.next_stream s.parameters bound first list
      → IsAscending (s.next_stream + 1) (make_stream params s).1.parameters bound' first' list
  unfolding make_stream
  IsAscending-weaken s params bound bound' first first' [] le1 le2 a = omega arith
  IsAscending-weaken s params bound bound' first first' (stream ∷ rest) le1 le2 (lt, le, a) =
      let p = s.parameters stream in
      let end : ℕ = p.starting_channel + p.format.channels_per_frame in
      let later : IsAscending (s.next_stream + 1) (make_stream params s).1.parameters bound' end
          rest =
        IsAscending-weaken s params bound bound' end end rest (omega arith) le2 a in
      ground (arith, lt, le, later)

  pub IsAscending-without :
      (next : ℕ) (parameters : ℕ → StreamParameters F) (bound first first' : ℕ) (gone : ℕ)
      (list : List ℕ)
      → first' ≤ first
      → IsAscending next parameters bound first list
      → IsAscending next parameters bound first' (without gone list)
  IsAscending-without next parameters bound first first' gone [] le1 a = omega arith
  IsAscending-without next parameters bound first first' gone (stream ∷ rest) le1 (lt, le, a) =
      let p = parameters stream in
      let end : ℕ = p.starting_channel + p.format.channels_per_frame in
      let early : IsAscending next parameters bound first' (without gone rest) =
        IsAscending-without next parameters bound end first' gone rest (omega arith) a in
      let late : IsAscending next parameters bound end (without gone rest) =
        IsAscending-without next parameters bound end end gone rest (omega arith) a in
      elim (stream == gone)
        as (λ same.
          IsAscending next parameters bound first'
            (if same then without gone rest else stream ∷ without gone rest)) [
              | true ↦ early
              | false ↦ (lt, omega arith, late)
            ]

  -- The loop finds a channel that no listed stream reaches.
  pub next_channel-bound :
      (next : ℕ) (parameters : ℕ → StreamParameters F) (bound first start : ℕ) (list : List ℕ)
      → bound < 2 ^ 32
      → start ≤ bound
      → IsAscending next parameters bound first list
      → next_channel parameters start list ≤ bound
  unfolding next_channel
  next_channel-bound next parameters bound first start [] small le1 a = le1
  next_channel-bound next parameters bound first start (stream ∷ rest) small le1 (lt, le, a) =
      let p = parameters stream in
      let end : ℕ = p.starting_channel + p.format.channels_per_frame in
      let reach : end ≤ bound = IsAscending-bound next parameters bound end rest a in
      next_channel-bound next parameters bound end (max start (end % 2 ^ 32)) rest small
        (ground arith) a

  -- The next stream may be listed last, where the loop says.
  pub IsAscending-append :
      (s : CreatedStreams F) (params : StreamParameters F) (bound bound' first start : ℕ)
      (list : List ℕ)
      → bound < 2 ^ 32
      → bound ≤ bound'
      → first ≤ start
      → params.starting_channel ≡ next_channel s.parameters start list
      → params.starting_channel + params.format.channels_per_frame ≤ bound'
      → IsAscending s.next_stream s.parameters bound first list
      → IsAscending
          (s.next_stream + 1)
          (make_stream params s).1.parameters
          bound'
          first
          (list ++ s.next_stream ∷ [])
  unfolding next_channel make_stream
  IsAscending-append s params bound bound' first start [] small le1 le2 e le3 a = ground (arith, e)
  IsAscending-append s params bound bound' first start (stream ∷ rest) small le1 le2 e le3
        (lt, le, a) =
      let p = s.parameters stream in
      let end : ℕ = p.starting_channel + p.format.channels_per_frame in
      let reach : end ≤ bound = IsAscending-bound s.next_stream s.parameters bound end rest a in
      let later : IsAscending (s.next_stream + 1) (make_stream params s).1.parameters bound' end
          (rest ++ s.next_stream ∷ []) =
        IsAscending-append s params bound bound' end (max start (end % 2 ^ 32)) rest small le1
          (ground arith) e le3 a in
      ground (arith, lt, le, later)
