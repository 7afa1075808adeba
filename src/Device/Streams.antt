-- ===== src/Device/Streams.antt =====
-- src/Device.cpp: the streams of a device, in two lists and a map that change at once, and counted by
-- configuration changes that may wait for the HAL (Device/Configuration.antt). The change also makes
-- the device the stream's owner (Object.antt), which is left out here, as are the tracer's calls.
-- `direction` and `id` give a stream's direction and identifier.
pub mod Counted
pub mod Created
pub mod Equipped
use lib_aspl.Prelude.{
  ℕ, zero, suc, ◌+◌, ◌-◌, ◌%◌, ◌^◌, Bool, true, false, Option, none, some, List, [], ◌∷◌, ◌++◌,
  if◌then◌else◌, ◌==◌, Map, lookup, insert, erase, length, get_elem?,
}

pub data Direction : Type 0 where
  input : Direction
  output : Direction

-- The functions that `AddStreamAsync` and `RemoveStreamAsync` pass to `RequestConfigurationChange`.
pub data StreamChange : Type 0 where
  counts_up : (stream : ℕ) → StreamChange
  counts_down : (stream : ℕ) → StreamChange

-- `pending` holds the changes that wait, the oldest first.
pub record StreamTable : Type 0 where
  pub inputs : List ℕ
  pub outputs : List ℕ
  pub stream_by_id : Map ℕ
  pub num_input_streams : ℕ
  pub num_output_streams : ℕ
  pub pending : List StreamChange

abbrev pub new_streams : StreamTable
new_streams = record {
  inputs = [];
  outputs = [];
  stream_by_id = [];
  num_input_streams = 0;
  num_output_streams = 0;
  pending = [];
}

abbrev pub u32 : ℕ → ℕ
u32 n = n % 2 ^ 32

-- std::remove, and erase of what is left over.
abbrev pub without : ℕ → List ℕ → List ℕ
without x [] = []
without x (y ∷ ys) = let rest = without x ys in if y == x then rest else y ∷ rest

module _ (direction : ℕ → Direction) (id : ℕ → ℕ) where
  unfoldable pub apply_change : StreamChange → StreamTable → StreamTable
  apply_change (counts_up stream) s = elim (direction stream) [
    | input ↦ record s { num_input_streams = u32 (s.num_input_streams + 1) }
    | output ↦ record s { num_output_streams = u32 (s.num_output_streams + 1) }
  ]
  apply_change (counts_down stream) s = elim (direction stream) [
    | input ↦ record s { num_input_streams = u32 (s.num_input_streams + (2 ^ 32 - 1)) }
    | output ↦ record s { num_output_streams = u32 (s.num_output_streams + (2 ^ 32 - 1)) }
  ]

  -- `enqueues` is the test of `RequestConfigurationChange`.
  abbrev pub request_change : (enqueues : Bool) → StreamChange → StreamTable → StreamTable
  request_change enqueues change s =
      if enqueues then record s { pending = s.pending ++ change ∷ [] } else apply_change change s

  -- The parts that happen at once: streams_ and streamByID_.
  abbrev pub list_stream : (stream : ℕ) → StreamTable → StreamTable
  list_stream stream s = elim (direction stream) [
    | input ↦ record s {
      inputs = s.inputs ++ stream ∷ [];
      stream_by_id = insert (id stream) stream s.stream_by_id;
    }
    | output ↦ record s {
      outputs = s.outputs ++ stream ∷ [];
      stream_by_id = insert (id stream) stream s.stream_by_id;
    }
  ]

  abbrev pub unlist_stream : (stream : ℕ) → StreamTable → StreamTable
  unlist_stream stream s = elim (direction stream) [
    | input ↦ record s {
      inputs = without stream s.inputs;
      stream_by_id = erase (id stream) s.stream_by_id;
    }
    | output ↦ record s {
      outputs = without stream s.outputs;
      stream_by_id = erase (id stream) s.stream_by_id;
    }
  ]

  -- A null pointer is `none`.
  unfoldable pub add_stream_async :
      (enqueues : Bool) (stream : Option ℕ) → StreamTable → StreamTable
  unfolding apply_change
  add_stream_async enqueues none s = s
  add_stream_async enqueues (some stream) s =
      request_change enqueues (counts_up stream) (list_stream stream s)

  unfoldable pub remove_stream_async :
      (enqueues : Bool) (stream : Option ℕ) → StreamTable → StreamTable
  unfolding apply_change
  remove_stream_async enqueues none s = s
  remove_stream_async enqueues (some stream) s =
      request_change enqueues (counts_down stream) (unlist_stream stream s)

abbrev pub streams : Direction → StreamTable → List ℕ
streams input s = s.inputs
streams output s = s.outputs

abbrev pub get_stream_count : Direction → StreamTable → ℕ
get_stream_count dir s = length (streams dir s) % 2 ^ 32

abbrev pub get_stream_by_index : Direction → (idx : ℕ) → StreamTable → Option ℕ
get_stream_by_index dir idx s = get_elem? (streams dir s) idx

abbrev pub get_stream_by_id : (stream_id : ℕ) → StreamTable → Option ℕ
get_stream_by_id stream_id s = lookup stream_id s.stream_by_id
