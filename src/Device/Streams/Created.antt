-- ===== src/Device/Streams/Created.antt =====
-- src/Device.cpp and include/aspl/Stream.hpp: streams that the device constructs itself, from parameters
-- or from a direction alone. `make_shared` gives a stream the next number, and the store keeps the
-- parameters that a stream was constructed with; formats that are set later are not part of it.
pub mod Ascending
pub mod Placed
mod Tests
use lib_aspl.Prelude.{ℕ, ◌+◌, ◌*◌, ◌/◌, Bool, Option, some, List, [], ◌∷◌, if◌then◌else◌, ◌==◌, max}
use lib_aspl.Stream.{Format}
use lib_aspl.Device.Streams.{
  Direction, output, StreamTable, new_streams, u32, add_stream_async, streams,
}

pub record StreamParameters (F : Type 0) : Type 0 where
  pub direction : Direction
  pub starting_channel : ℕ
  pub format : Format F
  pub latency : ℕ

pub record CreatedStreams (F : Type 0) : Type 0 where
  pub next_stream : ℕ
  pub parameters : ℕ → StreamParameters F
  pub table : StreamTable

module _ {F : Type 0} where
  -- `linear_pcm` and `flags` are constants of CoreAudio, `rate` is 44100.
  abbrev pub default_parameters : (linear_pcm flags : ℕ) (rate : F) → StreamParameters F
  default_parameters linear_pcm flags rate = record {
    direction = output;
    starting_channel = 1;
    format = record {
      sample_rate = rate;
      format_id = linear_pcm;
      format_flags = flags;
      bits_per_channel = 16;
      channels_per_frame = 2;
      bytes_per_frame = 4;
      frames_per_packet = 1;
      bytes_per_packet = 4;
    };
    latency = 0;
  }

  abbrev pub no_created_streams : StreamParameters F → CreatedStreams F
  no_created_streams unused = record {
    next_stream = 0;
    parameters = λ stream. unused;
    table = new_streams;
  }

  -- `std::make_shared<Stream>`
  unfoldable pub make_stream : StreamParameters F → CreatedStreams F → ℕ × CreatedStreams F
  make_stream params s = (
    s.next_stream,
    record s {
      next_stream = s.next_stream + 1;
      parameters = λ stream. if stream == s.next_stream then params else s.parameters stream;
    },
  )

  -- `GetStartingChannel() + GetChannelCount()`
  abbrev pub end_channel : StreamParameters F → ℕ
  end_channel p = u32 (p.starting_channel + p.format.channels_per_frame)

  -- The loop over the streams that the device has in a direction.
  unfoldable pub next_channel : (parameters : ℕ → StreamParameters F) (first : ℕ) → List ℕ → ℕ
  next_channel parameters first [] = first
  next_channel parameters first (stream ∷ rest) =
      next_channel parameters (max first (end_channel (parameters stream))) rest

  -- The parameters of a stream that is created for a direction: `rate` is GetNominalSampleRate(),
  -- `channels` is GetPreferredChannelCount().
  unfoldable pub parameters_for :
      (defaults : StreamParameters F) (dir : Direction) (rate : F) (channels : ℕ)
      → CreatedStreams F
      → StreamParameters F
  unfolding next_channel
  parameters_for defaults dir rate channels s =
      let bytes : ℕ = u32 (channels * (defaults.format.bits_per_channel / 8)) in
      record defaults {
        direction = dir;
        starting_channel = next_channel s.parameters 1 (streams dir s.table);
        format = record (defaults.format) {
          sample_rate = rate;
          channels_per_frame = channels;
          bytes_per_frame = bytes;
          frames_per_packet = 1;
          bytes_per_packet = bytes;
        };
      }

  -- `id` gives the identifier of a stream.
  module _ (id : ℕ → ℕ) where
    -- AddStreamAsync(const StreamParameters&)
    unfoldable pub create_stream_async :
        (enqueues : Bool) → StreamParameters F → CreatedStreams F → ℕ × CreatedStreams F
    unfolding make_stream add_stream_async
    create_stream_async enqueues params s =
        let made = make_stream params s in
        (
          made.0,
          record made.1 {
            table =
                add_stream_async (λ stream. (made.1.parameters stream).direction) id enqueues
                  (some made.0) made.1.table;
          },
        )

    -- AddStreamAsync(Direction)
    unfoldable pub create_stream_for_async :
        (defaults : StreamParameters F) (enqueues : Bool) (dir : Direction) (rate : F)
        (channels : ℕ)
        → CreatedStreams F
        → ℕ × CreatedStreams F
    unfolding parameters_for create_stream_async
    create_stream_for_async defaults enqueues dir rate channels s =
        create_stream_async enqueues (parameters_for defaults dir rate channels s) s
