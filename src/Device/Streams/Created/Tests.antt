-- ===== src/Device/Streams/Created/Tests.antt =====
-- Two streams of a device, one after the other, and the theorem at them.
use lib_aspl.Prelude.{ℕ, ◌≡◌, refl, false, List, [], ◌∷◌, arith}
use lib_aspl.Device.Streams.{input, output}
use lib_aspl.Device.Streams.Created.{
  StreamParameters, CreatedStreams, default_parameters, no_created_streams, parameters_for,
  create_stream_for_async,
}
use lib_aspl.Device.Streams.Created.Placed.{
  CreatedEvent, creates, removes, created_run, created_run-IsPlaced, IsPlaced,
}

abbrev defaults : StreamParameters ℕ
defaults = default_parameters 7 12 44100

abbrev events : List (CreatedEvent ℕ)
events =
    creates false output 48000 2
    ∷ creates false input 48000 1
    ∷ creates false output 48000 4
    ∷ removes false 0
    ∷ creates false output 48000 2
    ∷ []

abbrev after : CreatedStreams ℕ
after = created_run (λ x. x) defaults events (no_created_streams defaults)

-- The first stream has the channels 1 and 2, the third 3 to 6, the last 7 and 8.
starts : (after.parameters 2).starting_channel ≡ 3
unfolding create_stream_for_async parameters_for
starts = refl

created_run-IsPlaced_example : IsPlaced 10 after
created_run-IsPlaced_example =
    created_run-IsPlaced (λ x. x) defaults 1 events (no_created_streams defaults) (omega arith)
      (omega arith) (omega arith, omega arith)
