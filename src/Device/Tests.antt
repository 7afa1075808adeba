-- ===== src/Device/Tests.antt =====
-- Short histories of a device, and the theorems at them.
use mathlib.Core.List.Permᴰ
use mathlib.Core.List.{Permᴰ, reverse}
use lib_aspl.Prelude.{
  Map, insert, erase, ℕ, ◌+◌, ◌*◌, ◌/◌, ◌≡◌, ◌≢◌, ◌⊎◌, refl, Bool, true, false, Option, none, some,
  List, [], ◌∷◌, arith, ◌==◌, if◌then◌else◌, lookup, ltb,
}
use lib_aspl.Status.{no_error, unspecified_error, bad_object_error, illegal_operation_error}
use lib_aspl.Device.Configuration.{
  act, request, both, Configuration, new_configuration, request_ownership_change,
}
use lib_aspl.Device.Configuration.Queue.{actions_of_all, request_ownership_change-detach}
use lib_aspl.Device.Configuration.History.{
  ConfigurationEvent, requests, performs, aborts, changes_owner, sets_host, run,
  new_configuration-IsQueue,
}
use lib_aspl.Device.Configuration.Account.{present, aborted, requested, run-present}
use lib_aspl.Device.Io.{new_io, start_io, stop_io, StreamFormat, mix_output}
use lib_aspl.Device.Io.Operations.{perform_operation, IsPerformed, perform_operation_lem}
use lib_aspl.Device.Io.Running.{
  IoEvent, starts, stops, io_run, IsMatched, IsConsistent, new_io-IsConsistent, io_run-IsConsistent,
}
use lib_aspl.Device.Clock.{Clock, get_zero_time_stamp_impl}
use lib_aspl.Device.Clock.Polling.{IsOnTime, IsPolled, polled, polled-IsOnTime}
use lib_aspl.Device.Streams.{
  Direction, input, output, new_streams, add_stream_async, remove_stream_async,
}
use lib_aspl.Device.Streams.Counted.{
  StreamEvent, adds_stream, removes_stream, performs_change, IsUsed, IsCounted, stream_run,
  standing, ups, downs, stream_run-IsCounted,
}
use lib_aspl.Device.Clients.{ClientInfo, new_clients, add_client, remove_client}
use lib_aspl.Device.Clients.Handed.{
  ClientEvent, adds, removes, client_run, IsFresh, IsAccounted, client_run-IsAccounted, count,
}

-- The device becomes visible, two changes are asked for, one is performed and one aborted.
abbrev history : List ConfigurationEvent
history =
    sets_host true
    ∷ changes_owner true
    ∷ requests (both (act 3) (request (act 4)))
    ∷ requests (act 5)
    ∷ performs 0
    ∷ aborts 1
    ∷ []

run-present_example :
    present 4 (run history new_configuration) + aborted 4 history new_configuration
    ≡ present 4 new_configuration + requested 4 history
run-present_example =
    run-present 0 4 new_configuration history new_configuration-IsQueue (omega arith)

abbrev two_pending : Configuration
two_pending = record {
  host = true;
  has_owner = true;
  inside_configuration_handler = 0;
  last_configuration_request_id = 2;
  pending_configuration_requests = (0, act 3) ∷ (1, both (act 4) (act 5)) ∷ [];
  notified = 0 ∷ 1 ∷ [];
  actions = [];
}

request_ownership_change-detach_example :
    request_ownership_change false two_pending ≡ record two_pending {
      has_owner = false;
      pending_configuration_requests = [];
      actions = actions_of_all two_pending.pending_configuration_requests;
    }
request_ownership_change-detach_example =
    request_ownership_change-detach two_pending refl (omega arith, tt)

abbrev io_history : List IoEvent
io_history =
    starts unspecified_error 90 ∷ starts no_error 100 ∷ starts no_error 110 ∷ stops ∷ stops ∷ []

io_history-IsMatched : IsMatched 5 io_history new_io
unfolding start_io stop_io
io_history-IsMatched = (omega arith, (omega arith, tt))

io_run-IsConsistent_example : IsConsistent 5 (io_run 5 io_history new_io)
io_run-IsConsistent_example =
    io_run-IsConsistent 0 5 io_history new_io (omega arith) io_history-IsMatched new_io-IsConsistent

abbrev one_client : ℕ → Option ℕ
one_client client_id = if client_id == 3 then some 30 else none

abbrev stereo : StreamFormat
stereo = record { bytes_per_frame = 8; channel_count = 2 }

abbrev one_stream : ℕ → Option StreamFormat
one_stream stream_id = if stream_id == 7 then some stereo else none

-- 20 ticks of the host's clock are a frame, 100 frames a period.
abbrev ticking : Clock ℕ
ticking = record {
  last_sample_rate = 48000;
  host_ticks_per_frame = 20;
  anchor_host_time = 1000;
  period_counter = 0;
  current_period_timestamp = 0;
  current_period_host_time = 0;
}

abbrev same : ℕ → ℕ → Bool
same a b = a == b

abbrev product : ℕ → ℕ → ℕ
product a b = a * b

abbrev quotient : ℕ → ℕ → ℕ
quotient a b = a / b

abbrev exactly : ℕ → ℕ
exactly n = n

ticking-IsPolled :
    IsPolled same product quotient exactly exactly 960000 48000 100 1000 (2500 ∷ 4000 ∷ []) ticking
unfolding get_zero_time_stamp_impl
ticking-IsPolled = ground arith

polled-IsOnTime_example :
    IsOnTime same product quotient exactly exactly 960000 48000 100
      (polled same product quotient exactly exactly 960000 48000 100 1000
        (2500 ∷ 4000 ∷ [])
        ticking).0
      (polled same product quotient exactly exactly 960000 48000 100 1000
        (2500 ∷ 4000 ∷ [])
        ticking).1
polled-IsOnTime_example =
    polled-IsOnTime same product quotient exactly exactly 960000 48000 100 1000 (2500 ∷ 4000 ∷ [])
      ticking (record { same_rate = refl; begun = omega arith; lasting = omega arith })
      ticking-IsPolled

abbrev info : ClientInfo
info = record { client_id = 3; process_id = 400; is_native_endian = true; bundle_id = 1 }

-- The entries of a map in descending order.
abbrev backwards : Map ℕ → Map ℕ
backwards m = reverse m

backwards-Permᴰ : (m : Map ℕ) → Permᴰ (backwards m) m
backwards-Permᴰ m = Permᴰ.reverse m

abbrev client_events : List ClientEvent
client_events = adds info (some 13) ∷ removes info ∷ removes info ∷ adds info none ∷ []

client_events-IsFresh : IsFresh backwards backwards-Permᴰ 5 client_events new_clients
unfolding lookup add_client remove_client insert erase
client_events-IsFresh = (refl, (refl, tt))

new_clients-IsAccounted : IsAccounted backwards backwards-Permᴰ 5 new_clients
unfolding count
new_clients-IsAccounted = record { sorted = tt; balanced = λ client. refl }

client_run-IsAccounted_example :
    IsAccounted backwards backwards-Permᴰ 5
      (client_run backwards backwards-Permᴰ 5 client_events new_clients)
client_run-IsAccounted_example =
    client_run-IsAccounted backwards backwards-Permᴰ 5 client_events new_clients
      client_events-IsFresh new_clients-IsAccounted

-- Streams from 10 on are output streams.
abbrev direction_of : ℕ → Direction
direction_of stream = if ltb stream 10 then input else output

abbrev stream_id : ℕ → ℕ
stream_id stream = stream + 100

abbrev stream_events : List StreamEvent
stream_events =
    adds_stream true 3
    ∷ adds_stream false 11
    ∷ removes_stream true 3
    ∷ performs_change 1
    ∷ performs_change 0
    ∷ []

stream_events-IsUsed : IsUsed direction_of stream_id stream_events new_streams
unfolding add_stream_async remove_stream_async standing
stream_events-IsUsed = (refl, tt)

stream_run-IsCounted_example :
    IsCounted direction_of stream_id input
      (stream_run direction_of stream_id stream_events new_streams)
unfolding ups downs
stream_run-IsCounted_example =
    stream_run-IsCounted direction_of stream_id input stream_events new_streams stream_events-IsUsed
      refl

-- An output of ten frames on the stream 7 of the device 1.
abbrev device_id : ℕ
device_id = 1

perform_operation_lem_example :
    let r = perform_operation (λ client. none) one_stream device_id device_id 7 9 10 mix_output in
    ((device_id ≢ device_id) × (r ≡ (bad_object_error, [])))
    ⊎ (device_id ≡ device_id) × (one_stream 7 ≡ none) × (r ≡ (illegal_operation_error, []))
    ⊎ (device_id ≡ device_id) × IsPerformed mix_output r
perform_operation_lem_example =
    perform_operation_lem (λ client. none) one_stream device_id device_id 7 9 10 mix_output
