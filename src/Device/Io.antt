-- ===== src/Device/Io.antt =====
-- src/Device.cpp: starting and stopping IO, which operations a device does, and which method of the
-- IO handler each of them reaches. `ioMutex_` serializes the calls. The tracer's calls are left out.
pub mod Running
pub mod Operations
use lib_aspl.Prelude.{
  ℕ, ◌+◌, ◌-◌, ◌*◌, ◌%◌, ◌^◌, Bool, true, false, not, ◌&&◌, ◌||◌, Option, none, some, List, [], ◌∷◌,
  ◌++◌, if◌then◌else◌, ◌==◌, ltb,
}
use lib_aspl.Status.{Status, no_error, bad_object_error, illegal_operation_error, is_ok}

-- What the control handler of the device's user is asked: `OnStartIO`, with its answer, or
-- `OnStopIO`.
pub data ControlCall : Type 0 where
  on_start_io : Status → ControlCall
  on_stop_io : ControlCall

-- `start_count` is an SInt32 in two's complement. `control_calls` starts with the newest call, and
-- `notifications` counts the notifications about kAudioDevicePropertyDeviceIsRunning.
pub record IoState : Type 0 where
  pub start_count : ℕ
  pub anchor_host_time : ℕ
  pub period_counter : ℕ
  pub control_calls : List ControlCall
  pub notifications : ℕ

abbrev pub new_io : IoState
new_io = record {
  start_count = 0;
  anchor_host_time = 0;
  period_counter = 0;
  control_calls = [];
  notifications = 0;
}

abbrev pub i32 : ℕ → ℕ
i32 n = n % 2 ^ 32

-- startCount_ > 0
unfoldable pub get_is_running : IoState → Bool
get_is_running s = ltb 0 s.start_count && ltb s.start_count (2 ^ 31)

-- `answer` is what `OnStartIO` returns, `now` is mach_absolute_time().
abbrev pub start_io_impl : (answer : Status) (now start_count : ℕ) → IoState → Status × IoState
start_io_impl answer now start_count s =
    if start_count == 0
    then (if is_ok answer
        then (
          no_error,
          record s {
            control_calls = on_start_io answer ∷ s.control_calls;
            anchor_host_time = now;
            period_counter = 0;
          },
        )
        else (answer, record s { control_calls = on_start_io answer ∷ s.control_calls }))
    else (no_error, s)

abbrev pub notify_is_running : Bool → IoState → IoState
notify_is_running changed s =
    if changed then record s { notifications = s.notifications + 1 } else s

unfoldable pub start_io :
    (self_id object_id : ℕ) (answer : Status) (now : ℕ) → IoState → Status × IoState
start_io self_id object_id answer now s =
    if not (object_id == self_id)
    then (bad_object_error, s)
    else (let r = start_io_impl answer now s.start_count s in
        if is_ok r.0
        then (
          no_error,
          notify_is_running (s.start_count == 0)
              (record r.1 { start_count = i32 (r.1.start_count + 1) }),
        )
        else r)

abbrev pub stop_io_impl : (start_count : ℕ) → IoState → Status × IoState
stop_io_impl start_count s =
    if start_count == 0
    then (no_error, record s { control_calls = on_stop_io ∷ s.control_calls })
    else (no_error, s)

unfoldable pub stop_io : (self_id object_id : ℕ) → IoState → Status × IoState
stop_io self_id object_id s =
    if not (object_id == self_id)
    then (bad_object_error, s)
    else (let r = stop_io_impl (i32 (s.start_count + (2 ^ 32 - 1))) s in
        if is_ok r.0
        then (
          no_error,
          notify_is_running (s.start_count == 1)
              (record r.1 { start_count = i32 (r.1.start_count + (2 ^ 32 - 1)) }),
        )
        else r)

-- kAudioServerPlugInIOOperation…
pub data IoOperation : Type 0 where
  read_input : IoOperation
  process_input : IoOperation
  mix_output : IoOperation
  process_mix : IoOperation
  write_mix : IoOperation
  other_operation : ℕ → IoOperation

-- Whether `WillDoIOOperationImpl` sets *outWillDo and *outWillDoInPlace, which are always set
-- together.
unfoldable pub will_do :
    (num_input_streams num_output_streams : ℕ) (enable_mixing : Bool) → IoOperation → Bool
will_do ins outs mixing read_input = ltb 0 ins
will_do ins outs mixing process_input = ltb 0 ins
will_do ins outs mixing mix_output = ltb 0 outs && not mixing
will_do ins outs mixing process_mix = ltb 0 outs && mixing
will_do ins outs mixing write_mix = ltb 0 outs && mixing
will_do ins outs mixing (other_operation n) = false

-- The outputs that `WillDoIOOperation` writes, if it does: *outWillDo, *outWillDoInPlace.
unfoldable pub will_do_io_operation :
    (self_id object_id num_input_streams num_output_streams : ℕ) (enable_mixing : Bool)
    → IoOperation
    → Status × Option (Bool × Bool)
will_do_io_operation self_id object_id ins outs mixing operation =
    if not (object_id == self_id)
    then (bad_object_error, none)
    else (no_error, some (will_do ins outs mixing operation, will_do ins outs mixing operation))

-- `Impl` does nothing by default.
abbrev pub begin_io_operation_impl : (client_id : ℕ) → IoOperation → (io_frame_count : ℕ) → Status
begin_io_operation_impl client_id operation io_frame_count = no_error

unfoldable pub begin_io_operation :
    (self_id object_id client_id : ℕ) → IoOperation → (io_frame_count : ℕ) → Status
begin_io_operation self_id object_id client_id operation io_frame_count =
    if not (object_id == self_id)
    then bad_object_error
    else begin_io_operation_impl client_id operation io_frame_count

abbrev pub end_io_operation_impl : (client_id : ℕ) → IoOperation → (io_frame_count : ℕ) → Status
end_io_operation_impl client_id operation io_frame_count = no_error

unfoldable pub end_io_operation :
    (self_id object_id client_id : ℕ) → IoOperation → (io_frame_count : ℕ) → Status
end_io_operation self_id object_id client_id operation io_frame_count =
    if not (object_id == self_id)
    then bad_object_error
    else end_io_operation_impl client_id operation io_frame_count

-- The methods of the IO handler, without timestamps and buffers. A client may be missing, a stream is
-- there.
pub data IoCall : Type 0 where
  on_read_client_input : (client : Option ℕ) (stream bytes : ℕ) → IoCall
  on_process_client_input : (client : Option ℕ) (stream frames channels : ℕ) → IoCall
  on_process_client_output : (client : Option ℕ) (stream frames channels : ℕ) → IoCall
  on_write_client_output : (client : Option ℕ) (stream frames channels : ℕ) → IoCall
  on_process_mixed_output : (stream frames channels : ℕ) → IoCall
  on_write_mixed_output : (stream bytes : ℕ) → IoCall

-- What `DoIOOperationImpl` reads of the stream.
pub record StreamFormat : Type 0 where
  pub bytes_per_frame : ℕ
  pub channel_count : ℕ

module _ (get_client : ℕ → Option ℕ) (get_stream : ℕ → Option StreamFormat) where
  abbrev pub io_calls : (stream_id client_id frames : ℕ) → StreamFormat → IoOperation → List IoCall
  io_calls stream client frames f read_input =
      on_read_client_input (get_client client) stream (frames * f.bytes_per_frame % 2 ^ 32) ∷ []
  io_calls stream client frames f process_input =
      on_process_client_input (get_client client) stream frames f.channel_count ∷ []
  io_calls stream client frames f mix_output =
      on_process_client_output (get_client client) stream frames f.channel_count
      ∷ on_write_client_output (get_client client) stream frames f.channel_count
      ∷ []
  io_calls stream client frames f process_mix =
      on_process_mixed_output stream frames f.channel_count ∷ []
  io_calls stream client frames f write_mix =
      on_write_mixed_output stream (frames * f.bytes_per_frame % 2 ^ 32) ∷ []
  io_calls stream client frames f (other_operation n) = []

  -- The handler's calls come second.
  unfoldable pub do_io_operation :
      (self_id object_id stream_id client_id : ℕ)
      → IoOperation
      → (io_frame_count : ℕ) → Status × List IoCall
  do_io_operation self_id object_id stream_id client_id operation frames =
      if not (object_id == self_id) then (bad_object_error, []) else elim (get_stream stream_id) [
        | none ↦ (illegal_operation_error, [])
        | some f ↦ (no_error, io_calls stream_id client_id frames f operation)
      ]
