-- ===== src/Device/Clock.antt =====
-- src/Device.cpp: the timestamps that a running device reports. `F` stands for Float64, whose
-- arithmetic is a parameter: comparison, product, quotient and the conversions from and to UInt64.
-- The tracer's calls are left out.
pub mod Polling
use lib_aspl.Prelude.{
  ℕ, ◌+◌, ◌%◌, ◌^◌, Bool, true, false, not, Option, none, some, if◌then◌else◌, ◌==◌, leb,
}
use lib_aspl.Status.{Status, no_error, bad_object_error}

pub record Clock (F : Type 0) : Type 0 where
  pub last_sample_rate : F
  pub host_ticks_per_frame : F
  pub anchor_host_time : ℕ
  pub period_counter : ℕ
  pub current_period_timestamp : F
  pub current_period_host_time : ℕ

-- What is written to the output pointers.
pub record ZeroTimestamp (F : Type 0) : Type 0 where
  pub sample_time : F
  pub host_time : ℕ
  pub seed : ℕ

abbrev pub u64 : ℕ → ℕ
u64 n = n % 2 ^ 64

module _ {F : Type 0} (equal : F → F → Bool) (times over : F → F → F) (of_nat : ℕ → F)
    (to_u64 : F → ℕ) (host_clock_frequency : F) where
  -- Handle sample rate change.
  abbrev pub use_sample_rate : (rate : F) → Clock F → Clock F
  use_sample_rate rate s =
      if not (equal rate s.last_sample_rate)
      then record s {
        host_ticks_per_frame = over host_clock_frequency rate;
        last_sample_rate = rate;
      }
      else s

  -- UInt64(Float64(counter) * hostTicksPerPeriod)
  abbrev pub host_ticks : (period counter : ℕ) → Clock F → ℕ
  host_ticks period counter s =
      to_u64 (times (of_nat counter) (times s.host_ticks_per_frame (of_nat period)))

  abbrev pub advance : (period now : ℕ) → Clock F → Clock F
  advance period now s =
      if leb (u64 (s.anchor_host_time + host_ticks period (u64 (s.period_counter + 1)) s)) now
      then record s { period_counter = u64 (s.period_counter + 1) }
      else s

  abbrev pub stamp : (period : ℕ) → Clock F → Clock F
  stamp period s = record s {
    current_period_timestamp = times (of_nat s.period_counter) (of_nat period);
    current_period_host_time = u64 (s.anchor_host_time + host_ticks period s.period_counter s);
  }

  unfoldable pub get_zero_time_stamp_impl :
      (rate : F) (period now : ℕ) → Clock F → ZeroTimestamp F × Clock F
  get_zero_time_stamp_impl rate period now s =
      let t : Clock F = stamp period (advance period now (use_sample_rate rate s)) in
      (
        record {
          sample_time = t.current_period_timestamp;
          host_time = t.current_period_host_time;
          seed = 1;
        },
        t,
      )

  unfoldable pub get_zero_time_stamp :
      (self_id object_id : ℕ) (rate : F) (period now : ℕ)
      → Clock F
      → Status × Option (ZeroTimestamp F) × Clock F
  unfolding get_zero_time_stamp_impl
  get_zero_time_stamp self_id object_id rate period now s =
      if not (object_id == self_id)
      then (bad_object_error, none, s)
      else (let r = get_zero_time_stamp_impl rate period now s in (no_error, some r.0, r.1))
