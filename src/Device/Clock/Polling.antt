-- ===== src/Device/Clock/Polling.antt =====
-- src/Device.cpp: the timestamps of a device that the HAL polls at least once in a period.
use lib_aspl.Prelude.{ℕ, ◌+◌, ◌^◌, ◌<◌, ◌≤◌, ◌≡◌, Bool, true, List, [], ◌∷◌, arith}
use lib_aspl.Device.Clock.{Clock, ZeroTimestamp, host_ticks, get_zero_time_stamp_impl}

module _ {F : Type 0} (equal : F → F → Bool) (times over : F → F → F) (of_nat : ℕ → F)
    (to_u64 : F → ℕ) (frequency rate : F) (period : ℕ) where
  abbrev pub poll : (now : ℕ) → Clock F → ZeroTimestamp F × Clock F
  poll now s = get_zero_time_stamp_impl equal times over of_nat to_u64 frequency rate period now s

  -- The host time at which a period begins.
  abbrev pub begin : (counter : ℕ) → Clock F → ℕ
  begin counter s =
      s.anchor_host_time + host_ticks equal times over of_nat to_u64 frequency period counter s

  -- At time `now` the clock stands in the right period, its rate is the device's.
  pub record IsOnTime (now : ℕ) (s : Clock F) : Type 0 where
    pub same_rate : equal rate s.last_sample_rate ≡ true
    pub begun : begin s.period_counter s ≤ now
    pub lasting : now < begin (s.period_counter + 1) s

  -- The next poll comes before the next period ends, and the times stay in 64 bits.
  abbrev pub IsSoon : (last now : ℕ) → Clock F → Type 0
  IsSoon last now s =
      (last ≤ now)
      × (now < begin (s.period_counter + 2) s)
      × (begin (s.period_counter + 2) s < 2 ^ 64)
      × (begin (s.period_counter + 1) s < 2 ^ 64)
      × (s.period_counter + 2 < 2 ^ 64)

  abbrev pub IsPolled : (last : ℕ) → List ℕ → Clock F → Type 0
  IsPolled last [] s = Unit
  IsPolled last (now ∷ times) s = IsSoon last now s × IsPolled now times (poll now s).1

  -- The clock and the time after some polls.
  abbrev pub polled : (last : ℕ) → List ℕ → Clock F → ℕ × Clock F
  polled last [] s = (last, s)
  polled last (now ∷ times) s = polled now times (poll now s).1

  -- A timely poll reports a period that has begun and not ended, and the clock stands in it.
  pub poll-IsOnTime :
      (last now : ℕ) (s : Clock F)
      → IsOnTime last s
      → IsSoon last now s
      → IsOnTime now (poll now s).1
        × ((poll now s).0.host_time ≤ now)
        × ((poll now s).0.host_time ≡ begin (poll now s).1.period_counter s)
        × ((poll now s).0.sample_time
            ≡ times (of_nat (poll now s).1.period_counter) (of_nat period))
  unfolding get_zero_time_stamp_impl
  poll-IsOnTime last now s c soon = (
    record {
      same_rate = ground (arith, c.same_rate);
      begun =
          ground (arith, c.same_rate, c.begun, c.lasting, soon.0, soon.1, soon.2, soon.3, soon.4);
      lasting =
          ground (arith, c.same_rate, c.begun, c.lasting, soon.0, soon.1, soon.2, soon.3, soon.4);
    },
    ground (arith, c.same_rate, c.begun, c.lasting, soon.0, soon.1, soon.2, soon.3, soon.4),
    ground (arith, c.same_rate, c.begun, c.lasting, soon.0, soon.1, soon.2, soon.3, soon.4),
    ground (arith, c.same_rate),
  )

  -- At a constant sample rate and period, a clock that stands in the period of the last poll does
  -- so after any further polls, each before the end of the period after the clock's, as long as
  -- times and counter stay in 64 bits.
  pub polled-IsOnTime :
      (last : ℕ) (ts : List ℕ) (s : Clock F)
      → IsOnTime last s
      → IsPolled last ts s
      → IsOnTime (polled last ts s).0 (polled last ts s).1
  polled-IsOnTime last [] s c p = c
  polled-IsOnTime last (now ∷ ts) s c p =
      polled-IsOnTime now ts (poll now s).1 (poll-IsOnTime last now s c p.0).0 p.1
