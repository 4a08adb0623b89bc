-- ===== src/Analytics/Tests.antt =====
-- A session that spans two windows, and a clock.
use seatd_v.Base.{◌+◌, ◌-◌, ◌*◌, ◌≡◌, ◌≤◌, ◌<◌, some, arith}
use seatd_v.Analytics.Overlap.{
  overlap_duration, session_end, overlap_duration-additive, overlap_duration-bounded,
}
use seatd_v.Analytics.Clock.{
  time_parts, clock_micros, hour_length, minute_length, second_length, time_parts-bounded,
  time_parts-clock_micros,
}

overlap_duration-additive_example :
    ((overlap_duration 50 (some 170) 0 100 900).0 + (overlap_duration 50 (some 170) 100 150 900).0
      ≡ (overlap_duration 50 (some 170) 0 150 900).0)
    × ((overlap_duration 50 (some 170) 0 100 900).1 ≡ (overlap_duration 50 (some 170) 0 150 900).1)
overlap_duration-additive_example =
    overlap_duration-additive 50 (some 170) 900 0 100 150 (omega arith) (omega arith) (omega arith)

overlap_duration-bounded_example :
    ((overlap_duration 50 (some 170) 100 150 900).0 ≤ 150 - 100)
    × ((overlap_duration 50 (some 170) 100 150 900).0 ≤ session_end (some 170) 900 - 50)
overlap_duration-bounded_example = overlap_duration-bounded 50 (some 170) 900 100 150

time_parts-bounded_example :
    ((time_parts 45296000000).hour ≤ 24)
    × ((time_parts 45296000000).minute < 60)
    × ((time_parts 45296000000).second < 60)
    × ((time_parts 45296000000).nano < second_length)
    × ((time_parts 45296000000).hour * hour_length
          + (time_parts 45296000000).minute * minute_length
          + (time_parts 45296000000).second * second_length
          + (time_parts 45296000000).nano
        ≡ 45296000000 * 1000)
time_parts-bounded_example = time_parts-bounded 45296000000 (omega arith)

time_parts-clock_micros_example :
    time_parts (clock_micros 12 34 56) ≡ record { hour = 12; minute = 34; second = 56; nano = 0 }
time_parts-clock_micros_example =
    time_parts-clock_micros 12 34 56 (omega arith) (omega arith) (omega arith)
