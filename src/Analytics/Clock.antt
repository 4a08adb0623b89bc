-- ===== src/Analytics/Clock.antt =====
-- The parts of a time of day in internal/domain/analytics/service_period.go. A Duration counts
-- nanoseconds; the microseconds of a pgtype.Time are not negative and within a day.
use seatd_v.Base.{ℕ, ◌+◌, ◌-◌, ◌*◌, ◌/◌, ◌≡◌, ◌≤◌, ◌<◌, arith}

abbrev pub hour_length : ℕ
hour_length = 3600000000000

abbrev pub minute_length : ℕ
minute_length = 60000000000

abbrev pub second_length : ℕ
second_length = 1000000000

pub record TimeParts : Type 0 where
  pub hour : ℕ
  pub minute : ℕ
  pub second : ℕ
  pub nano : ℕ

unfoldable pub time_parts : ℕ → TimeParts
time_parts microseconds =
    let duration = microseconds * 1000 in
    let hour = duration / hour_length in
    let past_hour = duration - hour * hour_length in
    let minute = past_hour / minute_length in
    let past_minute = past_hour - minute * minute_length in
    let second = past_minute / second_length in
    record {
      hour = hour;
      minute = minute;
      second = second;
      nano = past_minute - second * second_length;
    }

-- What ParseClock makes of the parts that time.Parse returned.
unfoldable pub clock_micros : ℕ → ℕ → ℕ → ℕ
clock_micros hour minute second =
    hour * (hour_length / 1000) + minute * (minute_length / 1000) + second * (second_length / 1000)

module _ (n : ℕ) (in_day : n ≤ 86400000000) where
  -- Of a time within a day, midnight at its end included, each part is below its limit, the hour is
  -- at most 24, and the parts make up the time.
  pub time_parts-bounded :
      ((time_parts n).hour ≤ 24)
      × ((time_parts n).minute < 60)
      × ((time_parts n).second < 60)
      × ((time_parts n).nano < second_length)
      × ((time_parts n).hour * hour_length
            + (time_parts n).minute * minute_length
            + (time_parts n).second * second_length
            + (time_parts n).nano
          ≡ n * 1000)
  unfolding time_parts
  time_parts-bounded = ground arith

-- The parts of a clock within a day that was parsed are the parts that it was parsed from.
pub time_parts-clock_micros :
    (hour minute second : ℕ)
    → hour < 24
    → minute < 60
    → second < 60
    → time_parts (clock_micros hour minute second)
      ≡ record { hour = hour; minute = minute; second = second; nano = 0 }
unfolding time_parts clock_micros
time_parts-clock_micros hour minute second h m s =
    let p = time_parts (clock_micros hour minute second) in
    let hours : p.hour ≡ hour = ground arith in
    let minutes : p.minute ≡ minute = ground (arith, hours) in
    let seconds : p.second ≡ second = ground (arith, hours, minutes) in
    let nanos : p.nano ≡ 0 = ground (arith, hours, minutes, seconds) in
    λ i. record { hour = hours i; minute = minutes i; second = seconds i; nano = nanos i }
