-- ===== src/Analytics/Overlap.antt =====
-- OverlapSeconds of internal/domain/analytics/formulas.go. Instants are nanoseconds; the result is the
-- Duration that the code turns into seconds as a float64.
use seatd_v.Base.{
  ℕ, ◌+◌, ◌-◌, ◌≡◌, ◌≤◌, Bool, true, false, not, Option, none, some, ltb, if◌then◌else◌, arith,
}

abbrev pub max_duration : ℕ
max_duration = 9223372036854775807

-- Time.Sub, of a later instant and an earlier one: a Duration that is too long stops at the maximum.
abbrev pub sub_time : ℕ → ℕ → ℕ
sub_time later earlier =
    if ltb max_duration (later - earlier) then max_duration else later - earlier

-- a.After(b)
abbrev pub max_time : ℕ → ℕ → ℕ
max_time a b = if ltb b a then a else b

-- a.Before(b)
abbrev pub min_time : ℕ → ℕ → ℕ
min_time a b = if ltb a b then a else b

abbrev pub session_end : Option ℕ → ℕ → ℕ
session_end none as_of = as_of
session_end (some end) as_of = end

unfoldable pub overlap_duration : ℕ → Option ℕ → ℕ → ℕ → ℕ → ℕ × Bool
overlap_duration start end window_start window_end as_of =
    if ltb (session_end end as_of) start
    then (0, false)
    else if not (ltb (max_time start window_start) (min_time (session_end end as_of) window_end))
    then (0, true)
    else (
      sub_time (min_time (session_end end as_of) window_end) (max_time start window_start),
      true,
    )

module _ (start : ℕ) (end : Option ℕ) (as_of : ℕ) where
  -- Two windows that meet, together no longer than a Duration, split the overlap of a session with
  -- the window that they make up, and report the same anomaly.
  pub overlap_duration-additive :
      (a b c : ℕ)
      → a ≤ b
      → b ≤ c
      → c ≤ a + max_duration
      → ((overlap_duration start end a b as_of).0 + (overlap_duration start end b c as_of).0
          ≡ (overlap_duration start end a c as_of).0)
        × ((overlap_duration start end a b as_of).1 ≡ (overlap_duration start end a c as_of).1)
  unfolding overlap_duration
  overlap_duration-additive a b c ab bc long = ground arith

  -- The overlap is at most the length of the window and at most the length of the session, whatever
  -- the order of the instants.
  pub overlap_duration-bounded :
      (a b : ℕ)
      → ((overlap_duration start end a b as_of).0 ≤ b - a)
        × ((overlap_duration start end a b as_of).0 ≤ session_end end as_of - start)
  unfolding overlap_duration
  overlap_duration-bounded a b = ground arith
