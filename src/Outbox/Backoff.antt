-- ===== src/Outbox/Backoff.antt =====
-- `backoff` of internal/outbox/outbox.go. A Duration counts nanoseconds. A float64 has 53 bits, so a base from
-- 2 ^ 53 up is rounded; its product with a power of two is exact. What the machine makes of a float64
-- that no int64 holds is a parameter.
use native.Mathlib.Nat.{pow-le-pow_right, mul-le-mul_left}
use seatd_v.Base.{
  zero, suc, ◌≤◌, ◌<◌, ◌≡◌, arith, ℕ, ◌+◌, ◌-◌, ◌*◌, ◌/◌, ◌%◌, ◌^◌, Bool, false, ltb, leb, ◌==◌,
  ◌||◌, ◌&&◌, if◌then◌else◌,
}

pub data Duration : Type 0 where
  forth back : ℕ → Duration

abbrev pub is_above : Duration → ℕ → Bool
is_above (forth n) limit = ltb limit n
is_above (back n) limit = false

-- now() + duration, of an instant later than every duration back
abbrev pub add_duration : ℕ → Duration → ℕ
add_duration now (forth n) = now + n
add_duration now (back n) = now - n

-- delay.Milliseconds(), which stops at the whole number towards zero
abbrev pub whole_of : ℕ → Duration → Duration
whole_of unit (forth n) = forth (n / unit * 1000)
whole_of unit (back n) = back (n / unit * 1000)

abbrev pub max_int64 : ℕ
max_int64 = 9223372036854775807

pub record Backoff : Type 0 where
  pub base : ℕ
  pub limit : ℕ
  pub overflowed : ℕ → Duration  -- time.Duration of a float64 beyond int64

-- The unit in the last place of the float64 next to a positive int64: 2 ^ 10 at most, and 1 below 2 ^ 53
abbrev pub ulp : ℕ → ℕ
ulp n = ulp_from 10
  where
    ulp_from : ℕ → ℕ
    ulp_from zero = 1
    ulp_from (suc k) =
        let smaller = ulp_from k in if leb (2 ^ (53 + k)) n then 2 ^ (suc k) else smaller

-- float64(n): the nearest multiple of the unit, the even one of two
abbrev pub rounded : ℕ → ℕ → ℕ → ℕ
rounded unit quotient rest =
    if ltb (rest + rest) unit || (rest + rest == unit && quotient % 2 == 0)
    then quotient * unit
    else suc quotient * unit

unfoldable pub to_float : ℕ → ℕ
to_float n = if ltb n (2 ^ 53) then n else rounded (ulp n) (n / ulp n) (n % ulp n)

-- time.Duration(float64(w.backoffBase) * math.Pow(2, exponent))
unfoldable pub scaled : Backoff → ℕ → Duration
unfolding to_float
scaled w exponent =
    if ltb max_int64 (to_float w.base * 2 ^ exponent)
    then w.overflowed (to_float w.base * 2 ^ exponent)
    else forth (to_float w.base * 2 ^ exponent)

unfoldable pub backoff : Backoff → ℕ → Duration
unfolding scaled
backoff w attempt =
    if is_above (scaled w (attempt - 1)) w.limit then forth w.limit else scaled w (attempt - 1)

-- With a base below 2 ^ 53, and as long as the base doubled for each attempt but the first fits into an
-- int64, the delay of a later attempt is no shorter than that of an earlier one, none is longer than the limit, and each is
-- forward in time.
pub backoff_monotone :
    (w : Backoff) (n d : ℕ)
    → w.base < 2 ^ 53
    → w.base * 2 ^ (n + d) ≤ max_int64
    → (x y : ℕ) × (backoff w (suc n) ≡ forth x)
      × (backoff w (suc (n + d)) ≡ forth y)
      × (x ≤ y)
      × (y ≤ w.limit)
unfolding backoff scaled to_float
backoff_monotone w n d exact fits =
    let a = w.base * 2 ^ n in
    let b = w.base * 2 ^ (n + d) in
    let a_le_b : a ≤ b =
      mul-le-mul_left w.base
        (pow-le-pow_right {n = 2} (omega arith) {i = n} {j = n + d} (omega arith)) in
    (
      if ltb w.limit a then w.limit else a,
      if ltb w.limit b then w.limit else b,
      ground arith,
      ground arith,
      ground arith,
      ground arith,
    )
