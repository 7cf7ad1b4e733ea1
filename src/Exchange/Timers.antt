-- ===== src/Exchange/Timers.antt =====
-- The delays of the exchange: the limits that the environment sets, each wait, and the measured time.
use fsp.Base.{
  ℕ, ◌+◌, ◌-◌, ◌*◌, ◌%◌, ◌^◌, ◌≤◌, ◌<◌, ◌≡◌, Bool, leb, Option, arith, Bool-cases, inl, inr,
}
use fsp.Exchange.{
  Limits, limits_of, or_default, default_delay, util_get_env, clamp, Moment, round_trip, min_delay,
  max_delay,
}

-- The limits that `client_interact` relies on.
pub record InRange (l : Limits) : Type 0 where
  pub target_low : min_delay ≤ l.target_delay
  pub target_high : l.target_delay ≤ l.target_maxdelay
  pub max_high : l.target_maxdelay ≤ max_delay
  pub timeout : 1 ≤ l.env_timeout

limits_of-InRange : (b : Bool) (w m t : ℕ) → InRange (limits_of b w m t)
unfolding limits_of
limits_of-InRange b w m t = record {
  target_low = ground arith;
  target_high = ground arith;
  max_high = ground arith;
  timeout = ground arith;
}

-- Whatever the environment says, the limits are in their range.
pub util_get_env-InRange :
    (client_timeout : Bool) (fsp_delay fsp_maxdelay fsp_timeout : Option ℕ)
    → InRange (util_get_env client_timeout fsp_delay fsp_maxdelay fsp_timeout)
unfolding util_get_env
util_get_env-InRange b d m t =
    limits_of-InRange b (or_default default_delay d) (or_default 60000 m) (or_default 360 t)

-- Each wait is no shorter than MIN_DELAY and no longer than the limit.
pub clamp-bounds :
    (l : Limits) (w : ℕ) → InRange l → (min_delay ≤ clamp l w) × (clamp l w ≤ l.target_maxdelay)
unfolding clamp
clamp-bounds l w v = ground (arith, v.target_low, v.target_high)

abbrev pub micros : Moment → ℕ
micros m = m.tv_sec * 1000000 + m.tv_usec

-- The measured time is off by less than a millisecond, as long as the clock does not go back and less
-- than 2^50 seconds pass.
pub round_trip-near :
    (stop start : Moment)
    → start.tv_usec < 1000000
    → stop.tv_usec < 1000000
    → stop.tv_sec < 2 ^ 50
    → micros start ≤ micros stop
    → (1000 * round_trip stop start < micros stop - micros start + 1000)
      × (micros stop - micros start < 1000 * round_trip stop start + 1000)
unfolding round_trip
round_trip-near stop start a b c d =
    let secs : ℕ = 1000 * (stop.tv_sec + 2 ^ 64 - start.tv_sec) % 2 ^ 64 in
    let secs_eq : secs ≡ 1000 * (stop.tv_sec - start.tv_sec) = omega (arith, a, b, c, d) in
    elim (Bool-cases (leb start.tv_usec stop.tv_usec)) [
      | inl le ↦ rw (le, round_trip) (ground (arith, le, a, b, c, d, secs_eq))
      | inr gt ↦ rw (gt, round_trip) (ground (arith, gt, a, b, c, d, secs_eq))
    ]
