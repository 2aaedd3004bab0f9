-- ===== src/Monitors/Limits.antt =====
-- src/lib/monitors/condition.ts: the caps, the schedule and the clamps. Times are milliseconds since
-- the epoch.
use agent_studio.Shared.{
  ℕ, zero, suc, ◌+◌, ◌*◌, ◌^◌, ◌≤◌, min, max, Bool, not, ◌&&◌, Option, none, some, ◌≡◌, refl, arith,
  ltb, if◌then◌else◌,
}
use native.Mathlib.Numerals.{towards_suc}
use agent_studio.Shared.Int.{pos_part}
use agent_studio.Shared.Number.{Number, not_finite, ratio, floor, whole}

abbrev pub min_interval_seconds : ℕ
min_interval_seconds = 60

abbrev pub max_interval_seconds : ℕ
max_interval_seconds = 24 * 60 * 60

abbrev pub default_interval_seconds : ℕ
default_interval_seconds = 15 * 60

abbrev pub default_max_checks : ℕ
default_max_checks = 200

abbrev pub hard_max_checks : ℕ
hard_max_checks = 2000

abbrev pub max_consecutive_errors : ℕ
max_consecutive_errors = 5

abbrev pub max_error_backoff_multiplier : ℕ
max_error_backoff_multiplier = 8

abbrev pub max_deadline_ms : ℕ
max_deadline_ms = 30 * 24 * 60 * 60 * 1000

-- `shouldFire`: on the rising edge only.
unfoldable pub should_fire : Bool → Bool → Bool
should_fire met previously_met = met && not previously_met

unfoldable pub clamp_interval : Number → ℕ
unfolding floor
clamp_interval not_finite = default_interval_seconds
clamp_interval (ratio n d) =
    min max_interval_seconds (max min_interval_seconds (pos_part (floor n d)))

unfoldable pub clamp_max_checks : Option Number → ℕ
unfolding floor
clamp_max_checks none = default_max_checks
clamp_max_checks (some not_finite) = default_max_checks
clamp_max_checks (some (ratio n d)) = min hard_max_checks (max 1 (pos_part (floor n d)))

-- What the backoff multiplies the interval by.
unfoldable pub multiplier : ℕ → ℕ
multiplier consecutive_errors =
    if ltb 0 consecutive_errors
    then min (2 ^ consecutive_errors) max_error_backoff_multiplier
    else 1

unfoldable pub compute_next_check_at : ℕ → Number → ℕ → ℕ
compute_next_check_at now interval_seconds consecutive_errors =
    now + clamp_interval interval_seconds * multiplier consecutive_errors * 1000

-- A deadline as it is asked for: none, a date that does not parse, or a time.
pub data Requested : Type 0 where
  absent invalid : Requested
  time : ℕ → Requested

unfoldable pub clamp_deadline : Requested → ℕ → Number → ℕ
unfolding clamp_interval
clamp_deadline absent now interval_seconds = now + max_deadline_ms
clamp_deadline invalid now interval_seconds = now + max_deadline_ms
clamp_deadline (time t) now interval_seconds =
    let ceiling = now + max_deadline_ms in
    let lowest = now + clamp_interval interval_seconds * 1000 in
    if ltb ceiling t then ceiling else if ltb t lowest then lowest else t

-- Every interval is between a minute and a day.
pub clamp_interval_bounds :
    (x : Number)
    → (min_interval_seconds ≤ clamp_interval x) × (clamp_interval x ≤ max_interval_seconds)
unfolding clamp_interval
clamp_interval_bounds not_finite = omega arith
clamp_interval_bounds (ratio n d) = omega arith

-- Every budget is between one check and the hard maximum, and a whole number of checks is cut to
-- these.
pub clamp_max_checks_bounds :
    (x : Option Number) (n : ℕ)
    → (1 ≤ clamp_max_checks x)
      × (clamp_max_checks x ≤ hard_max_checks)
      × (clamp_max_checks (some (whole n)) ≡ min hard_max_checks (max 1 n))
unfolding clamp_max_checks
clamp_max_checks_bounds none n = omega arith
clamp_max_checks_bounds (some not_finite) n = omega arith
clamp_max_checks_bounds (some (ratio m d)) n = omega arith

-- However a deadline is asked for, it lies at least a minute and at most 30 days ahead; a time that
-- is asked for is moved to the nearest one that is at least one interval and at most 30 days ahead.
pub clamp_deadline_bounds :
    (r : Requested) (now t : ℕ) (interval : Number)
    → (now + min_interval_seconds * 1000 ≤ clamp_deadline r now interval)
      × (clamp_deadline r now interval ≤ now + max_deadline_ms)
      × (clamp_deadline (time t) now interval
          ≡ min (now + max_deadline_ms) (max (now + clamp_interval interval * 1000) t))
unfolding clamp_deadline
clamp_deadline_bounds absent now t interval = ground (arith, clamp_interval_bounds interval)
clamp_deadline_bounds invalid now t interval = ground (arith, clamp_interval_bounds interval)
clamp_deadline_bounds (time u) now t interval = ground (arith, clamp_interval_bounds interval)

pow_two_grows : (n : ℕ) → (1 ≤ 2 ^ n) × (2 ^ n ≤ 2 ^ (n + 1))
pow_two_grows zero = omega arith
pow_two_grows (suc n) = simp towards_suc (omega (arith, pow_two_grows n))

scaled : (i m n : ℕ) → m ≤ n → i * m ≤ i * n
scaled i m n h = grind arith

multiplier_bounds :
    (errors : ℕ)
    → (1 ≤ multiplier errors)
      × (multiplier errors ≤ 8)
      × (multiplier errors ≤ multiplier (errors + 1))
unfolding multiplier
multiplier_bounds zero = ground arith
multiplier_bounds (suc n) = ground (arith, pow_two_grows n, pow_two_grows (suc n))

-- The next check is at least one interval and at most eight days ahead; with no error it is exactly
-- one interval ahead, and a further error never brings it nearer.
pub compute_next_check_at_bounds :
    (now : ℕ) (interval : Number) (errors : ℕ)
    → (compute_next_check_at now interval 0 ≡ now + clamp_interval interval * 1000)
      × (now + clamp_interval interval * 1000 ≤ compute_next_check_at now interval errors)
      × (compute_next_check_at now interval errors ≤ now + 8 * max_interval_seconds * 1000)
      × (compute_next_check_at now interval errors
          ≤ compute_next_check_at now interval (errors + 1))
unfolding compute_next_check_at
compute_next_check_at_bounds now interval errors =
    let (low, high, grows) = multiplier_bounds errors in
    let i = clamp_interval interval in
    let capped = scaled 8 i max_interval_seconds (clamp_interval_bounds interval).1 in
    let none : multiplier 0 ≡ 1 = unfold multiplier in refl in
    (
      rw none (omega arith),
      omega (arith, scaled i 1 (multiplier errors) low),
      omega (arith, scaled i (multiplier errors) 8 high, capped),
      omega (arith, scaled i (multiplier errors) (multiplier (errors + 1)) grows),
    )
