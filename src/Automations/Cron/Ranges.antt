-- ===== src/Automations/Cron/Ranges.antt =====
-- What the fields of a cron expression stand for: the values of a range with a step, and that every
-- value of a field lies between the bounds of its column.
use agent_studio.Shared.{
  ℕ, zero, suc, ◌+◌, ◌-◌, ◌%◌, ◌≤◌, ◌<◌, ◌&&◌, ◌||◌, ◌≡◌, arith, ltb, leb, ◌==◌, Bool-cases, inl,
  inr,
}
use agent_studio.Automations.Cron.Fields.{values_from, has, steps}

-- One step of the remainder.
rem_step : (m step : ℕ) → 0 < step → step ≤ m → (m - step) % step ≡ m % step
rem_step m step p h = grind arith

rem_small : (m step : ℕ) → m < step → m % step ≡ m
rem_small m step h = grind arith

-- The first value of a progression, or a later one.
first_or_later :
    (value end step n : ℕ)
    → 0 < step
    → value ≤ end
    → (value == n || (leb (value + step) n && leb n end && (n - (value + step)) % step == 0))
      ≡ (leb value n && leb n end && (n - value) % step == 0)
first_or_later value end step n p le = elim (Bool-cases (leb (value + step) n)) [
  | inl far ↦
      let same : (n - value - step) % step ≡ (n - value) % step =
        rem_step (n - value) step p (ground arith) in
      let at : n - (value + step) ≡ n - value - step = omega arith in rw (at, same) (ground arith)
  | inr near ↦ elim (Bool-cases (ltb value n)) [
    | inl above ↦
        let same : (n - value) % step ≡ n - value = rem_small (n - value) step (ground arith) in
        rw same (ground arith)
    | inr below ↦
        let zero_rem : (n - value) % step ≡ 0 =
          (let none : n - value ≡ 0 = ground arith in rw none (rem_small 0 step p)) in
        rw zero_rem (ground arith)
  ]
]

has-values_from :
    (rounds step end value n : ℕ)
    → 0 < step
    → end < value + rounds
    → has (values_from rounds step end value) n
      ≡ (leb value n && leb n end && (n - value) % step == 0)
unfolding values_from
has-values_from zero step end value n p e = ground arith
has-values_from (suc rounds) step end value n p e = elim (Bool-cases (leb value end)) [
  | inl within ↦ rw within (
      rw (has-values_from rounds step end (value + step) n p (omega arith))
        (first_or_later value end step n p (ground arith)))
  | inr past ↦ rw past (ground arith)
]

-- An element of a field from start to end with a step stands for exactly the numbers that are between
-- these and a whole number of steps from the start.
pub steps_lem :
    (start end step n : ℕ)
    → 0 < step
    → has (steps (start, end) step) n ≡ (leb start n && leb n end && (n - start) % step == 0)
steps_lem start end step n p = has-values_from (suc end) step end start n p (omega arith)
