-- ===== src/Monitors/Kept.antt =====
-- What a check leaves alone: the interval, the deadline and the budget of its monitor.
use agent_studio.Shared.{
  ℕ, ◌≤◌, max, Bool, true, false, none, some, List, ◌≡◌, arith, leb, Bool-cases, inl, inr,
}
use agent_studio.Monitors.Limits.{should_fire}
use agent_studio.Monitors.Run.{
  MonitorRow, MonitorObservation, Evaluation, blocked, error, observed, Effect, World, is_active,
  error_row, observed_row, blocked_row, expire_check, exhaust_check, blocked_check, error_check,
  observed_check, record_observation, conclude, check_row,
}
use agent_studio.Monitors.Caps.{commit_alone}

-- The second row is the first with other results, and with no more checks than its budget or those
-- that it had.
pub record IsKept (old new : MonitorRow) : Type 0 where
  pub interval : new.interval_seconds ≡ old.interval_seconds
  pub deadline : new.deadline_at ≡ old.deadline_at
  pub budget : new.max_checks ≡ old.max_checks
  pub count : new.check_count ≤ max old.check_count old.max_checks

abbrev pub IsKeptWorld : MonitorRow → World → Type 0
IsKeptWorld old w = elim w.monitor [ none ↦ Unit {0} | some new ↦ IsKept old new ]

record_observation-IsKept :
    (dispatch : MonitorRow → Bool) (row : MonitorRow) (now : ℕ) (o : MonitorObservation)
    (met fire : Bool) (es : List Effect)
    → is_active row.status ≡ true
    → leb row.max_checks row.check_count ≡ false
    → IsKeptWorld row
        (record_observation dispatch row now o met fire
          (record { monitor = some row; effects = es })).0
unfolding record_observation
record_observation-IsKept dispatch row now o met true es a left =
    rw (commit_alone row (observed_row row now o met true) es a, record_observation) (ground arith)
record_observation-IsKept dispatch row now o met false es a left =
    rw (commit_alone row (observed_row row now o met false) es a, record_observation) (ground arith)

conclude-IsKept :
    (dispatch : MonitorRow → Bool) (row : MonitorRow) (now : ℕ) (e : Evaluation) (es : List Effect)
    → is_active row.status ≡ true
    → leb row.max_checks row.check_count ≡ false
    → IsKeptWorld row (conclude dispatch row now e (record { monitor = some row; effects = es })).0
unfolding conclude
conclude-IsKept dispatch row now (blocked message) es a left =
    unfold blocked_check in
    rw (commit_alone row (blocked_row row now message) es a, blocked_check) (ground arith)
conclude-IsKept dispatch row now (error message) es a left =
    unfold error_check in
    rw (commit_alone row (error_row row now message) es a, error_check) (ground arith)
conclude-IsKept dispatch row now (observed o met) es a left =
    unfold observed_check in
    record_observation-IsKept dispatch row now o met (should_fire met row.condition_met) es a left

pub check_row-IsKept :
    (evaluate : MonitorRow → ℕ → Evaluation) (dispatch : MonitorRow → Bool) (now : ℕ)
    (row : MonitorRow) (es : List Effect)
    → IsKeptWorld row
        (check_row evaluate dispatch
          (λ w. w)
          now
          row
          (record { monitor = some row; effects = es })).0
unfolding check_row
check_row-IsKept evaluate dispatch now row es = elim (Bool-cases (is_active row.status)) [
  | inr ended ↦ rw (ended, check_row) (ground arith)
  | inl a ↦ elim (Bool-cases (leb row.deadline_at now)) [
    | inl late ↦
        rw (a, check_row)
          (rw late
            (unfold expire_check in rw (commit_alone row _ es a, expire_check) (ground arith)))
    | inr early ↦ elim (Bool-cases (leb row.max_checks row.check_count)) [
      | inl spent ↦
          rw (a, check_row)
            (rw early (
              rw spent (
                unfold exhaust_check in
                rw (commit_alone row _ es a, exhaust_check) (ground arith))))
      | inr left ↦
          rw (a, check_row)
            (rw early (rw left (conclude-IsKept dispatch row now (evaluate row now) es a left)))
    ]
  ]
]
