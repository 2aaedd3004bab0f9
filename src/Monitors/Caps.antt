-- ===== src/Monitors/Caps.antt =====
-- What stops a monitor from firing forever: the caps hold along every sequence of checks.
use agent_studio.Shared.{
  ℕ, ◌+◌, ◌≤◌, Bool, true, false, Option, none, some, List, [], ◌∷◌, ◌++◌, ◌≡◌, refl, arith, leb,
  if◌then◌else◌, Bool-cases, inl, inr,
}
use agent_studio.Monitors.Text.{Text}
use agent_studio.Monitors.Limits.{should_fire, max_consecutive_errors}
use agent_studio.Monitors.Run.{
  MonitorStatus, active, MonitorObservation, MonitorRow, Evaluation, blocked, error, observed,
  Effect, action, lifecycle_review, budget_review, metric_blocked, metric_observed, metric_fired,
  World, is_active, commit_if_unchanged, expire_check, exhaust_check, blocked_check, error_check,
  error_status, error_row, error_effects, observed_row, observed_check, record_observation,
  observed_status, conclude, check_row, run_monitor_check,
}

-- How often the action was run.
abbrev is_action : Effect → ℕ
is_action (action m o) = 1
is_action _ = 0

abbrev pub actions : List Effect → ℕ
actions [] = 0
actions (e ∷ es) = is_action e + actions es

pub actions-append : (xs ys : List Effect) → actions (xs ++ ys) ≡ actions xs + actions ys
actions-append [] ys = omega arith
actions-append (x ∷ xs) ys = omega (arith, actions-append xs ys)

abbrev pub still_open : MonitorStatus → ℕ
still_open s = if is_active s then 1 else 0

-- The caps on a monitor for which the action was run n times: the checks are within the budget, the
-- action was run once for each fire, at most once for a one-shot monitor, and the errors in a row
-- stay within theirs; one less of each while the monitor is active.
pub record IsCapped (row : MonitorRow) (n : ℕ) : Type 0 where
  pub budget : row.check_count + still_open row.status ≤ row.max_checks
  pub fires : row.fire_count ≤ row.check_count
  pub acted : n ≡ row.fire_count
  pub once : row.fire_count + still_open row.status ≤ (if row.one_shot then 1 else row.max_checks)
  pub errors : row.consecutive_errors + still_open row.status ≤ max_consecutive_errors

abbrev pub IsCappedWorld : World → Type 0
IsCappedWorld w = elim w.monitor [ none ↦ Unit {0} | some row ↦ IsCapped row (actions w.effects) ]

pub commit_alone :
    (row : MonitorRow) (patch : MonitorRow → MonitorRow) (es : List Effect)
    → is_active row.status ≡ true
    → commit_if_unchanged row patch (record { monitor = some row; effects = es })
      ≡ some (record { monitor = some (patch row); effects = es })
unfolding commit_if_unchanged
commit_alone row patch es a = ground arith

error_row-IsCapped :
    (row : MonitorRow) (now : ℕ) (message : Text) (n : ℕ)
    → is_active row.status ≡ true
    → IsCapped row n
    → IsCapped (error_row row now message row) n
unfolding error_status
error_row-IsCapped row now message n a c = ground arith

pub actions-error_effects : (s : MonitorStatus) → actions (error_effects s) ≡ 0
actions-error_effects active = refl
actions-error_effects _ = refl

error_check-IsCapped :
    (row : MonitorRow) (now : ℕ) (message : Text) (es : List Effect)
    → is_active row.status ≡ true
    → IsCapped row (actions es)
    → IsCappedWorld (error_check row now message (record { monitor = some row; effects = es })).0
unfolding error_check
error_check-IsCapped row now message es a c =
    let same : actions (es ++ error_effects (error_status row)) ≡ actions es = omega (
      arith,
      actions-append es (error_effects (error_status row)),
      actions-error_effects (error_status row),
    ) in
    rw (commit_alone row (error_row row now message) es a, error_check)
      (rw same (error_row-IsCapped row now message (actions es) a c))

observed_row-IsCapped :
    (row : MonitorRow) (now : ℕ) (o : MonitorObservation) (met fire : Bool) (n : ℕ)
    → is_active row.status ≡ true
    → IsCapped row n
    → IsCapped (observed_row row now o met fire row) (if fire then n + 1 else n)
unfolding observed_status
observed_row-IsCapped row now o met fire n a c = ground arith

-- Storing the result of the action changes nothing that is capped.
fire_result-IsCapped :
    (row : MonitorRow) (n : ℕ) (done : Bool)
    → IsCapped row n
    → IsCapped (record row { last_fire_result = some done }) n
fire_result-IsCapped row n done c = ground arith

record_observation-IsCapped :
    (dispatch : MonitorRow → Bool) (row : MonitorRow) (now : ℕ) (o : MonitorObservation)
    (met fire : Bool) (es : List Effect)
    → is_active row.status ≡ true
    → IsCapped row (actions es)
    → IsCappedWorld
        (record_observation dispatch row now o met fire
          (record { monitor = some row; effects = es })).0
unfolding record_observation
record_observation-IsCapped dispatch row now o met true es a c =
    let fired_monitor = record row { fire_count = row.fire_count + 1; last_observation = some o } in
    let more : actions ((es ++ metric_fired ∷ []) ++ action fired_monitor o ∷ []) ≡ actions es + 1 =
      omega (
        arith,
        actions-append (es ++ metric_fired ∷ []) (action fired_monitor o ∷ []),
        actions-append es (metric_fired ∷ []),
      ) in
    rw (commit_alone row (observed_row row now o met true) es a, record_observation)
      (rw more (
        fire_result-IsCapped (observed_row row now o met true row) (actions es + 1)
          (dispatch fired_monitor) (observed_row-IsCapped row now o met true (actions es) a c)))
record_observation-IsCapped dispatch row now o met false es a c =
    let same : actions (es ++ metric_observed ∷ []) ≡ actions es =
      omega (arith, actions-append es (metric_observed ∷ [])) in
    rw (commit_alone row (observed_row row now o met false) es a, record_observation)
      (rw same (observed_row-IsCapped row now o met false (actions es) a c))

conclude-IsCapped :
    (dispatch : MonitorRow → Bool) (row : MonitorRow) (now : ℕ) (e : Evaluation) (es : List Effect)
    → is_active row.status ≡ true
    → IsCapped row (actions es)
    → IsCappedWorld (conclude dispatch row now e (record { monitor = some row; effects = es })).0
unfolding conclude
conclude-IsCapped dispatch row now (blocked message) es a c =
    let same : actions (es ++ budget_review ∷ metric_blocked ∷ []) ≡ actions es =
      omega (arith, actions-append es (budget_review ∷ metric_blocked ∷ [])) in
    unfold blocked_check in rw (commit_alone row _ es a, blocked_check) (rw same (ground arith))
conclude-IsCapped dispatch row now (error message) es a c =
    error_check-IsCapped row now message es a c
conclude-IsCapped dispatch row now (observed o met) es a c =
    unfold observed_check in
    record_observation-IsCapped dispatch row now o met (should_fire met row.condition_met) es a c

-- The row after a check that only ends the monitor.
ended-IsCapped :
    (row : MonitorRow) (status : MonitorStatus) (now n : ℕ)
    → is_active status ≡ false
    → IsCapped row n
    → IsCapped (record row { status = status; updated_at = now }) n
ended-IsCapped row status now n e c = ground arith

expire_check-IsCapped :
    (row : MonitorRow) (now : ℕ) (es : List Effect)
    → is_active row.status ≡ true
    → IsCapped row (actions es)
    → IsCappedWorld (expire_check row now (record { monitor = some row; effects = es })).0
unfolding expire_check
expire_check-IsCapped row now es a c =
    rw (commit_alone row _ es a, expire_check)
      (ended-IsCapped row MonitorStatus.expired now (actions es) refl c)

exhaust_check-IsCapped :
    (row : MonitorRow) (now : ℕ) (es : List Effect)
    → is_active row.status ≡ true
    → IsCapped row (actions es)
    → IsCappedWorld (exhaust_check row now (record { monitor = some row; effects = es })).0
unfolding exhaust_check
exhaust_check-IsCapped row now es a c =
    let same : actions (es ++ lifecycle_review MonitorStatus.exhausted ∷ []) ≡ actions es =
      omega (arith, actions-append es (lifecycle_review MonitorStatus.exhausted ∷ [])) in
    rw (commit_alone row _ es a, exhaust_check)
      (rw same (ended-IsCapped row MonitorStatus.exhausted now (actions es) refl c))

check_row-IsCapped :
    (evaluate : MonitorRow → ℕ → Evaluation) (dispatch : MonitorRow → Bool) (now : ℕ)
    (row : MonitorRow) (es : List Effect)
    → IsCapped row (actions es)
    → IsCappedWorld
        (check_row evaluate dispatch
          (λ w. w)
          now
          row
          (record { monitor = some row; effects = es })).0
unfolding check_row
check_row-IsCapped evaluate dispatch now row es c = elim (Bool-cases (is_active row.status)) [
  | inr ended ↦ rw (ended, check_row) c
  | inl a ↦ elim (Bool-cases (leb row.deadline_at now)) [
    | inl late ↦ rw (a, check_row) (rw late (expire_check-IsCapped row now es a c))
    | inr early ↦ elim (Bool-cases (leb row.max_checks row.check_count)) [
      | inl spent ↦ rw (a, check_row) (rw early (rw spent (exhaust_check-IsCapped row now es a c)))
      | inr left ↦
          rw (a, check_row)
            (rw early (rw left (conclude-IsCapped dispatch row now (evaluate row now) es a c)))
    ]
  ]
]

run_monitor_check-IsCapped :
    (evaluate : MonitorRow → ℕ → Evaluation) (dispatch : MonitorRow → Bool) (now : ℕ)
    (m : Option MonitorRow) (es : List Effect)
    → IsCappedWorld (record { monitor = m; effects = es })
    → IsCappedWorld
        (run_monitor_check evaluate dispatch (λ v. v) now (record { monitor = m; effects = es })).0
unfolding run_monitor_check
run_monitor_check-IsCapped evaluate dispatch now none es c = tt
run_monitor_check-IsCapped evaluate dispatch now (some row) es c =
    check_row-IsCapped evaluate dispatch now row es c

-- The checks of one monitor one after another, each at its time with what it evaluates to.
unfoldable pub run_checks :
    (MonitorRow → Bool) → List (ℕ × (MonitorRow → ℕ → Evaluation)) → World → World
run_checks dispatch [] w = w
run_checks dispatch ((now, evaluate) ∷ rest) w =
    run_checks dispatch rest (run_monitor_check evaluate dispatch (λ v. v) now w).0

-- Along every sequence of checks, whatever they evaluate to and whenever they run, a monitor that
-- keeps to its caps keeps to them: it has made at most its budget of checks, its action was run once
-- for each fire and no more often than it was checked, at most once in all for a one-shot monitor,
-- and no more than five checks in a row have failed.
pub run_checks-IsCapped :
    (dispatch : MonitorRow → Bool) (checks : List (ℕ × (MonitorRow → ℕ → Evaluation))) (w : World)
    → IsCappedWorld w
    → IsCappedWorld (run_checks dispatch checks w)
unfolding run_checks
run_checks-IsCapped dispatch [] w c = c
run_checks-IsCapped dispatch ((now, evaluate) ∷ rest) w c =
    run_checks-IsCapped dispatch rest (run_monitor_check evaluate dispatch (λ v. v) now w).0
      (run_monitor_check-IsCapped evaluate dispatch now w.monitor w.effects c)
