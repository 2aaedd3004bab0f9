-- ===== src/Monitors/Run.antt =====
-- src/lib/monitors/run.server.ts: one check of one monitor. The table is the one row that the check
-- is about. A monitor's condition is not in the row here: a check only hands it on, and nothing else
-- reads or writes it. `evaluate` and `dispatch` are the seams of the source (`MonitorCheckDeps`); while the first
-- runs, others may change anything: that is `meanwhile`.
use agent_studio.Shared.{
  ℕ, ◌+◌, Bool, true, false, not, ◌&&◌, Option, none, some, List, [], ◌∷◌, ◌++◌, leb, ◌==◌,
  if◌then◌else◌, take,
}
use agent_studio.Shared.Number.{whole}
use agent_studio.Monitors.Text.{Text}
use agent_studio.Monitors.Limits.{compute_next_check_at, should_fire, max_consecutive_errors}

pub data MonitorStatus : Type 0 where
  active paused fired expired exhausted failed canceled : MonitorStatus

pub data MonitorAction : Type 0 where
  start_conversation review_item push run_automation : MonitorAction

-- The parts of an action's configuration that decide whether it is usable.
pub record MonitorActionConfig : Type 0 where
  pub prompt : Option Text
  pub automation_id : Option ℕ

pub record MonitorObservation : Type 0 where
  pub value : Text
  pub hash : Text
  pub observed_at : ℕ
  pub met : Bool
  pub truncated : Bool
  pub note : Option Text

pub record MonitorRow : Type 0 where
  pub user_id : ℕ
  pub name : Text
  pub action : MonitorAction
  pub action_config : MonitorActionConfig
  pub status : MonitorStatus
  pub interval_seconds : ℕ
  pub deadline_at : ℕ
  pub max_checks : ℕ
  pub check_count : ℕ
  pub next_check_at : ℕ
  pub last_checked_at : Option ℕ
  pub last_observation : Option MonitorObservation
  pub condition_met : Bool
  pub fire_count : ℕ
  pub last_fired_at : Option ℕ
  pub last_fire_result : Option Bool
  pub consecutive_errors : ℕ
  pub last_error : Option Text
  pub one_shot : Bool
  pub updated_at : ℕ

pub data Evaluation : Type 0 where
  blocked : Text → Evaluation
  error : Text → Evaluation
  observed : MonitorObservation → Bool → Evaluation

-- What a check does beside the row: items for review, metrics, and the action, with the observation
-- that it is dispatched for.
pub data Effect : Type 0 where
  lifecycle_review : MonitorStatus → Effect
  budget_review : Effect
  metric_blocked metric_error metric_observed metric_fired : Effect
  action : MonitorRow → MonitorObservation → Effect

pub record World : Type 0 where
  pub monitor : Option MonitorRow
  pub effects : List Effect

-- How a check ended: `checked` is the source's 'observed', `not_found` the error that it throws.
pub data Outcome : Type 0 where
  skipped checked fired error blocked expired exhausted not_found : Outcome

pub record MonitorCheckResult : Type 0 where
  pub status : MonitorStatus
  pub outcome : Outcome
  pub met : Option Bool
  pub check_count : Option ℕ
  pub next_check_at : Option ℕ

abbrev pub is_active : MonitorStatus → Bool
is_active active = true
is_active _ = false

abbrev pub outcome_only : MonitorStatus → Outcome → MonitorCheckResult
outcome_only status outcome = record {
  status = status;
  outcome = outcome;
  met = none;
  check_count = none;
  next_check_at = none;
}

abbrev pub log : List Effect → World → World
log es w = record w { effects = w.effects ++ es }

-- `commitIfUnchanged`: the row is written only if it is active and has the count it was read with.
unfoldable pub commit_if_unchanged : MonitorRow → (MonitorRow → MonitorRow) → World → Option World
commit_if_unchanged read patch w = elim w.monitor [
  | none ↦ none
  | some row ↦
      if is_active row.status && row.check_count == read.check_count
      then some (record w { monitor = some (patch row) })
      else none
]

-- The result of a check whose outcome was discarded.
abbrev pub superseded : World → World × MonitorCheckResult
superseded w = elim w.monitor [
  | none ↦ (w, outcome_only canceled skipped)
  | some row ↦ (w, outcome_only row.status skipped)
]

-- Go on with the committed world, or discard.
abbrev pub or_superseded :
    World → Option World → (World → World × MonitorCheckResult) → World × MonitorCheckResult
or_superseded w none go_on = superseded w
or_superseded w (some committed) go_on = go_on committed

unfoldable pub expire_check : MonitorRow → ℕ → World → World × MonitorCheckResult
unfolding commit_if_unchanged
expire_check monitor now w =
    or_superseded w
      (commit_if_unchanged monitor
        (λ row. record row { status = MonitorStatus.expired; updated_at = now }) w)
      (λ committed. (committed, outcome_only MonitorStatus.expired Outcome.expired))

unfoldable pub exhaust_check : MonitorRow → ℕ → World → World × MonitorCheckResult
unfolding commit_if_unchanged
exhaust_check monitor now w =
    or_superseded w
      (commit_if_unchanged monitor
        (λ row. record row { status = MonitorStatus.exhausted; updated_at = now }) w)
      (λ committed. (
        log (lifecycle_review MonitorStatus.exhausted ∷ []) committed,
        record (outcome_only MonitorStatus.exhausted Outcome.exhausted) {
          check_count = some monitor.check_count;
        },
      ))

abbrev pub blocked_row : MonitorRow → ℕ → Text → MonitorRow → MonitorRow
blocked_row monitor now message row = record row {
  last_checked_at = some now;
  next_check_at = compute_next_check_at now (whole monitor.interval_seconds) 0;
  last_error = some message;
  updated_at = now;
}

unfoldable pub blocked_check : MonitorRow → ℕ → Text → World → World × MonitorCheckResult
unfolding commit_if_unchanged
blocked_check monitor now message w =
    let next = compute_next_check_at now (whole monitor.interval_seconds) 0 in
    or_superseded w (commit_if_unchanged monitor (blocked_row monitor now message) w) (λ committed.
      (
        log (budget_review ∷ metric_blocked ∷ []) committed,
        record (outcome_only active Outcome.blocked) { next_check_at = some next },
      ))

-- The status after an errored check.
unfoldable pub error_status : MonitorRow → MonitorStatus
error_status monitor =
    if leb max_consecutive_errors (monitor.consecutive_errors + 1)
    then failed
    else if leb monitor.max_checks (monitor.check_count + 1)
    then MonitorStatus.exhausted
    else active

abbrev pub error_row : MonitorRow → ℕ → Text → MonitorRow → MonitorRow
error_row monitor now message row = record row {
  status = error_status monitor;
  check_count = monitor.check_count + 1;
  consecutive_errors = monitor.consecutive_errors + 1;
  last_error = some (take 2000 message);
  last_checked_at = some now;
  next_check_at =
      compute_next_check_at now (whole monitor.interval_seconds) (monitor.consecutive_errors + 1);
  updated_at = now;
}

abbrev pub error_effects : MonitorStatus → List Effect
error_effects active = metric_error ∷ []
error_effects status = lifecycle_review status ∷ metric_error ∷ []

unfoldable pub error_check : MonitorRow → ℕ → Text → World → World × MonitorCheckResult
unfolding commit_if_unchanged error_status
error_check monitor now message w =
    let status = error_status monitor in
    let next =
      compute_next_check_at now (whole monitor.interval_seconds) (monitor.consecutive_errors + 1) in
    or_superseded w (commit_if_unchanged monitor (error_row monitor now message) w) (λ committed. (
      log (error_effects status) committed,
      record (outcome_only status Outcome.error) {
        check_count = some (monitor.check_count + 1);
        next_check_at = some next;
      },
    ))

-- The status after a clean observation.
unfoldable pub observed_status : MonitorRow → Bool → MonitorStatus
observed_status monitor fire =
    if fire && monitor.one_shot
    then MonitorStatus.fired
    else if leb monitor.max_checks (monitor.check_count + 1)
    then MonitorStatus.exhausted
    else active

abbrev pub observed_row :
    MonitorRow → ℕ → MonitorObservation → Bool → Bool → MonitorRow → MonitorRow
observed_row monitor now observation met fire row = record row {
  status = observed_status monitor fire;
  check_count = monitor.check_count + 1;
  fire_count = if fire then monitor.fire_count + 1 else monitor.fire_count;
  condition_met = met;
  last_observation = some observation;
  last_checked_at = some now;
  next_check_at = compute_next_check_at now (whole monitor.interval_seconds) 0;
  consecutive_errors = 0;
  last_error = none;
  last_fired_at = if fire then some now else row.last_fired_at;
  updated_at = now;
}

abbrev set_fire_result : Bool → Option MonitorRow → Option MonitorRow
set_fire_result done none = none
set_fire_result done (some row) = some (record row { last_fire_result = some done })

-- The action runs after its edge is stored; its result is written whatever the row is then.
abbrev pub fire_action : (MonitorRow → Bool) → MonitorRow → MonitorObservation → World → World
fire_action dispatch monitor observation w = record w {
  monitor = set_fire_result (dispatch monitor) w.monitor;
  effects = w.effects ++ action monitor observation ∷ [];
}

-- A clean observation, for whether it fires.
unfoldable pub record_observation :
    (MonitorRow → Bool)
    → MonitorRow
    → ℕ
    → MonitorObservation
    → Bool
    → Bool
    → World
    → World × MonitorCheckResult
unfolding commit_if_unchanged observed_status
record_observation dispatch monitor now observation met fire w =
    let status = observed_status monitor fire in
    let spent = leb monitor.max_checks (monitor.check_count + 1) in
    let next = compute_next_check_at now (whole monitor.interval_seconds) 0 in
    let result : MonitorCheckResult = record {
      status = status;
      outcome = if fire then Outcome.fired else if spent then Outcome.exhausted else checked;
      met = some met;
      check_count = some (monitor.check_count + 1);
      next_check_at = if fire then (if is_active status then some next else none) else some next;
    } in
    let fired_monitor = record monitor {
      fire_count = monitor.fire_count + 1;
      last_observation = some observation;
    } in
    or_superseded w (commit_if_unchanged monitor (observed_row monitor now observation met fire) w)
      (λ committed.
        if fire
        then (
          fire_action dispatch fired_monitor observation (log (metric_fired ∷ []) committed),
          result,
        )
        else (log (metric_observed ∷ []) committed, result))

unfoldable pub observed_check :
    (MonitorRow → Bool)
    → MonitorRow
    → ℕ
    → MonitorObservation
    → Bool
    → World
    → World × MonitorCheckResult
observed_check dispatch monitor now observation met w =
    record_observation dispatch monitor now observation met (should_fire met monitor.condition_met)
      w

unfoldable pub conclude :
    (MonitorRow → Bool) → MonitorRow → ℕ → Evaluation → World → World × MonitorCheckResult
conclude dispatch monitor now (blocked message) w = blocked_check monitor now message w
conclude dispatch monitor now (error message) w = error_check monitor now message w
conclude dispatch monitor now (observed observation met) w =
    observed_check dispatch monitor now observation met w

unfoldable pub check_row :
    (MonitorRow → ℕ → Evaluation)
    → (MonitorRow → Bool)
    → (World → World)
    → ℕ
    → MonitorRow
    → World
    → World × MonitorCheckResult
check_row evaluate dispatch meanwhile now monitor w =
    if not (is_active monitor.status)
    then (w, outcome_only monitor.status skipped)
    else if leb monitor.deadline_at now
    then expire_check monitor now w
    else if leb monitor.max_checks monitor.check_count
    then exhaust_check monitor now w
    else conclude dispatch monitor now (evaluate monitor now) (meanwhile w)

-- `runMonitorCheck`; a monitor that is not there is the error that it throws.
unfoldable pub run_monitor_check :
    (MonitorRow → ℕ → Evaluation)
    → (MonitorRow → Bool)
    → (World → World)
    → ℕ
    → World
    → World × MonitorCheckResult
run_monitor_check evaluate dispatch meanwhile now w = elim w.monitor [
  | none ↦ (w, outcome_only canceled not_found)
  | some monitor ↦ check_row evaluate dispatch meanwhile now monitor w
]
