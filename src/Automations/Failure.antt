-- ===== src/Automations/Failure.antt =====
-- `handleAutomationRunFailure` and `recordTerminalAutomationFailure`. The table is the one row of the
-- automation that failed. Whether the retry can be queued and the next slot after a time are
-- parameters: `enqueues`, and `next_run`, none where the expression is not valid. Failing writes,
-- which the source logs and goes on from, are left out.
use agent_studio.Shared.{
  ℕ, ◌+◌, String, Bool, false, not, ◌&&◌, Option, none, some, List, [], ◌∷◌, ◌++◌, if◌then◌else◌,
}
use agent_studio.Automations.Policy.{
  AutomationRunTrigger, automation_trigger_policy, automation_max_attempts,
  automation_disable_after_failures, should_retry_automation, next_retry_at,
  compute_retry_backoff_ms, should_disable_after_failures,
}

pub data DisabledReason : Type 0 where
  consecutive_failures : DisabledReason

pub record AutomationRow : Type 0 where
  pub id : String
  pub enabled : Bool
  pub disabled_reason : Option DisabledReason
  pub failures : ℕ
  pub last_run_at : Option ℕ
  pub next_run_at : Option ℕ
  pub updated_at : ℕ

-- A queued retry with its attempt, its time and its trigger; a review item with whether the automation
-- was switched off and its streak; a notification; a metric.
pub data Effect : Type 0 where
  retry_job : ℕ → ℕ → AutomationRunTrigger → Effect
  review_item : Bool → ℕ → Effect
  notification : Bool → Effect
  gave_up_metric : Bool → Effect

pub record World : Type 0 where
  pub automation : Option AutomationRow
  pub effects : List Effect

pub data FailureOutcome : Type 0 where
  not_retried row_disappeared : FailureOutcome
  retrying : (next_attempt run_at backoff_ms : ℕ) → FailureOutcome
  gave_up : (failures : ℕ) → (disabled : Bool) → FailureOutcome

-- `bumpConsecutiveFailures`, on the row that is there.
abbrev pub bump : ℕ → Option AutomationRow → Option AutomationRow × ℕ
bump now none = (none, 1)
bump now (some a) =
    (some (record a { failures = a.failures + 1; updated_at = now }), a.failures + 1)

-- `advanceScheduleAfterGivingUp`.
abbrev pub advance : (ℕ → Option ℕ) → ℕ → Option AutomationRow → Option AutomationRow
advance next_run now none = none
advance next_run now (some a) = elim (next_run now) [
  | none ↦ some a
  | some next ↦
      some (record a { last_run_at = some now; next_run_at = some next; updated_at = now })
]

abbrev pub switch_off : ℕ → Option AutomationRow → Option AutomationRow
switch_off now none = none
switch_off now (some a) =
    some
      (record a { enabled = false; disabled_reason = some consecutive_failures; updated_at = now })

-- `recordTerminalAutomationFailure` for the automation as it was read.
unfoldable pub record_terminal_automation_failure :
    (ℕ → Option ℕ) → AutomationRow → Bool → ℕ → World → World × FailureOutcome
record_terminal_automation_failure next_run automation advance_schedule now w =
    let (bumped, failures) = bump now w.automation in
    let disabled =
      automation.enabled
      && should_disable_after_failures failures automation_disable_after_failures in
    let advanced = if advance_schedule then advance next_run now bumped else bumped in
    (
      record w {
        automation = if disabled then switch_off now advanced else advanced;
        effects =
            w.effects
            ++ review_item disabled failures ∷ notification disabled ∷ gave_up_metric disabled ∷ [];
      },
      gave_up failures disabled,
    )

-- The part of `handleAutomationRunFailure` that gives up.
unfoldable pub give_up : (ℕ → Option ℕ) → AutomationRunTrigger → ℕ → World → World × FailureOutcome
unfolding record_terminal_automation_failure
give_up next_run trigger now w = elim w.automation [
  | none ↦ (w, row_disappeared)
  | some automation ↦
      record_terminal_automation_failure next_run automation
        (not (automation_trigger_policy trigger).preserve_schedule) now w
]

-- `handleAutomationRunFailure`.
unfoldable pub handle_automation_run_failure :
    Bool → (ℕ → Option ℕ) → AutomationRunTrigger → ℕ → ℕ → World → World × FailureOutcome
unfolding give_up
handle_automation_run_failure enqueues next_run trigger attempt now w =
    if not (automation_trigger_policy trigger).escalate_failures
    then (w, not_retried)
    else if should_retry_automation attempt automation_max_attempts && enqueues
    then (
      record w {
        effects = w.effects ++ retry_job (attempt + 1) (next_retry_at attempt now) trigger ∷ [];
      },
      retrying (attempt + 1) (next_retry_at attempt now) (compute_retry_backoff_ms attempt),
    )
    else give_up next_run trigger now w
