-- ===== src/Automations/Policy.antt =====
-- src/lib/automations/failure-policy.ts. Attempts and failures are whole numbers.
use agent_studio.Shared.{ℕ, ◌+◌, min, Bool, true, false, ltb, leb, if◌then◌else◌}

pub data AutomationRunTrigger : Type 0 where
  schedule manual monitor : AutomationRunTrigger

pub record AutomationTriggerPolicy : Type 0 where
  pub preserve_schedule : Bool
  pub allow_disabled : Bool
  pub escalate_failures : Bool

abbrev pub automation_trigger_policy : AutomationRunTrigger → AutomationTriggerPolicy
automation_trigger_policy manual = record {
  preserve_schedule = true;
  allow_disabled = true;
  escalate_failures = false;
}
automation_trigger_policy monitor = record {
  preserve_schedule = true;
  allow_disabled = false;
  escalate_failures = true;
}
automation_trigger_policy schedule = record {
  preserve_schedule = false;
  allow_disabled = false;
  escalate_failures = true;
}

abbrev pub automation_max_attempts : ℕ
automation_max_attempts = 3

abbrev pub automation_disable_after_failures : ℕ
automation_disable_after_failures = 5

abbrev pub automation_max_backoff_ms : ℕ
automation_max_backoff_ms = 900000

unfoldable pub should_retry_automation : ℕ → ℕ → Bool
should_retry_automation attempt max_attempts =
    if ltb attempt 1 then false else ltb attempt max_attempts

-- The table of backoffs, by the attempt that failed, from 1.
abbrev backoff_schedule_ms : ℕ → ℕ
backoff_schedule_ms attempt = if leb attempt 1 then 60000 else 300000

unfoldable pub compute_retry_backoff_ms : ℕ → ℕ
compute_retry_backoff_ms attempt =
    if ltb attempt 1
    then 60000
    else min (backoff_schedule_ms (min attempt 2)) automation_max_backoff_ms

abbrev pub next_retry_at : ℕ → ℕ → ℕ
next_retry_at attempt now = now + compute_retry_backoff_ms attempt

unfoldable pub should_disable_after_failures : ℕ → ℕ → Bool
should_disable_after_failures consecutive_failures threshold = leb threshold consecutive_failures
