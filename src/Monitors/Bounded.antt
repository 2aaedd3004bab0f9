-- ===== src/Monitors/Bounded.antt =====
-- Every operation of src/lib/monitors/monitors.server.ts keeps a row within the limits.
use agent_studio.Shared.{
  ℕ, ◌+◌, ◌≤◌, max, Bool, true, false, Option, none, some, arith, ◌==◌, Bool-cases, Option-cases,
  inl, inr, or_else,
}
use agent_studio.Shared.Number.{Number, whole}
use agent_studio.Monitors.Limits.{
  min_interval_seconds, max_interval_seconds, hard_max_checks, max_deadline_ms, time,
  clamp_interval_bounds, clamp_max_checks_bounds, clamp_deadline_bounds,
}
use agent_studio.Monitors.Run.{MonitorRow}
use agent_studio.Monitors.Manage.{
  claim_monitor_for_check, expire_overdue, cancel_monitor, set_monitor_paused, ExtendMonitorInput,
  extend_monitor, UpdateMonitorSettingsInput, update_monitor_settings, is_canceled, update_error,
  requested_deadline, updated_interval, updated_budget, updated_row, extended_row,
}
use agent_studio.Monitors.Events.{
  Event, check, claim, expire, cancel, pause, extend, update, manage,
}

-- The row keeps to the limits, as seen at some time.
pub record IsBounded (m : MonitorRow) (clock : ℕ) : Type 0 where
  pub interval_low : min_interval_seconds ≤ m.interval_seconds
  pub interval_high : m.interval_seconds ≤ max_interval_seconds
  pub budget : m.max_checks ≤ hard_max_checks
  pub count : m.check_count ≤ hard_max_checks
  pub deadline : m.deadline_at ≤ clock + max_deadline_ms

claim-IsBounded :
    (server_now now : ℕ) (m : MonitorRow) (clock : ℕ)
    → IsBounded m clock
    → IsBounded (or_else (claim_monitor_for_check server_now now m) m) (max clock now)
unfolding claim_monitor_for_check
claim-IsBounded server_now now m clock h = ground arith

expire-IsBounded :
    (now : ℕ) (m : MonitorRow) (clock : ℕ)
    → IsBounded m clock
    → IsBounded (expire_overdue now m) (max clock now)
unfolding expire_overdue
expire-IsBounded now m clock h = ground arith

cancel-IsBounded :
    (user_id now : ℕ) (m : MonitorRow) (clock : ℕ)
    → IsBounded m clock
    → IsBounded (cancel_monitor user_id now m).0 (max clock now)
unfolding cancel_monitor
cancel-IsBounded user_id now m clock h = ground arith

pause-IsBounded :
    (user_id : ℕ) (p : Bool) (now : ℕ) (m : MonitorRow) (clock : ℕ)
    → IsBounded m clock
    → IsBounded (set_monitor_paused user_id p now (λ r. r) m) (max clock now)
unfolding set_monitor_paused
pause-IsBounded user_id true now m clock h = ground arith
pause-IsBounded user_id false now m clock h = ground arith

waited-IsBounded :
    (now : ℕ) (m : MonitorRow) (clock : ℕ) → IsBounded m clock → IsBounded m (max clock now)
waited-IsBounded now m clock h = ground arith

interval_in :
    (o : Option Number) (i : ℕ)
    → (min_interval_seconds ≤ i) × (i ≤ max_interval_seconds)
    → (min_interval_seconds ≤ updated_interval o i) × (updated_interval o i ≤ max_interval_seconds)
interval_in none i h = h
interval_in (some x) i h = clamp_interval_bounds x

budget_in : (o : Option Number) (n : ℕ) → n ≤ hard_max_checks → updated_budget o n ≤ hard_max_checks
budget_in none n h = h
budget_in (some x) n h = (clamp_max_checks_bounds (some x) 0).1

updated_row-IsBounded :
    (input : UpdateMonitorSettingsInput) (now : ℕ) (m : MonitorRow) (clock : ℕ)
    → IsBounded m clock
    → IsBounded (updated_row input now m) (max clock now)
updated_row-IsBounded input now m clock h =
    let (low, high) =
      interval_in input.interval_seconds m.interval_seconds (h.interval_low, h.interval_high) in
    record {
      interval_low = low;
      interval_high = high;
      budget = budget_in input.max_checks m.max_checks h.budget;
      count = h.count;
      deadline = ground (arith, h);
    }

update-IsBounded :
    (owned : ℕ → ℕ → Bool) (user_id : ℕ) (input : UpdateMonitorSettingsInput) (now : ℕ)
    (m : MonitorRow) (clock : ℕ)
    → IsBounded m clock
    → IsBounded (update_monitor_settings owned user_id input now m).0 (max clock now)
unfolding update_monitor_settings
update-IsBounded owned user_id input now m clock h = elim (Bool-cases (m.user_id == user_id)) [
  | inr foreign ↦ rw (foreign, update_monitor_settings) (waited-IsBounded now m clock h)
  | inl own ↦ elim (Option-cases (update_error owned user_id input m)) [
    | inl fine ↦
        rw (own, update_monitor_settings) (rw fine (updated_row-IsBounded input now m clock h))
    | inr (e, wrong) ↦ rw (own, update_monitor_settings) (rw wrong (waited-IsBounded now m clock h))
  ]
]

extended_row-IsBounded :
    (input : ExtendMonitorInput) (now : ℕ) (m : MonitorRow) (clock : ℕ)
    → IsBounded m clock
    → IsBounded (extended_row input now m m) (max clock now)
extended_row-IsBounded input now m clock h = record {
  interval_low = h.interval_low;
  interval_high = h.interval_high;
  budget = (clamp_max_checks_bounds _ 0).1;
  count = h.count;
  deadline = omega (
    arith,
    (clamp_deadline_bounds (time (requested_deadline input now m)) now 0
        (whole m.interval_seconds)).1,
  );
}

extend-IsBounded :
    (user_id : ℕ) (input : ExtendMonitorInput) (now : ℕ) (m : MonitorRow) (clock : ℕ)
    → IsBounded m clock
    → IsBounded (extend_monitor user_id input now (λ r. r) m).0 (max clock now)
unfolding extend_monitor
extend-IsBounded user_id input now m clock h = elim (Bool-cases (m.user_id == user_id)) [
  | inr foreign ↦ rw (foreign, extend_monitor) (waited-IsBounded now m clock h)
  | inl own ↦ elim (Bool-cases (is_canceled m.status)) [
    | inl over ↦ rw (own, extend_monitor) (rw over (waited-IsBounded now m clock h))
    | inr going ↦ rw (own, extend_monitor) (rw going (extended_row-IsBounded input now m clock h))
  ]
]

pub manage-IsBounded :
    (owned : ℕ → ℕ → Bool) (now : ℕ) (event : Event) (m : MonitorRow) (clock : ℕ)
    → IsBounded m clock
    → IsBounded (manage owned now event m) (max clock now)
unfolding manage
manage-IsBounded owned now (check evaluate) m clock h = waited-IsBounded now m clock h
manage-IsBounded owned now (claim server_now) m clock h = claim-IsBounded server_now now m clock h
manage-IsBounded owned now expire m clock h = expire-IsBounded now m clock h
manage-IsBounded owned now (cancel user_id) m clock h = cancel-IsBounded user_id now m clock h
manage-IsBounded owned now (pause user_id p) m clock h = pause-IsBounded user_id p now m clock h
manage-IsBounded owned now (extend user_id input) m clock h =
    extend-IsBounded user_id input now m clock h
manage-IsBounded owned now (update user_id input) m clock h =
    update-IsBounded owned user_id input now m clock h
