-- ===== src/Monitors/Manage.antt =====
-- src/lib/monitors/monitors.server.ts: the monitors' life beside the checks. As in Run, the table is
-- the one row that an operation names by its id, or none; `owned` answers for the automations of a
-- user, the clock is an argument.
use agent_studio.Shared.{
  ℕ, ◌+◌, ◌-◌, ◌*◌, min, Bool, true, false, ◌&&◌, Option, none, some, [], ◌∷◌, ltb, leb, ◌==◌,
  if◌then◌else◌, take, or_else,
}
use agent_studio.Shared.Int.{ℤ, pos_part}
use agent_studio.Shared.Number.{Number, whole}
use agent_studio.Monitors.Text.{Text, trim}
use agent_studio.Monitors.Limits.{
  Requested, time, clamp_interval, clamp_max_checks, clamp_deadline, default_interval_seconds,
}
use agent_studio.Monitors.Run.{
  MonitorStatus, active, paused, expired, exhausted, failed, canceled, MonitorAction,
  start_conversation, run_automation, MonitorActionConfig, MonitorRow, is_active,
}

abbrev pub max_active_per_user : ℕ
max_active_per_user = 50

pub data UserInputError : Type 0 where
  prompt_required automation_required automation_not_found name_required : UserInputError
  limit_reached canceled_not_extended : UserInputError

-- What an operation answers: an error that it throws, or the row, or null.
pub data Answer : Type 0 where
  refused : UserInputError → Answer
  row : Option MonitorRow → Answer

abbrev is_blank : Option Text → Bool
is_blank none = true
is_blank (some s) = elim (trim s) [ [] ↦ true | c ∷ rest ↦ false ]

abbrev is_none : Option ℕ → Bool
is_none none = true
is_none (some n) = false

-- `validateActionConfig`.
unfoldable pub validate_action_config : MonitorAction → MonitorActionConfig → Option UserInputError
validate_action_config start_conversation config =
    if is_blank config.prompt then some prompt_required else none
validate_action_config run_automation config =
    if is_none config.automation_id then some automation_required else none
validate_action_config _ config = none

-- `assertActionTargetsOwned`.
unfoldable pub assert_action_targets_owned :
    (ℕ → ℕ → Bool) → ℕ → MonitorAction → MonitorActionConfig → Option UserInputError
assert_action_targets_owned owned user_id run_automation config = elim config.automation_id [
  | none ↦ none
  | some id ↦ if owned user_id id then none else some automation_not_found
]
assert_action_targets_owned owned user_id _ config = none

-- The first of two checks that throws.
abbrev first_error : Option UserInputError → Option UserInputError → Option UserInputError
first_error none e = e
first_error (some e) _ = some e

abbrev pub config_error :
    (ℕ → ℕ → Bool) → ℕ → MonitorAction → MonitorActionConfig → Option UserInputError
config_error owned user_id action config =
    first_error (validate_action_config action config)
      (assert_action_targets_owned owned user_id action config)

-- A name, trimmed and cut, or the error.
abbrev pub checked_name : Text → Option Text
checked_name name = elim (trim name) [ [] ↦ none | c ∷ rest ↦ some (take 200 (c ∷ rest)) ]

pub record CreateMonitorInput : Type 0 where
  pub user_id : ℕ
  pub name : Text
  pub action : MonitorAction
  pub action_config : MonitorActionConfig
  pub interval_seconds : Option Number
  pub deadline_at : Requested
  pub max_checks : Option Number
  pub one_shot : Option Bool

abbrev pub new_row : CreateMonitorInput → Text → ℕ → MonitorRow
new_row input name now =
    let interval =
      clamp_interval (or_else input.interval_seconds (whole default_interval_seconds)) in
    record {
      user_id = input.user_id;
      name = name;
      action = input.action;
      action_config = input.action_config;
      status = active;
      interval_seconds = interval;
      deadline_at = clamp_deadline input.deadline_at now (whole interval);
      max_checks = clamp_max_checks input.max_checks;
      check_count = 0;
      next_check_at = now;
      last_checked_at = none;
      last_observation = none;
      condition_met = false;
      fire_count = 0;
      last_fired_at = none;
      last_fire_result = none;
      consecutive_errors = 0;
      last_error = none;
      one_shot = or_else input.one_shot true;
      updated_at = now;
    }

-- `createMonitor`, where the user has this many monitors that are active or paused.
unfoldable pub create_monitor : (ℕ → ℕ → Bool) → ℕ → CreateMonitorInput → ℕ → Answer
create_monitor owned active_count input now =
    elim (config_error owned input.user_id input.action input.action_config) [
      | some e ↦ refused e
      | none ↦ elim (checked_name input.name) [
        | none ↦ refused name_required
        | some name ↦
            if leb max_active_per_user active_count
            then refused limit_reached
            else row (some (new_row input name now))
      ]
    ]

-- `getMonitorForUser`.
abbrev pub get_monitor_for_user : ℕ → Option MonitorRow → Option MonitorRow
get_monitor_for_user user_id none = none
get_monitor_for_user user_id (some m) = if m.user_id == user_id then some m else none

-- The condition of `listDueMonitors`, and of the claim without the deadline.
abbrev pub is_claimable : ℕ → MonitorRow → Bool
is_claimable now m = is_active m.status && leb m.next_check_at now

abbrev pub is_due : ℕ → MonitorRow → Bool
is_due now m = is_active m.status && leb m.next_check_at now && ltb now m.deadline_at

-- `claimMonitorForCheck`; the next check is set by the clock of the database.
unfoldable pub claim_monitor_for_check : ℕ → ℕ → MonitorRow → Option MonitorRow
claim_monitor_for_check server_now now m =
    if is_claimable now m
    then some
        (record m { next_check_at = server_now + m.interval_seconds * 1000; updated_at = now })
    else none

abbrev pub is_open : MonitorStatus → Bool
is_open active = true
is_open paused = true
is_open _ = false

-- `expireOverdueMonitors`, on one row.
unfoldable pub expire_overdue : ℕ → MonitorRow → MonitorRow
expire_overdue now m =
    if is_open m.status && leb m.deadline_at now
    then record m { status = expired; updated_at = now }
    else m

-- `cancelMonitor`.
unfoldable pub cancel_monitor : ℕ → ℕ → MonitorRow → MonitorRow × Option MonitorRow
cancel_monitor user_id now m =
    let canceled_row = record m { status = canceled; updated_at = now } in
    if m.user_id == user_id then (canceled_row, some canceled_row) else (m, none)

abbrev is_paused : MonitorStatus → Bool
is_paused paused = true
is_paused _ = false

-- The status that `setMonitorPaused` asks for before it changes it, and the row with the new one.
abbrev is_pausable : Bool → MonitorStatus → Bool
is_pausable true status = is_active status
is_pausable false status = is_paused status

abbrev paused_row : Bool → ℕ → MonitorRow → MonitorRow
paused_row true now m = record m { status = paused; updated_at = now }
paused_row false now m = record m { status = active; next_check_at = now; updated_at = now }

-- `setMonitorPaused`: the row is read, and written by a second statement that asks for its user
-- only. What others do in between is `meanwhile`. The answer is the row, or null for another user.
unfoldable pub set_monitor_paused :
    ℕ → Bool → ℕ → (MonitorRow → MonitorRow) → MonitorRow → MonitorRow
set_monitor_paused user_id pause now meanwhile existing =
    let current = meanwhile existing in
    if existing.user_id == user_id && is_pausable pause existing.status
    then if current.user_id == user_id then paused_row pause now current else current
    else current

pub record ExtendMonitorInput : Type 0 where
  pub additional_days : Option ℤ
  pub additional_checks : Option ℤ

-- `Math.max(0, Math.floor(x ?? 0))` of a whole number.
abbrev at_least_zero : Option ℤ → ℕ
at_least_zero none = 0
at_least_zero (some x) = pos_part x

abbrev pub is_stopped : MonitorStatus → Bool
is_stopped expired = true
is_stopped exhausted = true
is_stopped failed = true
is_stopped _ = false

abbrev pub is_canceled : MonitorStatus → Bool
is_canceled canceled = true
is_canceled _ = false

-- The deadline that an extension asks for.
abbrev pub requested_deadline : ExtendMonitorInput → ℕ → MonitorRow → ℕ
requested_deadline input now existing =
    let days = min 30 (at_least_zero input.additional_days) in
    if ltb 0 days then now + days * 24 * 60 * 60 * 1000 else existing.deadline_at

-- The row with the caps that are computed for the row that was read, revived if that had stopped.
abbrev pub extended_row : ExtendMonitorInput → ℕ → MonitorRow → MonitorRow → MonitorRow
extended_row input now existing m =
    let deadline_at =
      clamp_deadline (time (requested_deadline input now existing)) now
        (whole existing.interval_seconds) in
    let max_checks =
      clamp_max_checks
        (some (whole (existing.max_checks + at_least_zero input.additional_checks))) in
    let revive =
      ltb now deadline_at && ltb existing.check_count max_checks && is_stopped existing.status in
    record m {
      deadline_at = deadline_at;
      max_checks = max_checks;
      status = if revive then active else m.status;
      next_check_at = if revive then now else m.next_check_at;
      last_error = if revive then none else m.last_error;
      consecutive_errors = if revive then 0 else m.consecutive_errors;
      updated_at = now;
    }

-- `extendMonitor`, which reads and writes as `setMonitorPaused` does, with what it answers.
unfoldable pub extend_monitor :
    ℕ → ExtendMonitorInput → ℕ → (MonitorRow → MonitorRow) → MonitorRow → MonitorRow × Answer
extend_monitor user_id input now meanwhile existing =
    let current = meanwhile existing in
    let extended = extended_row input now existing current in
    if existing.user_id == user_id
    then if is_canceled existing.status
      then (current, refused canceled_not_extended)
      else if current.user_id == user_id
      then (extended, row (some extended))
      else (current, row none)
    else (current, row none)

pub record UpdateMonitorSettingsInput : Type 0 where
  pub name : Option Text
  pub interval_seconds : Option Number
  pub max_checks : Option Number
  pub one_shot : Option Bool
  pub action_config : Option MonitorActionConfig

-- The error that an update throws, if any: the name's before the configuration's.
abbrev pub update_error :
    (ℕ → ℕ → Bool) → ℕ → UpdateMonitorSettingsInput → MonitorRow → Option UserInputError
update_error owned user_id input m =
    first_error
      (elim input.name [
        | none ↦ none
        | some name ↦ elim (checked_name name) [ none ↦ some name_required | some cut ↦ none ]
      ])
      (elim input.action_config [
        | none ↦ none
        | some config ↦ config_error owned user_id m.action config
      ])

abbrev updated_name : Option Text → Text → Text
updated_name none old = old
updated_name (some name) old = or_else (checked_name name) old

abbrev pub updated_interval : Option Number → ℕ → ℕ
updated_interval none old = old
updated_interval (some x) old = clamp_interval x

abbrev pub updated_budget : Option Number → ℕ → ℕ
updated_budget none old = old
updated_budget (some x) old = clamp_max_checks (some x)

abbrev pub updated_row : UpdateMonitorSettingsInput → ℕ → MonitorRow → MonitorRow
updated_row input now m = record m {
  name = updated_name input.name m.name;
  interval_seconds = updated_interval input.interval_seconds m.interval_seconds;
  max_checks = updated_budget input.max_checks m.max_checks;
  one_shot = or_else input.one_shot m.one_shot;
  action_config = or_else input.action_config m.action_config;
  updated_at = now;
}

-- `updateMonitorSettings`.
unfoldable pub update_monitor_settings :
    (ℕ → ℕ → Bool) → ℕ → UpdateMonitorSettingsInput → ℕ → MonitorRow → MonitorRow × Answer
update_monitor_settings owned user_id input now m =
    if m.user_id == user_id
    then elim (update_error owned user_id input m) [
      | some e ↦ (m, refused e)
      | none ↦ (updated_row input now m, row (some (updated_row input now m)))
    ]
    else (m, row none)

-- `remainingLifetimeMs`.
abbrev pub remaining_lifetime_ms : MonitorRow → ℕ → ℕ
remaining_lifetime_ms m now = m.deadline_at - now
