-- ===== src/Monitors/Lifecycle.antt =====
-- A monitor from its creation on: it stays within the limits along every sequence of events.
use agent_studio.Shared.{
  ℕ, max, Bool, Option, none, some, List, [], ◌∷◌, arith, leb, Bool-cases, Option-cases, inl, inr,
  or_else,
}
use mathlib.Core.Option.{map}
use agent_studio.Shared.Number.{whole}
use agent_studio.Monitors.Text.{Text}
use agent_studio.Monitors.Limits.{
  default_interval_seconds, clamp_interval, clamp_interval_bounds, clamp_max_checks_bounds,
  clamp_deadline_bounds,
}
use agent_studio.Monitors.Run.{MonitorRow, Evaluation, Effect, World, check_row, run_monitor_check}
use agent_studio.Monitors.Kept.{IsKept, IsKeptWorld, check_row-IsKept}
use agent_studio.Monitors.Manage.{
  CreateMonitorInput, create_monitor, Answer, refused, row, new_row, config_error, checked_name,
  max_active_per_user,
}
use agent_studio.Monitors.Events.{Event, check, manage, apply, run_events, latest}
use agent_studio.Monitors.Bounded.{IsBounded, manage-IsBounded}

-- A row after some row, both as in Kept.
kept-IsBounded :
    (old new : MonitorRow) (now clock : ℕ)
    → IsBounded old clock
    → IsKept old new
    → IsBounded new (max clock now)
kept-IsBounded old new now clock h k = ground arith

-- The limits on whatever monitor there is.
abbrev pub IsBoundedWorld : World → ℕ → Type 0
IsBoundedWorld w clock = elim w.monitor [ none ↦ Unit {0} | some m ↦ IsBounded m clock ]

kept-IsBoundedWorld :
    (old : MonitorRow) (m : Option MonitorRow) (es : List Effect) (now clock : ℕ)
    → IsBounded old clock
    → IsKeptWorld old (record { monitor = m; effects = es })
    → IsBoundedWorld (record { monitor = m; effects = es }) (max clock now)
kept-IsBoundedWorld old none es now clock h k = tt
kept-IsBoundedWorld old (some m) es now clock h k = kept-IsBounded old m now clock h k

managed-IsBoundedWorld :
    (owned : ℕ → ℕ → Bool) (now : ℕ) (event : Event) (m : Option MonitorRow) (es : List Effect)
    (clock : ℕ)
    → IsBoundedWorld (record { monitor = m; effects = es }) clock
    → IsBoundedWorld
        (record { monitor = map (manage owned now event) m; effects = es })
        (max clock now)
managed-IsBoundedWorld owned now event none es clock h = tt
managed-IsBoundedWorld owned now event (some m) es clock h =
    manage-IsBounded owned now event m clock h

checked-IsBoundedWorld :
    (evaluate : MonitorRow → ℕ → Evaluation) (dispatch : MonitorRow → Bool) (now : ℕ)
    (m : Option MonitorRow) (es : List Effect) (clock : ℕ)
    → IsBoundedWorld (record { monitor = m; effects = es }) clock
    → IsBoundedWorld
        (run_monitor_check evaluate dispatch (λ v. v) now (record { monitor = m; effects = es })).0
        (max clock now)
unfolding run_monitor_check
checked-IsBoundedWorld evaluate dispatch now none es clock h = tt
checked-IsBoundedWorld evaluate dispatch now (some m) es clock h =
    let after =
      (check_row evaluate dispatch (λ v. v) now m (record { monitor = some m; effects = es })).0 in
    kept-IsBoundedWorld m after.monitor after.effects now clock h
      (check_row-IsKept evaluate dispatch now m es)

apply-IsBoundedWorld :
    (owned : ℕ → ℕ → Bool) (dispatch : MonitorRow → Bool) (now : ℕ) (event : Event) (w : World)
    (clock : ℕ)
    → IsBoundedWorld w clock
    → IsBoundedWorld (apply owned dispatch now event w) (max clock now)
unfolding apply
apply-IsBoundedWorld owned dispatch now (check evaluate) w clock h =
    checked-IsBoundedWorld evaluate dispatch now w.monitor w.effects clock h
apply-IsBoundedWorld owned dispatch now event w clock h =
    managed-IsBoundedWorld owned now event w.monitor w.effects clock h

run_events-IsBoundedWorld :
    (owned : ℕ → ℕ → Bool) (dispatch : MonitorRow → Bool) (events : List (ℕ × Event)) (w : World)
    (clock : ℕ)
    → IsBoundedWorld w clock
    → IsBoundedWorld (run_events owned dispatch events w) (latest events clock)
unfolding run_events
run_events-IsBoundedWorld owned dispatch [] w clock h = h
run_events-IsBoundedWorld owned dispatch ((now, event) ∷ rest) w clock h =
    run_events-IsBoundedWorld owned dispatch rest (apply owned dispatch now event w) (max clock now)
      (apply-IsBoundedWorld owned dispatch now event w clock h)

new_row-IsBounded :
    (input : CreateMonitorInput) (name : Text) (now : ℕ) → IsBounded (new_row input name now) now
new_row-IsBounded input name now =
    let i = or_else input.interval_seconds (whole default_interval_seconds) in
    record {
      interval_low = (clamp_interval_bounds i).0;
      interval_high = (clamp_interval_bounds i).1;
      budget = (clamp_max_checks_bounds input.max_checks 0).1;
      count = omega arith;
      deadline = (clamp_deadline_bounds input.deadline_at now 0 (whole (clamp_interval i))).1;
    }

-- The monitor that a create leaves, if it was not refused.
abbrev pub created : Answer → Option MonitorRow
created (refused e) = none
created (row m) = m

create_monitor-IsBounded :
    (owned : ℕ → ℕ → Bool) (active_count : ℕ) (input : CreateMonitorInput) (now : ℕ)
    → IsBoundedWorld
        (record { monitor = created (create_monitor owned active_count input now); effects = [] })
        now
unfolding create_monitor
create_monitor-IsBounded owned active_count input now =
    elim (Option-cases (config_error owned input.user_id input.action input.action_config)) [
      | inr (e, wrong) ↦ rw (wrong, create_monitor) tt
      | inl fine ↦ elim (Option-cases (checked_name input.name)) [
        | inl blank ↦ rw (fine, create_monitor) (rw blank tt)
        | inr (name, cut) ↦ elim (Bool-cases (leb max_active_per_user active_count)) [
          | inl many ↦ rw (fine, create_monitor) (rw cut (rw many tt))
          | inr few ↦ rw (fine, create_monitor) (rw cut (rw few (new_row-IsBounded input name now)))
        ]
      ]
    ]

-- Whatever a monitor is created with, and whatever checks, claims, pauses, cancels, extensions and
-- updates follow at whatever times, its interval stays between a minute and a day, its budget and the
-- checks that it has made within 2000, and its deadline within 30 days of the latest of these times.
pub created_monitor-IsBounded :
    (owned : ℕ → ℕ → Bool) (dispatch : MonitorRow → Bool) (active_count : ℕ)
    (input : CreateMonitorInput) (now : ℕ) (events : List (ℕ × Event))
    → IsBoundedWorld
        (run_events owned dispatch events (record {
          monitor = created (create_monitor owned active_count input now);
          effects = [];
        }))
        (latest events now)
created_monitor-IsBounded owned dispatch active_count input now events =
    run_events-IsBoundedWorld owned dispatch events
      (record { monitor = created (create_monitor owned active_count input now); effects = [] }) now
      (create_monitor-IsBounded owned active_count input now)
