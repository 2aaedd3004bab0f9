-- ===== src/Monitors/Tests.antt =====
-- Runs of the monitors' model, and the theorems at concrete inputs.
use agent_studio.Shared.{
  ℕ, ◌+◌, ◌*◌, ◌≤◌, Bool, true, false, Option, none, some, List, [], ◌∷◌, ◌≡◌, refl, arith,
}
use mathlib.Core.Option.{map}
use agent_studio.Shared.Number.{not_finite, whole}
use agent_studio.Monitors.Text.{Text, units}
use agent_studio.Monitors.Limits.{
  max_interval_seconds, absent, clamp_interval, compute_next_check_at, compute_next_check_at_bounds,
}
use agent_studio.Monitors.Compare.{observation_from_text, hash_value}
use agent_studio.Monitors.Run.{
  active, paused, canceled, review_item, MonitorActionConfig, MonitorObservation, MonitorRow,
  Evaluation, observed, World, run_monitor_check,
}
use agent_studio.Monitors.Caps.{actions, IsCappedWorld, run_checks, run_checks-IsCapped}
use agent_studio.Monitors.Races.{is_unmoved}
use agent_studio.Monitors.Overlap.{overlapping_checks}
use agent_studio.Monitors.Manage.{
  CreateMonitorInput, create_monitor, cancel_monitor, set_monitor_paused,
}
use agent_studio.Monitors.Events.{Event, check, pause, cancel, run_events}
use agent_studio.Monitors.Lifecycle.{IsBoundedWorld, created, created_monitor-IsBounded}
use agent_studio.Monitors.Cancels.{IsCanceledWith, run_events_canceled, resume-cancel_undone}

abbrev no_config : MonitorActionConfig
no_config = record { prompt = none; automation_id = none }

-- A monitor of user 1, watching since time 0 with a budget of three checks.
abbrev watch : MonitorRow
watch = record {
  user_id = 1;
  name = units "watch";
  action = review_item;
  action_config = no_config;
  status = active;
  interval_seconds = 60;
  deadline_at = 1000000;
  max_checks = 3;
  check_count = 0;
  next_check_at = 0;
  last_checked_at = none;
  last_observation = none;
  condition_met = false;
  fire_count = 0;
  last_fired_at = none;
  last_fire_result = none;
  consecutive_errors = 0;
  last_error = none;
  one_shot = true;
  updated_at = 0;
}

abbrev seen : MonitorObservation
seen = observation_from_text (units "in stock") true none 5

abbrev sees : MonitorRow → ℕ → Evaluation
sees row now = observed seen true

abbrev succeeds : MonitorRow → Bool
succeeds row = true

abbrev start : World
start = record { monitor = some watch; effects = [] }

abbrev cancels : World → World
cancels w = record w { monitor = map (λ m. (cancel_monitor 1 6 m).0) w.monitor }

compute_next_check_at_bounds_example :
    (compute_next_check_at 9 (whole 60) 0 ≡ 9 + clamp_interval (whole 60) * 1000)
    × (9 + clamp_interval (whole 60) * 1000 ≤ compute_next_check_at 9 (whole 60) 2)
    × (compute_next_check_at 9 (whole 60) 2 ≤ 9 + 8 * max_interval_seconds * 1000)
    × (compute_next_check_at 9 (whole 60) 2 ≤ compute_next_check_at 9 (whole 60) 3)
compute_next_check_at_bounds_example = compute_next_check_at_bounds 9 (whole 60) 2

run_checks-IsCapped_example :
    IsCappedWorld (run_checks succeeds ((5, sees) ∷ (70000, sees) ∷ []) start)
run_checks-IsCapped_example =
    run_checks-IsCapped succeeds ((5, sees) ∷ (70000, sees) ∷ []) start (record {
      budget = omega arith;
      fires = omega arith;
      acted = refl;
      once = omega arith;
      errors = omega arith;
    })

canceled_is_moved : is_unmoved watch (cancels start) ≡ false
unfolding cancel_monitor
canceled_is_moved = refl

overlapping_checks_example :
    actions
      (run_monitor_check sees succeeds
        (λ v. (run_monitor_check sees succeeds (λ u. u) 6 v).0)
        5
        start).0.effects
    ≤ 0 + 1
overlapping_checks_example = overlapping_checks sees sees succeeds 5 6 watch []

abbrev request : CreateMonitorInput
request = record {
  user_id = 1;
  name = units " shop ";
  action = review_item;
  action_config = no_config;
  interval_seconds = some (whole 5);
  deadline_at = absent;
  max_checks = some not_finite;
  one_shot = none;
}

abbrev nobodys : ℕ → ℕ → Bool
nobodys user automation = false

abbrev history : List (ℕ × Event)
history = (5, check sees) ∷ (6, pause 1 true) ∷ (8, cancel 1) ∷ (9, pause 1 false) ∷ []

created_monitor-IsBounded_example :
    IsBoundedWorld
      (run_events nobodys succeeds history
        (record { monitor = created (create_monitor nobodys 3 request 4); effects = [] }))
      9
created_monitor-IsBounded_example = created_monitor-IsBounded nobodys succeeds 3 request 4 history

abbrev canceled_watch : MonitorRow
canceled_watch = record watch { status = canceled }

run_events_canceled_example :
    IsCanceledWith
      (run_events nobodys succeeds history (record { monitor = some canceled_watch; effects = [] }))
      0
      []
run_events_canceled_example =
    run_events_canceled nobodys succeeds history
      (record { monitor = some canceled_watch; effects = [] }) 0 [] (refl, refl, refl)

abbrev paused_watch : MonitorRow
paused_watch = record watch { status = paused }

resume-cancel_undone_example :
    let meanwhile = λ (r : MonitorRow). (cancel_monitor 1 6 r).0 in
    let after = set_monitor_paused 1 false 7 meanwhile paused_watch in
    ((meanwhile paused_watch).status ≡ canceled)
    × (after.status ≡ active)
    × (after.next_check_at ≡ 7)
resume-cancel_undone_example = resume-cancel_undone 1 6 7 paused_watch refl refl

abbrev no_regexp : Text → Option (Text → Bool)
no_regexp t = none

hash_of_a : hash_value (units "a") ≡ units "e40c292c0959251c"
unfolding hash_value
hash_of_a = refl
