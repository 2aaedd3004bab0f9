-- ===== src/Monitors/Events.antt =====
-- A monitor along sequences of checks and operations, each at its time.
use agent_studio.Shared.{ℕ, max, Bool, List, [], ◌∷◌, or_else}
use mathlib.Core.Option.{map}
use agent_studio.Monitors.Run.{MonitorRow, Evaluation, World, run_monitor_check}
use agent_studio.Monitors.Manage.{
  claim_monitor_for_check, expire_overdue, cancel_monitor, set_monitor_paused, ExtendMonitorInput,
  extend_monitor, UpdateMonitorSettingsInput, update_monitor_settings,
}

-- What is done to a monitor: a check with what it evaluates to, or an operation of a user or of the
-- dispatcher.
pub data Event : Type 0 where
  check : (MonitorRow → ℕ → Evaluation) → Event
  claim : ℕ → Event
  expire : Event
  cancel : ℕ → Event
  pause : ℕ → Bool → Event
  extend : ℕ → ExtendMonitorInput → Event
  update : ℕ → UpdateMonitorSettingsInput → Event

-- What an operation leaves of the row.
unfoldable pub manage : (ℕ → ℕ → Bool) → ℕ → Event → MonitorRow → MonitorRow
manage owned now (check evaluate) m = m
manage owned now (claim server_now) m = or_else (claim_monitor_for_check server_now now m) m
manage owned now expire m = expire_overdue now m
manage owned now (cancel user_id) m = (cancel_monitor user_id now m).0
manage owned now (pause user_id p) m = set_monitor_paused user_id p now (λ r. r) m
manage owned now (extend user_id input) m = (extend_monitor user_id input now (λ r. r) m).0
manage owned now (update user_id input) m = (update_monitor_settings owned user_id input now m).0

-- One event, on the monitor if there is one.
unfoldable pub apply : (ℕ → ℕ → Bool) → (MonitorRow → Bool) → ℕ → Event → World → World
apply owned dispatch now (check evaluate) w = (run_monitor_check evaluate dispatch (λ v. v) now w).0
apply owned dispatch now event w = record w { monitor = map (manage owned now event) w.monitor }

unfoldable pub run_events : (ℕ → ℕ → Bool) → (MonitorRow → Bool) → List (ℕ × Event) → World → World
run_events owned dispatch [] w = w
run_events owned dispatch ((now, event) ∷ rest) w =
    run_events owned dispatch rest (apply owned dispatch now event w)

-- The latest time on the clock along a sequence.
abbrev pub latest : List (ℕ × Event) → ℕ → ℕ
latest [] clock = clock
latest ((now, event) ∷ rest) clock = latest rest (max clock now)
