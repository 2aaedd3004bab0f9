-- ===== src/Monitors/Races.antt =====
-- Checks that race a user or one another.
use agent_studio.Shared.{ℕ, ◌<◌, Bool, true, false, ◌&&◌, none, some, List, ◌≡◌, arith, leb, ◌==◌}
use agent_studio.Monitors.Run.{
  MonitorRow, Evaluation, blocked, error, observed, Effect, World, superseded, is_active,
  commit_if_unchanged, blocked_check, error_check, observed_check, record_observation, conclude,
  check_row, run_monitor_check,
}

-- Whether the monitor is as a check read it: still active, with the same count.
abbrev pub is_unmoved : MonitorRow → World → Bool
is_unmoved read w = elim w.monitor [
  | none ↦ false
  | some row ↦ is_active row.status && row.check_count == read.check_count
]

commit_of_moved :
    (read : MonitorRow) (patch : MonitorRow → MonitorRow) (w : World)
    → is_unmoved read w ≡ false
    → commit_if_unchanged read patch w ≡ none
unfolding commit_if_unchanged
commit_of_moved read patch w h = ground arith

pub commit-effects :
    (read : MonitorRow) (patch : MonitorRow → MonitorRow) (w committed : World)
    → commit_if_unchanged read patch w ≡ some committed
    → committed.effects ≡ w.effects
unfolding commit_if_unchanged
commit-effects read patch w committed e = ground arith

-- A check whose monitor was moved is discarded, whatever it evaluated to.
pub conclude_of_moved :
    (dispatch : MonitorRow → Bool) (read : MonitorRow) (now : ℕ) (e : Evaluation) (w : World)
    → is_unmoved read w ≡ false
    → conclude dispatch read now e w ≡ superseded w
unfolding conclude
conclude_of_moved dispatch read now (blocked message) w h =
    unfold blocked_check in rw (commit_of_moved read _ w h, blocked_check)
conclude_of_moved dispatch read now (error message) w h =
    unfold error_check in rw (commit_of_moved read _ w h, error_check)
conclude_of_moved dispatch read now (observed o met) w h =
    unfold observed_check record_observation in rw (commit_of_moved read _ w h, record_observation)

-- A cancel, a pause or another check that lands while a check runs wins: nothing of the check's
-- outcome is recorded, no action runs and nothing is reported; the check says that it was skipped.
pub moved_check_discarded :
    (evaluate : MonitorRow → ℕ → Evaluation) (dispatch : MonitorRow → Bool)
    (meanwhile : World → World) (now : ℕ) (row : MonitorRow) (es : List Effect)
    → is_active row.status ≡ true
    → now < row.deadline_at
    → row.check_count < row.max_checks
    → is_unmoved row (meanwhile (record { monitor = some row; effects = es })) ≡ false
    → let w : World = record { monitor = some row; effects = es } in
      run_monitor_check evaluate dispatch meanwhile now w ≡ superseded (meanwhile w)
unfolding run_monitor_check check_row
moved_check_discarded evaluate dispatch meanwhile now row es a d b h =
    let early : leb row.deadline_at now ≡ false = ground arith in
    let left : leb row.max_checks row.check_count ≡ false = ground arith in
    rw (a, check_row)
      (rw early (
        rw left (
          conclude_of_moved dispatch row now (evaluate row now)
            (meanwhile (record { monitor = some row; effects = es })) h)))
