-- ===== src/Monitors/Claims.antt =====
-- What claiming a due monitor excludes.
use agent_studio.Shared.{ℕ, ◌+◌, ◌*◌, ◌<◌, true, false, none, some, ◌≡◌, refl, arith, leb}
use agent_studio.Monitors.Run.{MonitorRow}
use agent_studio.Monitors.Manage.{claim_monitor_for_check, is_claimable, is_due}

-- The row that a claim leaves.
abbrev pub claimed_row : ℕ → ℕ → MonitorRow → MonitorRow
claimed_row server_now now m = record m {
  next_check_at = server_now + m.interval_seconds * 1000;
  updated_at = now;
}

-- A claim of a monitor that is active and whose check is due succeeds, and sets its next check
-- an interval after the clock of the database; a second claim before that time finds nothing, and the
-- dispatcher does not see the monitor as due.
pub claim_monitor_for_check_once :
    (server_now server_later now later : ℕ) (m : MonitorRow)
    → is_claimable now m ≡ true
    → later < server_now + m.interval_seconds * 1000
    → (claim_monitor_for_check server_now now m ≡ some (claimed_row server_now now m))
      × (claim_monitor_for_check server_later later (claimed_row server_now now m) ≡ none)
      × (is_due later (claimed_row server_now now m) ≡ false)
unfolding claim_monitor_for_check
claim_monitor_for_check_once server_now server_later now later m h l =
    let early : leb (server_now + m.interval_seconds * 1000) later ≡ false = ground arith in
    (rw (h, claim_monitor_for_check) refl, ground arith, ground arith)
