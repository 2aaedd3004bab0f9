-- ===== src/Automations/Tests.antt =====
-- The failure policy's theorems at concrete inputs.
use agent_studio.Shared.{
  ℕ, ◌+◌, ◌++◌, true, Option, none, some, List, [], ◌∷◌, ◌≡◌, refl, length, ltb,
}
use agent_studio.Automations.Policy.{schedule, automation_disable_after_failures}
use agent_studio.Automations.Failure.{AutomationRow, retry_job, World, give_up}
use agent_studio.Automations.Streak.{
  fail_tick, fail_tick_lem, after_give_ups, HasStreak, after_give_ups-HasStreak,
}

abbrev digest : AutomationRow
digest = record {
  id = "a";
  enabled = true;
  disabled_reason = none;
  failures = 0;
  last_run_at = none;
  next_run_at = some 0;
  updated_at = 0;
}

abbrev hourly : ℕ → Option ℕ
hourly now = some (now + 3600000)

abbrev before : World
before = record { automation = some digest; effects = [] }

fail_tick_lem_example :
    let retried : World = record before {
      effects =
          ([] ++ retry_job 2 (7 + 60000) schedule ∷ [])
          ++ retry_job 3 (7 + 60000 + 300000) schedule ∷ [];
    } in
    fail_tick 3 hourly schedule 1 7 before ≡ give_up hourly schedule (7 + 60000 + 300000) retried
fail_tick_lem_example = fail_tick_lem 0 hourly schedule 7 before refl

after_give_ups-HasStreak_example :
    let times : List ℕ = 1 ∷ 2 ∷ 3 ∷ 4 ∷ 5 ∷ [] in
    HasStreak
      (after_give_ups hourly schedule times before)
      (length times)
      (ltb (length times) automation_disable_after_failures)
after_give_ups-HasStreak_example =
    after_give_ups-HasStreak hourly schedule (1 ∷ 2 ∷ 3 ∷ 4 ∷ 5 ∷ []) digest [] refl refl
