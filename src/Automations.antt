-- ===== src/Automations.antt =====
-- The automations: src/lib/automations/failure-policy.ts, and what automation-handler.server.ts and
-- automation-failure.server.ts do when a run fails.
pub mod Policy
pub mod Failure
pub mod Streak
pub mod Cron
mod Tests
