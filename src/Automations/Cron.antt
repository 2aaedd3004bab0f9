-- ===== src/Automations/Cron.antt =====
-- src/lib/automations/cron.ts: the parser of cron expressions (Fields, Expression), the wall clock of a
-- zone (Zone) and the search for the next run (Search).
pub mod Fields
pub mod Ranges
pub mod Expression
pub mod Bounds
pub mod Zone
pub mod Wall
pub mod Search
pub mod Scan
pub mod Next
mod Tests
