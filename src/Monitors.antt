-- ===== src/Monitors.antt =====
-- The monitors: src/lib/monitors/condition.ts (clamps, comparisons, observations) and run.server.ts
-- (one check of one monitor).
pub mod Text
pub mod Limits
pub mod Compare
pub mod Comparing
pub mod Run
pub mod Caps
pub mod Races
pub mod Overlap
pub mod Manage
pub mod Kept
pub mod Events
pub mod Bounded
pub mod Lifecycle
pub mod Cancels
pub mod Claims
mod Tests
