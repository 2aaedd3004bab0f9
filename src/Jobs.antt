-- ===== src/Jobs.antt =====
-- The durable job queue: src/lib/jobs/jobs.schema.ts, jobs.server.ts and worker.server.ts.
pub mod Schema
pub mod Table
pub mod Enqueue
pub mod Claim
pub mod Report
mod Rows
pub mod LateReports
pub mod First
pub mod Choice
mod Changes
mod ReportInv
mod QueueInv
pub mod Steps
pub mod Dedupe
pub mod Worker
pub mod Working
mod Tests
