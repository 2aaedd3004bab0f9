-- ===== src/Lib.antt =====
-- The background work of AgentStudio, modelled over plain data, with the theorems that make it
-- correct. Paths are from the repository's root.
--
-- The parts and the files that model them:
--
-- Jobs: the durable queue, src/lib/jobs/jobs.server.ts over the tables of jobs.schema.ts. A
-- database (Schema.Db) is the rows of `jobs`, `job_policies` and `job_leases`, with what is
-- reported outside. Table has the statements (an update by id, the partial unique index, the newest
-- row), Enqueue has enqueueJobWithOutcome, releaseDedupeKey and the policies, Claim has
-- claimNextJob with staleRunningJobVerdict, Report has beginJob, heartbeatJob, completeJob, failJob
-- and cancelJob, and Worker has one turn of the worker, processOne of worker.server.ts. Each
-- statement is atomic; where the source makes two and others may run in between, that is an
-- argument (`meanwhile`), also between the claim and the begin of a worker's turn. Rows, Changes,
-- ReportInv, QueueInv and Steps are about the invariant of the table, First and Choice about what a
-- claim takes, Working about a turn of the worker, LateReports about reports on jobs that have
-- moved on, Dedupe about what an enqueue returns.
--
-- Monitors: src/lib/monitors/condition.ts (Text, Limits, Compare), run.server.ts (Run) and
-- monitors.server.ts (Manage). The table is one row, since every statement names one monitor by its
-- id. The evaluation of a condition and the dispatch of an action are the two functions that the
-- source lets a caller replace; while the first runs, `meanwhile` may change the row. Caps, Races
-- and Overlap are about checks, Events, Bounded, Kept, Lifecycle and Cancels about all operations
-- in any order, Claims about the claim of a due monitor, Comparing about comparisons.
--
-- Automations: src/lib/automations/failure-policy.ts (Policy), and what a failing run does in
-- automation-handler.server.ts and automation-failure.server.ts (Failure, Streak). A monitor may
-- run an automation, and an automation's run is a job: the job's failure path ends in this policy.
-- src/lib/automations/cron.ts says when an automation runs next: Cron.Fields and Cron.Expression
-- are the parser, Cron.Zone is resolveNaive, Cron.Search has matchesDate and computeNextRunAt. What
-- the engine's date formatter reads in a zone is a parameter, a function from instants to
-- milliseconds; dates are computed from days since the epoch. Cron.Scan, Cron.Next, Cron.Wall,
-- Cron.Ranges and Cron.Bounds have the theorems. The search has as fuel one more than the minutes
-- of 1462 days, of which every round passes at least one; the binary search has one more than the
-- distance of its bounds. A month or weekday that is named by what a table of names inherits, which
-- parseValue takes for a value, has the outcome `inherited`, and what the source does from there is
-- not modelled.
--
-- Workspace: src/lib/workspace/gc-core.ts (Gc, Removal), where the file system is a parameter, and
-- src/lib/engine/workspace-guard.ts (Guard, Containment), where the platform's functions on paths
-- are.
--
-- Chat: src/lib/chat/streaming-blocks.ts, the blocks of a turn as its frames arrive. Blocks has the
-- kinds of blocks; Tools, Shell, Children and Deltas have the operations, one for each frame;
-- Transcript is src/lib/engine/subagent-transcript.ts, and Shell has appendStreamTail of
-- src/lib/engine/tool-result-details.ts; Saving reads and saves the blocks, Drafts has
-- buildDisplayedMessages and reconcilePendingDrafts. Frames puts the operations together as the
-- steps of a turn. Replay and Opening are about frames delivered again, Tail, Output and Ended
-- about the output of background commands, Caps, Keeping and Bounded about the caps of transcripts,
-- Saved about what is saved, Displaying about drafts that the page drops. Plan and Metadata are
-- src/lib/chat/turn-plan.ts, how a turn is resumed after an edit, and Resume has
-- runWithResumeFallback of src/lib/engine/turn-input.ts; Resuming and Preamble are about these. A
-- run of an attempt is a parameter, since the Agent SDK does it. A random id of a new block is an
-- argument, and the stable sort of the engine is an insertion sort.
--
-- Runs: the event stream of a run. Codec is src/lib/runtime/sse-codec.ts, the frames as text, and
-- Consumer is src/lib/chat/sse-consumer.ts, which splits chunks into blocks, parses them and
-- resumes a reader that is cut off. Splitting, Numbers and Frames are about chunks, sequence
-- numbers and single frames, Loose about those with no number; Stream, Cutting, Reading and Resumes
-- put them together for a whole run. Replay is src/lib/runs/run-replay-stream.ts, the body of a
-- resume as its chunks, over the rounds of its loop, and Replayed is about it. A reader is the list
-- of its chunks and how it ends; the streaming decoder, whose state lives on across a resume, and
-- JSON are parameters; the replay writes text; the answers of shouldStop and of the server are
-- functions, and the source's three resumes are counted down.
--
-- Engine: what the engine decides about calls of tools. Delegation is
-- src/lib/engine/delegation-gate.ts, with a hook as two steps around its budget check, and Slots
-- its maps; Turns has every interleaving of hooks in a turn, Slotted what holds of them, and
-- Admission what one hook does. Capabilities and Modes are src/lib/engine/permission-mode.ts, whose
-- patterns are tests on a name in lower case; Connectors is src/lib/engine/mcp-connectors.ts;
-- Decision is src/lib/engine/tool-decision.ts with the scope of src/lib/engine/tool-scope.ts and
-- the names of src/lib/engine/builtin-tools.ts, and it uses the guard of Workspace. Permitted is
-- about calls that run with no question asked, Foreign about tools of other servers. The texts of
-- reasons are constructors, but those of the delegation gate.
--
-- Shared has the names that all of these use: Boolean tests on native numbers, lists, JavaScript's
-- numbers as far as they are clamped.
--
-- Conventions: times are milliseconds since the epoch, as natural numbers; ids and texts that are
-- only compared are strings; texts that are searched are lists of UTF-16 code units; JSON that is
-- only stored is a string. A clock, a database default and a random id are arguments. Counters are
-- natural numbers, since the columns' 32 bits are far beyond the caps. The loops of the source are
-- structural: the three tries of an enqueue and the six rounds of a claim are counted down from the
-- source's constants. A claim reads one time in all its rounds, a priority is a natural number, the
-- names of tools and fields are put in lower case letter by letter of ASCII, an extension of a
-- monitor takes whole numbers, the write of an action's result leaves the time of the row's last
-- update, and a removal that fails counts as tried. `fail_tick` takes each retry as queued, and has
-- as fuel the attempts that may be made, three of which are enough.
--
-- Not modelled: the timers of the worker and the scheduler; how conditions are observed and actions
-- dispatched (calls of tools, models and notifications); failing database calls, which the source
-- logs and goes on from; the choice of the pending question of a turn, prompts with attachments,
-- token estimates and the transcripts of old blocks; the rest of the web interface, the agents and
-- the other domains.
pub mod Shared
pub mod Jobs
pub mod Monitors
pub mod Automations
pub mod Workspace
pub mod Chat
pub mod Runs
pub mod Engine
