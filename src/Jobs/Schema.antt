-- ===== src/Jobs/Schema.antt =====
-- src/lib/jobs/jobs.schema.ts: the rows of the three tables, and the state of the database that the
-- queue reads and writes. Times are milliseconds since the epoch. A job's payload and result are
-- JSON that the queue passes through, kept as text; so are the pointers to other domains.
use agent_studio.Shared.{ℕ, String, Bool, true, false, Option, List}

pub data JobStatus : Type 0 where
  pending leased running retry_wait completed failed canceled : JobStatus

-- The messages that the queue writes; the two templates of `staleRunningJobVerdict` keep their
-- holes: minutes since the last heartbeat; attempts made and allowed.
pub data Message : Type 0 where
  text : String → Message
  heartbeat_stopped : ℕ → Message
  no_attempts_left : ℕ → ℕ → Message
  no_registered_handler : String → Message

pub record JobError : Type 0 where
  pub message : Message
  pub stack : Option String

pub record JobRow : Type 0 where
  pub id : String
  pub type : String
  pub status : JobStatus
  pub priority : ℕ
  pub queue : String
  pub dedupe_key : Option String
  pub scheduled_at : ℕ
  pub lease_expires_at : Option ℕ
  pub started_at : Option ℕ
  pub finished_at : Option ℕ
  pub attempt_count : ℕ
  pub max_attempts : ℕ
  pub payload : String
  pub result : Option String
  pub error : Option JobError
  pub run_id : Option String
  pub session_id : Option String
  pub project_id : Option String
  pub user_id : Option String
  pub created_at : ℕ
  pub updated_at : ℕ

pub record JobPolicy : Type 0 where
  pub job_type : String
  pub max_attempts : ℕ
  pub backoff_ms : ℕ
  pub concurrency_key : Option String
  pub concurrency_limit : Option ℕ
  pub timeout_ms : ℕ
  pub cancel_behavior : String

pub record JobLease : Type 0 where
  pub id : String
  pub job_id : String
  pub worker_id : String
  pub heartbeat_at : ℕ
  pub expires_at : ℕ

-- What the queue reports to the observability domain, in the order of the calls.
pub data Report : Type 0 where
  lifecycle_metric : (job_id : String) (status : JobStatus) (duration_ms : ℕ) → Report
  review_job_stuck : (job_id : String) (reason : Message) → Report
  review_job_failure : (job_id : String) (attempts : ℕ) (message : Message) → Report

pub record Db : Type 0 where
  pub jobs : List JobRow
  pub policies : List JobPolicy
  pub leases : List JobLease
  pub reports : List Report

-- `ACTIVE_JOB_STATUSES`: the rows that the partial unique index covers.
abbrev pub is_active : JobStatus → Bool
is_active pending = true
is_active leased = true
is_active running = true
is_active retry_wait = true
is_active _ = false

-- `IN_FLIGHT_STATUSES`: the statuses a job has while a worker holds it.
abbrev pub is_in_flight : JobStatus → Bool
is_in_flight leased = true
is_in_flight running = true
is_in_flight _ = false
