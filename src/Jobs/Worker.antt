-- ===== src/Jobs/Worker.antt =====
-- src/lib/jobs/worker.server.ts: one turn of the worker, `processOne`. A handler is a function of the
-- job and the database: what the table is when it ends (its own heartbeats, and whatever others did
-- meanwhile) and what it returns or throws. The queue's own calls do not throw here.
use agent_studio.Shared.{
  ℕ, String, Bool, true, false, Option, none, some, List, [], ◌∷◌, or_else, filter, includes,
  str_eq, if◌then◌else◌,
}
use agent_studio.Jobs.Schema.{JobStatus, canceled, no_registered_handler, JobError, JobRow, Db}
use agent_studio.Jobs.Claim.{ClaimJobOptions, claim_next_job}
use agent_studio.Jobs.Report.{begin_job, complete_job, FailJobOptions, fail_job, get_job_by_id}

pub record WorkerOptions : Type 0 where
  pub worker_id : String
  pub queues : Option (List String)
  pub types : Option (List String)
  pub lease_ttl_ms : Option ℕ

-- What a handler ends with: a result, which is none where it is no object, or an error.
pub data Ended : Type 0 where
  returned : Option String → Ended
  threw : JobError → Ended

abbrev pub Handler : Type 0
Handler = JobRow → Db → Db × Ended

-- `handlers`: the registered types with their handlers, the last registered first.
unfoldable pub handler_of : String → List (String × Handler) → Option Handler
handler_of type [] = none
handler_of type ((t, h) ∷ rest) = if str_eq t type then some h else handler_of type rest

abbrev pub handler_types : List (String × Handler) → List String
handler_types [] = []
handler_types ((t, h) ∷ rest) = t ∷ handler_types rest

-- The types that a worker claims: the registered ones, and of its filter only those.
unfoldable pub claimed_types : Option (List String) → List String → List String
claimed_types none registered = registered
claimed_types (some types) registered = filter (includes registered) types

abbrev no_handler : String → FailJobOptions
no_handler type = record {
  error = record { message = no_registered_handler type; stack = none };
  backoff_ms = none;
}

-- The report on a handler that has ended.
unfoldable pub finish : String → Ended → ℕ → Db → Db
finish id (returned result) now db = (complete_job id result now db).0
finish id (threw e) now db =
    (fail_job (λ d. d) id (record { error = e; backoff_ms = none }) now db).0

-- A claimed job, from its begin to the report.
-- It runs on the table as others have left it since the claim.
unfoldable pub work_on : List (String × Handler) → ℕ → ℕ → JobRow → Db → Db
work_on handlers now later job db = elim (handler_of job.type handlers) [
  | none ↦ (fail_job (λ d. d) job.id (no_handler job.type) now db).0
  | some handler ↦
      let begun = (begin_job job.id now db).0 in
      let ended = handler job begun in finish job.id ended.1 later ended.0
]

abbrev pub claim_options : WorkerOptions → List String → ClaimJobOptions
claim_options opts types = record {
  worker_id = opts.worker_id;
  queues = opts.queues;
  lease_ttl_ms = some (or_else opts.lease_ttl_ms 60000);
  types = some types;
}

-- `processOne`, with whether it processed a job; the claim runs at now, the report later. What others
-- do to the table while it waits between the claim and the begin is `meanwhile`.
unfoldable pub process_one :
    (Db → Db)
    → Bool
    → List (String × Handler)
    → (JobRow → Bool)
    → String
    → WorkerOptions
    → ℕ
    → ℕ
    → Db
    → Db × Bool
process_one meanwhile true handlers locked lease_id opts now later db = (db, false)
process_one meanwhile false handlers locked lease_id opts now later db =
    elim (claimed_types opts.types (handler_types handlers)) [
      | [] ↦ (db, false)
      | t ∷ types ↦
          let (claimed, found) =
            claim_next_job locked lease_id (claim_options opts (t ∷ types)) now db in
          elim found [
            | none ↦ (claimed, false)
            | some job ↦ (work_on handlers now later job (meanwhile claimed), true)
          ]
    ]

-- What `errorForLostJob` says of a job that is no longer in flight: true for a cancel.
abbrev is_canceled : JobStatus → Bool
is_canceled canceled = true
is_canceled _ = false

unfoldable pub lost_is_canceled : String → Db → Bool
lost_is_canceled id db = elim (get_job_by_id id db) [
  | none ↦ true
  | some job ↦ is_canceled job.status
]
