-- ===== src/Jobs/Tests.antt =====
-- Runs of the queue on small tables, and the theorems at inputs that exercise them.
use agent_studio.Shared.{
  ℕ, String, Bool, true, false, none, some, List, [], ◌∷◌, ◌≡◌, refl, ◌<◌, ◌≤◌, arith, inl, inr,
  ◌⊎◌, any,
}
use agent_studio.Jobs.Schema.{
  JobStatus, pending, leased, running, failed, canceled, text, JobRow, Db,
}
use agent_studio.Jobs.Table.{find_row, collides, conflicts, index_holds}
use agent_studio.Jobs.Enqueue.{
  EnqueueJobInput, active, insert_values, get_policy_for_type, enqueue_job_with_outcome,
}
use agent_studio.Jobs.Claim.{ClaimJobOptions, claim_once, claim_next_job}
use agent_studio.Jobs.Report.{
  begin_job, begin_row, heartbeat_job, complete_job, complete_row, FailJobOptions, fail_job,
  cancel_row, cancel_job, canceled_because,
}
use agent_studio.Jobs.LateReports.{
  IsReported, late_reports_ignored, fail_job_outcome, begin-cancel_undone,
}
use agent_studio.Jobs.Choice.{ClaimSpec, claim_once_lem}
use agent_studio.Jobs.Changes.{Inv}
use agent_studio.Jobs.QueueInv.{quiet}
use agent_studio.Jobs.Steps.{here, next, enqueue, claim, Reach-Inv}
use agent_studio.Jobs.Worker.{WorkerOptions, returned, Handler}
use agent_studio.Jobs.Dedupe.{settle, key_holder, enqueue_job_with_outcome_keyed}

abbrev empty_db : Db
empty_db = record { jobs = []; policies = []; leases = []; reports = [] }

abbrev job_row : String → JobStatus → ℕ → ℕ → JobRow
job_row id status attempts scheduled = record {
  id = id;
  type = "mine";
  status = status;
  priority = 100;
  queue = "default";
  dedupe_key = none;
  scheduled_at = scheduled;
  lease_expires_at = some 10;
  started_at = none;
  finished_at = none;
  attempt_count = attempts;
  max_attempts = 3;
  payload = "{}";
  result = none;
  error = none;
  run_id = none;
  session_id = none;
  project_id = none;
  user_id = none;
  created_at = 0;
  updated_at = 0;
}

abbrev of_rows : List JobRow → Db
of_rows rows = record empty_db { jobs = rows }

abbrev two_jobs : Db
two_jobs = of_rows (job_row "a" pending 0 7 ∷ job_row "b" running 1 5 ∷ [])

abbrev keyed_input : EnqueueJobInput
keyed_input = record {
  type = "mine";
  payload = none;
  priority = none;
  queue = none;
  dedupe_key = some "k";
  dedupe_scope = some active;
  scheduled_at = none;
  max_attempts = none;
  run_id = none;
  session_id = none;
  project_id = none;
  user_id = none;
}

abbrev opts : ClaimJobOptions
opts = record { worker_id = "w"; queues = none; lease_ttl_ms = none; types = some ("mine" ∷ []) }

abbrev boom : FailJobOptions
boom = record { error = record { message = text "boom"; stack = none }; backoff_ms = none }

queue_runs : Unit {0}
unfolding claim_next_job enqueue_job_with_outcome index_holds conflicts collides begin_job
    complete_job cancel_job fail_job find_row
queue_runs = tt

-- The job scheduled first is claimed, among equals in priority.
claims_oldest :
    (claim_next_job (λ _. false) "l" opts 20 two_jobs).1
    ≡ some (record (job_row "b" leased 1 5) { lease_expires_at = some 60020; updated_at = 20 })
unfolding queue_runs
claims_oldest = refl

-- One claim retires six dead jobs before it gives up.
abbrev dead : String → JobRow
dead id = job_row id running 3 0

retires_six :
    let (after, result) =
      claim_next_job
        (λ _. false)
        "l"
        opts
        20
        (of_rows
          (dead "a" ∷ dead "b" ∷ dead "c" ∷ dead "d" ∷ dead "e" ∷ dead "f" ∷ dead "g" ∷ [])) in
    (result ≡ none)
    × (agent_studio.Shared.map (λ (r : JobRow). r.status) after.jobs
        ≡ failed ∷ failed ∷ failed ∷ failed ∷ failed ∷ failed ∷ running ∷ [])
unfolding queue_runs
retires_six = (refl, refl)

late_reports_ignored_example :
    let db = of_rows (job_row "a" canceled 1 0 ∷ []) in
    (heartbeat_job "a" none 30 db ≡ (db, none))
    × (complete_job "a" none 30 db ≡ (db, none))
    × (fail_job (λ _. db) "a" boom 30 (of_rows (job_row "a" running 1 0 ∷ [])) ≡ (db, none))
unfolding find_row
late_reports_ignored_example =
    late_reports_ignored "a" none boom none 30 (of_rows (job_row "a" running 1 0 ∷ []))
      (of_rows (job_row "a" canceled 1 0 ∷ [])) (job_row "a" running 1 0) refl refl

fail_job_outcome_example :
    let db = of_rows (job_row "a" running 1 0 ∷ []) in
    let (after, result) = fail_job (λ d. d) "a" boom 30 db in
    (r : JobRow) × (result ≡ some r)
    × (find_row "a" after.jobs ≡ some r)
    × IsReported boom 30 (get_policy_for_type "mine" []) (job_row "a" running 1 0) r
unfolding find_row
fail_job_outcome_example =
    fail_job_outcome "a" boom 30 (of_rows (job_row "a" running 1 0 ∷ [])) (job_row "a" running 1 0)
      refl refl

begin-cancel_undone_example :
    let db = of_rows (job_row "a" leased 0 0 ∷ []) in
    let canceled_row = cancel_row 30 (canceled_because none) (job_row "a" leased 0 0) in
    let begun = (begin_job "a" 31 (cancel_job "a" none 30 db).0).0 in
    (find_row "a" (cancel_job "a" none 30 db).0.jobs ≡ some canceled_row)
    × (find_row "a" begun.jobs ≡ some (begin_row 31 canceled_row))
    × ((complete_job "a" none 32 begun).1 ≡ some (complete_row 32 none (begin_row 31 canceled_row)))
unfolding queue_runs
begin-cancel_undone_example =
    begin-cancel_undone "a" none none 30 31 32 (of_rows (job_row "a" leased 0 0 ∷ []))
      (job_row "a" leased 0 0) refl refl

claim_once_lem_example :
    let (after, outcome) = claim_once (λ _. false) "l" opts 20 two_jobs in
    ClaimSpec (λ _. false) opts 20 two_jobs after outcome
unfolding find_row
claim_once_lem_example = claim_once_lem (λ _. false) "l" opts 20 two_jobs (refl, (refl, tt))

abbrev enqueued : Db
enqueued = (enqueue_job_with_outcome quiet "a" 5 keyed_input empty_db).0

abbrev taken : Db
taken = (claim_next_job (λ _. false) "l" opts 20 enqueued).0

Reach-Inv_example : Inv taken.jobs
unfolding find_row index_holds
Reach-Inv_example =
    Reach-Inv {from = empty_db} (record { distinct = tt; unique = refl; paced = tt })
      (next (next here (enqueue "a" 5 keyed_input refl)) (claim (λ _. false) "l" opts 20))

enqueue_job_with_outcome_keyed_example :
    enqueue_job_with_outcome quiet "b" 6 keyed_input enqueued
    ≡ settle
        (key_holder (some active) "mine" "k" enqueued)
        (insert_values "b" 6 keyed_input (get_policy_for_type "mine" enqueued.policies))
        enqueued
enqueue_job_with_outcome_keyed_example =
    enqueue_job_with_outcome_keyed "b" 6 keyed_input enqueued "k" refl

abbrev miner : Handler
miner job db = (db, returned (some "{}"))

abbrev worker : WorkerOptions
worker = record { worker_id = "w"; queues = none; types = none; lease_ttl_ms = none }
