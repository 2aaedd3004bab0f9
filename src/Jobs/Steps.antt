-- ===== src/Jobs/Steps.antt =====
-- Every sequence of the queue's operations, by any number of workers and callers, keeps the
-- invariant of the table.
use agent_studio.Shared.{ℕ, String, Bool, Option, none, some, ◌≡◌, refl}
use agent_studio.Jobs.Schema.{JobRow, Db, leased}
use agent_studio.Jobs.Table.{find_row}
use agent_studio.Jobs.Enqueue.{
  EnqueueJobInput, enqueue_job_with_outcome, release_dedupe_key, UpsertJobPolicyInput,
  upsert_job_policy,
}
use agent_studio.Jobs.Claim.{ClaimJobOptions, claim_next_job}
use agent_studio.Jobs.Report.{
  begin_job, heartbeat_job, complete_job, FailJobOptions, fail_job, cancel_job,
}
use agent_studio.Jobs.Changes.{Inv}
use agent_studio.Jobs.ReportInv.{
  begin_job-Inv, heartbeat_job-Inv, complete_job-Inv, fail_job-Inv, cancel_job-Inv,
}
use agent_studio.Jobs.QueueInv.{quiet, enqueue-Inv, release-Inv, claim_next_job-Inv}

-- One operation, run as a whole. A new job has an id that no job has; a begin is of a job that is
-- leased, which begin_job itself does not ask.
pub data Step (db : Db) : Db → Type 0 where
  enqueue :
      (id : String) (now : ℕ) (input : EnqueueJobInput)
      → find_row id db.jobs ≡ none
      → Step db (enqueue_job_with_outcome quiet id now input db).0
  release :
      (id : String) (now : ℕ) (exists : Bool) → Step db (release_dedupe_key id now exists db).0
  policy : (input : UpsertJobPolicyInput) → Step db (upsert_job_policy input db)
  claim :
      (locked : JobRow → Bool) (lease_id : String) (opts : ClaimJobOptions) (now : ℕ)
      → Step db (claim_next_job locked lease_id opts now db).0
  begin :
      (id : String) (now : ℕ) (row : JobRow)
      → find_row id db.jobs ≡ some row
      → row.status ≡ leased
      → Step db (begin_job id now db).0
  heartbeat : (id : String) (ttl : Option ℕ) (now : ℕ) → Step db (heartbeat_job id ttl now db).0
  complete :
      (id : String) (result : Option String) (now : ℕ) → Step db (complete_job id result now db).0
  fail :
      (id : String) (opts : FailJobOptions) (now : ℕ) → Step db (fail_job (λ d. d) id opts now db).0
  cancel :
      (id : String) (reason : Option String) (now : ℕ) → Step db (cancel_job id reason now db).0

pub data Reach (from : Db) : Db → Type 0 where
  here : Reach from from
  next : {db after : Db} → Reach from db → Step db after → Reach from after

upsert_job_policy-jobs :
    (input : UpsertJobPolicyInput) (db : Db) → (upsert_job_policy input db).jobs ≡ db.jobs
unfolding upsert_job_policy
upsert_job_policy-jobs input db = refl

pub Step-Inv : {db after : Db} → Step db after → Inv db.jobs → Inv after.jobs
Step-Inv {db} (enqueue id now input fresh) i = enqueue-Inv id now input db fresh i
Step-Inv {db} (release id now exists) i = release-Inv id now exists db i
Step-Inv {db} (policy input) i = unfold upsert_job_policy in i
Step-Inv {db} (claim locked lease_id opts now) i = claim_next_job-Inv locked lease_id opts now db i
Step-Inv {db} (begin id now row e l) i = begin_job-Inv id now db row e l i
Step-Inv {db} (heartbeat id ttl now) i = heartbeat_job-Inv id ttl now db i
Step-Inv {db} (complete id result now) i = complete_job-Inv id result now db i
Step-Inv {db} (fail id opts now) i = fail_job-Inv id opts now db i
Step-Inv {db} (cancel id reason now) i = cancel_job-Inv id reason now db i

-- In every database that operations reach from one whose table satisfies the invariant, where each
-- runs as a whole, a new job has an id that no job has and a job is begun only while it is leased: the
-- ids are distinct, no two active jobs of one type share a dedupe key, and every job has made at most
-- its allowed attempts (one, where none are allowed), one fewer while it waits for another.
pub Reach-Inv : {from db : Db} → Inv from.jobs → Reach from db → Inv db.jobs
Reach-Inv i here = i
Reach-Inv i (next r s) = Step-Inv s (Reach-Inv i r)
