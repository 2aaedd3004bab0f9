-- ===== src/Jobs/Report.antt =====
-- src/lib/jobs/jobs.server.ts: what a worker and a user report of a job: begin, heartbeat, complete,
-- fail, cancel; and the reads beside them.
use agent_studio.Shared.{
  ℕ, ◌+◌, String, Bool, ◌&&◌, Option, none, some, List, [], ◌∷◌, ltb, or_else, str_eq,
  if◌then◌else◌,
}
use mathlib.Core.Option as Opt
use agent_studio.Jobs.Schema.{
  running, retry_wait, completed, failed, canceled, text, JobError, JobRow, JobPolicy, JobLease,
  review_job_failure, Db, is_in_flight,
}
use agent_studio.Jobs.Table.{any_row, update_rows, find_row, index_holds}
use agent_studio.Jobs.Enqueue.{
  Result, ok, err, unique_violation, get_policy_for_type, default_backoff_ms, default_lease_ttl_ms,
}
use agent_studio.Jobs.Claim.{metric, report}

abbrev pub in_flight : JobRow → Bool
in_flight row = is_in_flight row.status

abbrev pub begin_row : ℕ → JobRow → JobRow
begin_row now row = record row {
  status = running;
  started_at = some now;
  attempt_count = row.attempt_count + 1;
  updated_at = now;
}

-- `beginJob`. It puts a row back under the unique index, which may refuse it.
unfoldable pub begin_job : String → ℕ → Db → Db × Result (Option JobRow)
unfolding update_rows index_holds
begin_job id now db =
    let (rows, row) = update_rows id any_row (begin_row now) db.jobs in
    if index_holds rows then (record db { jobs = rows }, ok row) else (db, err unique_violation)

-- `select id … order by heartbeat_at desc limit 1`: the latest heartbeat of the job.
unfoldable pub latest_lease : String → List JobLease → Option JobLease
latest_lease job [] = none
latest_lease job (l ∷ ls) =
    let later = latest_lease job ls in
    if str_eq l.job_id job
    then elim later [
      | none ↦ some l
      | some other ↦ if ltb l.heartbeat_at other.heartbeat_at then some other else some l
    ]
    else later

unfoldable pub touch_lease : String → String → ℕ → ℕ → List JobLease → List JobLease
touch_lease job id now expires [] = []
touch_lease job id now expires (l ∷ ls) =
    (if str_eq l.job_id job && str_eq l.id id
      then record l { heartbeat_at = now; expires_at = expires }
      else l)
    ∷ touch_lease job id now expires ls

abbrev pub touch_latest : String → ℕ → ℕ → List JobLease → List JobLease
unfolding latest_lease touch_lease
touch_latest job now expires leases = elim (latest_lease job leases) [
  | none ↦ leases
  | some l ↦ touch_lease job l.id now expires leases
]

abbrev pub heartbeat_row : ℕ → ℕ → JobRow → JobRow
heartbeat_row now expires row = record row { lease_expires_at = some expires; updated_at = now }

unfoldable pub heartbeat_job : String → Option ℕ → ℕ → Db → Db × Option JobRow
unfolding update_rows latest_lease touch_lease
heartbeat_job id lease_ttl_ms now db =
    let expires = now + or_else lease_ttl_ms default_lease_ttl_ms in
    let (rows, row) = update_rows id in_flight (heartbeat_row now expires) db.jobs in
    elim row [
      | none ↦ (db, none)
      | some job ↦
          (record db { jobs = rows; leases = touch_latest id now expires db.leases }, some job)
    ]

abbrev pub complete_row : ℕ → Option String → JobRow → JobRow
complete_row now result row = record row {
  status = completed;
  finished_at = some now;
  result = result;
  lease_expires_at = none;
  updated_at = now;
}

unfoldable pub complete_job : String → Option String → ℕ → Db → Db × Option JobRow
unfolding update_rows
complete_job id result now db =
    let (rows, row) = update_rows id in_flight (complete_row now result) db.jobs in
    elim row [
      | none ↦ (db, none)
      | some job ↦ (report (metric completed now job ∷ []) (record db { jobs = rows }), some job)
    ]

pub record FailJobOptions : Type 0 where
  pub error : JobError
  pub backoff_ms : Option ℕ

abbrev pub retry_row : ℕ → ℕ → JobError → JobRow → JobRow
retry_row now backoff e row = record row {
  status = retry_wait;
  scheduled_at = now + backoff;
  lease_expires_at = none;
  error = some e;
  updated_at = now;
}

abbrev pub fail_row : ℕ → JobError → JobRow → JobRow
fail_row now e row = record row {
  status = failed;
  finished_at = some now;
  error = some e;
  lease_expires_at = none;
  updated_at = now;
}

abbrev pub backoff_of : FailJobOptions → Option JobPolicy → ℕ
backoff_of opts policy =
    or_else opts.backoff_ms
      (or_else (Opt.map (λ (p : JobPolicy). p.backoff_ms) policy) default_backoff_ms)

-- The two guarded updates of `failJob`, for the row that it read before.
unfoldable pub fail_read_job : JobRow → FailJobOptions → ℕ → Db → Db × Option JobRow
unfolding update_rows get_policy_for_type
fail_read_job job opts now db =
    let backoff = backoff_of opts (get_policy_for_type job.type db.policies) in
    let (waiting, retried) =
      update_rows job.id in_flight (retry_row now backoff opts.error) db.jobs in
    let (ended, row) = update_rows job.id in_flight (fail_row now opts.error) db.jobs in
    if ltb job.attempt_count job.max_attempts
    then (record db { jobs = waiting }, retried)
    else elim row [
      | none ↦ (db, none)
      | some failed_row ↦ (
        report
            (review_job_failure failed_row.id failed_row.attempt_count opts.error.message
              ∷ metric failed now failed_row
              ∷ [])
            (record db { jobs = ended }),
        some failed_row,
      )
    ]

-- `failJob`: `between` is what other transactions do between the read and the update.
unfoldable pub fail_job : (Db → Db) → String → FailJobOptions → ℕ → Db → Db × Option JobRow
unfolding find_row fail_read_job
fail_job between id opts now db = elim (find_row id db.jobs) [
  | none ↦ (db, none)
  | some job ↦ fail_read_job job opts now (between db)
]

abbrev pub cancel_row : ℕ → Option JobError → JobRow → JobRow
cancel_row now e row = record row {
  status = canceled;
  finished_at = some now;
  error = e;
  lease_expires_at = none;
  updated_at = now;
}

abbrev pub canceled_because : Option String → Option JobError
canceled_because none = none
canceled_because (some s) =
    if str_eq s "" then none else some (record { message = text s; stack = none })

unfoldable pub cancel_job : String → Option String → ℕ → Db → Db × Option JobRow
unfolding update_rows
cancel_job id reason now db =
    let (rows, row) = update_rows id any_row (cancel_row now (canceled_because reason)) db.jobs in
    elim row [
      | none ↦ (db, none)
      | some job ↦ (report (metric canceled now job ∷ []) (record db { jobs = rows }), some job)
    ]

unfoldable pub get_job_by_id : String → Db → Option JobRow
unfolding find_row
get_job_by_id id db = find_row id db.jobs
