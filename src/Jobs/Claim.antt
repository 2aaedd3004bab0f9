-- ===== src/Jobs/Claim.antt =====
-- src/lib/jobs/jobs.server.ts: claiming the next job. `now` is the clock, the database's and the
-- process's alike. Rows that another transaction has locked are the ones that `locked` accepts.
use Prim.Native.Char.{code}
use Prim.Native.String as Text
use agent_studio.Shared.{
  ℕ, zero, suc, ◌+◌, ◌-◌, ◌/◌, String, Bool, true, false, not, ◌&&◌, ◌||◌, Option, none, some, List,
  [], ◌∷◌, ◌++◌, ltb, leb, ◌==◌, or_else, any, str_eq, if◌then◌else◌,
}
use agent_studio.Jobs.Schema.{
  JobStatus, pending, leased, running, retry_wait, failed, Message, heartbeat_stopped,
  no_attempts_left, JobRow, JobLease, Report, lifecycle_metric, review_job_stuck, Db,
}
use agent_studio.Jobs.Table.{any_row, update_rows}
use agent_studio.Jobs.Enqueue.{default_lease_ttl_ms}

pub record ClaimJobOptions : Type 0 where
  pub worker_id : String
  pub queues : Option (List String)
  pub lease_ttl_ms : Option ℕ
  pub types : Option (List String)

pub data StaleOutcome : Type 0 where
  abandoned out_of_attempts : StaleOutcome

pub record StaleRunningJobVerdict : Type 0 where
  pub outcome : StaleOutcome
  pub reason : Message

abbrev pub abandoned_lease_ms : ℕ
abandoned_lease_ms = 3600000

abbrev pub max_retired_per_claim : ℕ
max_retired_per_claim = 5

-- `Math.round(ms / 60_000)`.
abbrev pub round_minutes : ℕ → ℕ
round_minutes ms = (ms + 30000) / 60000

unfoldable pub stale_running_job_verdict : ℕ → ℕ → ℕ → Option StaleRunningJobVerdict
stale_running_job_verdict attempt_count max_attempts lease_lapsed_ms =
    if ltb abandoned_lease_ms lease_lapsed_ms
    then some
        (record { outcome = abandoned; reason = heartbeat_stopped (round_minutes lease_lapsed_ms) })
    else if leb max_attempts attempt_count
    then some
        (record { outcome = out_of_attempts; reason = no_attempts_left attempt_count max_attempts })
    else none

-- The characters that `buildInClause` keeps: letters, digits, `_`, `:` and `-`.
abbrev is_name_char : ℕ → Bool
is_name_char c =
    (leb b'a' c && leb c b'z')
    || (leb b'A' c && leb c b'Z')
    || (leb b'0' c && leb c b'9')
    || c == b'_'
    || c == b':'
    || c == b'-'

strip_name : String → String
strip_name Text.[] = ""
strip_name (Text.◌∷◌ c s) =
    let rest = strip_name s in if is_name_char (code c) then Text.◌∷◌ c rest else rest

-- `buildInClause`, as the condition that it adds: none for an absent or empty list.
unfoldable pub in_clause : Option (List String) → String → Bool
unfolding strip_name
in_clause none name = true
in_clause (some []) name = true
in_clause (some (v ∷ vs)) name = any (λ w. str_eq (strip_name w) name) (v ∷ vs)

abbrev pub is_before : Option ℕ → ℕ → Bool
is_before none now = false
is_before (some t) now = ltb t now

-- The first part of the `where` clause: due, or held under a lapsed lease.
unfoldable pub is_due : ℕ → JobStatus → ℕ → Option ℕ → Bool
is_due now pending scheduled lease = leb scheduled now
is_due now retry_wait scheduled lease = leb scheduled now
is_due now leased scheduled lease = is_before lease now
is_due now running scheduled lease = is_before lease now
is_due now _ scheduled lease = false

unfoldable pub is_candidate : (JobRow → Bool) → ClaimJobOptions → ℕ → JobRow → Bool
unfolding is_due in_clause
is_candidate locked opts now row =
    is_due now row.status row.scheduled_at row.lease_expires_at
    && in_clause opts.queues row.queue
    && in_clause opts.types row.type
    && not (locked row)

-- `order by priority desc, scheduled_at asc`: whether the first row comes before the second.
unfoldable pub comes_before : JobRow → JobRow → Bool
comes_before a b =
    ltb b.priority a.priority || (a.priority == b.priority && leb a.scheduled_at b.scheduled_at)

-- `order by … limit 1` over the rows that pass.
unfoldable pub first_candidate : (JobRow → Bool) → List JobRow → Option JobRow
unfolding comes_before
first_candidate test [] = none
first_candidate test (row ∷ rows) =
    let later = first_candidate test rows in
    if test row
    then elim later [
      | none ↦ some row
      | some other ↦ if comes_before row other then some row else some other
    ]
    else later

pub data ClaimOutcome : Type 0 where
  claimed : JobRow → ClaimOutcome
  retired : JobRow → StaleRunningJobVerdict → ClaimOutcome
  empty : ClaimOutcome

-- The row that fails a job whose worker is gone, and the row that leases a job.
abbrev pub retire_row : ℕ → Message → JobRow → JobRow
retire_row now reason row = record row {
  status = failed;
  finished_at = some now;
  lease_expires_at = none;
  error = some (record { message = reason; stack = none });
  updated_at = now;
}

abbrev pub lease_row : ℕ → ℕ → JobRow → JobRow
lease_row now expires row = record row {
  status = leased;
  lease_expires_at = some expires;
  updated_at = now;
}

-- The verdict on a candidate: only a `running` one with a lease is judged.
unfoldable pub verdict_of : ℕ → JobStatus → ℕ → ℕ → Option ℕ → Option StaleRunningJobVerdict
unfolding stale_running_job_verdict
verdict_of now running attempts allowed (some lease) =
    stale_running_job_verdict attempts allowed (now - lease)
verdict_of now _ attempts allowed _ = none

-- The transaction and the lease record of `claimOnce`; `lease_id` is the id of that record.
unfoldable pub claim_once : (JobRow → Bool) → String → ClaimJobOptions → ℕ → Db → Db × ClaimOutcome
unfolding is_candidate first_candidate verdict_of update_rows
claim_once locked lease_id opts now db =
    let expires = now + or_else opts.lease_ttl_ms default_lease_ttl_ms in
    elim (first_candidate (is_candidate locked opts now) db.jobs) [
      | none ↦ (db, empty)
      | some c ↦ elim (verdict_of now c.status c.attempt_count c.max_attempts c.lease_expires_at) [
        | some v ↦
            let (rows, row) = update_rows c.id any_row (retire_row now v.reason) db.jobs in
            elim row [ some job ↦ (record db { jobs = rows }, retired job v) | none ↦ (db, empty) ]
        | none ↦
            let (rows, row) = update_rows c.id any_row (lease_row now expires) db.jobs in
            elim row [
              | some job ↦
                  let lease : JobLease = record {
                    id = lease_id;
                    job_id = job.id;
                    worker_id = opts.worker_id;
                    heartbeat_at = now;
                    expires_at = expires;
                  } in
                  (record db { jobs = rows; leases = lease ∷ db.leases }, claimed job)
              | none ↦ (db, empty)
            ]
      ]
    ]

-- `emitJobLifecycleMetric`: 0 for a job that never started, and never below 0.
abbrev pub duration_ms : ℕ → JobRow → ℕ
duration_ms now row = elim row.started_at [
  | none ↦ 0
  | some started ↦ or_else row.finished_at now - started
]

abbrev pub metric : JobStatus → ℕ → JobRow → Report
metric status now row = lifecycle_metric row.id status (duration_ms now row)

abbrev pub report : List Report → Db → Db
report rs db = record db { reports = db.reports ++ rs }

-- `reportRetiredJob`: a review item for a crash loop only.
unfoldable pub report_retired_job : ℕ → JobRow → StaleRunningJobVerdict → Db → Db
report_retired_job now row v db = elim v.outcome [
  | abandoned ↦ report (metric failed now row ∷ []) db
  | out_of_attempts ↦ report (metric failed now row ∷ review_job_stuck row.id v.reason ∷ []) db
]

-- The loop of `claimNextJob`, on the rounds left.
unfoldable pub claim_rounds :
    ℕ → (JobRow → Bool) → String → ClaimJobOptions → ℕ → Db → Db × Option JobRow
unfolding claim_once report_retired_job
claim_rounds zero locked lease_id opts now db = (db, none)
claim_rounds (suc n) locked lease_id opts now db =
    let (after, outcome) = claim_once locked lease_id opts now db in
    elim outcome [
      | claimed job ↦ (after, some job)
      | empty ↦ (after, none)
      | retired job v ↦ claim_rounds n locked lease_id opts now (report_retired_job now job v after)
    ]

-- `for (let retired = 0; retired <= MAX_RETIRED_PER_CLAIM; …)`.
unfoldable pub claim_next_job :
    (JobRow → Bool) → String → ClaimJobOptions → ℕ → Db → Db × Option JobRow
unfolding claim_rounds
claim_next_job locked lease_id opts now db =
    claim_rounds (max_retired_per_claim + 1) locked lease_id opts now db
