-- ===== src/Jobs/ReportInv.antt =====
-- The reports of workers and users keep the invariant of the table.
use agent_studio.Shared.{
  ℕ, ◌+◌, String, Option, some, ◌≡◌, refl, sym, ◌∙◌, subst, eq_iff, arith, ltb, or_else, Bool-cases,
  Option-cases, inl, inr,
}
use agent_studio.Jobs.Schema.{JobRow, Db, leased}
use agent_studio.Jobs.Table.{any_row, update_rows, find_row, index_holds}
use agent_studio.Jobs.Enqueue.{get_policy_for_type, default_lease_ttl_ms}
use agent_studio.Jobs.Report.{
  in_flight, begin_row, begin_job, heartbeat_row, heartbeat_job, complete_row, complete_job,
  FailJobOptions, retry_row, fail_row, backoff_of, fail_read_job, fail_job, cancel_row,
  canceled_because, cancel_job,
}
use agent_studio.Jobs.Rows.{IsIndexSafe}
use agent_studio.Jobs.LateReports.{find_row-id}
use agent_studio.Jobs.Changes.{Change, Inv, Change-Inv}

-- A row that leaves its status for an ended one, or keeps it, needs no more of an operation.
complete-safe : (now : ℕ) (result : Option String) → IsIndexSafe in_flight (complete_row now result)
complete-safe now result = record {
  type_kept = λ r. refl;
  key_kept = λ r. refl;
  not_woken = λ r g w. ground arith;
}

pub complete_job-Inv :
    (id : String) (result : Option String) (now : ℕ) (db : Db)
    → Inv db.jobs
    → Inv (complete_job id result now db).0.jobs
unfolding complete_job
complete_job-Inv id result now db i =
    let set = complete_row now result in
    let changed : Inv (update_rows id in_flight set db.jobs).0 =
      Change-Inv
        (Change.updated id in_flight set (λ r. refl) (complete-safe now result)
          (λ r e g p. ground arith))
        i in
    elim (Option-cases (update_rows id in_flight set db.jobs).1) [
      | inl gone ↦ rw (gone, complete_job) i
      | inr (job, held) ↦ rw (held, complete_job) changed
    ]

pub heartbeat_job-Inv :
    (id : String) (ttl : Option ℕ) (now : ℕ) (db : Db)
    → Inv db.jobs
    → Inv (heartbeat_job id ttl now db).0.jobs
unfolding heartbeat_job
heartbeat_job-Inv id ttl now db i =
    let set = heartbeat_row now (now + or_else ttl default_lease_ttl_ms) in
    let changed : Inv (update_rows id in_flight set db.jobs).0 =
      Change-Inv
        (Change.updated id in_flight set (λ r. refl)
          (record { type_kept = λ r. refl; key_kept = λ r. refl; not_woken = λ r g w. w })
          (λ r e g p. p))
        i in
    elim (Option-cases (update_rows id in_flight set db.jobs).1) [
      | inl gone ↦ rw (gone, heartbeat_job) i
      | inr (job, held) ↦ rw (held, heartbeat_job) changed
    ]

pub cancel_job-Inv :
    (id : String) (reason : Option String) (now : ℕ) (db : Db)
    → Inv db.jobs
    → Inv (cancel_job id reason now db).0.jobs
unfolding cancel_job
cancel_job-Inv id reason now db i =
    let set = cancel_row now (canceled_because reason) in
    let changed : Inv (update_rows id any_row set db.jobs).0 =
      Change-Inv
        (Change.updated id any_row set (λ r. refl)
          (record {
            type_kept = λ r. refl;
            key_kept = λ r. refl;
            not_woken = λ r g w. ground arith;
          })
          (λ r e g p. ground arith))
        i in
    elim (Option-cases (update_rows id any_row set db.jobs).1) [
      | inl gone ↦ rw (gone, cancel_job) i
      | inr (job, held) ↦ rw (held, cancel_job) changed
    ]

-- The worker begins a job that it has claimed.
pub begin_job-Inv :
    (id : String) (now : ℕ) (db : Db) (row : JobRow)
    → find_row id db.jobs ≡ some row
    → row.status ≡ leased
    → Inv db.jobs
    → Inv (begin_job id now db).0.jobs
unfolding begin_job
begin_job-Inv id now db row e l i =
    let set = begin_row now in
    elim (Bool-cases (index_holds (update_rows id any_row set db.jobs).0)) [
      | inl holds ↦
          rw (holds, begin_job)
            (Change-Inv
              (Change.checked id any_row set (λ r. refl) holds
                (λ r e' g p. ground (arith, sym e ∙ e')))
              i)
      | inr refused ↦ rw (refused, begin_job) i
    ]

pub fail_read_job-Inv :
    (job : JobRow) (opts : FailJobOptions) (now : ℕ) (db : Db)
    → find_row job.id db.jobs ≡ some job
    → Inv db.jobs
    → Inv (fail_read_job job opts now db).0.jobs
unfolding fail_read_job
fail_read_job-Inv job opts now db e i =
    let retry =
      retry_row now (backoff_of opts (get_policy_for_type job.type db.policies)) opts.error in
    let end = fail_row now opts.error in
    let ended : Inv (update_rows job.id in_flight end db.jobs).0 =
      Change-Inv
        (Change.updated job.id in_flight end (λ r. refl)
          (record {
            type_kept = λ r. refl;
            key_kept = λ r. refl;
            not_woken = λ r g w. ground arith;
          })
          (λ r e' g p. ground arith))
        i in
    elim (Bool-cases (ltb job.attempt_count job.max_attempts)) [
      | inl left ↦
          rw (left, fail_read_job)
            (Change-Inv
              (Change.updated job.id in_flight retry (λ r. refl)
                (record {
                  type_kept = λ r. refl;
                  key_kept = λ r. refl;
                  not_woken = λ r g w. ground arith;
                })
                (λ r e' g p. ground (arith, sym e ∙ e')))
              i)
      | inr none_left ↦ elim (Option-cases (update_rows job.id in_flight end db.jobs).1) [
        | inl gone ↦ rw (none_left, fail_read_job) (rw gone i)
        | inr (row, held) ↦ rw (none_left, fail_read_job) (rw held ended)
      ]
    ]

pub fail_job-Inv :
    (id : String) (opts : FailJobOptions) (now : ℕ) (db : Db)
    → Inv db.jobs
    → Inv (fail_job (λ d. d) id opts now db).0.jobs
unfolding fail_job
fail_job-Inv id opts now db i = elim (Option-cases (find_row id db.jobs)) [
  | inl gone ↦ rw (gone, fail_job) i
  | inr (job, there) ↦
      let same : job.id ≡ id = (eq_iff job.id id).0 (find_row-id id db.jobs job there) in
      let found = subst (λ j. find_row j db.jobs ≡ some job) (sym same) there in
      rw (there, fail_job) (fail_read_job-Inv job opts now db found i)
]
