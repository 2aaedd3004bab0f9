-- ===== src/Jobs/LateReports.antt =====
-- Reports on a job that no worker holds any more, and what each operation does to a job's status.
use agent_studio.Shared.{
  ℕ, ◌+◌, ◌≤◌, ◌<◌, String, Bool, true, false, ◌&&◌, Option, none, some, List, [], ◌∷◌, ◌≡◌, refl,
  arith, any, sym, ◌∙◌, subst, str_eq, ltb, or_else, ltb→lt, lt→ltb, if◌then◌else◌, Bool-cases,
  eq_iff, inl, inr, ◌⊎◌,
}
use agent_studio.Jobs.Schema.{JobRow, JobPolicy, JobError, retry_wait, failed, Db}
use agent_studio.Jobs.Table.{any_row, find_row}
use agent_studio.Jobs.Enqueue.{is_ok, get_policy_for_type, default_lease_ttl_ms}
use agent_studio.Jobs.Report.{
  in_flight, begin_job, begin_row, heartbeat_job, complete_job, complete_row, heartbeat_row,
  FailJobOptions, fail_job, fail_read_job, cancel_job, retry_row, fail_row, cancel_row,
  canceled_because, backoff_of,
}
use agent_studio.Jobs.Rows.{update_rows_of_found, update_rows_of_unheld, find_row-update_rows}

-- Whether a worker holds the job.
abbrev pub is_held : String → Db → Bool
is_held id db = any (λ r. str_eq r.id id && in_flight r) db.jobs

pub find_row-id :
    (id : String) (rows : List JobRow) (row : JobRow)
    → find_row id rows ≡ some row
    → str_eq row.id id ≡ true
unfolding find_row
find_row-id id [] row h = ground arith
find_row-id id (r ∷ rows) row h = ground (arith, find_row-id id rows row)

fail_read_job_of_unheld :
    (job : JobRow) (opts : FailJobOptions) (now : ℕ) (db : Db)
    → is_held job.id db ≡ false
    → fail_read_job job opts now db ≡ (db, none)
unfolding fail_read_job
fail_read_job_of_unheld job opts now db h =
    rw
      (
        update_rows_of_unheld job.id in_flight
            (retry_row now (backoff_of opts (get_policy_for_type job.type db.policies)) opts.error)
            db.jobs h,
        update_rows_of_unheld job.id in_flight (fail_row now opts.error) db.jobs h,
      )
      (ground arith)

-- A heartbeat or a completion for a job that no worker holds changes nothing and returns null; so
-- does a failure report for a job that was read while it was there, and that no worker holds when
-- the update runs (it was canceled or retired in between).
pub late_reports_ignored :
    (id : String) (result : Option String) (opts : FailJobOptions) (ttl : Option ℕ) (now : ℕ)
    (read db : Db) (row : JobRow)
    → find_row id read.jobs ≡ some row
    → is_held id db ≡ false
    → (heartbeat_job id ttl now db ≡ (db, none))
      × (complete_job id result now db ≡ (db, none))
      × (fail_job (λ _. db) id opts now read ≡ (db, none))
unfolding heartbeat_job complete_job fail_job
late_reports_ignored id result opts ttl now read db row e h =
    let same : row.id ≡ id = (eq_iff row.id id).0 (find_row-id id read.jobs row e) in
    (
      rw (
        update_rows_of_unheld id in_flight
            (heartbeat_row now (now + or_else ttl default_lease_ttl_ms)) db.jobs h,
        heartbeat_job,
      ),
      rw (update_rows_of_unheld id in_flight (complete_row now result) db.jobs h, complete_job),
      rw (e, fail_job) (fail_read_job_of_unheld row opts now db (rw same h)),
    )

module _ (opts : FailJobOptions) (now : ℕ) (db : Db) (row : JobRow) where
  abbrev retry : JobRow → JobRow
  retry = retry_row now (backoff_of opts (get_policy_for_type row.type db.policies)) opts.error

  fail_read_job_retries :
      find_row row.id db.jobs ≡ some row
      → in_flight row ≡ true
      → row.attempt_count < row.max_attempts
      → ((fail_read_job row opts now db).1 ≡ some (retry row))
        × (find_row row.id (fail_read_job row opts now db).0.jobs ≡ some (retry row))
  unfolding fail_read_job
  fail_read_job_retries e g h = rw (lt→ltb _ _ h) (
    update_rows_of_found row.id in_flight retry db.jobs row e g,
    find_row-update_rows row.id in_flight retry (λ r. refl) db.jobs row e g,
  )

  fail_read_job_ends :
      find_row row.id db.jobs ≡ some row
      → in_flight row ≡ true
      → row.max_attempts ≤ row.attempt_count
      → ((fail_read_job row opts now db).1 ≡ some (fail_row now opts.error row))
        × (find_row row.id (fail_read_job row opts now db).0.jobs
            ≡ some (fail_row now opts.error row))
  unfolding fail_read_job
  fail_read_job_ends e g h =
      let unset : ltb row.attempt_count row.max_attempts ≡ false = ground arith in
      rw (unset, update_rows_of_found row.id in_flight (fail_row now opts.error) db.jobs row e g)
        (
          refl,
          find_row-update_rows row.id in_flight (fail_row now opts.error) (λ r. refl) db.jobs row e
              g,
        )

-- The row that a failure report leaves.
fail_job_row :
    (id : String) (opts : FailJobOptions) (now : ℕ) (db : Db) (row : JobRow)
    → find_row id db.jobs ≡ some row
    → in_flight row ≡ true
    → let (after, result) = fail_job (λ d. d) id opts now db in
      let backoff = backoff_of opts (get_policy_for_type row.type db.policies) in
      (find_row id after.jobs ≡ result)
      × (result
          ≡ some (
              if ltb row.attempt_count row.max_attempts
              then retry_row now backoff opts.error row
              else fail_row now opts.error row))
unfolding fail_job
fail_job_row id opts now db row e g =
    let same : row.id ≡ id = (eq_iff row.id id).0 (find_row-id id db.jobs row e) in
    let there = subst (λ i. find_row i db.jobs ≡ some row) (sym same) e in
    let stored =
      subst
        (λ i. find_row i (fail_read_job row opts now db).0.jobs ≡ (fail_read_job row opts now db).1)
        same in
    let backoff = backoff_of opts (get_policy_for_type row.type db.policies) in
    let chosen = λ (b : Bool).
      (fail_read_job row opts now db).1
      ≡ some (if b then retry_row now backoff opts.error row else fail_row now opts.error row) in
    elim (Bool-cases (ltb row.attempt_count row.max_attempts)) [
      | inl left ↦
          let (r, f) = fail_read_job_retries opts now db row there g (ltb→lt _ _ left) in
          rw (e, fail_job) (stored (f ∙ sym r), subst chosen (sym left) r)
      | inr none_left ↦
          let (r, f) = fail_read_job_ends opts now db row there g (ground arith) in
          rw (e, fail_job) (stored (f ∙ sym r), subst chosen (sym none_left) r)
    ]

-- The backoff: that of the report, else that of the policy, else five seconds.
abbrev pub Waits : Option ℕ → Option JobPolicy → ℕ → Type 0
Waits (some given) policy wait = wait ≡ given
Waits none (some p) wait = wait ≡ p.backoff_ms
Waits none none wait = wait ≡ 5000

-- What becomes of a row whose attempt has failed.
abbrev pub IsReported : FailJobOptions → ℕ → Option JobPolicy → JobRow → JobRow → Type 0
IsReported opts now policy row r =
    (r.id ≡ row.id)
    × (r.lease_expires_at ≡ none)
    × (r.error ≡ some opts.error)
    × (r.attempt_count ≡ row.attempt_count)
    × (((row.attempt_count < row.max_attempts)
          × (r.status ≡ retry_wait)
          × ((wait : ℕ) × Waits opts.backoff_ms policy wait × (r.scheduled_at ≡ now + wait)))
        ⊎ ((row.max_attempts ≤ row.attempt_count)
            × (r.status ≡ failed)
            × (r.finished_at ≡ some now)))

backoff_of-Waits :
    (given : Option ℕ) (e : JobError) (policy : Option JobPolicy)
    → Waits given policy (backoff_of (record { error = e; backoff_ms = given }) policy)
backoff_of-Waits (some b) e policy = refl
backoff_of-Waits none e (some p) = refl
backoff_of-Waits none e none = refl

-- A failure report of a job that a worker holds, read at the same moment: while attempts are left the
-- job waits for a retry at now plus the backoff, which is the report's, else the policy's, else five
-- seconds; else it has failed, now. Either way it has the error and no lease, its attempts are as they
-- were, and the row that is returned is the one that is stored.
pub fail_job_outcome :
    (id : String) (opts : FailJobOptions) (now : ℕ) (db : Db) (row : JobRow)
    → find_row id db.jobs ≡ some row
    → in_flight row ≡ true
    → let (after, result) = fail_job (λ d. d) id opts now db in
      (r : JobRow) × (result ≡ some r)
      × (find_row id after.jobs ≡ some r)
      × IsReported opts now (get_policy_for_type row.type db.policies) row r
fail_job_outcome id opts now db row e g =
    let (stored, result) = fail_job_row id opts now db row e g in
    let policy = get_policy_for_type row.type db.policies in
    let wait = backoff_of opts policy in
    elim (Bool-cases (ltb row.attempt_count row.max_attempts)) [
      | inl more ↦
          let r = rw more at result in
          (
            retry_row now wait opts.error row,
            r,
            stored ∙ r,
            (
              refl,
              refl,
              refl,
              refl,
              inl (
                ltb→lt _ _ more,
                refl,
                (wait, backoff_of-Waits opts.backoff_ms opts.error policy, refl),
              ),
            ),
          )
      | inr over ↦
          let r = rw over at result in
          (
            fail_row now opts.error row,
            r,
            stored ∙ r,
            (refl, refl, refl, refl, inr (ground arith, refl, refl)),
          )
    ]

module _ (id : String) (db : Db) (row : JobRow) (e : find_row id db.jobs ≡ some row) where
  find_row-cancel_job :
      (reason : Option String) (now : ℕ)
      → find_row id (cancel_job id reason now db).0.jobs
        ≡ some (cancel_row now (canceled_because reason) row)
  unfolding cancel_job
  find_row-cancel_job reason now =
      let set = cancel_row now (canceled_because reason) in
      rw (update_rows_of_found id any_row set db.jobs row e refl, cancel_job)
        (find_row-update_rows id any_row set (λ r. refl) db.jobs row e refl)

  find_row-begin_job :
      (now : ℕ)
      → is_ok (begin_job id now db).1 ≡ true
      → find_row id (begin_job id now db).0.jobs ≡ some (begin_row now row)
  unfolding begin_job
  find_row-begin_job now o =
      let stored = find_row-update_rows id any_row (begin_row now) (λ r. refl) db.jobs row e refl in
      ground (arith, stored)

  complete_job_of_held :
      (result : Option String) (now : ℕ)
      → in_flight row ≡ true
      → ((complete_job id result now db).1 ≡ some (complete_row now result row))
        × (find_row id (complete_job id result now db).0.jobs ≡ some (complete_row now result row))
  unfolding complete_job
  complete_job_of_held result now g =
      let set = complete_row now result in
      rw (update_rows_of_found id in_flight set db.jobs row e g, complete_job)
        (refl, find_row-update_rows id in_flight set (λ r. refl) db.jobs row e g)

-- A cancel between a worker's claim and its begin does not last: where the unique index lets the
-- begin pass, the job is running again, and its completion is recorded over the cancel.
pub begin-cancel_undone :
    (id : String) (reason result : Option String) (t₁ t₂ t₃ : ℕ) (db : Db) (row : JobRow)
    → find_row id db.jobs ≡ some row
    → is_ok (begin_job id t₂ (cancel_job id reason t₁ db).0).1 ≡ true
    → let canceled_row = cancel_row t₁ (canceled_because reason) row in
      let begun = (begin_job id t₂ (cancel_job id reason t₁ db).0).0 in
      (find_row id (cancel_job id reason t₁ db).0.jobs ≡ some canceled_row)
      × (find_row id begun.jobs ≡ some (begin_row t₂ canceled_row))
      × ((complete_job id result t₃ begun).1
          ≡ some (complete_row t₃ result (begin_row t₂ canceled_row)))
begin-cancel_undone id reason result t₁ t₂ t₃ db row e o =
    let canceled_db = (cancel_job id reason t₁ db).0 in
    let canceled_row = cancel_row t₁ (canceled_because reason) row in
    let stored = find_row-cancel_job id db row e reason t₁ in
    let begun = find_row-begin_job id canceled_db canceled_row stored t₂ o in
    (
      stored,
      begun,
      (complete_job_of_held id (begin_job id t₂ canceled_db).0 (begin_row t₂ canceled_row) begun
          result t₃ refl).0,
    )
