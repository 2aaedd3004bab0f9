-- ===== src/Jobs/Choice.antt =====
-- Which job a claim takes, and what it does to it.
use agent_studio.Shared.{
  ℕ, zero, suc, ◌+◌, String, Bool, true, Option, none, some, ◌≡◌, refl, arith, or_else, subst, ap,
  Option-cases, inl, inr, sym,
}
use agent_studio.Jobs.Schema.{JobRow, Db, leased}
use agent_studio.Jobs.Table.{any_row, find_row}
use agent_studio.Jobs.Enqueue.{default_lease_ttl_ms}
use agent_studio.Jobs.Claim.{
  ClaimJobOptions, ClaimOutcome, claimed, retired, empty, StaleRunningJobVerdict, is_candidate,
  first_candidate, verdict_of, claim_once, claim_rounds, claim_next_job, lease_row, retire_row,
  report_retired_job,
}
use agent_studio.Jobs.Rows.{
  HasDistinctIds, HasDistinctIds-update_rows, update_rows_of_found, find_row-update_rows,
}
use agent_studio.Jobs.First.{NoneBefore, first_candidate_sound, find_row_of_candidate}

-- What one claim did, on each of its outcomes. `after` is the database after it.
abbrev pub ClaimSpec : (JobRow → Bool) → ClaimJobOptions → ℕ → Db → Db → ClaimOutcome → Type 0
ClaimSpec locked opts now db after empty =
    (first_candidate (is_candidate locked opts now) db.jobs ≡ none) × (after ≡ db)
ClaimSpec locked opts now db after (claimed job) =
    (c : JobRow) × (is_candidate locked opts now c ≡ true)
    × NoneBefore (is_candidate locked opts now) c db.jobs
    × (verdict_of now c.status c.attempt_count c.max_attempts c.lease_expires_at ≡ none)
    × (find_row c.id db.jobs ≡ some c)
    × (job ≡ lease_row now (now + or_else opts.lease_ttl_ms default_lease_ttl_ms) c)
    × (find_row c.id after.jobs ≡ some job)
ClaimSpec locked opts now db after (retired job v) =
    (c : JobRow) × (is_candidate locked opts now c ≡ true)
    × NoneBefore (is_candidate locked opts now) c db.jobs
    × (verdict_of now c.status c.attempt_count c.max_attempts c.lease_expires_at ≡ some v)
    × (find_row c.id db.jobs ≡ some c)
    × (job ≡ retire_row now v.reason c)
    × (find_row c.id after.jobs ≡ some job)

module _ (locked : JobRow → Bool) (lease_id : String) (opts : ClaimJobOptions) (now : ℕ) (db : Db)
    (distinct : HasDistinctIds db.jobs) where
  claim_once_retired :
      (c : JobRow) (v : StaleRunningJobVerdict)
      → first_candidate (is_candidate locked opts now) db.jobs ≡ some c
      → verdict_of now c.status c.attempt_count c.max_attempts c.lease_expires_at ≡ some v
      → let (after, outcome) = claim_once locked lease_id opts now db in
        ClaimSpec locked opts now db after outcome
  unfolding claim_once
  claim_once_retired c v chosen judged =
      let (passes, first) = first_candidate_sound (is_candidate locked opts now) db.jobs c chosen in
      let found = find_row_of_candidate (is_candidate locked opts now) db.jobs c distinct chosen in
      let set = retire_row now v.reason in
      rw (chosen, claim_once)
        (rw (judged, update_rows_of_found c.id any_row set db.jobs c found refl)
          (
            c,
            passes,
            first,
            judged,
            found,
            refl,
            find_row-update_rows c.id any_row set (λ r. refl) db.jobs c found refl,
          ))

  claim_once_claimed :
      (c : JobRow)
      → first_candidate (is_candidate locked opts now) db.jobs ≡ some c
      → verdict_of now c.status c.attempt_count c.max_attempts c.lease_expires_at ≡ none
      → let (after, outcome) = claim_once locked lease_id opts now db in
        ClaimSpec locked opts now db after outcome
  unfolding claim_once
  claim_once_claimed c chosen judged =
      let (passes, first) = first_candidate_sound (is_candidate locked opts now) db.jobs c chosen in
      let found = find_row_of_candidate (is_candidate locked opts now) db.jobs c distinct chosen in
      let set = lease_row now (now + or_else opts.lease_ttl_ms default_lease_ttl_ms) in
      rw (chosen, claim_once)
        (rw (judged, update_rows_of_found c.id any_row set db.jobs c found refl)
          (
            c,
            passes,
            first,
            judged,
            found,
            refl,
            find_row-update_rows c.id any_row set (λ r. refl) db.jobs c found refl,
          ))

  -- A claim takes a candidate that no other comes before: it leases it, or fails it by the verdict
  -- on a job whose worker is gone; it stores the row that it returns. With no candidate it changes
  -- nothing.
  pub claim_once_lem :
      let (after, outcome) = claim_once locked lease_id opts now db in
      ClaimSpec locked opts now db after outcome
  unfolding claim_once
  claim_once_lem = elim (Option-cases (first_candidate (is_candidate locked opts now) db.jobs)) [
    | inl nothing ↦ rw (nothing, claim_once) (nothing, refl)
    | inr (c, chosen) ↦
        elim (Option-cases
          (verdict_of now c.status c.attempt_count c.max_attempts c.lease_expires_at)) [
            | inl lease ↦ claim_once_claimed c chosen lease
            | inr (v, judged) ↦ claim_once_retired c v chosen judged
          ]
  ]

  pub claim_once-HasDistinctIds : HasDistinctIds (claim_once locked lease_id opts now db).0.jobs
  unfolding claim_once
  claim_once-HasDistinctIds =
      elim (Option-cases (first_candidate (is_candidate locked opts now) db.jobs)) [
        | inl nothing ↦ rw (nothing, claim_once) distinct
        | inr (c, chosen) ↦
            let found =
              find_row_of_candidate (is_candidate locked opts now) db.jobs c distinct chosen in
            elim (Option-cases
              (verdict_of now c.status c.attempt_count c.max_attempts c.lease_expires_at)) [
                | inl lease ↦
                    let set =
                      lease_row now (now + or_else opts.lease_ttl_ms default_lease_ttl_ms) in
                    rw (chosen, claim_once)
                      (rw (lease, update_rows_of_found c.id any_row set db.jobs c found refl)
                        (HasDistinctIds-update_rows c.id any_row set (λ r. refl) db.jobs distinct))
                | inr (v, judged) ↦
                    let set = retire_row now v.reason in
                    rw (chosen, claim_once)
                      (rw (judged, update_rows_of_found c.id any_row set db.jobs c found refl)
                        (HasDistinctIds-update_rows c.id any_row set (λ r. refl) db.jobs distinct))
              ]
      ]

-- The job that a whole claim returns, if it returns one, is leased until now plus the lease time, and
-- is stored so.
abbrev pub IsLeasedIn : ClaimJobOptions → ℕ → Db → Option JobRow → Type 0
IsLeasedIn opts now after none = Unit
IsLeasedIn opts now after (some job) =
    (job.status ≡ leased)
    × (job.lease_expires_at ≡ some (now + or_else opts.lease_ttl_ms default_lease_ttl_ms))
    × (find_row job.id after.jobs ≡ some job)

pub report_retired_job-jobs :
    (now : ℕ) (row : JobRow) (v : StaleRunningJobVerdict) (db : Db)
    → (report_retired_job now row v db).jobs ≡ db.jobs
unfolding report_retired_job
report_retired_job-jobs now row v db = ground arith

claim_rounds-IsLeasedIn :
    (n : ℕ) (locked : JobRow → Bool) (lease_id : String) (opts : ClaimJobOptions) (now : ℕ)
    (db : Db)
    → HasDistinctIds db.jobs
    → let (after, result) = claim_rounds n locked lease_id opts now db in
      IsLeasedIn opts now after result
unfolding claim_rounds
claim_rounds-IsLeasedIn zero locked lease_id opts now db d = tt
claim_rounds-IsLeasedIn (suc n) locked lease_id opts now db d =
    let once = claim_once locked lease_id opts now db in
    go once.1 refl (claim_once_lem locked lease_id opts now db d)
      (claim_once-HasDistinctIds locked lease_id opts now db d)
      (claim_rounds-IsLeasedIn n locked lease_id opts now)
  where
    go :
        (o : ClaimOutcome)
        → (claim_once locked lease_id opts now db).1 ≡ o
        → ClaimSpec locked opts now db (claim_once locked lease_id opts now db).0 o
        → HasDistinctIds (claim_once locked lease_id opts now db).0.jobs
        → ((next : Db)
            → HasDistinctIds next.jobs
            → IsLeasedIn opts now
                (claim_rounds n locked lease_id opts now next).0
                (claim_rounds n locked lease_id opts now next).1)
        → IsLeasedIn opts now
            (claim_rounds (suc n) locked lease_id opts now db).0
            (claim_rounds (suc n) locked lease_id opts now db).1
    go empty e s d' ih = rw (e, claim_rounds) tt
    go (claimed job) e (c, _, _, _, _, same, stored) d' ih =
        rw (e, claim_rounds)
          (
            ap (λ (r : JobRow). r.status) same,
            ap (λ (r : JobRow). r.lease_expires_at) same,
            subst (λ i. find_row i (claim_once locked lease_id opts now db).0.jobs ≡ some job)
                (sym (ap (λ (r : JobRow). r.id) same)) stored,
          )
    go (retired job v) e s d' ih =
        let after = (claim_once locked lease_id opts now db).0 in
        rw (e, claim_rounds)
          (ih (report_retired_job now job v after)
            (rw (report_retired_job-jobs now job v after) d'))

-- A job that `claimNextJob` returns is leased until now plus the lease time, and stored so.
pub claim_next_job-IsLeasedIn :
    (locked : JobRow → Bool) (lease_id : String) (opts : ClaimJobOptions) (now : ℕ) (db : Db)
    → HasDistinctIds db.jobs
    → let (after, result) = claim_next_job locked lease_id opts now db in
      IsLeasedIn opts now after result
unfolding claim_next_job
claim_next_job-IsLeasedIn locked lease_id opts now db d =
    claim_rounds-IsLeasedIn 6 locked lease_id opts now db d
