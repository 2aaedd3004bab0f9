-- ===== src/Jobs/QueueInv.antt =====
-- Enqueueing, releasing a key and claiming keep the invariant of the table.
use agent_studio.Shared.{
  ℕ, max, zero, suc, ◌+◌, ◌≤◌, String, Bool, true, not, Option, none, some, List, ◌≡◌, refl, sym,
  subst, arith, or_else, is_some, Bool-cases, Option-cases, inl, inr, if◌then◌else◌,
}
use agent_studio.Jobs.Schema.{JobStatus, running, JobRow, Db, is_active, JobPolicy}
use agent_studio.Jobs.Table.{any_row, update_rows, find_row, conflicts, index_holds}
use agent_studio.Jobs.Enqueue.{
  EnqueueJobInput, insert_values, get_policy_for_type, insert_or_read, insert_plain,
  enqueue_job_with_outcome, find_job_by_dedupe_key, DedupeScope, find_forever, enqueue_keyed,
  release_dedupe_key, released_key, default_lease_ttl_ms, truthy,
}
use agent_studio.Jobs.Claim.{
  ClaimJobOptions, ClaimOutcome, claimed, retired, empty, is_candidate, is_due, verdict_of,
  stale_running_job_verdict, first_candidate, claim_once, claim_rounds, claim_next_job, lease_row,
  retire_row, report_retired_job,
}
use agent_studio.Jobs.Rows.{update_rows_of_found, update_rows_narrow}
use agent_studio.Jobs.First.{first_candidate_sound, find_row_of_candidate}
use agent_studio.Jobs.Choice.{report_retired_job-jobs}
use agent_studio.Jobs.Changes.{is_waiting, IsPaced, Change, Inv, Change-Inv}

insert_values-IsPaced :
    (id : String) (now : ℕ) (input : EnqueueJobInput) (policy : Option JobPolicy)
    → IsPaced (insert_values id now input policy)
unfolding insert_values
insert_values-IsPaced id now input policy = ground arith

-- While no other transaction runs.
abbrev pub quiet : ℕ → Db → Db
quiet n db = db

insert_plain-Inv :
    (row : JobRow) (db : Db)
    → find_row row.id db.jobs ≡ none
    → IsPaced row
    → Inv db.jobs
    → Inv (insert_plain row db).0.jobs
unfolding insert_plain
insert_plain-Inv row db fresh pace i = elim (Bool-cases (conflicts row db.jobs)) [
  | inl refused ↦ rw (refused, insert_plain) i
  | inr free ↦ rw (free, insert_plain) (Change-Inv (Change.inserted row fresh free pace) i)
]

insert_or_read-Inv :
    (attempts n : ℕ) (row : JobRow) (key : String) (db : Db)
    → find_row row.id db.jobs ≡ none
    → IsPaced row
    → Inv db.jobs
    → Inv (insert_or_read quiet n attempts row key db).0.jobs
unfolding insert_or_read
insert_or_read-Inv zero n row key db fresh pace i = i
insert_or_read-Inv (suc attempts) n row key db fresh pace i =
    elim (Bool-cases (conflicts row db.jobs)) [
      | inl refused ↦ elim (Option-cases (find_job_by_dedupe_key row.type key true db)) [
        | inl gone ↦
            rw (refused, insert_or_read)
              (rw gone (insert_or_read-Inv attempts (n + 2) row key db fresh pace i))
        | inr (found, there) ↦ rw (refused, insert_or_read) (rw there i)
      ]
      | inr free ↦ rw (free, insert_or_read) (Change-Inv (Change.inserted row fresh free pace) i)
    ]

enqueue_keyed-Inv :
    (scope : Option DedupeScope) (row : JobRow) (key : String) (db : Db)
    → find_row row.id db.jobs ≡ none
    → IsPaced row
    → Inv db.jobs
    → Inv (enqueue_keyed quiet scope row key db).0.jobs
unfolding enqueue_keyed
enqueue_keyed-Inv scope row key db fresh pace i =
    elim (Option-cases (find_forever scope row.type key db)) [
      | inl gone ↦ rw (gone, enqueue_keyed) (insert_or_read-Inv 3 1 row key db fresh pace i)
      | inr (found, there) ↦ rw (there, enqueue_keyed) i
    ]

pub enqueue-Inv :
    (id : String) (now : ℕ) (input : EnqueueJobInput) (db : Db)
    → find_row id db.jobs ≡ none
    → Inv db.jobs
    → Inv (enqueue_job_with_outcome quiet id now input db).0.jobs
unfolding enqueue_job_with_outcome
enqueue-Inv id now input db fresh i =
    let policy = get_policy_for_type input.type db.policies in
    let row = insert_values id now input policy in
    let pace = insert_values-IsPaced id now input policy in
    let fresh' : find_row row.id db.jobs ≡ none = unfold insert_values in fresh in
    elim (Option-cases (truthy input.dedupe_key)) [
      | inl keyless ↦ rw (keyless, enqueue_job_with_outcome) (insert_plain-Inv row db fresh' pace i)
      | inr (key, keyed) ↦
          rw (keyed, enqueue_job_with_outcome)
            (enqueue_keyed-Inv input.dedupe_scope row key db fresh' pace i)
    ]

pub release-Inv :
    (id : String) (now : ℕ) (exists : Bool) (db : Db)
    → Inv db.jobs
    → Inv (release_dedupe_key id now exists db).0.jobs
unfolding release_dedupe_key
release-Inv id now exists db i =
    let guard = λ (row : JobRow). is_some row.dedupe_key in
    let touch = λ (row : JobRow). record row { updated_at = now } in
    let free = λ (row : JobRow). not exists in
    let rename = λ (row : JobRow). record row { dedupe_key = released_key row } in
    let touched = (update_rows id guard touch db.jobs).0 in
    let touched-Inv : Inv touched =
      Change-Inv
        (Change.updated id guard touch (λ r. refl)
          (record { type_kept = λ r. refl; key_kept = λ r. refl; not_woken = λ r g w. w })
          (λ r e g p. p))
        i in
    let renamed = (update_rows id free rename touched).0 in
    elim (Bool-cases (not (is_some (update_rows id guard touch db.jobs).1))) [
      | inl unkeyed ↦ rw (unkeyed, release_dedupe_key) i
      | inr keyed ↦ elim (Bool-cases (index_holds renamed)) [
        | inl holds ↦
            rw (keyed, release_dedupe_key)
              (rw holds (
                Change-Inv (Change.checked id free rename (λ r. refl) holds (λ r e g p. p))
                  touched-Inv))
        | inr refused ↦ rw (keyed, release_dedupe_key) (rw refused i)
      ]
    ]

attempt_left :
    (now scheduled attempts allowed : ℕ) (lease : Option ℕ) (s : JobStatus)
    → is_due now s scheduled lease ≡ true
    → verdict_of now s attempts allowed lease ≡ none
    → (if is_waiting s then attempts + 1 else attempts) ≤ max 1 allowed
    → attempts + 1 ≤ max 1 allowed
unfolding is_due verdict_of stale_running_job_verdict
attempt_left now scheduled attempts allowed none running due judged left = absurd (ground arith)
attempt_left now scheduled attempts allowed (some l) running due judged left = ground arith
attempt_left now scheduled attempts allowed lease _ due judged left = ground arith

-- A candidate that is not judged dead has an attempt left.
lease-IsPaced :
    (locked : JobRow → Bool) (opts : ClaimJobOptions) (now expires : ℕ) (c : JobRow)
    → is_candidate locked opts now c ≡ true
    → verdict_of now c.status c.attempt_count c.max_attempts c.lease_expires_at ≡ none
    → IsPaced c
    → IsPaced (lease_row now expires c)
lease-IsPaced locked opts now expires c passes judged p =
    let due : is_due now c.status c.scheduled_at c.lease_expires_at ≡ true =
      unfold is_candidate in ground arith in
    attempt_left now c.scheduled_at c.attempt_count c.max_attempts c.lease_expires_at c.status due
      judged p

is_candidate-is_active :
    (locked : JobRow → Bool) (opts : ClaimJobOptions) (now : ℕ) (c : JobRow)
    → is_candidate locked opts now c ≡ true
    → is_active c.status ≡ true
unfolding is_candidate is_due
is_candidate-is_active locked opts now c passes = ground arith

-- Leasing a candidate that is not judged dead.
lease-Inv :
    (locked : JobRow → Bool) (opts : ClaimJobOptions) (now expires : ℕ) (rows : List JobRow)
    (c : JobRow)
    → is_candidate locked opts now c ≡ true
    → find_row c.id rows ≡ some c
    → verdict_of now c.status c.attempt_count c.max_attempts c.lease_expires_at ≡ none
    → Inv rows
    → Inv (update_rows c.id any_row (lease_row now expires) rows).0
lease-Inv locked opts now expires rows c passes found judged i =
    let set = lease_row now expires in
    let guard = λ (r : JobRow). is_active r.status in
    let active = is_candidate-is_active locked opts now c passes in
    rw (update_rows_narrow c.id guard set rows c found active) (
      Change-Inv
        (Change.updated c.id guard set (λ r. refl)
          (record { type_kept = λ r. refl; key_kept = λ r. refl; not_woken = λ r g w. g })
          (λ r e g p.
            let same : c ≡ r = ground arith in
            subst (λ x. IsPaced (set x)) same
              (lease-IsPaced locked opts now expires c passes judged (subst IsPaced (sym same) p))))
        i)

pub claim_once-Inv :
    (locked : JobRow → Bool) (lease_id : String) (opts : ClaimJobOptions) (now : ℕ) (db : Db)
    → Inv db.jobs
    → Inv (claim_once locked lease_id opts now db).0.jobs
unfolding claim_once
claim_once-Inv locked lease_id opts now db i =
    elim (Option-cases (first_candidate (is_candidate locked opts now) db.jobs)) [
      | inl nothing ↦ rw (nothing, claim_once) i
      | inr (c, chosen) ↦
          let passes = (first_candidate_sound (is_candidate locked opts now) db.jobs c chosen).0 in
          let found =
            find_row_of_candidate (is_candidate locked opts now) db.jobs c i.distinct chosen in
          elim (Option-cases
            (verdict_of now c.status c.attempt_count c.max_attempts c.lease_expires_at)) [
              | inl lease ↦
                  let set = lease_row now (now + or_else opts.lease_ttl_ms default_lease_ttl_ms) in
                  rw (chosen, claim_once)
                    (rw (lease, update_rows_of_found c.id any_row set db.jobs c found refl)
                      (lease-Inv locked opts now
                        (now + or_else opts.lease_ttl_ms default_lease_ttl_ms) db.jobs c passes
                        found lease i))
              | inr (v, judged) ↦
                  let set = retire_row now v.reason in
                  rw (chosen, claim_once)
                    (rw (judged, update_rows_of_found c.id any_row set db.jobs c found refl)
                      (Change-Inv
                        (Change.updated c.id any_row set (λ r. refl)
                          (record {
                            type_kept = λ r. refl;
                            key_kept = λ r. refl;
                            not_woken = λ r g w. ground arith;
                          })
                          (λ r e g p. ground arith))
                        i))
            ]
    ]

claim_rounds-Inv :
    (n : ℕ) (locked : JobRow → Bool) (lease_id : String) (opts : ClaimJobOptions) (now : ℕ)
    (db : Db)
    → Inv db.jobs
    → Inv (claim_rounds n locked lease_id opts now db).0.jobs
unfolding claim_rounds
claim_rounds-Inv zero locked lease_id opts now db i = i
claim_rounds-Inv (suc n) locked lease_id opts now db i =
    go (claim_once locked lease_id opts now db).1 refl
      (claim_once-Inv locked lease_id opts now db i) (claim_rounds-Inv n locked lease_id opts now)
  where
    go :
        (o : ClaimOutcome)
        → (claim_once locked lease_id opts now db).1 ≡ o
        → Inv (claim_once locked lease_id opts now db).0.jobs
        → ((next : Db) → Inv next.jobs → Inv (claim_rounds n locked lease_id opts now next).0.jobs)
        → Inv (claim_rounds (suc n) locked lease_id opts now db).0.jobs
    go empty e i' ih = rw (e, claim_rounds) i'
    go (claimed job) e i' ih = rw (e, claim_rounds) i'
    go (retired job v) e i' ih =
        let after = (claim_once locked lease_id opts now db).0 in
        rw (e, claim_rounds)
          (ih (report_retired_job now job v after)
            (rw (report_retired_job-jobs now job v after) i'))

pub claim_next_job-Inv :
    (locked : JobRow → Bool) (lease_id : String) (opts : ClaimJobOptions) (now : ℕ) (db : Db)
    → Inv db.jobs
    → Inv (claim_next_job locked lease_id opts now db).0.jobs
unfolding claim_next_job
claim_next_job-Inv locked lease_id opts now db i = claim_rounds-Inv 6 locked lease_id opts now db i
