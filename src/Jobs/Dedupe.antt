-- ===== src/Jobs/Dedupe.antt =====
-- The idempotency contract of an enqueue with a dedupe key.
use agent_studio.Shared.{
  ℕ, zero, suc, ◌+◌, String, true, false, not, ◌&&◌, ◌||◌, Option, none, some, List, [], ◌∷◌, ◌≡◌,
  refl, arith, ap, ◌∙◌, str_eq, opt_str_eq, eq_iff, is_some, Bool-cases, Option-cases, ◌⊎◌, inl,
  inr,
}
use agent_studio.Jobs.Schema.{JobRow, Db, is_active}
use agent_studio.Jobs.Table.{same_key, collides, newest, conflicts}
use agent_studio.Jobs.Enqueue.{
  Result, ok, err, EnqueueJobInput, EnqueueJobOutcome, DedupeScope, insert_values,
  get_policy_for_type, insert_or_read, enqueue_job_with_outcome, enqueue_keyed, find_forever,
  has_key, find_job_by_dedupe_key, insert_row, truthy, is_forever,
}
use agent_studio.Jobs.QueueInv.{quiet}

-- A new job collides with the rows that hold its key and are active.
collides-has_key :
    (row r : JobRow) (key : String)
    → is_active row.status ≡ true
    → row.dedupe_key ≡ some key
    → collides row r ≡ has_key row.type key true r
unfolding collides has_key
collides-has_key row r key a k = rw (k, a) (helper r.dedupe_key)
  where
    helper :
        (o : Option String)
        → (true && is_active r.status && str_eq row.type r.type && same_key (some key) o)
          ≡ (str_eq r.type row.type && opt_str_eq o (some key) && (not true || is_active r.status))
    helper none = ground (arith, eq_iff row.type r.type, eq_iff r.type row.type)
    helper (some o) =
        ground (arith, eq_iff row.type r.type, eq_iff r.type row.type, eq_iff key o, eq_iff o key)

conflicts-newest :
    (row : JobRow) (key : String) (rows : List JobRow)
    → is_active row.status ≡ true
    → row.dedupe_key ≡ some key
    → conflicts row rows ≡ is_some (newest (has_key row.type key true) rows)
unfolding conflicts newest
conflicts-newest row key [] a k = refl
conflicts-newest row key (r ∷ rows) a k =
    ground (arith, collides-has_key row r key a k, conflicts-newest row key rows a k)

-- No row at all holds the key, so no active one does.
newest-active_of_none :
    (type key : String) (rows : List JobRow)
    → newest (has_key type key false) rows ≡ none
    → newest (has_key type key true) rows ≡ none
unfolding newest has_key
newest-active_of_none type key [] e = refl
newest-active_of_none type key (r ∷ rows) e = ground (arith, newest-active_of_none type key rows)

-- The job that the key belongs to: the newest active one, or in scope 'forever' the newest ever.
abbrev pub key_holder : Option DedupeScope → String → String → Db → Option JobRow
key_holder scope type key db = find_job_by_dedupe_key type key (not (is_forever scope)) db

-- The job that holds the key and no change, or the new row inserted.
abbrev pub settle : Option JobRow → JobRow → Db → Db × Result EnqueueJobOutcome
settle (some job) row db = (db, ok (record { job = job; created = false }))
settle none row db = (insert_row row db, ok (record { job = row; created = true }))

insert_or_read-quiet :
    (row : JobRow) (key : String) (db : Db)
    → is_active row.status ≡ true
    → row.dedupe_key ≡ some key
    → insert_or_read quiet 1 3 row key db
      ≡ settle (find_job_by_dedupe_key row.type key true db) row db
unfolding insert_or_read
insert_or_read-quiet row key db a k =
    let same = conflicts-newest row key db.jobs a k in
    elim (Option-cases (newest (has_key row.type key true) db.jobs)) [
      | inl gone ↦
          let free : conflicts row db.jobs ≡ false = same ∙ ap is_some gone in rw (gone, free)
      | inr (found, there) ↦
          let taken : conflicts row db.jobs ≡ true = same ∙ ap is_some there in rw (there, taken)
    ]

enqueue_keyed-quiet :
    (scope : Option DedupeScope) (row : JobRow) (key : String) (db : Db)
    → is_active row.status ≡ true
    → row.dedupe_key ≡ some key
    → enqueue_keyed quiet scope row key db ≡ settle (key_holder scope row.type key db) row db
unfolding enqueue_keyed find_forever
enqueue_keyed-quiet scope row key db a k =
    let inserted = insert_or_read-quiet row key db a k in
    elim (Bool-cases (is_forever scope)) [
      | inr active ↦ rw (active, enqueue_keyed) inserted
      | inl forever ↦ elim (Option-cases (newest (has_key row.type key false) db.jobs)) [
        | inr (found, there) ↦ rw (forever, enqueue_keyed) (rw (there, find_job_by_dedupe_key))
        | inl gone ↦
            rw (forever, enqueue_keyed)
              (rw (gone, find_job_by_dedupe_key)
                (inserted
                  ∙ ap (λ o. settle o row db) (newest-active_of_none row.type key db.jobs gone)))
      ]
    ]

-- An outcome that tells the truth. A created job was inserted beside rows that it does not collide
-- with; a job that is returned instead was, in the last view of the table, the newest active holder
-- of the key. An error says nothing.
abbrev pub IsHonest : JobRow → String → Db → Result EnqueueJobOutcome → Type 0
IsHonest row key after (err e) = Unit
IsHonest row key after (ok o) =
    ((o.created ≡ true)
      × (o.job ≡ row)
      × ((before : Db) × (conflicts row before.jobs ≡ false) × (after ≡ insert_row row before)))
    ⊎ ((o.created ≡ false) × (find_job_by_dedupe_key row.type key true after ≡ some o.job))

-- An insert that races other transactions tells the truth, whatever they do between its statements.
pub insert_or_read-IsHonest :
    (env : ℕ → Db → Db) (attempts n : ℕ) (row : JobRow) (key : String) (db : Db)
    → let (after, result) = insert_or_read env n attempts row key db in
      IsHonest row key after result
unfolding insert_or_read
insert_or_read-IsHonest env zero n row key db = tt
insert_or_read-IsHonest env (suc attempts) n row key db =
    let before = env n db in
    let meanwhile = env (n + 1) before in
    elim (Bool-cases (conflicts row before.jobs)) [
      | inr free ↦ rw (free, insert_or_read) (inl (refl, refl, (before, free, refl)))
      | inl taken ↦ elim (Option-cases (find_job_by_dedupe_key row.type key true meanwhile)) [
        | inr (found, there) ↦ rw (taken, insert_or_read) (rw there (inr (refl, there)))
        | inl gone ↦
            rw (taken, insert_or_read)
              (rw gone (insert_or_read-IsHonest env attempts (n + 2) row key meanwhile))
      ]
    ]

truthy-eq-some : (o : Option String) (key : String) → truthy o ≡ some key → o ≡ some key
truthy-eq-some none key t = t
truthy-eq-some (some s) key t = ground arith

-- What an enqueue with a key does while no other transaction runs: it returns the job that the key
-- belongs to and changes nothing, or else inserts the new job and returns it. It never throws.
pub enqueue_job_with_outcome_keyed :
    (id : String) (now : ℕ) (input : EnqueueJobInput) (db : Db) (key : String)
    → truthy input.dedupe_key ≡ some key
    → let row = insert_values id now input (get_policy_for_type input.type db.policies) in
      enqueue_job_with_outcome quiet id now input db
      ≡ settle (key_holder input.dedupe_scope input.type key db) row db
unfolding enqueue_job_with_outcome
enqueue_job_with_outcome_keyed id now input db key t =
    let row = insert_values id now input (get_policy_for_type input.type db.policies) in
    rw (t, enqueue_job_with_outcome)
      (unfold insert_values in
        enqueue_keyed-quiet input.dedupe_scope row key db refl
          (truthy-eq-some input.dedupe_key key t))
