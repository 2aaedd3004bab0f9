-- ===== src/Jobs/Enqueue.antt =====
-- src/lib/jobs/jobs.server.ts: enqueueing with a dedupe key, releasing a key, and policies.
-- Between two statements of one call other transactions may commit: `env n` is what they do before
-- the n-th statement. The id of a new row is the database's and comes in as an argument.
use agent_studio.Shared.{
  ℕ, zero, suc, ◌+◌, String, Bool, true, false, not, ◌&&◌, ◌||◌, Option, none, some, List, [], ◌∷◌,
  str_eq, opt_str_eq, or_else, is_some, if◌then◌else◌,
}
use mathlib.Core.Option as Opt
use Prim.Native.String as Text
use agent_studio.Jobs.Schema.{JobRow, JobPolicy, Db, pending, is_active}
use agent_studio.Jobs.Table.{update_rows, newest, conflicts, index_holds}

pub data DedupeScope : Type 0 where
  active forever : DedupeScope

pub record EnqueueJobInput : Type 0 where
  pub type : String
  pub payload : Option String
  pub priority : Option ℕ
  pub queue : Option String
  pub dedupe_key : Option String
  pub dedupe_scope : Option DedupeScope
  pub scheduled_at : Option ℕ
  pub max_attempts : Option ℕ
  pub run_id : Option String
  pub session_id : Option String
  pub project_id : Option String
  pub user_id : Option String

pub record EnqueueJobOutcome : Type 0 where
  pub job : JobRow
  pub created : Bool

-- What a call may throw: the database's own refusal, and the error that `enqueueJob` throws.
pub data QueueError : Type 0 where
  unique_violation : QueueError
  dedupe_collision : QueueError

pub data Result {ℓ} (A : Type ℓ) : Type ℓ where
  ok : A → Result A
  err : QueueError → Result A

abbrev pub is_ok {ℓ} : {A : Type ℓ} → Result A → Bool
is_ok (ok a) = true
is_ok (err e) = false

abbrev pub default_lease_ttl_ms : ℕ
default_lease_ttl_ms = 60000

abbrev pub default_max_attempts : ℕ
default_max_attempts = 3

abbrev pub default_backoff_ms : ℕ
default_backoff_ms = 5000

unfoldable pub get_policy_for_type : String → List JobPolicy → Option JobPolicy
get_policy_for_type type [] = none
get_policy_for_type type (p ∷ ps) =
    if str_eq p.job_type type then some p else get_policy_for_type type ps

-- A text used as a condition: null and the empty text are false.
abbrev pub truthy : Option String → Option String
truthy none = none
truthy (some s) = if str_eq s "" then none else some s

abbrev pub is_forever : Option DedupeScope → Bool
is_forever (some forever) = true
is_forever _ = false

-- `insertValues`, with what the table's defaults fill in.
unfoldable pub insert_values : String → ℕ → EnqueueJobInput → Option JobPolicy → JobRow
insert_values id now input policy = record {
  id = id;
  type = input.type;
  status = pending;
  priority = or_else input.priority 100;
  queue = or_else input.queue "default";
  dedupe_key = input.dedupe_key;
  scheduled_at = or_else input.scheduled_at now;
  lease_expires_at = none;
  started_at = none;
  finished_at = none;
  attempt_count = 0;
  max_attempts =
      or_else input.max_attempts
        (or_else (Opt.map (λ (p : JobPolicy). p.max_attempts) policy) default_max_attempts);
  payload = or_else input.payload "{}";
  result = none;
  error = none;
  run_id = input.run_id;
  session_id = input.session_id;
  project_id = input.project_id;
  user_id = input.user_id;
  created_at = now;
  updated_at = now;
}

-- The rows that `findJobByDedupeKey` looks at.
unfoldable pub has_key : String → String → Bool → JobRow → Bool
has_key type key active_only row =
    str_eq row.type type
    && opt_str_eq row.dedupe_key (some key)
    && (not active_only || is_active row.status)

unfoldable pub find_job_by_dedupe_key : String → String → Bool → Db → Option JobRow
unfolding has_key newest
find_job_by_dedupe_key type key active_only db = newest (has_key type key active_only) db.jobs

abbrev pub insert_row : JobRow → Db → Db
insert_row row db = record db { jobs = row ∷ db.jobs }

-- The loop of `enqueueJobWithOutcome`: insert unless the index refuses, or read the row it collided
-- with, three times. The statement number counts on.
unfoldable pub insert_or_read :
    (ℕ → Db → Db) → ℕ → ℕ → JobRow → String → Db → Db × Result EnqueueJobOutcome
unfolding conflicts find_job_by_dedupe_key
insert_or_read env n zero row key db = (db, err dedupe_collision)
insert_or_read env n (suc attempts) row key db =
    let before = env n db in
    let meanwhile = env (n + 1) before in
    let again = insert_or_read env (n + 2) attempts row key meanwhile in
    if conflicts row before.jobs
    then elim (find_job_by_dedupe_key row.type key true meanwhile) [
      | some found ↦ (meanwhile, ok (record { job = found; created = false }))
      | none ↦ again
    ]
    else (insert_row row before, ok (record { job = row; created = true }))

-- The insert of a job with no key: the index may still refuse an empty text as key.
unfoldable pub insert_plain : JobRow → Db → Db × Result EnqueueJobOutcome
unfolding conflicts
insert_plain row db =
    if conflicts row db.jobs
    then (db, err unique_violation)
    else (insert_row row db, ok (record { job = row; created = true }))

-- The look for a job that ever had the key, in scope 'forever' only.
unfoldable pub find_forever : Option DedupeScope → String → String → Db → Option JobRow
unfolding find_job_by_dedupe_key
find_forever scope type key db =
    if is_forever scope then find_job_by_dedupe_key type key false db else none

-- The enqueue of a job with a key, from that look on.
unfoldable pub enqueue_keyed :
    (ℕ → Db → Db) → Option DedupeScope → JobRow → String → Db → Db × Result EnqueueJobOutcome
unfolding find_forever insert_or_read
enqueue_keyed env scope row key db = elim (find_forever scope row.type key db) [
  | some job ↦ (db, ok (record { job = job; created = false }))
  | none ↦ insert_or_read env 1 3 row key db
]

unfoldable pub enqueue_job_with_outcome :
    (ℕ → Db → Db) → String → ℕ → EnqueueJobInput → Db → Db × Result EnqueueJobOutcome
unfolding insert_values get_policy_for_type insert_plain enqueue_keyed
enqueue_job_with_outcome env id now input db =
    let row = insert_values id now input (get_policy_for_type input.type db.policies) in
    elim (truthy input.dedupe_key) [
      | none ↦ insert_plain row (env 0 db)
      | some key ↦ enqueue_keyed env input.dedupe_scope row key (env 0 db)
    ]

-- `key || '#' || id`, null for a null key.
abbrev pub released_key : JobRow → Option String
released_key row = Opt.map (λ key. Text.◌++◌ key (Text.◌++◌ "#" row.id)) row.dedupe_key

-- `releaseDedupeKey`: `exists` is whether `unlessExists` finds rows when the second statement looks.
unfoldable pub release_dedupe_key : String → ℕ → Bool → Db → Db × Result Bool
unfolding update_rows index_holds
release_dedupe_key id now exists db =
    let (touched, held) =
      update_rows id (λ row. is_some row.dedupe_key) (λ row. record row { updated_at = now })
        db.jobs in
    let (renamed, released) =
      update_rows id (λ row. not exists) (λ row. record row { dedupe_key = released_key row })
        touched in
    if not (is_some held)
    then (db, ok true)
    else if index_holds renamed
    then (record db { jobs = renamed }, ok (is_some released))
    else (db, err unique_violation)

pub record UpsertJobPolicyInput : Type 0 where
  pub job_type : String
  pub max_attempts : Option ℕ
  pub backoff_ms : Option ℕ
  pub concurrency_key : Option String
  pub concurrency_limit : Option ℕ
  pub timeout_ms : Option ℕ
  pub cancel_behavior : Option String

replace_policy : JobPolicy → List JobPolicy → List JobPolicy
replace_policy p [] = p ∷ []
replace_policy p (q ∷ qs) = if str_eq q.job_type p.job_type then p ∷ qs else q ∷ replace_policy p qs

-- `insert … on conflict (job_type) do update`.
unfoldable pub upsert_job_policy : UpsertJobPolicyInput → Db → Db
unfolding replace_policy
upsert_job_policy input db =
    let values : JobPolicy = record {
      job_type = input.job_type;
      max_attempts = or_else input.max_attempts default_max_attempts;
      backoff_ms = or_else input.backoff_ms default_backoff_ms;
      concurrency_key = input.concurrency_key;
      concurrency_limit = input.concurrency_limit;
      timeout_ms = or_else input.timeout_ms 60000;
      cancel_behavior = or_else input.cancel_behavior "best_effort";
    } in
    record db { policies = replace_policy values db.policies }
