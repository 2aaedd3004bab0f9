-- ===== src/Workspace/Gc.antt =====
-- src/lib/workspace/gc-core.ts. The file system is a parameter: what the sandbox holds, how paths are
-- joined, and how the two removals fail. What is done to it is a list of actions. Times are
-- milliseconds.
use agent_studio.Shared.{
  ℕ, ◌+◌, ◌*◌, String, Bool, true, false, not, ◌&&◌, Option, none, some, List, [], ◌∷◌, ◌++◌, map,
  ltb, or_else, is_some, str_eq, length, if◌then◌else◌,
}

pub data RunState : Type 0 where
  queued running waiting_tool_approval waiting_user_input waiting_plan_decision : RunState
  completed failed canceled : RunState

pub record RunStatusForGc : Type 0 where
  pub id : String
  pub state : RunState
  pub finished_at : Option ℕ

pub data Kind : Type 0 where
  run worktree : Kind

pub data Skipped : Type 0 where
  still_active no_record too_recent : Skipped

pub data GcError : Type 0 where
  deregister_failed remove_failed : String → GcError

pub record GcRunSummary : Type 0 where
  pub run_id : String
  pub path : String
  pub kind : Kind
  pub deleted : Bool
  pub skipped : Option Skipped
  pub error : Option GcError

pub record GcSummary : Type 0 where
  pub scanned : ℕ
  pub deleted : ℕ
  pub skipped : ℕ
  pub errors : ℕ
  pub dry_run : Bool
  pub results : List GcRunSummary

pub record Candidate : Type 0 where
  pub run_id : String
  pub path : String
  pub kind : Kind

pub data Action : Type 0 where
  deregister : String → Action
  remove : String → Action

-- What the sandbox holds for a user: the entries of `runs` and of `worktrees`, if these are there.
pub record UserDir : Type 0 where
  pub user : String
  pub runs : Option (List String)
  pub worktrees : Option (List String)

-- `removeWorktree` and `rm` with the message that they throw, if they do.
pub record GcOptions : Type 0 where
  pub sandbox_root : String
  pub lookup_runs : List String → List RunStatusForGc
  pub ttl_days : Option ℕ
  pub dry_run : Option Bool
  pub now : ℕ
  pub remove_worktree : Option (String → String → Option String)
  pub rm : String → Option String

abbrev pub day_ms : ℕ
day_ms = 24 * 60 * 60 * 1000

abbrev pub ttl_ms : GcOptions → ℕ
ttl_ms opts = or_else opts.ttl_days 7 * day_ms

unfoldable pub is_terminal : RunState → Bool
is_terminal completed = true
is_terminal failed = true
is_terminal canceled = true
is_terminal _ = false

-- `!finishedAt || finishedAt > cutoff`, where the cutoff is so many milliseconds before now.
unfoldable pub is_too_recent : ℕ → ℕ → Option ℕ → Bool
is_too_recent now ttl none = true
is_too_recent now ttl (some finished_at) = ltb now (finished_at + ttl)

-- The candidates of a directory that may be missing.
abbrev entries : (List String → String) → String → Kind → Option (List String) → List Candidate
entries resolve dir kind none = []
entries resolve dir kind (some ids) =
    map (λ id. record { run_id = id; path = resolve (dir ∷ id ∷ []); kind = kind }) ids

unfoldable pub candidate_paths : (List String → String) → String → List UserDir → List Candidate
candidate_paths resolve root [] = []
candidate_paths resolve root (u ∷ us) =
    (entries resolve (resolve (root ∷ u.user ∷ "runs" ∷ [])) run u.runs
      ++ entries resolve (resolve (root ∷ u.user ∷ "worktrees" ∷ [])) worktree u.worktrees)
    ++ candidate_paths resolve root us

-- `new Map(rows.map(r => [r.id, r])).get(id)`: the last row with the id.
unfoldable pub by_id : String → List RunStatusForGc → Option RunStatusForGc
by_id id [] = none
by_id id (r ∷ rows) =
    let later = by_id id rows in
    if is_some later then later else if str_eq r.id id then some r else none

-- Why a candidate is passed over.
unfoldable pub skip_reason : ℕ → ℕ → Option RunStatusForGc → Option Skipped
unfolding is_terminal is_too_recent
skip_reason now ttl none = some no_record
skip_reason now ttl (some r) =
    if not (is_terminal r.state)
    then some still_active
    else if is_too_recent now ttl r.finished_at
    then some too_recent
    else none

abbrev item : Candidate → Bool → Option Skipped → Option GcError → GcRunSummary
item c deleted skipped error = record {
  run_id = c.run_id;
  path = c.path;
  kind = c.kind;
  deleted = deleted;
  skipped = skipped;
  error = error;
}

abbrev pub map_error : Option String → Option GcError
map_error none = none
map_error (some e) = some (deregister_failed e)

-- The hook's action and error, for a worktree when there is a hook.
abbrev pub hook :
    Option (String → String → Option String) → Candidate → List Action × Option GcError
hook none c = ([], none)
hook (some f) c = elim c.kind [
  | run ↦ ([], none)
  | worktree ↦ (deregister c.path ∷ [], map_error (f c.path c.run_id))
]

unfoldable pub delete_candidate : GcOptions → Candidate → List Action × GcRunSummary
delete_candidate opts c =
    let (first, warned) = hook opts.remove_worktree c in
    (
      first ++ remove c.path ∷ [],
      elim (opts.rm c.path) [
        | none ↦ item c true none warned
        | some e ↦ item c false none (some (remove_failed e))
      ],
    )

-- One turn of the loop over the candidates.
unfoldable pub collect_one :
    GcOptions → List RunStatusForGc → Candidate → List Action × GcRunSummary
collect_one opts rows c = elim (skip_reason opts.now (ttl_ms opts) (by_id c.run_id rows)) [
  | some reason ↦ ([], item c false (some reason) none)
  | none ↦
      if or_else opts.dry_run false then ([], item c false none none) else delete_candidate opts c
]

unfoldable pub collect :
    GcOptions → List RunStatusForGc → List Candidate → List Action × List GcRunSummary
collect opts rows [] = ([], [])
collect opts rows (c ∷ cs) =
    let (actions, result) = collect_one opts rows c in
    let (later, results) = collect opts rows cs in (actions ++ later, result ∷ results)

abbrev pub one_if : Bool → ℕ
one_if b = if b then 1 else 0

abbrev pub count_where : (GcRunSummary → Bool) → List GcRunSummary → ℕ
count_where test [] = 0
count_where test (r ∷ rs) = one_if (test r) + count_where test rs

-- `if (r.error)`: an error whose message is empty is not counted.
abbrev is_error : Option GcError → Bool
is_error none = false
is_error (some (deregister_failed e)) = true
is_error (some (remove_failed e)) = not (str_eq e "")

unfoldable pub summary : List GcRunSummary → Bool → GcSummary
summary results dry_run = record {
  scanned = length results;
  deleted = count_where (λ r. r.deleted) results;
  skipped = count_where (λ r. not r.deleted && is_some r.skipped) results;
  errors = count_where (λ r. is_error r.error) results;
  dry_run = dry_run;
  results = results;
}

-- `runWorkspaceGcCore`; the sandbox is none where its root does not exist.
unfoldable pub run_workspace_gc_core :
    (List String → String) → Option (List UserDir) → GcOptions → List Action × GcSummary
run_workspace_gc_core resolve sandbox opts = elim sandbox [
  | none ↦ ([], summary [] (or_else opts.dry_run false))
  | some users ↦
      let candidates = candidate_paths resolve (resolve (opts.sandbox_root ∷ [])) users in
      let (actions, results) =
        collect opts (opts.lookup_runs (map (λ c. c.run_id) candidates)) candidates in
      (actions, summary results (or_else opts.dry_run false))
]
