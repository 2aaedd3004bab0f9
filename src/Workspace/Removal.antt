-- ===== src/Workspace/Removal.antt =====
-- What a collection removes, and what its summary says of it.
use agent_studio.Shared.{
  ℕ, suc, ◌+◌, ◌≤◌, String, Bool, true, false, not, ◌&&◌, Option, none, some, List, [], ◌≡◌, refl,
  sym, ap, ◌∙◌, arith, ◌∷◌, ◌++◌, map, leb, or_else, is_some, length, filter, if◌then◌else◌,
  Bool-cases, Option-cases, inl, inr, length-append,
}
use agent_studio.Workspace.Gc.{
  RunStatusForGc, run, worktree, Candidate, still_active, too_recent, GcError, map_error, Action,
  deregister, remove, UserDir, GcOptions, ttl_ms, is_terminal, is_too_recent, candidate_paths,
  by_id, skip_reason, hook, delete_candidate, collect_one, collect, one_if, count_where, summary,
  run_workspace_gc_core,
}

-- The paths that are removed.
abbrev pub removed : List Action → List String
removed [] = []
removed (deregister path ∷ rest) = removed rest
removed (remove path ∷ rest) = path ∷ removed rest

removed-append : (xs ys : List Action) → removed (xs ++ ys) ≡ removed xs ++ removed ys
removed-append [] ys = refl
removed-append (deregister path ∷ xs) ys = removed-append xs ys
removed-append (remove path ∷ xs) ys = ap (λ r. path ∷ r) (removed-append xs ys)

-- A run that is over, and has been for the time to live.
abbrev is_over : ℕ → ℕ → RunStatusForGc → Bool
is_over now ttl r =
    is_terminal r.state && elim r.finished_at [ none ↦ false | some t ↦ leb (t + ttl) now ]

abbrev pub is_eligible : GcOptions → List RunStatusForGc → Candidate → Bool
is_eligible opts rows c = elim (by_id c.run_id rows) [
  | none ↦ false
  | some r ↦ is_over opts.now (ttl_ms opts) r
]

skip_reason-some :
    (now ttl : ℕ) (r : RunStatusForGc)
    → is_some (skip_reason now ttl (some r)) ≡ not (is_over now ttl r)
unfolding skip_reason is_too_recent
skip_reason-some now ttl r = go (is_terminal r.state) r.finished_at
  where
    go :
        (over : Bool) (finished_at : Option ℕ)
        → is_some (
            if not over
            then some still_active
            else if is_too_recent now ttl finished_at
            then some too_recent
            else none)
          ≡ not (over && elim finished_at [ none ↦ false | some t ↦ leb (t + ttl) now ])
    go false finished_at = refl
    go true none = refl
    go true (some t) = ground arith

-- A candidate is passed over unless it is eligible.
is_eligible-skip :
    (opts : GcOptions) (rows : List RunStatusForGc) (c : Candidate)
    → is_eligible opts rows c
      ≡ not (is_some (skip_reason opts.now (ttl_ms opts) (by_id c.run_id rows)))
is_eligible-skip opts rows c = elim (Option-cases (by_id c.run_id rows)) [
  | inl missing ↦ rw (missing, is_eligible) (unfold skip_reason in refl)
  | inr (r, found) ↦
      rw (found, is_eligible) (ground (arith, skip_reason-some opts.now (ttl_ms opts) r))
]

removed-hook :
    (f : Option (String → String → Option String)) (c : Candidate) → removed (hook f c).0 ≡ []
removed-hook none c = refl
removed-hook (some f) c =
    elim c.kind
      as (λ k.
        removed
          (elim k as (λ _. List Action × Option GcError) [
            | run ↦ ([], none)
            | worktree ↦ (deregister c.path ∷ [], map_error (f c.path c.run_id))
          ]).0
        ≡ []) [ run ↦ refl | worktree ↦ refl ]

removed-delete :
    (opts : GcOptions) (c : Candidate) → removed (delete_candidate opts c).0 ≡ c.path ∷ []
unfolding delete_candidate
removed-delete opts c =
    removed-append (hook opts.remove_worktree c).0 (remove c.path ∷ [])
    ∙ ap (λ r. r ++ c.path ∷ []) (removed-hook opts.remove_worktree c)

-- What is removed for one candidate, and what is said of it.
removed-collect_one :
    (opts : GcOptions) (rows : List RunStatusForGc) (c : Candidate)
    → removed (collect_one opts rows c).0 ≡ (
        if or_else opts.dry_run false
        then []
        else if is_eligible opts rows c
        then c.path ∷ []
        else [])
unfolding collect_one
removed-collect_one opts rows c =
    elim (Option-cases (skip_reason opts.now (ttl_ms opts) (by_id c.run_id rows))) [
      | inr (reason, e) ↦
          let skip : is_eligible opts rows c ≡ false = is_eligible-skip opts rows c ∙ rw e refl in
          rw (e, collect_one) (rw skip (ground arith))
      | inl e ↦
          let keep : is_eligible opts rows c ≡ true = is_eligible-skip opts rows c ∙ rw e refl in
          elim (Bool-cases (or_else opts.dry_run false)) [
            | inl dry ↦ rw (e, collect_one) (rw dry refl)
            | inr wet ↦ rw (e, collect_one) (rw wet (rw keep (removed-delete opts c)))
          ]
    ]

-- The paths of one candidate and of the later ones.
abbrev pub paths_if : Bool → List Candidate → List String
paths_if dry cs = if dry then [] else map (λ c. c.path) cs

joined :
    (dry keep : Bool) (c : Candidate) (rest : List Candidate)
    → (if dry then [] else if keep then c.path ∷ [] else []) ++ paths_if dry rest
      ≡ paths_if dry (if keep then c ∷ rest else rest)
joined true keep c rest = refl
joined false true c rest = refl
joined false false c rest = refl

removed-collect :
    (opts : GcOptions) (rows : List RunStatusForGc) (cs : List Candidate)
    → removed (collect opts rows cs).0
      ≡ paths_if (or_else opts.dry_run false) (filter (is_eligible opts rows) cs)
unfolding collect
removed-collect opts rows [] = ground arith
removed-collect opts rows (c ∷ cs) =
    let dry = or_else opts.dry_run false in
    let later = (collect opts rows cs).0 in
    let one = if dry then [] else if is_eligible opts rows c then c.path ∷ [] else [] in
    removed-append (collect_one opts rows c).0 later
    ∙ ap (λ r. r ++ removed later) (removed-collect_one opts rows c)
    ∙ ap (λ r. one ++ r) (removed-collect opts rows cs)
    ∙ joined dry (is_eligible opts rows c) c (filter (is_eligible opts rows) cs)

-- Exactly the workspaces of runs that are over, and have been for the time to live, are removed, each
-- once and in the order of the scan; none on a dry run, and none of a run that has no row.
pub run_workspace_gc_core-removed :
    (resolve : List String → String) (users : List UserDir) (opts : GcOptions)
    → let candidates = candidate_paths resolve (resolve (opts.sandbox_root ∷ [])) users in
      let rows = opts.lookup_runs (map (λ c. c.run_id) candidates) in
      removed (run_workspace_gc_core resolve (some users) opts).0
      ≡ paths_if (or_else opts.dry_run false) (filter (is_eligible opts rows) candidates)
unfolding run_workspace_gc_core
run_workspace_gc_core-removed resolve users opts =
    let candidates = candidate_paths resolve (resolve (opts.sandbox_root ∷ [])) users in
    removed-collect opts (opts.lookup_runs (map (λ c. c.run_id) candidates)) candidates

delete_counted :
    (opts : GcOptions) (c : Candidate)
    → let r = (delete_candidate opts c).1 in
      (one_if (not r.deleted && is_some r.skipped) ≡ 0) × (one_if r.deleted ≤ 1)
unfolding delete_candidate
delete_counted opts c = elim (Option-cases (opts.rm c.path)) [
  | inl gone ↦ rw (gone, delete_candidate) (omega arith)
  | inr (m, stuck) ↦ rw (stuck, delete_candidate) (omega arith)
]

-- One entry of the summary: passed over, or eligible, and deleted only if it is removed.
one_counted :
    (opts : GcOptions) (rows : List RunStatusForGc) (c : Candidate)
    → let r = (collect_one opts rows c).1 in
      (one_if (not r.deleted && is_some r.skipped) + one_if (is_eligible opts rows c) ≡ 1)
      × (one_if r.deleted ≤ length (removed (collect_one opts rows c).0))
unfolding collect_one
one_counted opts rows c =
    elim (Option-cases (skip_reason opts.now (ttl_ms opts) (by_id c.run_id rows))) [
      | inr (reason, e) ↦
          let skip : is_eligible opts rows c ≡ false = is_eligible-skip opts rows c ∙ rw e refl in
          rw (e, collect_one) (rw skip (omega arith))
      | inl e ↦
          let keep : is_eligible opts rows c ≡ true = is_eligible-skip opts rows c ∙ rw e refl in
          elim (Bool-cases (or_else opts.dry_run false)) [
            | inl dry ↦ rw (e, collect_one) (rw dry (rw keep (omega arith)))
            | inr wet ↦
                rw (e, collect_one)
                  (rw wet (
                    rw keep (
                      let (none_skipped, once) = delete_counted opts c in
                      rw (removed-delete opts c) (omega arith))))
          ]
    ]

length-filter-cons :
    (test : Candidate → Bool) (c : Candidate) (cs : List Candidate)
    → length (filter test (c ∷ cs)) ≡ one_if (test c) + length (filter test cs)
length-filter-cons test c cs = ground arith

sum_of_two : (a b e f n : ℕ) → a + e ≡ 1 → b + f ≡ n → a + b + (e + f) ≡ suc n
sum_of_two a b e f n h k = omega arith

le_of_sum : (a b m n l : ℕ) → a ≤ m → b ≤ n → l ≡ m + n → a + b ≤ l
le_of_sum a b m n l h k e = omega arith

collect_counted :
    (opts : GcOptions) (rows : List RunStatusForGc) (cs : List Candidate)
    → let rs = (collect opts rows cs).1 in
      (length rs ≡ length cs)
      × (count_where (λ r. not r.deleted && is_some r.skipped) rs
            + length (filter (is_eligible opts rows) cs)
          ≡ length cs)
      × (count_where (λ r. r.deleted) rs ≤ length (removed (collect opts rows cs).0))
unfolding collect
collect_counted opts rows [] = omega arith
collect_counted opts rows (c ∷ cs) =
    let (same, skipped, deleted) = collect_counted opts rows cs in
    let (one, once) = one_counted opts rows c in
    let later = (collect opts rows cs).0 in
    let r = (collect_one opts rows c).1 in
    let paths : length (removed ((collect_one opts rows c).0 ++ later))
        ≡ length (removed (collect_one opts rows c).0) + length (removed later) =
      ap length (removed-append (collect_one opts rows c).0 later)
      ∙ length-append (removed (collect_one opts rows c).0) (removed later) in
    (
      omega arith,
      rw (length-filter-cons (is_eligible opts rows) c cs) (sum_of_two _ _ _ _ _ one skipped),
      le_of_sum _ _ _ _ _ once deleted paths,
    )

-- The summary of a collection counts every workspace that was scanned: each is passed over or
-- eligible, and no more are counted as deleted than were removed.
pub run_workspace_gc_core_counted :
    (resolve : List String → String) (users : List UserDir) (opts : GcOptions)
    → let candidates = candidate_paths resolve (resolve (opts.sandbox_root ∷ [])) users in
      let rows = opts.lookup_runs (map (λ c. c.run_id) candidates) in
      let after = run_workspace_gc_core resolve (some users) opts in
      (after.1.scanned ≡ length candidates)
      × (after.1.skipped + length (filter (is_eligible opts rows) candidates) ≡ after.1.scanned)
      × (after.1.deleted ≤ length (removed after.0))
unfolding run_workspace_gc_core summary
run_workspace_gc_core_counted resolve users opts =
    let candidates = candidate_paths resolve (resolve (opts.sandbox_root ∷ [])) users in
    let rows = opts.lookup_runs (map (λ c. c.run_id) candidates) in
    let (same, skipped, deleted) = collect_counted opts rows candidates in
    (same, skipped ∙ sym same, deleted)
