-- ===== src/Workspace/Tests.antt =====
-- Runs of the collection, and its theorems at concrete inputs.
use agent_studio.Shared.{◌++◌, drop, length, str_eq, if◌then◌else◌}
use agent_studio.Shared.Text.{Text, units, is_prefix}
use agent_studio.Workspace.Guard.{
  Platform, sandboxed, GuardInput, outside, deny, ask, configures, guard_workspace_access,
}
use agent_studio.Shared.{
  ◌+◌, ◌*◌, String, false, none, some, List, [], ◌∷◌, ◌≡◌, refl, length, filter,
}
use agent_studio.Workspace.Gc.{
  RunStatusForGc, completed, running, deregister, remove, UserDir, GcOptions, day_ms,
  candidate_paths, collect, collect_one, skip_reason, by_id, delete_candidate,
  run_workspace_gc_core,
}
use agent_studio.Workspace.Removal.{removed, is_eligible, paths_if, run_workspace_gc_core-removed}

-- The last part of a path is enough here.
abbrev last : List String → String
last [] = ""
last (s ∷ []) = s
last (s ∷ rest) = last rest

abbrev sandbox : List UserDir
sandbox =
    (record {
      user = "u";
      runs = some ("old" ∷ "new" ∷ []);
      worktrees = some ("tree" ∷ "lost" ∷ []);
    })
    ∷ []

abbrev rows_of : List String → List RunStatusForGc
rows_of ids =
    (record { id = "old"; state = completed; finished_at = some 0 })
    ∷ (record { id = "new"; state = running; finished_at = none })
    ∷ (record { id = "tree"; state = completed; finished_at = some 0 })
    ∷ []

abbrev weekly : GcOptions
weekly = record {
  sandbox_root = "s";
  lookup_runs = rows_of;
  ttl_days = none;
  dry_run = none;
  now = 8 * day_ms;
  remove_worktree = some (λ path id. none);
  rm = λ path. none;
}

removes_old :
    (run_workspace_gc_core last (some sandbox) weekly).0
    ≡ remove "old" ∷ deregister "tree" ∷ remove "tree" ∷ []
unfolding run_workspace_gc_core collect candidate_paths collect_one skip_reason by_id
    delete_candidate
removes_old = refl

run_workspace_gc_core-removed_example :
    let candidates = candidate_paths last (last ("s" ∷ [])) sandbox in
    removed (run_workspace_gc_core last (some sandbox) weekly).0
    ≡ paths_if false (filter (is_eligible weekly (rows_of [])) candidates)
run_workspace_gc_core-removed_example = run_workspace_gc_core-removed last sandbox weekly

-- A platform without links, on which a path is resolved as it is written.
abbrev plain : Platform
plain = record {
  is_absolute = λ p. is_prefix (b'/' ∷ []) p;
  resolve = λ p. p;
  resolve_from = λ root p. root ++ b'/' ∷ p;
  relative = λ root p. if is_prefix (root ++ b'/' ∷ []) p then drop (length root + 1) p else p;
  real_path = λ p. some p;
}

abbrev call_of : String → Text → GuardInput
call_of name path = record {
  tool_name = name;
  tool_input = record {
    string_of = λ key. if str_eq key "file_path" then some path else none;
    dangerously_disable_sandbox = false;
  };
  workspace_root = units "/work";
  bash_policy = sandboxed;
  additional_roots = [];
  project_config_loaded = false;
}

abbrev read_notes : GuardInput
read_notes = call_of "Read" (units "notes.txt")

others_refused :
    (guard_workspace_access plain (call_of "Read" (units "~/keys"))
      ≡ deny (outside (units "~/keys")))
    × (guard_workspace_access plain (call_of "Write" (units ".claude/settings.json"))
        ≡ ask (configures (units ".claude/settings.json")))
unfolding guard_workspace_access
others_refused = (refl, refl)
