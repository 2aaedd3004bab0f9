-- ===== src/Workspace/Guard.antt =====
-- src/lib/engine/workspace-guard.ts: whether a tool call may touch what it names. The functions on
-- paths of the platform are parameters, on a platform whose separator is the slash; a path that cannot
-- be resolved has no real path.
use agent_studio.Shared.{
  ℕ, String, Bool, true, false, not, ◌&&◌, ◌||◌, Option, none, some, List, [], ◌∷◌, ◌++◌, map,
  filter, any, all, str_eq, leb, ◌==◌, if◌then◌else◌,
}
use mathlib.Core.List.{reverse}
use agent_studio.Shared.Text.{Text, units, text_eq, is_prefix, split_by, to_lower}

pub record Platform : Type 0 where
  pub is_absolute : Text → Bool
  pub resolve : Text → Text
  pub resolve_from : Text → Text → Text
  pub relative : Text → Text → Text
  pub real_path : Text → Option Text

pub data BashPolicy : Type 0 where
  sandboxed ask_each deny_all : BashPolicy

-- What is read of a tool's input: its texts by their keys, and one flag.
pub record ToolInput : Type 0 where
  pub string_of : String → Option Text
  pub dangerously_disable_sandbox : Bool

pub record GuardInput : Type 0 where
  pub tool_name : String
  pub tool_input : ToolInput
  pub workspace_root : Text
  pub bash_policy : BashPolicy
  pub additional_roots : List Text
  pub project_config_loaded : Bool

pub data Reason : Type 0 where
  flag_not_honoured shell_not_confined shell_disabled : Reason
  outside configures : Text → Reason

pub data GuardDecision : Type 0 where
  allow : GuardDecision
  ask deny : Reason → GuardDecision

-- The keys of a tool's paths, of those that it reads or writes and of those that it writes.
abbrev pub path_args : String → List String
path_args name =
    if str_eq name "Read" || str_eq name "NotebookEdit"
    then (if str_eq name "Read"
        then "file_path" ∷ "path" ∷ "notebook_path" ∷ []
        else "notebook_path" ∷ "file_path" ∷ "path" ∷ [])
    else if str_eq name "Write" || str_eq name "Edit" || str_eq name "MultiEdit"
    then "file_path" ∷ "path" ∷ []
    else if str_eq name "Glob" || str_eq name "Grep" || str_eq name "LS"
    then "path" ∷ []
    else []

abbrev pub config_write_args : String → List String
config_write_args name =
    if str_eq name "Write" || str_eq name "Edit" || str_eq name "MultiEdit"
    then "file_path" ∷ "path" ∷ []
    else if str_eq name "NotebookEdit"
    then "notebook_path" ∷ "file_path" ∷ "path" ∷ []
    else if str_eq name "move_file"
    then "fromPath" ∷ "toPath" ∷ []
    else if str_eq name "delete_file"
    then "path" ∷ []
    else []

abbrev pub given : Option Text → List Text → List Text
given none rest = rest
given (some []) rest = rest
given (some (c ∷ s)) rest = (c ∷ s) ∷ rest

unfoldable pub path_arguments_for : List String → ToolInput → List Text
path_arguments_for [] input = []
path_arguments_for (key ∷ keys) input = given (input.string_of key) (path_arguments_for keys input)

abbrev is_slash : ℕ → Bool
is_slash c = c == b'/' || c == b'\\'

abbrev is_name_char : ℕ → Bool
is_name_char c =
    (leb b'A' c && leb c b'Z')
    || (leb b'a' c && leb c b'z')
    || (leb b'0' c && leb c b'9')
    || c == b'.'
    || c == b'_'
    || c == b'-'

-- `/^~[A-Za-z0-9._-]*(?:[\\/]|$)/`.
unfoldable pub name_then_slash : Text → Bool
name_then_slash [] = true
name_then_slash (c ∷ s) = let rest = name_then_slash s in is_slash c || (is_name_char c && rest)

unfoldable pub home_prefix : Text → Bool
unfolding name_then_slash
home_prefix [] = false
home_prefix (c ∷ s) = c == b'~' && name_then_slash s

-- The parts of a path between slashes of either kind.
abbrev pub parts_of : Text → List Text
parts_of p = split_by b'/' (map (λ c. if is_slash c then b'/' else c) p)

unfoldable pub parent_segment : Text → Bool
unfolding text_eq split_by
parent_segment p = any (λ part. text_eq part (b'.' ∷ b'.' ∷ [])) (parts_of p)

unfoldable pub drop_slashes : Text → Text
drop_slashes [] = []
drop_slashes (c ∷ s) = let rest = drop_slashes s in if is_slash c then rest else c ∷ s

-- Without the slashes at its end.
unfoldable pub normalize : Text → Text
unfolding drop_slashes
normalize p = reverse (drop_slashes (reverse p))

module _ (platform : Platform) where
  unfoldable pub is_inside : Text → Text → Bool
  unfolding normalize text_eq is_prefix
  is_inside root candidate =
      let r = normalize (platform.resolve root) in
      let c = normalize (platform.resolve candidate) in text_eq c r || is_prefix (r ++ b'/' ∷ []) c

  abbrev pub real_roots : List Text → Option (List Text)
  real_roots [] = some []
  real_roots (root ∷ roots) = elim (platform.real_path root) [
    | none ↦ none
    | some real ↦ elim (real_roots roots) [ none ↦ none | some reals ↦ some (real ∷ reals) ]
  ]

  abbrev pub absolute_for : GuardInput → Text → Text
  absolute_for input candidate =
      if platform.is_absolute candidate
      then candidate
      else platform.resolve_from input.workspace_root candidate

  -- The ways to spell a path, with `..` resolved before links are followed and after.
  unfoldable pub spellings : GuardInput → Text → List Text
  unfolding parent_segment
  spellings input candidate =
      absolute_for input candidate
      ∷ (if parent_segment candidate
          then (if platform.is_absolute candidate
              then candidate
              else input.workspace_root ++ b'/' ∷ candidate)
            ∷ []
          else [])

  abbrev pub below_some : List Text → Option Text → Bool
  below_some reals none = false
  below_some reals (some real) = any (λ root. is_inside root real) reals

  abbrev pub is_really_inside : Option (List Text) → Text → Bool
  is_really_inside none spelling = false
  is_really_inside (some reals) spelling = below_some reals (platform.real_path spelling)

  unfoldable pub is_contained : GuardInput → Text → Bool
  unfolding home_prefix is_inside spellings
  is_contained input candidate =
      let roots = input.workspace_root ∷ input.additional_roots in
      not (home_prefix candidate)
      && any (λ root. is_inside root (absolute_for input candidate)) roots
      && all (is_really_inside (real_roots roots)) (spellings input candidate)

  abbrev pub config_entries : List Text
  config_entries =
      units "settings.json"
      ∷ units "settings.local.json"
      ∷ units "commands"
      ∷ units "agents"
      ∷ units "skills"
      ∷ units "hooks"
      ∷ []

  unfoldable pub has_config_entry : List Text → Bool
  unfolding text_eq
  has_config_entry [] = false
  has_config_entry (s ∷ []) = text_eq s (units ".claude")
  has_config_entry (s ∷ t ∷ rest) =
      (text_eq s (units ".claude") && any (text_eq t) config_entries) || has_config_entry (t ∷ rest)

  unfoldable pub config_base : Bool → List Text → Bool
  unfolding text_eq
  config_base include_instructions [] = false
  config_base include_instructions (s ∷ []) =
      text_eq s (units ".mcp.json")
      || (include_instructions
          && (text_eq s (units "claude.md") || text_eq s (units "claude.local.md")))
  config_base include_instructions (s ∷ t ∷ rest) = config_base include_instructions (t ∷ rest)

  abbrev is_part : Text → Bool
  is_part s = not (text_eq s [] || text_eq s (b'.' ∷ []))

  unfoldable pub is_agent_config_path : Text → Text → Bool → Bool
  unfolding text_eq is_prefix split_by has_config_entry config_base
  is_agent_config_path workspace_root absolute include_instructions =
      let rel = platform.relative workspace_root absolute in
      let within =
        text_eq rel []
        || (not (is_prefix (b'.' ∷ b'.' ∷ []) rel) && not (platform.is_absolute rel)) in
      let segments = map to_lower (filter is_part (parts_of (if within then rel else absolute))) in
      has_config_entry segments || config_base include_instructions segments

  abbrev pub configures_agent : GuardInput → Text → Bool
  configures_agent input candidate =
      is_agent_config_path input.workspace_root (absolute_for input candidate)
        input.project_config_loaded

  -- The first of some paths that passes a test.
  unfoldable pub first_path : (Text → Bool) → List Text → Option Text
  first_path p [] = none
  first_path p (c ∷ cs) = let rest = first_path p cs in if p c then some c else rest

  abbrev pub guard_command : BashPolicy → Bool → GuardDecision
  guard_command policy true = deny flag_not_honoured
  guard_command sandboxed false = allow
  guard_command ask_each false = ask shell_not_confined
  guard_command deny_all false = deny shell_disabled

  abbrev pub touched : GuardInput → List Text
  touched input = path_arguments_for (path_args input.tool_name) input.tool_input

  abbrev pub written : GuardInput → List Text
  written input = path_arguments_for (config_write_args input.tool_name) input.tool_input

  unfoldable pub guard_workspace_access : GuardInput → GuardDecision
  unfolding path_arguments_for is_contained is_agent_config_path first_path
  guard_workspace_access input =
      if str_eq input.tool_name "Bash"
      then guard_command input.bash_policy input.tool_input.dangerously_disable_sandbox
      else elim (first_path (λ c. not (is_contained input c)) (touched input)) [
        | some candidate ↦ deny (outside candidate)
        | none ↦ elim (first_path (configures_agent input) (written input)) [
          | some candidate ↦ ask (configures candidate)
          | none ↦ allow
        ]
      ]

unfoldable pub resolve_bash_policy : String → Option Bool → Option BashPolicy → BashPolicy
resolve_bash_policy platform sandbox_available (some policy) = policy
resolve_bash_policy platform (some false) none = ask_each
resolve_bash_policy platform sandbox_available none =
    if str_eq platform "linux" then sandboxed else ask_each
