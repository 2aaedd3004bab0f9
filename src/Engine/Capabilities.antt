-- ===== src/Engine/Capabilities.antt =====
-- src/lib/engine/permission-mode.ts: what a tool can do, by its name. The patterns are tests on the name
-- in lower case; names are ASCII where they match.
use agent_studio.Shared.{
  String, Bool, true, false, not, ◌&&◌, ◌||◌, List, [], ◌∷◌, ◌++◌, Option, none, some, any, drop,
  if◌then◌else◌, ◌==◌,
}
use agent_studio.Shared.Text.{
  Text, units, text_eq, is_prefix, includes_text, split_by, to_lower, trim,
}

pub data ToolCapability : Type 0 where
  read write_file mutate mandatory_approval plan_authoring external : ToolCapability

abbrev pub same_capability : ToolCapability → ToolCapability → Bool
same_capability read read = true
same_capability write_file write_file = true
same_capability mutate mutate = true
same_capability mandatory_approval mandatory_approval = true
same_capability plan_authoring plan_authoring = true
same_capability external external = true
same_capability _ _ = false

abbrev pub has_capability : ToolCapability → List ToolCapability → Bool
has_capability c cs = any (same_capability c) cs

abbrev pub is_one_of : List String → Text → Bool
is_one_of names s = any (λ n. text_eq s (units n)) names

-- `(^|_)(word)(_|$)`: one of the parts between underscores.
abbrev pub has_part : List String → Text → Bool
has_part names s = any (is_one_of names) (split_by b'_' s)

-- `^(word)_`.
abbrev pub starts_with_one_of : List String → Text → Bool
starts_with_one_of names s = any (λ n. is_prefix (units n) s) names

pub record ToolCapabilityRule : Type 0 where
  pub matches : Text → Bool
  pub capabilities : List ToolCapability

-- `TOOL_CAPABILITY_RULES`, on a name in lower case.
unfoldable pub tool_capability_rules : List ToolCapabilityRule
tool_capability_rules =
    record {
      matches = is_one_of ("push_branch" ∷ "create_pull_request" ∷ "request_plan_approval" ∷ []);
      capabilities = mutate ∷ mandatory_approval ∷ plan_authoring ∷ [];
    }
    ∷ record {
      matches = λ s.
          has_part ("push" ∷ []) s
          || is_one_of ("create_pull_request" ∷ "open_pull_request" ∷ []) s
          || includes_text s (units "plan_approval");
      capabilities = mutate ∷ mandatory_approval ∷ [];
    }
    ∷ record {
      matches = is_one_of (
          "file_write" ∷ "write" ∷ "exitplanmode" ∷ "exit_planmode" ∷ "exitplan_mode"
          ∷ "exit_plan_mode" ∷ []);
      capabilities = write_file ∷ mutate ∷ plan_authoring ∷ [];
    }
    ∷ record {
      matches = is_one_of (
          "file_read" ∷ "file_info" ∷ "list_directory" ∷ "search_files" ∷ "web_search" ∷ "web_fetch"
          ∷ "pdf_read" ∷ "browser_screenshot" ∷ "git_status" ∷ "git_log" ∷ "git_diff" ∷ []);
      capabilities = read ∷ [];
    }
    ∷ record {
      matches = is_one_of (
          "read" ∷ "glob" ∷ "grep" ∷ "websearch" ∷ "webfetch" ∷ "notebookread" ∷ "todoread"
          ∷ "askuserquestion" ∷ []);
      capabilities = read ∷ [];
    }
    ∷ record {
      matches = starts_with_one_of (
          "list_" ∷ "get_" ∷ "read_" ∷ "search_" ∷ "describe_" ∷ "show_" ∷ "inspect_" ∷ "count_"
          ∷ "fetch_" ∷ []);
      capabilities = read ∷ [];
    }
    ∷ record { matches = is_one_of ("task" ∷ "agent" ∷ []); capabilities = mutate ∷ [] }
    ∷ record {
      matches =
          is_one_of
            ("file_patch" ∷ "file_replace" ∷ "delete_file" ∷ "move_file" ∷ "copy_file" ∷ []);
      capabilities = write_file ∷ mutate ∷ [];
    }
    ∷ record {
      matches =
          is_one_of ("edit" ∷ "multiedit" ∷ "notebookedit" ∷ "applypatch" ∷ "apply_patch" ∷ []);
      capabilities = write_file ∷ mutate ∷ [];
    }
    ∷ record {
      matches = has_part ("write" ∷ "edit" ∷ "patch" ∷ []);
      capabilities = write_file ∷ mutate ∷ [];
    }
    ∷ []

abbrev pub own_mcp_server : Text
own_mcp_server = units "agentstudio"

-- What a dot of a pattern does not match.
abbrev pub is_line_end : Text → Bool
is_line_end s = any (λ c. c == 10 || c == 13 || c == 0x2028 || c == 0x2029) s

abbrev pub before : Text → Option (Text × Text) → Option (Text × Text)
before c none = none
before c (some (server, bare)) = some (c ++ server, bare)

abbrev pub is_empty : Text → Bool
is_empty [] = true
is_empty (_ ∷ _) = false

-- `(.+?)__(.+)$` on a text of one line.
unfoldable pub server_and_bare : Text → Option (Text × Text)
unfolding is_prefix
server_and_bare [] = none
server_and_bare (c ∷ s) = elim (is_prefix (units "__") s && not (is_empty (drop 2 s))) [
  | true ↦ some (c ∷ [], drop 2 s)
  | false ↦ before (c ∷ []) (server_and_bare s)
]

abbrev pub named_in : Text → Option (Text × Text) → Option Text × Text
named_in name none = (none, name)
named_in name (some (server, bare)) = (some server, bare)

unfoldable pub parse_tool_namespace : Text → Option Text × Text
unfolding server_and_bare
parse_tool_namespace name =
    if is_prefix (units "mcp__") name && not (is_line_end name)
    then named_in name (server_and_bare (drop 5 name))
    else (none, name)

abbrev pub is_foreign : Option Text → Bool
is_foreign none = false
is_foreign (some server) = not (text_eq server own_mcp_server)

unfoldable pub is_external_tool_name : Text → Bool
unfolding parse_tool_namespace
is_external_tool_name name = is_foreign (parse_tool_namespace name).0

abbrev pub own_bare : Text → Option Text × Text → Text
own_bare name (none, bare) = name
own_bare name (some server, bare) = if text_eq server own_mcp_server then bare else name

unfoldable pub strip_tool_namespace : Text → Text
unfolding parse_tool_namespace
strip_tool_namespace name = own_bare name (parse_tool_namespace name)

unfoldable pub first_match : List ToolCapabilityRule → Text → List ToolCapability
first_match [] s = mutate ∷ []
first_match (rule ∷ rules) s =
    let rest = first_match rules s in if rule.matches s then rule.capabilities else rest

unfoldable pub tool_capabilities : Text → List ToolCapability
unfolding is_external_tool_name strip_tool_namespace first_match tool_capability_rules
tool_capabilities name =
    if is_external_tool_name name
    then external ∷ mutate ∷ []
    else first_match tool_capability_rules (to_lower (trim (strip_tool_namespace name)))
