-- ===== src/Engine/Tests.antt =====
-- The theorems on what the engine decides, at inputs.
use agent_studio.Shared.{
  String, true, false, All, ◌≤◌, List, [], ◌∷◌, Option, none, some, ◌≡◌, refl, or_else,
}
use agent_studio.Shared.Text.{Text, units, is_prefix, text_eq, trim, includes_text}
use agent_studio.Engine.Slots.{get, put}
use agent_studio.Engine.Delegation.{
  string, DelegationGateOptions, DelegationRequest, admit, refuse, answered, timed_out, allowed,
  admit_call, settle, sanitize_delegation_input, begin_admission, cap_reached_reason,
  concurrent_limit,
}
use agent_studio.Engine.Slotted.{Reach-IsSlotted}
use agent_studio.Engine.Turns.{Turn, Reach, IsSlotted, here, next, begin, pending}
use agent_studio.Workspace.Guard.{Platform, sandboxed, ToolInput, guard_workspace_access}
use agent_studio.Engine.Modes.{plan, allow, resolve_tool_gate, ExternalToolPolicy, blocked}
use agent_studio.Engine.Capabilities.{external, mutate, tool_capabilities}
use agent_studio.Engine.Connectors.{
  unsaid, policy_for, add_policies, cli_tool_name_segment, connector_call_verdict,
}
use agent_studio.Engine.Decision.{
  ToolDecisionContext, decide_tool_call, is_tool_in_scope, is_impostor, verdict_in,
}
use agent_studio.Engine.Permitted.{IsConfigured, Passes, decide_tool_call_allows}
use agent_studio.Engine.Foreign.{
  IsServerName, qualified, tool_capabilities-external, strict_at, add_policies-strict,
}
use agent_studio.Engine.Admission.{
  field_for_child, sanitize_delegation_input-get, admit_call-refused, settled-admit_call,
}

-- Two children at once, each with a budget check.
abbrev two_at_once : DelegationGateOptions
two_at_once = record { max_concurrent = some 2; parent_is_claude = false; checks_budget = true }

abbrev call : String → DelegationRequest
call id = record {
  tool_use_id = id;
  tool_input = some (("model", string (units "opus")) ∷ ("prompt", string (units "go")) ∷ []);
  caller_agent_id = none;
}

abbrev both_checked : Turn
both_checked = record {
  live = ("a", none) ∷ ("b", none) ∷ [];
  phases = ("a", pending) ∷ ("b", pending) ∷ [];
}

both_checked-Reach : Reach two_at_once both_checked
unfolding begin_admission put get
both_checked-Reach = next (next here (begin (call "a") refl)) (begin (call "b") refl)

Reach-IsSlotted_example : IsSlotted two_at_once both_checked
Reach-IsSlotted_example = Reach-IsSlotted two_at_once both_checked-Reach

sanitize_delegation_input-get_example :
    get "prompt" (sanitize_delegation_input false (call "a").tool_input)
    ≡ field_for_child false "prompt" (get "prompt" (or_else (call "a").tool_input []))
sanitize_delegation_input-get_example =
    sanitize_delegation_input-get false (call "a").tool_input "prompt"

full-refused :
    (admit_call two_at_once (call "c") timed_out both_checked.live).0
    ≡ refuse (cap_reached_reason (concurrent_limit two_at_once))
unfolding admit_call begin_admission get
full-refused = refl

admit_call-refused_example :
    get "a" (admit_call two_at_once (call "c") timed_out both_checked.live).1
    ≡ get "a" both_checked.live
admit_call-refused_example =
    admit_call-refused two_at_once (call "c") timed_out both_checked.live
      (cap_reached_reason (concurrent_limit two_at_once)) (unfold get in refl) full-refused "a"

settled-admit_call_example :
    (admit_call two_at_once (call "c") (answered allowed) (settle "a" both_checked.live)).0
    ≡ admit (sanitize_delegation_input false (call "c").tool_input)
settled-admit_call_example =
    settled-admit_call two_at_once both_checked "a" (call "c") both_checked-Reach
      (unfold get in refl) refl

abbrev slash_paths : Platform
slash_paths = record {
  is_absolute = is_prefix (units "/");
  resolve = λ p. p;
  resolve_from = λ a b. b;
  relative = λ a b. b;
  real_path = λ p. some p;
}

abbrev planning : ToolDecisionContext
planning = record {
  mode = plan;
  settings_requires_approval = λ name. false;
  workspace_root = some (units "/w");
  bash_policy = sandboxed;
  scope = some (record { builtins = "Grep" ∷ []; in_house = [] });
  project_config_loaded = true;
  connectors = some [];
}

abbrev no_paths : ToolInput
no_paths = record { string_of = λ key. none; dangerously_disable_sandbox = false }

grep_allowed : (decide_tool_call slash_paths planning "Grep" no_paths unsaid).gate ≡ allow
unfolding decide_tool_call guard_workspace_access resolve_tool_gate connector_call_verdict trim
    includes_text
grep_allowed = refl

decide_tool_call_allows_example :
    (is_tool_in_scope planning.scope "Grep" ≡ true)
    × (is_impostor unsaid ≡ false)
    × IsConfigured slash_paths planning "Grep" no_paths
        (verdict_in slash_paths planning "Grep" unsaid)
    × Passes slash_paths planning "Grep" no_paths (verdict_in slash_paths planning "Grep" unsaid)
decide_tool_call_allows_example =
    decide_tool_call_allows slash_paths planning "Grep" no_paths unsaid grep_allowed

tracker_named : IsServerName (units "my-tracker")
tracker_named = (
  (λ e. cc e),
  (refl, (refl, (refl, (refl, (refl, (refl, (refl, (refl, (refl, (refl, tt)))))))))),
)

tool_capabilities-external_example :
    tool_capabilities (qualified (units "my-tracker") (units "file_read")) ≡ external ∷ mutate ∷ []
tool_capabilities-external_example =
    tool_capabilities-external (units "my-tracker") (units "file_read") tracker_named (refl, refl)
      (unfold text_eq in refl)

-- Two tools that are spelled the same.
abbrev row_policies : List (Text × Option ExternalToolPolicy)
row_policies = (units "a.b", some blocked) ∷ (units "a b", some ExternalToolPolicy.allowed) ∷ []

add_policies-strict_example :
    All
      (λ (e : Text × Option ExternalToolPolicy).
        strict_at e.1
        ≤ strict_at (policy_for (cli_tool_name_segment e.0) (add_policies row_policies [])))
      row_policies
add_policies-strict_example = add_policies-strict row_policies []
