-- ===== src/Engine/Decision.antt =====
-- src/lib/engine/tool-decision.ts, with the scope of src/lib/engine/tool-scope.ts and the names of
-- src/lib/engine/builtin-tools.ts: what becomes of one call of a tool.
use agent_studio.Shared.{
  String, Bool, true, false, not, ◌&&◌, ◌||◌, List, [], ◌∷◌, ◌++◌, Option, none, some, str_eq,
  if◌then◌else◌, includes,
}
use agent_studio.Shared.Text.{Text, units, text_eq}
use agent_studio.Workspace.Guard.{
  Platform, BashPolicy, ToolInput, GuardDecision, Reason, guard_workspace_access,
}
use agent_studio.Engine.Modes.{
  ConversationPermissionMode, ToolGate, allow, ask, deny, GateReason, ToolGateDecision,
  ExternalToolPolicy, resolve_tool_gate,
}
use agent_studio.Engine.Capabilities.{own_mcp_server}
use agent_studio.Engine.Connectors.{
  RunMcpConnector, McpProvenance, from, ConnectorCallVerdict, policy, not_configured,
  from_elsewhere, connector_call_verdict,
}

unfoldable pub canonical_tool_name : String → String
canonical_tool_name name =
    if str_eq name "Task"
    then "Agent"
    else if str_eq name "KillShell" || str_eq name "KillBash"
    then "TaskStop"
    else if str_eq name "ask_user"
    then "AskUserQuestion"
    else name

abbrev pub removed_builtin_tools : List String
removed_builtin_tools = "BashOutput" ∷ "TaskOutput" ∷ []

abbrev pub builtin_tool_set : List String
builtin_tool_set =
    "Read" ∷ "Write" ∷ "Edit" ∷ "MultiEdit" ∷ "Glob" ∷ "Grep" ∷ "Bash" ∷ "TaskStop" ∷ "NotebookEdit"
    ∷ "TodoWrite" ∷ "AskUserQuestion" ∷ "KillShell" ∷ "KillBash" ∷ removed_builtin_tools

abbrev pub is_builtin : String → Bool
is_builtin name = includes builtin_tool_set name || str_eq name "Agent"

abbrev pub host_owned_tools : List String
host_owned_tools = "AskUserQuestion" ∷ []

pub record ToolScope : Type 0 where
  pub builtins : List String
  pub in_house : List String

abbrev pub add_once : String → List String → List String
add_once name names = if includes names name then names else names ++ name ∷ []

abbrev pub add_to_scope : String → ToolScope → ToolScope
add_to_scope name s =
    if str_eq name "" || includes removed_builtin_tools name
    then s
    else if is_builtin name
    then record s { builtins = add_once name s.builtins }
    else record s { in_house = add_once name s.in_house }

-- The names come trimmed.
unfoldable pub add_names : List String → ToolScope → ToolScope
unfolding canonical_tool_name
add_names [] s = s
add_names (name ∷ names) s = add_names names (add_to_scope (canonical_tool_name name) s)

abbrev pub with_delegation : Bool → ToolScope → ToolScope
with_delegation delegation s =
    if delegation then record s { builtins = add_once "Agent" s.builtins } else s

unfoldable pub resolve_tool_scope : Option (List String) → Bool → Option ToolScope
unfolding add_names
resolve_tool_scope none delegation = none
resolve_tool_scope (some names) delegation =
    some (with_delegation delegation (add_names names (record { builtins = []; in_house = [] })))

abbrev pub allows : ToolScope → String → Bool
allows s name = includes s.builtins name || includes s.in_house name

unfoldable pub is_tool_in_scope : Option ToolScope → String → Bool
unfolding canonical_tool_name
is_tool_in_scope none name = true
is_tool_in_scope (some s) name = allows s (canonical_tool_name name)

pub record ToolDecisionContext : Type 0 where
  pub mode : ConversationPermissionMode
  pub settings_requires_approval : String → Bool
  pub workspace_root : Option Text
  pub bash_policy : BashPolicy
  pub scope : Option ToolScope
  pub project_config_loaded : Bool
  pub connectors : Option (List RunMcpConnector)

pub data DecisionReason : Type 0 where
  out_of_scope impostor : DecisionReason
  connector : ConnectorCallVerdict → DecisionReason
  guard : Reason → DecisionReason
  mode : GateReason → DecisionReason

abbrev pub Decision : Type 0
Decision = ToolGateDecision DecisionReason

abbrev pub refused_because : DecisionReason → Decision
refused_because r = record { gate = deny; reason = some r }

-- Our server's name from a server that is not ours.
abbrev pub is_impostor : McpProvenance → Bool
is_impostor (from name source) = text_eq name own_mcp_server && not (text_eq source (units "sdk"))
is_impostor _ = false

abbrev pub policy_in : Option ConnectorCallVerdict → Option ExternalToolPolicy
policy_in (some (policy p id)) = some p
policy_in _ = none

abbrev pub as_mode : Option GateReason → Option DecisionReason
as_mode none = none
as_mode (some r) = some (mode r)

abbrev pub reason_to_ask : Option GateReason → Reason → DecisionReason
reason_to_ask (some r) _ = mode r
reason_to_ask none r = guard r

-- The guard's answer with the gate's.
abbrev pub compose : GuardDecision → ToolGate → Option GateReason → Decision
compose (GuardDecision.deny r) g why = refused_because (guard r)
compose (GuardDecision.ask r) deny why = record { gate = deny; reason = as_mode why }
compose (GuardDecision.ask r) ask why = record { gate = ask; reason = some (reason_to_ask why r) }
compose (GuardDecision.ask r) allow why = record { gate = ask; reason = some (guard r) }
compose GuardDecision.allow g why = record { gate = g; reason = as_mode why }

module _ (platform : Platform) where
  unfoldable pub containment_of : ToolDecisionContext → String → ToolInput → GuardDecision
  containment_of ctx name input = contained ctx.workspace_root
    where
      contained : Option Text → GuardDecision
      contained none = GuardDecision.allow
      contained (some root) = guard_workspace_access platform (record {
        tool_name = name;
        tool_input = input;
        workspace_root = root;
        bash_policy = ctx.bash_policy;
        additional_roots = [];
        project_config_loaded = ctx.project_config_loaded;
      })

  -- What the connectors of the run say of a call; nothing, where it has none.
  unfoldable pub verdict_in :
      ToolDecisionContext → String → McpProvenance → Option ConnectorCallVerdict
  verdict_in ctx name provenance = verdict_on ctx.connectors
    where
      verdict_on : Option (List RunMcpConnector) → Option ConnectorCallVerdict
      verdict_on none = none
      verdict_on (some cs) = connector_call_verdict cs (units name) provenance

  abbrev pub gated : ToolDecisionContext → String → ToolInput → Option ExternalToolPolicy → Decision
  gated ctx name input external_policy =
      let g = resolve_tool_gate (record {
        mode = ctx.mode;
        tool_name = units name;
        settings_requires_approval = ctx.settings_requires_approval name;
        external_policy = external_policy;
      }) in
      compose (containment_of ctx name input) g.gate g.reason

  abbrev pub after_connector :
      ToolDecisionContext → String → ToolInput → Option ConnectorCallVerdict → Decision
  after_connector ctx name input (some (not_configured server)) =
      refused_because (connector (not_configured server))
  after_connector ctx name input (some (from_elsewhere server)) =
      refused_because (connector (from_elsewhere server))
  after_connector ctx name input verdict =
      if includes host_owned_tools name
      then record { gate = allow; reason = none }
      else gated ctx name input (policy_in verdict)

  unfoldable pub decide_tool_call :
      ToolDecisionContext → String → ToolInput → McpProvenance → Decision
  unfolding is_tool_in_scope containment_of verdict_in
  decide_tool_call ctx name input provenance =
      if not (is_tool_in_scope ctx.scope name)
      then refused_because out_of_scope
      else if is_impostor provenance
      then refused_because impostor
      else after_connector ctx name input (verdict_in ctx name provenance)
