-- ===== src/Engine/Connectors.antt =====
-- src/lib/engine/mcp-connectors.ts: the servers that the operator connected, and what their rows say
-- of a call. A policy that is not one of the three values is none.
use agent_studio.Shared.{
  ℕ, String, Bool, true, not, ◌&&◌, ◌||◌, List, [], ◌∷◌, ◌++◌, Option, none, some, all, map, length,
  if◌then◌else◌, or_else, is_some, leb, ltb, ◌==◌,
}
use agent_studio.Shared.Text.{Text, units, text_eq, is_prefix, split_by}
use agent_studio.Engine.Modes.{ExternalToolPolicy, allowed, asks, blocked}
use agent_studio.Engine.Capabilities.{own_mcp_server, parse_tool_namespace, is_empty, is_one_of}

abbrev pub connector_name_max_length : ℕ
connector_name_max_length = 32

abbrev pub reserved_connector_names : List String
reserved_connector_names =
    "agentstudio" ∷ "workspace" ∷ "ide" ∷ "memory" ∷ "hearthbot" ∷ "computer-use" ∷ "remote-devices"
    ∷ []

abbrev pub is_lower_or_digit : ℕ → Bool
is_lower_or_digit c = (leb b'a' c && leb c b'z') || (leb b'0' c && leb c b'9')

-- `[a-z0-9]+(?:-[a-z0-9]+)*`: parts between hyphens, none of them empty.
unfoldable pub is_connector_name : Text → Bool
is_connector_name name =
    all (λ part. not (is_empty part) && all is_lower_or_digit part) (split_by b'-' name)

pub data NameProblem : Type 0 where
  missing too_long malformed reserved : NameProblem

unfoldable pub connector_name_problem : Text → Option NameProblem
unfolding is_connector_name split_by is_prefix
connector_name_problem name =
    if is_empty name
    then some missing
    else if ltb connector_name_max_length (length name)
    then some too_long
    else if not (is_connector_name name)
    then some malformed
    else if is_one_of reserved_connector_names name || is_prefix (units "claude") name
    then some reserved
    else none

abbrev pub is_segment_unit : ℕ → Bool
is_segment_unit c = is_lower_or_digit c || (leb b'A' c && leb c b'Z') || c == b'_' || c == b'-'

unfoldable pub cli_tool_name_segment : Text → Text
cli_tool_name_segment name = map (λ c. if is_segment_unit c then c else b'_') name

abbrev pub Policies : Type 0
Policies = List (Text × ExternalToolPolicy)

pub record RunMcpConnector : Type 0 where
  pub id : String
  pub name : Text
  pub policies : Policies

abbrev pub strictness : ExternalToolPolicy → ℕ
strictness allowed = 0
strictness asks = 1
strictness blocked = 2

unfoldable pub stricter_policy : ExternalToolPolicy → ExternalToolPolicy → ExternalToolPolicy
stricter_policy a b = if leb (strictness b) (strictness a) then a else b

unfoldable pub policy_for : Text → Policies → Option ExternalToolPolicy
policy_for key [] = none
policy_for key ((k, p) ∷ ps) = if text_eq k key then some p else policy_for key ps

-- `policies.set` of the stricter of what is there and what comes.
unfoldable pub add_policy : Text → ExternalToolPolicy → Policies → Policies
unfolding stricter_policy
add_policy key p [] = (key, p) ∷ []
add_policy key p ((k, q) ∷ ps) =
    if text_eq k key then (k, stricter_policy q p) ∷ ps else (k, q) ∷ add_policy key p ps

unfoldable pub add_policies : List (Text × Option ExternalToolPolicy) → Policies → Policies
unfolding add_policy cli_tool_name_segment
add_policies [] ps = ps
add_policies ((tool, none) ∷ more) ps = add_policies more ps
add_policies ((tool, some p) ∷ more) ps =
    add_policies more (add_policy (cli_tool_name_segment tool) p ps)

pub record ConnectorRow : Type 0 where
  pub id : String
  pub name : Text
  pub tool_policies : List (Text × Option ExternalToolPolicy)

unfoldable pub find_connector : Text → List RunMcpConnector → Option RunMcpConnector
find_connector name [] = none
find_connector name (c ∷ cs) = if text_eq c.name name then some c else find_connector name cs

abbrev pub connector_of : ConnectorRow → RunMcpConnector
connector_of row = record {
  id = row.id;
  name = row.name;
  policies = add_policies row.tool_policies [];
}

-- The connectors of a run, on to those that are there.
unfoldable pub add_connectors : List ConnectorRow → List RunMcpConnector → List RunMcpConnector
unfolding connector_name_problem find_connector add_policies
add_connectors [] out = out
add_connectors (row ∷ rows) out = add_connectors rows (
    if is_some (connector_name_problem row.name) || is_some (find_connector row.name out)
    then out
    else out ++ connector_of row ∷ [])

abbrev pub build_run_mcp_connectors : List ConnectorRow → List RunMcpConnector
build_run_mcp_connectors rows = add_connectors rows []

unfoldable pub blocked_tools : Text → Policies → List Text
blocked_tools server [] = []
blocked_tools server ((tool, blocked) ∷ ps) =
    (units "mcp__" ++ (server ++ (units "__" ++ tool))) ∷ blocked_tools server ps
blocked_tools server (_ ∷ ps) = blocked_tools server ps

unfoldable pub connector_disallowed_tools : List RunMcpConnector → List Text
unfolding blocked_tools
connector_disallowed_tools [] = []
connector_disallowed_tools (c ∷ cs) =
    blocked_tools c.name c.policies ++ connector_disallowed_tools cs

-- Which server a call comes from: the SDK does not say, says that it is none, or names it.
pub data McpProvenance : Type 0 where
  unsaid nowhere : McpProvenance
  from : Text → Text → McpProvenance

pub data ConnectorCallVerdict : Type 0 where
  policy : ExternalToolPolicy → String → ConnectorCallVerdict
  not_configured : Text → ConnectorCallVerdict
  from_elsewhere : Text → ConnectorCallVerdict

abbrev pub comes_from : McpProvenance → Text → Bool
comes_from unsaid name = true
comes_from nowhere name = true
comes_from (from server source) name = text_eq source (units "dynamic") && text_eq server name

-- Where the SDK names no server, a policy to allow is one to ask.
abbrev pub policy_of_call : McpProvenance → ExternalToolPolicy → ExternalToolPolicy
policy_of_call nowhere allowed = asks
policy_of_call provenance p = p

abbrev pub verdict_of_server :
    List RunMcpConnector → McpProvenance → Text → Text → ConnectorCallVerdict
verdict_of_server connectors provenance server bare = elim (find_connector server connectors) [
  | none ↦ not_configured server
  | some c ↦
      if comes_from provenance c.name
      then policy
          (policy_of_call provenance
            (or_else (policy_for (cli_tool_name_segment bare) c.policies) asks))
          c.id
      else from_elsewhere server
]

abbrev pub verdict_of_name :
    List RunMcpConnector → McpProvenance → Option Text × Text → Option ConnectorCallVerdict
verdict_of_name connectors provenance (none, bare) = none
verdict_of_name connectors provenance (some server, bare) =
    if text_eq server own_mcp_server
    then none
    else some (verdict_of_server connectors provenance server bare)

unfoldable pub connector_call_verdict :
    List RunMcpConnector → Text → McpProvenance → Option ConnectorCallVerdict
unfolding parse_tool_namespace find_connector policy_for cli_tool_name_segment
connector_call_verdict connectors tool_name provenance =
    verdict_of_name connectors provenance (parse_tool_namespace tool_name)
