-- ===== src/Engine/Foreign.antt =====
-- src/lib/engine/permission-mode.ts and src/lib/engine/mcp-connectors.ts: tools of servers that are not
-- ours, and the policies that their rows give them.
use agent_studio.Shared.{
  ℕ, ◌≤◌, Bool, true, false, not, ◌||◌, List, [], ◌∷◌, ◌++◌, Option, none, some, ◌≡◌, ◌≢◌, refl, ap,
  ◌∙◌, inl, inr, Bool-cases, arith, ◌==◌, All, drop,
}
use agent_studio.Shared.Text.{Text, units, text_eq, is_prefix}
use agent_studio.Engine.Modes.{ExternalToolPolicy}
use agent_studio.Engine.Capabilities.{
  external, mutate, is_line_end, is_empty, before, is_foreign, named_in, server_and_bare,
  parse_tool_namespace, is_external_tool_name, tool_capabilities, own_mcp_server,
}
use agent_studio.Engine.Connectors.{
  Policies, strictness, stricter_policy, policy_for, add_policy, add_policies,
  cli_tool_name_segment, is_lower_or_digit,
}

-- A server's name as connectors have it.
abbrev pub is_server_unit : ℕ → Bool
is_server_unit c = is_lower_or_digit c || c == b'-'

abbrev pub IsServerName : Text → Type 0
IsServerName s = (s ≢ []) × All (λ c. is_server_unit c ≡ true) s

abbrev pub IsToolName : Text → Type 0
IsToolName t = (is_empty t ≡ false) × (is_line_end t ≡ false)

-- The name of a tool of a server, as the CLI spells it.
abbrev pub qualified : Text → Text → Text
qualified server tool = units "mcp__" ++ (server ++ (units "__" ++ tool))

not_underscore : (c : ℕ) → is_server_unit c ≡ true → (b'_' == c) ≡ false
not_underscore c h = ground arith

no_line_end :
    (c : ℕ) → is_server_unit c ≡ true → (c == 10 || c == 13 || c == 0x2028 || c == 0x2029) ≡ false
no_line_end c h = ground arith

one_line :
    (server rest : Text)
    → All (λ c. is_server_unit c ≡ true) server
    → is_line_end rest ≡ false
    → is_line_end (server ++ rest) ≡ false
one_line [] rest h e = e
one_line (c ∷ server) rest h e = rw (no_line_end c h.0) (one_line server rest h.1 e)

no_gap : (d : ℕ) (s : Text) → is_server_unit d ≡ true → is_prefix (units "__") (d ∷ s) ≡ false
unfolding is_prefix
no_gap d s h = rw (not_underscore d h) refl

server_and_bare_step :
    (c : ℕ) (s : Text)
    → is_prefix (units "__") s ≡ false
    → server_and_bare (c ∷ s) ≡ before (c ∷ []) (server_and_bare s)
unfolding server_and_bare
server_and_bare_step c s h = rw (h, server_and_bare) refl

server_and_bare_end :
    (c : ℕ) (tool : Text)
    → is_empty tool ≡ false
    → server_and_bare (c ∷ (units "__" ++ tool)) ≡ some (c ∷ [], tool)
unfolding server_and_bare is_prefix
server_and_bare_end c tool e = rw (e, server_and_bare) refl

server_and_bare_split :
    (c : ℕ) (server tool : Text)
    → All (λ c. is_server_unit c ≡ true) server
    → is_empty tool ≡ false
    → server_and_bare (c ∷ server ++ (units "__" ++ tool)) ≡ some (c ∷ server, tool)
server_and_bare_split c [] tool h e = server_and_bare_end c tool e
server_and_bare_split c (d ∷ server) tool h e =
    server_and_bare_step c (d ∷ server ++ (units "__" ++ tool))
      (no_gap d (server ++ (units "__" ++ tool)) h.0)
    ∙ ap (before (c ∷ [])) (server_and_bare_split d server tool h.1 e)

parse_of :
    (name : Text)
    → is_prefix (units "mcp__") name ≡ true
    → is_line_end name ≡ false
    → parse_tool_namespace name ≡ named_in name (server_and_bare (drop 5 name))
unfolding parse_tool_namespace
parse_of name p l = rw (p, l) refl

-- A call of a tool of a connector is read as what it was spelled from.
pub parse_tool_namespace-qualified :
    (server tool : Text)
    → IsServerName server
    → IsToolName tool
    → parse_tool_namespace (qualified server tool) ≡ (some server, tool)
parse_tool_namespace-qualified [] tool s t = absurd (s.0 refl)
parse_tool_namespace-qualified (c ∷ server) tool s t =
    parse_of (qualified (c ∷ server) tool) (unfold is_prefix in refl)
      (one_line (c ∷ server) (units "__" ++ tool) s.1 t.1)
    ∙ ap (named_in (qualified (c ∷ server) tool)) (server_and_bare_split c server tool s.1.1 t.0)

is_external :
    (server tool : Text)
    → IsServerName server
    → IsToolName tool
    → text_eq server own_mcp_server ≡ false
    → is_external_tool_name (qualified server tool) ≡ true
unfolding is_external_tool_name
is_external server tool s t other =
    ap (λ (p : Option Text × Text). is_foreign p.0) (parse_tool_namespace-qualified server tool s t)
    ∙ ap not other

-- Whatever a tool calls itself, with a name on one line that is not empty, where its server's name is
-- not ours and has lower-case letters, digits and hyphens only: it counts as external and as a change,
-- and as nothing else.
pub tool_capabilities-external :
    (server tool : Text)
    → IsServerName server
    → IsToolName tool
    → text_eq server own_mcp_server ≡ false
    → tool_capabilities (qualified server tool) ≡ external ∷ mutate ∷ []
unfolding tool_capabilities
tool_capabilities-external server tool s t other = rw (is_external server tool s t other) refl

-- How strict a policy is, or none.
abbrev pub strict_at : Option ExternalToolPolicy → ℕ
strict_at none = 0
strict_at (some p) = strictness p

stricter_policy-le :
    (a b : ExternalToolPolicy)
    → (strictness a ≤ strictness (stricter_policy a b))
      × (strictness b ≤ strictness (stricter_policy a b))
unfolding stricter_policy
stricter_policy-le a b = ground arith

text_eq_refl : (s : Text) → text_eq s s ≡ true
unfolding text_eq
text_eq_refl [] = refl
text_eq_refl (c ∷ s) = ground (arith, text_eq_refl s)

add_policy_keeps :
    (k key : Text) (p : ExternalToolPolicy) (ps : Policies)
    → strict_at (policy_for k ps) ≤ strict_at (policy_for k (add_policy key p ps))
unfolding policy_for add_policy
add_policy_keeps k key p [] = omega arith
add_policy_keeps k key p ((j, q) ∷ ps) = elim (Bool-cases (text_eq j key)) [
  | inl e ↦ elim (Bool-cases (text_eq j k)) [
    | inl e' ↦ rw (e, e') ((stricter_policy-le q p).0)
    | inr e' ↦ rw (e, e') (omega arith)
  ]
  | inr e ↦ elim (Bool-cases (text_eq j k)) [
    | inl e' ↦ rw (e, e') (omega arith)
    | inr e' ↦ rw (e, e') (add_policy_keeps k key p ps)
  ]
]

add_policy_has :
    (key : Text) (p : ExternalToolPolicy) (ps : Policies)
    → strictness p ≤ strict_at (policy_for key (add_policy key p ps))
unfolding policy_for add_policy
add_policy_has key p [] = rw (text_eq_refl key) (omega arith)
add_policy_has key p ((j, q) ∷ ps) = elim (Bool-cases (text_eq j key)) [
  | inl e ↦ rw (e, e) ((stricter_policy-le q p).1)
  | inr e ↦ rw (e, e) (add_policy_has key p ps)
]

add_policies_keep :
    (k : Text) (entries : List (Text × Option ExternalToolPolicy)) (ps : Policies)
    → strict_at (policy_for k ps) ≤ strict_at (policy_for k (add_policies entries ps))
unfolding add_policies
add_policies_keep k [] ps = omega arith
add_policies_keep k ((tool, none) ∷ entries) ps = add_policies_keep k entries ps
add_policies_keep k ((tool, some p) ∷ entries) ps =
    let key = cli_tool_name_segment tool in
    omega (arith, add_policy_keeps k key p ps, add_policies_keep k entries (add_policy key p ps))

-- The policy that a call finds for a tool's spelling is at least as strict as the row's own for the
-- tool, also where several tools are spelled the same.
pub add_policies-strict :
    (entries : List (Text × Option ExternalToolPolicy)) (ps : Policies)
    → All
        (λ (e : Text × Option ExternalToolPolicy).
          strict_at e.1
          ≤ strict_at (policy_for (cli_tool_name_segment e.0) (add_policies entries ps)))
        entries
unfolding add_policies
add_policies-strict [] ps = tt
add_policies-strict ((tool, none) ∷ entries) ps = (omega arith, add_policies-strict entries ps)
add_policies-strict ((tool, some p) ∷ entries) ps =
    let key = cli_tool_name_segment tool in
    (
      omega (arith, add_policy_has key p ps, add_policies_keep key entries (add_policy key p ps)),
      add_policies-strict entries (add_policy key p ps),
    )
