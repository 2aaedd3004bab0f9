-- ===== src/Engine/Permitted.antt =====
-- src/lib/engine/tool-decision.ts and src/lib/engine/permission-mode.ts: what a call that runs with no
-- question asked must be.
use agent_studio.Shared.{
  String, Bool, true, false, List, Option, none, some, ◌≡◌, ◌≢◌, ◌⊎◌, inl, inr, refl, Bool-cases,
  arith, if◌then◌else◌, or_else, includes,
}
use agent_studio.Shared.Text.{Text, units}
use agent_studio.Workspace.Guard.{Platform, ToolInput, GuardDecision}
use agent_studio.Engine.Modes.{
  ConversationPermissionMode, default, plan, accept_edits, bypass_permissions, ToolGate, allow, ask,
  deny, GateReason, ExternalToolPolicy, allowed, asks, blocked, ToolGateInput, gate_of,
  resolve_tool_gate, external_gate, mode_gate,
}
use agent_studio.Engine.Capabilities.{
  ToolCapability, read, write_file, mandatory_approval, external, has_capability, tool_capabilities,
}
use agent_studio.Engine.Connectors.{
  McpProvenance, ConnectorCallVerdict, policy, not_configured, from_elsewhere,
}
use agent_studio.Engine.Decision.{
  ToolDecisionContext, is_tool_in_scope, is_impostor, containment_of, verdict_in, policy_in,
  host_owned_tools, decide_tool_call, after_connector, gated, compose,
}

-- What the mode and the settings make of a call that is allowed.
abbrev pub ModeAllows : ConversationPermissionMode → List ToolCapability → Bool → Type 0
ModeAllows plan caps required = (has_capability read caps ≡ true) × (required ≡ false)
ModeAllows accept_edits caps required = (has_capability write_file caps ≡ true) ⊎ (required ≡ false)
ModeAllows bypass_permissions caps required = Unit
ModeAllows default caps required = required ≡ false

-- The same for a tool of another server, with what its connector's row says of it.
abbrev pub Allows :
    Bool → ConversationPermissionMode → List ToolCapability → ExternalToolPolicy → Bool → Type 0
Allows false mode caps p required = ModeAllows mode caps required
Allows true plan caps p required = (p ≢ blocked) × ModeAllows plan caps required
Allows true bypass_permissions caps p required = p ≢ blocked
Allows true default caps p required = (p ≡ allowed) × (required ≡ false)
Allows true accept_edits caps p required = (p ≡ allowed) × (required ≡ false)

mode_gate_allows :
    (mode : ConversationPermissionMode) (caps : List ToolCapability) (required : Bool) (name : Text)
    → (mode_gate mode caps required name).gate ≡ allow
    → ModeAllows mode caps required
mode_gate_allows default caps required name h = ground arith
mode_gate_allows plan caps required name h = ground arith
mode_gate_allows accept_edits caps required name h =
    elim (Bool-cases (has_capability write_file caps)) [
      | inl w ↦ inl w
      | inr w ↦ inr (ground arith)
    ]
mode_gate_allows bypass_permissions caps required name h = tt

external_gate-Allows :
    (mode : ConversationPermissionMode) (caps : List ToolCapability) (p : ExternalToolPolicy)
    (required : Bool) (name : Text)
    → (or_else (external_gate mode p required) (mode_gate mode caps required name)).gate ≡ allow
    → Allows true mode caps p required
external_gate-Allows default caps allowed required name h = (refl, ground arith)
external_gate-Allows default caps asks required name h = absurd (cc h)
external_gate-Allows default caps blocked required name h = absurd (cc h)
external_gate-Allows accept_edits caps allowed required name h = (refl, ground arith)
external_gate-Allows accept_edits caps asks required name h = absurd (cc h)
external_gate-Allows accept_edits caps blocked required name h = absurd (cc h)
external_gate-Allows plan caps allowed required name h =
    ((λ e. cc e), mode_gate_allows plan caps required name h)
external_gate-Allows plan caps asks required name h =
    ((λ e. cc e), mode_gate_allows plan caps required name h)
external_gate-Allows plan caps blocked required name h = absurd (cc h)
external_gate-Allows bypass_permissions caps allowed required name h = λ e. cc e
external_gate-Allows bypass_permissions caps asks required name h = λ e. cc e
external_gate-Allows bypass_permissions caps blocked required name h = absurd (cc h)

abbrev pub PassesGate : ToolGateInput → Type 0
PassesGate i =
    (has_capability mandatory_approval (tool_capabilities i.tool_name) ≡ false)
    × Allows (has_capability external (tool_capabilities i.tool_name)) i.mode
        (tool_capabilities i.tool_name) (or_else i.external_policy asks)
        i.settings_requires_approval

gate_of-Allows :
    (caps : List ToolCapability) (i : ToolGateInput)
    → (gate_of caps i).gate ≡ allow
    → (has_capability mandatory_approval caps ≡ false)
      × Allows
          (has_capability external caps)
          i.mode
          caps
          (or_else i.external_policy asks)
          i.settings_requires_approval
unfolding gate_of
gate_of-Allows caps i h = elim (Bool-cases (has_capability mandatory_approval caps)) [
  | inl m ↦ absurd (cc (rw (gate_of, m) at h))
  | inr m ↦ elim (Bool-cases (has_capability external caps)) [
    | inl e ↦ (
      m,
      rw e (
          external_gate-Allows i.mode caps (or_else i.external_policy asks)
            i.settings_requires_approval i.tool_name (rw (gate_of, m, e) at h)),
    )
    | inr e ↦ (
      m,
      rw e (
          mode_gate_allows i.mode caps i.settings_requires_approval i.tool_name
            (rw (gate_of, m, e) at h)),
    )
  ]
]

-- A call that the gate allows is of a tool that needs no approval in every mode, and the mode, the
-- settings and the connector's row allow it.
pub resolve_tool_gate_allows :
    (i : ToolGateInput) → (resolve_tool_gate i).gate ≡ allow → PassesGate i
unfolding resolve_tool_gate
resolve_tool_gate_allows i h = gate_of-Allows (tool_capabilities i.tool_name) i h

compose_allows :
    (c : GuardDecision) (g : ToolGate) (why : Option GateReason)
    → (compose c g why).gate ≡ allow
    → (c ≡ GuardDecision.allow) × (g ≡ allow)
compose_allows (GuardDecision.deny r) g why h = absurd (cc h)
compose_allows (GuardDecision.ask r) deny why h = absurd (cc h)
compose_allows (GuardDecision.ask r) ask why h = absurd (cc h)
compose_allows (GuardDecision.ask r) allow why h = absurd (cc h)
compose_allows GuardDecision.allow g why h = (refl, h)

module _ (platform : Platform) (ctx : ToolDecisionContext) (name : String) (input : ToolInput) where
  abbrev pub gate_input : Option ConnectorCallVerdict → ToolGateInput
  gate_input verdict = record {
    mode = ctx.mode;
    tool_name = units name;
    settings_requires_approval = ctx.settings_requires_approval name;
    external_policy = policy_in verdict;
  }

  -- A connector's row speaks for the call, or it has none to speak for it.
  abbrev pub IsConfigured : Option ConnectorCallVerdict → Type 0
  IsConfigured none = Unit
  IsConfigured (some (policy p id)) = Unit
  IsConfigured (some (not_configured server)) = ⊥
  IsConfigured (some (from_elsewhere server)) = ⊥

  abbrev pub Passes : Option ConnectorCallVerdict → Type 0
  Passes verdict =
      (includes host_owned_tools name ≡ true)
      ⊎ ((containment_of platform ctx name input ≡ GuardDecision.allow)
          × PassesGate (gate_input verdict))

  gated_allows :
      (verdict : Option ConnectorCallVerdict)
      → (if includes host_owned_tools name
          then record { gate = allow; reason = none }
          else gated platform ctx name input (policy_in verdict)).gate
        ≡ allow
      → Passes verdict
  gated_allows verdict h = elim (Bool-cases (includes host_owned_tools name)) [
    | inl host ↦ inl host
    | inr other ↦
        let (contained, passed) =
          compose_allows (containment_of platform ctx name input)
            (resolve_tool_gate (gate_input verdict)).gate
            (resolve_tool_gate (gate_input verdict)).reason (rw other at h) in
        inr (contained, resolve_tool_gate_allows (gate_input verdict) passed)
  ]

  after_connector_allows :
      (verdict : Option ConnectorCallVerdict)
      → (after_connector platform ctx name input verdict).gate ≡ allow
      → IsConfigured verdict × Passes verdict
  after_connector_allows none h = (tt, gated_allows none h)
  after_connector_allows (some (policy p id)) h = (tt, gated_allows (some (policy p id)) h)
  after_connector_allows (some (not_configured server)) h = absurd (cc h)
  after_connector_allows (some (from_elsewhere server)) h = absurd (cc h)

  -- A call that runs with no question asked is in the agent's scope and does not wear our server's
  -- name where it is not ours; the run's connectors, where it has them, do not refuse it; and it is
  -- the user's own question, or passes the guard and the gate, the connector's policy included.
  pub decide_tool_call_allows :
      (provenance : McpProvenance)
      → (decide_tool_call platform ctx name input provenance).gate ≡ allow
      → (is_tool_in_scope ctx.scope name ≡ true)
        × (is_impostor provenance ≡ false)
        × IsConfigured (verdict_in platform ctx name provenance)
        × Passes (verdict_in platform ctx name provenance)
  unfolding decide_tool_call
  decide_tool_call_allows provenance h = elim (Bool-cases (is_tool_in_scope ctx.scope name)) [
    | inr out ↦ absurd (cc (rw (decide_tool_call, out) at h))
    | inl scoped ↦ elim (Bool-cases (is_impostor provenance)) [
      | inl fake ↦ absurd (cc (rw (decide_tool_call, scoped, fake) at h))
      | inr ours ↦
          let (configured, passes) =
            after_connector_allows (verdict_in platform ctx name provenance)
              (rw (decide_tool_call, scoped, ours) at h) in
          (scoped, ours, configured, passes)
    ]
  ]
