-- ===== src/Engine/Modes.antt =====
-- src/lib/engine/permission-mode.ts: what a conversation's permission mode and what a tool can do make
-- of a call.
use agent_studio.Shared.{Bool, true, false, List, Option, none, some, if◌then◌else◌, or_else}
use agent_studio.Shared.Text.{Text, units, text_eq}
use agent_studio.Engine.Capabilities.{
  ToolCapability, external, has_capability, mandatory_approval, plan_authoring, read,
  strip_tool_namespace, tool_capabilities, write_file,
}

pub data ConversationPermissionMode : Type 0 where
  default plan accept_edits bypass_permissions : ConversationPermissionMode

-- A stored or requested mode is any value; none, where it is no text.
unfoldable pub normalize_permission_mode : Option Text → ConversationPermissionMode
normalize_permission_mode none = default
normalize_permission_mode (some v) =
    if text_eq v (units "plan")
    then plan
    else if text_eq v (units "acceptEdits")
    then accept_edits
    else if text_eq v (units "bypassPermissions")
    then bypass_permissions
    else default

pub record EffectivePermissionMode : Type 0 where
  pub mode : ConversationPermissionMode
  pub downgraded : Bool

abbrev pub is_chat_stream : Option Text → Bool
is_chat_stream none = false
is_chat_stream (some s) = text_eq s (units "chat_stream")

abbrev pub for_surface : ConversationPermissionMode → Bool → EffectivePermissionMode
for_surface bypass_permissions true = record { mode = bypass_permissions; downgraded = false }
for_surface bypass_permissions false = record { mode = default; downgraded = true }
for_surface mode interactive = record { mode = mode; downgraded = false }

unfoldable pub resolve_effective_permission_mode :
    Option Text → Option Text → EffectivePermissionMode
resolve_effective_permission_mode requested run_source =
    for_surface (normalize_permission_mode requested) (is_chat_stream run_source)

pub data ToolGate : Type 0 where
  allow ask deny : ToolGate

-- The texts that go back to the model or the operator.
pub data GateReason : Type 0 where
  mandatory external_asks external_blocked external_all_tools plan_file : GateReason
  plan_refuses : Text → GateReason

pub record ToolGateDecision {ℓ} (R : Type ℓ) : Type ℓ where
  pub gate : ToolGate
  pub reason : Option R

pub data ExternalToolPolicy : Type 0 where
  allowed asks blocked : ExternalToolPolicy

pub record ToolGateInput : Type 0 where
  pub mode : ConversationPermissionMode
  pub tool_name : Text
  pub settings_requires_approval : Bool
  pub external_policy : Option ExternalToolPolicy

abbrev pub because : ToolGate → GateReason → ToolGateDecision GateReason
because gate reason = record { gate = gate; reason = some reason }

abbrev pub settings_gate : Bool → ToolGateDecision GateReason
settings_gate required = record { gate = if required then ask else allow; reason = none }

abbrev pub unasked : ToolGateDecision GateReason
unasked = record { gate = allow; reason = none }

-- The gate of a tool of another server: none, where the mode has its own answer.
abbrev pub external_gate :
    ConversationPermissionMode → ExternalToolPolicy → Bool → Option (ToolGateDecision GateReason)
external_gate mode blocked required = some (because deny external_blocked)
external_gate plan policy required = none
external_gate bypass_permissions policy required = none
external_gate mode asks required = some (because ask external_asks)
external_gate mode allowed required =
    some (if required then because ask external_all_tools else unasked)

abbrev pub mode_gate :
    ConversationPermissionMode → List ToolCapability → Bool → Text → ToolGateDecision GateReason
mode_gate plan caps required name =
    if has_capability read caps
    then settings_gate required
    else if has_capability plan_authoring caps
    then because ask plan_file
    else because deny (plan_refuses (strip_tool_namespace name))
mode_gate accept_edits caps required name =
    if has_capability write_file caps then unasked else settings_gate required
mode_gate bypass_permissions caps required name = unasked
mode_gate default caps required name = settings_gate required

unfoldable pub gate_of : List ToolCapability → ToolGateInput → ToolGateDecision GateReason
gate_of caps i =
    if has_capability mandatory_approval caps
    then because ask mandatory
    else or_else
        (if has_capability external caps
          then external_gate i.mode (or_else i.external_policy asks) i.settings_requires_approval
          else none)
        (mode_gate i.mode caps i.settings_requires_approval i.tool_name)

unfoldable pub resolve_tool_gate : ToolGateInput → ToolGateDecision GateReason
unfolding gate_of tool_capabilities
resolve_tool_gate i = gate_of (tool_capabilities i.tool_name) i

pub data SdkPermissionMode : Type 0 where
  default accept_edits plan : SdkPermissionMode

unfoldable pub sdk_permission_mode_for : ConversationPermissionMode → SdkPermissionMode
sdk_permission_mode_for accept_edits = SdkPermissionMode.accept_edits
sdk_permission_mode_for _ = SdkPermissionMode.default
