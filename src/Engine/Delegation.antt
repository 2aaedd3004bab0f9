-- ===== src/Engine/Delegation.antt =====
-- src/lib/engine/delegation-gate.ts: whether a child agent may start, and with what input. A hook is
-- two steps, before and after it waits for the budget check. An input is an object of the tool call.
use agent_studio.Shared.{
  ℕ, max, String, Bool, true, false, not, ◌&&◌, List, [], ◌∷◌, ◌++◌, Option, none, some,
  if◌then◌else◌, leb, or_else, length, str_eq,
}
use agent_studio.Shared.Text.{Text, units, trim}
use agent_studio.Runs.Codec.{show_ℕ}
use agent_studio.Engine.Slots.{get, put, delete, has}

-- A value of a JSON object, as far as the gate looks at it; another one is its JSON.
pub data Value : Type 0 where
  boolean : Bool → Value
  string : Text → Value
  other : String → Value

abbrev pub Object : Type 0
Object = List (String × Value)

pub data ChildBudgetVerdict : Type 0 where
  allowed : ChildBudgetVerdict
  refused : Text → ChildBudgetVerdict

-- How a budget check ends: its own verdict, an exception, or its time running out.
pub data CheckEnd : Type 0 where
  answered : ChildBudgetVerdict → CheckEnd
  threw timed_out : CheckEnd

pub record DelegationGateOptions : Type 0 where
  pub max_concurrent : Option ℕ
  pub parent_is_claude : Bool
  pub checks_budget : Bool

-- `tool_input` is none where it is no object.
pub record DelegationRequest : Type 0 where
  pub tool_use_id : String
  pub tool_input : Option Object
  pub caller_agent_id : Option String

pub data DelegationAdmission : Type 0 where
  admit : Object → DelegationAdmission
  refuse : Text → DelegationAdmission

abbrev pub max_concurrent_subagents : ℕ
max_concurrent_subagents = 4

unfoldable pub cap_reached_reason : ℕ → Text
cap_reached_reason max_concurrent =
    units "Refused: "
    ++ (show_ℕ max_concurrent
        ++ units
            " delegated agents are already running, which is as many as one turn may run at once. Wait for the running children to finish, then delegate the rest.")

unfoldable pub nested_delegation_reason : Text
nested_delegation_reason =
    units
      "Refused: a delegated agent cannot delegate further. Do the work yourself, or finish and report back to the agent that delegated to you."

-- `Math.max(1, Math.floor(...))` of a whole number.
unfoldable pub concurrent_limit : DelegationGateOptions → ℕ
concurrent_limit o = max 1 (or_else o.max_concurrent max_concurrent_subagents)

unfoldable pub sanitize_delegation_input : Bool → Option Object → Object
sanitize_delegation_input parent_is_claude input =
    let o = delete "mode" (delete "isolation" (or_else input [])) in
    let o' = if parent_is_claude then o else delete "model" o in
    put "run_in_background" (boolean false) o'

abbrev pub trimmed_key : Text → Option Text
trimmed_key [] = none
trimmed_key (c ∷ key) = some (c ∷ key)

unfoldable pub agent_key_of : Option Object → Option Text
agent_key_of none = none
agent_key_of (some o) = key_in (get "subagent_type" o)
  where
    key_in : Option Value → Option Text
    key_in (some (string key)) = trimmed_key (trim key)
    key_in _ = none

unfoldable pub bounded_budget_check : CheckEnd → ChildBudgetVerdict
bounded_budget_check (answered verdict) = verdict
bounded_budget_check timed_out = refused (
    units
      "Refused: the budget check for this delegation did not answer in time, so it was not started.")
bounded_budget_check threw =
    refused (units "Refused: the budget check for this delegation failed, so it was not started.")

-- The children that hold a slot, each with its input once it is admitted.
abbrev pub Live : Type 0
Live = List (String × Option Object)

pub data Begun : Type 0 where
  answered_now : DelegationAdmission → Begun
  checking : Option Text → Begun

abbrev pub is_nested : Option String → Bool
is_nested none = false
is_nested (some id) = not (str_eq id "")

module _ (o : DelegationGateOptions) where
  -- The end of `admit`, with the verdict.
  unfoldable pub finish_admission :
      DelegationRequest → ChildBudgetVerdict → Live → DelegationAdmission × Live
  unfolding sanitize_delegation_input
  finish_admission r (refused reason) live = (refuse reason, delete r.tool_use_id live)
  finish_admission r allowed live =
      let input = sanitize_delegation_input o.parent_is_claude r.tool_input in
      (admit input, put r.tool_use_id (some input) live)

  abbrev reserve : DelegationRequest → Live → Live
  reserve r live = if has r.tool_use_id live then live else put r.tool_use_id none live

  abbrev proceed : Bool → DelegationRequest → Live → Begun × Live
  proceed true r live = (checking (agent_key_of r.tool_input), live)
  proceed false r live = let (a, live') = finish_admission r allowed live in (answered_now a, live')

  -- `admit` up to where it waits, or to its end where there is no check.
  unfoldable pub begin_admission : DelegationRequest → Live → Begun × Live
  unfolding finish_admission concurrent_limit
  begin_admission r live =
      if is_nested r.caller_agent_id
      then (answered_now (refuse nested_delegation_reason), live)
      else if not (has r.tool_use_id live) && leb (concurrent_limit o) (length live)
      then (answered_now (refuse (cap_reached_reason (concurrent_limit o))), live)
      else proceed o.checks_budget r (reserve r live)

  abbrev pub conclude_call :
      DelegationRequest → CheckEnd → Begun × Live → DelegationAdmission × Live
  conclude_call r end (answered_now a, live') = (a, live')
  conclude_call r end (checking key, live') = finish_admission r (bounded_budget_check end) live'

  -- `admit` with nothing in between.
  unfoldable pub admit_call : DelegationRequest → CheckEnd → Live → DelegationAdmission × Live
  admit_call r end live = conclude_call r end (begin_admission r live)

unfoldable pub admitted_input : String → Live → Option Object
admitted_input id live = or_else (get id live) none

unfoldable pub settle : String → Live → Live
settle id live = delete id live

abbrev pub reset : Live → Live
reset live = []
