-- ===== src/Chat/Tools.antt =====
-- The frames of tool calls and of question cards. Where the source stringifies an object, its JSON is
-- given.
use agent_studio.Shared.{
  ℕ, String, Bool, true, false, not, ◌&&◌, ◌||◌, Option, none, some, List, [], ◌∷◌, ◌++◌, map, any,
  or_else, str_eq, opt_str_eq, if◌then◌else◌,
}
use agent_studio.Chat.Blocks.{
  ToolStatus, pending, approved, executing, completed, failed, denied, ToolResultDetails, ToolBlock,
  RunNotice, StreamingBlock, tool, notice, collapse, collapse_tool, collapse_thinking, is_tool,
  on_tools, if_given, is_truthy, find_first, on_first,
}

abbrev pub legacy_ask_user_tool : String
legacy_ask_user_tool = "ask_user"

abbrev pub ask_user_question_tool : String
ask_user_question_tool = "AskUserQuestion"

abbrev pub is_ask_user_tool_name : String → Bool
is_ask_user_tool_name name = str_eq name ask_user_question_tool || str_eq name legacy_ask_user_tool

abbrev pub new_call : String → String → Option String → ToolStatus → Option String → ToolBlock
new_call id name arguments status token = record {
  id = id;
  name = name;
  arguments = or_else arguments "";
  status = status;
  result = none;
  execution_ms = none;
  expanded = true;
  token = token;
  elapsed_seconds = none;
  details = none;
  shell_streamed = none;
}

-- `notice`.
unfoldable pub apply_notice : List StreamingBlock → RunNotice → String → List StreamingBlock
apply_notice blocks n id = map collapse blocks ++ notice (record { id = id; notice = n }) ∷ []

-- `tool_progress`.
abbrev pub is_running_call : ToolStatus → Bool
is_running_call executing = true
is_running_call approved = true
is_running_call _ = false

unfoldable pub apply_tool_progress : List StreamingBlock → String → ℕ → List StreamingBlock
apply_tool_progress blocks id elapsed =
    map
      (on_tools λ t.
        if str_eq t.id id && is_running_call t.status
        then record t { elapsed_seconds = some elapsed }
        else t)
      blocks

unfoldable pub apply_tool_denied : List StreamingBlock → String → List StreamingBlock
apply_tool_denied blocks id =
    map (on_tools λ t. if str_eq t.id id then record t { status = denied; expanded = true } else t)
      blocks

-- `tool_pending` and `tool_call`.
pub record CallPayload : Type 0 where
  pub id : String
  pub name : String
  pub arguments : Option String
  pub token : Option String

unfoldable pub apply_tool_pending : List StreamingBlock → CallPayload → List StreamingBlock
apply_tool_pending blocks p =
    map collapse blocks ++ tool (new_call p.id p.name p.arguments pending p.token) ∷ []

unfoldable pub apply_tool_call : List StreamingBlock → CallPayload → List StreamingBlock
apply_tool_call blocks p =
    if any (is_tool p.id) blocks
    then map
        (λ b.
          if is_tool p.id b
          then on_tools (λ t. record t { status = executing; expanded = true }) b
          else collapse b)
        blocks
    else map collapse blocks ++ tool (new_call p.id p.name p.arguments executing none) ∷ []

-- `tool_result`.
pub record ResultPayload : Type 0 where
  pub id : String
  pub name : Option String
  pub success : Bool
  pub execution_ms : Option ℕ
  pub result : Option String
  pub details : Option ToolResultDetails

abbrev pub final_status : ResultPayload → ToolStatus
final_status p = if p.success then completed else failed

abbrev pub result_text : ResultPayload → String
result_text p = or_else p.result (if p.success then "Success" else "Tool execution failed")

-- The result lands on a call; `id` is the one that the call has from then on.
abbrev pub land : ResultPayload → String → ToolBlock → ToolBlock
land p id t = record t {
  id = id;
  status = final_status p;
  execution_ms = p.execution_ms;
  result = some (result_text p);
  details = if_given p.details t.details;
}

-- A retired question card that still waits for its result, under its answer token.
abbrev pub is_waiting_card : StreamingBlock → Bool
is_waiting_card (tool t) =
    str_eq t.name legacy_ask_user_tool && is_truthy t.token && opt_str_eq (some t.id) t.token
is_waiting_card b = false

abbrev pub wants_card : List StreamingBlock → ResultPayload → Bool
wants_card blocks p =
    opt_str_eq p.name (some legacy_ask_user_tool) && not (any (is_tool p.id) blocks)

unfoldable pub ask_user_card : List StreamingBlock → ResultPayload → Option StreamingBlock
unfolding find_first
ask_user_card blocks p = if wants_card blocks p then find_first is_waiting_card blocks else none

abbrev pub unexpected_of : StreamingBlock → Option ToolStatus
unexpected_of (tool t) =
    if is_ask_user_tool_name t.name || is_running_call t.status then none else some t.status
unexpected_of b = none

-- What a result without a call becomes.
abbrev pub orphan : ResultPayload → ToolBlock
orphan p = record (new_call p.id (or_else p.name "unknown") none (final_status p) none) {
  execution_ms = p.execution_ms;
  result = some (result_text p);
  details = p.details;
}

pub record ToolResultOutcome : Type 0 where
  pub blocks : List StreamingBlock
  pub missing : Bool
  pub unexpected_status : Option ToolStatus

-- A result for a call that is found by its id, or for none.
unfoldable pub result_by_id : List StreamingBlock → ResultPayload → ToolResultOutcome
unfolding find_first on_first
result_by_id blocks p = elim (find_first (is_tool p.id) blocks) [
  | none ↦ record {
    blocks = map collapse blocks ++ tool (orphan p) ∷ [];
    missing = true;
    unexpected_status = none;
  }
  | some existing ↦ record {
    blocks = on_first (is_tool p.id) (λ t. land p t.id t) blocks;
    missing = false;
    unexpected_status = unexpected_of existing;
  }
]

unfoldable pub apply_tool_result : List StreamingBlock → ResultPayload → ToolResultOutcome
unfolding ask_user_card result_by_id
apply_tool_result blocks p = elim (ask_user_card blocks p) [
  | none ↦ result_by_id blocks p
  | some card ↦ record {
    blocks = on_first is_waiting_card (land p p.id) blocks;
    missing = false;
    unexpected_status = none;
  }
]

-- `ask_user`, its answers, and the token of the card that a result landed on.
unfoldable pub apply_ask_user :
    List StreamingBlock → String → Option String → Option String → String → List StreamingBlock
apply_ask_user blocks id name token ask_user_args =
    let collapsed = map collapse_thinking blocks in
    if str_eq id "" || any (is_tool id) collapsed
    then collapsed
    else map collapse_tool collapsed
      ++ tool
          (new_call id (or_else name ask_user_question_tool) (some ask_user_args) executing token)
        ∷ []

unfoldable pub apply_ask_user_answered : List StreamingBlock → String → String → List StreamingBlock
apply_ask_user_answered blocks token result =
    map
      (on_tools λ t.
        if is_ask_user_tool_name t.name && opt_str_eq t.token (some token)
        then record t { status = completed; result = some result }
        else t)
      blocks

abbrev token_of : Option StreamingBlock → Option String
token_of (some (tool t)) = if is_ask_user_tool_name t.name then t.token else none
token_of _ = none

unfoldable pub ask_user_token_for : List StreamingBlock → String → Option String
unfolding find_first
ask_user_token_for blocks id = token_of (find_first (is_tool id) blocks)
