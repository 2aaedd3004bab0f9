-- ===== src/Chat/Saving.antt =====
-- What is read off the blocks of a turn, and what is saved of them. The arguments of a call stay
-- JSON text, which the source parses.
use agent_studio.Shared.{
  ℕ, String, Bool, true, false, Option, none, some, List, [], ◌∷◌, ◌++◌, or_else, length, ◌==◌,
  if◌then◌else◌,
}
use agent_studio.Shared.Text.{Text, trim}
use agent_studio.Chat.Transcript.{TranscriptEntry}
use agent_studio.Chat.Blocks.{
  ToolStatus, completed, failed, denied, BackgroundShellStatus, shell_running, ended_with_turn,
  ToolResultDetails, shell, other_details, SubagentStatus, child_running, child_completed,
  child_stopped, RunNotice, StreamingBlock, text, tool, thinking, subagent, notice, truthy_or,
}

unfoldable pub get_partial_text : List StreamingBlock → Text
get_partial_text [] = []
get_partial_text (text t ∷ blocks) = t.content ++ get_partial_text blocks
get_partial_text (b ∷ blocks) = get_partial_text blocks

unfoldable pub thinking_contents : List StreamingBlock → List Text
thinking_contents [] = []
thinking_contents (thinking t ∷ blocks) = t.content ∷ thinking_contents blocks
thinking_contents (b ∷ blocks) = thinking_contents blocks

unfoldable pub join_paragraphs : List Text → Text
join_paragraphs [] = []
join_paragraphs (s ∷ []) = s
join_paragraphs (s ∷ t ∷ rest) = s ++ 10 ∷ 10 ∷ join_paragraphs (t ∷ rest)

abbrev pub get_thinking_text : List StreamingBlock → Text
get_thinking_text blocks = join_paragraphs (thinking_contents blocks)

unfoldable pub get_latest_reasoning_tokens : List StreamingBlock → Option ℕ
get_latest_reasoning_tokens [] = none
get_latest_reasoning_tokens (b ∷ blocks) = elim (get_latest_reasoning_tokens blocks) [
  | some n ↦ some n
  | none ↦ elim b [ thinking t ↦ t.reasoning_tokens | _ ↦ none ]
]

abbrev pub settled_background : Option BackgroundShellStatus → Option BackgroundShellStatus
settled_background (some shell_running) = some ended_with_turn
settled_background o = o

unfoldable pub settled_details : ToolResultDetails → ToolResultDetails
settled_details (shell d) = shell (record d { background = settled_background d.background })
settled_details (other_details s) = other_details s

pub record SavedTool : Type 0 where
  pub name : String
  pub arguments : String
  pub result : String
  pub success : Bool
  pub execution_ms : ℕ
  pub details : Option ToolResultDetails

pub record SavedSubagent : Type 0 where
  pub agent_id : String
  pub agent_name : String
  pub conversation_id : Option String
  pub task : String
  pub content : Text
  pub success : Bool
  pub status : SubagentStatus
  pub transcript : List TranscriptEntry
  pub transcript_truncated : Bool
  pub details : Option String
  pub error : Option String
  pub usage : Option String

pub data SavedBlock : Type 0 where
  saved_text : Text → SavedBlock
  saved_thinking : Text → Option ℕ → SavedBlock
  saved_notice : RunNotice → SavedBlock
  saved_subagent : SavedSubagent → SavedBlock
  saved_tool : SavedTool → SavedBlock

abbrev pub is_completed : ToolStatus → Bool
is_completed completed = true
is_completed _ = false

abbrev pub child_succeeded : SubagentStatus → Bool
child_succeeded child_completed = true
child_succeeded _ = false

abbrev pub ended_status : SubagentStatus → SubagentStatus
ended_status child_running = child_stopped
ended_status s = s

abbrev pub settled_option : Option ToolResultDetails → Option ToolResultDetails
settled_option none = none
settled_option (some d) = some (settled_details d)

abbrev pub has_no_text : Text → Bool
has_no_text s = length (trim s) == 0

-- One block of the metadata, none for a block that is dropped.
unfoldable pub save_block : StreamingBlock → Option SavedBlock
unfolding settled_details
save_block (text t) = if has_no_text t.content then none else some (saved_text t.content)
save_block (thinking t) =
    if has_no_text t.content then none else some (saved_thinking t.content t.reasoning_tokens)
save_block (notice n) = if n.notice.persist then some (saved_notice n.notice) else none
save_block (subagent s) = some (
    saved_subagent (record {
      agent_id = s.agent_id;
      agent_name = s.agent_name;
      conversation_id = s.conversation_id;
      task = s.task;
      content = s.content;
      success = child_succeeded s.status;
      status = ended_status s.status;
      transcript = s.transcript;
      transcript_truncated = s.transcript_truncated;
      details = s.details;
      error = truthy_or s.error none;
      usage = s.usage;
    }))
save_block (tool t) = some (
    saved_tool (record {
      name = t.name;
      arguments = t.arguments;
      result = or_else t.result "";
      success = is_completed t.status;
      execution_ms = or_else t.execution_ms 0;
      details = settled_option t.details;
    }))

unfoldable pub get_serializable_blocks_for_metadata : List StreamingBlock → List SavedBlock
unfolding save_block
get_serializable_blocks_for_metadata [] = []
get_serializable_blocks_for_metadata (b ∷ blocks) = elim (save_block b) [
  | none ↦ get_serializable_blocks_for_metadata blocks
  | some saved ↦ saved ∷ get_serializable_blocks_for_metadata blocks
]

pub record PersistedToolCall : Type 0 where
  pub name : String
  pub arguments : String
  pub result : String
  pub status : ToolStatus

abbrev pub is_terminal_status : ToolStatus → Bool
is_terminal_status completed = true
is_terminal_status failed = true
is_terminal_status denied = true
is_terminal_status _ = false

unfoldable pub get_completed_tool_calls : List StreamingBlock → List PersistedToolCall
get_completed_tool_calls [] = []
get_completed_tool_calls (tool t ∷ blocks) =
    let rest = get_completed_tool_calls blocks in
    if is_terminal_status t.status
    then record {
      name = t.name;
      arguments = t.arguments;
      result = or_else t.result "";
      status = t.status;
    }
      ∷ rest
    else rest
get_completed_tool_calls (b ∷ blocks) = get_completed_tool_calls blocks
