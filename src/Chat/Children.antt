-- ===== src/Chat/Children.antt =====
-- The frames of delegated children.
use agent_studio.Shared.{
  String, Bool, true, false, ◌&&◌, ◌||◌, Option, none, some, List, [], ◌∷◌, ◌++◌, map, any, or_else,
  str_eq, opt_str_eq, if◌then◌else◌,
}
use agent_studio.Shared.Text.{Text}
use agent_studio.Chat.Transcript.{
  SubagentTranscript, append_transcript_text, append_transcript_tool_call,
  settle_transcript_tool_call,
}
use agent_studio.Chat.Blocks.{
  SubagentStatus, child_running, child_completed, child_failed, child_stopped, ChildCall,
  SubagentBlock, StreamingBlock, subagent, collapse_thinking, if_given, truthy_or,
}

-- A child is named by its agent and its conversation.
pub record Target : Type 0 where
  pub agent_id : String
  pub conversation_id : Option String

abbrev pub is_child : Target → SubagentBlock → Bool
is_child target s =
    str_eq s.agent_id target.agent_id && opt_str_eq s.conversation_id target.conversation_id

abbrev pub is_target : Target → StreamingBlock → Bool
is_target target (subagent s) = is_child target s
is_target target b = false

abbrev pub on_child : Target → (SubagentBlock → SubagentBlock) → StreamingBlock → StreamingBlock
on_child target f (subagent s) = subagent (if is_child target s then f s else s)
on_child target f b = b

-- `subagent-${agentId}-${conversationId}`, given as `id`.
abbrev pub started : String → Target → String → Option String → SubagentBlock
started id target agent_name task = record {
  id = id;
  agent_id = target.agent_id;
  agent_name = agent_name;
  conversation_id = target.conversation_id;
  task = or_else task "";
  content = [];
  status = child_running;
  tool_calls = [];
  expanded = false;
  transcript = [];
  transcript_truncated = false;
  details = none;
  error = none;
  usage = none;
}

unfoldable pub apply_subagent_start :
    List StreamingBlock → String → Target → String → Option String → List StreamingBlock
apply_subagent_start blocks id target agent_name task =
    if any (is_target target) blocks
    then blocks
    else map collapse_thinking blocks ++ subagent (started id target agent_name task) ∷ []

abbrev pub transcript_of : SubagentBlock → SubagentTranscript
transcript_of s = record { entries = s.transcript; truncated = s.transcript_truncated }

-- A transcript that was cut stays marked.
abbrev pub with_transcript :
    SubagentBlock → (SubagentTranscript → SubagentTranscript) → SubagentBlock
with_transcript s change =
    let next = change (transcript_of s) in
    record s {
      transcript = next.entries;
      transcript_truncated = next.truncated || s.transcript_truncated;
    }

unfoldable pub apply_subagent_delta : List StreamingBlock → Target → Text → List StreamingBlock
unfolding append_transcript_text
apply_subagent_delta blocks target content =
    map
      (on_child target λ s. record (with_transcript s λ t. append_transcript_text t content) {
        content = s.content ++ content;
      })
      blocks

unfoldable pub apply_subagent_tool_call :
    List StreamingBlock → Target → String → Option Text → List StreamingBlock
unfolding append_transcript_tool_call
apply_subagent_tool_call blocks target name label =
    map
      (on_child target λ s.
        record (with_transcript s λ t. append_transcript_tool_call t name label) {
          tool_calls = s.tool_calls ++ record { name = name; success = none } ∷ [];
        })
      blocks

-- The verdict on the last call, if it has the name.
abbrev pub settle_last_call : List ChildCall → String → Bool → List ChildCall
settle_last_call [] name success = []
settle_last_call (c ∷ []) name success =
    if str_eq c.name name then record c { success = some success } ∷ [] else c ∷ []
settle_last_call (c ∷ d ∷ calls) name success = c ∷ settle_last_call (d ∷ calls) name success

unfoldable pub apply_subagent_tool_result :
    List StreamingBlock → Target → String → Bool → List StreamingBlock
unfolding settle_transcript_tool_call
apply_subagent_tool_result blocks target name success =
    map
      (on_child target λ s.
        record (with_transcript s λ t. settle_transcript_tool_call t name success) {
          tool_calls = settle_last_call s.tool_calls name success;
        })
      blocks

-- The status that a done frame carries is never running.
pub data EndStatus : Type 0 where
  end_completed end_failed end_stopped : EndStatus

abbrev pub of_end : EndStatus → SubagentStatus
of_end end_completed = child_completed
of_end end_failed = child_failed
of_end end_stopped = child_stopped

pub record SubagentDonePayload : Type 0 where
  pub success : Option Bool
  pub status : Option EndStatus
  pub details : Option String
  pub error : Option String
  pub usage : Option String

abbrev is_false : Option Bool → Bool
is_false (some false) = true
is_false _ = false

abbrev pub done_status : SubagentDonePayload → SubagentStatus
done_status p = of_end (or_else p.status (if is_false p.success then end_failed else end_completed))

unfoldable pub apply_subagent_done :
    List StreamingBlock → Target → SubagentDonePayload → List StreamingBlock
apply_subagent_done blocks target p =
    map
      (on_child target λ s. record s {
        status = done_status p;
        expanded = false;
        details = if_given p.details s.details;
        error = truthy_or p.error s.error;
        usage = if_given p.usage s.usage;
      })
      blocks
