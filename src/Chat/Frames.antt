-- ===== src/Chat/Frames.antt =====
-- The frames of a turn in any order: what each does to the blocks.
use agent_studio.Shared.{ℕ, String, Bool, Option, List, []}
use agent_studio.Shared.Text.{Text}
use agent_studio.Chat.Blocks.{RunNotice, StreamingBlock}
use agent_studio.Chat.Tools.{
  CallPayload, ResultPayload, apply_notice, apply_tool_progress, apply_tool_denied,
  apply_tool_pending, apply_tool_call, apply_tool_result, apply_ask_user, apply_ask_user_answered,
}
use agent_studio.Chat.Shell.{OutputPayload, apply_shell_output, DonePayload, apply_shell_task_done}
use agent_studio.Chat.Children.{
  Target, SubagentDonePayload, apply_subagent_start, apply_subagent_delta, apply_subagent_tool_call,
  apply_subagent_tool_result, apply_subagent_done,
}
use agent_studio.Chat.Deltas.{
  append_thinking, set_latest_reasoning_tokens, finalize_text, finalize_thinking, apply_delta_start,
}

pub data Step : List StreamingBlock → List StreamingBlock → Type 0 where
  delta_start : (bs : List StreamingBlock) (id : String) → Step bs (apply_delta_start bs id)
  reasoning :
      (bs : List StreamingBlock) (target content : Text) (id : String)
      → Step bs (append_thinking bs target content id).0
  reasoning_tokens :
      (bs : List StreamingBlock) (tokens : Option ℕ)
      → Step bs (set_latest_reasoning_tokens bs tokens)
  text_done : (bs : List StreamingBlock) (target : Text) → Step bs (finalize_text bs target)
  thinking_done : (bs : List StreamingBlock) (target : Text) → Step bs (finalize_thinking bs target)
  run_notice :
      (bs : List StreamingBlock) (n : RunNotice) (id : String) → Step bs (apply_notice bs n id)
  tool_pending : (bs : List StreamingBlock) (p : CallPayload) → Step bs (apply_tool_pending bs p)
  tool_call : (bs : List StreamingBlock) (p : CallPayload) → Step bs (apply_tool_call bs p)
  tool_progress :
      (bs : List StreamingBlock) (id : String) (elapsed : ℕ)
      → Step bs (apply_tool_progress bs id elapsed)
  tool_denied : (bs : List StreamingBlock) (id : String) → Step bs (apply_tool_denied bs id)
  tool_result :
      (bs : List StreamingBlock) (p : ResultPayload) → Step bs (apply_tool_result bs p).blocks
  ask_user :
      (bs : List StreamingBlock) (id : String) (name token : Option String) (args : String)
      → Step bs (apply_ask_user bs id name token args)
  ask_user_answered :
      (bs : List StreamingBlock) (token answers : String)
      → Step bs (apply_ask_user_answered bs token answers)
  shell_output : (bs : List StreamingBlock) (p : OutputPayload) → Step bs (apply_shell_output bs p)
  shell_task_done :
      (bs : List StreamingBlock) (p : DonePayload) → Step bs (apply_shell_task_done bs p)
  subagent_start :
      (bs : List StreamingBlock) (id : String) (target : Target) (name : String)
      (task : Option String)
      → Step bs (apply_subagent_start bs id target name task)
  subagent_delta :
      (bs : List StreamingBlock) (target : Target) (content : Text)
      → Step bs (apply_subagent_delta bs target content)
  subagent_tool_call :
      (bs : List StreamingBlock) (target : Target) (name : String) (label : Option Text)
      → Step bs (apply_subagent_tool_call bs target name label)
  subagent_tool_result :
      (bs : List StreamingBlock) (target : Target) (name : String) (success : Bool)
      → Step bs (apply_subagent_tool_result bs target name success)
  subagent_done :
      (bs : List StreamingBlock) (target : Target) (p : SubagentDonePayload)
      → Step bs (apply_subagent_done bs target p)

-- A turn so far: any number of frames, from no block at all.
pub data Turn : List StreamingBlock → Type 0 where
  begun : Turn []
  then_frame : (bs cs : List StreamingBlock) → Turn bs → Step bs cs → Turn cs
