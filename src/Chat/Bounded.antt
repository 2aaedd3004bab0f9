-- ===== src/Chat/Bounded.antt =====
-- No frame makes the transcript of a child longer than its caps.
use agent_studio.Shared.{
  ℕ, String, ◌||◌, Option, none, some, List, [], arith, map, any, All, length, ltb, ◌==◌, str_eq,
  if◌then◌else◌, Bool-cases, Option-cases, inl, inr,
}
use agent_studio.Shared.Text.{Text}
use agent_studio.Chat.Transcript.{text_length}
use agent_studio.Chat.Blocks.{
  ToolBlock, StreamingBlock, tool, thinking, subagent, collapse, collapse_tool, collapse_thinking,
  is_tool, on_tools, find_first,
}
use agent_studio.Chat.Tools.{
  ResultPayload, orphan, is_waiting_card, ask_user_card, result_by_id, apply_notice,
  apply_tool_progress, apply_tool_denied, apply_tool_pending, apply_tool_call, apply_tool_result,
  apply_ask_user, apply_ask_user_answered,
}
use agent_studio.Chat.Shell.{apply_shell_output, is_settled, apply_shell_task_done}
use agent_studio.Chat.Children.{
  is_target, transcript_of, started, apply_subagent_start, apply_subagent_delta,
  apply_subagent_tool_call, apply_subagent_tool_result, apply_subagent_done,
}
use agent_studio.Chat.Deltas.{
  last_block, expand, is_text, is_thinking, text_is, thinking_is, stamp_last, new_thinking,
  stamped_or, append_thinking, set_latest_reasoning_tokens, finalize_text, finalize_thinking,
  apply_delta_start,
}
use agent_studio.Chat.Frames.{
  Step, delta_start, reasoning, reasoning_tokens, text_done, thinking_done, run_notice,
  tool_pending, tool_call, tool_progress, tool_denied, tool_result, ask_user, ask_user_answered,
  shell_output, shell_task_done, subagent_start, subagent_delta, subagent_tool_call,
  subagent_tool_result, subagent_done, Turn, begun, then_frame,
}
use agent_studio.Chat.Caps.{
  IsCapped, append_transcript_text-IsCapped, append_transcript_tool_call-IsCapped,
  settle_transcript_tool_call-IsCapped,
}
use agent_studio.Chat.Keeping.{
  HasCaps, Keeps, All-map, on_tools-Keeps, on_thinking-Keeps, on_texts-Keeps, collapse-Keeps,
  on_child-Keeps, All-last, on_first-All, on_last-All, stamp_last-AllIf, stamped_or-All, if-All,
}

set_latest_reasoning_tokens-All :
    (bs : List StreamingBlock) (tokens : Option ℕ)
    → All HasCaps bs
    → All HasCaps (set_latest_reasoning_tokens bs tokens)
unfolding set_latest_reasoning_tokens
set_latest_reasoning_tokens-All bs none h = h
set_latest_reasoning_tokens-All bs (some n) h =
    if-All (ltb 0 n) (stamped_or bs (stamp_last bs n)) bs
      (stamped_or-All bs (stamp_last bs n) h (stamp_last-AllIf bs n h)) h

append_thinking-All :
    (bs : List StreamingBlock) (target content : Text) (id : String)
    → All HasCaps bs
    → All HasCaps (append_thinking bs target content id).0
unfolding append_thinking
append_thinking-All bs target content id h = elim (Bool-cases (length content == 0)) [
  | inl empty ↦ rw (empty, append_thinking) h
  | inr given ↦ elim (Bool-cases (is_thinking (last_block bs))) [
    | inl there ↦
        rw (given, append_thinking) (rw there (on_last-All expand bs (on_thinking-Keeps _) h))
    | inr absent ↦
        rw (given, append_thinking) (rw absent (All-last bs (thinking (new_thinking id)) h tt))
  ]
]

result_by_id-All :
    (bs : List StreamingBlock) (p : ResultPayload)
    → All HasCaps bs
    → All HasCaps (result_by_id bs p).blocks
unfolding result_by_id
result_by_id-All bs p h = elim (Option-cases (find_first (is_tool p.id) bs)) [
  | inl absent ↦
      rw (absent, result_by_id)
        (All-last (map collapse bs) (tool (orphan p)) (All-map collapse bs collapse-Keeps h) tt)
  | inr (b, e) ↦ rw (e, result_by_id) (on_first-All (is_tool p.id) _ bs h)
]

apply_tool_result-All :
    (bs : List StreamingBlock) (p : ResultPayload)
    → All HasCaps bs
    → All HasCaps (apply_tool_result bs p).blocks
unfolding apply_tool_result
apply_tool_result-All bs p h = elim (Option-cases (ask_user_card bs p)) [
  | inl no_card ↦ rw (no_card, apply_tool_result) (result_by_id-All bs p h)
  | inr (card, e) ↦ rw (e, apply_tool_result) (on_first-All is_waiting_card _ bs h)
]

called-Keeps :
    (id : String) (f : ToolBlock → ToolBlock)
    → Keeps (λ b. if is_tool id b then on_tools f b else collapse b)
called-Keeps id f b h = elim (Bool-cases (is_tool id b)) [
  | inl its ↦ rw its (on_tools-Keeps f b h)
  | inr other ↦ rw other (collapse-Keeps b h)
]

empty-IsCapped : IsCapped []
unfolding text_length
empty-IsCapped = (omega arith, omega arith)

-- One frame keeps the caps.
Step-All : (bs cs : List StreamingBlock) → Step bs cs → All HasCaps bs → All HasCaps cs
unfolding apply_delta_start finalize_text finalize_thinking apply_notice apply_tool_pending
    apply_tool_call apply_tool_progress apply_tool_denied apply_ask_user apply_ask_user_answered
    apply_shell_output apply_shell_task_done apply_subagent_start apply_subagent_delta
    apply_subagent_tool_call apply_subagent_tool_result apply_subagent_done
Step-All bs _ (delta_start _ id) h =
    if-All (is_text (last_block bs)) bs _ h
      (All-last _ _ (All-map collapse_tool bs (on_tools-Keeps _) h) tt)
Step-All bs _ (reasoning _ target content id) h = append_thinking-All bs target content id h
Step-All bs _ (reasoning_tokens _ tokens) h = set_latest_reasoning_tokens-All bs tokens h
Step-All bs _ (text_done _ target) h =
    if-All (length target == 0) bs _ h (on_last-All (text_is target) bs (on_texts-Keeps _) h)
Step-All bs _ (thinking_done _ target) h =
    if-All (length target == 0) bs _ h (on_last-All (thinking_is target) bs (on_thinking-Keeps _) h)
Step-All bs _ (run_notice _ n id) h =
    All-last (map collapse bs) _ (All-map collapse bs collapse-Keeps h) tt
Step-All bs _ (tool_pending _ p) h =
    All-last (map collapse bs) _ (All-map collapse bs collapse-Keeps h) tt
Step-All bs _ (tool_call _ p) h =
    if-All (any (is_tool p.id) bs) _ _ (All-map _ bs (called-Keeps p.id _) h)
      (All-last _ _ (All-map collapse bs collapse-Keeps h) tt)
Step-All bs _ (tool_progress _ id elapsed) h = All-map _ bs (on_tools-Keeps _) h
Step-All bs _ (tool_denied _ id) h = All-map _ bs (on_tools-Keeps _) h
Step-All bs _ (tool_result _ p) h = apply_tool_result-All bs p h
Step-All bs _ (ask_user _ id name token args) h =
    let k = All-map collapse_thinking bs (on_thinking-Keeps _) h in
    if-All (str_eq id "" || any (is_tool id) (map collapse_thinking bs)) _ _ k
      (All-last _ _ (All-map collapse_tool (map collapse_thinking bs) (on_tools-Keeps _) k) tt)
Step-All bs _ (ask_user_answered _ token answers) h = All-map _ bs (on_tools-Keeps _) h
Step-All bs _ (shell_output _ p) h = All-map _ bs (on_tools-Keeps _) h
Step-All bs _ (shell_task_done _ p) h =
    if-All (is_settled p.status) _ bs (All-map _ bs (on_tools-Keeps _) h) h
Step-All bs _ (subagent_start _ id target name task) h = if-All (any (is_target target) bs) bs _ h (
    All-last _ (subagent (started id target name task))
      (All-map collapse_thinking bs (on_thinking-Keeps _) h) empty-IsCapped)
Step-All bs _ (subagent_delta _ target content) h =
    All-map _ bs
      (on_child-Keeps target _ (λ s k. append_transcript_text-IsCapped (transcript_of s) content k))
      h
Step-All bs _ (subagent_tool_call _ target name label) h =
    All-map _ bs
      (on_child-Keeps target _
        (λ s k. append_transcript_tool_call-IsCapped (transcript_of s) name label k))
      h
Step-All bs _ (subagent_tool_result _ target name success) h =
    All-map _ bs
      (on_child-Keeps target _
        (λ s k. settle_transcript_tool_call-IsCapped (transcript_of s) name success k))
      h
Step-All bs _ (subagent_done _ target p) h = All-map _ bs (on_child-Keeps target _ (λ s k. k)) h

-- Whatever frames a turn has delivered, in whatever order, the transcript of every child has at most
-- 200 entries and at most 20,000 characters of text.
pub Turn-All : (bs : List StreamingBlock) → Turn bs → All HasCaps bs
Turn-All _ begun = tt
Turn-All _ (then_frame bs cs turn step) = Step-All bs cs step (Turn-All bs turn)
