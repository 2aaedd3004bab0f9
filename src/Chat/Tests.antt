-- ===== src/Chat/Tests.antt =====
-- A turn with a background command, a child and a question, and the theorems at it.
use agent_studio.Shared.{
  ℕ, true, false, none, some, List, [], ◌∷◌, ◌≡◌, refl, arith, get_elem?, All, length,
}
use agent_studio.Shared.Text.{Text, units}
use agent_studio.Chat.Blocks.{
  executing, shell_running, shell_completed, ShellDetails, shell, ToolBlock, StreamingBlock, text,
  tool,
}
use agent_studio.Chat.Tools.{ResultPayload, apply_tool_result}
use agent_studio.Chat.Shell.{OutputPayload, DonePayload}
use agent_studio.Chat.Children.{Target, apply_subagent_start, apply_subagent_delta}
use agent_studio.Chat.Drafts.{user_role, assistant_role, Message, Pending}
use agent_studio.Chat.Saving.{get_serializable_blocks_for_metadata}
use agent_studio.Chat.Saved.{
  IsOver, calls_of, saved_calls_of, get_serializable_blocks_for_metadata-IsOver,
}
use agent_studio.Chat.Replay.{apply_tool_result_replayed}
use agent_studio.Chat.Metadata.{
  string_json, bool_json, object_json, no_fields, field, read_turn_join, read_tail_uuid,
  has_pending_cut,
}
use agent_studio.Chat.Plan.{
  from_user, from_assistant, HistoryRow, is_slash_command, unanswered_tail, fork, TurnAttempt,
  ResumeInput,
}
use agent_studio.Chat.Resume.{Ran, threw, returned}
use agent_studio.Chat.Tail.{tail}
use agent_studio.Chat.Output.{HasOutput, deliver, apply_shell_output-HasOutput}
use agent_studio.Chat.Frames.{begun, then_frame, subagent_start, subagent_delta}
use agent_studio.Chat.Keeping.{HasCaps}
use agent_studio.Chat.Bounded.{Turn-All}

abbrev output : Text
output = units "one two three"

abbrev build_shell : ShellDetails
build_shell = record {
  tool = "Bash";
  command = some "make";
  description = none;
  stdout = [];
  stderr = [];
  interrupted = false;
  background_task_id = some "t1";
  timed_out_after_ms = none;
  persisted_output_path = none;
  truncated = false;
  exit_code = none;
  return_code_interpretation = none;
  background = some shell_running;
}

abbrev build_call : ToolBlock
build_call = record {
  id = "c1";
  name = "Bash";
  arguments = "{}";
  status = executing;
  result = none;
  execution_ms = none;
  expanded = true;
  token = none;
  elapsed_seconds = none;
  details = some (shell build_shell);
  shell_streamed = none;
}

abbrev asked : ToolBlock
asked = record build_call {
  id = "token-7";
  name = "ask_user";
  token = some "token-7";
  details = none;
}

abbrev blocks : List StreamingBlock
blocks =
    text (record { id = "b1"; content = units "Building." }) ∷ tool build_call ∷ tool asked ∷ []

-- Live, then a checkpoint of the same, then the rest.
abbrev pieces : List (ℕ × ℕ)
pieces = (0, 4) ∷ (0, 8) ∷ (2, 6) ∷ (7, 13) ∷ []

abbrev answered : ResultPayload
answered = record {
  id = "toolu_1";
  name = some "ask_user";
  success = true;
  execution_ms = some 12;
  result = some "yes";
  details = none;
}

abbrev ended : DonePayload
ended = record {
  id = "c1";
  status = some shell_completed;
  exit_code = some 0;
  stdout = some output;
  truncated = false;
}

abbrev late_chunk : OutputPayload
late_chunk = record {
  id = "c1";
  chunk = units "late";
  reset = true;
  truncated = false;
  from = none;
  to = none;
}

abbrev scout : Target
scout = record { agent_id = "scout"; conversation_id = some "k" }

abbrev remote : List Message
remote =
    record {
      id = "m1";
      role = user_role;
      content = units "hi";
      created_at = 1000;
      sequence = some 1;
      optimistic = false;
    }
    ∷ record {
      id = "m2";
      role = assistant_role;
      content = units "hello";
      created_at = 2000;
      sequence = some 2;
      optimistic = false;
    }
    ∷ []

abbrev sent : List Pending
sent =
    record { id = "d1"; content = units "hi"; created_at = 900 }
    ∷ record { id = "d2"; content = units "more"; created_at = 5000 }
    ∷ []

abbrev drafted : List Pending
drafted =
    record { id = "m2"; content = units "hello"; created_at = 1900 }
    ∷ record { id = "d3"; content = units "And"; created_at = 5100 }
    ∷ []

shell_card : HasOutput "c1" output 0 build_call
unfolding tail
shell_card = (build_shell, refl, refl, refl, refl, refl, refl, omega arith)

-- The result of a question finds the card that was opened under its token.
question_answered :
    let r = apply_tool_result blocks answered in (r.missing ≡ false) × (length r.blocks ≡ 3)
unfolding apply_tool_result
question_answered = (refl, refl)

apply_shell_output-HasOutput_example :
    (u : ToolBlock) × (get_elem? (deliver "c1" output pieces blocks) 1 ≡ some (tool u))
    × HasOutput "c1" output 13 u
apply_shell_output-HasOutput_example =
    apply_shell_output-HasOutput "c1" output pieces blocks 1 0 build_call refl shell_card (
      omega arith,
      omega arith,
      (omega arith, omega arith, (omega arith, omega arith, (omega arith, omega arith, tt))),
    )

apply_tool_result_replayed_example :
    let once = (apply_tool_result blocks answered).blocks in
    ((apply_tool_result once answered).blocks ≡ once)
    × ((apply_tool_result once answered).missing ≡ false)
apply_tool_result_replayed_example = apply_tool_result_replayed blocks answered

abbrev started_blocks : List StreamingBlock
started_blocks = apply_subagent_start [] "s1" scout "Scout" none

abbrev spoken_blocks : List StreamingBlock
spoken_blocks = apply_subagent_delta started_blocks scout output

Turn-All_example : All HasCaps spoken_blocks
Turn-All_example = Turn-All spoken_blocks (
    then_frame started_blocks spoken_blocks
      (then_frame [] started_blocks begun (subagent_start [] "s1" scout "Scout" none))
      (subagent_delta started_blocks scout output))

get_serializable_blocks_for_metadata-IsOver_example :
    let saved = get_serializable_blocks_for_metadata blocks in
    All IsOver saved × (saved_calls_of saved ≡ calls_of blocks)
get_serializable_blocks_for_metadata-IsOver_example =
    get_serializable_blocks_for_metadata-IsOver blocks

metadata_read :
    let metadata = some (
      object_json (
        field "sdkTailUuid"
          (string_json "tail-3")
          (field "sdkCutPending" (bool_json true) no_fields))) in
    (read_tail_uuid metadata ≡ some "tail-3")
    × (has_pending_cut metadata ≡ true)
    × (read_turn_join metadata ≡ none)
unfolding read_tail_uuid has_pending_cut read_turn_join
metadata_read = (refl, refl, refl)

commands :
    (is_slash_command (units "  /compact") ≡ true) × (is_slash_command (units "see /etc") ≡ false)
unfolding is_slash_command
commands = (refl, refl)

abbrev question : HistoryRow
question = record { role = from_user; content = units "Which?" }

abbrev reply : HistoryRow
reply = record { role = from_assistant; content = units "This one." }

one_unanswered : unanswered_tail (question ∷ reply ∷ question ∷ []) ≡ question ∷ []
unfolding unanswered_tail
one_unanswered = refl

abbrev edited : ResumeInput
edited = record {
  cut = true;
  sdk_session_id = some "s1";
  previous_assistant = some (record { sdk_session_id = some "s1"; sdk_tail_uuid = some "tail-3" });
  kept_history = question ∷ reply ∷ question ∷ [];
  unanswered = question ∷ [];
}

-- The cut is refused; the new session answers.
abbrev run : TurnAttempt → Ran
run a = elim a.kind [
  | fork ↦ threw (units "Failed to resume session s1")
  | _ ↦ returned (record { error = none; said = units "Done."; blocks = [] })
]

abbrev turns : List Text
turns = units "User: a" ∷ units "Assistant: bb" ∷ units "User: ccc" ∷ []
