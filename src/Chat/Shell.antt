-- ===== src/Chat/Shell.antt =====
-- The output of background commands: applyShellOutput, applyShellTaskDone, and appendStreamTail of
-- src/lib/engine/tool-result-details.ts.
use agent_studio.Shared.{
  ℕ, ◌+◌, ◌-◌, String, Bool, true, false, not, ◌&&◌, ◌||◌, Option, none, some, List, [], ◌++◌, map,
  ltb, leb, length, drop, or_else, str_eq, is_some, if◌then◌else◌,
}
use agent_studio.Shared.Text.{Text}
use agent_studio.Chat.Blocks.{
  BackgroundShellStatus, shell_running, ShellDetails, ToolResultDetails, shell, ToolBlock,
  StreamingBlock, on_tools, if_given,
}

abbrev pub max_stream_chars : ℕ
max_stream_chars = 16000

pub record Clipped : Type 0 where
  pub text : Text
  pub truncated : Bool

unfoldable pub clip_tail : Text → Clipped
clip_tail s =
    if leb (length s) max_stream_chars
    then record { text = s; truncated = false }
    else record { text = drop (length s - max_stream_chars) s; truncated = true }

unfoldable pub append_stream_tail : Text → Text → Clipped
unfolding clip_tail
append_stream_tail current chunk = clip_tail (current ++ chunk)

pub record OutputPayload : Type 0 where
  pub id : String
  pub chunk : Text
  pub reset : Bool
  pub truncated : Bool
  pub from : Option ℕ
  pub to : Option ℕ

-- A status after which a card takes no more output.
abbrev pub is_settled : Option BackgroundShellStatus → Bool
is_settled none = false
is_settled (some shell_running) = false
is_settled (some _) = true

-- Where a chunk starts and ends, in characters since the last reset.
abbrev pub chunk_end : OutputPayload → ℕ → ℕ
chunk_end p have = or_else p.to ((if p.reset then 0 else have) + length p.chunk)

abbrev pub chunk_start : OutputPayload → ℕ → ℕ
chunk_start p have = or_else p.from (chunk_end p have - length p.chunk)

-- The part of a chunk that a card does not have.
abbrev pub added_part : OutputPayload → ℕ → Text
added_part p have =
    if p.reset || ltb have (chunk_start p have)
    then p.chunk
    else drop (length p.chunk - (chunk_end p have - have)) p.chunk

unfoldable pub take_output : OutputPayload → ToolBlock → ShellDetails → ToolBlock
unfolding append_stream_tail
take_output p t d =
    let have = or_else t.shell_streamed 0 in
    let gap = not p.reset && ltb have (chunk_start p have) in
    let next = append_stream_tail (if p.reset then [] else d.stdout) (added_part p have) in
    if is_settled d.background || (not p.reset && leb (chunk_end p have) have)
    then t
    else record t {
      shell_streamed = some (chunk_end p have);
      details = some (
          shell (record d {
            stdout = next.text;
            truncated = next.truncated || gap || p.truncated || (not p.reset && d.truncated);
            background = some shell_running;
          }));
    }

-- A change of a call that has the details of a shell.
abbrev pub on_shell :
    (ToolBlock → ShellDetails → ToolBlock) → ToolBlock → Option ToolResultDetails → ToolBlock
on_shell f t (some (shell d)) = f t d
on_shell f t _ = t

abbrev pub output_to : OutputPayload → ToolBlock → ToolBlock
output_to p t = if str_eq t.id p.id then on_shell (take_output p) t t.details else t

unfoldable pub apply_shell_output : List StreamingBlock → OutputPayload → List StreamingBlock
unfolding take_output
apply_shell_output blocks p = map (on_tools (output_to p)) blocks

pub record DonePayload : Type 0 where
  pub id : String
  pub status : Option BackgroundShellStatus
  pub exit_code : Option ℕ
  pub stdout : Option Text
  pub truncated : Bool

abbrev pub ended_details : DonePayload → ShellDetails → ShellDetails
ended_details p d = record d {
  stdout = or_else p.stdout d.stdout;
  truncated = if is_some p.stdout then p.truncated else d.truncated;
  exit_code = if_given p.exit_code d.exit_code;
  background = p.status;
}

unfoldable pub finish_shell : DonePayload → ToolBlock → ShellDetails → ToolBlock
finish_shell p t d = record t { details = some (shell (ended_details p d)) }

abbrev pub done_to : DonePayload → ToolBlock → ToolBlock
done_to p t = if str_eq t.id p.id then on_shell (finish_shell p) t t.details else t

unfoldable pub apply_shell_task_done : List StreamingBlock → DonePayload → List StreamingBlock
unfolding finish_shell
apply_shell_task_done blocks p =
    if is_settled p.status then map (on_tools (done_to p)) blocks else blocks
