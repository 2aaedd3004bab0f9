-- ===== src/Chat/Blocks.antt =====
-- The blocks of a turn that is being streamed. Texts that are cut, joined or tested are lists of code
-- units; ids, names and JSON that is only stored are strings.
use agent_studio.Shared.{
  ℕ, String, Bool, false, Option, none, some, List, [], ◌∷◌, str_eq, not, if◌then◌else◌,
}
use agent_studio.Shared.Text.{Text}
use agent_studio.Chat.Transcript.{TranscriptEntry}

pub data ToolStatus : Type 0 where
  pending approved executing completed failed denied : ToolStatus

pub data BackgroundShellStatus : Type 0 where
  shell_running shell_completed shell_failed shell_stopped ended_with_turn : BackgroundShellStatus

pub record ShellDetails : Type 0 where
  pub tool : String
  pub command : Option String
  pub description : Option String
  pub stdout : Text
  pub stderr : Text
  pub interrupted : Bool
  pub background_task_id : Option String
  pub timed_out_after_ms : Option ℕ
  pub persisted_output_path : Option String
  pub truncated : Bool
  pub exit_code : Option ℕ
  pub return_code_interpretation : Option String
  pub background : Option BackgroundShellStatus

-- The details of the other tools are only stored.
pub data ToolResultDetails : Type 0 where
  shell : ShellDetails → ToolResultDetails
  other_details : String → ToolResultDetails

pub record TextBlock : Type 0 where
  pub id : String
  pub content : Text

pub record ToolBlock : Type 0 where
  pub id : String
  pub name : String
  pub arguments : String
  pub status : ToolStatus
  pub result : Option String
  pub execution_ms : Option ℕ
  pub expanded : Bool
  pub token : Option String
  pub elapsed_seconds : Option ℕ
  pub details : Option ToolResultDetails
  pub shell_streamed : Option ℕ

pub record ThinkingBlock : Type 0 where
  pub id : String
  pub content : Text
  pub reasoning_tokens : Option ℕ
  pub expanded : Bool

pub data SubagentStatus : Type 0 where
  child_running child_completed child_failed child_stopped : SubagentStatus

pub record ChildCall : Type 0 where
  pub name : String
  pub success : Option Bool

pub record SubagentBlock : Type 0 where
  pub id : String
  pub agent_id : String
  pub agent_name : String
  pub conversation_id : Option String
  pub task : String
  pub content : Text
  pub status : SubagentStatus
  pub tool_calls : List ChildCall
  pub expanded : Bool
  pub transcript : List TranscriptEntry
  pub transcript_truncated : Bool
  pub details : Option String
  pub error : Option String
  pub usage : Option String

pub record RunNotice : Type 0 where
  pub persist : Bool
  pub body : String

pub record NoticeBlock : Type 0 where
  pub id : String
  pub notice : RunNotice

pub data StreamingBlock : Type 0 where
  text : TextBlock → StreamingBlock
  tool : ToolBlock → StreamingBlock
  thinking : ThinkingBlock → StreamingBlock
  subagent : SubagentBlock → StreamingBlock
  notice : NoticeBlock → StreamingBlock

-- A change of the blocks of one kind.
abbrev pub on_tools : (ToolBlock → ToolBlock) → StreamingBlock → StreamingBlock
on_tools f (tool t) = tool (f t)
on_tools f b = b

abbrev pub on_thinking : (ThinkingBlock → ThinkingBlock) → StreamingBlock → StreamingBlock
on_thinking f (thinking t) = thinking (f t)
on_thinking f b = b

abbrev pub on_texts : (TextBlock → TextBlock) → StreamingBlock → StreamingBlock
on_texts f (text t) = text (f t)
on_texts f b = b

-- What is new on top collapses the cards before it.
abbrev pub collapse_tool : StreamingBlock → StreamingBlock
collapse_tool = on_tools λ t. record t { expanded = false }

abbrev pub collapse_thinking : StreamingBlock → StreamingBlock
collapse_thinking = on_thinking λ t. record t { expanded = false }

abbrev pub collapse : StreamingBlock → StreamingBlock
collapse b = collapse_tool (collapse_thinking b)

-- `b.kind === 'tool' && b.id === id`.
abbrev pub is_tool : String → StreamingBlock → Bool
is_tool id (tool t) = str_eq t.id id
is_tool id b = false

-- `...(x ? { field: x } : {})`, and for texts, where the empty one is dropped too.
abbrev pub if_given {ℓ} : {A : Type ℓ} → Option A → Option A → Option A
if_given none old = old
if_given (some new) old = some new

-- `!!s` on a text that may be missing, and `x ? x : undefined`.
abbrev pub is_truthy : Option String → Bool
is_truthy none = false
is_truthy (some s) = not (str_eq s "")

abbrev pub truthy_or : Option String → Option String → Option String
truthy_or new old = if is_truthy new then new else old

-- `findIndex`, with the block found, and a change of that block.
unfoldable pub find_first : (StreamingBlock → Bool) → List StreamingBlock → Option StreamingBlock
find_first p [] = none
find_first p (b ∷ blocks) = let rest = find_first p blocks in if p b then some b else rest

unfoldable pub on_first :
    (StreamingBlock → Bool) → (ToolBlock → ToolBlock) → List StreamingBlock → List StreamingBlock
on_first p f [] = []
on_first p f (b ∷ blocks) =
    let rest = on_first p f blocks in if p b then on_tools f b ∷ blocks else b ∷ rest
