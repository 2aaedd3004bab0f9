-- ===== src/Chat/Transcript.antt =====
-- src/lib/engine/subagent-transcript.ts: the transcript of a delegated child, capped.
use agent_studio.Shared.{
  ℕ, ◌-◌, String, Bool, true, false, not, ◌&&◌, ◌||◌, Option, none, some, List, [], ◌∷◌, ◌++◌, ltb,
  leb, ◌==◌, ◌+◌, if◌then◌else◌, length, take, str_eq, is_some,
}
use agent_studio.Shared.Text.{Text}

abbrev pub max_transcript_entries : ℕ
max_transcript_entries = 200

abbrev pub max_transcript_chars : ℕ
max_transcript_chars = 20000

pub record ToolEntry : Type 0 where
  pub name : String
  pub label : Option Text
  pub success : Option Bool

pub data TranscriptEntry : Type 0 where
  text_entry : Text → TranscriptEntry
  tool_entry : ToolEntry → TranscriptEntry

pub record SubagentTranscript : Type 0 where
  pub entries : List TranscriptEntry
  pub truncated : Bool

abbrev pub empty_transcript : SubagentTranscript
empty_transcript = record { entries = []; truncated = false }

unfoldable pub text_length : List TranscriptEntry → ℕ
text_length [] = 0
text_length (text_entry s ∷ entries) = length s + text_length entries
text_length (tool_entry t ∷ entries) = text_length entries

-- The entries with a text joined to the last one, where that is a text.
unfoldable pub join_last : List TranscriptEntry → Text → Option (List TranscriptEntry)
join_last [] kept = none
join_last (text_entry s ∷ []) kept = some (text_entry (s ++ kept) ∷ [])
join_last (tool_entry t ∷ []) kept = none
join_last (e ∷ f ∷ entries) kept = elim (join_last (f ∷ entries) kept) [
  | none ↦ none
  | some joined ↦ some (e ∷ joined)
]

-- A new entry at the end, if there is room for one.
unfoldable pub push_entry : SubagentTranscript → TranscriptEntry → Bool → SubagentTranscript
push_entry transcript entry truncated =
    if leb max_transcript_entries (length transcript.entries)
    then record transcript { truncated = true }
    else record { entries = transcript.entries ++ entry ∷ []; truncated = truncated }

unfoldable pub append_kept : SubagentTranscript → Text → Bool → SubagentTranscript
unfolding join_last push_entry
append_kept transcript kept truncated = elim (join_last transcript.entries kept) [
  | some joined ↦ record { entries = joined; truncated = truncated }
  | none ↦ push_entry transcript (text_entry kept) truncated
]

unfoldable pub append_transcript_text : SubagentTranscript → Text → SubagentTranscript
unfolding text_length append_kept
append_transcript_text transcript s =
    let used = text_length transcript.entries in
    let room = max_transcript_chars - used in
    let kept = if ltb room (length s) then take room s else s in
    if length s == 0
    then transcript
    else if leb max_transcript_chars used
    then record transcript { truncated = true }
    else append_kept transcript kept (transcript.truncated || ltb (length kept) (length s))

-- `label ? { label } : {}`.
abbrev pub some_label : Option Text → Option Text
some_label none = none
some_label (some []) = none
some_label (some (c ∷ s)) = some (c ∷ s)

unfoldable pub append_transcript_tool_call :
    SubagentTranscript → String → Option Text → SubagentTranscript
unfolding push_entry
append_transcript_tool_call transcript name label =
    push_entry transcript
      (tool_entry (record { name = name; label = some_label label; success = none }))
      transcript.truncated

abbrev pub is_open_call : String → TranscriptEntry → Bool
is_open_call name (text_entry s) = false
is_open_call name (tool_entry t) = str_eq t.name name && not (is_some t.success)

abbrev pub settle_entry : Bool → TranscriptEntry → TranscriptEntry
settle_entry success (text_entry s) = text_entry s
settle_entry success (tool_entry t) = tool_entry (record t { success = some success })

-- The verdict on the last unsettled call of a name, none where there is no such call.
unfoldable pub settle_last : List TranscriptEntry → String → Bool → Option (List TranscriptEntry)
settle_last [] name success = none
settle_last (e ∷ entries) name success = elim (settle_last entries name success) [
  | some settled ↦ some (e ∷ settled)
  | none ↦ if is_open_call name e then some (settle_entry success e ∷ entries) else none
]

unfoldable pub settle_transcript_tool_call : SubagentTranscript → String → Bool → SubagentTranscript
unfolding settle_last
settle_transcript_tool_call transcript name success =
    elim (settle_last transcript.entries name success) [
      | none ↦ transcript
      | some settled ↦ record transcript { entries = settled }
    ]
