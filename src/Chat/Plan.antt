-- ===== src/Chat/Plan.antt =====
-- src/lib/chat/turn-plan.ts: how a turn starts its session, and what text goes in front of it.
use agent_studio.Shared.{
  ℕ, ◌+◌, String, Bool, true, false, not, ◌&&◌, ◌||◌, Option, none, some, List, [], ◌∷◌, ◌++◌, map,
  filter, length, take, ltb, leb, ◌==◌, opt_str_eq, if◌then◌else◌,
}
use mathlib.Core.List.{reverse}
use agent_studio.Shared.Text.{Text, units, trim, trim_start}
use agent_studio.Chat.Saving.{join_paragraphs, has_no_text}
use agent_studio.Chat.Blocks.{is_truthy}

unfoldable pub supports_file_checkpoints : Option String → Bool → Option String → Bool
supports_file_checkpoints persistent_key has_worktree project_id =
    is_truthy persistent_key || (not has_worktree && is_truthy project_id)

pub data RowRole : Type 0 where
  from_user from_assistant from_other : RowRole

pub record HistoryRow : Type 0 where
  pub role : RowRole
  pub content : Text

abbrev pub from_person : RowRole → Bool
from_person from_user = true
from_person _ = false

abbrev pub is_reply : RowRole → Bool
is_reply from_assistant = true
is_reply _ = false

abbrev pub preamble_max_chars : ℕ
preamble_max_chars = 24000

abbrev pub preamble_row_max_chars : ℕ
preamble_row_max_chars = 4000

abbrev clip_row : Text → Text
clip_row s =
    if ltb preamble_row_max_chars (length s)
    then take preamble_row_max_chars s ++ units " […]"
    else s

abbrev pub is_turn : HistoryRow → Bool
is_turn row = (from_person row.role || is_reply row.role) && not (has_no_text row.content)

abbrev pub turn_text : HistoryRow → Text
turn_text row =
    (if from_person row.role then units "User: " else units "Assistant: ")
    ++ clip_row (trim row.content)

-- The turns that are kept, from the last on; `earlier` are those before, the latest first.
unfoldable pub keep_turns : ℕ → ℕ → List Text → List Text → List Text
keep_turns max_chars used kept [] = kept
keep_turns max_chars used kept (t ∷ earlier) =
    let more = keep_turns max_chars (used + length t) (t ∷ kept) earlier in
    if ltb max_chars (used + length t) && ltb 0 (length kept) then kept else more

abbrev pub kept_turns : ℕ → List Text → List Text
kept_turns max_chars turns = keep_turns max_chars 0 [] (reverse turns)

unfoldable pub format_turns : List HistoryRow → ℕ → Option Text
unfolding keep_turns join_paragraphs trim
format_turns rows max_chars =
    let turns = map turn_text (filter is_turn rows) in
    let kept = kept_turns max_chars turns in
    let omitted =
      if ltb (length kept) (length turns)
      then units "(Earlier messages omitted.)" ++ 10 ∷ 10 ∷ []
      else [] in
    if length turns == 0 then none else some (omitted ++ join_paragraphs kept)

-- A preamble: a heading, the turns, and an ending.
abbrev framed : Text → Text → Option Text → Option Text
framed heading ending none = none
framed heading ending (some turns) = some (heading ++ (10 ∷ 10 ∷ turns) ++ (10 ∷ 10 ∷ ending))

unfoldable pub build_history_preamble : List HistoryRow → Option Text
unfolding format_turns
build_history_preamble rows =
    framed
      (units
        "[Earlier in this conversation — restored as text because the session could not be rewound to this point.]")
      (units "[End of the earlier conversation. The message to answer follows.]")
      (format_turns rows preamble_max_chars)

unfoldable pub build_unanswered_preamble : List HistoryRow → Option Text
unfolding format_turns
build_unanswered_preamble rows =
    framed (units "[Earlier messages in this conversation that did not get a reply:]")
      (units "[End of the earlier messages. The message to answer follows.]")
      (format_turns (filter (λ row. from_person row.role) rows) preamble_max_chars)

-- The rows after the last reply.
unfoldable pub after_last_reply : List HistoryRow → Option (List HistoryRow)
after_last_reply [] = none
after_last_reply (row ∷ rows) = elim (after_last_reply rows) [
  | some later ↦ some later
  | none ↦ if is_reply row.role then some rows else none
]

abbrev from_reply : List HistoryRow → Option (List HistoryRow) → List HistoryRow
from_reply rows none = rows
from_reply rows (some later) = later

unfoldable pub unanswered_tail : List HistoryRow → List HistoryRow
unfolding after_last_reply
unanswered_tail rows =
    filter (λ row. from_person row.role) (from_reply rows (after_last_reply rows))

abbrev is_letter : ℕ → Bool
is_letter c = (leb b'A' c && leb c b'Z') || (leb b'a' c && leb c b'z')

abbrev starts_command : Text → Bool
starts_command (slash ∷ c ∷ rest) = slash == b'/' && is_letter c
starts_command _ = false

unfoldable pub is_slash_command : Text → Bool
unfolding trim_start
is_slash_command s = starts_command (trim_start s)

pub record ForkPoint : Type 0 where
  pub sdk_session_id : Option String
  pub sdk_tail_uuid : Option String

pub data AttemptKind : Type 0 where
  continue fork fresh : AttemptKind

pub record TurnAttempt : Type 0 where
  pub kind : AttemptKind
  pub resume_session_id : Option String
  pub resume_session_at : Option String
  pub preamble : Option Text
  pub sdk_user_uuid : String

pub record TurnAttemptPlan : Type 0 where
  pub first : TurnAttempt
  pub fallback : Option TurnAttempt

pub record ResumeInput : Type 0 where
  pub cut : Bool
  pub sdk_session_id : Option String
  pub previous_assistant : Option ForkPoint
  pub kept_history : List HistoryRow
  pub unanswered : List HistoryRow

abbrev pub given_id : Option String → Option String
given_id o = if is_truthy o then o else none

abbrev pub fresh_attempt : ResumeInput → String → TurnAttempt
fresh_attempt input uuid = record {
  kind = fresh;
  resume_session_id = none;
  resume_session_at = none;
  preamble = build_history_preamble input.kept_history;
  sdk_user_uuid = uuid;
}

-- Whether the previous reply belongs to the session and has a tail there.
abbrev pub can_fork : Option String → Option ForkPoint → Bool
can_fork session none = false
can_fork session (some point) =
    is_truthy session && is_truthy point.sdk_tail_uuid && opt_str_eq point.sdk_session_id session

abbrev pub tail_of : Option ForkPoint → Option String
tail_of none = none
tail_of (some point) = point.sdk_tail_uuid

abbrev pub forked_attempt : ResumeInput → String → TurnAttempt
forked_attempt input uuid = record {
  kind = fork;
  resume_session_id = input.sdk_session_id;
  resume_session_at = tail_of input.previous_assistant;
  preamble = build_unanswered_preamble input.unanswered;
  sdk_user_uuid = uuid;
}

-- The two ids are those that `mintUuid` gives first and second.
unfoldable pub resolve_turn_resume : ResumeInput → String → String → TurnAttemptPlan
unfolding build_history_preamble build_unanswered_preamble
resolve_turn_resume input uuid next_uuid =
    if not input.cut
    then record {
      first = record {
        kind = continue;
        resume_session_id = given_id input.sdk_session_id;
        resume_session_at = none;
        preamble = none;
        sdk_user_uuid = uuid;
      };
      fallback = none;
    }
    else if can_fork input.sdk_session_id input.previous_assistant
    then record {
      first = forked_attempt input uuid;
      fallback = some (fresh_attempt input next_uuid);
    }
    else record { first = fresh_attempt input uuid; fallback = none }
