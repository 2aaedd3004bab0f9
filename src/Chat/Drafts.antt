-- ===== src/Chat/Drafts.antt =====
-- The messages on the page: those of the database, and drafts that the page shows until the database
-- has them. Of a message only what the code reads is kept; `trim` and `===` are on code units.
use agent_studio.Shared.{
  ℕ, ◌+◌, ◌-◌, String, Bool, true, false, not, ◌&&◌, Option, some, List, [], ◌∷◌, ◌++◌, any, filter,
  length, ltb, leb, or_else, str_eq, if◌then◌else◌,
}
use agent_studio.Shared.Text.{Text, text_eq, trim}

pub data Role : Type 0 where
  user_role assistant_role other_role : Role

-- A row of the database, or a draft as the page shows it.
pub record Message : Type 0 where
  pub id : String
  pub role : Role
  pub content : Text
  pub created_at : ℕ
  pub sequence : Option ℕ
  pub optimistic : Bool

pub record Pending : Type 0 where
  pub id : String
  pub content : Text
  pub created_at : ℕ

abbrev pub is_user : Role → Bool
is_user user_role = true
is_user _ = false

abbrev pub is_assistant : Role → Bool
is_assistant assistant_role = true
is_assistant _ = false

-- A row that holds what a draft says, from no more than 15 seconds before it on.
abbrev pub is_recent_match : Pending → Message → Bool
is_recent_match draft remote =
    text_eq remote.content draft.content && leb draft.created_at (remote.created_at + 15000)

abbrev pub confirms_user : Pending → Message → Bool
confirms_user draft remote = is_user remote.role && is_recent_match draft remote

abbrev pub unconfirmed_users : List Message → List Pending → List Pending
unconfirmed_users remote users = filter (λ draft. not (any (confirms_user draft) remote)) users

abbrev pub build_optimistic_user : ℕ → Pending → Message
build_optimistic_user sequence draft = record {
  id = draft.id;
  role = user_role;
  content = draft.content;
  created_at = draft.created_at;
  sequence = some sequence;
  optimistic = true;
}

abbrev pub build_pending_assistant : ℕ → Pending → Message
build_pending_assistant sequence draft = record {
  id = draft.id;
  role = assistant_role;
  content = draft.content;
  created_at = draft.created_at;
  sequence = some sequence;
  optimistic = false;
}

-- `map`, with `++pendingSeq` for each.
unfoldable pub number : (ℕ → Pending → Message) → ℕ → List Pending → List Message
number build last [] = []
number build last (draft ∷ drafts) = build (last + 1) draft ∷ number build (last + 1) drafts

abbrev pub has_id : String → Message → Bool
has_id id m = str_eq m.id id

abbrev pub sequence_of : Message → ℕ
sequence_of m = or_else m.sequence 0

-- The stable sort by sequence.
unfoldable pub insert_message : Message → List Message → List Message
insert_message m [] = m ∷ []
insert_message m (n ∷ ns) =
    let later = insert_message m ns in
    if leb (sequence_of m) (sequence_of n) then m ∷ n ∷ ns else n ∷ later

unfoldable pub sort_messages : List Message → List Message
unfolding insert_message
sort_messages [] = []
sort_messages (m ∷ ms) = insert_message m (sort_messages ms)

-- `Number.MAX_SAFE_INTEGER - 10000`.
abbrev pub first_pending : ℕ
first_pending = 9007199254740991 - 10000

unfoldable pub build_displayed_messages : List Message → List Pending → List Pending → List Message
unfolding number sort_messages
build_displayed_messages remote users assistants =
    let shown = unconfirmed_users remote users in
    let drafts = filter (λ draft. not (any (has_id draft.id) remote)) assistants in
    sort_messages (
      remote
      ++ (number build_optimistic_user first_pending shown
          ++ number build_pending_assistant (first_pending + length shown) drafts))

abbrev pub stale_draft_ms : ℕ
stale_draft_ms = 60000

-- Whether a draft of the assistant stays.
abbrev pub keeps_draft : List Message → ℕ → Pending → Bool
keeps_draft remote now draft =
    not (any (has_id draft.id) remote)
    && not (
        ltb 0 (length (trim draft.content))
        && any (λ m. is_assistant m.role && is_recent_match draft m) remote)
    && not (ltb (draft.created_at + stale_draft_ms) now)

-- The drafts of the assistant and of the user that stay.
unfoldable pub reconcile_pending_drafts :
    List Pending → List Pending → List Message → ℕ → List Pending × List Pending
reconcile_pending_drafts assistants users remote now =
    (filter (keeps_draft remote now) assistants, unconfirmed_users remote users)
