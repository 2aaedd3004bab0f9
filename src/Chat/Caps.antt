-- ===== src/Chat/Caps.antt =====
-- The caps of a child's transcript.
use agent_studio.Shared.{
  ℕ, suc, ◌+◌, ◌-◌, ◌≤◌, String, Bool, Option, none, some, List, [], ◌∷◌, ◌++◌, ◌≡◌, refl, ap,
  subst, arith, ltb, leb, ◌==◌, length, length-append, take, if◌then◌else◌, Bool-cases,
  Option-cases, inl, inr,
}
use agent_studio.Shared.Text.{Text}
use agent_studio.Chat.Transcript.{
  max_transcript_entries, max_transcript_chars, TranscriptEntry, text_entry, tool_entry,
  SubagentTranscript, text_length, join_last, push_entry, append_kept, append_transcript_text,
  append_transcript_tool_call, is_open_call, settle_entry, settle_last, settle_transcript_tool_call,
}
use agent_studio.Chat.Tail.{length-take}

abbrev pub IsCapped : List TranscriptEntry → Type 0
IsCapped entries =
    (length entries ≤ max_transcript_entries) × (text_length entries ≤ max_transcript_chars)

text_length-append :
    (xs ys : List TranscriptEntry) → text_length (xs ++ ys) ≡ text_length xs + text_length ys
unfolding text_length
text_length-append [] ys = omega arith
text_length-append (text_entry s ∷ xs) ys = omega (arith, text_length-append xs ys)
text_length-append (tool_entry t ∷ xs) ys = text_length-append xs ys

-- A text that joins the last entry adds its length and no entry.
abbrev SameBut : List TranscriptEntry → ℕ → Option (List TranscriptEntry) → Type 0
SameBut entries n none = Unit
SameBut entries n (some joined) =
    (length joined ≡ length entries) × (text_length joined ≡ text_length entries + n)

SameBut-cons :
    (e : TranscriptEntry) (entries joined : List TranscriptEntry) (n : ℕ)
    → SameBut entries n (some joined)
    → SameBut (e ∷ entries) n (some (e ∷ joined))
unfolding text_length
SameBut-cons (text_entry s) entries joined n (h, k) = (ap suc h, omega (arith, k))
SameBut-cons (tool_entry t) entries joined n (h, k) = (ap suc h, k)

join_last-SameBut :
    (entries : List TranscriptEntry) (kept : Text)
    → SameBut entries (length kept) (join_last entries kept)
unfolding join_last text_length
join_last-SameBut [] kept = tt
join_last-SameBut (text_entry s ∷ []) kept = (refl, omega (arith, length-append s kept))
join_last-SameBut (tool_entry t ∷ []) kept = tt
join_last-SameBut (e ∷ f ∷ entries) kept = elim (Option-cases (join_last (f ∷ entries) kept)) [
  | inl alone ↦ rw (alone, join_last) tt
  | inr (joined, found) ↦
      rw (found, join_last)
        (SameBut-cons e (f ∷ entries) joined (length kept) (
          subst (SameBut (f ∷ entries) (length kept)) found (join_last-SameBut (f ∷ entries) kept)))
]

push_entry-IsCapped :
    (transcript : SubagentTranscript) (e : TranscriptEntry) (cut : Bool)
    → IsCapped transcript.entries
    → text_length transcript.entries + text_length (e ∷ []) ≤ max_transcript_chars
    → IsCapped (push_entry transcript e cut).entries
unfolding push_entry
push_entry-IsCapped transcript e cut (h, k) fits =
    elim (Bool-cases (leb max_transcript_entries (length transcript.entries))) [
      | inl full ↦ rw (full, push_entry) (h, k)
      | inr room ↦
          rw (room, push_entry)
            (
              ground (arith, room, length-append transcript.entries (e ∷ [])),
              omega (arith, fits, text_length-append transcript.entries (e ∷ [])),
            )
    ]

append_kept-IsCapped :
    (transcript : SubagentTranscript) (kept : Text) (cut : Bool)
    → IsCapped transcript.entries
    → text_length transcript.entries + length kept ≤ max_transcript_chars
    → IsCapped (append_kept transcript kept cut).entries
unfolding append_kept
append_kept-IsCapped transcript kept cut (h, k) fits =
    elim (Option-cases (join_last transcript.entries kept)) [
      | inl alone ↦
          rw (alone, append_kept)
            (push_entry-IsCapped transcript (text_entry kept) cut (h, k)
              (unfold text_length in omega (arith, fits)))
      | inr (joined, found) ↦
          let (a, b) =
            subst (SameBut transcript.entries (length kept)) found
              (join_last-SameBut transcript.entries kept) in
          rw (found, append_kept) (omega (arith, h, a), omega (arith, fits, b))
    ]

abbrev cut_to : ℕ → Text → Text
cut_to room s = if ltb room (length s) then take room s else s

cut_to_fits : (room : ℕ) (s : Text) → length (cut_to room s) ≤ room
cut_to_fits room s = elim (Bool-cases (ltb room (length s))) [
  | inl long ↦ rw long (omega (arith, length-take room s (ground (arith, long))))
  | inr short ↦ rw short (ground (arith, short))
]

pub append_transcript_text-IsCapped :
    (transcript : SubagentTranscript) (s : Text)
    → IsCapped transcript.entries
    → IsCapped (append_transcript_text transcript s).entries
unfolding append_transcript_text
append_transcript_text-IsCapped transcript s (h, k) =
    let used : ℕ = text_length transcript.entries in
    let room : ℕ = max_transcript_chars - used in
    elim (Bool-cases (length s == 0)) [
      | inl empty ↦ rw (empty, append_transcript_text) (h, k)
      | inr given ↦ elim (Bool-cases (leb max_transcript_chars used)) [
        | inl full ↦ rw (given, append_transcript_text) (rw full (h, k))
        | inr free ↦
            rw (given, append_transcript_text)
              (rw free (
                append_kept-IsCapped transcript (cut_to room s) _ (h, k)
                  (ground (arith, cut_to_fits room s, free))))
      ]
    ]

pub append_transcript_tool_call-IsCapped :
    (transcript : SubagentTranscript) (name : String) (label : Option Text)
    → IsCapped transcript.entries
    → IsCapped (append_transcript_tool_call transcript name label).entries
unfolding append_transcript_tool_call text_length
append_transcript_tool_call-IsCapped transcript name label h =
    push_entry-IsCapped transcript _ transcript.truncated h (omega (arith, h.1))

settle_entry_length :
    (success : Bool) (e : TranscriptEntry) (entries : List TranscriptEntry)
    → text_length (settle_entry success e ∷ entries) ≡ text_length (e ∷ entries)
unfolding text_length
settle_entry_length success (text_entry s) entries = refl
settle_entry_length success (tool_entry t) entries = refl

settle_last-SameBut :
    (entries : List TranscriptEntry) (name : String) (success : Bool)
    → SameBut entries 0 (settle_last entries name success)
unfolding settle_last
settle_last-SameBut [] name success = tt
settle_last-SameBut (e ∷ entries) name success =
    elim (Option-cases (settle_last entries name success)) [
      | inr (settled, found) ↦
          rw (found, settle_last)
            (SameBut-cons e entries settled 0
              (subst (SameBut entries 0) found (settle_last-SameBut entries name success)))
      | inl none_later ↦ elim (Bool-cases (is_open_call name e)) [
        | inl here ↦
            rw (none_later, settle_last)
              (rw here (refl, omega (arith, settle_entry_length success e entries)))
        | inr other ↦ rw (none_later, settle_last) (rw other tt)
      ]
    ]

pub settle_transcript_tool_call-IsCapped :
    (transcript : SubagentTranscript) (name : String) (success : Bool)
    → IsCapped transcript.entries
    → IsCapped (settle_transcript_tool_call transcript name success).entries
unfolding settle_transcript_tool_call
settle_transcript_tool_call-IsCapped transcript name success (h, k) =
    elim (Option-cases (settle_last transcript.entries name success)) [
      | inl absent ↦ rw (absent, settle_transcript_tool_call) (h, k)
      | inr (settled, found) ↦
          let (a, b) =
            subst (SameBut transcript.entries 0) found
              (settle_last-SameBut transcript.entries name success) in
          rw (found, settle_transcript_tool_call) (omega (arith, h, a), omega (arith, k, b))
    ]
