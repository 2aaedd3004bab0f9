-- ===== src/Chat/Resuming.antt =====
-- How a turn that follows an edit is resumed.
use agent_studio.Shared.{String, true, none, List, [], ◌∷◌, ◌≡◌, ◌⊎◌}
use agent_studio.Chat.Plan.{
  fresh, TurnAttempt, ResumeInput, build_history_preamble, build_unanswered_preamble, can_fork,
  tail_of, resolve_turn_resume,
}
use agent_studio.Chat.Resume.{Ran, was_refused, run_with_resume_fallback}

-- An attempt that does not resume what was cut: a new session with the preamble of the kept history, or
-- the session up to the tail of the previous reply, with the preamble of what came after it.
abbrev pub SeesKept : ResumeInput → TurnAttempt → Type 0
SeesKept input a =
    ((a.resume_session_id ≡ none) × (a.preamble ≡ build_history_preamble input.kept_history))
    ⊎ ((can_fork input.sdk_session_id input.previous_assistant ≡ true)
        × (a.resume_session_id ≡ input.sdk_session_id)
        × (a.resume_session_at ≡ tail_of input.previous_assistant)
        × (a.preamble ≡ build_unanswered_preamble input.unanswered))

-- The attempts of a turn: one, or a second, in a new session, after a first whose outcome counts as a
-- refused resume.
abbrev pub IsTried : (TurnAttempt → Ran) → List TurnAttempt → Ran → Type 0
IsTried run [] result = ⊥
IsTried run (a ∷ []) result = result ≡ run a
IsTried run (a ∷ b ∷ []) result =
    (was_refused (run a) ≡ true)
    × (b.kind ≡ fresh)
    × (b.resume_session_id ≡ none)
    × (result ≡ run b)
IsTried run (a ∷ b ∷ c ∷ rest) result = ⊥

module _ (input : ResumeInput) (uuid next_uuid : String) (run : TurnAttempt → Ran) where
  abbrev pub tried : List TurnAttempt × Ran
  tried = run_with_resume_fallback (resolve_turn_resume input uuid next_uuid) run
