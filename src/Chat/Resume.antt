-- ===== src/Chat/Resume.antt =====
-- isResumeRefusal and runWithResumeFallback of src/lib/engine/turn-input.ts. `run` is a run of an
-- attempt; what is returned has the attempts that were run beside the result.
use agent_studio.Shared.{
  Bool, true, false, ◌&&◌, Option, none, some, List, [], ◌∷◌, all, any, if◌then◌else◌,
}
use agent_studio.Shared.Text.{Text, units, includes_text, to_lower}
use agent_studio.Chat.Saving.{has_no_text}
use agent_studio.Chat.Blocks.{StreamingBlock, notice}
use agent_studio.Chat.Plan.{TurnAttempt, TurnAttemptPlan}

abbrev refusals : List Text
refusals =
    units "no message found with message.uuid"
    ∷ units "resume rejected by --resume-drops-turn"
    ∷ units "failed to resume session"
    ∷ units "no conversation found with session id"
    ∷ []

unfoldable pub is_resume_refusal : Option Text → Bool
unfolding includes_text
is_resume_refusal none = false
is_resume_refusal (some error) = any (includes_text (to_lower error)) refusals

pub record AttemptOutcome : Type 0 where
  pub error : Option Text
  pub said : Text
  pub blocks : List StreamingBlock

pub data Ran : Type 0 where
  returned : AttemptOutcome → Ran
  threw : Text → Ran

abbrev is_notice : StreamingBlock → Bool
is_notice (notice n) = true
is_notice b = false

abbrev pub produced_nothing : AttemptOutcome → Bool
produced_nothing o = has_no_text o.said && all is_notice o.blocks

-- Whether the outcome of a run counts as a refused resume.
unfoldable pub was_refused : Ran → Bool
unfolding is_resume_refusal
was_refused (threw message) = is_resume_refusal (some message)
was_refused (returned o) = produced_nothing o && is_resume_refusal o.error

unfoldable pub run_with_resume_fallback :
    TurnAttemptPlan → (TurnAttempt → Ran) → List TurnAttempt × Ran
unfolding was_refused
run_with_resume_fallback plan run =
    let outcome = run plan.first in
    elim plan.fallback [
      | none ↦ (plan.first ∷ [], outcome)
      | some fallback ↦
          if was_refused outcome
          then (plan.first ∷ fallback ∷ [], run fallback)
          else (plan.first ∷ [], outcome)
    ]
