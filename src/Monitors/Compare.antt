-- ===== src/Monitors/Compare.antt =====
-- src/lib/monitors/condition.ts: what an observation stores, and how it is compared. The lower case of
-- a text and regular expressions are the engine's: parameters.
use agent_studio.Shared.{
  ℕ, zero, suc, ◌+◌, ◌*◌, ◌%◌, ◌/◌, ◌^◌, Bool, false, not, Option, none, some, [], ◌∷◌, ◌++◌, ltb,
  if◌then◌else◌, or_else, take, length,
}
use Prim.Native.Nat.{bit_xor}
use agent_studio.Monitors.Text.{
  Text, units, text_eq, includes_text, normalize_scalar, is_empty_rendering,
}
use agent_studio.Monitors.Run.{MonitorObservation}

pub data MonitorCompare : Type 0 where
  changed equals not_equals contains not_contains matches not_empty : MonitorCompare

abbrev pub observation_max_chars : ℕ
observation_max_chars = 4000

-- `Math.imul(a, b) >>> 0`.
abbrev imul : ℕ → ℕ → ℕ
imul a b = a * b % 2 ^ 32

-- The two digests of the rest of a text from its i-th unit on.
unfoldable pub digests : ℕ → Text → ℕ → ℕ → ℕ × ℕ
digests i [] a b = (a, b)
digests i (c ∷ s) a b =
    digests (suc i) s (imul (bit_xor a c) 0x01000193) (imul (bit_xor b (c + i)) 0x85ebca6b)

-- A digit of `toString(16)`, and the last n digits, with zeros in front.
abbrev hex_digit : ℕ → ℕ
hex_digit d = if ltb d 10 then 48 + d else 87 + d

unfoldable pub hex_pad : ℕ → ℕ → Text
hex_pad zero a = []
hex_pad (suc n) a = hex_pad n (a / 16) ++ hex_digit (a % 16) ∷ []

unfoldable pub hash_value : Text → Text
unfolding digests hex_pad
hash_value input = let (a, b) = digests 0 input 0x811c9dc5 0xc2b2ae35 in hex_pad 8 a ++ hex_pad 8 b

-- A note that is kept: not an empty one, and cut.
abbrev kept_note : Option Text → Option Text
kept_note none = none
kept_note (some []) = none
kept_note (some (c ∷ s)) = some (take 500 (c ∷ s))

unfoldable pub observation_from_text : Text → Bool → Option Text → ℕ → MonitorObservation
unfolding hash_value
observation_from_text full met note now =
    let truncated = ltb observation_max_chars (length full) in
    record {
      value = if truncated then take observation_max_chars full ++ 0x2026 ∷ [] else full;
      hash = hash_value full;
      observed_at = now;
      met = met;
      truncated = truncated;
      note = kept_note note;
    }

pub record ComparisonResult : Type 0 where
  pub met : Bool
  pub reason : Text

abbrev verdict : Bool → Text → Text → ComparisonResult
verdict met if_met if_not = record { met = met; reason = if met then if_met else if_not }

module _ (lower : Text → Text) (regexp : Text → Option (Text → Bool)) where
  -- `evaluateComparison`; none where it throws, for a pattern that is no regular expression.
  unfoldable pub evaluate_comparison :
      MonitorCompare
      → MonitorObservation
      → Option MonitorObservation
      → Option Text
      → Option Text
      → Option ComparisonResult
  unfolding text_eq includes_text normalize_scalar is_empty_rendering
  evaluate_comparison changed current none expected full_value =
      some
        (record { met = false; reason = units "baseline recorded — first observation never fires" })
  evaluate_comparison changed current (some previous) expected full_value = some (
      verdict (not (text_eq previous.hash current.hash))
        (units "value differs from the last observation") (units "value unchanged"))
  evaluate_comparison equals current previous expected full_value = some (
      verdict
        (text_eq (normalize_scalar (or_else full_value current.value))
          (normalize_scalar (or_else expected [])))
        (units "value equals the operand") (units "value differs from the operand"))
  evaluate_comparison not_equals current previous expected full_value = some (
      verdict
        (not (
          text_eq (normalize_scalar (or_else full_value current.value))
            (normalize_scalar (or_else expected []))))
        (units "value differs from the operand") (units "value equals the operand"))
  evaluate_comparison contains current previous expected full_value = some (
      verdict
        (includes_text (lower (or_else full_value current.value)) (lower (or_else expected [])))
        (units "operand found in value") (units "operand not found in value"))
  evaluate_comparison not_contains current previous expected full_value = some (
      verdict
        (not
          (includes_text (lower (or_else full_value current.value)) (lower (or_else expected []))))
        (units "operand absent from value") (units "operand present in value"))
  evaluate_comparison matches current previous expected full_value =
      elim (regexp (or_else expected [])) [
        | none ↦ none
        | some test ↦ some (
            verdict (test (or_else full_value current.value)) (units "pattern matched")
              (units "pattern did not match"))
      ]
  evaluate_comparison not_empty current previous expected full_value = some (
      verdict (not (is_empty_rendering (or_else full_value current.value)))
        (units "value is non-empty") (units "value is empty"))
