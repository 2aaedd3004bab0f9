-- ===== src/Monitors/Comparing.antt =====
-- What the comparisons of src/lib/monitors/condition.ts tell apart.
use agent_studio.Shared.{
  ℕ, Bool, true, false, not, Option, none, some, [], ◌∷◌, ◌++◌, ◌≡◌, refl, sym, ap, subst, arith,
  ◌↔◌, Bool-cases, inl, inr,
}
use mathlib.Core.Option.{map}
use agent_studio.Monitors.Text.{Text, text_eq, is_prefix, includes_text}
use agent_studio.Monitors.Run.{MonitorObservation}
use agent_studio.Monitors.Compare.{
  changed, contains, not_contains, ComparisonResult, evaluate_comparison, observation_from_text,
}

abbrev pub met_of : Option ComparisonResult → Option Bool
met_of o = map (λ r. r.met) o

text_eq_refl : (s : Text) → text_eq s s ≡ true
unfolding text_eq
text_eq_refl [] = refl
text_eq_refl (c ∷ s) = ground (arith, text_eq_refl s)

module _ (lower : Text → Text) (regexp : Text → Option (Text → Bool)) where
  -- A watch for a change is not met on the first check, nor when the same text is observed again,
  -- however long it is, whenever the two observations were made and whatever they noted.
  pub evaluate_comparison_baseline :
      (full : Text) (met met' : Bool) (noted noted' expected full_value : Option Text)
      (now now' : ℕ)
      → let current = observation_from_text full met noted now in
        let before = observation_from_text full met' noted' now' in
        (met_of (evaluate_comparison lower regexp changed current none expected full_value)
          ≡ some false)
        × (met_of
              (evaluate_comparison lower regexp changed current (some before) expected full_value)
            ≡ some false)
  unfolding evaluate_comparison
  evaluate_comparison_baseline full met met' noted noted' expected full_value now now' =
      (refl, unfold observation_from_text in rw (text_eq_refl _) refl)

is_prefix_sound : (t s : Text) → is_prefix t s ≡ true → (post : Text) × (s ≡ t ++ post)
unfolding is_prefix
is_prefix_sound [] s h = (s, refl)
is_prefix_sound (a ∷ t) [] h = absurd (ground arith)
is_prefix_sound (a ∷ t) (b ∷ s) h =
    let (post, e) = is_prefix_sound t s (ground arith) in
    let same : b ≡ a = ground arith in (post, rw (same, e) refl)

is_prefix-append : (t post : Text) → is_prefix t (t ++ post) ≡ true
unfolding is_prefix
is_prefix-append [] post = refl
is_prefix-append (a ∷ t) post = ground (arith, is_prefix-append t post)

includes_text_sound :
    (s t : Text) → includes_text s t ≡ true → (pre : Text) × (post : Text) × (s ≡ pre ++ t ++ post)
unfolding includes_text
includes_text_sound [] t h = let (post, e) = is_prefix_sound t [] h in ([], post, e)
includes_text_sound (c ∷ s) t h = elim (Bool-cases (is_prefix t (c ∷ s))) [
  | inl here ↦ let (post, e) = is_prefix_sound t (c ∷ s) here in ([], post, e)
  | inr later ↦
      let (pre, post, e) = includes_text_sound s t (ground arith) in
      (c ∷ pre, post, ap (λ r. c ∷ r) e)
]

includes_text-here : (s t : Text) → is_prefix t s ≡ true → includes_text s t ≡ true
unfolding includes_text
includes_text-here [] t h = h
includes_text-here (c ∷ s) t h = ground (arith, h)

includes_text-at : (pre t post : Text) → includes_text (pre ++ t ++ post) t ≡ true
unfolding includes_text
includes_text-at [] t post = includes_text-here (t ++ post) t (is_prefix-append t post)
includes_text-at (c ∷ pre) t post = ground (arith, includes_text-at pre t post)

includes_text_lem :
    (s t : Text)
    → (includes_text s t ≡ true) ↔ ((pre : Text) × (post : Text) × (s ≡ pre ++ t ++ post))
includes_text_lem s t = (
  includes_text_sound s t,
  λ (pre, post, e). subst (λ r. includes_text r t ≡ true) (sym e) (includes_text-at pre t post),
)

-- With the full value at hand, contains is met exactly when the operand in lower case stands somewhere
-- in the full value in lower case, beyond the cut of the stored one too, and not_contains is met
-- exactly when contains is not.
pub evaluate_comparison_contains :
    (lower : Text → Text) (regexp : Text → Option (Text → Bool)) (current : MonitorObservation)
    (previous : Option MonitorObservation) (operand full : Text)
    → let contained =
        met_of
          (evaluate_comparison lower regexp contains current previous (some operand) (some full)) in
      ((contained ≡ some true)
        ↔ ((pre : Text) × (post : Text) × (lower full ≡ pre ++ lower operand ++ post)))
      × (met_of (
            evaluate_comparison lower regexp not_contains current previous
              (some operand)
              (some full))
          ≡ map not contained)
unfolding evaluate_comparison
evaluate_comparison_contains lower regexp current previous operand full =
    let (sound, complete) = includes_text_lem (lower full) (lower operand) in
    ((λ h. sound (ground (arith, h)), λ found. ap some (complete found)), refl)
