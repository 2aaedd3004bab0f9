-- ===== src/Chat/Preamble.antt =====
-- Which turns a preamble keeps.
use agent_studio.Shared.{
  ℕ, ◌+◌, ◌≤◌, ◌<◌, false, ◌&&◌, List, [], ◌∷◌, ◌++◌, ◌≡◌, refl, sym, ◌∙◌, arith, length, ltb, ◌⊎◌,
  inl, inr, Bool-cases,
}
use mathlib.Core.List.{reverse, reverse_aux, reverse_aux-eq, reverse-reverse}
use agent_studio.Shared.Text.{Text}
use agent_studio.Chat.Plan.{keep_turns, kept_turns}

abbrev pub total : List Text → ℕ
total [] = 0
total (t ∷ turns) = length t + total turns

-- The first of what was dropped, the latest first, would not fit.
abbrev pub IsFull : ℕ → ℕ → List Text → Type 0
IsFull max_chars used [] = Unit
IsFull max_chars used (t ∷ dropped) = max_chars < used + length t

-- What is kept fits, or is the last turn alone.
abbrev pub Fits : ℕ → List Text → Type 0
Fits max_chars kept = (total kept ≤ max_chars) ⊎ (length kept ≤ 1)

abbrev Kept : ℕ → List Text → List Text → List Text → Type 0
Kept max_chars earlier kept result =
    (dropped : List Text) × (reverse_aux dropped result ≡ reverse_aux earlier kept)
    × Fits max_chars result
    × IsFull max_chars (total result) dropped
    × (0 < length kept + length earlier → 0 < length result)

still_in_budget :
    (max_chars used : ℕ) (kept : List Text) (t : Text)
    → used ≡ total kept
    → (ltb max_chars (used + length t) && ltb 0 (length kept)) ≡ false
    → Fits max_chars (t ∷ kept)
still_in_budget max_chars used kept t e room = elim (Bool-cases (ltb max_chars (used + length t))) [
  | inl over ↦ inr (ground (arith, over, room))
  | inr under ↦ inl (ground (arith, under, e))
]

keep_turns-Kept :
    (max_chars used : ℕ) (kept earlier : List Text)
    → used ≡ total kept
    → Fits max_chars kept
    → Kept max_chars earlier kept (keep_turns max_chars used kept earlier)
unfolding keep_turns
keep_turns-Kept max_chars used kept [] e fits = ([], refl, fits, tt, λ h. omega (arith, h))
keep_turns-Kept max_chars used kept (t ∷ earlier) e fits =
    elim (Bool-cases (ltb max_chars (used + length t) && ltb 0 (length kept))) [
      | inl full ↦
          rw (full, keep_turns)
            (t ∷ earlier, refl, fits, ground (arith, full, e), λ h. ground (arith, full))
      | inr room ↦
          let (dropped, joined, fit, stop, some_kept) =
            keep_turns-Kept max_chars (used + length t) (t ∷ kept) earlier (omega (arith, e))
              (still_in_budget max_chars used kept t e room) in
          rw (room, keep_turns) (dropped, joined, fit, stop, λ h. some_kept (omega arith))
    ]

length-reverse_aux : (xs ys : List Text) → length (reverse_aux xs ys) ≡ length xs + length ys
length-reverse_aux [] ys = omega arith
length-reverse_aux (x ∷ xs) ys = omega (arith, length-reverse_aux xs (x ∷ ys))

some-or_none :
    (turns kept : List Text)
    → (0 < length {A = Text} [] + length (reverse turns) → 0 < length kept)
    → (turns ≡ []) ⊎ (0 < length kept)
some-or_none [] kept h = inl refl
some-or_none (t ∷ turns) kept h = inr (h (omega (arith, length-reverse_aux turns (t ∷ []))))

-- Of the turns of a preamble the last ones are kept, in their order: the dropped turns, the latest
-- first, stand before them; they fit the budget, or are the last turn alone; the next one would not
-- have fit; and some turn is kept if there is one.
pub kept_turns_lem :
    (max_chars : ℕ) (turns : List Text)
    → (dropped : List Text) × (reverse dropped ++ kept_turns max_chars turns ≡ turns)
      × Fits max_chars (kept_turns max_chars turns)
      × IsFull max_chars (total (kept_turns max_chars turns)) dropped
      × ((turns ≡ []) ⊎ (0 < length (kept_turns max_chars turns)))
kept_turns_lem max_chars turns =
    let kept = kept_turns max_chars turns in
    let (dropped, joined, fit, stop, some_kept) =
      keep_turns-Kept max_chars 0 [] (reverse turns) refl (inl (omega arith)) in
    (
      dropped,
      sym (reverse_aux-eq dropped kept) ∙ joined ∙ reverse-reverse turns,
      fit,
      stop,
      some-or_none turns kept some_kept,
    )
