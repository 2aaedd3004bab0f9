-- ===== src/Jobs/First.antt =====
-- What the first candidate of a claim is: no other comes before it.
use agent_studio.Shared.{
  Bool, true, false, ◌&&◌, ◌||◌, none, some, List, [], ◌∷◌, ◌≡◌, refl, arith, any, str_eq_refl,
  eq_iff, subst, ltb, ◌==◌, Bool-cases, Option-cases, ◌⊎◌, inl, inr,
}
use agent_studio.Jobs.Schema.{JobRow}
use agent_studio.Jobs.Table.{find_row}
use agent_studio.Jobs.Claim.{comes_before, first_candidate}
use agent_studio.Jobs.Rows.{HasDistinctIds}

-- The claim's order, strictly: a higher priority, or the same one and an earlier time.
abbrev pub precedes : JobRow → JobRow → Bool
precedes r c =
    ltb c.priority r.priority || (r.priority == c.priority && ltb r.scheduled_at c.scheduled_at)

-- No row that passes the test comes strictly before the chosen one.
abbrev pub NoneBefore : (JobRow → Bool) → JobRow → List JobRow → Type 0
NoneBefore test c rows = any (λ r. test r && precedes r c) rows ≡ false

pub not_precedes_trans :
    (r c d : JobRow) → comes_before c d ≡ true → precedes r d ≡ false → precedes r c ≡ false
unfolding comes_before
not_precedes_trans r c d b h = ground arith

pub NoneBefore-trans :
    (test : JobRow → Bool) (c d : JobRow) (rows : List JobRow)
    → comes_before c d ≡ true
    → NoneBefore test d rows
    → NoneBefore test c rows
NoneBefore-trans test c d [] b h = refl
NoneBefore-trans test c d (r ∷ rows) b h =
    ground (arith, not_precedes_trans r c d b, NoneBefore-trans test c d rows b)

pub NoneBefore-of_none :
    (test : JobRow → Bool) (c : JobRow) (rows : List JobRow)
    → first_candidate test rows ≡ none
    → NoneBefore test c rows
unfolding first_candidate
NoneBefore-of_none test c [] e = refl
NoneBefore-of_none test c (r ∷ rows) e = ground (arith, NoneBefore-of_none test c rows)

pub not_before : (r d : JobRow) → comes_before r d ≡ false → precedes d r ≡ true
unfolding comes_before
not_before r d h = ground arith

pub precedes_irrefl : (r : JobRow) → precedes r r ≡ false
precedes_irrefl r = ground arith

pub precedes_asymm : (r d : JobRow) → precedes d r ≡ true → precedes r d ≡ false
precedes_asymm r d h = ground arith

pub NoneBefore-cons :
    (test : JobRow → Bool) (r c : JobRow) (rows : List JobRow)
    → (test r && precedes r c) ≡ false
    → NoneBefore test c rows
    → NoneBefore test c (r ∷ rows)
NoneBefore-cons test r c rows h k = rw h k

-- A chosen row passes the test, and none that passes comes before it.
pub first_candidate_sound :
    (test : JobRow → Bool) (rows : List JobRow) (c : JobRow)
    → first_candidate test rows ≡ some c
    → (test c ≡ true) × NoneBefore test c rows
unfolding first_candidate
first_candidate_sound test [] c e = absurd (ground arith)
first_candidate_sound test (r ∷ rows) c e = elim (Bool-cases (test r)) [
  | inr fails ↦
      let (p, h) = first_candidate_sound test rows c (ground arith) in
      (p, NoneBefore-cons test r c rows (rw fails) h)
  | inl passes ↦ elim (Option-cases (first_candidate test rows)) [
    | inl last ↦
        let same : r ≡ c = ground arith in
        subst (λ x. (test x ≡ true) × NoneBefore test x (r ∷ rows)) same
          (
            passes,
            NoneBefore-cons test r r rows (ground (arith, precedes_irrefl r))
                (NoneBefore-of_none test r rows last),
          )
    | inr (d, found) ↦
        let (p, h) = first_candidate_sound test rows d found in
        elim (Bool-cases (comes_before r d)) [
          | inl first ↦
              let same : r ≡ c = ground arith in
              subst (λ x. (test x ≡ true) × NoneBefore test x (r ∷ rows)) same
                (
                  passes,
                  NoneBefore-cons test r r rows (ground (arith, precedes_irrefl r))
                      (NoneBefore-trans test r d rows first h),
                )
          | inr later ↦
              let same : d ≡ c = ground arith in
              subst (λ x. (test x ≡ true) × NoneBefore test x (r ∷ rows)) same
                (
                  p,
                  NoneBefore-cons test r d rows
                      (ground (arith, precedes_asymm r d (not_before r d later))) h,
                )
        ]
  ]
]

pub first_candidate_cases :
    (test : JobRow → Bool) (r c : JobRow) (rows : List JobRow)
    → first_candidate test (r ∷ rows) ≡ some c
    → (r ≡ c) ⊎ (first_candidate test rows ≡ some c)
unfolding first_candidate
first_candidate_cases test r c rows e = ground arith

-- A candidate is a row of the table, found by its id.
pub find_row_of_candidate :
    (test : JobRow → Bool) (rows : List JobRow) (c : JobRow)
    → HasDistinctIds rows
    → first_candidate test rows ≡ some c
    → find_row c.id rows ≡ some c
unfolding find_row
find_row_of_candidate test [] c d e = absurd (unfold first_candidate in ground arith)
find_row_of_candidate test (r ∷ rows) c d e = elim (first_candidate_cases test r c rows e) [
  | inl same ↦ subst (λ x. find_row x.id (r ∷ rows) ≡ some x) same (rw (str_eq_refl r.id))
  | inr later ↦ ground (arith, eq_iff r.id c.id, find_row_of_candidate test rows c d.1 later)
]
