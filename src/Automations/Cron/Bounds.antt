-- ===== src/Automations/Cron/Bounds.antt =====
-- Every value that a parsed expression can match lies in its column's range.
use agent_studio.Shared.{
  ℕ, zero, suc, ◌+◌, ◌≤◌, ◌<◌, Bool, true, false, not, ◌&&◌, ◌||◌, List, [], ◌∷◌, ◌≡◌, refl, sym,
  subst, ap, arith, ltb, leb, ◌==◌, Bool-cases, inl, inr, All, All-append, length, map,
}
use agent_studio.Shared.Text.{Text, text_eq, trim, includes_text, split_by, to_lower}
use agent_studio.Automations.Cron.Fields.{
  CronError, empty_field, empty_expression, no_question_mark, no_values, Result, ok, err, ◌>>=◌,
  fail_if, FieldSpec, minute_spec, hour_spec, dom_spec, month_spec, dow_spec, is_digits,
  number_from, name_of, has_names, is_inherited, parse_value, is_empty, is_star, step_of,
  values_from, range_of, bounds_of, element_of, elements_of, Field, parse_field,
}
use agent_studio.Automations.Cron.Expression.{
  ParsedCron, fold_sunday, parse_parts, normalize_cron_expression, parse_cron_expression,
}

-- A result that, if it is one, has the property.
abbrev pub Ensures {ℓ κ} : {A : Type ℓ} → (A → Type κ) → Result A → Type κ
Ensures P (ok a) = P a
Ensures P (err e) = Unit

Ensures-bind {ℓ κ μ ν} :
    {A : Type ℓ} {B : Type μ} (P : A → Type κ) (Q : B → Type ν) (m : Result A) (f : A → Result B)
    → Ensures P m
    → ((a : A) → P a → Ensures Q (f a))
    → Ensures Q (m >>= f)
Ensures-bind P Q (ok a) f h k = k a h
Ensures-bind P Q (err e) f h k = tt

Ensures-fail_if {ℓ κ} :
    {A : Type ℓ} (P : A → Type κ) (b : Bool) (e : CronError) (r : Result A)
    → Ensures P r
    → Ensures P (fail_if b e r)
Ensures-fail_if P true e r h = tt
Ensures-fail_if P false e r h = h

abbrev pub IsWithin : ℕ → ℕ → ℕ → Type 0
IsWithin low high v = (low ≤ v) × (v ≤ high)

Ensures-any : {A : Type 0} (r : Result A) → Ensures (λ (a : A). Unit {0}) r
Ensures-any (ok a) = tt
Ensures-any (err e) = tt

module _ (spec : FieldSpec) where
  abbrev pub InSpec : ℕ → Type 0
  InSpec v = IsWithin spec.lowest spec.highest v

  abbrev IsProper : Field → Type 0
  IsProper f = All InSpec f.values × (0 < length f.values)

  abbrev InBounds : ℕ × ℕ → Type 0
  InBounds (start, end) = InSpec start × InSpec end

  name_of-InSpec :
      (s : Text) (names : List (Text × ℕ))
      → All (λ p. InSpec p.1) names
      → Ensures InSpec (name_of s names)
  unfolding name_of
  name_of-InSpec s [] h = tt
  name_of-InSpec s ((name, n) ∷ rest) (h, k) = elim (Bool-cases (text_eq name s)) [
    | inl same ↦ rw (same, name_of) h
    | inr other ↦ rw (other, name_of) (name_of-InSpec s rest k)
  ]

  All-values_from :
      (rounds step end value : ℕ)
      → spec.lowest ≤ value
      → end ≤ spec.highest
      → All InSpec (values_from rounds step end value)
  unfolding values_from
  All-values_from zero step end value l h = tt
  All-values_from (suc rounds) step end value l h = elim (Bool-cases (leb value end)) [
    | inl within ↦
        rw within
          ((l, ground arith), All-values_from rounds step end (value + step) (omega arith) h)
    | inr past ↦ rw past tt
  ]

  module _ (names : All (λ p. InSpec p.1) spec.names) (proper : spec.lowest ≤ spec.highest) where
    parse_value-InSpec : (token : Text) → Ensures InSpec (parse_value spec token)
    unfolding parse_value
    parse_value-InSpec token =
        let s = trim token in
        let value = number_from 0 s in
        elim (Bool-cases (is_empty s)) [
          | inl blank ↦ rw (blank, parse_value) tt
          | inr some_text ↦ elim (Bool-cases (is_digits s)) [
            | inr word ↦ elim (Bool-cases (has_names spec && is_inherited (to_lower s))) [
              | inl odd ↦ rw (some_text, parse_value) (rw word (rw odd tt))
              | inr named ↦
                  rw (some_text, parse_value)
                    (rw word (rw named (name_of-InSpec (to_lower s) spec.names names)))
            ]
            | inl digits ↦ elim (Bool-cases (ltb value spec.lowest || ltb spec.highest value)) [
              | inl out ↦ rw (some_text, parse_value) (rw digits (rw out tt))
              | inr within ↦ rw (some_text, parse_value) (rw digits (rw within (ground arith)))
            ]
          ]
        ]

    range_of-InBounds : (pieces : List Text) → Ensures InBounds (range_of spec pieces)
    unfolding range_of
    range_of-InBounds [] = tt
    range_of-InBounds (a ∷ []) = tt
    range_of-InBounds (a ∷ b ∷ []) =
        Ensures-bind InSpec InBounds (parse_value spec a) _ (parse_value-InSpec a) (λ start h.
          Ensures-bind InSpec InBounds (parse_value spec b) _ (parse_value-InSpec b)
            (λ end k. Ensures-fail_if InBounds (ltb end start) _ (ok (start, end)) (h, k)))
    range_of-InBounds (a ∷ b ∷ c ∷ rest) = tt

    bounds_of-InBounds :
        (has_step : Bool) (base : Text) → Ensures InBounds (bounds_of spec has_step base)
    unfolding bounds_of
    bounds_of-InBounds has_step base = elim (Bool-cases (is_star spec base)) [
      | inl star ↦ rw (star, bounds_of) ((omega arith, proper), (proper, omega arith))
      | inr other ↦ elim (Bool-cases (includes_text base (b'-' ∷ []))) [
        | inl range ↦ rw (other, bounds_of) (rw range (range_of-InBounds (split_by b'-' base)))
        | inr single ↦
            rw (other, bounds_of)
              (rw single (
                Ensures-bind InSpec InBounds (parse_value spec base) _ (parse_value-InSpec base)
                  (λ start h. (h, ground arith))))
      ]
    ]

    element_of-InSpec : (pieces : List Text) → Ensures (All InSpec) (element_of spec pieces)
    unfolding element_of
    element_of-InSpec [] = tt
    element_of-InSpec (base ∷ []) =
        Ensures-bind InBounds (All InSpec) (bounds_of spec false (trim base)) _
          (bounds_of-InBounds false (trim base))
          (λ (start, end) (h, k). All-values_from (suc end) 1 end start h.0 k.1)
    element_of-InSpec (base ∷ s ∷ []) =
        Ensures-bind (λ (n : ℕ). Unit {0}) (All InSpec) (step_of s) _ (Ensures-any (step_of s))
          (λ step u.
            Ensures-bind InBounds (All InSpec) (bounds_of spec true (trim base)) _
              (bounds_of-InBounds true (trim base))
              (λ (start, end) (h, k). All-values_from (suc end) step end start h.0 k.1))
    element_of-InSpec (a ∷ b ∷ c ∷ rest) = tt

    elements_of-InSpec : (elements : List Text) → Ensures (All InSpec) (elements_of spec elements)
    unfolding elements_of
    elements_of-InSpec [] = tt
    elements_of-InSpec (element ∷ rest) = Ensures-fail_if (All InSpec) _ _ _ (
        Ensures-bind (All InSpec) (All InSpec) (element_of spec (split_by b'/' (trim element))) _
          (element_of-InSpec (split_by b'/' (trim element)))
          (λ xs h.
            Ensures-bind (All InSpec) (All InSpec) (elements_of spec rest) _
              (elements_of-InSpec rest) (λ ys k. All-append InSpec xs ys h k)))

    some_values :
        (wildcard : Bool) (values : List ℕ)
        → All InSpec values
        → Ensures IsProper (
            fail_if
              (length values == 0)
              no_values
              (ok (record { values = values; wildcard = wildcard })))
    some_values wildcard [] h = tt
    some_values wildcard (n ∷ values) h =
        let some_left : (length (n ∷ values) == 0) ≡ false = ground arith in
        rw some_left (h, omega arith)

    -- A parsed field holds a value, and only values in the field's range.
    parse_field-InSpec : (raw : Text) → Ensures IsProper (parse_field spec raw)
    unfolding parse_field
    parse_field-InSpec raw =
        let field = trim raw in
        let values : Result (List ℕ) = elements_of spec (split_by b',' field) in
        let finish : List ℕ → Result Field = λ values.
          fail_if (length values == 0) no_values
            (ok (record { values = values; wildcard = is_star spec field })) in
        Ensures-fail_if IsProper (is_empty field) empty_field _ (
          Ensures-fail_if IsProper (text_eq field (b'?' ∷ []) && not spec.allow_question_mark)
            no_question_mark (values >>= finish)
            (Ensures-bind (All InSpec) IsProper values finish
              (elements_of-InSpec (split_by b',' field)) (some_values (is_star spec field))))

-- What a parsed expression holds: some values in each column, all in its range.
abbrev HoldsWithin : ℕ → ℕ → List ℕ → Type 0
HoldsWithin low high values = All (IsWithin low high) values × (0 < length values)

abbrev pub IsWellFormed : ParsedCron → Type 0
IsWellFormed parsed =
    HoldsWithin 0 59 parsed.minutes
    × HoldsWithin 0 23 parsed.hours
    × HoldsWithin 1 31 parsed.days_of_month
    × HoldsWithin 1 12 parsed.months
    × HoldsWithin 0 6 parsed.days_of_week

fold_sunday-IsWithin : (n : ℕ) → IsWithin 0 7 n → IsWithin 0 6 (fold_sunday n)
fold_sunday-IsWithin n h = ground arith

fold_sunday-HoldsWithin :
    (values : List ℕ) → All (IsWithin 0 7) values → All (IsWithin 0 6) (map fold_sunday values)
fold_sunday-HoldsWithin [] h = tt
fold_sunday-HoldsWithin (n ∷ values) (h, k) =
    (fold_sunday-IsWithin n h, fold_sunday-HoldsWithin values k)

length-map_fold : (values : List ℕ) → length (map fold_sunday values) ≡ length values
length-map_fold [] = refl
length-map_fold (n ∷ values) = ap suc (length-map_fold values)

parse_parts-IsWellFormed : (parts : List Text) → Ensures IsWellFormed (parse_parts parts)
unfolding parse_parts
parse_parts-IsWellFormed (m ∷ h ∷ dom ∷ mon ∷ dow ∷ []) =
    Ensures-bind (IsProper minute_spec) IsWellFormed _ _
      (parse_field-InSpec minute_spec tt (omega arith) m)
      λ minute p.
        Ensures-bind (IsProper hour_spec) IsWellFormed _ _
          (parse_field-InSpec hour_spec tt (omega arith) h)
          λ hour q.
            Ensures-bind (IsProper dom_spec) IsWellFormed _ _
              (parse_field-InSpec dom_spec tt (omega arith) dom)
              λ day r.
                Ensures-bind (IsProper month_spec) IsWellFormed _ _
                  (parse_field-InSpec month_spec (ground arith) (omega arith) mon)
                  λ month s.
                    Ensures-bind (IsProper dow_spec) IsWellFormed _ _
                      (parse_field-InSpec dow_spec (ground arith) (omega arith) dow)
                      λ weekday t. (
                        p,
                        q,
                        r,
                        s,
                        (
                          fold_sunday-HoldsWithin weekday.values t.0,
                          subst (λ n. 0 < n) (sym (length-map_fold weekday.values)) t.1,
                        ),
                      )
parse_parts-IsWellFormed _ = tt

-- Every expression that parses with no month or weekday named by what a table of names inherits
-- (constructor, __proto__) has some values in each column, all in its range: minutes to 59, hours to 23,
-- days from 1 to 31, months from 1 to 12, weekdays to 6.
pub parse_cron_expression-IsWellFormed :
    (expression : Text) → Ensures IsWellFormed (parse_cron_expression expression)
unfolding parse_cron_expression
parse_cron_expression-IsWellFormed expression =
    Ensures-fail_if IsWellFormed (text_eq (trim expression) []) empty_expression
      (normalize_cron_expression expression >>= λ normalized.
        parse_parts (split_by b' ' normalized))
      (Ensures-bind (λ (s : Text). Unit {0}) IsWellFormed (normalize_cron_expression expression)
        (λ normalized. parse_parts (split_by b' ' normalized))
        (Ensures-any (normalize_cron_expression expression))
        (λ normalized u. parse_parts-IsWellFormed (split_by b' ' normalized)))
