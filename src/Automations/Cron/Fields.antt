-- ===== src/Automations/Cron/Fields.antt =====
-- `parseValue` and `parseField`. A set of numbers is the list of what was added to it; `has` asks for a
-- number. The message of an error is its reason here.
use agent_studio.Shared.{
  ℕ, zero, suc, ◌+◌, ◌-◌, ◌*◌, Bool, true, false, not, ◌&&◌, ◌||◌, List, [], ◌∷◌, ◌++◌, ltb, leb,
  ◌==◌, length, any, all, if◌then◌else◌,
}
use agent_studio.Shared.Text.{Text, units, text_eq, trim, includes_text, split_by, to_lower}

pub data CronError : Type 0 where
  empty_value out_of_range unrecognized inherited empty_field no_question_mark stray_comma :
      CronError
  two_steps bad_step bad_range backwards no_values : CronError
  empty_expression reboot unknown_alias field_count : CronError
  unknown_zone no_run_time : CronError

pub data Result {ℓ} (A : Type ℓ) : Type ℓ where
  ok : A → Result A
  err : CronError → Result A

infixl 5 ◌>>=◌
abbrev pub ◌>>=◌ {ℓ κ} : {A : Type ℓ} {B : Type κ} → Result A → (A → Result B) → Result B
ok a >>= f = f a
err e >>= f = err e

abbrev pub fail_if {ℓ} : {A : Type ℓ} → Bool → CronError → Result A → Result A
fail_if true e r = err e
fail_if false e r = r

pub record FieldSpec : Type 0 where
  pub lowest : ℕ
  pub highest : ℕ
  pub names : List (Text × ℕ)
  pub allow_question_mark : Bool

abbrev month_names : List (Text × ℕ)
month_names =
    (units "jan", 1)
    ∷ (units "feb", 2)
    ∷ (units "mar", 3)
    ∷ (units "apr", 4)
    ∷ (units "may", 5)
    ∷ (units "jun", 6)
    ∷ (units "jul", 7)
    ∷ (units "aug", 8)
    ∷ (units "sep", 9)
    ∷ (units "oct", 10)
    ∷ (units "nov", 11)
    ∷ (units "dec", 12)
    ∷ []

abbrev day_names : List (Text × ℕ)
day_names =
    (units "sun", 0)
    ∷ (units "mon", 1)
    ∷ (units "tue", 2)
    ∷ (units "wed", 3)
    ∷ (units "thu", 4)
    ∷ (units "fri", 5)
    ∷ (units "sat", 6)
    ∷ []

abbrev pub minute_spec : FieldSpec
minute_spec = record { lowest = 0; highest = 59; names = []; allow_question_mark = false }

abbrev pub hour_spec : FieldSpec
hour_spec = record { lowest = 0; highest = 23; names = []; allow_question_mark = false }

abbrev pub dom_spec : FieldSpec
dom_spec = record { lowest = 1; highest = 31; names = []; allow_question_mark = true }

abbrev pub month_spec : FieldSpec
month_spec = record { lowest = 1; highest = 12; names = month_names; allow_question_mark = false }

abbrev pub dow_spec : FieldSpec
dow_spec = record { lowest = 0; highest = 7; names = day_names; allow_question_mark = true }

-- `/^\d+$/.test(s)`, and `Number(s)` of such a text.
abbrev is_digit : ℕ → Bool
is_digit c = leb b'0' c && leb c b'9'

abbrev pub is_empty : Text → Bool
is_empty [] = true
is_empty (c ∷ s) = false

unfoldable pub is_digits : Text → Bool
is_digits s = not (is_empty s) && all is_digit s

unfoldable pub number_from : ℕ → Text → ℕ
number_from acc [] = acc
number_from acc (c ∷ s) = number_from (acc * 10 + (c - b'0')) s

-- A name of the table; the names that JavaScript's object of names inherits are left out.
unfoldable pub name_of : Text → List (Text × ℕ) → Result ℕ
unfolding text_eq
name_of s [] = err unrecognized
name_of s ((name, n) ∷ rest) = if text_eq name s then ok n else name_of s rest

-- The names in lower case that an object literal inherits: the source takes the inherited object for
-- the value. What it goes on to do with one is not modelled, and has the outcome `inherited`, which is
-- not an error of the source.
abbrev pub is_inherited : Text → Bool
is_inherited s = text_eq s (units "constructor") || text_eq s (units "__proto__")

abbrev pub has_names : FieldSpec → Bool
has_names spec = elim spec.names [ [] ↦ false | _ ∷ _ ↦ true ]

unfoldable pub parse_value : FieldSpec → Text → Result ℕ
unfolding trim
parse_value spec token =
    let trimmed = trim token in
    if is_empty trimmed
    then err empty_value
    else if is_digits trimmed
    then (let value = number_from 0 trimmed in
        if ltb value spec.lowest || ltb spec.highest value then err out_of_range else ok value)
    else if has_names spec && is_inherited (to_lower trimmed)
    then err inherited
    else name_of (to_lower trimmed) spec.names

abbrev pub is_star : FieldSpec → Text → Bool
is_star spec s = text_eq s (b'*' ∷ []) || (text_eq s (b'?' ∷ []) && spec.allow_question_mark)

-- The step of an element, from what stands behind its slash.
unfoldable pub step_of : Text → Result ℕ
unfolding is_digits number_from trim
step_of s =
    let token = trim s in
    let step = number_from 0 token in
    if not (is_digits token) || step == 0 then err bad_step else ok step

-- `for (let value = start; value <= end; value += step) values.add(value)`, for so many rounds at most.
unfoldable pub values_from : ℕ → ℕ → ℕ → ℕ → List ℕ
values_from zero step end value = []
values_from (suc rounds) step end value =
    let later = values_from rounds step end (value + step) in
    if leb value end then value ∷ later else []

-- The bounds of a range from its pieces.
unfoldable pub range_of : FieldSpec → List Text → Result (ℕ × ℕ)
unfolding parse_value
range_of spec (a ∷ b ∷ []) = parse_value spec a >>= λ start.
    parse_value spec b >>= λ end. fail_if (ltb end start) backwards (ok (start, end))
range_of spec _ = err bad_range

-- The first and the last value of an element, from what stands before its slash.
unfoldable pub bounds_of : FieldSpec → Bool → Text → Result (ℕ × ℕ)
unfolding range_of parse_value
bounds_of spec has_step base =
    if is_star spec base
    then ok (spec.lowest, spec.highest)
    else if includes_text base (b'-' ∷ [])
    then range_of spec (split_by b'-' base)
    else parse_value spec base >>= λ start. ok (start, if has_step then spec.highest else start)

-- The values of an element from its bounds and its step.
abbrev pub steps : ℕ × ℕ → ℕ → List ℕ
steps (start, end) step = values_from (suc end) step end start

unfoldable pub element_of : FieldSpec → List Text → Result (List ℕ)
unfolding bounds_of step_of values_from trim
element_of spec (base ∷ []) = bounds_of spec false (trim base) >>= λ b. ok (steps b 1)
element_of spec (base ∷ s ∷ []) =
    step_of s >>= λ step. bounds_of spec true (trim base) >>= λ b. ok (steps b step)
element_of spec _ = err two_steps

unfoldable pub elements_of : FieldSpec → List Text → Result (List ℕ)
unfolding element_of
elements_of spec [] = ok []
elements_of spec (element ∷ rest) =
    let part = trim element in
    fail_if (is_empty part) stray_comma
      (element_of spec (split_by b'/' part) >>= λ xs. elements_of spec rest >>= λ ys. ok (xs ++ ys))

pub record Field : Type 0 where
  pub values : List ℕ
  pub wildcard : Bool

unfoldable pub parse_field : FieldSpec → Text → Result Field
unfolding elements_of
parse_field spec raw =
    let field = trim raw in
    fail_if (is_empty field) empty_field (
      fail_if (text_eq field (b'?' ∷ []) && not spec.allow_question_mark) no_question_mark (
        elements_of spec (split_by b',' field) >>= λ values.
        fail_if (length values == 0) no_values
          (ok (record { values = values; wildcard = is_star spec field }))))

-- `values.has(n)`.
abbrev pub has : List ℕ → ℕ → Bool
has values n = any (λ v. v == n) values
