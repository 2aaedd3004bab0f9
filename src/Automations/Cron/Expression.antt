-- ===== src/Automations/Cron/Expression.antt =====
-- `normalizeCronExpression` and `parseCronExpression`.
use agent_studio.Shared.{ℕ, Bool, false, not, List, [], ◌∷◌, ◌==◌, map, if◌then◌else◌}
use agent_studio.Shared.Text.{Text, units, text_eq, is_space, is_prefix, trim, split_by, to_lower}
use agent_studio.Automations.Cron.Fields.{
  empty_expression, reboot, unknown_alias, field_count, Result, ok, err, ◌>>=◌, fail_if,
  minute_spec, hour_spec, dom_spec, month_spec, dow_spec, parse_field,
}

pub record ParsedCron : Type 0 where
  pub minutes : List ℕ
  pub hours : List ℕ
  pub days_of_month : List ℕ
  pub months : List ℕ
  pub days_of_week : List ℕ
  pub day_of_month_restricted : Bool
  pub day_of_week_restricted : Bool

-- `replace(/\s+/g, ' ')`; `after_space` says whether the text before ended with white space.
unfoldable pub collapse : Bool → Text → Text
unfolding is_space
collapse after_space [] = []
collapse after_space (c ∷ s) =
    let rest = collapse (is_space c) s in
    if is_space c then (if after_space then rest else b' ' ∷ rest) else c ∷ rest

-- What the aliases stand for.
abbrev aliases : List (Text × Text)
aliases =
    (units "@yearly", units "0 0 1 1 *")
    ∷ (units "@annually", units "0 0 1 1 *")
    ∷ (units "@monthly", units "0 0 1 * *")
    ∷ (units "@weekly", units "0 0 * * 0")
    ∷ (units "@daily", units "0 0 * * *")
    ∷ (units "@midnight", units "0 0 * * *")
    ∷ (units "@hourly", units "0 * * * *")
    ∷ []

unfoldable pub alias_of : Text → List (Text × Text) → Result Text
unfolding text_eq
alias_of s [] = if text_eq s (units "@reboot") then err reboot else err unknown_alias
alias_of s ((name, meaning) ∷ rest) = if text_eq name s then ok meaning else alias_of s rest

unfoldable pub normalize_cron_expression : Text → Result Text
unfolding collapse alias_of is_prefix trim
normalize_cron_expression expression =
    let normalized = collapse false (trim expression) in
    if is_prefix (b'@' ∷ []) normalized
    then alias_of (to_lower normalized) aliases
    else ok normalized

-- 7 is Sunday too.
abbrev pub fold_sunday : ℕ → ℕ
fold_sunday n = if n == 7 then 0 else n

unfoldable pub parse_parts : List Text → Result ParsedCron
unfolding parse_field
parse_parts (m ∷ h ∷ dom ∷ mon ∷ dow ∷ []) = parse_field minute_spec m >>= λ minute.
    parse_field hour_spec h >>= λ hour. parse_field dom_spec dom >>= λ day.
    parse_field month_spec mon >>= λ month. parse_field dow_spec dow >>= λ weekday. ok (record {
      minutes = minute.values;
      hours = hour.values;
      days_of_month = day.values;
      months = month.values;
      days_of_week = map fold_sunday weekday.values;
      day_of_month_restricted = not day.wildcard;
      day_of_week_restricted = not weekday.wildcard;
    })
parse_parts _ = err field_count

unfoldable pub parse_cron_expression : Text → Result ParsedCron
unfolding normalize_cron_expression parse_parts trim text_eq
parse_cron_expression expression =
    fail_if (text_eq (trim expression) []) empty_expression (
      normalize_cron_expression expression >>= λ normalized. parse_parts (split_by b' ' normalized))
