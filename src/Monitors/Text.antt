-- ===== src/Monitors/Text.antt =====
-- The text operations that src/lib/monitors/condition.ts compares with, over lists of UTF-16 code
-- units: the two renderings that it normalises.
use agent_studio.Shared.{Bool, ◌||◌, Option, none, some, [], ◌∷◌, ◌==◌, if◌then◌else◌}
use mathlib.Core.List.{reverse}
unfoldable pub use agent_studio.Shared.Text.{
  Text, units, is_space, trim_start, trim, text_eq, is_prefix, includes_text,
}

-- The text without its last unit, if that is a quote.
abbrev drop_quote : Text → Option Text
drop_quote [] = none
drop_quote (c ∷ s) = if c == b'"' then some (reverse s) else none

-- `s.replace(/^"(.*)"$/s, '$1')`.
unfoldable pub unquote : Text → Text
unquote [] = []
unquote (c ∷ s) =
    if c == b'"' then elim (drop_quote (reverse s)) [ some t ↦ t | none ↦ c ∷ s ] else c ∷ s

unfoldable pub normalize_scalar : Text → Text
unfolding trim unquote
normalize_scalar value = unquote (trim value)

unfoldable pub is_empty_rendering : Text → Bool
unfolding trim text_eq
is_empty_rendering value =
    let trimmed = trim value in
    text_eq trimmed []
    || text_eq trimmed (units "\"\"")
    || text_eq trimmed (units "null")
    || text_eq trimmed (units "[]")
    || text_eq trimmed (units "{}")
