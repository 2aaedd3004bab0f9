-- ===== src/Shared/Text.antt =====
-- Texts as lists of UTF-16 code units, with what the components use of JavaScript's strings: `trim`,
-- `===`, `startsWith`, `includes`, `split` by a unit, and `toLowerCase` on ASCII.
use Prim.Native.Nat.{ℕ, ◌+◌}
use mathlib.Core.Bool.{Bool, true, false, ◌&&◌, ◌||◌}
use mathlib.Core.List.{List, [], ◌∷◌, reverse, map}
use Prim.Native.Char.{code}
use Prim.Native.String as Str
use Prim.Native.String.{String}
use agent_studio.Shared.Tests.{leb, ◌==◌, if◌then◌else◌}

abbrev pub Text : Type 0
Text = List ℕ

-- The code units of a literal, whose characters are one unit each.
abbrev pub units : String → Text
units Str.[] = []
units (Str.◌∷◌ c s) = code c ∷ units s

-- White space and line ends, as `trim` takes them.
unfoldable pub is_space : ℕ → Bool
is_space c =
    (leb 9 c && leb c 13)
    || c == 32
    || c == 160
    || c == 0x1680
    || (leb 0x2000 c && leb c 0x200a)
    || c == 0x2028
    || c == 0x2029
    || c == 0x202f
    || c == 0x205f
    || c == 0x3000
    || c == 0xfeff

unfoldable pub trim_start : Text → Text
unfolding is_space
trim_start [] = []
trim_start (c ∷ s) = let rest = trim_start s in if is_space c then rest else c ∷ s

unfoldable pub trim : Text → Text
unfolding trim_start
trim s = reverse (trim_start (reverse (trim_start s)))

unfoldable pub text_eq : Text → Text → Bool
text_eq [] [] = true
text_eq (a ∷ s) (b ∷ t) = a == b && text_eq s t
text_eq _ _ = false

unfoldable pub is_prefix : Text → Text → Bool
is_prefix [] s = true
is_prefix (a ∷ t) [] = false
is_prefix (a ∷ t) (b ∷ s) = a == b && is_prefix t s

-- `s.includes(t)`.
unfoldable pub includes_text : Text → Text → Bool
unfolding is_prefix
includes_text [] t = is_prefix t []
includes_text (c ∷ s) t = is_prefix t (c ∷ s) || includes_text s t

-- `s.split(sep)`, for a separator of one unit.
abbrev onto_first : ℕ → List Text → List Text
onto_first c [] = (c ∷ []) ∷ []
onto_first c (part ∷ parts) = (c ∷ part) ∷ parts

unfoldable pub split_by : ℕ → Text → List Text
split_by sep [] = [] ∷ []
split_by sep (c ∷ s) =
    let rest = split_by sep s in if c == sep then [] ∷ rest else onto_first c rest

abbrev pub to_lower : Text → Text
to_lower s = map (λ c. if leb b'A' c && leb c b'Z' then c + 32 else c) s
