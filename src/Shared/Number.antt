-- ===== src/Shared/Number.antt =====
-- The numbers of JavaScript that callers may pass where the code asks `Number.isFinite` and rounds:
-- a fraction, or one that is not finite (an infinity or NaN).
use agent_studio.Shared.{ℕ, suc, ◌/◌, ◌≡◌, refl}
use agent_studio.Shared.Int.{ℤ, pos, negsuc}

-- `ratio n d` is n / (d + 1).
pub data Number : Type 0 where
  not_finite : Number
  ratio : ℤ → ℕ → Number

abbrev pub whole : ℕ → Number
whole n = ratio (pos n) 0

-- `Math.floor`.
unfoldable pub floor : ℤ → ℕ → ℤ
floor (pos n) d = pos (n / suc d)
floor (negsuc n) d = negsuc (n / suc d)

floors : floor (negsuc 0) 1 ≡ negsuc 0
unfolding floor
floors = refl
