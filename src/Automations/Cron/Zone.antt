-- ===== src/Automations/Cron/Zone.antt =====
-- The wall clock of a zone: `offsetAt` and `resolveNaive`. `to_naive` is what the engine's date
-- formatter reads in the zone at an instant, as milliseconds since the epoch; an instant and a reading
-- are at least a day after 1970 here, so that `-` does not stop at 0.
use agent_studio.Shared.{
  ℕ, zero, suc, ◌+◌, ◌-◌, ◌*◌, ◌/◌, min, max, Bool, true, false, not, ◌&&◌, Option, none, some, ltb,
  leb, ◌==◌, if◌then◌else◌,
}
use agent_studio.Shared.Int.{ℤ, pos_part, neg_part, sub_ℕ, eqb_ℤ}

abbrev pub ms_minute : ℕ
ms_minute = 60000

abbrev pub ms_hour : ℕ
ms_hour = 3600000

abbrev pub ms_day : ℕ
ms_day = 86400000

pub record Resolved : Type 0 where
  pub instant : ℕ
  pub gap : Bool

abbrev pub at_instant : ℕ → Option Resolved
at_instant i = some (record { instant = i; gap = false })

-- `naive - offset`.
abbrev pub minus : ℕ → ℤ → ℕ
minus naive offset = naive + neg_part offset - pos_part offset

-- The middle that the binary search tries: half of the way, in whole minutes.
abbrev pub middle : ℕ → ℕ → ℕ
middle low high = low + (high - low + ms_minute) / (2 * ms_minute) * ms_minute

module _ (to_naive : ℕ → ℕ) where
  abbrev pub offset_at : ℕ → ℤ
  offset_at instant = sub_ℕ (to_naive instant) (instant / 1000 * 1000)

  -- The loop that looks for the transition, on fuel; none where that is not enough.
  unfoldable pub narrow : ℕ → ℤ → ℕ → ℕ → Option ℕ
  narrow zero low_offset low high = none
  narrow (suc fuel) low_offset low high =
      let mid = middle low high in
      elim (ltb ms_minute (high - low)) [
        | false ↦ some high
        | true ↦ elim (leb mid low) [
          | true ↦ some high
          | false ↦ elim (leb high mid) [
            | true ↦ some high
            | false ↦ elim (eqb_ℤ (offset_at mid) low_offset) [
              | true ↦ narrow fuel low_offset mid high
              | false ↦ narrow fuel low_offset low mid
            ]
          ]
        ]
      ]

  -- The instant in a gap: the transition between the two candidates.
  unfoldable pub transition : ℕ → ℕ → Option Resolved
  unfolding narrow
  transition a b =
      elim (narrow (suc (max a b - min a b)) (offset_at (min a b)) (min a b) (max a b)) [
        | none ↦ none
        | some instant ↦ some (record { instant = instant; gap = true })
      ]

  unfoldable pub resolve_naive : ℕ → Option Resolved
  resolve_naive naive =
      let before = offset_at (naive - ms_day) in
      let after = offset_at (naive + ms_day) in
      let a = minus naive before in
      let b = minus naive after in
      let a_valid = eqb_ℤ (offset_at a) before in
      let b_valid = not (b == a) && eqb_ℤ (offset_at b) after in
      if a_valid
      then at_instant (if b_valid then min a b else a)
      else if b_valid
      then at_instant b
      else transition a b
