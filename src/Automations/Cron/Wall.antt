-- ===== src/Automations/Cron/Wall.antt =====
-- What the instants that readings of the wall clock resolve to read on it.
use agent_studio.Shared.{
  ℕ, zero, suc, ◌+◌, ◌-◌, ◌*◌, ◌/◌, ◌%◌, ◌≤◌, ◌<◌, min, max, true, false, not, ◌&&◌, Option, none,
  some, ◌≡◌, ◌≢◌, refl, subst, arith, ltb, leb, ◌==◌, ◌⊎◌, inl, inr, Bool-cases,
}
use agent_studio.Shared.Int.{ℤ, pos, negsuc, pos_part, neg_part, sub_ℕ, eqb_ℤ}
use agent_studio.Automations.Cron.Zone.{
  ms_minute, ms_day, Resolved, minus, middle, offset_at, narrow, transition, resolve_naive,
}

eqb_ℤ_sound : (a b : ℤ) → eqb_ℤ a b ≡ true → a ≡ b
eqb_ℤ_sound a b h = ground arith

sub_ℕ_parts : (a b : ℕ) → pos_part (sub_ℕ a b) + b ≡ neg_part (sub_ℕ a b) + a
sub_ℕ_parts a b = ground arith

sub_ℕ_whole :
    (a b : ℕ)
    → a % 1000 ≡ 0
    → b % 1000 ≡ 0
    → (pos_part (sub_ℕ a b) % 1000 ≡ 0)
      × (neg_part (sub_ℕ a b) % 1000 ≡ 0)
      × (pos_part (sub_ℕ a b) + b ≤ max a b)
sub_ℕ_whole a b h k = ground arith

reading_of_offset :
    (t i naive : ℕ) (offset : ℤ)
    → i ≡ minus naive offset
    → pos_part offset ≤ naive
    → (pos_part offset % 1000 ≡ 0) × (neg_part offset % 1000 ≡ 0)
    → naive % 1000 ≡ 0
    → sub_ℕ t (i / 1000 * 1000) ≡ offset
    → t ≡ naive
reading_of_offset t i naive offset d le w n e =
    let parts : pos_part offset + i / 1000 * 1000 ≡ neg_part offset + t =
      subst (λ o. pos_part o + i / 1000 * 1000 ≡ neg_part o + t) e
        (sub_ℕ_parts t (i / 1000 * 1000)) in
    omega arith

offset_small :
    (t k naive : ℕ)
    → t ≤ k + ms_day
    → 2 * ms_day ≤ naive
    → pos_part (sub_ℕ t (k / 1000 * 1000)) ≤ naive
offset_small t k naive h le = ground arith

either_min : (f : ℕ → ℕ) (a b n : ℕ) → f a ≡ n → f b ≡ n → f (min a b) ≡ n
either_min f a b n h k = elim (Bool-cases (leb a b)) [
  | inl le ↦ let e : min a b ≡ a = ground arith in rw e h
  | inr gt ↦ let e : min a b ≡ b = ground arith in rw e k
]

-- With the offset that it was computed with, an instant that has the reading is valid.
offset_of_reading :
    (t i naive : ℕ) (offset : ℤ)
    → i ≡ minus naive offset
    → pos_part offset ≤ naive
    → (pos_part offset % 1000 ≡ 0) × (neg_part offset % 1000 ≡ 0)
    → naive % 1000 ≡ 0
    → t ≡ naive
    → eqb_ℤ (sub_ℕ t (i / 1000 * 1000)) offset ≡ true
offset_of_reading t i naive (pos p) d le w n e = ground (arith, d, le, w, n, e)
offset_of_reading t i naive (negsuc p) d le w n e = ground (arith, d, le, w, n, e)

-- The instants at which a reading would stand with the offset of a day before and of a day after.
abbrev pub at_offset_before : (ℕ → ℕ) → ℕ → ℕ
at_offset_before to_naive naive = minus naive (offset_at to_naive (naive - ms_day))

abbrev pub at_offset_after : (ℕ → ℕ) → ℕ → ℕ
at_offset_after to_naive naive = minus naive (offset_at to_naive (naive + ms_day))

-- A reading that the clock skips: it shows it neither with the offset of a day before nor with that of
-- a day after. The instant for it lies between where these offsets put it.
abbrev pub IsSkipped : (ℕ → ℕ) → ℕ → ℕ → Type 0
IsSkipped to_naive naive i =
    let a = at_offset_before to_naive naive in
    let b = at_offset_after to_naive naive in
    (to_naive a ≢ naive) × (to_naive b ≢ naive) × (min a b ≤ i) × (i ≤ max a b)

-- What `resolveNaive` gives for a reading of the clock: an instant with that reading, or, marked as a
-- gap, one for a reading that the clock skips.
abbrev pub Reads : (ℕ → ℕ) → ℕ → Option Resolved → Type 0
Reads to_naive naive none = ⊥
Reads to_naive naive (some r) =
    ((r.gap ≡ true) × IsSkipped to_naive naive r.instant)
    ⊎ ((r.gap ≡ false) × (to_naive r.instant ≡ naive))

module _ (to_naive : ℕ → ℕ) where
  -- The binary search ends, between its bounds.
  pub narrow_total :
      (fuel : ℕ) (low_offset : ℤ) (low high : ℕ)
      → high - low < fuel
      → low ≤ high
      → (i : ℕ) × (narrow to_naive fuel low_offset low high ≡ some i) × (low ≤ i) × (i ≤ high)
  unfolding narrow
  narrow_total zero low_offset low high f le = absurd (omega arith)
  narrow_total (suc fuel) low_offset low high f le =
      let mid : ℕ = middle low high in
      elim (Bool-cases (ltb ms_minute (high - low))) [
        | inr near ↦ (high, rw (near, narrow) refl, le, omega arith)
        | inl far ↦ elim (Bool-cases (leb mid low)) [
          | inl stuck ↦ (high, rw (far, narrow) (rw stuck refl), le, omega arith)
          | inr above ↦ elim (Bool-cases (leb high mid)) [
            | inl stuck ↦ (high, rw (far, narrow) (rw above (rw stuck refl)), le, omega arith)
            | inr below ↦ elim (Bool-cases (eqb_ℤ (offset_at to_naive mid) low_offset)) [
              | inl same ↦
                  let (i, e, l, h) =
                    narrow_total fuel low_offset mid high (ground arith) (ground arith) in
                  (i, rw (far, narrow) (rw above (rw below (rw same e))), ground arith, h)
              | inr other ↦
                  let (i, e, l, h) =
                    narrow_total fuel low_offset low mid (ground arith) (ground arith) in
                  (i, rw (far, narrow) (rw above (rw below (rw other e))), l, ground arith)
            ]
          ]
        ]
      ]

  pub transition_total :
      (a b : ℕ)
      → (r : Resolved) × (transition to_naive a b ≡ some r)
        × (r.gap ≡ true)
        × (min a b ≤ r.instant)
        × (r.instant ≤ max a b)
  unfolding transition
  transition_total a b =
      let (i, e, low, high) =
        narrow_total (suc (max a b - min a b)) (offset_at to_naive (min a b)) (min a b) (max a b)
          (omega arith) (omega arith) in
      (record { instant = i; gap = true }, rw (e, transition) refl, refl, low, high)

  module _ (whole : (i : ℕ) → to_naive i % 1000 ≡ 0)
      (near : (i : ℕ) → to_naive i ≤ i + ms_day) where
    -- A candidate has the reading exactly where its offset is the one that it was computed with.
    module _ (naive k : ℕ) (n : naive % 1000 ≡ 0) (le : 2 * ms_day ≤ naive) where
      offset_whole :
          let offset = offset_at to_naive k in
          (pos_part offset % 1000 ≡ 0) × (neg_part offset % 1000 ≡ 0)
      offset_whole =
          let (p, q, _) = sub_ℕ_whole (to_naive k) (k / 1000 * 1000) (whole k) (omega arith) in
          (p, q)

      candidate_reads :
          let offset = offset_at to_naive k in
          let i = minus naive offset in
          eqb_ℤ (offset_at to_naive i) offset ≡ true → to_naive i ≡ naive
      candidate_reads h =
          let offset = offset_at to_naive k in
          let i = minus naive offset in
          reading_of_offset (to_naive i) i naive offset refl
            (offset_small (to_naive k) k naive (near k) le) offset_whole n
            (eqb_ℤ_sound (offset_at to_naive i) offset h)

      candidate_skips :
          let offset = offset_at to_naive k in
          let i = minus naive offset in
          eqb_ℤ (offset_at to_naive i) offset ≡ false → to_naive i ≢ naive
      candidate_skips h e =
          let offset = offset_at to_naive k in
          let i = minus naive offset in
          let same =
            offset_of_reading (to_naive i) i naive offset refl
              (offset_small (to_naive k) k naive (near k) le) offset_whole n e in
          absurd (cc (h, same))

    module _ (naive : ℕ) (n : naive % 1000 ≡ 0) (le : 2 * ms_day ≤ naive) where
      -- Where the second candidate is not tried or not valid, it does not have the reading either.
      after_skips :
          let a = at_offset_before to_naive naive in
          let b = at_offset_after to_naive naive in
          let after = offset_at to_naive (naive + ms_day) in
          to_naive a ≢ naive
          → (not (b == a) && eqb_ℤ (offset_at to_naive b) after) ≡ false
          → to_naive b ≢ naive
      after_skips skipped none_else =
          let a = at_offset_before to_naive naive in
          let b = at_offset_after to_naive naive in
          let after = offset_at to_naive (naive + ms_day) in
          elim (Bool-cases (b == a)) [
            | inl same ↦
                let e : a ≡ b = ground (arith, same) in subst (λ i. to_naive i ≢ naive) e skipped
            | inr other ↦
                candidate_skips naive (naive + ms_day) n le (ground (arith, other, none_else))
          ]

      -- In a zone whose clock shows whole seconds and is at most a day ahead, a reading of the clock in
      -- whole seconds, two days or more after 1970, resolves to an instant with that reading, or,
      -- marked as a gap, where the clock has the reading neither with the offset of a day before nor
      -- with that of a day after, to an instant between those at which these offsets put it.
      pub resolve_naive-Reads : Reads to_naive naive (resolve_naive to_naive naive)
      unfolding resolve_naive
      resolve_naive-Reads =
          let before = offset_at to_naive (naive - ms_day) in
          let after = offset_at to_naive (naive + ms_day) in
          let a = minus naive before in
          let b = minus naive after in
          elim (Bool-cases (eqb_ℤ (offset_at to_naive a) before)) [
            | inl valid ↦
                let reads_a = candidate_reads naive (naive - ms_day) n le valid in
                elim (Bool-cases (not (b == a) && eqb_ℤ (offset_at to_naive b) after)) [
                  | inl other ↦
                      let reads_b =
                        candidate_reads naive (naive + ms_day) n le (ground (arith, other)) in
                      rw (valid, resolve_naive)
                        (rw other (inr (refl, either_min to_naive a b naive reads_a reads_b)))
                  | inr none_else ↦ rw (valid, resolve_naive) (rw none_else (inr (refl, reads_a)))
                ]
            | inr bad ↦
                let skips_a = candidate_skips naive (naive - ms_day) n le bad in
                elim (Bool-cases (not (b == a) && eqb_ℤ (offset_at to_naive b) after)) [
                  | inl other ↦
                      let reads_b =
                        candidate_reads naive (naive + ms_day) n le (ground (arith, other)) in
                      rw (bad, resolve_naive) (rw other (inr (refl, reads_b)))
                  | inr none_else ↦
                      let (r, e, gap, low, high) = transition_total a b in
                      rw (bad, resolve_naive)
                        (rw none_else
                          (rw e (inl (gap, (skips_a, after_skips skips_a none_else, low, high)))))
                ]
          ]
