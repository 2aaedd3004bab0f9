-- ===== src/Automations/Cron/Scan.antt =====
-- The search for the next run skips days and hours that cannot match. It finds what a scan minute by
-- minute finds.
use agent_studio.Shared.{
  ℕ, zero, suc, ◌+◌, ◌-◌, ◌*◌, ◌/◌, ◌%◌, ◌<◌, Bool, true, false, ◌&&◌, Option, some, ◌≡◌, refl, sym,
  ap, ◌∙◌, arith, ltb, if◌then◌else◌, Bool-cases, inl, inr,
}
use agent_studio.Automations.Cron.Fields.{has}
use agent_studio.Automations.Cron.Expression.{ParsedCron}
use agent_studio.Automations.Cron.Zone.{Resolved, ms_minute, ms_day}
use agent_studio.Automations.Cron.Search.{
  matches_day, matches_date, hour_of, minute_of, next_day, next_hour, SearchOutcome, found, no_run,
  search_run,
}

-- Whether a schedule has a run at a minute of the wall clock.
abbrev pub matches_minute : ParsedCron → ℕ → Bool
matches_minute parsed naive =
    matches_date parsed naive
    && (has parsed.hours (hour_of naive) && has parsed.minutes (minute_of naive))

module _ (parsed : ParsedCron) (resolve : ℕ → Resolved) (from : ℕ) where
  -- The first of so many minutes that matches and whose instant is after `from`.
  unfoldable pub scan_run : ℕ → ℕ → SearchOutcome
  scan_run zero naive = no_run
  scan_run (suc n) naive =
      let later = scan_run n (naive + ms_minute) in
      if matches_minute parsed naive && ltb from (resolve naive).instant
      then found (resolve naive).instant
      else later

  -- Minutes that do not match can be skipped.
  scan_skip :
      (k n naive n' naive' : ℕ)
      → n' ≡ n - k
      → naive' ≡ naive + k * ms_minute
      → ((j : ℕ) → j < k → matches_minute parsed (naive + j * ms_minute) ≡ false)
      → scan_run n naive ≡ scan_run n' naive'
  unfolding scan_run
  scan_skip zero n naive n' naive' e d h =
      let e' : n' ≡ n = omega arith in let d' : naive' ≡ naive = omega arith in rw (e', d') refl
  scan_skip (suc k) zero naive n' naive' e d h = let e' : n' ≡ 0 = omega arith in rw e' refl
  scan_skip (suc k) (suc n) naive n' naive' e d h =
      let here : matches_minute parsed naive ≡ false =
        (let at : naive + 0 * ms_minute ≡ naive = omega arith in
          ap (matches_minute parsed) (sym at) ∙ h 0 (omega arith)) in
      rw here (
        scan_skip k n (naive + ms_minute) n' naive' (omega arith) (omega arith) (λ j below.
          let at : naive + suc j * ms_minute ≡ naive + ms_minute + j * ms_minute = omega arith in
          ap (matches_minute parsed) (sym at) ∙ h (suc j) (omega arith)))

  -- The minutes up to the next day, and up to the next hour.
  scan_day :
      (n n' naive : ℕ)
      → naive % ms_minute ≡ 0
      → n' ≡ n - (next_day naive - naive) / ms_minute
      → matches_date parsed naive ≡ false
      → scan_run n naive ≡ scan_run n' (next_day naive)
  scan_day n n' naive aligned e h =
      scan_skip ((next_day naive - naive) / ms_minute) n naive n' (next_day naive) e (omega arith)
        (λ j below.
          let same : (naive + j * ms_minute) / ms_day ≡ naive / ms_day = omega arith in
          let other : matches_date parsed (naive + j * ms_minute) ≡ false =
            ap (matches_day parsed) same ∙ h in
          rw other refl)

  scan_hour :
      (n n' naive : ℕ)
      → naive % ms_minute ≡ 0
      → n' ≡ n - (next_hour naive - naive) / ms_minute
      → has parsed.hours (hour_of naive) ≡ false
      → scan_run n naive ≡ scan_run n' (next_hour naive)
  scan_hour n n' naive aligned e h =
      scan_skip ((next_hour naive - naive) / ms_minute) n naive n' (next_hour naive) e (omega arith)
        (λ j below.
          let same : hour_of (naive + j * ms_minute) ≡ hour_of naive = omega arith in
          let other : has parsed.hours (hour_of (naive + j * ms_minute)) ≡ false =
            ap (has parsed.hours) same ∙ h in
          ground (arith, other))

  -- One minute that does not end the scan.
  scan_next :
      (n naive : ℕ)
      → (matches_minute parsed naive && ltb from (resolve naive).instant) ≡ false
      → scan_run (suc n) naive ≡ scan_run n (naive + ms_minute)
  unfolding scan_run
  scan_next n naive h = rw h refl

  module _ (resolve? : ℕ → Option Resolved) (total : (n : ℕ) → resolve? n ≡ some (resolve n)) where
    -- With more fuel than there are minutes before the limit, the search is the scan of these.
    pub search_run-scan :
        (fuel n limit cursor : ℕ)
        → cursor % ms_minute ≡ 0
        → n * ms_minute ≡ limit - cursor
        → n < fuel
        → search_run fuel parsed resolve? from limit cursor ≡ scan_run n cursor
    unfolding search_run
    search_run-scan zero n limit cursor aligned e f = absurd (omega arith)
    search_run-scan (suc fuel) zero limit cursor aligned e f =
        let past : ltb cursor limit ≡ false = ground arith in
        rw (past, search_run) (unfold scan_run in refl)
    search_run-scan (suc fuel) (suc n) limit cursor aligned e f =
        let before : ltb cursor limit ≡ true = ground arith in
        elim (Bool-cases (matches_date parsed cursor)) [
          | inr day ↦
              let n' : ℕ = suc n - (next_day cursor - cursor) / ms_minute in
              rw (before, search_run)
                (rw day (
                  search_run-scan fuel n' limit (next_day cursor) (omega arith) (omega arith)
                    (omega arith)
                  ∙ sym (scan_day (suc n) n' cursor aligned refl day)))
          | inl day ↦ elim (Bool-cases (has parsed.hours (hour_of cursor))) [
            | inr hour ↦
                let n' : ℕ = suc n - (next_hour cursor - cursor) / ms_minute in
                rw (before, search_run)
                  (rw day (
                    rw hour (
                      search_run-scan fuel n' limit (next_hour cursor) (omega arith) (omega arith)
                        (omega arith)
                      ∙ sym (scan_hour (suc n) n' cursor aligned refl hour))))
            | inl hour ↦ elim (Bool-cases (has parsed.minutes (minute_of cursor))) [
              | inr minute ↦
                  rw (before, search_run)
                    (rw day (
                      rw hour (
                        rw minute (
                          search_run-scan fuel n limit (cursor + ms_minute) (omega arith)
                            (omega arith) (omega arith)
                          ∙ sym (scan_next n cursor (ground (arith, day, hour, minute)))))))
              | inl minute ↦ elim (Bool-cases (ltb from (resolve cursor).instant)) [
                | inr early ↦
                    rw (before, search_run)
                      (rw day (
                        rw hour (
                          rw minute (
                            rw (total cursor) (
                              rw early (
                                search_run-scan fuel n limit (cursor + ms_minute) (omega arith)
                                  (omega arith) (omega arith)
                                ∙ sym (scan_next n cursor (ground (arith, early)))))))))
                | inl late ↦
                    rw (before, search_run)
                      (rw day (
                        rw hour (
                          rw minute (
                            rw (total cursor) (
                              rw late (
                                unfold scan_run in
                                rw (day, scan_run) (rw hour (rw minute (rw late refl)))))))))
              ]
            ]
          ]
        ]
