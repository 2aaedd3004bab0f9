-- ===== src/Automations/Cron/Next.antt =====
-- `computeNextRunAt` as a whole: it ends, and what it gives is the first matching minute of the wall
-- clock.
use agent_studio.Shared.{
  ℕ, zero, suc, ◌+◌, ◌-◌, ◌*◌, ◌%◌, ◌≤◌, ◌<◌, min, Bool, true, false, not, ◌&&◌, Option, none, some,
  ◌≡◌, refl, sym, ap, ◌∙◌, subst, arith, ltb, ◌==◌, if◌then◌else◌, ◌⊎◌, inl, inr, Bool-cases,
}
use agent_studio.Shared.Int.{eqb_ℤ}
use agent_studio.Shared.Text.{Text}
use agent_studio.Automations.Cron.Fields.{Result, ok, err}
use agent_studio.Automations.Cron.Expression.{ParsedCron, parse_cron_expression}
use agent_studio.Automations.Cron.Zone.{
  Resolved, ms_minute, ms_day, at_instant, minus, offset_at, transition, resolve_naive,
}
use agent_studio.Automations.Cron.Search.{
  SearchOutcome, found, no_run, out_of_fuel, search_minutes, first_cursor, answer, next_run_in,
  compute_next_run_at,
}
use agent_studio.Automations.Cron.Scan.{matches_minute, scan_run, search_run-scan}
use agent_studio.Automations.Cron.Wall.{Reads, IsSkipped, transition_total, resolve_naive-Reads}

-- The resolution that there is.
abbrev pub or_start : Option Resolved → Resolved
or_start none = record { instant = 0; gap = true }
or_start (some r) = r

some-or_start : (o : Option Resolved) → (r : Resolved) × (o ≡ some r) → o ≡ some (or_start o)
some-or_start o (r, e) = e ∙ ap (λ p. some (or_start p)) (sym e)

choice_exists :
    (a_valid b_valid : Bool) (i a b : ℕ) (t : Option Resolved)
    → (r : Resolved) × (t ≡ some r)
    → (r : Resolved) × ((if a_valid
          then at_instant (if b_valid then i else a)
          else if b_valid
          then at_instant b
          else t)
        ≡ some r)
choice_exists true b_valid i a b t h = (_, refl)
choice_exists false true i a b t h = (_, refl)
choice_exists false false i a b t h = h

module _ (to_naive : ℕ → ℕ) where
  abbrev pub resolve : ℕ → Resolved
  resolve naive = or_start (resolve_naive to_naive naive)

  transition_exists : (a b : ℕ) → (r : Resolved) × (transition to_naive a b ≡ some r)
  transition_exists a b = let (r, e, _, _, _) = transition_total to_naive a b in (r, e)

  resolve_naive_exists : (naive : ℕ) → (r : Resolved) × (resolve_naive to_naive naive ≡ some r)
  unfolding resolve_naive
  resolve_naive_exists naive =
      let before = offset_at to_naive (naive - ms_day) in
      let after = offset_at to_naive (naive + ms_day) in
      let a = minus naive before in
      let b = minus naive after in
      choice_exists (eqb_ℤ (offset_at to_naive a) before)
        (not (b == a) && eqb_ℤ (offset_at to_naive b) after) (min a b) a b (transition to_naive a b)
        (transition_exists a b)

  resolve_naive_total : (naive : ℕ) → resolve_naive to_naive naive ≡ some (resolve naive)
  resolve_naive_total naive =
      some-or_start (resolve_naive to_naive naive) (resolve_naive_exists naive)

gap_or_reading :
    (to_naive : ℕ → ℕ) (naive : ℕ) (r : Resolved)
    → Reads to_naive naive (some r)
    → IsSkipped to_naive naive r.instant ⊎ (to_naive r.instant ≡ naive)
gap_or_reading to_naive naive r (inl (_, skipped)) = inl skipped
gap_or_reading to_naive naive r (inr (_, reads)) = inr reads

module _ (parsed : ParsedCron) (to_naive : ℕ → ℕ) (from : ℕ) where
  -- The first of the minutes of four years and a day that has a run.
  abbrev pub reference : SearchOutcome
  reference = scan_run parsed (resolve to_naive) from search_minutes (first_cursor to_naive from)

  pub next_run_in-scan : next_run_in parsed from (some to_naive) ≡ answer reference
  next_run_in-scan = ap answer (
      search_run-scan parsed (resolve to_naive) from (resolve_naive to_naive)
        (resolve_naive_total to_naive) (suc search_minutes) search_minutes
        (first_cursor to_naive from + 1462 * ms_day) (first_cursor to_naive from) (omega arith)
        (omega arith) (omega arith))

-- What a scan finds: a matching minute whose instant is after `from`.
abbrev pub IsRun : ParsedCron → (ℕ → Resolved) → ℕ → ℕ → SearchOutcome → Type 0
IsRun parsed resolve from start (found i) =
    (naive : ℕ) × (matches_minute parsed naive ≡ true)
    × (i ≡ (resolve naive).instant)
    × (from < i)
    × (start ≤ naive)
    × (naive % ms_minute ≡ start % ms_minute)
IsRun parsed resolve from start no_run = Unit
IsRun parsed resolve from start out_of_fuel = ⊥

IsRun-earlier :
    (parsed : ParsedCron) (resolve : ℕ → Resolved) (from start : ℕ) (o : SearchOutcome)
    → IsRun parsed resolve from (start + ms_minute) o
    → IsRun parsed resolve from start o
IsRun-earlier parsed resolve from start (found i) (naive, m, e, after, le, aligned) =
    (naive, m, e, after, omega arith, omega arith)
IsRun-earlier parsed resolve from start no_run h = tt
IsRun-earlier parsed resolve from start out_of_fuel h = h

scan_run-IsRun :
    (parsed : ParsedCron) (resolve : ℕ → Resolved) (from n naive : ℕ)
    → IsRun parsed resolve from naive (scan_run parsed resolve from n naive)
unfolding scan_run
scan_run-IsRun parsed resolve from zero naive = tt
scan_run-IsRun parsed resolve from (suc n) naive =
    let later = scan_run parsed resolve from n (naive + ms_minute) in
    elim (Bool-cases (matches_minute parsed naive && ltb from (resolve naive).instant)) [
      | inl here ↦
          rw (here, scan_run)
            (naive, ground (arith, here), refl, ground (arith, here), omega arith, refl)
      | inr other ↦
          rw (other, scan_run)
            (IsRun-earlier parsed resolve from naive later
              (scan_run-IsRun parsed resolve from n (naive + ms_minute)))
    ]

answer_exists :
    (parsed : ParsedCron) (resolve : ℕ → Resolved) (from start : ℕ) (o : SearchOutcome)
    → IsRun parsed resolve from start o
    → (r : Result ℕ) × (answer o ≡ some r)
answer_exists parsed resolve from start (found i) h = (_, refl)
answer_exists parsed resolve from start no_run h = (_, refl)
answer_exists parsed resolve from start out_of_fuel h = absurd h

found_answer :
    (parsed : ParsedCron) (resolve : ℕ → Resolved) (from start : ℕ) (o : SearchOutcome) (i : ℕ)
    → IsRun parsed resolve from start o
    → answer o ≡ some (ok i)
    → IsRun parsed resolve from start (found i)
found_answer parsed resolve from start (found j) i h e =
    subst (λ k. IsRun parsed resolve from start (found k)) (ground (arith, e)) h
found_answer parsed resolve from start no_run i h e = ground (arith, e)
found_answer parsed resolve from start out_of_fuel i h e = absurd h

reference-IsRun :
    (parsed : ParsedCron) (to_naive : ℕ → ℕ) (from : ℕ)
    → IsRun parsed
        (resolve to_naive)
        from
        (first_cursor to_naive from)
        (reference parsed to_naive from)
reference-IsRun parsed to_naive from =
    scan_run-IsRun parsed (resolve to_naive) from search_minutes (first_cursor to_naive from)

next_run_in_exists :
    (parsed : ParsedCron) (from : ℕ) (zone : Option (ℕ → ℕ))
    → (r : Result ℕ) × (next_run_in parsed from zone ≡ some r)
next_run_in_exists parsed from none = (_, refl)
next_run_in_exists parsed from (some to_naive) =
    subst (λ o. (r : Result ℕ) × (o ≡ some r)) (sym (next_run_in-scan parsed to_naive from))
      (answer_exists parsed (resolve to_naive) from (first_cursor to_naive from)
        (reference parsed to_naive from) (reference-IsRun parsed to_naive from))

module _ (zones : Text → Option (ℕ → ℕ)) (expression : Text) (from : ℕ) (time_zone : Text) where
  ends_when :
      (r : Result ParsedCron)
      → parse_cron_expression expression ≡ r
      → (answer : Result ℕ) × (compute_next_run_at zones expression from time_zone ≡ some answer)
  unfolding compute_next_run_at
  ends_when (err e) h = (err e, rw (h, compute_next_run_at) refl)
  ends_when (ok parsed) h =
      rw (h, compute_next_run_at) (next_run_in_exists parsed from (zones time_zone))

  -- Whatever the expression, the zone and the start, `computeNextRunAt` ends with an instant or an error.
  pub compute_next_run_at_ends :
      (r : Result ℕ) × (compute_next_run_at zones expression from time_zone ≡ some r)
  unfolding compute_next_run_at
  compute_next_run_at_ends = ends_when (parse_cron_expression expression) refl

  module _ (parsed : ParsedCron) (to_naive : ℕ → ℕ)
      (parses : parse_cron_expression expression ≡ ok parsed)
      (known : zones time_zone ≡ some to_naive) where
    -- For an expression that parses and a zone that is known, `computeNextRunAt` gives what a scan of
    -- every minute of the next 1462 days gives: the instant of the first one that matches and lies after
    -- the start, or the error that there is none.
    pub compute_next_run_at-scan :
        compute_next_run_at zones expression from time_zone
        ≡ answer (reference parsed to_naive from)
    unfolding compute_next_run_at
    compute_next_run_at-scan =
        rw (parses, compute_next_run_at) (rw known (next_run_in-scan parsed to_naive from))

    -- If moreover the zone's clock shows whole seconds and is at most a day ahead, and the clock at the
    -- start shows two days or more after 1970, then an instant that `computeNextRunAt` gives lies after
    -- the start and belongs to a minute that the expression matches: either the clock shows this minute
    -- then, or the clock shows it neither with the offset of a day before nor with that of a day after,
    -- and the instant lies between those at which these offsets put it.
    pub compute_next_run_at_reads :
        ((i : ℕ) → to_naive i % 1000 ≡ 0)
        → ((i : ℕ) → to_naive i ≤ i + ms_day)
        → 2 * ms_day ≤ to_naive from
        → (i : ℕ) → compute_next_run_at zones expression from time_zone ≡ some (ok i)
        → (from < i)
          × ((naive : ℕ) × (matches_minute parsed naive ≡ true)
              × (IsSkipped to_naive naive i ⊎ (to_naive i ≡ naive)))
    compute_next_run_at_reads whole near late i given =
        let outcome = reference parsed to_naive from in
        let (naive, m, e, after, start, aligned) =
          found_answer parsed (resolve to_naive) from (first_cursor to_naive from) outcome i
            (reference-IsRun parsed to_naive from) (sym compute_next_run_at-scan ∙ given) in
        let reads : Reads to_naive naive (some (resolve to_naive naive)) =
          subst (Reads to_naive naive) (resolve_naive_total to_naive naive)
            (resolve_naive-Reads to_naive whole near naive (omega arith) (omega arith)) in
        let at_i =
          subst (λ j. IsSkipped to_naive naive j ⊎ (to_naive j ≡ naive)) (sym e)
            (gap_or_reading to_naive naive (resolve to_naive naive) reads) in
        (after, (naive, m, at_i))
