-- ===== src/Automations/Cron/Tests.antt =====
-- Runs of the cron parser and of the search, and the theorems at a concrete schedule.
use agent_studio.Shared.{
  ℕ, ◌+◌, ◌*◌, ◌/◌, ◌%◌, ◌≤◌, ◌<◌, true, false, Option, some, [], ◌∷◌, ◌≡◌, refl, arith, ◌⊎◌,
}
use agent_studio.Shared.Text.{Text, units, text_eq, split_by, includes_text}
use agent_studio.Automations.Cron.Fields.{
  Result, ok, err, out_of_range, stray_comma, field_count, reboot, minute_spec, parse_field,
}
use agent_studio.Automations.Cron.Expression.{ParsedCron, parse_cron_expression}
use agent_studio.Automations.Cron.Bounds.{Ensures, IsWellFormed, parse_cron_expression-IsWellFormed}
use agent_studio.Automations.Cron.Zone.{ms_minute, ms_hour, ms_day, resolve_naive}
use agent_studio.Automations.Cron.Search.{civil_of_day, matches_day, answer, compute_next_run_at}
use agent_studio.Automations.Cron.Scan.{matches_minute}
use agent_studio.Automations.Cron.Wall.{Reads, IsSkipped, resolve_naive-Reads}
use agent_studio.Automations.Cron.Next.{
  reference, compute_next_run_at_ends, compute_next_run_at-scan, compute_next_run_at_reads,
}

-- Whole seconds in UTC, the only zone here.
abbrev utc : ℕ → ℕ
utc i = i / 1000 * 1000

abbrev only_utc : Text → Option (ℕ → ℕ)
only_utc zone = some utc

-- A quarter past eight and a bit, on the fifth day.
abbrev start : ℕ
start = 4 * ms_day + 8 * ms_hour + 15 * ms_minute + 1234

abbrev at_nine : Text
at_nine = units "0 9 * * 1-5"

abbrev nine_parsed : ParsedCron
nine_parsed = record {
  minutes = 0 ∷ [];
  hours = 9 ∷ [];
  days_of_month =
      1 ∷ 2 ∷ 3 ∷ 4 ∷ 5 ∷ 6 ∷ 7 ∷ 8 ∷ 9 ∷ 10 ∷ 11 ∷ 12 ∷ 13 ∷ 14 ∷ 15 ∷ 16 ∷ 17 ∷ 18 ∷ 19 ∷ 20 ∷ 21
      ∷ 22 ∷ 23 ∷ 24 ∷ 25 ∷ 26 ∷ 27 ∷ 28 ∷ 29 ∷ 30 ∷ 31 ∷ [];
  months = 1 ∷ 2 ∷ 3 ∷ 4 ∷ 5 ∷ 6 ∷ 7 ∷ 8 ∷ 9 ∷ 10 ∷ 11 ∷ 12 ∷ [];
  days_of_week = 1 ∷ 2 ∷ 3 ∷ 4 ∷ 5 ∷ [];
  day_of_month_restricted = false;
  day_of_week_restricted = true;
}

at_nine_parses : parse_cron_expression at_nine ≡ ok nine_parsed
unfolding parse_cron_expression split_by includes_text
at_nine_parses = refl

-- The epoch, a leap day and the last day before one.
first_days :
    (civil_of_day 0 ≡ record { month = 1; day = 1 })
    × (civil_of_day 789 ≡ record { month = 2; day = 29 })
    × (civil_of_day 20512 ≡ record { month = 2; day = 28 })
unfolding civil_of_day
first_days = (refl, refl, refl)

minutes_of_a_list :
    parse_field minute_spec (units "5,10-20/5")
    ≡ ok (record { values = 5 ∷ 10 ∷ 15 ∷ 20 ∷ []; wildcard = false })
unfolding parse_field text_eq split_by includes_text
minutes_of_a_list = refl

refused :
    (parse_field minute_spec (units "60") ≡ err out_of_range)
    × (parse_field minute_spec (units "1,,2") ≡ err stray_comma)
    × (parse_cron_expression (units "@reboot") ≡ err reboot)
    × (parse_cron_expression (units "* * * *") ≡ err field_count)
unfolding parse_field parse_cron_expression split_by includes_text
refused = (refl, refl, refl, refl)

monday_at_nine :
    compute_next_run_at only_utc at_nine start (units "UTC") ≡ some (ok (4 * ms_day + 9 * ms_hour))
unfolding compute_next_run_at split_by includes_text matches_day civil_of_day
monday_at_nine = refl

utc_whole : (i : ℕ) → utc i % 1000 ≡ 0
utc_whole i = omega arith

utc_near : (i : ℕ) → utc i ≤ i + ms_day
utc_near i = omega arith

parse_cron_expression-IsWellFormed_example : Ensures IsWellFormed (parse_cron_expression at_nine)
parse_cron_expression-IsWellFormed_example = parse_cron_expression-IsWellFormed at_nine

resolve_naive-Reads_example : Reads utc (3 * ms_day) (resolve_naive utc (3 * ms_day))
resolve_naive-Reads_example =
    resolve_naive-Reads utc utc_whole utc_near (3 * ms_day) (omega arith) (omega arith)

compute_next_run_at_ends_example :
    (r : Result ℕ) × (compute_next_run_at only_utc at_nine start (units "UTC") ≡ some r)
compute_next_run_at_ends_example = compute_next_run_at_ends only_utc at_nine start (units "UTC")

compute_next_run_at-scan_example :
    compute_next_run_at only_utc at_nine start (units "UTC")
    ≡ answer (reference nine_parsed utc start)
compute_next_run_at-scan_example =
    compute_next_run_at-scan only_utc at_nine start (units "UTC") nine_parsed utc at_nine_parses
      refl

compute_next_run_at_reads_example :
    (start < 4 * ms_day + 9 * ms_hour)
    × ((naive : ℕ) × (matches_minute nine_parsed naive ≡ true)
        × (IsSkipped utc naive (4 * ms_day + 9 * ms_hour)
            ⊎ (utc (4 * ms_day + 9 * ms_hour) ≡ naive)))
compute_next_run_at_reads_example =
    compute_next_run_at_reads only_utc at_nine start (units "UTC") nine_parsed utc at_nine_parses
      refl utc_whole utc_near (omega arith) (4 * ms_day + 9 * ms_hour) monday_at_nine
