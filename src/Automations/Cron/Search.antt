-- ===== src/Automations/Cron/Search.antt =====
-- `matchesDate` and `computeNextRunAt`. Dates are those of JavaScript's `Date` in UTC: the day of the
-- epoch is a Thursday, and the civil date of a day is computed from it. `zones` gives the wall clock of
-- a zone, none for a name that the engine does not know.
use agent_studio.Shared.{
  ℕ, zero, suc, ◌+◌, ◌-◌, ◌*◌, ◌/◌, ◌%◌, Bool, true, false, ◌&&◌, ◌||◌, Option, none, some, ltb,
  if◌then◌else◌,
}
use agent_studio.Shared.Text.{Text}
use agent_studio.Automations.Cron.Fields.{Result, ok, err, unknown_zone, no_run_time, has}
use agent_studio.Automations.Cron.Expression.{ParsedCron, parse_cron_expression}
use agent_studio.Automations.Cron.Zone.{Resolved, ms_minute, ms_hour, ms_day, resolve_naive}

-- The month and the day of the month of a day since the epoch: years from March on, in eras of 400.
pub record Civil : Type 0 where
  pub month : ℕ
  pub day : ℕ

unfoldable pub civil_of_day : ℕ → Civil
civil_of_day days =
    let of_era = (days + 719468) % 146097 in
    let year = (of_era + of_era / 36524 - of_era / 1460 - of_era / 146096) / 365 in
    let of_year = of_era - (365 * year + year / 4 - year / 100) in
    let from_march = (5 * of_year + 2) / 153 in
    record {
      month = if ltb from_march 10 then from_march + 3 else from_march - 9;
      day = of_year - (153 * from_march + 2) / 5 + 1;
    }

abbrev pub weekday_of_day : ℕ → ℕ
weekday_of_day days = (days + 4) % 7

-- Whether a day since the epoch matches.
unfoldable pub matches_day : ParsedCron → ℕ → Bool
matches_day parsed days =
    let civil = civil_of_day days in
    let by_month_day = has parsed.days_of_month civil.day in
    let by_weekday = has parsed.days_of_week (weekday_of_day days) in
    has parsed.months civil.month
    && (if parsed.day_of_month_restricted && parsed.day_of_week_restricted
        then by_month_day || by_weekday
        else by_month_day && by_weekday)

abbrev pub matches_date : ParsedCron → ℕ → Bool
matches_date parsed naive = matches_day parsed (naive / ms_day)

abbrev pub hour_of : ℕ → ℕ
hour_of naive = naive / ms_hour % 24

abbrev pub minute_of : ℕ → ℕ
minute_of naive = naive / ms_minute % 60

-- `Date.UTC(year, month, date + 1)`, and the next whole hour.
abbrev pub next_day : ℕ → ℕ
next_day naive = (naive / ms_day + 1) * ms_day

abbrev pub next_hour : ℕ → ℕ
next_hour naive = naive / ms_hour * ms_hour + ms_hour

pub data SearchOutcome : Type 0 where
  found : ℕ → SearchOutcome
  no_run : SearchOutcome
  out_of_fuel : SearchOutcome

-- The loop of `computeNextRunAt`, on fuel.
unfoldable pub search_run : ℕ → ParsedCron → (ℕ → Option Resolved) → ℕ → ℕ → ℕ → SearchOutcome
search_run zero parsed resolve from limit cursor = out_of_fuel
search_run (suc fuel) parsed resolve from limit cursor = elim (ltb cursor limit) [
  | false ↦ no_run
  | true ↦ elim (matches_date parsed cursor) [
    | false ↦ search_run fuel parsed resolve from limit (next_day cursor)
    | true ↦ elim (has parsed.hours (hour_of cursor)) [
      | false ↦ search_run fuel parsed resolve from limit (next_hour cursor)
      | true ↦ elim (has parsed.minutes (minute_of cursor)) [
        | false ↦ search_run fuel parsed resolve from limit (cursor + ms_minute)
        | true ↦ elim (resolve cursor) [
          | none ↦ out_of_fuel
          | some r ↦ elim (ltb from r.instant) [
            | true ↦ found r.instant
            | false ↦ search_run fuel parsed resolve from limit (cursor + ms_minute)
          ]
        ]
      ]
    ]
  ]
]

-- Four years and a day, in minutes.
abbrev pub search_minutes : ℕ
search_minutes = 1462 * 1440

abbrev pub first_cursor : (ℕ → ℕ) → ℕ → ℕ
first_cursor to_naive from = to_naive from / ms_minute * ms_minute + ms_minute

-- What the search gives: none where the fuel was not enough.
abbrev pub answer : SearchOutcome → Option (Result ℕ)
answer (found instant) = some (ok instant)
answer no_run = some (err no_run_time)
answer out_of_fuel = none

abbrev pub next_run_in : ParsedCron → ℕ → Option (ℕ → ℕ) → Option (Result ℕ)
next_run_in parsed from none = some (err unknown_zone)
next_run_in parsed from (some to_naive) =
    let cursor = first_cursor to_naive from in
    answer (
      search_run (suc search_minutes) parsed (resolve_naive to_naive) from (cursor + 1462 * ms_day)
        cursor)

unfoldable pub compute_next_run_at : (Text → Option (ℕ → ℕ)) → Text → ℕ → Text → Option (Result ℕ)
unfolding parse_cron_expression resolve_naive search_run
compute_next_run_at zones expression from time_zone = elim (parse_cron_expression expression) [
  | err e ↦ some (err e)
  | ok parsed ↦ next_run_in parsed from (zones time_zone)
]
