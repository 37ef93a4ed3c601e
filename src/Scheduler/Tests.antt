-- ===== src/Scheduler/Tests.antt =====
-- Runs of the scheduler, and its theorems at concrete inputs.
use event_engine_acap.Prelude.{
  length, str_eq, snprintf, ℕ, ◌+◌, ◌*◌, ◌≤◌, ◌≡◌, refl, Bool, true, false, ◌==◌, Option, none,
  some, List, [], ◌∷◌, codes, pos, arith,
}
use event_engine_acap.Scheduler.Entry.{ScheduleType, cron, interval, daily_time, ScheduleEntry}
use event_engine_acap.Scheduler.Tick.{Clock, cron_allows, minute_of_day, tick_entry, tick_cron}
use event_engine_acap.Scheduler.Cron.{range_from, atoi, after_byte, tokens_from}
use event_engine_acap.Scheduler.Parse.{parse_cron_field, parse_tokens, parse_token}
use event_engine_acap.Scheduler.Firings.{Apart, start_of, firings, firings-Apart}
use event_engine_acap.Scheduler.Times.{firings_single_minute, OnceOnTime, firings-OnceOnTime}

abbrev any_bit : ℕ → Bool
any_bit i = true

abbrev entry : ScheduleType → ScheduleEntry
entry kind = record {
  rule_id = codes "rule-door";
  trigger_index = pos 0;
  kind = kind;
  minute_mask = λ i. i == 30;
  hour_mask = λ i. i == 7;
  dom_mask = any_bit;
  month_mask = any_bit;
  dow_mask = any_bit;
  cron_last_min = none;
  interval_seconds = 60;
  last_run = 0;
  seconds_of_day = 27000;
  days_mask = any_bit;
  fired_today = false;
  prev_sod = none;
  astro_offset_sec = pos 0;
  astro_sod = none;
  astro_yday = none;
}

-- Half past seven, on the days from the second of January on.
abbrev half_past_seven : ℕ → Clock
half_past_seven day = record {
  now = day * 86400 + 27000;
  sec = 0;
  minute = 30;
  hour = 7;
  mday = day + 1;
  mon = 1;
  wday = day;
  yday = day;
}

abbrev three_days : List (Option ℕ × Clock)
three_days = (none, half_past_seven 1) ∷ (none, half_past_seven 2) ∷ (none, half_past_seven 3) ∷ []

firings-Apart_example : Apart (start_of 0 three_days) 60 (firings (entry interval) three_days)
firings-Apart_example = firings-Apart three_days (entry interval) refl

one_minute : (t : Clock) → cron_allows (entry cron) t ≡ true → minute_of_day t ≡ 450
one_minute t h = ground arith

firings_single_minute_example : length (firings (entry cron) three_days) ≤ 1
firings_single_minute_example = firings_single_minute three_days (entry cron) 450 refl one_minute

-- The first of three days at the minute is a firing, the others are none.
fires_once : length (firings (entry cron) three_days) ≡ 1
unfolding firings tick_entry tick_cron
fires_once = refl

firings-OnceOnTime_example : OnceOnTime (entry daily_time) (firings (entry daily_time) three_days)
firings-OnceOnTime_example =
    firings-OnceOnTime three_days (entry daily_time) refl
      (omega arith, (omega arith, (omega arith, tt)))

-- Single numbers, a range with a step, and steps over all numbers.
parse_cron_field_run :
    parse_cron_field 60 (codes "5,10-20/5,*/30") 0 59 ≡ some (5 ∷ 10 ∷ 15 ∷ 20 ∷ 0 ∷ 30 ∷ [])
unfolding parse_cron_field parse_tokens parse_token range_from atoi after_byte tokens_from str_eq
    snprintf
parse_cron_field_run = refl

parse_cron_field_stuck : parse_cron_field 60 (codes "1-5/0") 0 59 ≡ none
unfolding parse_cron_field parse_tokens parse_token range_from atoi after_byte tokens_from str_eq
    snprintf
parse_cron_field_stuck = refl
