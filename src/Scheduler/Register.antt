-- ===== src/Scheduler/Register.antt =====
-- app/engine/scheduler.c: `Scheduler_Register`. `scan` is `sscanf` with "%d:%d" of a text of hours and
-- minutes that are not negative, and `minutes` the conversion (int)(d * 60.0). `n` bounds the rounds of each
-- loop of the cron parser. The latitude, the longitude and the event of the sun are not kept.
use event_engine_acap.Prelude.{
  ℕ, ◌+◌, ◌*◌, Bool, true, false, leb, if◌then◌else◌, Option, none, some, [], ◌∷◌, ◌++◌, Str, codes,
  str_eq, snprintf, length, ℤ, pos, is_pos, pos_part,
}
use event_engine_acap.Cjson.{Cjson, string_of, number_or}
use event_engine_acap.Scheduler.Entry.{
  ScheduleType, cron, interval, daily_time, astronomical, ScheduleEntry, Scheduler,
}
use event_engine_acap.Scheduler.Parse.{
  CronResult, rejected, running, parsed, parse_cron, days_array_to_mask,
}

-- `MAX_SCHEDULES`
abbrev pub max_schedules : ℕ
max_schedules = 256

-- `memset(e, 0, sizeof(ScheduleEntry))`, and the rule and the trigger.
abbrev pub blank_entry : Str → ℤ → ScheduleEntry
blank_entry rule_id trigger_index = record {
  rule_id = snprintf 37 rule_id;
  trigger_index = trigger_index;
  kind = cron;
  minute_mask = λ i. false;
  hour_mask = λ i. false;
  dom_mask = λ i. false;
  month_mask = λ i. false;
  dow_mask = λ i. false;
  cron_last_min = some 0;
  interval_seconds = 0;
  last_run = 0;
  seconds_of_day = 0;
  days_mask = λ i. false;
  fired_today = false;
  prev_sod = some 0;
  astro_offset_sec = pos 0;
  astro_sod = some 0;
  astro_yday = some 0;
}

-- `schedule_type`
unfoldable pub schedule_type : Str → Option ScheduleType
schedule_type t =
    if str_eq t (codes "cron")
    then some cron
    else if str_eq t (codes "interval")
    then some interval
    else if str_eq t (codes "daily_time")
    then some daily_time
    else if str_eq t (codes "astronomical")
    then some astronomical
    else none

abbrev pub time_at : ℕ × ℕ → ℕ
time_at (hh, mm) = hh * 3600 + mm * 60

abbrev pub as_cron : CronResult → CronResult
as_cron rejected = rejected
as_cron running = running
as_cron (parsed e) = parsed (record e { kind = cron })

module _ {J D : Type 0} (c : Cjson J D) (scan : Str → ℕ × ℕ) (minutes : D → ℤ) (n : ℕ) where
  -- `interval_seconds`, which is 60 when it is missing and at least 1.
  abbrev pub interval_of : J → ℕ
  interval_of config =
      let seconds = number_or c config (codes "interval_seconds") (pos 60) in
      if is_pos seconds then pos_part seconds else 1

  unfoldable pub daily_entry : J → ScheduleEntry → Option Str → CronResult
  daily_entry config e none = rejected
  daily_entry config e (some time) = parsed (record e {
    seconds_of_day = time_at (scan time);
    days_mask = days_array_to_mask c (c.get_object_item config (codes "days"));
    fired_today = false;
    prev_sod = none;
    kind = daily_time;
  })

  abbrev pub offset_of : Option J → ℤ
  offset_of none = pos 0
  offset_of (some item) = minutes (c.valuedouble item)

  -- The branches of `Scheduler_Register`, with the entry that is filled in.
  unfoldable pub entry_as : J → ScheduleEntry → Option ScheduleType → CronResult
  entry_as config e none = rejected
  entry_as config e (some cron) = as_cron (parse_cron n e (string_of c config (codes "cron")))
  entry_as config e (some interval) =
      parsed (record e { interval_seconds = interval_of config; last_run = 0; kind = interval })
  entry_as config e (some daily_time) = daily_entry config e (string_of c config (codes "time"))
  entry_as config e (some astronomical) = parsed (record e {
    astro_offset_sec = offset_of (c.get_object_item config (codes "offset_minutes"));
    astro_sod = none;
    astro_yday = none;
    fired_today = false;
    prev_sod = none;
    kind = astronomical;
  })

  abbrev pub typed_entry : J → ScheduleEntry → Option Str → CronResult
  typed_entry config e none = rejected
  typed_entry config e (some stype) = entry_as config e (schedule_type stype)

  -- `entry_count++`, unless the entry is refused.
  abbrev pub put_entry : Scheduler → CronResult → Option (Scheduler × Bool)
  put_entry s rejected = some (s, false)
  put_entry s running = none
  put_entry s (parsed e) = some (record s { entries = s.entries ++ (e ∷ []) }, true)

  abbrev pub new_entry : Str → ℤ → J → CronResult
  new_entry rule_id trigger_index config =
      typed_entry config (blank_entry rule_id trigger_index)
        (string_of c config (codes "schedule_type"))

  -- The table and the result, or `none` for a parse that has not ended.
  unfoldable pub scheduler_register :
      Option Str → ℤ → Option J → Scheduler → Option (Scheduler × Bool)
  scheduler_register none trigger_index config s = some (s, false)
  scheduler_register (some rule_id) trigger_index none s = some (s, false)
  scheduler_register (some rule_id) trigger_index (some config) s =
      if leb max_schedules (length s.entries)
      then some (s, false)
      else put_entry s (new_entry rule_id trigger_index config)
