-- ===== src/Scheduler/Tick.antt =====
-- app/engine/scheduler.c: `Scheduler_Tick`. What it reads of the clock is the record `Clock`, and what
-- `compute_solar_event` finds for an entry is an argument, `none` for its -1.
use event_engine_acap.Prelude.{
  ℕ, suc, ◌+◌, ◌-◌, ◌*◌, Bool, true, false, not, ◌&&◌, ltb, leb, ◌==◌, if◌then◌else◌, Option, none,
  some, List, [], ◌∷◌, Str, ℤ, pos, negsuc,
}
use event_engine_acap.Scheduler.Entry.{
  ScheduleType, cron, interval, daily_time, astronomical, ScheduleEntry, Scheduler,
}

-- `time(NULL)` and the fields of `localtime` of it; `mon` is `tm_mon + 1`.
pub record Clock : Type 0 where
  pub now : ℕ
  pub sec : ℕ
  pub minute : ℕ
  pub hour : ℕ
  pub mday : ℕ
  pub mon : ℕ
  pub wday : ℕ
  pub yday : ℕ

abbrev pub sod : Clock → ℕ
sod t = t.hour * 3600 + t.minute * 60 + t.sec

abbrev pub minute_of_day : Clock → ℕ
minute_of_day t = t.hour * 60 + t.minute

abbrev pub is_at : Option ℕ → ℕ → Bool
is_at none n = false
is_at (some m) n = m == n

-- The fields of a cron entry allow the minute.
abbrev pub cron_allows : ScheduleEntry → Clock → Bool
cron_allows e t =
    e.minute_mask t.minute
    && (e.hour_mask t.hour && (e.dom_mask t.mday && (e.month_mask t.mon && e.dow_mask t.wday)))

unfoldable pub tick_cron : Clock → ScheduleEntry → ScheduleEntry × Bool
tick_cron t e =
    if t.sec == 0 && not (is_at e.cron_last_min (minute_of_day t))
    then (if cron_allows e t
        then (record e { cron_last_min = some (minute_of_day t) }, true)
        else (e, false))
    else (e, false)

-- The differences are those of `time_t`; a clock that went back is not due.
unfoldable pub tick_interval : Clock → ScheduleEntry → ScheduleEntry × Bool
tick_interval t e =
    if e.last_run == 0
    then (record e { last_run = t.now }, false)
    else if leb (e.last_run + e.interval_seconds) t.now
    then (record e { last_run = t.now }, true)
    else (e, false)

-- `prev_sod > 0 && sod < prev_sod`
abbrev pub crossed : Option ℕ → ℕ → Bool
crossed none now = false
crossed (some before) now = ltb 0 before && ltb now before

-- The reset at midnight.
abbrev pub new_day : Clock → ScheduleEntry → ScheduleEntry
new_day t e = record e {
  fired_today = if crossed e.prev_sod (sod t) then false else e.fired_today;
  prev_sod = some (sod t);
}

abbrev pub within_minute : ℕ → ℕ → Bool
within_minute start now = leb start now && ltb now (start + 60)

unfoldable pub tick_daily : Clock → ScheduleEntry → ScheduleEntry × Bool
tick_daily t e =
    let e' = new_day t e in
    if not e'.fired_today && (within_minute e.seconds_of_day (sod t) && e.days_mask t.wday)
    then (record e' { fired_today = true }, true)
    else (e', false)

-- `raw + astro_offset_sec`, moved once by a day into the day; one that stays negative is `none`.
abbrev pub shifted : ℕ → ℤ → Option ℕ
shifted raw (pos later) =
    some (if leb 86400 (raw + later) then raw + later - 86400 else raw + later)
shifted raw (negsuc earlier) =
    if leb (suc earlier) (raw + 86400)
    then some (if leb (suc earlier) raw then raw - suc earlier else raw + 86400 - suc earlier)
    else none

abbrev pub event_time : Option ℕ → ℤ → Option ℕ
event_time none offset = none
event_time (some raw) offset = shifted raw offset

-- The time of the event, computed once in a day.
abbrev pub compute_event : Option ℕ → Clock → ScheduleEntry → ScheduleEntry
compute_event solar t e =
    if is_at e.astro_yday t.yday
    then e
    else record e { astro_sod = event_time solar e.astro_offset_sec; astro_yday = some t.yday }

abbrev pub is_within : Option ℕ → ℕ → Bool
is_within none now = false
is_within (some start) now = within_minute start now

unfoldable pub tick_astronomical : Option ℕ → Clock → ScheduleEntry → ScheduleEntry × Bool
tick_astronomical solar t e =
    let e' = compute_event solar t (new_day t e) in
    if not e'.fired_today && is_within e'.astro_sod (sod t)
    then (record e' { fired_today = true }, true)
    else (e', false)

-- The switch of `Scheduler_Tick`, and whether `fire_cb` is called.
abbrev pub tick_as : ScheduleType → Option ℕ → Clock → ScheduleEntry → ScheduleEntry × Bool
tick_as cron solar t e = tick_cron t e
tick_as interval solar t e = tick_interval t e
tick_as daily_time solar t e = tick_daily t e
tick_as astronomical solar t e = tick_astronomical solar t e

unfoldable pub tick_entry : Option ℕ → Clock → ScheduleEntry → ScheduleEntry × Bool
tick_entry solar t e = tick_as e.kind solar t e

-- The loop of `Scheduler_Tick`, with the arguments of the calls of `fire_cb`.
unfoldable pub tick_entries :
    (ScheduleEntry → Option ℕ) → Clock → List ScheduleEntry → List ScheduleEntry × List (Str × ℤ)
tick_entries solar t [] = ([], [])
tick_entries solar t (e ∷ es) =
    let (e', fires) = tick_entry (solar e) t e in
    let (es', calls) = tick_entries solar t es in
    (e' ∷ es', if fires then (e.rule_id, e.trigger_index) ∷ calls else calls)

unfoldable pub scheduler_tick :
    (ScheduleEntry → Option ℕ) → Clock → Scheduler → Scheduler × List (Str × ℤ)
scheduler_tick solar t s =
    let (es, calls) = tick_entries solar t s.entries in
    if s.fire_cb then (record s { entries = es }, calls) else (s, [])
