-- ===== src/Scheduler/Entry.antt =====
-- app/engine/scheduler.c: the table of schedules, and the removal of a rule's. A bitmask is the test of
-- its bits. Where the code uses -1 for a number that is not there, the model has `none`.
use event_engine_acap.Prelude.{
  ℕ, zero, suc, Bool, false, if◌then◌else◌, Option, none, some, List, [], ◌∷◌, Str, str_eq, length,
  ℤ,
}
use event_engine_acap.Table.{swap_remove}

-- `type`: 0, 1, 2 and 3
pub data ScheduleType : Type 0 where
  cron interval daily_time astronomical : ScheduleType

-- A time of day that `Scheduler_Register` took from a text is not negative here; a negative one
-- never fires.
-- The latitude, the longitude and the event are left out, since only `compute_solar_event` reads them.
pub record ScheduleEntry : Type 0 where
  pub rule_id : Str
  pub trigger_index : ℤ
  pub kind : ScheduleType
  pub minute_mask : ℕ → Bool
  pub hour_mask : ℕ → Bool
  pub dom_mask : ℕ → Bool
  pub month_mask : ℕ → Bool
  pub dow_mask : ℕ → Bool
  pub cron_last_min : Option ℕ
  pub interval_seconds : ℕ
  pub last_run : ℕ
  pub seconds_of_day : ℕ
  pub days_mask : ℕ → Bool
  pub fired_today : Bool
  pub prev_sod : Option ℕ
  pub astro_offset_sec : ℤ
  pub astro_sod : Option ℕ
  pub astro_yday : Option ℕ

-- `entries` and `entry_count`, and whether `fire_cb` is set.
pub record Scheduler : Type 0 where
  pub entries : List ScheduleEntry
  pub fire_cb : Bool

unfoldable pub scheduler_init : Bool → Scheduler
scheduler_init cb = record { entries = []; fire_cb = cb }

unfoldable pub scheduler_cleanup : Scheduler
scheduler_cleanup = record { entries = []; fire_cb = false }

-- The loop of `Scheduler_Unregister_Rule` over the entries from its position on, in at most `n`
-- rounds; the entries before the position stay.
unfoldable pub unregister_from : ℕ → Str → List ScheduleEntry → List ScheduleEntry
unregister_from zero rule_id es = es
unregister_from (suc n) rule_id [] = []
unregister_from (suc n) rule_id (e ∷ es) =
    let removed = unregister_from n rule_id (swap_remove (e ∷ es) 0) in
    let kept = e ∷ unregister_from n rule_id es in
    if str_eq e.rule_id rule_id then removed else kept

unfoldable pub scheduler_unregister_rule : Scheduler → Option Str → Scheduler
scheduler_unregister_rule s none = s
scheduler_unregister_rule s (some rule_id) = record s {
  entries = unregister_from (length s.entries) rule_id s.entries;
}
