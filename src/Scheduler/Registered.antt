-- ===== src/Scheduler/Registered.antt =====
-- app/engine/scheduler.c: what a registration leaves, and when a cron schedule fires then.
use event_engine_acap.Prelude.{
  ℕ, ◌≤◌, ◌<◌, ◌≡◌, refl, inl, inr, Bool, true, false, leb, Bool-cases, Option, none, some, List,
  [], ◌∷◌, ◌++◌, Str, codes, snprintf, length, length-append, take, ℤ, arith,
}
use event_engine_acap.Cjson.{Cjson, string_of}
use event_engine_acap.Scheduler.Entry.{
  ScheduleType, cron, interval, daily_time, astronomical, ScheduleEntry, Scheduler,
}
use event_engine_acap.Scheduler.Cron.{tokens}
use event_engine_acap.Scheduler.Parse.{
  CronResult, rejected, running, parsed, masks, parse_cron_field, parse_fields, parse_cron,
}
use event_engine_acap.Scheduler.Register.{
  max_schedules, blank_entry, schedule_type, as_cron, daily_entry, entry_as, typed_entry, put_entry,
  new_entry, scheduler_register,
}

-- An entry that is filled in keeps the rule and the trigger, and a cron entry fired at no minute yet.
abbrev pub Keeps : ScheduleEntry → CronResult → Type 0
Keeps e rejected = Unit {0}
Keeps e running = Unit {0}
Keeps e (parsed e') = (e'.rule_id ≡ e.rule_id) × (e'.trigger_index ≡ e.trigger_index)

masks-Keeps :
    (e : ScheduleEntry) (minute hour dom month dow : Option (List ℕ))
    → Keeps e (masks e minute hour dom month dow)
masks-Keeps e none hour dom month dow = tt
masks-Keeps e (some m) none dom month dow = tt
masks-Keeps e (some m) (some h) none month dow = tt
masks-Keeps e (some m) (some h) (some d) none dow = tt
masks-Keeps e (some m) (some h) (some d) (some o) none = tt
masks-Keeps e (some m) (some h) (some d) (some o) (some w) = (refl, refl)

fields-Keeps : (n : ℕ) (e : ScheduleEntry) (fields : List Str) → Keeps e (parse_fields n e fields)
fields-Keeps n e [] = tt
fields-Keeps n e (a ∷ []) = tt
fields-Keeps n e (a ∷ b ∷ []) = tt
fields-Keeps n e (a ∷ b ∷ c ∷ []) = tt
fields-Keeps n e (a ∷ b ∷ c ∷ d ∷ []) = tt
fields-Keeps n e (a ∷ b ∷ c ∷ d ∷ f ∷ []) =
    masks-Keeps e (parse_cron_field n a 0 59) (parse_cron_field n b 0 23)
      (parse_cron_field n c 1 31) (parse_cron_field n d 1 12) (parse_cron_field n f 0 6)
fields-Keeps n e (a ∷ b ∷ c ∷ d ∷ f ∷ g ∷ rest) = tt

pub parse_cron-Keeps :
    (n : ℕ) (e : ScheduleEntry) (expr : Option Str) → Keeps e (parse_cron n e expr)
unfolding parse_cron
parse_cron-Keeps n e none = tt
parse_cron-Keeps n e (some expr) = fields-Keeps n e (take 5 (tokens b' ' (snprintf 128 expr)))

as_cron-Keeps : (e : ScheduleEntry) (r : CronResult) → Keeps e r → Keeps e (as_cron r)
as_cron-Keeps e rejected k = tt
as_cron-Keeps e running k = tt
as_cron-Keeps e (parsed e') k = k

module _ {J D : Type 0} (c : Cjson J D) (scan : Str → ℕ × ℕ) (minutes : D → ℤ) (n : ℕ) where
  daily_entry-Keeps :
      (config : J) (e : ScheduleEntry) (time : Option Str)
      → Keeps e (daily_entry c scan minutes n config e time)
  unfolding daily_entry
  daily_entry-Keeps config e none = tt
  daily_entry-Keeps config e (some time) = (refl, refl)

  entry_as-Keeps :
      (config : J) (e : ScheduleEntry) (kind : Option ScheduleType)
      → Keeps e (entry_as c scan minutes n config e kind)
  unfolding entry_as
  entry_as-Keeps config e none = tt
  entry_as-Keeps config e (some cron) =
      as_cron-Keeps e (parse_cron n e (string_of c config (codes "cron")))
        (parse_cron-Keeps n e (string_of c config (codes "cron")))
  entry_as-Keeps config e (some interval) = (refl, refl)
  entry_as-Keeps config e (some daily_time) =
      daily_entry-Keeps config e (string_of c config (codes "time"))
  entry_as-Keeps config e (some astronomical) = (refl, refl)

  typed_entry-Keeps :
      (config : J) (e : ScheduleEntry) (stype : Option Str)
      → Keeps e (typed_entry c scan minutes n config e stype)
  typed_entry-Keeps config e none = tt
  typed_entry-Keeps config e (some stype) = entry_as-Keeps config e (schedule_type stype)

  -- What a registration of the rule and the trigger leaves of the table.
  abbrev pub Outcome : Str → ℤ → Scheduler → Option (Scheduler × Bool) → Type 0
  Outcome rule_id trigger_index s none = Unit {0}
  Outcome rule_id trigger_index s (some (s', false)) = s' ≡ s
  Outcome rule_id trigger_index s (some (s', true)) =
      (length s'.entries ≤ max_schedules)
      × ((e : ScheduleEntry) × (s' ≡ record s { entries = s.entries ++ (e ∷ []) })
          × (e.rule_id ≡ snprintf 37 rule_id)
          × (e.trigger_index ≡ trigger_index))

  put_entry-Outcome :
      (rule_id : Str) (trigger_index : ℤ) (s : Scheduler) (r : CronResult)
      → length s.entries < max_schedules
      → Keeps (blank_entry rule_id trigger_index) r
      → Outcome rule_id trigger_index s (put_entry c scan minutes n s r)
  put_entry-Outcome rule_id trigger_index s rejected h k = refl
  put_entry-Outcome rule_id trigger_index s running h k = tt
  put_entry-Outcome rule_id trigger_index s (parsed e) h k =
      (omega (arith, length-append s.entries (e ∷ [])), (e, refl, k.0, k.1))

  -- A registration that returns 1 adds one entry, for the rule and the trigger, at the end of
  -- the table, which never holds more than `MAX_SCHEDULES`, and one that returns 0, as when the table
  -- is full, leaves the table as it was.
  pub scheduler_register-Outcome :
      (rule_id : Str) (trigger_index : ℤ) (config : Option J) (s : Scheduler)
      → Outcome rule_id trigger_index s
          (scheduler_register c scan minutes n (some rule_id) trigger_index config s)
  unfolding scheduler_register
  scheduler_register-Outcome rule_id trigger_index none s = refl
  scheduler_register-Outcome rule_id trigger_index (some config) s =
      elim (Bool-cases (leb max_schedules (length s.entries))) [
        | inl full ↦ rw full refl
        | inr room ↦ rw room (
            put_entry-Outcome rule_id trigger_index s
              (new_entry c scan minutes n rule_id trigger_index config) (ground arith)
              (typed_entry-Keeps config (blank_entry rule_id trigger_index)
                (string_of c config (codes "schedule_type"))))
      ]
