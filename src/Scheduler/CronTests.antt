-- ===== src/Scheduler/CronTests.antt =====
-- app/engine/scheduler.c: cron expressions and registrations at concrete inputs.
use event_engine_acap.Prelude.{ℕ, ◌≡◌, refl, true, some, [], ◌∷◌, Str, codes, ℤ, pos}
use event_engine_acap.Cjson.{json, Json}
use event_engine_acap.Scheduler.Entry.{Scheduler}
use event_engine_acap.Scheduler.Fields.{one, span, span_by, every}
use event_engine_acap.Scheduler.Masks.{star, items}
use event_engine_acap.Scheduler.Expressions.{Expression, expression_text}
use event_engine_acap.Scheduler.Register.{scheduler_register}
use event_engine_acap.Scheduler.Registered.{Outcome, scheduler_register-Outcome}

-- Every quarter of an hour and at five past, in the hours from 8 to 18, from Monday to Friday.
abbrev office_hours : Expression
office_hours = record {
  minute = items (every (codes "15") ∷ one (codes "5") ∷ []);
  hour = items (span (codes "8") (codes "18") ∷ []);
  dom = star;
  month = items (span_by (codes "1") (codes "12") (codes "2") ∷ []);
  dow = items (span (codes "1") (codes "5") ∷ []);
}

office_text : expression_text office_hours ≡ codes "*/15,5 8-18 * 1-12/2 1-5"
office_text = refl

abbrev config : Json
config =
    json.add_item
      (json.add_item json.create_object (codes "schedule_type") (json.create_string (codes "cron")))
      (codes "cron") (json.create_string (codes "*/15,5 8-18 * 1-12/2 1-5"))

abbrev no_schedules : Scheduler
no_schedules = record { entries = []; fire_cb = true }

abbrev no_time : Str → ℕ × ℕ
no_time s = (0, 0)

abbrev whole : ℤ → ℤ
whole x = x

scheduler_register-Outcome_example :
    Outcome json no_time whole 60 (codes "rule-door") (pos 0) no_schedules (
      scheduler_register json no_time whole 60
        (some (codes "rule-door"))
        (pos 0)
        (some config)
        no_schedules)
scheduler_register-Outcome_example =
    scheduler_register-Outcome json no_time whole 60 (codes "rule-door") (pos 0) (some config)
      no_schedules
