-- ===== src/Scheduler/CronRules.antt =====
-- app/engine/scheduler.c: a cron schedule from the text of its expression to the ticks that fire it.
use event_engine_acap.Cjson.{Cjson}
use event_engine_acap.Scheduler.Entry.{Scheduler}
