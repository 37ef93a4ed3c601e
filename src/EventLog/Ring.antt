-- ===== src/EventLog/Ring.antt =====
-- app/engine/event_log.c: the state of the ring and the operations that change it. `J` is a JSON
-- tree. The time of a call is an argument.
use event_engine_acap.Prelude.{
  ℕ, zero, suc, ◌+◌, ◌-◌, ◌%◌, Bool, false, ◌==◌, ltb, if◌then◌else◌, Option, none, some, List, [],
  Str, str_eq, snprintf, snprintf_or, get_or, set, replicate, ℤ, pos,
}

-- `EVENT_LOG_SIZE`
abbrev pub event_log_size : ℕ
event_log_size = 500

pub record LogEntry (J : Type 0) : Type 0 where
  pub rule_id : Str
  pub rule_name : Str
  pub timestamp : ℤ
  pub fired : Bool
  pub block_reason : Str
  pub trigger_snapshot : Option J
  pub actions_run : ℕ
  pub actions_failed : ℕ
  pub action_error : Str

-- The static variables `entries`, `head`, `count` and `persist_dirty`.
pub record EventLog (J : Type 0) : Type 0 where
  pub entries : List (LogEntry J)
  pub head : ℕ
  pub count : ℕ
  pub persist_dirty : ℕ

-- An entry after `memset`.
abbrev pub blank : {J : Type 0} → LogEntry J
blank = record {
  rule_id = [];
  rule_name = [];
  timestamp = pos 0;
  fired = false;
  block_reason = [];
  trigger_snapshot = none;
  actions_run = 0;
  actions_failed = 0;
  action_error = [];
}

-- `(head - 1 - i + EVENT_LOG_SIZE) % EVENT_LOG_SIZE`; `i` is below `EVENT_LOG_SIZE`, so the
-- dividend is not negative.
abbrev pub slot : ℕ → ℕ → ℕ
slot head i = (head + event_log_size - 1 - i) % event_log_size

module _ {J : Type 0} where
  abbrev pub entry_at : EventLog J → ℕ → LogEntry J
  entry_at log i = get_or log.entries (slot log.head i) blank

  unfoldable pub event_log_init : EventLog J → EventLog J
  event_log_init log = record log { entries = replicate event_log_size blank; head = 0; count = 0 }

  unfoldable pub cleanup : EventLog J → EventLog J
  cleanup log = record log { entries = replicate event_log_size blank; head = 0; count = 0 }

  -- The write of one entry at `head`, which `append` and `load` share.
  abbrev pub write_head : EventLog J → LogEntry J → EventLog J
  write_head log e = record log {
    entries = set log.entries log.head e;
    head = (log.head + 1) % event_log_size;
    count = if ltb log.count event_log_size then log.count + 1 else log.count;
  }

  unfoldable pub new_entry :
      ℕ → Option Str → Option Str → Bool → Option Str → Option J → ℕ → ℕ → LogEntry J
  new_entry now rule_id rule_name fired block_reason trigger_data run failed = record {
    rule_id = snprintf_or 37 rule_id [];
    rule_name = snprintf_or 128 rule_name [];
    timestamp = pos now;
    fired = fired;
    block_reason = snprintf_or 64 block_reason [];
    trigger_snapshot = trigger_data;
    actions_run = run;
    actions_failed = failed;
    action_error = [];
  }

  unfoldable pub append :
      EventLog J → ℕ → Option Str → Option Str → Bool → Option Str → Option J → ℕ → ℕ → EventLog J
  append log now rule_id rule_name fired block_reason trigger_data run failed =
      record (write_head log
        (new_entry now rule_id rule_name fired block_reason trigger_data run failed)) {
          persist_dirty = log.persist_dirty + 1;
        }

  -- The entry with the error written to it.
  abbrev pub with_error : Str → LogEntry J → LogEntry J
  with_error msg e = record e {
    action_error = snprintf 256 msg;
    actions_failed = if e.actions_failed == 0 then 1 else e.actions_failed;
  }

  -- The loop of `EventLog_Set_Action_Error` from age `i` on, with `n` ages left.
  unfoldable pub set_error_from : EventLog J → Str → Str → ℕ → ℕ → EventLog J
  set_error_from log rule_id msg i zero = log
  set_error_from log rule_id msg i (suc n) =
      let rest = set_error_from log rule_id msg (i + 1) n in
      if str_eq (entry_at log i).rule_id rule_id
      then record log {
        entries = set log.entries (slot log.head i) (with_error msg (entry_at log i));
      }
      else rest

  unfoldable pub set_action_error : EventLog J → Option Str → Option Str → EventLog J
  set_action_error log none error_msg = log
  set_action_error log (some rule_id) none = log
  set_action_error log (some rule_id) (some msg) = set_error_from log rule_id msg 0 log.count

  unfoldable pub clear : EventLog J → EventLog J
  clear log = record log {
    entries = replicate event_log_size blank;
    head = 0;
    count = 0;
    persist_dirty = log.persist_dirty + 1;
  }

  -- `EventLog_Count_Today` from age `i` on. `day` is libc's `localtime`, as (tm_yday, tm_year).
  module _ (day : ℤ → ℕ × ℕ) where
    abbrev pub fired_on : ℕ × ℕ → LogEntry J → Bool
    fired_on today e =
        if e.fired
        then (if (day e.timestamp).0 == today.0 then (day e.timestamp).1 == today.1 else false)
        else false

    unfoldable pub count_from : EventLog J → ℕ × ℕ → ℕ → ℕ → ℕ → ℕ
    count_from log today cnt i zero = cnt
    count_from log today cnt i (suc n) =
        count_from log today (if fired_on today (entry_at log i) then cnt + 1 else cnt) (i + 1) n

    unfoldable pub count_today : EventLog J → ℕ → ℕ
    count_today log now = count_from log (day (pos now)) 0 0 log.count
