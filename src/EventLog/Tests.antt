-- ===== src/EventLog/Tests.antt =====
-- Runs of the ring, and its theorems at concrete inputs.
use event_engine_acap.Prelude.{
  ℕ, zero, suc, ◌+◌, ◌≡◌, refl, true, false, none, some, [], ◌∷◌, map, codes, take, ℤ, arith,
  snprintf, snprintf_or,
}
use event_engine_acap.Cjson.{Json, json, json_laws}
use event_engine_acap.EventLog.Ring.{EventLog, event_log_init, append, new_entry, event_log_size}
use event_engine_acap.EventLog.Recent.{IsValid, recent, recent-append, event_log_init-IsValid}
use event_engine_acap.EventLog.Json.{persist}
use event_engine_acap.EventLog.Entry.{saved}
use event_engine_acap.EventLog.Load.{load}
use event_engine_acap.EventLog.RoundTrip.{Ordered, AllFit, load-persist}

abbrev raw : EventLog Json
raw = record { entries = []; head = 0; count = 0; persist_dirty = 0 }

abbrev one_fired : EventLog Json
one_fired =
    append (event_log_init raw) 5 (some (codes "r1")) (some (codes "door")) true none none 0 0

abbrev two_entries : EventLog Json
two_entries = append one_fired 9 (some (codes "r2")) none false (some (codes "cooldown")) none 0 0

one_fired-IsValid : IsValid one_fired
one_fired-IsValid =
    (recent-append (event_log_init raw) 5 (some (codes "r1")) (some (codes "door")) true none none 0
      0 (event_log_init-IsValid raw)).0

two_entries-IsValid : IsValid two_entries
two_entries-IsValid =
    (recent-append one_fired 9 (some (codes "r2")) none false (some (codes "cooldown")) none 0 0
      one_fired-IsValid).0

recent-append_example :
    IsValid two_entries
    × (recent two_entries
        ≡ take event_log_size (
            new_entry 9 (some (codes "r2")) none false (some (codes "cooldown")) none 0 0
            ∷ recent one_fired))
    × (two_entries.persist_dirty ≡ one_fired.persist_dirty + 1)
recent-append_example =
    recent-append one_fired 9 (some (codes "r2")) none false (some (codes "cooldown")) none 0 0
      one_fired-IsValid

a_day : ℤ → ℕ × ℕ
a_day z = (3, 126)

two_entries-Ordered : Ordered two_entries 2
unfolding append event_log_init new_entry
two_entries-Ordered zero h = refl
two_entries-Ordered (suc i) h = absurd (omega arith)

two_entries-AllFit : AllFit two_entries 2
unfolding append event_log_init new_entry snprintf_or snprintf
two_entries-AllFit zero h = omega arith
two_entries-AllFit (suc zero) h = omega arith
two_entries-AllFit (suc (suc i)) h = absurd (omega arith)

load-persist_example :
    recent (load json (event_log_init raw) (persist json two_entries).1)
    ≡ map saved (take 200 (recent two_entries))
unfolding append event_log_init
load-persist_example =
    load-persist json json_laws raw two_entries two_entries-IsValid (omega arith)
      two_entries-Ordered two_entries-AllFit
