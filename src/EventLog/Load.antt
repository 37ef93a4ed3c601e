-- ===== src/EventLog/Load.antt =====
-- app/engine/event_log.c: `EventLog_Load`.
use event_engine_acap.Prelude.{
  ℕ, ◌+◌, ◌-◌, Bool, true, false, ltb, if◌then◌else◌, Option, none, some, List, [], ◌∷◌, codes,
  snprintf_or, length, drop, pos,
}
use event_engine_acap.Cjson.{Cjson, string_of, number_or}
use event_engine_acap.EventLog.Ring.{LogEntry, EventLog, event_log_size, write_head}

-- `LoadItem`
pub record LoadItem (J D : Type 0) : Type 0 where
  pub obj : J
  pub ts : D
  pub pos : ℕ

module _ {J D : Type 0} (c : Cjson J D) where
  -- `load_item_cmp(a, b) < 0`; two doubles of a file differ when one is below the other.
  unfoldable pub load_item_before : LoadItem J D → LoadItem J D → Bool
  load_item_before x y =
      if c.lt x.ts y.ts then true else if c.lt y.ts x.ts then false else ltb x.pos y.pos

  unfoldable pub insert_item : LoadItem J D → List (LoadItem J D) → List (LoadItem J D)
  insert_item x [] = x ∷ []
  insert_item x (y ∷ ys) = if load_item_before x y then x ∷ y ∷ ys else y ∷ insert_item x ys

  -- `qsort` by `load_item_cmp`, which leaves no two items equal, so there is one sorted order.
  unfoldable pub sort_items : List (LoadItem J D) → List (LoadItem J D)
  sort_items [] = []
  sort_items (x ∷ xs) = insert_item x (sort_items xs)

  unfoldable pub load_items : ℕ → List J → List (LoadItem J D)
  load_items m [] = []
  load_items m (it ∷ rest) =
      record {
        obj = it;
        ts = elim (c.get_object_item it (codes "timestamp")) [
          | none ↦ c.of_ℤ (pos 0)
          | some ts_j ↦ c.valuedouble ts_j
        ];
        pos = m;
      }
      ∷ load_items (m + 1) rest

  unfoldable pub load_entry : J → LogEntry J
  load_entry obj = record {
    rule_id = snprintf_or 37 (string_of c obj (codes "rule_id")) [];
    rule_name = snprintf_or 128 (string_of c obj (codes "rule_name")) [];
    timestamp = number_or c obj (codes "timestamp") (pos 0);
    fired = elim (c.get_object_item obj (codes "fired")) [
      | none ↦ false
      | some fired_j ↦ c.is_true fired_j
    ];
    block_reason = snprintf_or 64 (string_of c obj (codes "block_reason")) [];
    trigger_snapshot = c.get_object_item obj (codes "trigger_data");
    actions_run = 0;
    actions_failed = 0;
    action_error = [];
  }

  unfoldable pub load_all : EventLog J → List (LoadItem J D) → EventLog J
  load_all log [] = log
  load_all log (x ∷ xs) = load_all (write_head log (load_entry x.obj)) xs

  unfoldable pub load_sorted : EventLog J → List (LoadItem J D) → EventLog J
  load_sorted log items =
      let m = length items in
      let start = if ltb event_log_size m then m - event_log_size else 0 in
      record (load_all log (drop start items)) { persist_dirty = 0 }

  -- The argument is what `ACAP_FILE_Read` returns.
  unfoldable pub load : EventLog J → Option J → EventLog J
  load log none = log
  load log (some arr) =
      if c.is_array arr then load_sorted log (sort_items (load_items 0 (c.children arr))) else log
