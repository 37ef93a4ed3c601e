-- ===== src/EventLog/Json.antt =====
-- app/engine/event_log.c: entries as JSON objects, and the two listings.
use event_engine_acap.Prelude.{
  ℕ, zero, suc, ◌+◌, ◌≡◌, not, ◌&&◌, ltb, leb, if◌then◌else◌, Option, none, some, List, [], ◌∷◌,
  Str, codes, str_eq, strcase_eq, ℤ, pos, pos_part, arith, is_pos,
}
use event_engine_acap.Cjson.{Cjson, CjsonLaws, when, is_set, add_some, get-add_some}
use event_engine_acap.EventLog.Ring.{LogEntry, EventLog, entry_at}

-- `limit <= 0 || limit > count` means all of them.
abbrev pub clip_limit : {J : Type 0} → EventLog J → ℤ → ℕ
clip_limit log limit =
    if is_pos limit
    then (if ltb log.count (pos_part limit) then log.count else pos_part limit)
    else log.count

module _ {J D : Type 0} (c : Cjson J D) where
  unfoldable pub entry_to_json : LogEntry J → J
  entry_to_json e =
      let named =
        c.add_item (c.add_item c.create_object (codes "rule_id") (c.create_string e.rule_id))
          (codes "rule_name") (c.create_string e.rule_name) in
      let timed =
        c.add_item (c.add_item named (codes "timestamp") (c.create_number (c.of_ℤ e.timestamp)))
          (codes "fired") (c.create_bool e.fired) in
      let reasoned =
        add_some c timed (codes "block_reason")
          (when (not e.fired && is_set e.block_reason) (c.create_string e.block_reason)) in
      let with_data = add_some c reasoned (codes "trigger_data") e.trigger_snapshot in
      let with_run =
        add_some c with_data (codes "actions_run")
          (when (ltb 0 e.actions_run) (c.create_number (c.of_ℤ (pos e.actions_run)))) in
      let with_failed =
        add_some c with_run (codes "actions_failed")
          (when (ltb 0 e.actions_failed) (c.create_number (c.of_ℤ (pos e.actions_failed)))) in
      add_some c with_failed (codes "action_error")
        (when (ltb 0 e.actions_failed && is_set e.action_error) (c.create_string e.action_error))

  -- The loop of `EventLog_Get_Recent` from age `i` on, with `n` rounds left.
  unfoldable pub recent_from : EventLog J → ℕ → ℕ → List J
  recent_from log i zero = []
  recent_from log i (suc n) =
      let rest = recent_from log (i + 1) n in
      if leb log.count i then [] else entry_to_json (entry_at log i) ∷ rest

  unfoldable pub get_recent : EventLog J → ℤ → J
  get_recent log limit = c.create_array (recent_from log 0 (clip_limit log limit))

  -- The loop of `EventLog_Get_For_Rule` from age `i` on: `n` ages are left and `found` were taken.
  unfoldable pub for_rule_from : EventLog J → Str → ℤ → ℕ → ℕ → ℕ → List J
  for_rule_from log rule_id limit found i zero = []
  for_rule_from log rule_id limit found i (suc n) =
      let taken =
        entry_to_json (entry_at log i) ∷ for_rule_from log rule_id limit (found + 1) (i + 1) n in
      let passed = for_rule_from log rule_id limit found (i + 1) n in
      if is_pos limit && leb (pos_part limit) found
      then []
      else if str_eq (entry_at log i).rule_id rule_id
      then taken
      else passed

  unfoldable pub get_for_rule : EventLog J → Option Str → ℤ → J
  get_for_rule log none limit = c.create_array []
  get_for_rule log (some rule_id) limit =
      c.create_array (for_rule_from log rule_id limit 0 0 log.count)

  -- The loop of `EventLog_Persist` from age `i - 1` down to 0.
  unfoldable pub persist_down : EventLog J → ℕ → List J
  persist_down log zero = []
  persist_down log (suc i) = entry_to_json (entry_at log i) ∷ persist_down log i

  -- The new state, and what `ACAP_FILE_Write` is given, if it is called.
  unfoldable pub persist : EventLog J → EventLog J × Option J
  persist log =
      if ltb 0 log.persist_dirty
      then (
        record log { persist_dirty = 0 },
        some (c.create_array (persist_down log (if ltb log.count 200 then log.count else 200))),
      )
      else (log, none)

module _ {J D : Type 0} (c : Cjson J D) (laws : CjsonLaws c) where
  module _ (e : LogEntry J) where
    pub get_rule_id :
        c.get_object_item (entry_to_json c e) (codes "rule_id") ≡ some (c.create_string e.rule_id)
    unfolding entry_to_json strcase_eq
    get_rule_id = simp (get-add_some c laws, laws.get_added, laws.get_created)

    pub get_rule_name :
        c.get_object_item (entry_to_json c e) (codes "rule_name")
        ≡ some (c.create_string e.rule_name)
    unfolding entry_to_json strcase_eq
    get_rule_name = simp (get-add_some c laws, laws.get_added, laws.get_created)

    pub get_timestamp :
        c.get_object_item (entry_to_json c e) (codes "timestamp")
        ≡ some (c.create_number (c.of_ℤ e.timestamp))
    unfolding entry_to_json strcase_eq
    get_timestamp = simp (get-add_some c laws, laws.get_added, laws.get_created)

    pub get_fired :
        c.get_object_item (entry_to_json c e) (codes "fired") ≡ some (c.create_bool e.fired)
    unfolding entry_to_json strcase_eq
    get_fired = simp (get-add_some c laws, laws.get_added, laws.get_created)

    pub get_block_reason :
        c.get_object_item (entry_to_json c e) (codes "block_reason")
        ≡ when (not e.fired && is_set e.block_reason) (c.create_string e.block_reason)
    unfolding entry_to_json strcase_eq
    get_block_reason = simp (get-add_some c laws, laws.get_added, laws.get_created) (ground arith)

    pub get_trigger_data :
        c.get_object_item (entry_to_json c e) (codes "trigger_data") ≡ e.trigger_snapshot
    unfolding entry_to_json strcase_eq
    get_trigger_data = simp (get-add_some c laws, laws.get_added, laws.get_created) (ground arith)
