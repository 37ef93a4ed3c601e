-- ===== src/EventLog/Entry.antt =====
-- app/engine/event_log.c: one entry written as JSON and read back.
use event_engine_acap.Prelude.{
  ◌<◌, ◌≡◌, refl, Bool, true, false, not, ◌&&◌, if◌then◌else◌, none, some, [], ◌∷◌, Str, codes,
  snprintf, snprintf_or, snprintf_fits, length, pos,
}
use event_engine_acap.Cjson.{Cjson, CjsonLaws, Small, string_of, number_or}
use event_engine_acap.EventLog.Ring.{LogEntry}
use event_engine_acap.Cjson.{is_set, when}
use event_engine_acap.EventLog.Json.{
  entry_to_json, get_rule_id, get_rule_name, get_timestamp, get_fired, get_block_reason,
  get_trigger_data,
}
use event_engine_acap.EventLog.Load.{load_entry}

-- The strings fit their buffers, and the time is one that a double holds.
pub record Fits {J : Type 0} (e : LogEntry J) : Type 0 where
  pub id_fits : length e.rule_id < 37
  pub name_fits : length e.rule_name < 128
  pub reason_fits : length e.block_reason < 64
  pub time_fits : Small e.timestamp

-- What the file keeps of an entry.
abbrev pub saved : {J : Type 0} → LogEntry J → LogEntry J
saved e = record e {
  block_reason = if e.fired then [] else e.block_reason;
  actions_run = 0;
  actions_failed = 0;
  action_error = [];
}

reason_kept :
    (fired : Bool) (s : Str)
    → length s < 64
    → snprintf_or 64 (when (not fired && is_set s) s) [] ≡ (if fired then [] else s)
unfolding snprintf_or
reason_kept true s h = unfold snprintf in refl
reason_kept false [] h = unfold snprintf in refl
reason_kept false (x ∷ s) h = snprintf_fits 64 (x ∷ s) h

module _ {J D : Type 0} (c : Cjson J D) (laws : CjsonLaws c) where
  string_of-some :
      (o : J) (k s : Str)
      → c.get_object_item o k ≡ some (c.create_string s)
      → string_of c o k ≡ some s
  string_of-some o k s h = rw (h, string_of) (laws.string_created s)

  string_of-when :
      (o : J) (k : Str) (b : Bool) (s : Str)
      → c.get_object_item o k ≡ when b (c.create_string s)
      → string_of c o k ≡ when b s
  string_of-when o k true s h = rw (h, string_of) (laws.string_created s)
  string_of-when o k false s h = rw (h, string_of)

  -- An entry read back from its own object is the entry without its action results.
  pub load_entry-entry_to_json :
      (e : LogEntry J) → Fits e → load_entry c (entry_to_json c e) ≡ saved e
  unfolding load_entry
  load_entry-entry_to_json e f = λ i. record {
    rule_id = id_kept i;
    rule_name = name_kept i;
    timestamp = time_kept i;
    fired = fired_kept i;
    block_reason = reason i;
    trigger_snapshot = get_trigger_data c laws e i;
    actions_run = 0;
    actions_failed = 0;
    action_error = [];
  }
    where
      o : J
      o = entry_to_json c e

      id_kept : snprintf_or 37 (string_of c o (codes "rule_id")) [] ≡ e.rule_id
      id_kept =
          rw (string_of-some o (codes "rule_id") e.rule_id (get_rule_id c laws e))
            (unfold snprintf_or in snprintf_fits 37 e.rule_id f.id_fits)

      name_kept : snprintf_or 128 (string_of c o (codes "rule_name")) [] ≡ e.rule_name
      name_kept =
          rw (string_of-some o (codes "rule_name") e.rule_name (get_rule_name c laws e))
            (unfold snprintf_or in snprintf_fits 128 e.rule_name f.name_fits)

      time_kept : number_or c o (codes "timestamp") (pos 0) ≡ e.timestamp
      time_kept =
          rw (get_timestamp c laws e, number_or, laws.number_created)
            (laws.to_of_ℤ e.timestamp f.time_fits)

      fired_kept :
          (elim (c.get_object_item o (codes "fired")) [
            | none ↦ false
            | some fired_j ↦ c.is_true fired_j
          ])
          ≡ e.fired
      fired_kept = rw (get_fired c laws e) (laws.true_created e.fired)

      reason :
          snprintf_or 64 (string_of c o (codes "block_reason")) []
          ≡ (if e.fired then [] else e.block_reason)
      reason =
          rw
            (string_of-when o (codes "block_reason") (not e.fired && is_set e.block_reason)
              e.block_reason (get_block_reason c laws e))
            (reason_kept e.fired e.block_reason f.reason_fits)
