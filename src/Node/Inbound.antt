-- ===== src/Node/Inbound.antt =====
-- app/engine/sparkplug.c: what comes in, from the events of the device and from the commands of hosts.
use event_engine_acap.Prelude.{
  ℕ, zero, suc, ◌+◌, ◌-◌, ◌%◌, ◌^◌, Bool, false, ◌&&◌, ◌||◌, not, ltb, ◌==◌, if◌then◌else◌, Option,
  none, some, List, [], ◌∷◌, ◌++◌, Str, codes, str_eq, strcase_eq, snprintf, length, get_elem?,
}
use event_engine_acap.Sparkplug.Metric.{Numbers, Metric}
use event_engine_acap.Sparkplug.Decode
use event_engine_acap.Sparkplug.Payload.{spb_decode}
use event_engine_acap.Node.State.{
  spb_max_metrics, spb_value_len, Source, MetricDef, Node, is_set, MsgType, topic_matches,
}
use event_engine_acap.Node.Publishing.{Call, publish_birth, publish_data}
use event_engine_acap.Node.Sessions.{value_item, go_on}
use event_engine_acap.Node.Settings.{hash_byte, hash_field}

-- An event of the device: its path, if it has one, and the text of each field that it has.
pub record DeviceEvent : Type 0 where
  pub path : Option Str
  pub field : Str → Option Str

-- The field of the event that a source reads.
abbrev pub field_for : Str → (Str → Option Str) → Option Source → Option Str
field_for path field none = none
field_for path field (some src) =
    if topic_matches path src.path && is_set src.key then field src.key else none

-- Report by exception: a text that is the value already is no news.
abbrev pub news : MetricDef → Option Str → Option Str
news def none = none
news def (some t) =
    let text = snprintf spb_value_len t in
    if def.has_value && str_eq def.value text then none else some text

module _ {D : Type 0} (d : Numbers D) (zero_dbl : D) where
  abbrev pub reported : Bool → ℕ → Node → ℕ → MetricDef → Option Str → Option (Node × Metric D)
  reported connected ts n i def none = none
  reported connected ts n i def (some text) = value_item d zero_dbl connected ts text n i (some def)

  abbrev pub observed :
      Bool → ℕ → Str → (Str → Option Str) → Node → ℕ → Option MetricDef → Option (Node × Metric D)
  observed connected ts path field n i none = none
  observed connected ts path field n i (some def) =
      reported connected ts n i def (news def (field_for path field def.source))

  -- The loop of `Sparkplug_On_Device_Event` from the definition `i` on, with `more` of them left. There are
  -- never more than `SPB_MAX_METRICS`, so its bound on the metrics is not met.
  unfoldable pub observe_from :
      Bool → ℕ → Str → (Str → Option Str) → ℕ → ℕ → Node → Node × List (Metric D)
  observe_from connected ts path field i zero n = (n, [])
  observe_from connected ts path field i (suc more) n =
      let skipped = observe_from connected ts path field (i + 1) more n in
      go_on d zero_dbl (observed connected ts path field n i (get_elem? n.defs i)) skipped
        (observe_from connected ts path field (i + 1) more)

  module _ (works : MsgType → Bool) where
    abbrev pub publish_observed :
        Bool → ℕ → Option Str → (Str → Option Str) → Node → Node × List (Call D)
    publish_observed connected ts none field n = (n, [])
    publish_observed connected ts (some path) field n =
        let seen = observe_from connected ts path field 0 (length n.defs) n in
        let (n', ok, calls) = publish_data d zero_dbl works connected seen.1 seen.0 in (n', calls)

    -- `Sparkplug_On_Device_Event`
    unfoldable pub on_device_event : Bool → ℕ → DeviceEvent → Node → Node × List (Call D)
    on_device_event connected ts event n =
        if n.enabled then publish_observed connected ts event.path event.field n else (n, [])

-- `CommandBatch`
pub record CommandBatch : Type 0 where
  pub rebirth : Bool
  pub cmds : List (Str × Str)

-- The name of the first definition with that alias.
unfoldable pub name_of_alias : List MetricDef → ℕ → Str
name_of_alias [] alias = []
name_of_alias (def ∷ defs) alias =
    if def.alias == alias then snprintf 128 def.name else name_of_alias defs alias

-- Hosts may address a metric by alias instead of name.
abbrev pub resolved : List MetricDef → Decode.Call → Str
resolved defs c =
    if is_set c.name then c.name else if c.has_alias then name_of_alias defs c.alias else []

abbrev pub is_rebirth : Str → Bool
is_rebirth name =
    str_eq name (codes "Node Control/Rebirth") || str_eq name (codes "Device Control/Rebirth")

unfoldable pub command_metric_handler : List MetricDef → Decode.Call → CommandBatch → CommandBatch
command_metric_handler defs c batch =
    let name = resolved defs c in
    let asked = strcase_eq c.value_str (codes "true") in
    if not (is_set name)
    then batch
    else (if is_rebirth name
        then record batch { rebirth = batch.rebirth || asked }
        else (if ltb (length batch.cmds) spb_max_metrics
            then record batch {
              cmds = batch.cmds ++ ((snprintf 128 name, snprintf spb_value_len c.value_str) ∷ []);
            }
            else batch))

unfoldable pub handle_all : List MetricDef → List Decode.Call → CommandBatch → CommandBatch
handle_all defs [] batch = batch
handle_all defs (c ∷ cs) batch = handle_all defs cs (command_metric_handler defs c batch)

abbrev pub no_commands : CommandBatch
no_commands = record { rebirth = false; cmds = [] }

-- The hash of a command: its topic, and the bytes of its payload.
unfoldable pub hash_bytes : ℕ → List ℕ → ℕ
hash_bytes h [] = h
hash_bytes h (b ∷ bs) = hash_bytes (hash_byte h b) bs

abbrev pub command_hash : Str → List ℕ → ℕ
command_hash topic payload = hash_bytes (hash_field 1469598103934665603 topic) payload

-- `last_cmd_hash` and `last_cmd_ms`
pub record LastCommand : Type 0 where
  pub hash : ℕ
  pub ms : ℕ

-- `hash == last_cmd_hash && now - last_cmd_ms < SPB_CMD_DEDUPE_MS`, on 64 bits
abbrev pub is_duplicate : LastCommand → ℕ → ℕ → Bool
is_duplicate last hash now = hash == last.hash && ltb ((now + 2 ^ 64 - last.ms) % 2 ^ 64) 500

module _ {D : Type 0} (d : Numbers D) (zero_dbl : D) (works : MsgType → Bool) where
  -- A batch that was decoded, or a payload that was malformed: its commands are not run.
  abbrev pub run_batch :
      ℕ → Node → List Decode.Call × Option ℕ → Node × List (Call D) × List (Str × Str)
  run_batch now n (cs, none) = (n, [], [])
  run_batch now n (cs, some count) =
      let batch = handle_all n.defs cs no_commands in
      let (n', calls) = publish_birth d zero_dbl works now n in
      if batch.rebirth then (n', calls, batch.cmds) else (n, [], batch.cmds)

  -- `Sparkplug_On_MQTT_Message` for a message on the topic of a command: the calls of the node, and
  -- the commands that the rules get.
  unfoldable pub on_command :
      ℕ
      → Str
      → List ℕ
      → LastCommand
      → Node
      → (Node × List (Call D) × List (Str × Str)) × LastCommand
  on_command now topic payload last n =
      let hash = command_hash topic payload in
      let done = run_batch now n (spb_decode d payload) in
      if not n.enabled || length payload == 0 then ((n, [], []), last) else (
        if is_duplicate last hash now then (n, [], []) else done,
        record { hash = hash; ms = now },
      )
