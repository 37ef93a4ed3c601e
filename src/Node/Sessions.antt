-- ===== src/Node/Sessions.antt =====
-- app/engine/sparkplug.c: what the node does on the events of the MQTT client, on the host's state,
-- and for the rules. `ts` is the time of the event.
use event_engine_acap.Prelude.{
  ℕ, zero, suc, ◌+◌, ◌%◌, ◌^◌, Bool, true, false, ◌&&◌, ◌||◌, not, ltb, if◌then◌else◌, Option, none,
  some, List, [], ◌∷◌, ◌++◌, Str, codes, snprintf, set, get_elem?,
}
use event_engine_acap.Sparkplug.Metric.{Numbers, Metric}
use event_engine_acap.Node.State.{
  spb_max_metrics, spb_value_len, MetricDef, Node, is_active, MsgType, ndeath, build_topic,
  find_def, strstr,
}
use event_engine_acap.Node.Buffer.{buffer_sample, can_send}
use event_engine_acap.Node.Publishing.{
  Call, publish, set_will, clear_will, save_bdseq, bdseq_metric, current, publish_birth,
  flush_history, publish_data,
}

-- An item of the metrics to publish: its name, if it is a string, and the text of its value.
pub record Item : Type 0 where
  pub name : Option Str
  pub text : Str

-- The word of the host: `ONLINE` alone, or an object with `online` true.
unfoldable pub says_online : Option Str → ℕ → Bool
says_online none payload_len = false
says_online (some payload) payload_len =
    ltb 0 payload_len
    && ((strstr payload (codes "\"online\":true") || strstr payload (codes "\"online\": true"))
        || (strstr payload (codes "ONLINE") && not (strstr payload (codes "OFFLINE"))))

-- `d->value`, `d->has_value` and `d->value_ts` of the definition `i`
abbrev pub with_value : ℕ → Str → ℕ → MetricDef → Node → Node
with_value i text ts def n = record n {
  defs = set n.defs i (record def { value = text; has_value = true; value_ts = ts });
}

-- `!name || !name[0]`
abbrev pub named : Option Str → Option Str
named none = none
named (some []) = none
named (some (c ∷ s)) = some (c ∷ s)

-- The sample of `Sparkplug_Publish` is buffered when it cannot be sent.
abbrev pub valued : Bool → ℕ → Str → ℕ → MetricDef → Node → Node
valued connected i text ts def n =
    let n' = with_value i text ts def n in
    if not (can_send connected n') then buffer_sample i text ts n' else n'

module _ {D : Type 0} (d : Numbers D) (zero_dbl : D) where
  -- What an item becomes when its name is at `i`.
  abbrev pub value_item : Bool → ℕ → Str → Node → ℕ → Option MetricDef → Option (Node × Metric D)
  value_item connected ts text n i none = none
  value_item connected ts text n i (some def) =
      some (valued connected i text ts def n, current d zero_dbl ts def text)

  abbrev pub look_up_item : Bool → ℕ → Str → Node → Option ℕ → Option (Node × Metric D)
  look_up_item connected ts text n none = none
  look_up_item connected ts text n (some i) = value_item connected ts text n i (get_elem? n.defs i)

  -- One round of the loop of `Sparkplug_Publish`. An item without a definition is skipped.
  unfoldable pub take_item : Bool → ℕ → Item → Node → Option (Node × Metric D)
  take_item connected ts item n =
      look_up_item connected ts (snprintf spb_value_len item.text) n
        (find_def (named item.name) n.defs)

  -- The rest of the loop after a round, which skipped its item or took it.
  abbrev pub go_on :
      Option (Node × Metric D)
      → Node × List (Metric D)
      → (Node → Node × List (Metric D))
      → Node × List (Metric D)
  go_on none skipped next = skipped
  go_on (some (n', m)) skipped next = ((next n').0, m ∷ (next n').1)

  -- The loop with `room` metrics left of `SPB_MAX_METRICS`.
  unfoldable pub take_items : Bool → ℕ → ℕ → List Item → Node → Node × List (Metric D)
  take_items connected ts room [] n = (n, [])
  take_items connected ts zero (item ∷ items) n = (n, [])
  take_items connected ts (suc room) (item ∷ items) n =
      let skipped = take_items connected ts (suc room) items n in
      go_on (take_item connected ts item n) skipped (take_items connected ts room items)

  module _ (works : MsgType → Bool) where
    -- `Sparkplug_Publish`, whose items are `none` unless they are an array. Buffered for replay
    -- counts as accepted.
    abbrev pub publish_taken : Bool → Node → List (Metric D) → Node × Bool × List (Call D)
    publish_taken connected n [] = (n, false, [])
    publish_taken connected n (m ∷ ms) =
        let (n', ok, calls) = publish_data d zero_dbl works connected (m ∷ ms) n in
        (n', ok || not (can_send connected n'), calls)

    unfoldable pub sparkplug_publish :
        Bool → ℕ → Option (List Item) → Node → Node × Bool × List (Call D)
    sparkplug_publish connected ts none n = (n, false, [])
    sparkplug_publish connected ts (some items) n =
        let taken = take_items connected ts spb_max_metrics items n in
        if n.enabled then publish_taken connected taken.0 taken.1 else (n, false, [])

    -- `MQTT_STATE_PRECONNECT`: a new session, whose will is registered.
    abbrev pub will_call : ℕ → Node → Call D
    will_call ts n =
        set_will (build_topic n ndeath) (bdseq_metric d zero_dbl n.bdseq ts ∷ []) (works ndeath)

    unfoldable pub on_preconnect : ℕ → Node → Node × List (Call D)
    on_preconnect ts n =
        let n' = record n {
          host_online = true;
          bdseq = (n.bdseq + 1) % 2 ^ 64;
          birth_sent = false;
        } in
        if is_active n
        then (n', save_bdseq n'.bdseq ∷ will_call ts n' ∷ [])
        else (record n { host_online = true }, clear_will ∷ [])

    -- `publish_birth(); if (birth_sent) flush_history();`
    unfoldable pub birth_and_replay : ℕ → Node → Node × List (Call D)
    birth_and_replay ts n =
        let (n', calls) = publish_birth d zero_dbl works ts n in
        let (n'', calls') = flush_history d zero_dbl works n' in
        if n'.birth_sent then (n'', calls ++ calls') else (n', calls)

    -- `MQTT_STATE_CONNECTED`
    unfoldable pub on_connected : ℕ → Node → Node × List (Call D)
    on_connected ts n = if is_active n then birth_and_replay ts n else (n, [])

    -- `Sparkplug_On_MQTT_Message` for a message on the topic of the host's state.
    unfoldable pub on_host_state : ℕ → Option Str → ℕ → Node → Node × List (Call D)
    on_host_state ts payload payload_len n =
        let online = says_online payload payload_len in
        let n' = record n { host_online = online } in
        if not n.enabled
        then (n, [])
        else (if online && not n.host_online
            then birth_and_replay ts n'
            else (if online then publish_birth d zero_dbl works ts n' else (n', [])))

    abbrev pub death_call : ℕ → Node → Call D
    death_call ts n =
        publish ndeath (build_topic n ndeath) none (bdseq_metric d zero_dbl n.bdseq ts ∷ [])
          (works ndeath)

    unfoldable pub sparkplug_cleanup : Bool → ℕ → Node → Node × List (Call D)
    sparkplug_cleanup connected ts n =
        let n' = record n { birth_sent = false; defs = []; enabled = false; initialized = false } in
        if not n.initialized
        then (n, [])
        else (n', if (n.enabled && n.birth_sent) && connected then death_call ts n ∷ [] else [])

-- `load_bdseq`, with the number of the file, if it has one, and the callback set.
unfoldable pub sparkplug_init : Option ℕ → Node → Node
sparkplug_init none n = record n { initialized = true }
sparkplug_init (some bdseq) n =
    if n.initialized then n else record n { initialized = true; bdseq = bdseq }

-- `MQTT_STATE_DISCONNECTED`
unfoldable pub on_disconnected : Node → Node
on_disconnected n = record n { birth_sent = false }
