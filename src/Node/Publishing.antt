-- ===== src/Node/Publishing.antt =====
-- app/engine/sparkplug.c: the messages of the node, and the samples that wait for a host.
use event_engine_acap.Prelude.{
  ℕ, zero, suc, ◌+◌, Bool, true, false, ◌==◌, if◌then◌else◌, Option, none, some, List, [], ◌∷◌, map,
  Str, codes, get_elem?,
}
use event_engine_acap.Sparkplug.Metric.{Numbers, Metric, metric_set_value}
use event_engine_acap.Node.Buffer.{
  sample_at, emptied, seq_taken, born, data_type, can_send, counted,
}
use event_engine_acap.Node.State.{
  MetricDef, Sample, Node, is_set, is_active, MsgType, nbirth, dbirth, build_topic,
}

-- What the node asks of the MQTT client and of the files, in order. A message has its sequence number,
-- unless it has none, its metrics, and whether it was encoded and published. A will is encoded and set, or not.
pub data Call (D : Type 0) : Type 0 where
  publish : MsgType → Str → Option ℕ → List (Metric D) → Bool → Call D
  set_will : Str → List (Metric D) → Bool → Call D
  clear_will : Call D
  save_bdseq : ℕ → Call D

-- `memset(m, 0, sizeof(m))`
module _ {D : Type 0} (d : Numbers D) (zero_dbl : D) where
  abbrev pub zeroed_metric : Metric D
  zeroed_metric = record {
    name = none;
    alias = 0;
    has_alias = false;
    timestamp_ms = 0;
    datatype = 0;
    is_null = false;
    is_historical = false;
    i64 = 0;
    dbl = zero_dbl;
    str = none;
  }

  -- The metric that identifies the session.
  unfoldable pub bdseq_metric : ℕ → ℕ → Metric D
  bdseq_metric bdseq ts = record zeroed_metric {
    name = some (codes "bdSeq");
    datatype = 8;
    i64 = bdseq;
    timestamp_ms = ts;
  }

  unfoldable pub rebirth_metric : ℕ → Metric D
  rebirth_metric ts = record zeroed_metric {
    name = some (codes "Node Control/Rebirth");
    datatype = 11;
    timestamp_ms = ts;
  }

  -- A metric of a birth certificate.
  unfoldable pub declared : ℕ → MetricDef → Metric D
  declared ts def =
      let m = record zeroed_metric {
        name = some def.name;
        alias = def.alias;
        has_alias = true;
        datatype = def.datatype;
        timestamp_ms = if def.has_value then def.value_ts else ts;
      } in
      if def.has_value then metric_set_value d m (some def.value) else record m { is_null = true }

  -- A metric of a sample that was taken before.
  unfoldable pub historical : MetricDef → Sample → Metric D
  historical def s =
      metric_set_value d
        (record zeroed_metric {
          name = some def.name;
          alias = def.alias;
          has_alias = true;
          datatype = def.datatype;
          timestamp_ms = s.ts;
          is_historical = true;
        })
        (some s.value)

  -- A metric of new data, which goes by its alias.
  unfoldable pub current : ℕ → MetricDef → Str → Metric D
  current ts def text =
      metric_set_value d
        (record zeroed_metric {
          alias = def.alias;
          has_alias = true;
          datatype = def.datatype;
          timestamp_ms = ts;
        })
        (some text)

  -- A sample whose definition is gone is left out.
  abbrev pub with_sample : Option MetricDef → Sample → List (Metric D) → List (Metric D)
  with_sample none s ms = ms
  with_sample (some def) s ms = historical def s ∷ ms

  -- The loop of `flush_history` from age `k` on, with `more` samples left.
  unfoldable pub replay_from : Node → ℕ → ℕ → List (Metric D)
  replay_from n k zero = []
  replay_from n k (suc more) =
      let s = sample_at n k in
      with_sample (get_elem? n.defs s.def_idx) s (replay_from n (k + 1) more)

  -- The metrics of the birth of the node: with a device they live under it, and only the controls
  -- are the node's.
  unfoldable pub node_birth : ℕ → Node → List (Metric D)
  node_birth ts n =
      bdseq_metric n.bdseq ts
      ∷ rebirth_metric ts
      ∷ (if is_set n.device_id then [] else map (declared ts) n.defs)

  -- `works t` is whether a message of that type is encoded and published.
  module _ (works : MsgType → Bool) where
    unfoldable pub device_birth : ℕ → Node → Node × List (Call D)
    device_birth ts n =
        let metrics = map (declared ts) n.defs in
        let call = publish dbirth (build_topic n dbirth) (some n.seq) metrics (works dbirth) in
        (if works dbirth then born ts (seq_taken n) else seq_taken n, call ∷ [])

    -- `seq = 0`, and the birth of the node takes it.
    unfoldable pub publish_birth : ℕ → Node → Node × List (Call D)
    publish_birth ts n =
        let n' = record n { seq = 1 } in
        let call =
          publish nbirth (build_topic n nbirth) (some 0) (node_birth ts n) (works nbirth) in
        let after = if is_set n.device_id then device_birth ts n' else (born ts n', []) in
        if is_active n
        then (if works nbirth then (after.0, call ∷ after.1) else (n', call ∷ []))
        else (n, [])

    unfoldable pub flush_replay : List (Metric D) → Node → Node × List (Call D)
    flush_replay [] n = (emptied n, [])
    flush_replay (m ∷ ms) n =
        let t = data_type n in
        let call = publish t (build_topic n t) (some n.seq) (m ∷ ms) (works t) in
        if works t then (emptied (seq_taken n), call ∷ []) else (seq_taken n, call ∷ [])

    unfoldable pub flush_history : Node → Node × List (Call D)
    flush_history n =
        if n.hist_count == 0 then (n, []) else flush_replay (replay_from n 0 n.hist_count) n

    unfoldable pub publish_data : Bool → List (Metric D) → Node → Node × Bool × List (Call D)
    publish_data connected [] n = (n, true, [])
    publish_data connected (m ∷ ms) n =
        let t = data_type n in
        if can_send connected n
        then (
          counted (works t) (seq_taken n),
          works t,
          publish t (build_topic n t) (some n.seq) (m ∷ ms) (works t) ∷ [],
        )
        else (n, false, [])
