-- ===== src/Node/Steps.antt =====
-- app/engine/sparkplug.c: a host accepts the calls of every handler of the node.
use event_engine_acap.Prelude.{
  ℕ, ◌+◌, ◌%◌, ◌^◌, ◌≡◌, refl, ap, inl, inr, Bool, true, false, not, ◌&&◌, Option, none, some, List,
  [], ◌∷◌, Str, arith, Bool-cases,
}
use event_engine_acap.Sparkplug.Metric.{Numbers, Metric}
use event_engine_acap.Node.State.{spb_max_metrics, Node, is_active, MsgType}
use event_engine_acap.Node.Publishing.{save_bdseq, publish_birth}
use event_engine_acap.Node.Sessions.{
  publish_taken, will_call, death_call, Item, sparkplug_publish, birth_and_replay, on_preconnect,
  on_host_state, sparkplug_cleanup, says_online,
}
use event_engine_acap.Prelude.{length, ◌||◌, ◌==◌}
use event_engine_acap.Sparkplug.Decode
use event_engine_acap.Sparkplug.Payload.{spb_decode}
use event_engine_acap.Node.Inbound.{
  DeviceEvent, LastCommand, publish_observed, on_device_event, run_batch, handle_all, no_commands,
  is_duplicate, command_hash, on_command,
}
use event_engine_acap.Node.Items.{observe_from-Agrees}
use event_engine_acap.Node.Host.{Host, heard, hear_all}
use event_engine_acap.Node.Agreement.{
  Agrees, Agrees-same, eq_self, Accepted, Accepted-cons, Accepted-one, Accepted-append,
}
use event_engine_acap.Node.Accepted.{
  bdseq_metric-names, publish_birth-Accepted, flush_history-Accepted, publish_data-Accepted,
}
use event_engine_acap.Node.Items.{take_items-Agrees}

module _ {D : Type 0} (d : Numbers D) (zero_dbl : D) (works : MsgType → Bool) (ts : ℕ) where
  heard-save_bdseq :
      (n : Node) (h : Host)
      → h.bdseq ≡ n.bdseq
      → heard {D = D} h (save_bdseq ((n.bdseq + 1) % 2 ^ 64))
        ≡ some (record h { bdseq = (n.bdseq + 1) % 2 ^ 64; node_born = false; device_born = false })
  unfolding heard
  heard-save_bdseq n h e =
      rw (eq_self ((n.bdseq + 1) % 2 ^ 64) ((h.bdseq + 1) % 2 ^ 64) (ap (λ b. (b + 1) % 2 ^ 64) e))
        refl

  heard-will_call :
      (n : Node) (h : Host) → h.bdseq ≡ n.bdseq → heard h (will_call d zero_dbl works ts n) ≡ some h
  unfolding heard
  heard-will_call n h e = rw (bdseq_metric-names d zero_dbl works ts n.bdseq h.bdseq [] e) refl

  heard-death_call :
      (n : Node) (h : Host)
      → h.bdseq ≡ n.bdseq
      → heard h (death_call d zero_dbl works ts n) ≡ some h
  unfolding heard
  heard-death_call n h e = rw (bdseq_metric-names d zero_dbl works ts n.bdseq h.bdseq [] e) refl

  pub on_preconnect-Accepted :
      (n : Node) (h : Host) → Agrees n h → Accepted h (on_preconnect d zero_dbl works ts n)
  unfolding on_preconnect
  on_preconnect-Accepted n h a = elim (Bool-cases (is_active n)) [
    | inr i ↦
        rw i (Accepted-one h h _ _ (unfold heard in refl) (Agrees-same _ a refl refl refl refl))
    | inl i ↦ rw i (
        Accepted-cons h _ _ _ _ (heard-save_bdseq n h a.same_bdseq) (
          Accepted-one _ _ _ _
            (heard-will_call
              (record n { host_online = true; bdseq = (n.bdseq + 1) % 2 ^ 64; birth_sent = false })
              _ refl)
            (record {
              same_seq = a.same_seq;
              same_bdseq = refl;
              node_born = λ b. ground arith;
              device_born = λ b t. ground arith;
            })))
  ]

  pub birth_and_replay-Accepted :
      (n : Node) (h : Host) → Agrees n h → Accepted h (birth_and_replay d zero_dbl works ts n)
  unfolding birth_and_replay
  birth_and_replay-Accepted n h a =
      let n' = (publish_birth d zero_dbl works ts n).0 in
      let accepted = publish_birth-Accepted d zero_dbl works ts n h a in
      elim (Bool-cases n'.birth_sent) [
        | inl b ↦ rw b (
            Accepted-append h n' _ _ _ accepted
              (λ h' a'. flush_history-Accepted d zero_dbl works ts n' h' a' b))
        | inr b ↦ rw b accepted
      ]

  pub on_host_state-Accepted :
      (payload : Option Str) (len : ℕ) (n : Node) (h : Host)
      → Agrees n h
      → Accepted h (on_host_state d zero_dbl works ts payload len n)
  unfolding on_host_state hear_all
  on_host_state-Accepted payload len n h a =
      let online = says_online payload len in
      let a' : Agrees (record n { host_online = online }) h = Agrees-same _ a refl refl refl refl in
      elim (Bool-cases (not n.enabled)) [
        | inl e ↦ rw e (h, refl, a)
        | inr e ↦ elim (Bool-cases (online && not n.host_online)) [
          | inl o ↦ rw (e, o) (birth_and_replay-Accepted (record n { host_online = online }) h a')
          | inr o ↦ elim (Bool-cases online) [
            | inl o' ↦
                rw (e, o, o')
                  (publish_birth-Accepted d zero_dbl works ts (record n { host_online = true }) h
                    (Agrees-same _ a refl refl refl refl))
            | inr o' ↦ rw (e, o, o') (h, refl, Agrees-same _ a refl refl refl refl)
          ]
        ]
      ]

  pub sparkplug_cleanup-Accepted :
      (conn : Bool) (n : Node) (h : Host)
      → Agrees n h
      → Accepted h (sparkplug_cleanup d zero_dbl works conn ts n)
  unfolding sparkplug_cleanup hear_all
  sparkplug_cleanup-Accepted conn n h a =
      let dead : Agrees
          (record n { birth_sent = false; defs = []; enabled = false; initialized = false }) h =
        record {
          same_seq = a.same_seq;
          same_bdseq = a.same_bdseq;
          node_born = λ b. ground arith;
          device_born = λ b t. ground arith;
        } in
      elim (Bool-cases (not n.initialized)) [
        | inl e ↦ rw e (h, refl, a)
        | inr e ↦ elim (Bool-cases ((n.enabled && n.birth_sent) && conn)) [
          | inl s ↦ rw (e, s) (Accepted-one h h _ _ (heard-death_call n h a.same_bdseq) dead)
          | inr s ↦ rw (e, s) (h, refl, dead)
        ]
      ]

  publish_taken-Accepted :
      (conn : Bool) (n : Node) (ms : List (Metric D)) (h : Host)
      → Agrees n h
      → let r = publish_taken d zero_dbl works conn n ms in Accepted h (r.0, r.2)
  unfolding hear_all
  publish_taken-Accepted conn n [] h a = (h, refl, a)
  publish_taken-Accepted conn n (m ∷ ms) h a =
      publish_data-Accepted d zero_dbl works ts conn (m ∷ ms) n h a

  pub sparkplug_publish-Accepted :
      (conn : Bool) (items : Option (List Item)) (n : Node) (h : Host)
      → Agrees n h
      → let r = sparkplug_publish d zero_dbl works conn ts items n in Accepted h (r.0, r.2)
  unfolding sparkplug_publish hear_all
  sparkplug_publish-Accepted conn none n h a = (h, refl, a)
  sparkplug_publish-Accepted conn (some items) n h a = elim (Bool-cases n.enabled) [
    | inl e ↦ simp e (
        publish_taken-Accepted conn _ _ h
          (take_items-Agrees d zero_dbl conn ts spb_max_metrics items n h a))
    | inr e ↦ simp e (h, refl, a)
  ]

  publish_observed-Accepted :
      (conn : Bool) (path : Option Str) (field : Str → Option Str) (n : Node) (h : Host)
      → Agrees n h
      → Accepted h (publish_observed d zero_dbl works conn ts path field n)
  unfolding hear_all
  publish_observed-Accepted conn none field n h a = (h, refl, a)
  publish_observed-Accepted conn (some path) field n h a =
      publish_data-Accepted d zero_dbl works ts conn _ _ h
        (observe_from-Agrees d zero_dbl conn ts path field 0 (length n.defs) n h a)

  pub on_device_event-Accepted :
      (conn : Bool) (event : DeviceEvent) (n : Node) (h : Host)
      → Agrees n h
      → Accepted h (on_device_event d zero_dbl works conn ts event n)
  unfolding on_device_event hear_all
  on_device_event-Accepted conn event n h a = elim (Bool-cases n.enabled) [
    | inl e ↦ simp e (publish_observed-Accepted conn event.path event.field n h a)
    | inr e ↦ simp e (h, refl, a)
  ]

  run_batch-Accepted :
      (n : Node) (h : Host) (decoded : List Decode.Call × Option ℕ)
      → Agrees n h
      → let r = run_batch d zero_dbl works ts n decoded in Accepted h (r.0, r.1)
  unfolding hear_all
  run_batch-Accepted n h (cs, none) a = (h, refl, a)
  run_batch-Accepted n h (cs, some count) a =
      elim (Bool-cases (handle_all n.defs cs no_commands).rebirth) [
        | inl b ↦ rw b (publish_birth-Accepted d zero_dbl works ts n h a)
        | inr b ↦ rw b (h, refl, a)
      ]

  pub on_command-Accepted :
      (topic : Str) (payload : List ℕ) (last : LastCommand) (n : Node) (h : Host)
      → Agrees n h
      → let r = on_command d zero_dbl works ts topic payload last n in Accepted h (r.0.0, r.0.1)
  unfolding on_command hear_all
  on_command-Accepted topic payload last n h a =
      elim (Bool-cases (not n.enabled || length payload == 0)) [
        | inl e ↦ rw e (h, refl, a)
        | inr e ↦ elim (Bool-cases (is_duplicate last (command_hash topic payload) ts)) [
          | inl c ↦ rw (e, c) (h, refl, a)
          | inr c ↦ rw (e, c) (run_batch-Accepted n h (spb_decode d payload) a)
        ]
      ]
