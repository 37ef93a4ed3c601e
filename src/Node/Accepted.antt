-- ===== src/Node/Accepted.antt =====
-- app/engine/sparkplug.c: a host accepts every message of the node.
use event_engine_acap.Prelude.{
  ℕ, ◌+◌, ◌%◌, ◌≡◌, refl, ap, inl, inr, Bool, true, false, ◌||◌, ◌==◌, some, List, [], ◌∷◌, Str,
  str_eq, arith, Bool-cases,
}
use event_engine_acap.Sparkplug.Metric.{Numbers, Metric}
use event_engine_acap.Node.State.{build_topic, Node, is_set, is_active, MsgType, nbirth, dbirth}
use event_engine_acap.Node.Buffer.{data_type, seq_taken, can_send}
use event_engine_acap.Node.Publishing.{
  publish, publish_birth, device_birth, flush_replay, flush_history, publish_data, node_birth,
  bdseq_metric, replay_from,
}
use event_engine_acap.Node.Host.{Host, names_session, heard, hear_all}
use event_engine_acap.Node.Agreement.{
  Agrees, Agrees-same, eq_self, Accepted, Accepted-cons, Accepted-one,
}

module _ {D : Type 0} (d : Numbers D) (zero_dbl : D) (works : MsgType → Bool) (ts : ℕ) where
  pub bdseq_metric-names :
      (bdseq b : ℕ) (ms : List (Metric D))
      → b ≡ bdseq
      → names_session b (bdseq_metric d zero_dbl bdseq ts ∷ ms) ≡ true
  unfolding bdseq_metric str_eq
  bdseq_metric-names bdseq b ms e = ground arith

  heard-nbirth :
      (n : Node) (h : Host) (topic : Str) (ok : Bool)
      → h.bdseq ≡ n.bdseq
      → heard h (publish nbirth topic (some 0) (node_birth d zero_dbl ts n) ok)
        ≡ some (record h { next_seq = 1; node_born = ok || h.node_born })
  unfolding heard node_birth
  heard-nbirth n h topic ok e = rw (bdseq_metric-names n.bdseq h.bdseq _ e) refl

  heard-dbirth :
      (n : Node) (h : Host) (topic : Str) (ms : List (Metric D)) (ok : Bool)
      → h.next_seq ≡ n.seq
      → h.node_born ≡ true
      → heard h (publish dbirth topic (some n.seq) ms ok)
        ≡ some (record h { next_seq = (h.next_seq + 1) % 256; device_born = ok || h.device_born })
  unfolding heard
  heard-dbirth n h topic ms ok e b = rw (eq_self n.seq h.next_seq e, b) refl

  -- A device whose node was born.
  device_birth-Accepted :
      (n : Node) (h : Host)
      → h.next_seq ≡ n.seq
      → h.bdseq ≡ n.bdseq
      → h.node_born ≡ true
      → (n.birth_sent ≡ true → is_set n.device_id ≡ true → h.device_born ≡ true)
      → Accepted h (device_birth d zero_dbl works ts n)
  unfolding device_birth
  device_birth-Accepted n h s e b db = elim (Bool-cases (works dbirth)) [
    | inl w ↦ rw w (
        Accepted-one h _ _ _ (heard-dbirth n h (build_topic n dbirth) _ true s b) (record {
          same_seq = ap (λ k. (k + 1) % 256) s;
          same_bdseq = e;
          node_born = λ t. b;
          device_born = λ t t'. refl;
        }))
    | inr w ↦ rw w (
        Accepted-one h _ _ _ (heard-dbirth n h (build_topic n dbirth) _ false s b) (record {
          same_seq = ap (λ k. (k + 1) % 256) s;
          same_bdseq = e;
          node_born = λ t. b;
          device_born = db;
        }))
  ]

  pub publish_birth-Accepted :
      (n : Node) (h : Host) → Agrees n h → Accepted h (publish_birth d zero_dbl works ts n)
  unfolding publish_birth
  publish_birth-Accepted n h a = elim (Bool-cases (is_active n)) [
    | inr i ↦ rw i (h, unfold hear_all in refl, a)
    | inl i ↦ elim (Bool-cases (works nbirth)) [
      | inr w ↦
          rw (i, w)
            (Accepted-one h _ _ _ (heard-nbirth n h (build_topic n nbirth) false a.same_bdseq)
              (record {
                same_seq = refl;
                same_bdseq = a.same_bdseq;
                node_born = a.node_born;
                device_born = a.device_born;
              }))
      | inl w ↦ elim (Bool-cases (is_set n.device_id)) [
        | inr s ↦
            rw (i, w, s)
              (Accepted-one h _ _ _ (heard-nbirth n h (build_topic n nbirth) true a.same_bdseq)
                (record {
                  same_seq = refl;
                  same_bdseq = a.same_bdseq;
                  node_born = λ b. refl;
                  device_born = λ b t. ground arith;
                }))
        | inl s ↦
            rw (i, w, s)
              (Accepted-cons h _ _ _ _ (heard-nbirth n h (build_topic n nbirth) true a.same_bdseq) (
                device_birth-Accepted (record n { seq = 1 }) _ refl a.same_bdseq refl
                  a.device_born))
      ]
    ]
  ]

  heard-data :
      (n : Node) (h : Host) (topic : Str) (ms : List (Metric D)) (ok : Bool)
      → Agrees n h
      → n.birth_sent ≡ true
      → heard h (publish (data_type n) topic (some n.seq) ms ok)
        ≡ some (record h { next_seq = (h.next_seq + 1) % 256 })
  unfolding heard
  heard-data n h topic ms ok a b = elim (Bool-cases (is_set n.device_id)) [
    | inl s ↦ rw (s, eq_self n.seq h.next_seq a.same_seq, a.node_born b, a.device_born b s) refl
    | inr s ↦ rw (s, eq_self n.seq h.next_seq a.same_seq, a.node_born b) refl
  ]

  -- The next number is taken, and the rest that the host knows stays.
  Agrees-taken :
      (n : Node) (h : Host)
      → Agrees n h
      → Agrees (seq_taken n) (record h { next_seq = (h.next_seq + 1) % 256 })
  Agrees-taken n h a = record {
    same_seq = ap (λ k. (k + 1) % 256) a.same_seq;
    same_bdseq = a.same_bdseq;
    node_born = a.node_born;
    device_born = a.device_born;
  }

  flush_replay-Accepted :
      (ms : List (Metric D)) (n : Node) (h : Host)
      → Agrees n h
      → n.birth_sent ≡ true
      → Accepted h (flush_replay d zero_dbl works ms n)
  unfolding flush_replay
  flush_replay-Accepted [] n h a b =
      (h, unfold hear_all in refl, Agrees-same _ a refl refl refl refl)
  flush_replay-Accepted (m ∷ ms) n h a b =
      let a' = Agrees-taken n h a in
      elim (Bool-cases (works (data_type n))) [
        | inl w ↦ rw w (
            Accepted-one h _ _ _ (heard-data n h (build_topic n (data_type n)) (m ∷ ms) true a b)
              (Agrees-same _ a' refl refl refl refl))
        | inr w ↦ rw w (
            Accepted-one h _ _ _ (heard-data n h (build_topic n (data_type n)) (m ∷ ms) false a b)
              a')
      ]

  pub flush_history-Accepted :
      (n : Node) (h : Host)
      → Agrees n h
      → n.birth_sent ≡ true
      → Accepted h (flush_history d zero_dbl works n)
  unfolding flush_history
  flush_history-Accepted n h a b = elim (Bool-cases (n.hist_count == 0)) [
    | inl e ↦ rw e (h, unfold hear_all in refl, a)
    | inr e ↦ rw e (flush_replay-Accepted (replay_from d zero_dbl n 0 n.hist_count) n h a b)
  ]

  pub publish_data-Accepted :
      (conn : Bool) (ms : List (Metric D)) (n : Node) (h : Host)
      → Agrees n h
      → let r = publish_data d zero_dbl works conn ms n in Accepted h (r.0, r.2)
  unfolding publish_data
  publish_data-Accepted conn [] n h a = (h, unfold hear_all in refl, a)
  publish_data-Accepted conn (m ∷ ms) n h a =
      let a' = Agrees-taken n h a in
      elim (Bool-cases (can_send conn n)) [
        | inr c ↦ rw c (h, unfold hear_all in refl, a)
        | inl c ↦
            let b : n.birth_sent ≡ true = ground arith in
            elim (Bool-cases (works (data_type n))) [
              | inl w ↦
                  rw (c, w)
                    (Accepted-one h _ _ _
                      (heard-data n h (build_topic n (data_type n)) (m ∷ ms) true a b)
                      (Agrees-same _ a' refl refl refl refl))
              | inr w ↦
                  rw (c, w)
                    (Accepted-one h _ _ _
                      (heard-data n h (build_topic n (data_type n)) (m ∷ ms) false a b) a')
            ]
      ]
