-- ===== src/Sparkplug/RoundTrip.antt =====
-- app/engine/sparkplug_pb.c: `SPB_Decode` on what `SPB_Encode` wrote.
use event_engine_acap.Prelude.{
  ℕ, ◌+◌, ◌*◌, ◌/◌, ◌%◌, ◌^◌, ◌≤◌, ◌<◌, ◌≡◌, refl, ap, sym, ◌∙◌, subst, Bool, false, ◌==◌, Option,
  none, some, List, [], ◌∷◌, ◌++◌, map, length, arith,
}
use mathlib.Core.List.{append-nil, append_assoc}
use event_engine_acap.Sparkplug.Buffer.{SpbBuf, varint_bytes}
use event_engine_acap.Sparkplug.Wire.{pb_skip}
use event_engine_acap.Sparkplug.Metric.{Numbers, Metric}
use event_engine_acap.Sparkplug.Layout.{
  tag, varint_field, len_field, metric_layout, metrics_layout, seq_layout, payload_layout,
}
use event_engine_acap.Sparkplug.Varint.{pb_read_varint-varint_bytes}
use event_engine_acap.Sparkplug.Encode.{spb_encode}
use event_engine_acap.Sparkplug.Writers.{done, failed}
use event_engine_acap.Sparkplug.Written.{spb_encode-payload_layout}
use event_engine_acap.Sparkplug.Payload.{
  call_then, payload_round, payload_loop, spb_decode, spb_max_metrics,
}
use event_engine_acap.Sparkplug.Loops.{payload_loop-skip, payload_loop-call}
use event_engine_acap.Sparkplug.Fields.{read_len-prefix}
use event_engine_acap.Sparkplug.Shown.{Sendable, shown}
use event_engine_acap.Sparkplug.Called.{call_of-gathered}
use event_engine_acap.Sparkplug.Metrics.{decode_metric-metric_layout}
use event_engine_acap.Sparkplug.Sizes.{length-metric_layout}

-- Every metric of the list can be sent.
abbrev pub AllSendable : {D : Type 0} → Numbers D → List (Metric D) → Type 0
AllSendable d [] = Unit {0}
AllSendable d (m ∷ ms) = Sendable d m × AllSendable d ms

-- The number of a payload, where there is one, has 64 bits.
abbrev pub SeqFits : Option ℕ → Type 0
SeqFits none = Unit {0}
SeqFits (some n) = n < 2 ^ 64

module _ {D : Type 0} (d : Numbers D) where
  round-skipped :
      (field v : ℕ) (rest : List ℕ)
      → field < 16
      → (field == 2) ≡ false
      → v < 2 ^ 64
      → payload_round d (varint_field field v ++ rest) ≡ some (none, rest)
  unfolding payload_round pb_skip
  round-skipped field v rest h other hv =
      let key = field * 8 + 0 in
      let number : key / 8 % 2 ^ 32 ≡ field = omega arith in
      let kind : key % 8 ≡ 0 = omega arith in
      rw
        (
          append_assoc (tag field 0) (varint_bytes 10 v) rest,
          pb_read_varint-varint_bytes key (varint_bytes 10 v ++ rest) (omega arith),
          number,
          kind,
          other,
          pb_read_varint-varint_bytes v rest hv,
        )
        refl

  round-metric :
      (m : Metric D) (rest : List ℕ)
      → Sendable d m
      → payload_round d (len_field 2 (metric_layout d m) ++ rest) ≡ some (some (shown d m), rest)
  unfolding payload_round
  round-metric m rest s =
      let src = metric_layout d m in
      let more = varint_bytes 10 (length src) ++ (src ++ rest) in
      let split : len_field 2 src ++ rest ≡ tag 2 2 ++ more =
        append_assoc (tag 2 2) (varint_bytes 10 (length src) ++ src) rest
        ∙ ap (λ xs. tag 2 2 ++ xs) (append_assoc (varint_bytes 10 (length src)) src rest) in
      rw
        (
          split,
          pb_read_varint-varint_bytes 18 more (omega arith),
          read_len-prefix src rest (length-metric_layout d m s),
          decode_metric-metric_layout d m s,
          call_of-gathered d m s,
        )
        refl

  loop-seq :
      (seq : Option ℕ) (count : ℕ)
      → SeqFits seq
      → payload_loop d (length (seq_layout d seq)) count (seq_layout d seq) ≡ ([], some count)
  unfolding payload_loop
  loop-seq none count h = refl
  loop-seq (some n) count h =
      subst (λ xs. payload_loop d (length xs) count xs ≡ ([], some count))
        (append-nil (varint_field 3 n))
        (payload_loop-skip d count (varint_field 3 n ++ []) []
          (round-skipped 3 n [] (omega arith) refl h))

  loop-metrics :
      (ms : List (Metric D)) (seq : Option ℕ) (count : ℕ)
      → AllSendable d ms
      → SeqFits seq
      → count + length ms ≤ spb_max_metrics
      → let bs = metrics_layout d ms ++ seq_layout d seq in
        payload_loop d (length bs) count bs ≡ (map (shown d) ms, some (count + length ms))
  unfolding metrics_layout
  loop-metrics [] seq count all h room = loop-seq seq count h ∙ ap (λ n. ([], some n)) (omega arith)
  loop-metrics (m ∷ ms) seq count (s, all) h room =
      let more = metrics_layout d ms ++ seq_layout d seq in
      let step =
        payload_loop-call d count (len_field 2 (metric_layout d m) ++ more) more (shown d m)
          (round-metric m more s) (omega arith) in
      let next = loop-metrics ms seq (count + 1) all h (omega arith) in
      let total : count + 1 + length ms ≡ count + length (m ∷ ms) = omega arith in
      subst
        (λ xs.
          payload_loop d (length xs) count xs
          ≡ (map (shown d) (m ∷ ms), some (count + length (m ∷ ms))))
        (sym
          (append_assoc (len_field 2 (metric_layout d m)) (metrics_layout d ms) (seq_layout d seq)))
        (step ∙ ap (call_then (shown d m)) next ∙ ap (λ n. (map (shown d) (m ∷ ms), some n)) total)

  pub spb_decode-payload_layout :
      (timestamp_ms : ℕ) (seq : Option ℕ) (ms : List (Metric D))
      → timestamp_ms < 2 ^ 64
      → SeqFits seq
      → AllSendable d ms
      → length ms ≤ spb_max_metrics
      → spb_decode d (payload_layout d timestamp_ms seq ms) ≡ (map (shown d) ms, some (length ms))
  unfolding spb_decode payload_layout
  spb_decode-payload_layout timestamp_ms seq ms time h all room =
      let more = metrics_layout d ms ++ seq_layout d seq in
      let total : 0 + length ms ≡ length ms = omega arith in
      payload_loop-skip d 0 (varint_field 1 timestamp_ms ++ more) more
        (round-skipped 1 timestamp_ms more (omega arith) refl time)
      ∙ loop-metrics ms seq 0 all h (omega arith)
      ∙ ap (λ n. (map (shown d) ms, some n)) total

  -- `SPB_Decode` on the bytes that `SPB_Encode` left: the handler is called once for each metric, in
  -- their order, with its name, alias, datatype and the text of its value, and the result is the
  -- number of metrics. The numbers are in the ranges of their C types, the strings are C strings that
  -- fit the decoder's buffers, and there are at most 4096 metrics.
  pub spb_decode-spb_encode :
      (realloc : ℕ → Bool) (timestamp_ms : ℕ) (seq : Option ℕ) (ms : List (Metric D)) (b : SpbBuf)
      → timestamp_ms < 2 ^ 64
      → SeqFits seq
      → AllSendable d ms
      → length ms ≤ spb_max_metrics
      → spb_encode realloc d timestamp_ms seq ms ≡ some b
      → spb_decode d b.bytes ≡ (map (shown d) ms, some (length ms))
  spb_decode-spb_encode realloc timestamp_ms seq ms b time h all room e =
      elim (spb_encode-payload_layout realloc d timestamp_ms seq ms) [
        | failed n broke none_left ↦ absurd (cc (sym e ∙ none_left))
        | done b' e' same fits ↦
            let found : b.bytes ≡ payload_layout d timestamp_ms seq ms =
              ap (λ (o : Option SpbBuf). bytes_left o) (sym e ∙ e') ∙ same in
            ap (spb_decode d) found ∙ spb_decode-payload_layout timestamp_ms seq ms time h all room
      ]
    where
      bytes_left : Option SpbBuf → List ℕ
      bytes_left none = []
      bytes_left (some b) = b.bytes
