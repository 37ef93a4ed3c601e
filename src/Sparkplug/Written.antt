-- ===== src/Sparkplug/Written.antt =====
-- app/engine/sparkplug_pb.c: what `SPB_Encode` leaves in the buffer.
use event_engine_acap.Prelude.{
  ℕ, refl, Bool, true, false, if◌then◌else◌, Option, none, some, List, [], ◌∷◌, arith,
}
use event_engine_acap.Sparkplug.Buffer.{SpbBuf, pb_bool_field, pb_varint_field}
use event_engine_acap.Sparkplug.Metric.{
  Numbers, Metric, ValueKind, int_value, long_value, float_value, double_value, bool_value,
  string_value, no_value, value_kind,
}
use event_engine_acap.Sparkplug.Encode.{
  empty_buf, write_if, encode_as, encode_value, metric_fields, encode_metric, encode_metrics,
  spb_encode,
}
use event_engine_acap.Sparkplug.Layout.{
  field_if, bool_field, len_field, value_as, value_layout, metric_layout, metrics_layout,
  seq_layout, payload_layout,
}
use event_engine_acap.Sparkplug.Writers.{
  Wrote, done, failed, Writes, Writes-then, Writes-nothing, Writes-varint_field, Writes-bool_field,
  Writes-fixed32_field, Writes-fixed64_field, Writes-bytes_field, Writes-string_field,
}

module _ {D : Type 0} (realloc : ℕ → Bool) (d : Numbers D) where
  Writes-if :
      (t : Bool) (w : SpbBuf → Option SpbBuf) (bs : List ℕ)
      → Writes realloc w bs
      → Writes realloc (write_if realloc d t w) (field_if t bs)
  Writes-if true w bs h = h
  Writes-if false w bs h = Writes-nothing realloc

  Writes-as :
      (k : ValueKind) (m : Metric D) → Writes realloc (encode_as realloc d k m) (value_as d k m)
  Writes-as (int_value bits) m = Writes-varint_field realloc 10 _
  Writes-as long_value m = Writes-varint_field realloc 11 _
  Writes-as float_value m = Writes-fixed32_field realloc 12 _
  Writes-as double_value m = Writes-fixed64_field realloc 13 _
  Writes-as bool_value m = Writes-bool_field realloc 14 _
  Writes-as string_value m = Writes-string_field realloc 15 _
  Writes-as no_value m = Writes-nothing realloc

  Writes-value : (m : Metric D) → Writes realloc (encode_value realloc d m) (value_layout d m)
  unfolding encode_value value_layout
  Writes-value m = Writes-as (value_kind m.datatype) m

  Writes-last :
      (null : Bool) (m : Metric D)
      → Writes realloc
          (λ b. if null then pb_bool_field realloc 7 true b else encode_value realloc d m b)
          (if null then bool_field 7 true else value_layout d m)
  Writes-last true m = Writes-bool_field realloc 7 true
  Writes-last false m = Writes-value m

  Writes-fields : (m : Metric D) → Writes realloc (metric_fields realloc d m) (metric_layout d m)
  unfolding metric_fields metric_layout
  Writes-fields m =
      Writes-then realloc _ _ _ _ (Writes-if _ _ _ (Writes-string_field realloc 1 m.name)) (
        Writes-then realloc _ _ _ _ (Writes-if _ _ _ (Writes-varint_field realloc 2 m.alias)) (
          Writes-then realloc _ _ _ _
            (Writes-if _ _ _ (Writes-varint_field realloc 3 m.timestamp_ms))
            (Writes-then realloc _ _ _ _ (Writes-varint_field realloc 4 m.datatype) (
              Writes-then realloc _ _ _ _ (Writes-if _ _ _ (Writes-bool_field realloc 5 true))
                (Writes-last m.is_null m)))))

  -- The bytes of a metric are gathered in a buffer of their own.
  Writes-metric :
      (m : Metric D) → Writes realloc (encode_metric realloc d m) (len_field 2 (metric_layout d m))
  unfolding encode_metric
  Writes-metric m b v = elim (Writes-fields m empty_buf (omega arith)) [
    | failed n broke e ↦ rw e (failed n broke refl)
    | done mb e same v' ↦ rw (e, same) (Writes-bytes_field realloc 2 (metric_layout d m) b v)
  ]

  Writes-metrics :
      (ms : List (Metric D)) → Writes realloc (encode_metrics realloc d ms) (metrics_layout d ms)
  unfolding encode_metrics metrics_layout
  Writes-metrics [] = Writes-nothing realloc
  Writes-metrics (m ∷ ms) = Writes-then realloc _ _ _ _ (Writes-metric m) (Writes-metrics ms)

  Writes-seq :
      (seq : Option ℕ)
      → Writes realloc
          (λ b. elim seq [ none ↦ some b | some n ↦ pb_varint_field realloc 3 n b ])
          (seq_layout d seq)
  Writes-seq none = Writes-nothing realloc
  Writes-seq (some n) = Writes-varint_field realloc 3 n

  -- `SPB_Encode` either leaves exactly the bytes of the payload in memory that holds them, or a call
  -- of `realloc` failed.
  pub spb_encode-payload_layout :
      (timestamp_ms : ℕ) (seq : Option ℕ) (metrics : List (Metric D))
      → Wrote realloc []
          (payload_layout d timestamp_ms seq metrics)
          (spb_encode realloc d timestamp_ms seq metrics)
  unfolding spb_encode payload_layout
  spb_encode-payload_layout timestamp_ms seq metrics =
      Writes-then realloc _ _ _ _ (Writes-varint_field realloc 1 timestamp_ms)
        (Writes-then realloc _ _ _ _ (Writes-metrics metrics) (Writes-seq seq)) empty_buf
        (omega arith)
