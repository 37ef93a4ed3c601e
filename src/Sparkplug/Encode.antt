-- ===== src/Sparkplug/Encode.antt =====
-- app/engine/sparkplug_pb.c: metrics and payloads as they are written.
use event_engine_acap.Prelude.{
  ℕ, ◌%◌, ◌^◌, Bool, true, false, not, ◌==◌, if◌then◌else◌, Option, none, some, List, [], ◌∷◌,
}
use event_engine_acap.Cjson.{is_set}
use event_engine_acap.Sparkplug.Buffer.{
  ◌>>=◌, SpbBuf, pb_varint_field, pb_bool_field, pb_fixed32_field, pb_fixed64_field, pb_bytes_field,
  pb_string_field, bytes_of,
}
use event_engine_acap.Sparkplug.Metric.{
  Numbers, Metric, ValueKind, int_value, long_value, float_value, double_value, bool_value,
  string_value, no_value, value_kind,
}

-- `SPB_Buf mb = { NULL, 0, 0 }`
abbrev pub empty_buf : SpbBuf
empty_buf = record { bytes = []; cap = 0 }

module _ {D : Type 0} (realloc : ℕ → Bool) (d : Numbers D) where
  -- A writer that is called if the test holds.
  abbrev pub write_if : Bool → (SpbBuf → Option SpbBuf) → SpbBuf → Option SpbBuf
  write_if true w b = w b
  write_if false w b = some b

  -- The branch of `encode_value` for a kind of value.
  abbrev pub encode_as : ValueKind → Metric D → SpbBuf → Option SpbBuf
  encode_as (int_value bits) m b = pb_varint_field realloc 10 (m.i64 % 2 ^ bits) b
  encode_as long_value m b = pb_varint_field realloc 11 m.i64 b
  encode_as float_value m b = pb_fixed32_field realloc 12 (d.float_bits m.dbl) b
  encode_as double_value m b = pb_fixed64_field realloc 13 (d.double_bits m.dbl) b
  encode_as bool_value m b = pb_bool_field realloc 14 (not (m.i64 == 0)) b
  encode_as string_value m b = pb_string_field realloc 15 m.str b
  encode_as no_value m b = some b

  unfoldable pub encode_value : Metric D → SpbBuf → Option SpbBuf
  encode_value m b = encode_as (value_kind m.datatype) m b

  -- The fields of a metric, in their order.
  unfoldable pub metric_fields : Metric D → SpbBuf → Option SpbBuf
  metric_fields m b = do
    named ← write_if (is_set (bytes_of m.name)) (pb_string_field realloc 1 m.name) b
    aliased ← write_if m.has_alias (pb_varint_field realloc 2 m.alias) named
    timed ← write_if (not (m.timestamp_ms == 0)) (pb_varint_field realloc 3 m.timestamp_ms) aliased
    typed ← pb_varint_field realloc 4 m.datatype timed
    dated ← write_if m.is_historical (pb_bool_field realloc 5 true) typed
    if m.is_null then pb_bool_field realloc 7 true dated else encode_value m dated

  unfoldable pub encode_metric : Metric D → SpbBuf → Option SpbBuf
  encode_metric m out = metric_fields m empty_buf >>= λ mb. pb_bytes_field realloc 2 mb.bytes out

  -- The loop of `SPB_Encode` over the metrics.
  unfoldable pub encode_metrics : List (Metric D) → SpbBuf → Option SpbBuf
  encode_metrics [] out = some out
  encode_metrics (m ∷ ms) out = encode_metric m out >>= encode_metrics ms

  -- `seq` is `none` without `has_seq`.
  unfoldable pub spb_encode : ℕ → Option ℕ → List (Metric D) → Option SpbBuf
  spb_encode timestamp_ms seq metrics = do
    timed ← pb_varint_field realloc 1 timestamp_ms empty_buf
    filled ← encode_metrics metrics timed
    elim seq [ none ↦ some filled | some n ↦ pb_varint_field realloc 3 n filled ]
