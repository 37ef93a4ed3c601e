-- ===== src/Sparkplug/Layout.antt =====
-- The bytes of a Sparkplug payload, field by field, as app/engine/sparkplug_pb.c writes them.
use event_engine_acap.Prelude.{
  ℕ, ◌+◌, ◌*◌, ◌%◌, ◌^◌, Bool, true, false, not, ◌==◌, if◌then◌else◌, Option, none, some, List, [],
  ◌∷◌, ◌++◌, length,
}
use event_engine_acap.Cjson.{is_set}
use event_engine_acap.Sparkplug.Buffer.{varint_bytes, le_bytes, bytes_of}
use event_engine_acap.Sparkplug.Metric.{
  Numbers, Metric, ValueKind, int_value, long_value, float_value, double_value, bool_value,
  string_value, no_value, value_kind,
}

abbrev pub tag : ℕ → ℕ → List ℕ
tag field wire_type = varint_bytes 10 (field * 8 + wire_type)

abbrev pub varint_field : ℕ → ℕ → List ℕ
varint_field field v = tag field 0 ++ varint_bytes 10 v

abbrev pub bool_field : ℕ → Bool → List ℕ
bool_field field v = tag field 0 ++ ((if v then 1 else 0) ∷ [])

abbrev pub fixed32_field : ℕ → ℕ → List ℕ
fixed32_field field v = tag field 5 ++ le_bytes 4 v

abbrev pub fixed64_field : ℕ → ℕ → List ℕ
fixed64_field field v = tag field 1 ++ le_bytes 8 v

abbrev pub len_field : ℕ → List ℕ → List ℕ
len_field field src = tag field 2 ++ (varint_bytes 10 (length src) ++ src)

abbrev pub field_if : Bool → List ℕ → List ℕ
field_if true bs = bs
field_if false bs = []

module _ {D : Type 0} (d : Numbers D) where
  abbrev pub value_as : ValueKind → Metric D → List ℕ
  value_as (int_value bits) m = varint_field 10 (m.i64 % 2 ^ bits)
  value_as long_value m = varint_field 11 m.i64
  value_as float_value m = fixed32_field 12 (d.float_bits m.dbl)
  value_as double_value m = fixed64_field 13 (d.double_bits m.dbl)
  value_as bool_value m = bool_field 14 (not (m.i64 == 0))
  value_as string_value m = len_field 15 (bytes_of m.str)
  value_as no_value m = []

  unfoldable pub value_layout : Metric D → List ℕ
  value_layout m = value_as (value_kind m.datatype) m

  unfoldable pub metric_layout : Metric D → List ℕ
  metric_layout m =
      field_if (is_set (bytes_of m.name)) (len_field 1 (bytes_of m.name))
      ++ (field_if m.has_alias (varint_field 2 m.alias)
          ++ (field_if (not (m.timestamp_ms == 0)) (varint_field 3 m.timestamp_ms)
              ++ (varint_field 4 m.datatype
                  ++ (field_if m.is_historical (bool_field 5 true)
                      ++ (if m.is_null then bool_field 7 true else value_layout m)))))

  unfoldable pub metrics_layout : List (Metric D) → List ℕ
  metrics_layout [] = []
  metrics_layout (m ∷ ms) = len_field 2 (metric_layout m) ++ metrics_layout ms

  abbrev pub seq_layout : Option ℕ → List ℕ
  seq_layout none = []
  seq_layout (some n) = varint_field 3 n

  unfoldable pub payload_layout : ℕ → Option ℕ → List (Metric D) → List ℕ
  payload_layout timestamp_ms seq metrics =
      varint_field 1 timestamp_ms ++ (metrics_layout metrics ++ seq_layout seq)
