-- ===== src/Sparkplug/Sizes.antt =====
-- The bytes of a metric of app/engine/sparkplug_pb.c are few.
use event_engine_acap.Prelude.{
  ℕ, ◌+◌, ◌*◌, ◌%◌, ◌^◌, ◌≤◌, ◌<◌, Bool, true, false, not, ◌==◌, if◌then◌else◌, List, [], ◌∷◌, ◌++◌,
  length, length-append, arith,
}
use event_engine_acap.Cjson.{is_set}
use event_engine_acap.Sparkplug.Buffer.{bytes_of, varint_bytes, le_bytes}
use event_engine_acap.Sparkplug.Metric.{
  Numbers, Metric, ValueKind, int_value, long_value, float_value, double_value, bool_value,
  string_value, no_value, value_kind,
}
use event_engine_acap.Sparkplug.Layout.{
  tag, varint_field, bool_field, len_field, field_if, value_as, value_layout, metric_layout,
}
use event_engine_acap.Sparkplug.Varint.{length-varint_bytes}
use event_engine_acap.Sparkplug.Fields.{length-le_bytes}
use event_engine_acap.Sparkplug.Shown.{Sendable}

length-varint_field : (field v : ℕ) → length (varint_field field v) ≤ 20
length-varint_field field v = omega (
  arith,
  length-append (tag field 0) (varint_bytes 10 v),
  length-varint_bytes 10 (field * 8 + 0),
  length-varint_bytes 10 v,
)

length-bool_field : (field : ℕ) (v : Bool) → length (bool_field field v) ≤ 20
length-bool_field field v = omega (
  arith,
  length-append (tag field 0) ((if v then 1 else 0) ∷ []),
  length-varint_bytes 10 (field * 8 + 0),
)

length-len_field : (field : ℕ) (src : List ℕ) → length (len_field field src) ≤ 20 + length src
length-len_field field src = omega (
  arith,
  length-append (tag field 2) (varint_bytes 10 (length src) ++ src),
  length-append (varint_bytes 10 (length src)) src,
  length-varint_bytes 10 (field * 8 + 2),
  length-varint_bytes 10 (length src),
)

length-field_if : (t : Bool) (bs : List ℕ) → length (field_if t bs) ≤ length bs
length-field_if true bs = omega arith
length-field_if false bs = omega arith

module _ {D : Type 0} (d : Numbers D) where
  length-value_as :
      (k : ValueKind) (m : Metric D) → Sendable d m → length (value_as d k m) ≤ 20 + 512
  length-value_as (int_value bits) m s = omega (arith, length-varint_field 10 (m.i64 % 2 ^ bits))
  length-value_as long_value m s = omega (arith, length-varint_field 11 m.i64)
  length-value_as float_value m s = omega (
    arith,
    length-append (tag 12 5) (le_bytes 4 (d.float_bits m.dbl)),
    length-varint_bytes 10 (12 * 8 + 5),
    length-le_bytes 4 (d.float_bits m.dbl),
  )
  length-value_as double_value m s = omega (
    arith,
    length-append (tag 13 1) (le_bytes 8 (d.double_bits m.dbl)),
    length-varint_bytes 10 (13 * 8 + 1),
    length-le_bytes 8 (d.double_bits m.dbl),
  )
  length-value_as bool_value m s = omega (arith, length-bool_field 14 (not (m.i64 == 0)))
  length-value_as string_value m s = omega (arith, length-len_field 15 (bytes_of m.str), s.str_fits)
  length-value_as no_value m s = omega arith

  length-ended :
      (null : Bool) (m : Metric D)
      → Sendable d m
      → length (if null then bool_field 7 true else value_layout d m) ≤ 532
  unfolding value_layout
  length-ended true m s = omega (arith, length-bool_field 7 true)
  length-ended false m s = length-value_as (value_kind m.datatype) m s

  pub length-metric_layout : (m : Metric D) → Sendable d m → length (metric_layout d m) < 2 ^ 64
  unfolding metric_layout
  length-metric_layout m s =
      let name = len_field 1 (bytes_of m.name) in
      let alias = varint_field 2 m.alias in
      let time = varint_field 3 m.timestamp_ms in
      let type = varint_field 4 m.datatype in
      let past = bool_field 5 true in
      let last = if m.is_null then bool_field 7 true else value_layout d m in
      let named = field_if (is_set (bytes_of m.name)) name in
      let aliased = field_if m.has_alias alias in
      let timed = field_if (not (m.timestamp_ms == 0)) time in
      let dated = field_if m.is_historical past in
      omega (
        arith,
        length-append named (aliased ++ (timed ++ (type ++ (dated ++ last)))),
        length-append aliased (timed ++ (type ++ (dated ++ last))),
        length-append timed (type ++ (dated ++ last)),
        length-append type (dated ++ last),
        length-append dated last,
        length-field_if (is_set (bytes_of m.name)) name,
        length-field_if m.has_alias alias,
        length-field_if (not (m.timestamp_ms == 0)) time,
        length-field_if m.is_historical past,
        length-len_field 1 (bytes_of m.name),
        length-varint_field 2 m.alias,
        length-varint_field 3 m.timestamp_ms,
        length-varint_field 4 m.datatype,
        length-bool_field 5 true,
        length-ended m.is_null m s,
        s.name_fits,
      )
