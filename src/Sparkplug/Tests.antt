-- ===== src/Sparkplug/Tests.antt =====
-- Runs of the codec, and its theorems at concrete inputs. A double is its own bits here.
use event_engine_acap.Prelude.{
  ℕ, ◌^◌, ◌%◌, ◌≤◌, ◌≡◌, refl, Bool, true, false, Option, none, some, List, [], ◌∷◌, codes, length,
  map, pos_part, arith,
}
use event_engine_acap.Sparkplug.Buffer.{
  SpbBuf, varint_bytes, pb_varint_field, pb_tag, pb_varint, buf_put, buf_reserve, grow,
  pb_string_field, pb_bytes_field, pb_bool_field,
}
use event_engine_acap.Sparkplug.Metric.{Numbers, Metric, value_kind}
use event_engine_acap.Sparkplug.Encode.{
  spb_encode, encode_metrics, encode_metric, metric_fields, encode_value,
}
use event_engine_acap.Sparkplug.Payload.{spb_decode}
use event_engine_acap.Sparkplug.Layout.{payload_layout}
use event_engine_acap.Sparkplug.Shown.{Sendable, shown}
use event_engine_acap.Sparkplug.Writers.{Wrote}
use event_engine_acap.Sparkplug.Written.{spb_encode-payload_layout}
use event_engine_acap.Sparkplug.RoundTrip.{spb_decode-spb_encode}
use event_engine_acap.Sparkplug.Hostile.{spb_decode-length}

abbrev numbers : Numbers ℕ
numbers = record {
  float_bits = λ v. v % 2 ^ 32;
  double_bits = λ v. v % 2 ^ 64;
  print_float = λ v. v ∷ [];
  print_double = λ v. v ∷ [];
  print_i64 = λ z. pos_part z ∷ [];
  print_u64 = λ v. v ∷ [];
  strtod = length;
  i64_of = λ v. v;
  u64_of = λ v. v;
  strtoll = length;
  strtoull = length;
}

-- An Int32 of 300 by name and alias, and a String by alias.
abbrev level : Metric ℕ
level = record {
  name = some (codes "level");
  alias = 7;
  has_alias = true;
  timestamp_ms = 1000;
  datatype = 3;
  is_null = false;
  is_historical = true;
  i64 = 300;
  dbl = 0;
  str = none;
}

abbrev label : Metric ℕ
label = record {
  name = none;
  alias = 8;
  has_alias = true;
  timestamp_ms = 0;
  datatype = 12;
  is_null = false;
  is_historical = false;
  i64 = 0;
  dbl = 0;
  str = some (codes "ok");
}

abbrev always : ℕ → Bool
always n = true

abbrev two_metrics : List (Metric ℕ)
two_metrics = level ∷ label ∷ []

level-Sendable : Sendable numbers level
level-Sendable = record {
  name_fits = omega arith;
  name_ends = refl;
  alias_fits = omega arith;
  time_fits = omega arith;
  type_fits = omega arith;
  i64_fits = omega arith;
  float_fits = omega arith;
  double_fits = omega arith;
  str_fits = omega arith;
  str_ends = refl;
}

label-Sendable : Sendable numbers label
label-Sendable = record {
  name_fits = omega arith;
  name_ends = refl;
  alias_fits = omega arith;
  time_fits = omega arith;
  type_fits = omega arith;
  i64_fits = omega arith;
  float_fits = omega arith;
  double_fits = omega arith;
  str_fits = omega arith;
  str_ends = refl;
}

spb_encode-payload_layout_example :
    Wrote always []
      (payload_layout numbers 1000 (some 1) two_metrics)
      (spb_encode always numbers 1000 (some 1) two_metrics)
spb_encode-payload_layout_example =
    spb_encode-payload_layout always numbers 1000 (some 1) two_metrics

abbrev none_left : Option SpbBuf → SpbBuf
none_left none = record { bytes = []; cap = 0 }
none_left (some b) = b

abbrev sent : SpbBuf
sent = none_left (spb_encode always numbers 1000 (some 1) two_metrics)

spb_decode-spb_encode_example :
    spb_decode numbers sent.bytes ≡ (map (shown numbers) two_metrics, some 2)
unfolding spb_encode pb_varint_field pb_tag pb_varint buf_put varint_bytes buf_reserve grow
    encode_metrics encode_metric metric_fields pb_string_field pb_bytes_field pb_bool_field
    encode_value value_kind
spb_decode-spb_encode_example =
    spb_decode-spb_encode numbers always 1000 (some 1) two_metrics sent (omega arith) (omega arith)
      (level-Sendable, (label-Sendable, tt)) (omega arith) refl

spb_decode-length_example :
    (length (spb_decode numbers (8 ∷ 1 ∷ 18 ∷ [])).0 ≤ 4096)
    × ((n : ℕ)
        → (spb_decode numbers (8 ∷ 1 ∷ 18 ∷ [])).1 ≡ some n
        → n ≡ length (spb_decode numbers (8 ∷ 1 ∷ 18 ∷ [])).0)
spb_decode-length_example = spb_decode-length numbers (8 ∷ 1 ∷ 18 ∷ [])
