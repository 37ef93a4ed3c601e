-- ===== src/Sparkplug/Shown.antt =====
-- What the handler of `SPB_Decode` is to be given for a metric, in app/engine/sparkplug_pb.c.
use event_engine_acap.Prelude.{
  ℕ, ◌-◌, ◌%◌, ◌^◌, ◌<◌, ◌≡◌, refl, Bool, true, false, not, ◌==◌, if◌then◌else◌, Bool-cases, inl,
  inr, [], Str, codes, snprintf, length, take_all, arith,
}
use event_engine_acap.Cjson.{is_set}
use event_engine_acap.Sparkplug.Buffer.{bytes_of}
use event_engine_acap.Sparkplug.Metric.{
  Numbers, Metric, ValueKind, int_value, long_value, float_value, double_value, bool_value,
  string_value, no_value, value_kind, dt_is_signed_int,
}
use event_engine_acap.Sparkplug.Decode.{
  Decoded, Call, finish_metric, put_varint, put_text, nothing_pending, show_value, copy_text,
  until_nul, signed, render_int,
}

-- The numbers are in the ranges of their C types, and the strings are C strings that fit the buffers
-- of the decoder.
pub record Sendable {D : Type 0} (d : Numbers D) (m : Metric D) : Type 0 where
  pub name_fits : length (bytes_of m.name) < 256
  pub name_ends : until_nul (bytes_of m.name) ≡ bytes_of m.name
  pub alias_fits : m.alias < 2 ^ 64
  pub time_fits : m.timestamp_ms < 2 ^ 64
  pub type_fits : m.datatype < 2 ^ 32
  pub i64_fits : m.i64 < 2 ^ 64
  pub float_fits : d.float_bits m.dbl < 2 ^ 32
  pub double_fits : d.double_bits m.dbl < 2 ^ 64
  pub str_fits : length (bytes_of m.str) < 512
  pub str_ends : until_nul (bytes_of m.str) ≡ bytes_of m.str

module _ {D : Type 0} (d : Numbers D) where
  -- The text of a value: an integer of the width that its datatype has, signed or not, a float or a
  -- double in enough digits, true or false, or the string; 511 bytes of it are kept.
  abbrev pub value_text : ValueKind → Metric D → Str
  value_text (int_value bits) m =
      if dt_is_signed_int m.datatype
      then snprintf 512 (d.print_i64 (signed (2 ^ (bits - 1)) (m.i64 % 2 ^ bits)))
      else snprintf 512 (d.print_u64 (m.i64 % 2 ^ bits))
  value_text long_value m =
      if dt_is_signed_int m.datatype
      then snprintf 512 (d.print_i64 (signed (2 ^ 63) m.i64))
      else snprintf 512 (d.print_u64 m.i64)
  value_text float_value m = snprintf 512 (d.print_float (d.float_bits m.dbl))
  value_text double_value m = snprintf 512 (d.print_double (d.double_bits m.dbl))
  value_text bool_value m = if m.i64 == 0 then codes "false" else codes "true"
  value_text string_value m = bytes_of m.str
  value_text no_value m = []

  unfoldable pub shown : Metric D → Call
  shown m = record {
    name = bytes_of m.name;
    alias = if m.has_alias then m.alias else 0;
    has_alias = m.has_alias;
    datatype = m.datatype;
    value_str = if m.is_null then [] else value_text (value_kind m.datatype) m;
  }

  -- What the fields of a metric do to the metric that is decoded.
  abbrev pub named : Bool → Metric D → Decoded → Decoded
  named t m dm = record dm {
    name = if t then copy_text 256 (bytes_of m.name) else dm.name;
    has_name = if t then true else dm.has_name;
  }

  abbrev pub aliased : Bool → Metric D → Decoded → Decoded
  aliased t m dm = record dm {
    alias = if t then m.alias else dm.alias;
    has_alias = if t then true else dm.has_alias;
  }

  abbrev pub valued : ValueKind → Metric D → Decoded → Decoded
  valued (int_value bits) m dm = put_varint 10 (m.i64 % 2 ^ bits) dm
  valued long_value m dm = put_varint 11 m.i64 dm
  valued float_value m dm = show_value (snprintf 512 (d.print_float (d.float_bits m.dbl))) dm
  valued double_value m dm = show_value (snprintf 512 (d.print_double (d.double_bits m.dbl))) dm
  valued bool_value m dm = put_varint 14 (if not (m.i64 == 0) then 1 else 0) dm
  valued string_value m dm = put_text 15 (bytes_of m.str) dm
  valued no_value m dm = dm

  abbrev pub ended : Bool → Metric D → Decoded → Decoded
  ended true m dm = put_varint 7 1 dm
  ended false m dm = valued (value_kind m.datatype) m dm

  abbrev pub gathered : Metric D → Decoded → Decoded
  gathered m dm =
      ended m.is_null m
        (put_varint 4 m.datatype (aliased m.has_alias m (named (is_set (bytes_of m.name)) m dm)))

  int_text :
      (dt v bits : ℕ)
      → value_kind dt ≡ int_value bits
      → render_int d dt (v % 2 ^ bits) false ≡ (
          if dt_is_signed_int dt
          then snprintf 512 (d.print_i64 (signed (2 ^ (bits - 1)) (v % 2 ^ bits)))
          else snprintf 512 (d.print_u64 (v % 2 ^ bits)))
  unfolding value_kind render_int
  int_text dt v bits e = ground arith

  long_text :
      (dt v : ℕ)
      → render_int d dt v true ≡ (
          if dt_is_signed_int dt
          then snprintf 512 (d.print_i64 (signed (2 ^ 63) v))
          else snprintf 512 (d.print_u64 v))
  unfolding render_int
  long_text dt v = ground arith

  pub copy_text_lem :
      (size : ℕ) (s : Str) → length s < size → until_nul s ≡ s → copy_text size s ≡ s
  copy_text_lem size s fits ends = rw (take_all (size - 1) s (omega arith)) ends

  bool_text :
      (v : ℕ)
      → (if (if not (v == 0) then 1 else 0) == 0 then codes "false" else codes "true")
        ≡ (if v == 0 then codes "false" else codes "true")
  bool_text v = elim (Bool-cases (v == 0)) [ inl h ↦ rw h refl | inr h ↦ rw h refl ]

  -- The value that is shown of a metric that is not null, before which nothing was shown.
  pub value_shown :
      (k : ValueKind) (m : Metric D) (dm : Decoded)
      → Sendable d m
      → value_kind m.datatype ≡ k
      → dm.datatype ≡ m.datatype
      → dm.has_value ≡ false
      → dm.is_null ≡ false
      → dm.pending_kind ≡ nothing_pending
      → dm.value ≡ []
      → (finish_metric d (valued k m dm)).value ≡ value_text k m
  value_shown (int_value bits) m dm s e dt fresh null none_yet empty =
      rw (null, fresh, dt, int_text m.datatype m.i64 bits e) refl
  value_shown long_value m dm s e dt fresh null none_yet empty =
      rw (null, fresh, dt, long_text m.datatype m.i64) refl
  value_shown float_value m dm s e dt fresh null none_yet empty = rw null refl
  value_shown double_value m dm s e dt fresh null none_yet empty = rw null refl
  value_shown bool_value m dm s e dt fresh null none_yet empty = rw null (bool_text m.i64)
  value_shown string_value m dm s e dt fresh null none_yet empty =
      rw null (copy_text_lem 512 (bytes_of m.str) s.str_fits s.str_ends)
  value_shown no_value m dm s e dt fresh null none_yet empty = rw (null, none_yet) empty
