-- ===== src/Sparkplug/Decode.antt =====
-- app/engine/sparkplug_pb.c: payloads as they are read.
use event_engine_acap.Prelude.{
  ℕ, zero, suc, ◌+◌, ◌-◌, ◌*◌, ◌/◌, ◌%◌, ◌^◌, Bool, true, false, not, ltb, ◌==◌, ◌||◌,
  if◌then◌else◌, Option, none, some, List, [], ◌∷◌, Str, codes, snprintf, length, take, ℤ, pos,
  negsuc,
}
use event_engine_acap.Sparkplug.Buffer.{◌>>=◌, wt_varint, wt_64bit, wt_len, wt_32bit}
use event_engine_acap.Sparkplug.Wire.{pb_read_varint, read_len, take_bytes, pb_skip}
use event_engine_acap.Sparkplug.Metric.{Numbers, dt_is_signed_int}

-- `pending_kind`: 0, 1 and 2
pub data Pending : Type 0 where
  nothing_pending int_pending long_pending : Pending

-- `DecodedMetric`, with the locals `pending_int` and `pending_kind` of `decode_metric`
pub record Decoded : Type 0 where
  pub name : Str
  pub has_name : Bool
  pub alias : ℕ
  pub has_alias : Bool
  pub datatype : ℕ
  pub is_null : Bool
  pub value : Str
  pub has_value : Bool
  pub pending_int : ℕ
  pub pending_kind : Pending

abbrev pub blank_metric : Decoded
blank_metric = record {
  name = [];
  has_name = false;
  alias = 0;
  has_alias = false;
  datatype = 0;
  is_null = false;
  value = [];
  has_value = false;
  pending_int = 0;
  pending_kind = nothing_pending;
}

-- The arguments of one call of the handler, without `user`.
pub record Call : Type 0 where
  pub name : Str
  pub alias : ℕ
  pub has_alias : Bool
  pub datatype : ℕ
  pub value_str : Str

-- What a C string shows of the bytes in its buffer.
abbrev pub until_nul : List ℕ → Str
until_nul [] = []
until_nul (b ∷ bs) = if b == 0 then [] else b ∷ until_nul bs

-- `memcpy` of at most `size - 1` bytes, and a zero byte after them
abbrev pub copy_text : ℕ → List ℕ → Str
copy_text size bs = until_nul (take (size - 1) bs)

-- A number of `w` bits as two's complement, where `half` is `2 ^ (w - 1)`.
abbrev pub signed : ℕ → ℕ → ℤ
signed half v = if ltb v half then pos v else negsuc (2 * half - 1 - v)

-- The bytes as a number, from the lowest on.
unfoldable pub of_le : List ℕ → ℕ
of_le [] = 0
of_le (b ∷ bs) = b + 256 * of_le bs

abbrev pub is_some : {A : Type 0} → Option A → Bool
is_some none = false
is_some (some a) = true

abbrev pub show_value : Str → Decoded → Decoded
show_value value dm = record dm { value = value; has_value = true; pending_kind = nothing_pending }

-- The field of each number that is read as a varint, and what it does to the metric.
abbrev pub is_varint_field : ℕ → Bool
is_varint_field field =
    field == 2 || (field == 4 || (field == 7 || (field == 10 || (field == 11 || field == 14))))

abbrev pub put_varint : ℕ → ℕ → Decoded → Decoded
put_varint field v dm =
    if field == 2
    then record dm { alias = v; has_alias = true }
    else if field == 4
    then record dm { datatype = v % 2 ^ 32 }
    else if field == 7
    then record dm { is_null = not (v == 0) }
    else if field == 10
    then record dm { pending_int = v; pending_kind = int_pending }
    else if field == 11
    then record dm { pending_int = v; pending_kind = long_pending }
    else show_value (if v == 0 then codes "false" else codes "true") dm

abbrev pub put_text : ℕ → List ℕ → Decoded → Decoded
put_text field bs dm =
    if field == 1
    then record dm { name = copy_text 256 bs; has_name = true }
    else show_value (copy_text 512 bs) dm

abbrev pub read_as : {A : Type 0} → (A → Decoded) → Option (A × List ℕ) → Option (Decoded × List ℕ)
read_as put none = none
read_as put (some (a, bs)) = some (put a, bs)

abbrev pub keep_metric : Decoded → Option (List ℕ) → Option (Decoded × List ℕ)
keep_metric dm none = none
keep_metric dm (some bs) = some (dm, bs)

abbrev pub call_of : Decoded → Call
call_of dm = record {
  name = if dm.has_name then dm.name else [];
  alias = dm.alias;
  has_alias = dm.has_alias;
  datatype = dm.datatype;
  value_str = dm.value;
}

module _ {D : Type 0} (d : Numbers D) where
  unfoldable pub render_int : ℕ → ℕ → Bool → Str
  render_int dt raw is_long =
      if dt_is_signed_int dt
      then snprintf 512 (
          d.print_i64 (
            if is_long
            then signed (2 ^ 63) raw
            else if dt == 1
            then signed (2 ^ 7) (raw % 2 ^ 8)
            else if dt == 2
            then signed (2 ^ 15) (raw % 2 ^ 16)
            else signed (2 ^ 31) (raw % 2 ^ 32)))
      else snprintf 512 (d.print_u64 raw)

  -- The switch of `decode_metric` on a field that was met.
  unfoldable pub decode_field : Decoded → ℕ → ℕ → List ℕ → Option (Decoded × List ℕ)
  decode_field dm field wt bs =
      if is_varint_field field
      then (if wt == wt_varint
          then read_as (λ v. put_varint field v dm) (pb_read_varint bs)
          else none)
      else if field == 1 || field == 15
      then (if wt == wt_len then read_as (λ text. put_text field text dm) (read_len bs) else none)
      else if field == 12
      then (if wt == wt_32bit
          then read_as (λ le. show_value (snprintf 512 (d.print_float (of_le le))) dm)
              (take_bytes 4 bs)
          else none)
      else if field == 13
      then (if wt == wt_64bit
          then read_as (λ le. show_value (snprintf 512 (d.print_double (of_le le))) dm)
              (take_bytes 8 bs)
          else none)
      else keep_metric dm (pb_skip wt bs)

  abbrev pub field_after : Decoded → Option (ℕ × List ℕ) → Option (Decoded × List ℕ)
  field_after dm none = none
  field_after dm (some (key, bs)) = decode_field dm (key / 8 % 2 ^ 32) (key % 8) bs

  -- One round of the loop of `decode_metric`.
  unfoldable pub decode_round : Decoded → List ℕ → Option (Decoded × List ℕ)
  decode_round dm bs = field_after dm (pb_read_varint bs)

  -- The loop, in at most `n` rounds.
  unfoldable pub decode_loop : ℕ → Decoded → List ℕ → Option Decoded
  decode_loop n dm [] = some dm
  decode_loop zero dm (b ∷ bs) = none
  decode_loop (suc n) dm (b ∷ bs) = decode_round dm (b ∷ bs) >>= λ p. decode_loop n p.0 p.1

  -- The value of the integers, once the whole metric was read.
  abbrev pub rendered : Pending → Decoded → Decoded
  rendered nothing_pending dm = dm
  rendered int_pending dm =
      if dm.has_value
      then dm
      else record dm { value = render_int dm.datatype dm.pending_int false; has_value = true }
  rendered long_pending dm =
      if dm.has_value
      then dm
      else record dm { value = render_int dm.datatype dm.pending_int true; has_value = true }

  -- The end of `decode_metric`.
  abbrev pub finish_metric : Decoded → Decoded
  finish_metric dm =
      let shown = rendered dm.pending_kind dm in
      if dm.is_null then record shown { value = []; has_value = false } else shown

  unfoldable pub decode_metric : List ℕ → Option Decoded
  decode_metric bs = decode_loop (length bs) blank_metric bs >>= λ dm. some (finish_metric dm)
