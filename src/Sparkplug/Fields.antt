-- ===== src/Sparkplug/Fields.antt =====
-- app/engine/sparkplug_pb.c: the readers on the fields that the writers left.
use event_engine_acap.Prelude.{
  ℕ, zero, suc, ◌+◌, ◌*◌, ◌/◌, ◌%◌, ◌^◌, ◌<◌, ◌≡◌, refl, ap, ◌∙◌, Bool, true, false, ◌==◌, ◌||◌,
  if◌then◌else◌, some, List, [], ◌∷◌, ◌++◌, snprintf, length, length-append, take, drop, arith,
}
use mathlib.Core.List.{append_assoc}
use event_engine_acap.Sparkplug.Buffer.{varint_bytes, le_bytes}
use event_engine_acap.Sparkplug.Wire.{read_len, take_bytes, pb_skip}
use event_engine_acap.Sparkplug.Metric.{Numbers}
use event_engine_acap.Sparkplug.Layout.{
  tag, varint_field, bool_field, fixed32_field, fixed64_field, len_field,
}
use event_engine_acap.Sparkplug.Varint.{pb_read_varint-varint_bytes}
use event_engine_acap.Sparkplug.Decode.{
  Decoded, decode_field, decode_round, put_varint, put_text, show_value, is_varint_field, of_le,
}

take-prefix : (xs ys : List ℕ) → take (length xs) (xs ++ ys) ≡ xs
take-prefix [] ys = refl
take-prefix (x ∷ xs) ys = ground (arith, take-prefix xs ys)

drop-prefix : (xs ys : List ℕ) → drop (length xs) (xs ++ ys) ≡ ys
drop-prefix [] ys = refl
drop-prefix (x ∷ xs) ys = ground (arith, drop-prefix xs ys)

take_bytes-prefix : (xs ys : List ℕ) → take_bytes (length xs) (xs ++ ys) ≡ some (xs, ys)
take_bytes-prefix xs ys = ground (arith, length-append xs ys, take-prefix xs ys, drop-prefix xs ys)

-- A length and the bytes are read back whole.
pub read_len-prefix :
    (src rest : List ℕ)
    → length src < 2 ^ 64
    → read_len (varint_bytes 10 (length src) ++ (src ++ rest)) ≡ some (src, rest)
unfolding read_len
read_len-prefix src rest h =
    rw (pb_read_varint-varint_bytes (length src) (src ++ rest) h) (take_bytes-prefix src rest)

pub length-le_bytes : (n v : ℕ) → length (le_bytes n v) ≡ n
unfolding le_bytes
length-le_bytes zero v = refl
length-le_bytes (suc n) v = omega (arith, length-le_bytes n (v / 256))

of_le-le_bytes : (n v : ℕ) → v < 256 ^ n → of_le (le_bytes n v) ≡ v
unfolding le_bytes of_le
of_le-le_bytes zero v h = omega arith
of_le-le_bytes (suc n) v h = omega (arith, of_le-le_bytes n (v / 256) (omega arith))

module _ {D : Type 0} (d : Numbers D) where
  round-tag :
      (dm : Decoded) (field wt : ℕ) (more : List ℕ)
      → field < 16
      → wt < 8
      → decode_round d dm (tag field wt ++ more) ≡ decode_field d dm field wt more
  unfolding decode_round
  round-tag dm field wt more hf hw =
      let key = field * 8 + wt in
      let number : key / 8 % 2 ^ 32 ≡ field = omega arith in
      let kind : key % 8 ≡ wt = omega arith in
      rw (pb_read_varint-varint_bytes key more (omega arith), number, kind) refl

  pub round-varint :
      (dm : Decoded) (field v : ℕ) (rest : List ℕ)
      → field < 16
      → is_varint_field field ≡ true
      → v < 2 ^ 64
      → decode_round d dm (varint_field field v ++ rest) ≡ some (put_varint field v dm, rest)
  unfolding decode_field
  round-varint dm field v rest hf is hv =
      rw
        (
          append_assoc (tag field 0) (varint_bytes 10 v) rest,
          round-tag dm field 0 (varint_bytes 10 v ++ rest) hf (omega arith),
          is,
          pb_read_varint-varint_bytes v rest hv,
        )
        refl

  pub round-text :
      (dm : Decoded) (field : ℕ) (src rest : List ℕ)
      → (field == 1 || field == 15) ≡ true
      → length src < 2 ^ 64
      → decode_round d dm (len_field field src ++ rest) ≡ some (put_text field src dm, rest)
  unfolding decode_field
  round-text dm field src rest is h =
      let more = varint_bytes 10 (length src) ++ (src ++ rest) in
      let split : len_field field src ++ rest ≡ tag field 2 ++ more =
        append_assoc (tag field 2) (varint_bytes 10 (length src) ++ src) rest
        ∙ ap (λ xs. tag field 2 ++ xs) (append_assoc (varint_bytes 10 (length src)) src rest) in
      let other : is_varint_field field ≡ false = ground arith in
      rw
        (
          split,
          round-tag dm field 2 more (ground arith) (omega arith),
          other,
          is,
          read_len-prefix src rest h,
        )
        refl

  pub round-float :
      (dm : Decoded) (v : ℕ) (rest : List ℕ)
      → v < 2 ^ 32
      → decode_round d dm (fixed32_field 12 v ++ rest)
        ≡ some (show_value (snprintf 512 (d.print_float v)) dm, rest)
  unfolding decode_field le_bytes
  round-float dm v rest h =
      rw
        (
          append_assoc (tag 12 5) (le_bytes 4 v) rest,
          round-tag dm 12 5 (le_bytes 4 v ++ rest) (omega arith) (omega arith),
          take_bytes-prefix (le_bytes 4 v) rest,
          of_le-le_bytes 4 v (omega arith),
        )
        refl

  pub round-double :
      (dm : Decoded) (v : ℕ) (rest : List ℕ)
      → v < 2 ^ 64
      → decode_round d dm (fixed64_field 13 v ++ rest)
        ≡ some (show_value (snprintf 512 (d.print_double v)) dm, rest)
  unfolding decode_field le_bytes
  round-double dm v rest h =
      rw
        (
          append_assoc (tag 13 1) (le_bytes 8 v) rest,
          round-tag dm 13 1 (le_bytes 8 v ++ rest) (omega arith) (omega arith),
          take_bytes-prefix (le_bytes 8 v) rest,
          of_le-le_bytes 8 v (omega arith),
        )
        refl

  -- A field of another number that holds a varint is passed over.
  pub round-other :
      (dm : Decoded) (field v : ℕ) (rest : List ℕ)
      → (field == 3 || field == 5) ≡ true
      → v < 2 ^ 64
      → decode_round d dm (varint_field field v ++ rest) ≡ some (dm, rest)
  unfolding decode_field pb_skip
  round-other dm field v rest is h =
      let plain : is_varint_field field ≡ false = ground arith in
      let no_text : (field == 1 || field == 15) ≡ false = ground arith in
      let no_float : (field == 12) ≡ false = ground arith in
      let no_double : (field == 13) ≡ false = ground arith in
      rw
        (
          append_assoc (tag field 0) (varint_bytes 10 v) rest,
          round-tag dm field 0 (varint_bytes 10 v ++ rest) (ground arith) (omega arith),
          plain,
          no_text,
          no_float,
          no_double,
          pb_read_varint-varint_bytes v rest h,
        )
        refl

-- A boolean is a varint of one byte.
pub bool_field-varint_field :
    (field : ℕ) (v : Bool) → bool_field field v ≡ varint_field field (if v then 1 else 0)
unfolding varint_bytes
bool_field-varint_field field true = refl
bool_field-varint_field field false = refl
