-- ===== src/Sparkplug/Wire.antt =====
-- app/engine/sparkplug_pb.c: the protobuf readers. A reader takes the bytes from its position on, and
-- returns what it read with the bytes that are left; `none` stands for the result 0.
use event_engine_acap.Prelude.{
  ℕ, zero, suc, ◌+◌, ◌*◌, ◌%◌, ◌^◌, ltb, leb, ◌==◌, if◌then◌else◌, Option, none, some, List, [],
  ◌∷◌, length, take, drop,
}
use event_engine_acap.Sparkplug.Buffer.{wt_varint, wt_64bit, wt_len, wt_32bit}

-- The loop of `pb_read_varint` for `n` more bytes; `w` is `1 << shift` and `v` the value so far. The
-- bits that a byte brings are all above those of `v`, so `|=` is a sum; what is shifted out of
-- 64 bits is lost.
unfoldable pub read_varint_from : ℕ → ℕ → ℕ → List ℕ → Option (ℕ × List ℕ)
read_varint_from zero w v bs = none
read_varint_from (suc n) w v [] = none
read_varint_from (suc n) w v (b ∷ bs) =
    let v' = v + b % 128 * w % 2 ^ 64 in
    let more = read_varint_from n (w * 128) v' bs in if ltb b 128 then some (v', bs) else more

-- `shift` is 0, 7, …, 63.
unfoldable pub pb_read_varint : List ℕ → Option (ℕ × List ℕ)
pb_read_varint bs = read_varint_from 10 1 0 bs

-- The next `n` bytes, if there are as many.
abbrev pub take_bytes : ℕ → List ℕ → Option (List ℕ × List ℕ)
take_bytes n bs = if leb n (length bs) then some (take n bs, drop n bs) else none

abbrev pub take_counted : Option (ℕ × List ℕ) → Option (List ℕ × List ℕ)
take_counted none = none
take_counted (some (v, bs)) = take_bytes v bs

-- A length and as many bytes.
unfoldable pub read_len : List ℕ → Option (List ℕ × List ℕ)
read_len bs = take_counted (pb_read_varint bs)

abbrev pub rest_of : {A : Type 0} → Option (A × List ℕ) → Option (List ℕ)
rest_of none = none
rest_of (some (a, bs)) = some bs

unfoldable pub pb_skip : ℕ → List ℕ → Option (List ℕ)
pb_skip wire_type bs =
    if wire_type == wt_varint
    then rest_of (pb_read_varint bs)
    else if wire_type == wt_64bit
    then rest_of (take_bytes 8 bs)
    else if wire_type == wt_32bit
    then rest_of (take_bytes 4 bs)
    else if wire_type == wt_len
    then rest_of (read_len bs)
    else none
