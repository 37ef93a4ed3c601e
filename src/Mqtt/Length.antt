-- ===== src/Mqtt/Length.antt =====
-- app/engine/mqtt_client.c: the remaining length of a packet, in one to four bytes of seven bits.
use event_engine_acap.Prelude.{
  ℕ, zero, suc, ◌+◌, ◌*◌, ◌/◌, ◌%◌, ◌^◌, ◌<◌, ◌-◌, ◌≡◌, refl, sym, ◌∙◌, ap, ltb, if◌then◌else◌,
  Bool-cases, inl, inr, Option, none, some, List, [], ◌∷◌, ◌++◌, drop, arith,
}
use native.Mathlib.Nat.{div-add-mod}

-- The loop of `encode_remaining_length`, for `n` more bytes.
unfoldable pub length_bytes : ℕ → ℕ → List ℕ
length_bytes zero v = []
length_bytes (suc n) v =
    let rest = length_bytes n (v / 128) in
    if ltb 0 (v / 128) then (v % 128 + 128) ∷ rest else v % 128 ∷ []

unfoldable pub encode_remaining_length : ℕ → List ℕ
encode_remaining_length v = length_bytes 4 v

-- The loop of `decode_remaining_length`, for `n` more bytes; `w` is the multiplier and `v` the value so
-- far. The result is the value with the number of bytes read, `idx`, and `none` for -1.
unfoldable pub decode_from : ℕ → ℕ → ℕ → ℕ → List ℕ → Option (ℕ × ℕ)
decode_from zero w v idx bs = none
decode_from (suc n) w v idx [] = none
decode_from (suc n) w v idx (b ∷ bs) =
    let v' = v + b % 128 * w in
    let more = decode_from n (w * 128) v' (idx + 1) bs in
    if ltb b 128 then some (v', idx + 1) else more

unfoldable pub decode_remaining_length : List ℕ → Option (ℕ × ℕ)
decode_remaining_length bs = decode_from 4 1 0 0 bs

-- The loop of the worker that reads a remaining length byte by byte, for `n` more bytes; `w` is
-- `1 << (7 * i)`. The result is the value and the stream behind it, and `none` where it gives the
-- connection up.
unfoldable pub read_length_from : ℕ → ℕ → ℕ → List ℕ → Option (ℕ × List ℕ)
read_length_from zero w v bs = none
read_length_from (suc n) w v [] = none
read_length_from (suc n) w v (b ∷ bs) =
    let v' = v + b % 128 * w in
    let more = read_length_from n (w * 128) v' bs in if ltb b 128 then some (v', bs) else more

unfoldable pub read_length : List ℕ → Option (ℕ × List ℕ)
read_length bs = read_length_from 4 1 0 bs

-- The low group of `v` and what is above it, both at the weight `w`.
group : (v w : ℕ) → v * w ≡ v % 128 * w + v / 128 * (w * 128)
group v w = omega (arith, ap (λ (t : ℕ). t * w) (div-add-mod v 128))

-- A byte that ends a length, and one that does not.
last_group :
    (n g w acc : ℕ) (rest : List ℕ)
    → g < 128
    → read_length_from (suc n) w acc (g ∷ rest) ≡ some (acc + g * w, rest)
unfolding read_length_from
last_group n g w acc rest small = ground arith

next_group :
    (n g w acc : ℕ) (rest : List ℕ)
    → g < 128
    → read_length_from (suc n) w acc ((g + 128) ∷ rest)
      ≡ read_length_from n (w * 128) (acc + g * w) rest
unfolding read_length_from
next_group n g w acc rest small = ground arith

below_power : (n v : ℕ) → v < 128 ^ suc n → v / 128 < 128 ^ n
below_power n v h = omega arith

read_length_from-length_bytes :
    (n v w acc : ℕ) (rest : List ℕ)
    → v < 128 ^ suc n
    → read_length_from (suc n) w acc (length_bytes (suc n) v ++ rest) ≡ some (acc + v * w, rest)
unfolding length_bytes
read_length_from-length_bytes zero v w acc rest small = ground (arith, last_group 0 v w acc rest)
read_length_from-length_bytes (suc n) v w acc rest small = ground (
  arith,
  last_group (suc n) v w acc rest,
  group v w,
  next_group (suc n) (v % 128) w acc (length_bytes (suc n) (v / 128) ++ rest),
  read_length_from-length_bytes n (v / 128) (w * 128) (acc + v % 128 * w) rest
      (below_power (suc n) v small),
)

-- A length below 128^4 is read back, and the stream stands right behind it.
pub read_length-encode :
    (v : ℕ) (rest : List ℕ)
    → v < 128 ^ 4
    → read_length (encode_remaining_length v ++ rest) ≡ some (v, rest)
unfolding read_length encode_remaining_length
read_length-encode v rest small =
    ground (arith, read_length_from-length_bytes 3 v 1 0 rest (omega arith))

-- The stream behind the bytes from `idx` on that were read.
abbrev skip_read : ℕ → List ℕ → Option (ℕ × ℕ) → Option (ℕ × List ℕ)
skip_read idx bs none = none
skip_read idx bs (some (v, k)) = some (v, drop (k - idx) bs)

decode_from-lt :
    (n w acc idx : ℕ) (bs : List ℕ) (v k : ℕ) → decode_from n w acc idx bs ≡ some (v, k) → idx < k
unfolding decode_from
decode_from-lt zero w acc idx bs v k e = cc
decode_from-lt (suc n) w acc idx [] v k e = cc
decode_from-lt (suc n) w acc idx (b ∷ bs) v k e =
    ground (arith, decode_from-lt n (w * 128) (acc + b % 128 * w) (idx + 1) bs v k)

skip_read-cons :
    (idx b : ℕ) (bs : List ℕ) (o : Option (ℕ × ℕ))
    → ((v k : ℕ) → o ≡ some (v, k) → idx + 1 < k)
    → skip_read idx (b ∷ bs) o ≡ skip_read (idx + 1) bs o
skip_read-cons idx b bs none later = refl
skip_read-cons idx b bs (some (v, k)) later =
    let past = later v k refl in let e : k - idx ≡ suc (k - (idx + 1)) = omega arith in rw e refl

read_length_from-decode_from :
    (n w acc idx : ℕ) (bs : List ℕ)
    → read_length_from n w acc bs ≡ skip_read idx bs (decode_from n w acc idx bs)
unfolding read_length_from decode_from
read_length_from-decode_from zero w acc idx bs = refl
read_length_from-decode_from (suc n) w acc idx [] = refl
read_length_from-decode_from (suc n) w acc idx (b ∷ bs) =
    let acc' = acc + b % 128 * w in
    let more = decode_from n (w * 128) acc' (idx + 1) bs in
    elim (Bool-cases (ltb b 128)) [
      | inl low ↦ let one : idx + 1 - idx ≡ 1 = omega arith in rw (low, one) refl
      | inr high ↦ rw high (
          read_length_from-decode_from n (w * 128) acc' (idx + 1) bs
          ∙ sym (skip_read-cons idx b bs more (decode_from-lt n (w * 128) acc' (idx + 1) bs)))
    ]

-- The worker's loop and `decode_remaining_length` read the same length from the same bytes.
pub read_length-decode :
    (bs : List ℕ) → read_length bs ≡ skip_read 0 bs (decode_remaining_length bs)
unfolding read_length decode_remaining_length
read_length-decode bs = read_length_from-decode_from 4 1 0 0 bs
