-- ===== src/Sparkplug/Varint.antt =====
-- app/engine/sparkplug_pb.c: `pb_read_varint` on what `pb_varint` wrote.
use event_engine_acap.Prelude.{
  ℕ, zero, suc, ◌+◌, ◌*◌, ◌/◌, ◌%◌, ◌^◌, ◌≤◌, ◌<◌, ◌≡◌, refl, ap, ltb, ◌==◌, Bool-cases, inl, inr,
  some, List, [], ◌∷◌, ◌++◌, length, arith,
}
use native.Mathlib.Nat.{div-add-mod}
use event_engine_acap.Sparkplug.Buffer.{varint_bytes}
use event_engine_acap.Sparkplug.Wire.{read_varint_from, pb_read_varint}

-- The low group of `v` and what is above it, both at the weight `w`.
group : (v w : ℕ) → v * w ≡ v % 128 * w + v / 128 * (w * 128)
group v w = omega (arith, ap (λ (t : ℕ). t * w) (div-add-mod v 128))

-- A byte that ends a number, and one that does not.
last_group :
    (n g w acc : ℕ) (rest : List ℕ)
    → g < 128
    → acc + g * w < 2 ^ 64
    → read_varint_from (suc n) w acc (g ∷ rest) ≡ some (acc + g * w, rest)
unfolding read_varint_from
last_group n g w acc rest small fits = ground arith

next_group :
    (n g w acc : ℕ) (rest : List ℕ)
    → g < 128
    → acc + g * w < 2 ^ 64
    → read_varint_from (suc n) w acc ((g + 128) ∷ rest)
      ≡ read_varint_from n (w * 128) (acc + g * w) rest
unfolding read_varint_from
next_group n g w acc rest small fits = ground arith

below_power : (n v : ℕ) → v < 128 ^ suc n → v / 128 < 128 ^ n
below_power n v h = omega arith

pub read_varint_from-varint_bytes :
    (n v w acc : ℕ) (rest : List ℕ)
    → v < 128 ^ suc n
    → acc + v * w < 2 ^ 64
    → read_varint_from (suc n) w acc (varint_bytes (suc n) v ++ rest) ≡ some (acc + v * w, rest)
unfolding varint_bytes
read_varint_from-varint_bytes zero v w acc rest small fits =
    ground (arith, last_group 0 v w acc rest)
read_varint_from-varint_bytes (suc n) v w acc rest small fits = ground (
  arith,
  last_group (suc n) v w acc rest,
  group v w,
  next_group (suc n) (v % 128) w acc (varint_bytes (suc n) (v / 128) ++ rest),
  read_varint_from-varint_bytes n (v / 128) (w * 128) (acc + v % 128 * w) rest
      (below_power (suc n) v small),
)

-- `pb_read_varint` gives back a 64-bit number that `pb_varint` wrote, and stops right after it.
pub pb_read_varint-varint_bytes :
    (v : ℕ) (rest : List ℕ)
    → v < 2 ^ 64
    → pb_read_varint (varint_bytes 10 v ++ rest) ≡ some (v, rest)
unfolding pb_read_varint
pb_read_varint-varint_bytes v rest h =
    ground (arith, read_varint_from-varint_bytes 9 v 1 0 rest (omega arith) (omega arith))

-- What a reader of a number leaves is shorter.
read_varint_from-length :
    (n w acc : ℕ) (bs : List ℕ) (v : ℕ) (rest : List ℕ)
    → read_varint_from n w acc bs ≡ some (v, rest)
    → length rest < length bs
unfolding read_varint_from
read_varint_from-length zero w acc bs v rest e = cc
read_varint_from-length (suc n) w acc [] v rest e = cc
read_varint_from-length (suc n) w acc (b ∷ bs) v rest e = elim (Bool-cases (ltb b 128)) [
  | inl low ↦ ground arith
  | inr high ↦
      let shorter = read_varint_from-length n (w * 128) (acc + b % 128 * w % 2 ^ 64) bs v rest in
      ground (arith, shorter)
]

pub pb_read_varint-length :
    (bs : List ℕ) (v : ℕ) (rest : List ℕ)
    → pb_read_varint bs ≡ some (v, rest)
    → length rest < length bs
unfolding pb_read_varint
pb_read_varint-length bs v rest e = read_varint_from-length 10 1 0 bs v rest e

pub length-varint_bytes : (n v : ℕ) → length (varint_bytes n v) ≤ n
unfolding varint_bytes
length-varint_bytes zero v = omega arith
length-varint_bytes (suc n) v = ground (arith, length-varint_bytes n (v / 128))

-- A number takes at least one byte.
pub varint_bytes-cons : (n v : ℕ) → (b : ℕ) × (bs : List ℕ) × (varint_bytes (suc n) v ≡ b ∷ bs)
unfolding varint_bytes
varint_bytes-cons n v = elim (Bool-cases (v / 128 == 0)) [
  | inl last ↦ (v % 128, [], rw last refl)
  | inr more ↦ (v % 128 + 128, varint_bytes n (v / 128), rw more refl)
]
