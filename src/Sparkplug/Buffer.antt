-- ===== src/Sparkplug/Buffer.antt =====
-- app/engine/sparkplug_pb.c: the buffer that a payload is written to, and the protobuf writers. A
-- writer returns the new buffer, and `none` for the result 0, after which the callers free the buffer.
use event_engine_acap.Prelude.{
  ℕ, zero, suc, ◌+◌, ◌*◌, ◌/◌, ◌%◌, Bool, ltb, leb, ◌==◌, if◌then◌else◌, Option, none, some, List,
  [], ◌∷◌, ◌++◌, Str, length,
}

infixl 5 ◌>>=◌
abbrev pub ◌>>=◌ : {A B : Type 0} → Option A → (A → Option B) → Option B
none >>= f = none
some a >>= f = f a

-- `SPB_Buf`; `len` is the length of `bytes`, which stand for `data`.
pub record SpbBuf : Type 0 where
  pub bytes : List ℕ
  pub cap : ℕ

-- `while (cap < need) cap *= 2`, in at most as many rounds as the first argument.
unfoldable pub grow : ℕ → ℕ → ℕ → ℕ
grow zero cap need = cap
grow (suc n) cap need = let more = grow n (cap * 2) need in if ltb cap need then more else cap

-- The bytes of `pb_varint`: the loop ends after `n` bytes at the latest.
unfoldable pub varint_bytes : ℕ → ℕ → List ℕ
varint_bytes zero v = []
varint_bytes (suc n) v =
    let rest = varint_bytes n (v / 128) in
    if v / 128 == 0 then v % 128 ∷ [] else (v % 128 + 128) ∷ rest

-- The bytes of a number from the lowest on.
unfoldable pub le_bytes : ℕ → ℕ → List ℕ
le_bytes zero v = []
le_bytes (suc n) v = v % 256 ∷ le_bytes n (v / 256)

-- `WT_VARINT`, `WT_64BIT`, `WT_LEN` and `WT_32BIT`
abbrev pub wt_varint : ℕ
wt_varint = 0

abbrev pub wt_64bit : ℕ
wt_64bit = 1

abbrev pub wt_len : ℕ
wt_len = 2

abbrev pub wt_32bit : ℕ
wt_32bit = 5

abbrev pub bytes_of : Option Str → Str
bytes_of none = []
bytes_of (some s) = s

-- `realloc n` is whether libc's `realloc` of `n` bytes succeeds.
module _ (realloc : ℕ → Bool) where
  unfoldable pub buf_reserve : ℕ → SpbBuf → Option SpbBuf
  buf_reserve extra b =
      let need = length b.bytes + extra in
      let cap = grow need (if b.cap == 0 then 128 else b.cap) need in
      if leb need b.cap then some b else if realloc cap then some (record b { cap = cap }) else none

  abbrev pub put_all : List ℕ → SpbBuf → Option SpbBuf
  put_all src b = some (record b { bytes = b.bytes ++ src })

  unfoldable pub buf_put : List ℕ → SpbBuf → Option SpbBuf
  buf_put [] b = some b
  buf_put (x ∷ xs) b = buf_reserve (length (x ∷ xs)) b >>= put_all (x ∷ xs)

  unfoldable pub pb_varint : ℕ → SpbBuf → Option SpbBuf
  pb_varint v b = buf_put (varint_bytes 10 v) b

  -- `(field << 3) | wire_type`, of a wire type below 8
  unfoldable pub pb_tag : ℕ → ℕ → SpbBuf → Option SpbBuf
  pb_tag field wire_type b = pb_varint (field * 8 + wire_type) b

  unfoldable pub pb_varint_field : ℕ → ℕ → SpbBuf → Option SpbBuf
  pb_varint_field field v b = pb_tag field wt_varint b >>= pb_varint v

  unfoldable pub pb_bool_field : ℕ → Bool → SpbBuf → Option SpbBuf
  pb_bool_field field v b = pb_tag field wt_varint b >>= buf_put ((if v then 1 else 0) ∷ [])

  unfoldable pub pb_fixed32_field : ℕ → ℕ → SpbBuf → Option SpbBuf
  pb_fixed32_field field v b = pb_tag field wt_32bit b >>= buf_put (le_bytes 4 v)

  unfoldable pub pb_fixed64_field : ℕ → ℕ → SpbBuf → Option SpbBuf
  pb_fixed64_field field v b = pb_tag field wt_64bit b >>= buf_put (le_bytes 8 v)

  unfoldable pub pb_bytes_field : ℕ → List ℕ → SpbBuf → Option SpbBuf
  pb_bytes_field field src b = do
    tagged ← pb_tag field wt_len b
    counted ← pb_varint (length src) tagged
    buf_put src counted

  unfoldable pub pb_string_field : ℕ → Option Str → SpbBuf → Option SpbBuf
  pb_string_field field s b = pb_bytes_field field (bytes_of s) b
