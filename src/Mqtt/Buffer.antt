-- ===== src/Mqtt/Buffer.antt =====
-- app/engine/mqtt_client.c: the buffer that a packet is built in. A failure to get memory sticks: the
-- writers that follow change nothing.
use event_engine_acap.Prelude.{
  ℕ, ◌+◌, ◌-◌, ◌/◌, ◌%◌, ◌≤◌, ◌<◌, ◌≡◌, refl, Bool, true, false, ◌||◌, ltb, ◌==◌, if◌then◌else◌,
  List, [], ◌∷◌, ◌++◌, Str, length, take, length-append, arith,
}

-- `MQTT_MAX_PACKET`
abbrev pub mqtt_max_packet : ℕ
mqtt_max_packet = 1048576

-- `Buf`; `len` is the length of `bytes`, which stand for `data`.
pub record Buf : Type 0 where
  pub bytes : List ℕ
  pub cap : ℕ
  pub failed : Bool

-- The bytes of a 16-bit number, the high one first.
abbrev pub u16_bytes : ℕ → List ℕ
u16_bytes v = v / 256 % 256 ∷ v % 256 ∷ []

-- `alloc n` is whether libc's `malloc` or `realloc` of `n` bytes succeeds.
module _ (alloc : ℕ → Bool) where
  unfoldable pub buf_init : Buf
  buf_init =
      if alloc 64
      then record { bytes = []; cap = 64; failed = false }
      else record { bytes = []; cap = 0; failed = true }

  unfoldable pub buf_append : List ℕ → Buf → Buf
  buf_append src b =
      let need = length b.bytes + length src in
      if b.failed
      then b
      else if ltb mqtt_max_packet (length src)
          || ltb (mqtt_max_packet - length src) (length b.bytes)
      then record b { failed = true }
      else if ltb b.cap need
      then (if alloc (need + 64)
          then record b { bytes = b.bytes ++ src; cap = need + 64 }
          else record b { failed = true })
      else record b { bytes = b.bytes ++ src }

  unfoldable pub buf_append_u8 : ℕ → Buf → Buf
  buf_append_u8 v b = buf_append (v ∷ []) b

  unfoldable pub buf_append_u16 : ℕ → Buf → Buf
  buf_append_u16 v b = buf_append (u16_bytes v) b

  -- The length is cut to 16 bits, and as many bytes are written.
  unfoldable pub buf_append_bytes : List ℕ → Buf → Buf
  buf_append_bytes src b =
      let counted = buf_append_u16 (length src % 65536) b in
      if length src == 0 then counted else buf_append src counted

  unfoldable pub buf_append_str : Str → Buf → Buf
  buf_append_str s b =
      let len = length s % 65536 in
      let counted = buf_append_u16 len b in
      if len == 0 then counted else buf_append (take len s) counted

  -- Unless it failed, the buffer holds these bytes, and they are within the limit.
  abbrev pub Holds : List ℕ → Buf → Type 0
  Holds xs b = b.failed ≡ false → (b.bytes ≡ xs) × (length xs ≤ mqtt_max_packet)

  pub Holds-init : Holds [] buf_init
  unfolding buf_init
  Holds-init = ground arith

  pub Holds-append : (xs src : List ℕ) (b : Buf) → Holds xs b → Holds (xs ++ src) (buf_append src b)
  unfolding buf_append
  Holds-append xs src b h e = ground (arith, length-append xs src)

  -- The bytes fit the memory that is there.
  pub append_fits :
      (src : List ℕ) (b : Buf)
      → b.failed ≡ false
      → length b.bytes + length src ≤ b.cap
      → b.cap ≤ mqtt_max_packet
      → buf_append src b ≡ record b { bytes = b.bytes ++ src }
  unfolding buf_append
  append_fits src b sound room small = ground arith

  -- The bytes need memory that is not there.
  pub append_fails :
      (src : List ℕ) (b : Buf)
      → b.cap < length b.bytes + length src
      → alloc (length b.bytes + length src + 64) ≡ false
      → buf_append src b ≡ record b { failed = true }
  unfolding buf_append
  append_fails src b short out = ground arith

  pub append_failed : (src : List ℕ) (b : Buf) → b.failed ≡ true → buf_append src b ≡ b
  unfolding buf_append
  append_failed src b h = rw h refl

  -- The memory holds out, and the bytes are within the limit.
  abbrev pub Full : List ℕ → Buf → Type 0
  Full xs b = (b.failed ≡ false) × (b.bytes ≡ xs)

  module _ (plenty : (n : ℕ) → alloc n ≡ true) where
    pub Full-init : Full [] buf_init
    unfolding buf_init
    Full-init = ground (arith, plenty 64)

    pub Full-append :
        (xs src : List ℕ) (b : Buf)
        → length (xs ++ src) ≤ mqtt_max_packet
        → Full xs b
        → Full (xs ++ src) (buf_append src b)
    unfolding buf_append
    Full-append xs src b small f =
        ground (arith, length-append xs src, plenty (length b.bytes + length src + 64))
