-- ===== src/Mqtt/Layout.antt =====
-- app/engine/mqtt_client.c: the bytes of the packets, and that the builders write them.
use event_engine_acap.Prelude.{
  ℕ, zero, suc, ◌+◌, ◌*◌, ◌/◌, ◌%◌, ◌≤◌, ◌≡◌, refl, sym, ap, subst, Bool, true, false, ltb, ◌==◌,
  if◌then◌else◌, Option, none, some, List, [], ◌∷◌, ◌++◌, Str, length, take, length-append, arith,
}
use mathlib.Core.List.{append-nil, append_assoc}
use event_engine_acap.Mqtt.Buffer.{
  Buf, mqtt_max_packet, u16_bytes, buf_init, buf_append, buf_append_u8, buf_append_u16,
  buf_append_str, Holds, Holds-init, Holds-append, Full, Full-init, Full-append,
}
use event_engine_acap.Mqtt.Length.{encode_remaining_length, length_bytes}
use event_engine_acap.Mqtt.Packets.{mqtt_pkt_publish, put_pid, put_payload, publish_packet}

-- A header, the length of the body, and the body.
unfoldable pub packet_bytes : ℕ → List ℕ → List ℕ
packet_bytes header body = header ∷ encode_remaining_length (length body) ++ body

-- A string with its length in front.
unfoldable pub str_bytes : Str → List ℕ
str_bytes s = u16_bytes (length s % 65536) ++ take (length s % 65536) s

unfoldable pub publish_header : Bool → ℕ → ℕ
publish_header retain qos = mqtt_pkt_publish + qos % 4 * 2 + (if retain then 1 else 0)

unfoldable pub publish_body : Str → List ℕ → ℕ → ℕ → List ℕ
publish_body topic payload qos pid =
    u16_bytes (length topic % 65536)
    ++ (topic ++ ((if ltb 0 qos then u16_bytes pid else []) ++ payload))

length-publish_body :
    (topic payload : List ℕ) (qos pid : ℕ)
    → length (publish_body topic payload qos pid)
      ≡ 2 + length topic + (if ltb 0 qos then 2 else 0) + length payload
unfolding publish_body
length-publish_body topic payload qos pid =
    ground (arith, length-append topic ((if ltb 0 qos then u16_bytes pid else []) ++ payload))

pub length-length_bytes : (n v : ℕ) → length (length_bytes n v) ≤ n
unfolding length_bytes
length-length_bytes zero v = omega arith
length-length_bytes (suc n) v = ground (arith, length-length_bytes n (v / 128))

pub length-encode : (v : ℕ) → length (encode_remaining_length v) ≤ 4
unfolding encode_remaining_length
length-encode v = length-length_bytes 4 v

module _ (alloc : ℕ → Bool) where
  -- A writer appends these bytes, unless memory or room runs out.
  pub record Appends (w : Buf → Buf) (src : List ℕ) : Type 0 where
    pub holds : (xs : List ℕ) (b : Buf) → Holds alloc xs b → Holds alloc (xs ++ src) (w b)
    pub full :
        ((n : ℕ) → alloc n ≡ true)
        → (xs : List ℕ) (b : Buf) → length (xs ++ src) ≤ mqtt_max_packet
        → Full alloc xs b
        → Full alloc (xs ++ src) (w b)

  pub Appends-append : (src : List ℕ) → Appends (buf_append alloc src) src
  Appends-append src = record {
    holds = λ xs b h. Holds-append alloc xs src b h;
    full = λ plenty xs b small f. Full-append alloc plenty xs src b small f;
  }

  pub Appends-nothing : Appends (λ b. b) []
  Appends-nothing = record {
    holds = λ xs b h. subst (λ ys. Holds alloc ys b) (sym (append-nil xs)) h;
    full = λ plenty xs b small f. subst (λ ys. Full alloc ys b) (sym (append-nil xs)) f;
  }

  pub Appends-then :
      (w w' : Buf → Buf) (src src' : List ℕ)
      → Appends w src
      → Appends w' src'
      → Appends (λ b. w' (w b)) (src ++ src')
  Appends-then w w' src src' first second = record {
    holds = λ xs b h.
        subst (λ ys. Holds alloc ys (w' (w b))) (append_assoc xs src src')
          (second.holds (xs ++ src) (w b) (first.holds xs b h));
    full = λ plenty xs b small f.
        let both = append_assoc xs src src' in
        subst (λ ys. Full alloc ys (w' (w b))) both
          (second.full plenty (xs ++ src) (w b)
            (subst (λ ys. length ys ≤ mqtt_max_packet) (sym both) small)
            (first.full plenty xs b (omega (arith, length-append (xs ++ src) src', ap length both))
              f));
  }

  pub Appends-u8 : (v : ℕ) → Appends (buf_append_u8 alloc v) (v ∷ [])
  unfolding buf_append_u8
  Appends-u8 v = Appends-append (v ∷ [])

  pub Appends-u16 : (v : ℕ) → Appends (buf_append_u16 alloc v) (u16_bytes v)
  unfolding buf_append_u16
  Appends-u16 v = Appends-append (u16_bytes v)

  -- A test picks the writer.
  pub Appends-either :
      (t : Bool) (w w' : Buf → Buf) (src : List ℕ)
      → (t ≡ true → Appends w src)
      → (t ≡ false → Appends w' src)
      → Appends (λ b. if t then w b else w' b) src
  Appends-either true w w' src yes' no' = yes' refl
  Appends-either false w w' src yes' no' = no' refl

  pub Appends-str : (s : Str) → Appends (buf_append_str alloc s) (str_bytes s)
  unfolding buf_append_str str_bytes
  Appends-str s =
      let len = length s % 65536 in
      let more = Appends-then _ _ _ _ (Appends-u16 len) (Appends-append (take len s)) in
      Appends-either (len == 0) (buf_append_u16 alloc len) _ _
        (λ e.
          let none' : len ≡ 0 = ground arith in
          subst (λ n. Appends (buf_append_u16 alloc n) (u16_bytes n ++ take n s)) (sym none')
            (Appends-u16 0))
        (λ e. more)

  Appends-pid :
      (qos pid : ℕ) → Appends (put_pid alloc qos pid) (if ltb 0 qos then u16_bytes pid else [])
  unfolding put_pid
  Appends-pid qos pid =
      Appends-either (ltb 0 qos) (buf_append_u16 alloc pid) (λ b. b) _ (λ e. rw e (Appends-u16 pid))
        (λ e. rw e Appends-nothing)

  Appends-payload : (payload : List ℕ) → Appends (put_payload alloc payload) payload
  unfolding put_payload
  Appends-payload [] = Appends-nothing
  Appends-payload (x ∷ payload) = Appends-append (x ∷ payload)

  -- What a builder that ends with the test of `failed` returns.
  abbrev pub Built : List ℕ → Option (List ℕ) → Type 0
  Built bs o =
      ((pkt : List ℕ) → o ≡ some pkt → (pkt ≡ bs) × (length bs ≤ mqtt_max_packet))
      × (((n : ℕ) → alloc n ≡ true) → length bs ≤ mqtt_max_packet → o ≡ some bs)

  abbrev pub finish : Buf → Option (List ℕ)
  finish b = if b.failed then none else some b.bytes

  pub Built-finish :
      (w : Buf → Buf) (bs : List ℕ) → Appends w bs → Built bs (finish (w (buf_init alloc)))
  Built-finish w bs a = (
    λ pkt e. ground (arith, a.holds [] (buf_init alloc) (Holds-init alloc)),
    λ plenty small.
        ground (arith, a.full plenty [] (buf_init alloc) small (Full-init alloc plenty)),
  )

  -- A PUBLISH that is built has exactly the bytes of the packet, and is within the limit; with memory
  -- for it, every PUBLISH within the limit is built.
  pub publish_packet-packet_bytes :
      (topic payload : List ℕ) (retain : Bool) (qos pid : ℕ)
      → Built
          (packet_bytes (publish_header retain qos) (publish_body topic payload qos pid))
          (publish_packet alloc topic payload retain qos pid)
  unfolding publish_packet packet_bytes publish_body publish_header
  publish_packet-packet_bytes topic payload retain qos pid =
      rw (length-publish_body topic payload qos pid) (
        Built-finish _ _ (
          Appends-then _ _ _ _ (Appends-u8 _) (
            Appends-then _ _ _ _ (Appends-append _) (
              Appends-then _ _ _ _ (Appends-u16 _) (
                Appends-then _ _ _ _ (Appends-append topic)
                  (Appends-then _ _ _ _ (Appends-pid qos pid) (Appends-payload payload)))))))
