-- ===== src/Mqtt/Delivery.antt =====
-- app/engine/mqtt_client.c: what a client receives of the messages that another one publishes.
use event_engine_acap.Prelude.{
  ℕ, zero, suc, ◌+◌, ◌*◌, ◌-◌, ◌/◌, ◌%◌, ◌^◌, ◌≤◌, ◌<◌, ◌≡◌, refl, sym, ap, ◌∙◌, Bool, true, false,
  ltb, ◌==◌, if◌then◌else◌, Bool-cases, inl, inr, some, List, [], ◌∷◌, ◌++◌, Str, length, take,
  drop, length-append, length-drop, arith,
}
use mathlib.Core.List.{append_assoc}
use event_engine_acap.Mqtt.Buffer.{mqtt_max_packet, u16_bytes}
use event_engine_acap.Mqtt.Length.{encode_remaining_length, read_length, read_length-encode}
use event_engine_acap.Mqtt.Packets.{publish_packet, puback_packet}
use event_engine_acap.Mqtt.Layout.{
  packet_bytes, publish_header, publish_body, publish_packet-packet_bytes,
}
use event_engine_acap.Mqtt.Receive.{
  mqtt_buf_size, recv_exact, drain, oversized, packet, read_body, read_packet, Act, send_all,
  dispatch, u16_at, deliver, acknowledge, handle_publish, handle_packet, receive,
}

take-append : (xs ys : List ℕ) → take (length xs) (xs ++ ys) ≡ xs
take-append [] ys = refl
take-append (x ∷ xs) ys = ap (◌∷◌ x) (take-append xs ys)

drop-append : (xs ys : List ℕ) → drop (length xs) (xs ++ ys) ≡ ys
drop-append [] ys = refl
drop-append (x ∷ xs) ys = drop-append xs ys

drop-nil : (n : ℕ) → drop n (let e : List ℕ = [] in e) ≡ []
drop-nil zero = refl
drop-nil (suc n) = refl

drop-drop : (m n : ℕ) (xs : List ℕ) → drop n (drop m xs) ≡ drop (m + n) xs
drop-drop zero n xs = ap (λ k. drop k xs) (omega arith)
drop-drop (suc m) n [] = drop-nil n ∙ sym (drop-nil (suc m + n))
drop-drop (suc m) n (x ∷ xs) =
    let e : suc m + n ≡ suc (m + n) = omega arith in rw e (drop-drop m n xs)

recv_exact-append : (xs ys : List ℕ) → recv_exact (length xs) (xs ++ ys) ≡ some (xs, ys)
unfolding recv_exact
recv_exact-append xs ys = ground (arith, length-append xs ys, take-append xs ys, drop-append xs ys)

drain-zero : (rounds : ℕ) (s : List ℕ) → drain rounds 0 s ≡ some s
unfolding drain
drain-zero zero s = refl
drain-zero (suc rounds) s = refl

recv_exact-some : (n : ℕ) (s : List ℕ) → n ≤ length s → recv_exact n s ≡ some (take n s, drop n s)
unfolding recv_exact
recv_exact-some n s h = ground arith

abbrev chunk_of : ℕ → ℕ
chunk_of left = if ltb left mqtt_buf_size then left else mqtt_buf_size

drain_step :
    (rounds left : ℕ) (s : List ℕ)
    → 0 < left
    → chunk_of left ≤ length s
    → drain (suc rounds) left s ≡ drain rounds (left - chunk_of left) (drop (chunk_of left) s)
unfolding drain
drain_step rounds left s some' room =
    let more : ltb 0 left ≡ true = ground arith in
    rw (more, recv_exact-some (chunk_of left) s room) refl

-- As many rounds as there are bytes are enough to read them away.
drain_enough :
    (rounds left : ℕ) (s : List ℕ)
    → left ≤ rounds
    → left ≤ length s
    → drain rounds left s ≡ some (drop left s)
drain_enough zero zero s h k = drain-zero 0 s
drain_enough zero (suc left) s h k = absurd (omega arith)
drain_enough (suc rounds) zero s h k = drain-zero (suc rounds) s
drain_enough (suc rounds) (suc left) s h k =
    let chunk = chunk_of (suc left) in
    let part : chunk ≤ suc left = ground arith in
    let progress : 0 < chunk = ground arith in
    let whole : chunk + (suc left - chunk) ≡ suc left = omega arith in
    drain_step rounds (suc left) s (omega arith) (omega arith)
    ∙ drain_enough rounds (suc left - chunk) (drop chunk s) (omega arith)
        (omega (arith, length-drop chunk s))
    ∙ ap some (drop-drop chunk (suc left - chunk) s ∙ ap (λ n. drop n s) whole)

read_packet-some :
    (header n : ℕ) (s rest : List ℕ)
    → read_length s ≡ some (n, rest)
    → read_packet (header ∷ s) ≡ read_body header n rest
unfolding read_packet
read_packet-some header n s rest e = rw (e, read_packet) refl

-- A packet that stands in front of the stream is read whole, or read away if it is too large.
read_packet-packet_bytes :
    (header : ℕ) (body rest : List ℕ)
    → length body < 128 ^ 4
    → read_packet (packet_bytes header body ++ rest)
      ≡ (if ltb mqtt_buf_size (length body) then oversized rest else packet header body rest)
unfolding packet_bytes read_body
read_packet-packet_bytes header body rest small =
    let n = length body in
    let read =
      ap read_length (append_assoc (encode_remaining_length n) body rest)
      ∙ read_length-encode n (body ++ rest) small in
    read_packet-some header n _ (body ++ rest) read ∙ elim (Bool-cases (ltb mqtt_buf_size n)) [
      | inl large ↦
          let away =
            drain_enough n n (body ++ rest) (omega arith) (omega (arith, length-append body rest))
            ∙ ap some (drop-append body rest) in
          rw (large, away) refl
      | inr fits ↦ rw (fits, recv_exact-append body rest) refl
    ]

pub record Message : Type 0 where
  pub topic : Str
  pub payload : List ℕ
  pub retain : Bool
  pub qos : ℕ
  pub pid : ℕ

abbrev pub body_of : Message → List ℕ
body_of m = publish_body m.topic m.payload m.qos m.pid

-- The client knows QoS 0 and 1, and an identifier has 16 bits.
pub record IsMessage (m : Message) : Type 0 where
  pub known_qos : m.qos ≤ 1
  pub short_pid : m.pid < 65536

abbrev pub All : {A : Type 0} → (A → Type 0) → List A → Type 0
All P [] = Unit {0}
All P (x ∷ xs) = P x × All P xs

-- A message is acknowledged under QoS 1, and handed on; one that does not fit the buffer is lost.
abbrev pub received : Message → List Act
received m =
    if ltb mqtt_buf_size (length (body_of m))
    then []
    else (if m.qos == 1 then send_all (puback_packet m.pid) ∷ [] else [])
      ++ (dispatch m.topic m.payload ∷ [])

abbrev pub received_all : List Message → List Act
received_all [] = []
received_all (m ∷ ms) = received m ++ received_all ms

length-topic : (m : Message) → length m.topic ≤ length (body_of m)
unfolding publish_body
length-topic m =
    omega
      (arith, length-append m.topic ((if ltb 0 m.qos then u16_bytes m.pid else []) ++ m.payload))

module _ (alloc : ℕ → Bool) (incoming_size : ℕ) (plenty : (n : ℕ) → alloc n ≡ true) where
  deliver_lem :
      (topic payload : List ℕ)
      → deliver alloc incoming_size topic payload ≡ dispatch topic payload ∷ []
  unfolding deliver
  deliver_lem topic payload = rw (plenty (length payload + 1), plenty incoming_size) refl

  handle_publish_topic :
      (qos : ℕ) (topic tail : List ℕ)
      → length topic < 65536
      → handle_publish alloc incoming_size qos (u16_bytes (length topic % 65536) ++ (topic ++ tail))
        ≡ (if qos == 1
            then acknowledge alloc incoming_size topic tail
            else deliver alloc incoming_size topic tail)
  unfolding handle_publish
  handle_publish_topic qos topic tail short =
      let n : u16_at (length topic % 65536 / 256 % 256) (length topic % 65536 % 256)
          ≡ length topic =
        omega arith in
      let there : ltb (length (topic ++ tail)) (length topic) ≡ false =
        ground (arith, length-append topic tail) in
      rw (n, there, plenty (length topic + 1), take-append topic tail, drop-append topic tail) refl

  handle_publish_body :
      (m : Message)
      → IsMessage m
      → length m.topic < 65536
      → handle_publish alloc incoming_size m.qos (body_of m)
        ≡ (if m.qos == 1 then send_all (puback_packet m.pid) ∷ [] else [])
          ++ (dispatch m.topic m.payload ∷ [])
  unfolding publish_body acknowledge
  handle_publish_body m ok short =
      handle_publish_topic m.qos m.topic _ short ∙ elim (Bool-cases (m.qos == 1)) [
        | inl one ↦
            let acked : ltb 0 m.qos ≡ true = ground arith in
            let pid : u16_at (m.pid / 256 % 256) (m.pid % 256) ≡ m.pid =
              omega (arith, ok.short_pid) in
            rw (one, acked, pid, deliver_lem m.topic m.payload) refl
        | inr zero' ↦
            let plain : ltb 0 m.qos ≡ false = ground (arith, ok.known_qos) in
            rw (zero', plain) (deliver_lem m.topic m.payload)
      ]

  handle_packet_header :
      (retain : Bool) (qos : ℕ) (body : List ℕ)
      → qos ≤ 1
      → handle_packet alloc incoming_size (publish_header retain qos) body
        ≡ handle_publish alloc incoming_size qos body
  unfolding handle_packet publish_header
  handle_packet_header retain qos body h =
      let low : (if retain then 1 else 0) ≤ 1 = ground arith in
      let kind : (48 + qos % 4 * 2 + (if retain then 1 else 0)) / 16 * 16 ≡ 48 = omega arith in
      let level : (48 + qos % 4 * 2 + (if retain then 1 else 0)) / 2 % 4 ≡ qos = omega arith in
      rw (kind, level) refl

  receive_message :
      (rounds : ℕ) (m : Message) (rest : List ℕ)
      → IsMessage m
      → length (body_of m) < 128 ^ 4
      → receive alloc incoming_size
          (suc rounds)
          (packet_bytes (publish_header m.retain m.qos) (body_of m) ++ rest)
        ≡ received m ++ receive alloc incoming_size rounds rest
  unfolding receive
  receive_message rounds m rest ok small =
      let read = read_packet-packet_bytes (publish_header m.retain m.qos) (body_of m) rest small in
      elim (Bool-cases (ltb mqtt_buf_size (length (body_of m)))) [
        | inl large ↦ rw (read, receive, large) refl
        | inr fits ↦
            let short : length m.topic < 65536 = ground (arith, length-topic m) in
            rw (read, receive, fits)
              (ap (λ acts. acts ++ receive alloc incoming_size rounds rest)
                (handle_packet_header m.retain m.qos (body_of m) ok.known_qos
                  ∙ handle_publish_body m ok short))
      ]

small_body :
    (header : ℕ) (body : List ℕ)
    → length (packet_bytes header body) ≤ mqtt_max_packet
    → length body < 128 ^ 4
unfolding packet_bytes
small_body header body h = omega (arith, length-append (encode_remaining_length (length body)) body)

module _ (alloc : ℕ → Bool) where
  -- The bytes of messages that were all built, one after the other.
  pub data Sent : List Message → List ℕ → Type 0 where
    none_sent : Sent [] []
    one_more :
        (m : Message) (ms : List Message) (pkt bs : List ℕ)
        → publish_packet alloc m.topic m.payload m.retain m.qos m.pid ≡ some pkt
        → Sent ms bs
        → Sent (m ∷ ms) (pkt ++ bs)

  -- Whatever messages a client publishes one after the other, with the packets that
  -- `MQTT_Publish_Binary` builds for them, a client that receives the bytes and has memory
  -- acknowledges each message of QoS 1 by its identifier and hands each on with its topic and payload,
  -- in their order, but for those whose body is above 4096 bytes, which it skips; then it goes on
  -- with the bytes that follow.
  pub receive-publish :
      (alloc' : ℕ → Bool) (incoming_size : ℕ)
      → ((n : ℕ) → alloc' n ≡ true)
      → {ms : List Message} {bs : List ℕ} (rest : List ℕ) (rounds : ℕ) → All IsMessage ms
      → Sent ms bs
      → receive alloc' incoming_size (length ms + rounds) (bs ++ rest)
        ≡ received_all ms ++ receive alloc' incoming_size rounds rest
  receive-publish alloc' incoming_size plenty rest rounds ok none_sent =
      ap (λ n. receive alloc' incoming_size n rest) (omega arith)
  receive-publish alloc' incoming_size plenty rest rounds ok (one_more m ms pkt bs built sent) =
      let (same, fits) =
        (publish_packet-packet_bytes alloc m.topic m.payload m.retain m.qos m.pid).0 pkt built in
      let first =
        receive_message alloc' incoming_size plenty (length ms + rounds) m (bs ++ rest) ok.0
          (small_body (publish_header m.retain m.qos) (body_of m) fits) in
      let later = receive-publish alloc' incoming_size plenty rest rounds ok.1 sent in
      let count : suc (length ms) + rounds ≡ suc (length ms + rounds) = omega arith in
      rw
        (
          count,
          same,
          append_assoc (packet_bytes (publish_header m.retain m.qos) (body_of m)) bs rest,
        )
        (first
          ∙ ap (λ acts. received m ++ acts) later
          ∙ sym (
              append_assoc (received m) (received_all ms)
                (receive alloc' incoming_size rounds rest)))
