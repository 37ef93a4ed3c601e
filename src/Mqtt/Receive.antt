-- ===== src/Mqtt/Receive.antt =====
-- app/engine/mqtt_client.c: what the worker does with the bytes that arrive. The stream is the list of
-- the bytes that arrive before a timeout of `recv_exact`.
use event_engine_acap.Prelude.{
  ℕ, zero, suc, ◌+◌, ◌*◌, ◌-◌, ◌/◌, ◌%◌, Bool, false, ◌&&◌, ltb, leb, ◌==◌, if◌then◌else◌, Option,
  none, some, List, [], ◌∷◌, ◌++◌, Str, length, take, drop,
}
use event_engine_acap.Mqtt.Length.{read_length}
use event_engine_acap.Mqtt.Packets.{
  mqtt_pkt_connack, mqtt_pkt_publish, mqtt_pkt_puback, puback_packet,
}

-- `MQTT_BUF_SIZE`
abbrev pub mqtt_buf_size : ℕ
mqtt_buf_size = 4096

-- `recv_exact`: `n` bytes and the stream behind them, or a failure where fewer arrive.
unfoldable pub recv_exact : ℕ → List ℕ → Option (List ℕ × List ℕ)
recv_exact n s = if leb n (length s) then some (take n s, drop n s) else none

-- The loop that reads a packet away that does not fit the buffer, in at most as many rounds as the
-- first argument.
unfoldable pub drain : ℕ → ℕ → List ℕ → Option (List ℕ)
drain zero left s = some s
drain (suc rounds) left s =
    let chunk = if ltb left mqtt_buf_size then left else mqtt_buf_size in
    let more : Option (List ℕ) = elim (recv_exact chunk s) [
      | none ↦ none
      | some (got, s') ↦ drain rounds (left - chunk) s'
    ] in
    if ltb 0 left then more else some s

-- A packet that was read whole, one that was read away, or the end of the connection; `rest` is the
-- stream behind it.
pub data Incoming : Type 0 where
  broken : Incoming
  oversized : List ℕ → Incoming
  packet : ℕ → List ℕ → List ℕ → Incoming

unfoldable pub read_body : ℕ → ℕ → List ℕ → Incoming
read_body fhdr n s =
    if ltb mqtt_buf_size n
    then elim (drain n n s) [ none ↦ broken | some rest ↦ oversized rest ]
    else elim (recv_exact n s) [ none ↦ broken | some (body, rest) ↦ packet fhdr body rest ]

unfoldable pub read_packet : List ℕ → Incoming
read_packet [] = broken
read_packet (fhdr ∷ s) = elim (read_length s) [
  | none ↦ broken
  | some (n, rest) ↦ read_body fhdr n rest
]

-- What a packet makes the client do.
pub data Act : Type 0 where
  send_all : List ℕ → Act
  dispatch : Str → List ℕ → Act
  acked : ℕ → Act

-- `buf[pos] << 8 | buf[pos + 1]`
abbrev pub u16_at : ℕ → ℕ → ℕ
u16_at hi lo = hi * 256 + lo

-- `alloc n` is whether `malloc(n)` succeeds, and `incoming_size` the size of an `IncomingMsg`.
module _ (alloc : ℕ → Bool) (incoming_size : ℕ) where
  unfoldable pub deliver : Str → List ℕ → List Act
  deliver topic payload =
      if alloc (length payload + 1) && alloc incoming_size then dispatch topic payload ∷ [] else []

  -- Under QoS 1 the identifier is in front of the payload, and is acknowledged first.
  unfoldable pub acknowledge : Str → List ℕ → List Act
  acknowledge topic [] = []
  acknowledge topic (hi ∷ []) = []
  acknowledge topic (hi ∷ lo ∷ payload) =
      send_all (puback_packet (u16_at hi lo)) ∷ deliver topic payload

  unfoldable pub handle_publish : ℕ → List ℕ → List Act
  handle_publish qos [] = []
  handle_publish qos (hi ∷ []) = []
  handle_publish qos (hi ∷ lo ∷ rest) =
      let topic_len = u16_at hi lo in
      if ltb (length rest) topic_len
      then []
      else if alloc (topic_len + 1)
      then (if qos == 1
          then acknowledge (take topic_len rest) (drop topic_len rest)
          else deliver (take topic_len rest) (drop topic_len rest))
      else []

  abbrev pub puback_of : List ℕ → List Act
  puback_of [] = []
  puback_of (hi ∷ []) = []
  puback_of (hi ∷ lo ∷ rest) = acked (u16_at hi lo) ∷ []

  -- `fhdr & 0xF0` is the type, and `(fhdr >> 1) & 0x03` the QoS.
  unfoldable pub handle_packet : ℕ → List ℕ → List Act
  handle_packet fhdr body =
      if fhdr / 16 * 16 == mqtt_pkt_publish
      then handle_publish (fhdr / 2 % 4) body
      else if fhdr / 16 * 16 == mqtt_pkt_puback
      then puback_of body
      else []

  -- The receive loop over a stream, in at most as many rounds as the first argument.
  unfoldable pub receive : ℕ → List ℕ → List Act
  receive zero s = []
  receive (suc rounds) s = elim (read_packet s) [
    | broken ↦ []
    | oversized rest ↦ receive rounds rest
    | packet fhdr body rest ↦ handle_packet fhdr body ++ receive rounds rest
  ]

-- The connection is accepted.
unfoldable pub recv_connack : List ℕ → Bool
recv_connack (a ∷ b ∷ c ∷ d ∷ rest) = (a == mqtt_pkt_connack && b == 2) && d == 0
recv_connack s = false
