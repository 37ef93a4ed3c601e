-- ===== src/Mqtt/Packets.antt =====
-- app/engine/mqtt_client.c: the packets that the client sends. A builder returns the packet that it
-- hands to `send_all`, and `none` where the packet could not be built and nothing is sent.
use event_engine_acap.Prelude.{
  ℕ, ◌+◌, ◌*◌, ◌/◌, ◌%◌, Bool, true, false, ◌&&◌, ltb, ◌==◌, if◌then◌else◌, ℤ, pos_part, is_pos,
  Option, none, some, List, [], ◌∷◌, Str, codes, length,
}
use event_engine_acap.Mqtt.Buffer.{
  Buf, buf_init, buf_append, buf_append_u8, buf_append_u16, buf_append_str, buf_append_bytes,
}
use event_engine_acap.Mqtt.Length.{encode_remaining_length}

-- The types of packets, in the upper half of their first byte.
abbrev pub mqtt_pkt_connect : ℕ
mqtt_pkt_connect = 0x10

abbrev pub mqtt_pkt_connack : ℕ
mqtt_pkt_connack = 0x20

abbrev pub mqtt_pkt_publish : ℕ
mqtt_pkt_publish = 0x30

abbrev pub mqtt_pkt_puback : ℕ
mqtt_pkt_puback = 0x40

abbrev pub mqtt_pkt_subscribe : ℕ
mqtt_pkt_subscribe = 0x82

abbrev pub mqtt_pkt_unsubscribe : ℕ
mqtt_pkt_unsubscribe = 0xA2

-- The last will; a will that is not set has an empty topic.
pub record Will : Type 0 where
  pub topic : Str
  pub payload : List ℕ
  pub qos : ℕ
  pub retain : Bool

-- What a CONNECT reads of `MQTT_Config`.
pub record Session : Type 0 where
  pub client_id : Str
  pub username : Str
  pub password : Str
  pub keepalive : ℤ

-- `s[0]`
abbrev pub is_set : Str → Bool
is_set [] = false
is_set (b ∷ bs) = true

-- `packet_id++; if (packet_id == 0) packet_id = 1;`
unfoldable pub next_packet_id : ℕ → ℕ
next_packet_id pid = if (pid + 1) % 65536 == 0 then 1 else (pid + 1) % 65536

-- The bits of the flags are apart, so `|=` is a sum.
unfoldable pub connect_flags : Will → Session → ℕ
connect_flags w s =
    0x02
    + (if is_set w.topic then 0x04 + w.qos % 4 * 8 + (if w.retain then 0x20 else 0) else 0)
    + (if is_set s.username then 0x80 else 0)
    + (if is_set s.username && is_set s.password then 0x40 else 0)

unfoldable pub keepalive_of : ℤ → ℕ
keepalive_of k = (if is_pos k then pos_part k else 60) % 65536

unfoldable pub client_id_of : Str → Str
client_id_of id = if is_set id then id else codes "acap_event_engine"

module _ (alloc : ℕ → Bool) where
  -- The header, the remaining length and the body, in a buffer of their own.
  unfoldable pub framed : ℕ → Buf → Option (List ℕ)
  framed header body =
      let pkt = buf_append alloc body.bytes (
        buf_append alloc (encode_remaining_length (length body.bytes))
          (buf_append_u8 alloc header (buf_init alloc))) in
      if pkt.failed then none else some pkt.bytes

  unfoldable pub put_will : Will → Buf → Buf
  put_will w b =
      if is_set w.topic
      then buf_append_bytes alloc w.payload (buf_append_str alloc w.topic b)
      else b

  unfoldable pub put_credentials : Session → Buf → Buf
  put_credentials s b =
      let named = if is_set s.username then buf_append_str alloc s.username b else b in
      if is_set s.username && is_set s.password
      then buf_append_str alloc s.password named
      else named

  unfoldable pub send_connect : Will → Session → Option (List ℕ)
  send_connect w s =
      let b = buf_append_u8 alloc 4 (buf_append_str alloc (codes "MQTT") (buf_init alloc)) in
      let b = buf_append_u8 alloc (connect_flags w s) b in
      let b = buf_append_u16 alloc (keepalive_of s.keepalive) b in
      let b = buf_append_str alloc (client_id_of s.client_id) b in
      framed mqtt_pkt_connect (put_credentials s (put_will w b))

  -- The identifier is the packet's; the next one is `next_packet_id`.
  unfoldable pub send_subscribe : ℕ → Str → Option (List ℕ)
  send_subscribe pid topic_filter = framed mqtt_pkt_subscribe (
      buf_append_u8 alloc 1
        (buf_append_str alloc topic_filter (buf_append_u16 alloc pid (buf_init alloc))))

  unfoldable pub send_unsubscribe : ℕ → Str → Option (List ℕ)
  send_unsubscribe pid topic_filter =
      framed mqtt_pkt_unsubscribe
        (buf_append_str alloc topic_filter (buf_append_u16 alloc pid (buf_init alloc)))

  unfoldable pub put_pid : ℕ → ℕ → Buf → Buf
  put_pid qos pid b = if ltb 0 qos then buf_append_u16 alloc pid b else b

  unfoldable pub put_payload : List ℕ → Buf → Buf
  put_payload [] b = b
  put_payload (x ∷ xs) b = buf_append alloc (x ∷ xs) b

  -- The PUBLISH of `MQTT_Publish_Binary`.
  unfoldable pub publish_packet : Str → List ℕ → Bool → ℕ → ℕ → Option (List ℕ)
  publish_packet topic payload retain qos pid =
      let var_len = 2 + length topic + (if ltb 0 qos then 2 else 0) + length payload in
      let fhdr = mqtt_pkt_publish + qos % 4 * 2 + (if retain then 1 else 0) in
      let b = buf_append_u8 alloc fhdr (buf_init alloc) in
      let b = buf_append alloc (encode_remaining_length var_len) b in
      let b = buf_append_u16 alloc (length topic % 65536) b in
      let pkt = put_payload payload (put_pid qos pid (buf_append alloc topic b)) in
      if pkt.failed then none else some pkt.bytes

-- `send_puback`
unfoldable pub puback_packet : ℕ → List ℕ
puback_packet pid = mqtt_pkt_puback ∷ 2 ∷ pid / 256 % 256 ∷ pid % 256 ∷ []
