-- ===== src/Mqtt/Requests.antt =====
-- app/engine/mqtt_client.c: the bytes of CONNECT, SUBSCRIBE and UNSUBSCRIBE, whose bodies are built in
-- a buffer of their own.
use event_engine_acap.Prelude.{
  ℕ, ◌+◌, ◌%◌, ◌≤◌, ◌<◌, ◌≡◌, refl, ◌∙◌, Bool, true, false, ◌&&◌, ◌==◌, if◌then◌else◌, some, List,
  [], ◌∷◌, ◌++◌, Str, codes, length, take_all, length-append, arith,
}
use event_engine_acap.Mqtt.Buffer.{
  Buf, mqtt_max_packet, u16_bytes, buf_init, buf_append, buf_append_u8, buf_append_u16,
  buf_append_str, buf_append_bytes, Full-init, append_fits, append_fails, append_failed,
}
use event_engine_acap.Mqtt.Length.{encode_remaining_length, length_bytes}
use event_engine_acap.Mqtt.Packets.{
  Will, Session, is_set, mqtt_pkt_connect, mqtt_pkt_subscribe, mqtt_pkt_unsubscribe, connect_flags,
  keepalive_of, client_id_of, put_will, put_credentials, framed, send_connect, send_subscribe,
  send_unsubscribe,
}
use event_engine_acap.Mqtt.Layout.{
  packet_bytes, str_bytes, Appends, Appends-append, Appends-nothing, Appends-then, Appends-u8,
  Appends-u16, Appends-str, Appends-either, Built, Built-finish,
}

-- The body of a CONNECT.
abbrev will_bytes : Will → List ℕ
will_bytes w =
    if is_set w.topic
    then str_bytes w.topic ++ (u16_bytes (length w.payload % 65536) ++ w.payload)
    else []

abbrev credential_bytes : Bool → Str → List ℕ
credential_bytes t s = if t then str_bytes s else []

unfoldable pub connect_body : Will → Session → List ℕ
connect_body w s =
    str_bytes (codes "MQTT")
    ++ ((4 ∷ [])
        ++ ((connect_flags w s ∷ [])
            ++ (u16_bytes (keepalive_of s.keepalive)
                ++ (str_bytes (client_id_of s.client_id)
                    ++ (will_bytes w
                        ++ (credential_bytes (is_set s.username) s.username
                            ++ credential_bytes (is_set s.username && is_set s.password)
                                s.password))))))

unfoldable pub subscribe_body : ℕ → Str → List ℕ
subscribe_body pid topic_filter = u16_bytes pid ++ (str_bytes topic_filter ++ (1 ∷ []))

unfoldable pub unsubscribe_body : ℕ → Str → List ℕ
unsubscribe_body pid topic_filter = u16_bytes pid ++ str_bytes topic_filter

module _ (alloc : ℕ → Bool) where
  framed-Built :
      (header : ℕ) (b : Buf) → Built alloc (packet_bytes header b.bytes) (framed alloc header b)
  unfolding framed packet_bytes
  framed-Built header b = Built-finish alloc _ _ (
      Appends-then alloc _ _ _ _ (Appends-u8 alloc header)
        (Appends-then alloc _ _ _ _ (Appends-append alloc _) (Appends-append alloc b.bytes)))

  Appends-bytes :
      (src : List ℕ)
      → Appends alloc (buf_append_bytes alloc src) (u16_bytes (length src % 65536) ++ src)
  unfolding buf_append_bytes
  Appends-bytes [] = Appends-u16 alloc 0
  Appends-bytes (x ∷ src) =
      let n = length (x ∷ src) in
      Appends-either alloc (n == 0) (buf_append_u16 alloc (n % 65536)) _ _
        (λ e. absurd (ground arith))
        (λ e.
          Appends-then alloc _ _ _ _ (Appends-u16 alloc (n % 65536))
            (Appends-append alloc (x ∷ src)))

  Appends-will : (w : Will) → Appends alloc (put_will alloc w) (will_bytes w)
  unfolding put_will
  Appends-will w =
      Appends-either alloc (is_set w.topic) _ (λ b. b) _
        (λ e.
          rw e (Appends-then alloc _ _ _ _ (Appends-str alloc w.topic) (Appends-bytes w.payload)))
        (λ e. rw e (Appends-nothing alloc))

  Appends-credential :
      (t : Bool) (s : Str)
      → Appends alloc (λ b. if t then buf_append_str alloc s b else b) (credential_bytes t s)
  Appends-credential t s =
      Appends-either alloc t (buf_append_str alloc s) (λ b. b) _ (λ e. rw e (Appends-str alloc s))
        (λ e. rw e (Appends-nothing alloc))

  Appends-credentials :
      (s : Session)
      → Appends alloc (put_credentials alloc s) (
          credential_bytes (is_set s.username) s.username
          ++ credential_bytes (is_set s.username && is_set s.password) s.password)
  unfolding put_credentials
  Appends-credentials s =
      Appends-then alloc _ _ _ _ (Appends-credential (is_set s.username) s.username)
        (Appends-credential (is_set s.username && is_set s.password) s.password)

  module _ (plenty : (n : ℕ) → alloc n ≡ true) where
    -- With memory for it, a body within the limit is framed as it is.
    framed-Full :
        (header : ℕ) (w : Buf → Buf) (body : List ℕ)
        → Appends alloc w body
        → length (packet_bytes header body) ≤ mqtt_max_packet
        → framed alloc header (w (buf_init alloc)) ≡ some (packet_bytes header body)
    unfolding packet_bytes
    framed-Full header w body a small =
        let f =
          a.full plenty [] (buf_init alloc)
            (omega (arith, length-append (encode_remaining_length (length body)) body))
            (Full-init alloc plenty) in
        let e = f.1 in (framed-Built header (w (buf_init alloc))).1 plenty (rw e small) ∙ rw e refl

    -- With memory for it, a CONNECT, SUBSCRIBE or UNSUBSCRIBE within the limit has exactly the bytes
    -- of its packet.
    pub requests-packet_bytes :
        (w : Will) (s : Session) (pid : ℕ) (topic_filter : Str)
        → (length (packet_bytes mqtt_pkt_connect (connect_body w s)) ≤ mqtt_max_packet
            → send_connect alloc w s ≡ some (packet_bytes mqtt_pkt_connect (connect_body w s)))
          × (length (packet_bytes mqtt_pkt_subscribe (subscribe_body pid topic_filter))
                ≤ mqtt_max_packet
              → send_subscribe alloc pid topic_filter
                ≡ some (packet_bytes mqtt_pkt_subscribe (subscribe_body pid topic_filter)))
          × (length (packet_bytes mqtt_pkt_unsubscribe (unsubscribe_body pid topic_filter))
                ≤ mqtt_max_packet
              → send_unsubscribe alloc pid topic_filter
                ≡ some (packet_bytes mqtt_pkt_unsubscribe (unsubscribe_body pid topic_filter)))
    unfolding send_connect send_subscribe send_unsubscribe connect_body subscribe_body
        unsubscribe_body
    requests-packet_bytes w s pid topic_filter = (
      framed-Full mqtt_pkt_connect _ _ (
          Appends-then alloc _ _ _ _ (Appends-str alloc (codes "MQTT")) (
            Appends-then alloc _ _ _ _ (Appends-u8 alloc 4) (
              Appends-then alloc _ _ _ _ (Appends-u8 alloc (connect_flags w s)) (
                Appends-then alloc _ _ _ _ (Appends-u16 alloc (keepalive_of s.keepalive)) (
                  Appends-then alloc _ _ _ _ (Appends-str alloc (client_id_of s.client_id))
                    (Appends-then alloc _ _ _ _ (Appends-will w) (Appends-credentials s))))))),
      framed-Full mqtt_pkt_subscribe _ _ (
          Appends-then alloc _ _ _ _ (Appends-u16 alloc pid)
            (Appends-then alloc _ _ _ _ (Appends-str alloc topic_filter) (Appends-u8 alloc 1))),
      framed-Full mqtt_pkt_unsubscribe _ _
          (Appends-then alloc _ _ _ _ (Appends-u16 alloc pid) (Appends-str alloc topic_filter)),
    )

  short_body :
      (pid : ℕ) (topic_filter : Str)
      → 60 < length topic_filter
      → length topic_filter < 65536
      → alloc 64 ≡ true
      → alloc (4 + length topic_filter + 64) ≡ false
      → buf_append_u8 alloc 1
          (buf_append_str alloc topic_filter (buf_append_u16 alloc pid (buf_init alloc)))
        ≡ record {
          bytes = u16_bytes pid ++ u16_bytes (length topic_filter);
          cap = 64;
          failed = true;
        }
  unfolding buf_append_u8 buf_append_str buf_append_u16 buf_init
  short_body pid topic_filter long fits got out =
      let len = length topic_filter in
      let fresh : Buf = record { bytes = []; cap = 64; failed = false } in
      let head : Buf = record { bytes = u16_bytes pid; cap = 64; failed = false } in
      let counted : Buf = record {
        bytes = u16_bytes pid ++ u16_bytes len;
        cap = 64;
        failed = false;
      } in
      let same : len % 65536 ≡ len = omega arith in
      let some' : (len == 0) ≡ false = ground arith in
      let whole = take_all len topic_filter (omega arith) in
      rw
        (
          got,
          append_fits alloc (u16_bytes pid) fresh refl (omega arith) (omega arith),
          same,
          some',
          whole,
          append_fits alloc (u16_bytes len) head refl (omega arith) (omega arith),
          append_fails alloc topic_filter counted (omega arith) out,
        )
        (append_failed alloc (1 ∷ []) (record counted { failed = true }) refl)

  -- The body's failure is not looked at: where the memory for the filter is not there, and the first
  -- 64 bytes are, a SUBSCRIBE is sent with the length of a filter that does not follow.
  pub send_subscribe_short :
      (pid : ℕ) (topic_filter : Str)
      → 60 < length topic_filter
      → length topic_filter < 65536
      → alloc 64 ≡ true
      → alloc (4 + length topic_filter + 64) ≡ false
      → send_subscribe alloc pid topic_filter
        ≡ some (packet_bytes mqtt_pkt_subscribe (u16_bytes pid ++ u16_bytes (length topic_filter)))
  unfolding send_subscribe framed packet_bytes buf_append_u8 buf_append buf_init
      encode_remaining_length length_bytes
  send_subscribe_short pid topic_filter long fits got out =
      rw (short_body pid topic_filter long fits got out, got) refl
