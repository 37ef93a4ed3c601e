-- ===== src/Mqtt/Tests.antt =====
-- app/engine/mqtt_client.c: runs at concrete inputs, and the theorems at inputs that meet their
-- hypotheses.
use event_engine_acap.Prelude.{
  ℕ, ◌+◌, ◌*◌, ◌%◌, ◌≤◌, ◌<◌, ◌≡◌, ◌≢◌, refl, Bool, true, false, some, List, [], ◌∷◌, ◌++◌, codes,
  pos, length, arith,
}
use event_engine_acap.Table.{find_key, occurs, index_of}
use event_engine_acap.Mqtt.Buffer.{buf_init, buf_append, buf_append_u8, buf_append_u16}
use event_engine_acap.Mqtt.Length.{
  encode_remaining_length, length_bytes, read_length, read_length_from,
}
use event_engine_acap.Mqtt.Packets.{next_packet_id, put_pid, put_payload, publish_packet}
use event_engine_acap.Mqtt.Receive.{
  receive, acked, read_packet, read_body, recv_exact, handle_packet,
}
use event_engine_acap.Mqtt.Delivery.{
  Message, Sent, none_sent, one_more, received_all, receive-publish,
}
use event_engine_acap.Mqtt.Inflight.{Inflight, no_inflight, inflight_add}
use event_engine_acap.Mqtt.Retries
use event_engine_acap.Mqtt.Retries.{
  step, track, acknowledge, retry, drop_all, used, budget, run, tracked,
}
use event_engine_acap.Mqtt.GivenUp.{passes, passes_give_up}
use event_engine_acap.Mqtt.Subscriptions.{Subscription, mqtt_subscribe, mqtt_unsubscribe}
use event_engine_acap.Mqtt.Owners
use event_engine_acap.Mqtt.Client.{Client, mqtt_publish_binary}
use event_engine_acap.Mqtt.Identifiers.{nth_id, nth_id_apart, Outcome, mqtt_publish_binary-Outcome}
use event_engine_acap.Mqtt.Worker.{Worker, tcp_failed, tls_failed, handshake_failed}
use event_engine_acap.Mqtt.Brokers.{rounds, with_count, rounds-index, tcp, tls, handshake}

abbrev plenty : ℕ → Bool
plenty n = true

abbrev door : Message
door = record { topic = codes "door"; payload = codes "open"; retain = false; qos = 1; pid = 7 }

abbrev lamp : Message
lamp = record { topic = codes "lamp"; payload = []; retain = true; qos = 0; pid = 0 }

abbrev door_packet : List ℕ
door_packet = 0x32 ∷ 12 ∷ 0 ∷ 4 ∷ codes "door" ++ (0 ∷ 7 ∷ codes "open")

abbrev lamp_packet : List ℕ
lamp_packet = 0x31 ∷ 6 ∷ 0 ∷ 4 ∷ codes "lamp"

door_built : publish_packet plenty (codes "door") (codes "open") false 1 7 ≡ some door_packet
unfolding publish_packet put_pid put_payload buf_append_u8 buf_append_u16 buf_append buf_init
    encode_remaining_length length_bytes
door_built = refl

lamp_built : publish_packet plenty (codes "lamp") [] true 0 0 ≡ some lamp_packet
unfolding publish_packet put_pid put_payload buf_append_u8 buf_append_u16 buf_append buf_init
    encode_remaining_length length_bytes
lamp_built = refl

both-Sent : Sent plenty (door ∷ lamp ∷ []) (door_packet ++ (lamp_packet ++ []))
both-Sent =
    one_more door (lamp ∷ []) door_packet (lamp_packet ++ []) door_built
      (one_more lamp [] lamp_packet [] lamp_built none_sent)

receive-publish_example :
    receive plenty 24 (2 + 1) ((door_packet ++ (lamp_packet ++ [])) ++ (0xD0 ∷ 0 ∷ []))
    ≡ received_all (door ∷ lamp ∷ []) ++ receive plenty 24 1 (0xD0 ∷ 0 ∷ [])
receive-publish_example =
    receive-publish plenty plenty 24 (λ n. refl) (0xD0 ∷ 0 ∷ []) 1
      (
        record { known_qos = omega arith; short_pid = omega arith },
        (record { known_qos = omega arith; short_pid = omega arith }, tt),
      )
      both-Sent

-- A PUBACK frees the message that it names, and a message that is due is sent again.
receive_puback : receive plenty 24 1 (0x40 ∷ 2 ∷ 0 ∷ 7 ∷ []) ≡ acked 7 ∷ []
unfolding receive read_packet read_length read_length_from read_body recv_exact handle_packet
receive_puback = refl

abbrev one_waiting : Inflight
one_waiting = (run (track plenty 100 7 door_packet ∷ []) no_inflight).0

empty-IsValid : Retries.IsValid no_inflight
unfolding no_inflight used
empty-IsValid = record { sized = refl; counted = refl }

inflight_run-IsValid_example :
    Retries.IsValid
      (run (track plenty 100 7 door_packet ∷ retry plenty 106 ∷ acknowledge 7 ∷ []) no_inflight).0
    × (length
          (run
            (track plenty 100 7 door_packet ∷ retry plenty 106 ∷ acknowledge 7 ∷ [])
            no_inflight).1
        ≤ budget no_inflight.slots
          + 3 * tracked (track plenty 100 7 door_packet ∷ retry plenty 106 ∷ acknowledge 7 ∷ []))
inflight_run-IsValid_example =
    Retries.inflight_run-IsValid
      (track plenty 100 7 door_packet ∷ retry plenty 106 ∷ acknowledge 7 ∷ []) no_inflight
      empty-IsValid

waiting-IsValid : Retries.IsValid one_waiting
waiting-IsValid =
    (Retries.inflight_run-IsValid (track plenty 100 7 door_packet ∷ []) no_inflight empty-IsValid).0

passes_give_up_example :
    (used (passes (105 ∷ 110 ∷ 115 ∷ 120 ∷ []) one_waiting).slots ≡ 0)
    × ((passes (105 ∷ 110 ∷ 115 ∷ 120 ∷ []) one_waiting).count ≡ 0)
unfolding run step inflight_add index_of no_inflight
passes_give_up_example =
    passes_give_up (110 ∷ 115 ∷ 120 ∷ []) 105 one_waiting waiting-IsValid (omega arith)
      (omega arith)

empty_table : Owners.IsValid []
unfolding occurs find_key
empty_table = record { distinct = λ k. omega arith; owned = λ f s e. cc; bounded = omega arith }

mqtt_subscribe-Joined_example :
    Owners.Joined [] (codes "a/#") true (mqtt_subscribe true (some (codes "a/#")) [])
mqtt_subscribe-Joined_example =
    Owners.mqtt_subscribe-Joined [] (codes "a/#") true empty_table (omega arith)

abbrev one_filter : List Subscription
one_filter = (mqtt_subscribe true (some (codes "a/#")) []).table

one_filter-IsValid : Owners.IsValid one_filter
one_filter-IsValid =
    (Owners.mqtt_subscribe-Joined [] (codes "a/#") true empty_table (omega arith)).valid

mqtt_unsubscribe-Released_example :
    Owners.Released one_filter
      (codes "a/#")
      true
      (mqtt_unsubscribe true (some (codes "a/#")) one_filter)
mqtt_unsubscribe-Released_example =
    Owners.mqtt_unsubscribe-Released one_filter (codes "a/#") true one_filter-IsValid

abbrev online : Client
online = record { connected = true; opened = true; packet_id = 7; inflight = no_inflight }

mqtt_publish_binary-Outcome_example :
    Outcome plenty true 100 online (codes "door") (codes "open") false 1 (
      mqtt_publish_binary plenty true 100 online
        (some (codes "door"))
        (some (codes "open"))
        false
        (pos 1))
mqtt_publish_binary-Outcome_example =
    mqtt_publish_binary-Outcome plenty true 100 online (codes "door") (some (codes "open")) false
      (pos 1)

nth_id_apart_example :
    (1 ≤ nth_id 2 65534)
    × (nth_id 2 65534 < 65536)
    × (2 < 5 → 5 < 2 + 65535 → nth_id 2 65534 ≢ nth_id 5 65534)
nth_id_apart_example = nth_id_apart 65534 2 5 (omega arith) (omega arith)

-- The identifiers wrap past 0.
nth_id_wraps : nth_id 2 65534 ≡ 1
unfolding nth_id next_packet_id
nth_id_wraps = refl

abbrev second : Worker
second = record { server_index = 1; reconnect_delay = 2 }

rounds-index_example :
    (rounds (with_count 3 (tcp_failed ∷ tls_failed ∷ handshake_failed ∷ [])) second).0.server_index
    ≡ (1 + 3) % 3
rounds-index_example =
    rounds-index (tcp_failed ∷ tls_failed ∷ handshake_failed ∷ []) 3 second (omega arith)
      (tcp, (tls, (handshake, tt)))
