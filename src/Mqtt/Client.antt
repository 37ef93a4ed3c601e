-- ===== src/Mqtt/Client.antt =====
-- app/engine/mqtt_client.c: publishing, the last will and new settings.
use event_engine_acap.Prelude.{
  ℕ, Bool, true, false, ◌&&◌, ◌||◌, not, ltb, ◌==◌, if◌then◌else◌, ℤ, pos, negsuc, Option, none,
  some, List, [], ◌∷◌, Str, str_eq, snprintf, length,
}
use event_engine_acap.Mqtt.Packets.{Will, is_set, next_packet_id, publish_packet}
use event_engine_acap.Mqtt.Inflight.{Inflight, inflight_add}

-- `connected`, `sockfd >= 0`, `packet_id` and the QoS 1 messages.
pub record Client : Type 0 where
  pub connected : Bool
  pub opened : Bool
  pub packet_id : ℕ
  pub inflight : Inflight

-- `if (qos < 0 || qos > 1) qos = 0;`
abbrev pub qos_of : ℤ → ℕ
qos_of (pos n) = if n == 1 then 1 else 0
qos_of (negsuc n) = 0

abbrev pub bytes_or_none : Option (List ℕ) → List ℕ
bytes_or_none none = []
bytes_or_none (some bs) = bs

-- The client, the result, and the packet handed to `send_all`.
pub record Published : Type 0 where
  pub client : Client
  pub result : Bool
  pub packet : Option (List ℕ)

-- `packet_id++` where the packet carries an identifier.
abbrev pub take_id : ℕ → Client → Client
take_id qos c = if ltb 0 qos then record c { packet_id = next_packet_id c.packet_id } else c

-- `sends` is whether `send_all` of the packet succeeds.
module _ (alloc : ℕ → Bool) (sends : Bool) (now : ℕ) where
  abbrev pub after_send : ℕ → ℕ → List ℕ → Client → Published
  after_send qos pid pkt c = record {
    client =
        if sends && ltb 0 qos
        then record c { inflight = inflight_add alloc now pid pkt c.inflight }
        else c;
    result = sends;
    packet = some pkt;
  }

  unfoldable pub publish_open : Client → Str → List ℕ → Bool → ℕ → Published
  publish_open c topic payload retain qos =
      let c' = take_id qos c in
      let pid = if ltb 0 qos then c.packet_id else 0 in
      elim (publish_packet alloc topic payload retain qos pid) [
        | none ↦ record { client = c'; result = false; packet = none }
        | some pkt ↦ after_send qos pid pkt c'
      ]

  unfoldable pub mqtt_publish_binary : Client → Option Str → Option (List ℕ) → Bool → ℤ → Published
  mqtt_publish_binary c none payload retain qos = record {
    client = c;
    result = false;
    packet = none;
  }
  mqtt_publish_binary c (some topic) payload retain qos =
      if c.connected && c.opened
      then publish_open c topic (bytes_or_none payload) retain (qos_of qos)
      else record { client = c; result = false; packet = none }

  -- A payload that is text; its length is that of the string.
  unfoldable pub mqtt_publish : Client → Option Str → Option Str → Bool → ℤ → Published
  mqtt_publish c topic payload retain qos = mqtt_publish_binary c topic payload retain qos

-- `MQTT_WILL_MAX`
abbrev pub mqtt_will_max : ℕ
mqtt_will_max = 1024

abbrev pub no_will : Will
no_will = record { topic = []; payload = []; qos = 0; retain = false }

-- The will that the next CONNECT carries, and the result.
unfoldable pub mqtt_set_will : Option Str → List ℕ → ℤ → Bool → Will → Will × Bool
mqtt_set_will none payload qos retain w =
    if ltb mqtt_will_max (length payload) then (w, false) else (no_will, true)
mqtt_set_will (some topic) payload qos retain w =
    if ltb mqtt_will_max (length payload)
    then (w, false)
    else if is_set topic
    then (
      record { topic = snprintf 256 topic; payload = payload; qos = qos_of qos; retain = retain },
      true,
    )
    else (no_will, true)

pub record Server : Type 0 where
  pub host : Str
  pub port : ℤ

-- `MQTT_Config`; the servers are the entries in use, at most `MQTT_MAX_SERVERS`.
pub record Config : Type 0 where
  pub primary : Server
  pub servers : List Server
  pub client_id : Str
  pub username : Str
  pub password : Str
  pub keepalive : ℤ
  pub use_tls : Bool
  pub enabled : Bool

abbrev pub int_eq : ℤ → ℤ → Bool
int_eq (pos a) (pos b) = a == b
int_eq (pos a) (negsuc b) = false
int_eq (negsuc a) (pos b) = false
int_eq (negsuc a) (negsuc b) = a == b

abbrev pub bool_eq : Bool → Bool → Bool
bool_eq a b = if a then b else not b

abbrev pub server_differs : Server → Server → Bool
server_differs a b = not (str_eq a.host b.host) || not (int_eq a.port b.port)

-- The comparison of the lists, which ends at the first difference.
unfoldable pub list_changed : List Server → List Server → Bool
list_changed [] [] = false
list_changed [] (b ∷ bs) = true
list_changed (a ∷ as') [] = true
list_changed (a ∷ as') (b ∷ bs) = server_differs a b || list_changed as' bs

unfoldable pub needs_restart : Config → Config → Bool
needs_restart old new =
    let host_changed =
      (not (str_eq old.primary.host new.primary.host)
        || not (int_eq old.primary.port new.primary.port))
      || not (bool_eq old.use_tls new.use_tls) in
    let auth_changed =
      (not (str_eq old.username new.username) || not (str_eq old.password new.password))
      || not (str_eq old.client_id new.client_id) in
    let enable_changed = not (bool_eq old.enabled new.enabled) in
    ((host_changed || auth_changed) || list_changed old.servers new.servers) || enable_changed

-- The settings, the broker to try next, and whether the worker is asked to reconnect.
unfoldable pub mqtt_reconfigure : Config → Config → ℕ → Config × ℕ × Bool
mqtt_reconfigure old new server_index =
    let restart = needs_restart old new in (new, if restart then 0 else server_index, restart)
