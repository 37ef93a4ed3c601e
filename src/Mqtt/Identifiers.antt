-- ===== src/Mqtt/Identifiers.antt =====
-- app/engine/mqtt_client.c: packet identifiers, what publishing does, and new settings.
use event_engine_acap.Prelude.{
  ℕ, zero, suc, ◌+◌, ◌-◌, ◌%◌, ◌≤◌, ◌<◌, ◌≡◌, ◌≢◌, refl, sym, subst, ◌∙◌, ◌↔◌, ◌⊎◌, inl, inr, Bool,
  true, false, ◌&&◌, ltb, ◌==◌, if◌then◌else◌, Bool-cases, Option-cases, Option, none, some, List,
  [], ◌∷◌, Str, str_eq_iff, ℤ, pos, negsuc, length, arith,
}
use event_engine_acap.Mqtt.Inflight.{Inflight, inflight_add}
use event_engine_acap.Mqtt.Tracking.{Tracked, inflight_add-Tracked}
use event_engine_acap.Mqtt.Buffer.{mqtt_max_packet}
use event_engine_acap.Mqtt.Packets.{next_packet_id, publish_packet}
use event_engine_acap.Mqtt.Layout.{
  packet_bytes, publish_header, publish_body, publish_packet-packet_bytes,
}
use event_engine_acap.Mqtt.Client.{
  Client, int_eq, bool_eq, qos_of, bytes_or_none, Published, take_id, after_send, publish_open,
  mqtt_publish_binary, Server, Config, server_differs, list_changed, needs_restart,
  mqtt_reconfigure,
}

-- The identifier after so many packets that carry one.
unfoldable pub nth_id : ℕ → ℕ → ℕ
nth_id zero pid = pid
nth_id (suc n) pid = nth_id n (next_packet_id pid)

next_id_lem : (pid : ℕ) → 1 ≤ pid → pid < 65536 → next_packet_id pid ≡ pid % 65535 + 1
unfolding next_packet_id
next_id_lem pid low high = ground arith

nth_id_lem : (n pid : ℕ) → 1 ≤ pid → pid < 65536 → nth_id n pid ≡ (pid + n - 1) % 65535 + 1
unfolding nth_id
nth_id_lem zero pid low high = omega arith
nth_id_lem (suc n) pid low high =
    let next = next_id_lem pid low high in
    nth_id_lem n (next_packet_id pid) (omega arith) (omega arith) ∙ omega (arith, next)

-- An identifier is never 0 and has 16 bits, and two packets that are less than 65535 identifiers apart
-- have different ones.
pub nth_id_apart :
    (pid m n : ℕ)
    → 1 ≤ pid
    → pid < 65536
    → (1 ≤ nth_id m pid)
      × (nth_id m pid < 65536)
      × (m < n → n < m + 65535 → nth_id m pid ≢ nth_id n pid)
nth_id_apart pid m n low high =
    let first = nth_id_lem m pid low high in
    let second = nth_id_lem n pid low high in
    (omega arith, omega arith, λ later near same. omega arith)

-- The identifier of a message, and the bytes of its PUBLISH.
abbrev pub pid_of : ℕ → Client → ℕ
pid_of qos c = if ltb 0 qos then c.packet_id else 0

abbrev pub publish_bytes : Client → Str → List ℕ → Bool → ℕ → List ℕ
publish_bytes c topic payload retain qos =
    packet_bytes (publish_header retain qos) (publish_body topic payload qos (pid_of qos c))

-- The next identifier: after 65535 comes 1.
abbrev pub id_after : ℕ → ℕ
id_after pid = if pid % 65536 == 65535 then 1 else pid % 65536 + 1

module _ (alloc : ℕ → Bool) (sends : Bool) (now : ℕ) (c : Client) where
  -- The client after a PUBLISH has been built: an identifier is used up under QoS 1.
  abbrev pub used_id : ℕ → Client
  used_id qos = record c { packet_id = if ltb 0 qos then id_after c.packet_id else c.packet_id }

  -- What becomes of a message with a topic: it is refused, its packet cannot be built, or the packet is
  -- handed to the connection.
  pub data Outcome (topic : Str) (payload : List ℕ) (retain : Bool) (qos : ℕ) (r : Published)
      : Type 0 where
    refused :
        (c.connected && c.opened) ≡ false
        → r ≡ record { client = c; result = false; packet = none }
        → Outcome topic payload retain qos r
    unbuilt :
        (((n : ℕ) → alloc n ≡ true)
          → mqtt_max_packet < length (publish_bytes c topic payload retain qos))
        → r ≡ record { client = used_id qos; result = false; packet = none }
        → Outcome topic payload retain qos r
    -- It is not under QoS 1, or it was not sent.
    untracked :
        (c.connected && c.opened) ≡ true
        → (sends ≡ false) ⊎ (qos ≡ 0)
        → r ≡ record {
          client = used_id qos;
          result = sends;
          packet = some (publish_bytes c topic payload retain qos);
        }
        → Outcome topic payload retain qos r
    tracked :
        (t' : Inflight)
        → (c.connected && c.opened) ≡ true
        → sends ≡ true
        → 1 ≤ qos
        → Tracked alloc now c.packet_id (publish_bytes c topic payload retain qos) c.inflight t'
        → r ≡ record {
          client = record (used_id qos) { inflight = t' };
          result = true;
          packet = some (publish_bytes c topic payload retain qos);
        }
        → Outcome topic payload retain qos r

  used_id_lem : (qos : ℕ) → take_id qos c ≡ used_id qos
  unfolding next_packet_id
  used_id_lem qos =
      let next : next_packet_id c.packet_id ≡ id_after c.packet_id = ground arith in
      elim (Bool-cases (ltb 0 qos)) [ inl kept ↦ rw (kept, next) refl | inr plain ↦ rw plain refl ]

  handed :
      (topic : Str) (payload : List ℕ) (retain : Bool) (qos : ℕ)
      → (c.connected && c.opened) ≡ true
      → Outcome topic payload retain qos (
          after_send alloc sends now qos
            (pid_of qos c)
            (publish_bytes c topic payload retain qos)
            (take_id qos c))
  handed topic payload retain qos open' =
      let pkt = publish_bytes c topic payload retain qos in
      rw (used_id_lem qos) (elim (Bool-cases sends) [
        | inr failed ↦ untracked open' (inl failed) (rw failed refl)
        | inl sent ↦ elim (Bool-cases (ltb 0 qos)) [
          | inr plain ↦ untracked open' (inr (ground arith)) (rw plain (rw sent refl))
          | inl kept ↦
              tracked (inflight_add alloc now c.packet_id pkt c.inflight) open' sent (ground arith)
                (inflight_add-Tracked alloc now c.packet_id pkt c.inflight) (rw (sent, kept) refl)
        ]
      ])

  -- A message with a topic is refused without a connection, when nothing changes, or its PUBLISH is
  -- handed to the connection: its bytes are those of the topic and the payload, and under QoS 1 of the
  -- current identifier, which is then used up; the result is that of the send. A QoS 1 message that was
  -- sent is tracked in the first free slot, from now on and without a retry, unless no slot or no memory
  -- is left; any other message changes no slot. Else the packet could not be built, which does not
  -- happen while there is memory for one within the limit; then an identifier is used up under QoS 1,
  -- and nothing else changes.
  pub mqtt_publish_binary-Outcome :
      (topic : Str) (payload : Option (List ℕ)) (retain : Bool) (qos : ℤ)
      → Outcome topic
          (bytes_or_none payload)
          retain
          (qos_of qos)
          (mqtt_publish_binary alloc sends now c (some topic) payload retain qos)
  unfolding mqtt_publish_binary publish_open
  mqtt_publish_binary-Outcome topic payload retain qos =
      let bs = bytes_or_none payload in
      let q = qos_of qos in
      let pid = pid_of q c in
      let built = publish_packet-packet_bytes alloc topic bs retain q pid in
      elim (Bool-cases (c.connected && c.opened)) [
        | inr closed ↦ rw closed (refused closed refl)
        | inl open' ↦ rw open' (elim (Option-cases (publish_packet alloc topic bs retain q pid)) [
          | inl e ↦
              rw (e, publish_open)
                (unbuilt (λ plenty. ground (arith, built.1 plenty)) (rw (used_id_lem q) refl))
          | inr (pkt, e) ↦
              rw (e, publish_open)
                (subst
                  (λ bytes.
                    Outcome topic bs retain q
                      (after_send alloc sends now q pid bytes (take_id q c)))
                  (sym (built.0 pkt e).0) (handed topic bs retain q open'))
        ])
      ]

int_eq_iff : (a b : ℤ) → (int_eq a b ≡ true) ↔ (a ≡ b)
int_eq_iff (pos a) (pos b) = ground arith
int_eq_iff (pos a) (negsuc b) = (λ e. cc, λ e. cc)
int_eq_iff (negsuc a) (pos b) = (λ e. cc, λ e. cc)
int_eq_iff (negsuc a) (negsuc b) = ground arith

bool_eq_iff : (a b : Bool) → (bool_eq a b ≡ true) ↔ (a ≡ b)
bool_eq_iff true true = (λ e. refl, λ e. refl)
bool_eq_iff true false = (λ e. cc, λ e. cc)
bool_eq_iff false true = (λ e. cc, λ e. cc)
bool_eq_iff false false = (λ e. refl, λ e. refl)

differs_iff : (a b : Server) → (server_differs a b ≡ false) ↔ (a ≡ b)
differs_iff a b = ground (arith, str_eq_iff a.host b.host, int_eq_iff a.port b.port)

list_changed_iff : (as' bs : List Server) → (list_changed as' bs ≡ false) ↔ (as' ≡ bs)
unfolding list_changed
list_changed_iff [] [] = (λ e. refl, λ e. refl)
list_changed_iff [] (b ∷ bs) = (λ e. cc, λ e. cc)
list_changed_iff (a ∷ as') [] = (λ e. cc, λ e. cc)
list_changed_iff (a ∷ as') (b ∷ bs) = ground (arith, differs_iff a b, list_changed_iff as' bs)

-- The settings agree but for the keepalive.
abbrev pub SameSession : Config → Config → Type 0
SameSession old new =
    (old.primary ≡ new.primary)
    × (old.servers ≡ new.servers)
    × (old.client_id ≡ new.client_id)
    × (old.username ≡ new.username)
    × (old.password ≡ new.password)
    × (old.use_tls ≡ new.use_tls)
    × (old.enabled ≡ new.enabled)

-- `MQTT_Reconfigure` takes the new settings over. It leaves the connection alone exactly when they
-- agree with the old ones in all but the keepalive, and then stays with its broker; else it asks for a
-- new connection, to the primary broker.
pub mqtt_reconfigure_iff :
    (old new : Config) (server_index : ℕ)
    → let (config, index, restart) = mqtt_reconfigure old new server_index in
      (config ≡ new)
      × ((restart ≡ false) ↔ SameSession old new)
      × (index ≡ (if restart then 0 else server_index))
unfolding mqtt_reconfigure needs_restart
mqtt_reconfigure_iff old new server_index = (
  refl,
  ground (
    arith,
    differs_iff old.primary new.primary,
    list_changed_iff old.servers new.servers,
    str_eq_iff old.client_id new.client_id,
    str_eq_iff old.username new.username,
    str_eq_iff old.password new.password,
    bool_eq_iff old.use_tls new.use_tls,
    bool_eq_iff old.enabled new.enabled,
  ),
  refl,
)
