-- ===== src/Mqtt/Inflight.antt =====
-- app/engine/mqtt_client.c: the QoS 1 messages that wait for their acknowledgment.
use event_engine_acap.Prelude.{
  ℕ, zero, suc, ◌+◌, ◌-◌, ◌/◌, ◌%◌, Bool, true, false, not, ltb, leb, ◌==◌, if◌then◌else◌, Option,
  none, some, List, [], ◌∷◌, length, get_elem?, set, replicate,
}
use event_engine_acap.Table.{index_of}

-- `MQTT_MAX_INFLIGHT`, `MQTT_ACK_TIMEOUT_SEC` and `MQTT_MAX_RETRIES`
abbrev pub mqtt_max_inflight : ℕ
mqtt_max_inflight = 64

abbrev pub mqtt_ack_timeout_sec : ℕ
mqtt_ack_timeout_sec = 5

abbrev pub mqtt_max_retries : ℕ
mqtt_max_retries = 3

-- `InflightMsg`; `len` is the length of the packet.
pub record InflightMsg : Type 0 where
  pub pid : ℕ
  pub packet : List ℕ
  pub sent_at : ℕ
  pub retries : ℕ

-- `inflight` and `inflight_count`. A slot that is not `used` is all zero, and is `none` here.
pub record Inflight : Type 0 where
  pub slots : List (Option InflightMsg)
  pub count : ℕ

abbrev pub is_free : Option InflightMsg → Bool
is_free none = true
is_free (some m) = false

abbrev pub has_pid : ℕ → Option InflightMsg → Bool
has_pid pid none = false
has_pid pid (some m) = m.pid == pid

unfoldable pub no_inflight : Inflight
no_inflight = record { slots = replicate mqtt_max_inflight none; count = 0 }

-- `alloc n` is whether `malloc(n)` succeeds, and `now` what `time` returns.
unfoldable pub inflight_add : (ℕ → Bool) → ℕ → ℕ → List ℕ → Inflight → Inflight
inflight_add alloc now pid packet t = elim (index_of is_free t.slots) [
  | none ↦ t
  | some slot ↦
      if alloc (length packet)
      then record {
        slots =
            set t.slots slot
              (some (record { pid = pid; packet = packet; sent_at = now; retries = 0 }));
        count = t.count + 1;
      }
      else t
]

unfoldable pub inflight_release : ℕ → Inflight → Inflight
inflight_release i t = record {
  slots = set t.slots i none;
  count = if ltb 0 t.count then t.count - 1 else t.count;
}

unfoldable pub inflight_ack : ℕ → Inflight → Inflight
inflight_ack pid t = elim (index_of (has_pid pid) t.slots) [
  | none ↦ t
  | some i ↦ inflight_release i t
]

-- The loop of `inflight_clear` over the slots from `i` on, with the number of messages dropped.
unfoldable pub clear_from : ℕ → ℕ → Inflight → Inflight × ℕ
clear_from zero i t = (t, 0)
clear_from (suc n) i t =
    let used : Bool = elim (get_elem? t.slots i) [ none ↦ false | some o ↦ not (is_free o) ] in
    let (t', dropped) = clear_from n (i + 1) (if used then inflight_release i t else t) in
    (t', if used then dropped + 1 else dropped)

unfoldable pub inflight_clear : Inflight → Inflight × ℕ
inflight_clear t = clear_from mqtt_max_inflight 0 t

-- `packet[0] |= 0x08`
abbrev pub set_dup : List ℕ → List ℕ
set_dup [] = []
set_dup (b ∷ bs) = (if b / 8 % 2 == 0 then b + 8 else b) ∷ bs

unfoldable pub resend : ℕ → InflightMsg → InflightMsg
resend now m = record m { packet = set_dup m.packet; retries = m.retries + 1; sent_at = now }

-- What `inflight_retransmit` does with a message: it waits, is given up, or is sent again.
pub data Turn : Type 0 where
  waits gives_up resends : Turn

unfoldable pub turn_of : ℕ → InflightMsg → Turn
turn_of now m =
    if ltb (now - m.sent_at) mqtt_ack_timeout_sec
    then waits
    else if leb mqtt_max_retries m.retries
    then gives_up
    else resends

-- What a pass leaves of the slots, how many messages it gave up, and the packets that it handed to
-- `send_all`.
pub record Pass : Type 0 where
  pub left : List (Option InflightMsg)
  pub released : ℕ
  pub resent : List (List ℕ)

abbrev kept : Option InflightMsg → Pass → Pass
kept o p = record p { left = o ∷ p.left }

abbrev given_up : Pass → Pass
given_up p = record p { left = none ∷ p.left; released = p.released + 1 }

abbrev sent_again : InflightMsg → Pass → Pass
sent_again m p = record p { left = some m ∷ p.left; resent = m.packet ∷ p.resent }

-- The loop of `inflight_retransmit` over the slots from `i` on; `sends i` is whether `send_all` of the
-- packet in slot `i` succeeds, and a failure ends the pass.
unfoldable pub retransmit_from : (ℕ → Bool) → ℕ → ℕ → List (Option InflightMsg) → Pass
retransmit_from sends now i [] = record { left = []; released = 0; resent = [] }
retransmit_from sends now i (none ∷ slots) = kept none (retransmit_from sends now (i + 1) slots)
retransmit_from sends now i (some m ∷ slots) =
    let rest = retransmit_from sends now (i + 1) slots in
    elim (turn_of now m) [
      | waits ↦ kept (some m) rest
      | gives_up ↦ given_up rest
      | resends ↦
          if sends i
          then sent_again (resend now m) rest
          else sent_again (resend now m) (record { left = slots; released = 0; resent = [] })
    ]

unfoldable pub inflight_retransmit : (ℕ → Bool) → ℕ → Inflight → Inflight × List (List ℕ)
inflight_retransmit sends now t =
    let pass = retransmit_from sends now 0 t.slots in
    (record { slots = pass.left; count = t.count - pass.released }, pass.resent)
