-- ===== src/Node/Host.antt =====
-- app/engine/sparkplug.c: the node run on a sequence of events, and what a host expects of its messages.
use event_engine_acap.Prelude.{
  ℕ, ◌+◌, ◌%◌, ◌^◌, Bool, false, ◌&&◌, ◌||◌, ◌==◌, if◌then◌else◌, Option, none, some, List, [], ◌∷◌,
  ◌++◌, Str, codes, str_eq,
}
use event_engine_acap.Sparkplug.Metric.{Numbers, Metric}
use event_engine_acap.Node.State.{Node, MsgType, nbirth, dbirth, ndata, ddata, ndeath}
use event_engine_acap.Node.Publishing.{Call, publish, set_will, clear_will, save_bdseq}
use event_engine_acap.Node.Inbound.{DeviceEvent, LastCommand, on_device_event, on_command}
use event_engine_acap.Node.Sessions.{
  Item, sparkplug_publish, on_preconnect, on_connected, on_disconnected, on_host_state,
  sparkplug_cleanup,
}

-- An event, with the messages that work at its time.
pub data Event : Type 0 where
  preconnect : (MsgType → Bool) → ℕ → Event
  connected : (MsgType → Bool) → ℕ → Event
  disconnected : Event
  host_state : (MsgType → Bool) → ℕ → Option Str → ℕ → Event
  publishing : (MsgType → Bool) → Bool → ℕ → Option (List Item) → Event
  cleanup : (MsgType → Bool) → Bool → ℕ → Event
  device_event : (MsgType → Bool) → Bool → ℕ → DeviceEvent → Event
  command : (MsgType → Bool) → ℕ → Str → List ℕ → LastCommand → Event

-- What a host keeps of a node: the number the next message has, the number of the session, and
-- whether the node and its device were born in it.
pub record Host : Type 0 where
  pub next_seq : ℕ
  pub bdseq : ℕ
  pub node_born : Bool
  pub device_born : Bool

-- The number of a message is the one expected.
abbrev pub seq_is : Option ℕ → ℕ → Bool
seq_is none k = false
seq_is (some s) k = s == k

abbrev pub is_bdseq : Option Str → Bool
is_bdseq none = false
is_bdseq (some name) = str_eq name (codes "bdSeq")

abbrev pub and_then : Option Host → (Host → Option Host) → Option Host
and_then none f = none
and_then (some h) f = f h

module _ {D : Type 0} where
  -- The first metric names the session.
  abbrev pub names_session : ℕ → List (Metric D) → Bool
  names_session bdseq [] = false
  names_session bdseq (m ∷ ms) = is_bdseq m.name && (m.i64 == bdseq)

  -- What the host makes of a call, or `none` if the call breaks its rules: a birth of the node starts the numbers
  -- at 0, every other message has the next one, modulo 256, births, deaths and wills name the
  -- session, and data comes from who was born. A new session has the next number.
  unfoldable pub heard : Host → Call D → Option Host
  heard h (publish nbirth topic s ms ok) =
      if seq_is s 0 && names_session h.bdseq ms
      then some (record h { next_seq = 1; node_born = ok || h.node_born })
      else none
  heard h (publish dbirth topic s ms ok) =
      if seq_is s h.next_seq && h.node_born
      then some (record h { next_seq = (h.next_seq + 1) % 256; device_born = ok || h.device_born })
      else none
  heard h (publish ndata topic s ms ok) =
      if seq_is s h.next_seq && h.node_born
      then some (record h { next_seq = (h.next_seq + 1) % 256 })
      else none
  heard h (publish ddata topic s ms ok) =
      if seq_is s h.next_seq && (h.node_born && h.device_born)
      then some (record h { next_seq = (h.next_seq + 1) % 256 })
      else none
  heard h (publish ndeath topic none ms ok) = if names_session h.bdseq ms then some h else none
  heard h (publish ndeath topic (some s) ms ok) = none
  heard h (set_will topic ms ok) = if names_session h.bdseq ms then some h else none
  heard h clear_will = some h
  heard h (save_bdseq bdseq) =
      if bdseq == (h.bdseq + 1) % 2 ^ 64
      then some (record h { bdseq = bdseq; node_born = false; device_born = false })
      else none

  unfoldable pub hear_all : List (Call D) → Host → Option Host
  hear_all [] h = some h
  hear_all (call ∷ calls) h = and_then (heard h call) (hear_all calls)

module _ {D : Type 0} (d : Numbers D) (zero_dbl : D) where
  unfoldable pub step : Event → Node → Node × List (Call D)
  step (preconnect works ts) n = on_preconnect d zero_dbl works ts n
  step (connected works ts) n = on_connected d zero_dbl works ts n
  step disconnected n = (on_disconnected n, [])
  step (host_state works ts payload payload_len) n =
      on_host_state d zero_dbl works ts payload payload_len n
  step (publishing works conn ts items) n =
      let (n', ok, calls) = sparkplug_publish d zero_dbl works conn ts items n in (n', calls)
  step (cleanup works conn ts) n = sparkplug_cleanup d zero_dbl works conn ts n
  step (device_event works conn ts event) n = on_device_event d zero_dbl works conn ts event n
  step (command works now topic payload last) n =
      let ((n', calls, cmds), last') = on_command d zero_dbl works now topic payload last n in
      (n', calls)

  unfoldable pub run : List Event → Node → Node × List (Call D)
  run [] n = (n, [])
  run (event ∷ events) n =
      let (n', calls) = step event n in let (n'', calls') = run events n' in (n'', calls ++ calls')
