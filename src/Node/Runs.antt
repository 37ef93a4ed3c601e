-- ===== src/Node/Runs.antt =====
-- app/engine/sparkplug.c: a host accepts every message of every run of the node.
use event_engine_acap.Prelude.{refl, inl, inr, List, [], ◌∷◌, arith, Bool-cases}
use event_engine_acap.Sparkplug.Metric.{Numbers}
use event_engine_acap.Node.State.{Node, is_active}
use event_engine_acap.Node.Sessions.{on_connected, on_disconnected}
use event_engine_acap.Node.Host.{
  Host, Event, preconnect, connected, disconnected, host_state, publishing, cleanup, device_event,
  command, hear_all, step, run,
}
use event_engine_acap.Node.Agreement.{Agrees, Accepted, Accepted-append}
use event_engine_acap.Node.Steps.{
  on_preconnect-Accepted, birth_and_replay-Accepted, on_host_state-Accepted,
  sparkplug_cleanup-Accepted, sparkplug_publish-Accepted, on_device_event-Accepted,
  on_command-Accepted,
}

module _ {D : Type 0} (d : Numbers D) (zero_dbl : D) where
  step-Accepted : (e : Event) (n : Node) (h : Host) → Agrees n h → Accepted h (step d zero_dbl e n)
  unfolding step on_disconnected hear_all on_connected
  step-Accepted (preconnect works ts) n h a = on_preconnect-Accepted d zero_dbl works ts n h a
  step-Accepted (connected works ts) n h a = elim (Bool-cases (is_active n)) [
    | inl i ↦ rw i (birth_and_replay-Accepted d zero_dbl works ts n h a)
    | inr i ↦ rw i (h, refl, a)
  ]
  step-Accepted disconnected n h a = (
    h,
    refl,
    record {
      same_seq = a.same_seq;
      same_bdseq = a.same_bdseq;
      node_born = λ b. ground arith;
      device_born = λ b t. ground arith;
    },
  )
  step-Accepted (host_state works ts payload len) n h a =
      on_host_state-Accepted d zero_dbl works ts payload len n h a
  step-Accepted (publishing works conn ts items) n h a =
      sparkplug_publish-Accepted d zero_dbl works ts conn items n h a
  step-Accepted (device_event works conn ts event) n h a =
      on_device_event-Accepted d zero_dbl works ts conn event n h a
  step-Accepted (command works now topic payload last) n h a =
      on_command-Accepted d zero_dbl works now topic payload last n h a
  step-Accepted (cleanup works conn ts) n h a =
      sparkplug_cleanup-Accepted d zero_dbl works ts conn n h a

  -- Under fixed settings, whatever sessions, states of the host, commands, device events and
  -- publishings of rules come, and whichever messages fail, a host that agrees with the node accepts
  -- each of its calls, and agrees with it afterwards: a birth of the node has the number 0 and every
  -- attempt after it the next one modulo 256, births, deaths and wills name the session, whose number
  -- is one more than the last, and no data goes out in a session before the node, and for data of the
  -- device before the device, was born in it.
  pub run-Accepted :
      (events : List Event) (n : Node) (h : Host)
      → Agrees n h
      → Accepted h (run d zero_dbl events n)
  unfolding run hear_all
  run-Accepted [] n h a = (h, refl, a)
  run-Accepted (e ∷ events) n h a =
      Accepted-append h (step d zero_dbl e n).0 _ _ _ (step-Accepted e n h a)
        (run-Accepted events (step d zero_dbl e n).0)
