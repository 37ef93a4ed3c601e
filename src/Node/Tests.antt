-- ===== src/Node/Tests.antt =====
-- app/engine/sparkplug.c: runs at concrete inputs, and the theorems at inputs that meet their
-- hypotheses.
use event_engine_acap.Prelude.{
  ℕ, ◌≡◌, ◌↔◌, refl, true, false, none, some, List, [], ◌∷◌, ◌++◌, Str, codes, arith, str_eq,
  snprintf,
}
use event_engine_acap.Node.State.{is_set, topic_matches, find_def, valid_id, plain_id}
use event_engine_acap.Node.Buffer.{buffer_sample}
use event_engine_acap.Node.Publishing.{
  Call, publish, set_will, clear_will, save_bdseq, flush_history, publish_birth, device_birth,
  flush_replay, replay_from, publish_data,
}
use event_engine_acap.Node.Sessions.{
  on_preconnect, sparkplug_publish, take_items, take_item, on_connected, birth_and_replay,
  on_disconnected, sparkplug_cleanup,
}
use event_engine_acap.Table.{index_of}
use event_engine_acap.Node.Inbound.{DeviceEvent, on_device_event, observe_from, on_command}
use event_engine_acap.Node.Host.{
  device_event, command, Host, Event, preconnect, connected, disconnected, publishing, cleanup,
  step, run,
}
use event_engine_acap.Node.Agreement.{Agrees, Accepted}
use event_engine_acap.Node.Runs.{run-Accepted}
use event_engine_acap.Node.Topics.{Levels, topic_matches_iff}
use event_engine_acap.Node.Fixtures.{plain, works, node}

abbrev outage : List (ℕ × Str × ℕ)
outage = (0, codes "21", 100) ∷ (5, codes "?", 110) ∷ (0, codes "22", 120) ∷ []

abbrev host : Host
host = record { next_seq = 255; bdseq = 7; node_born = false; device_born = false }

node-Agrees : Agrees node host
node-Agrees = record {
  same_seq = refl;
  same_bdseq = refl;
  node_born = λ b. ground arith;
  device_born = λ b t. ground arith;
}

abbrev door : DeviceEvent
door = record { path = some (codes "tns1:Device/Door"); field = λ key. none }

abbrev day : List Event
day =
    preconnect works 10
    ∷ publishing works false 20
        (some (record { name = some (codes "temperature"); text = codes "21" } ∷ []))
    ∷ connected works 30
    ∷ publishing works true 40
        (some (record { name = some (codes "temperature"); text = codes "22" } ∷ []))
    ∷ device_event works true 45 door
    ∷ command works 46 (codes "spBv1.0/plant/NCMD/cam1") [] (record { hash = 0; ms = 0 })
    ∷ disconnected
    ∷ cleanup works false 50
    ∷ []

run-Accepted_example : Accepted host (run plain 0 day node)
run-Accepted_example = run-Accepted plain 0 day node host node-Agrees

topic_matches_iff_example : (topic_matches (codes "a/NCMD/cam1/x") (codes "a/NCMD/cam1") ≡ true) ↔ (
    (is_set (codes "a/NCMD/cam1") ≡ true)
    × ((rest : Str) × (codes "a/NCMD/cam1/x" ≡ codes "a/NCMD/cam1" ++ rest) × Levels rest))
topic_matches_iff_example = topic_matches_iff (codes "a/NCMD/cam1/x") (codes "a/NCMD/cam1")

-- The numbers of the messages of a run, in order.
abbrev seqs : List (Call ℕ) → List ℕ
seqs [] = []
seqs (publish t topic (some s) ms ok ∷ calls) = s ∷ seqs calls
seqs (publish t topic none ms ok ∷ calls) = seqs calls
seqs (set_will topic ms ok ∷ calls) = seqs calls
seqs (clear_will ∷ calls) = seqs calls
seqs (save_bdseq b ∷ calls) = seqs calls

-- The births, the replay of the buffered sample, and the new sample.
session_seqs : seqs (run plain 0 day node).1 ≡ 0 ∷ 1 ∷ 2 ∷ 3 ∷ []
unfolding run step on_preconnect sparkplug_publish take_items take_item find_def index_of str_eq
    snprintf buffer_sample on_connected valid_id plain_id birth_and_replay publish_birth
    device_birth flush_history flush_replay replay_from publish_data on_disconnected
    sparkplug_cleanup on_device_event observe_from on_command
session_seqs = refl
