-- ===== src/Node/Replay.antt =====
-- app/engine/sparkplug.c: what the samples of an outage become when the host is back.
use event_engine_acap.Prelude.{ℕ, Bool, if◌then◌else◌, some, List, [], ◌∷◌, Str, get_elem?}
use event_engine_acap.Sparkplug.Metric.{Numbers, Metric}
use event_engine_acap.Node.State.{MetricDef, Sample, Node, MsgType, build_topic}
use event_engine_acap.Node.Buffer.{taken, buffer_sample, data_type}
use event_engine_acap.Node.Publishing.{Call, publish, with_sample}

-- The samples of an outage, each with its definition, its text and its time.
abbrev pub buffer_all : List (ℕ × Str × ℕ) → Node → Node
buffer_all [] n = n
buffer_all ((i, value, ts) ∷ rest) n = buffer_all rest (buffer_sample i value ts n)

abbrev pub taken_all : List (ℕ × Str × ℕ) → List Sample
taken_all [] = []
taken_all ((i, value, ts) ∷ rest) = taken i value ts ∷ taken_all rest

abbrev with_ring : Node → Node → Node
with_ring n n' = record n {
  history = n'.history;
  hist_head = n'.hist_head;
  hist_count = n'.hist_count;
}

module _ {D : Type 0} (d : Numbers D) (zero_dbl : D) where
  -- The metrics of the samples whose definition is there.
  abbrev pub replays : List MetricDef → List Sample → List (Metric D)
  replays defs [] = []
  replays defs (s ∷ ss) = with_sample d zero_dbl (get_elem? defs s.def_idx) s (replays defs ss)

  -- What a replay of these metrics asks for, and what is kept after it.
  abbrev pub replay_calls : (MsgType → Bool) → Node → List (Metric D) → List (Call D)
  replay_calls works n [] = []
  replay_calls works n (m ∷ ms) =
      let t = data_type n in publish t (build_topic n t) (some n.seq) (m ∷ ms) (works t) ∷ []

  abbrev pub kept : (MsgType → Bool) → Node → List (Metric D) → List Sample → List Sample
  kept works n [] ss = []
  kept works n (m ∷ ms) ss = if works (data_type n) then [] else ss
