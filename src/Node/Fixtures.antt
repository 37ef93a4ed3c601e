-- ===== src/Node/Fixtures.antt =====
-- app/engine/sparkplug.c: a node and numbers for the runs at concrete inputs.
use event_engine_acap.Prelude.{ℕ, Bool, true, false, none, [], ◌∷◌, codes, replicate}
use event_engine_acap.Sparkplug.Metric.{Numbers}
use event_engine_acap.Node.State.{spb_history_max, Node, MetricDef, MsgType}
use event_engine_acap.Node.Buffer.{no_sample}

-- Numbers whose reading and printing the runs do not look at.
abbrev pub plain : Numbers ℕ
plain = record {
  float_bits = λ x. x;
  double_bits = λ x. x;
  print_float = λ x. [];
  print_double = λ x. [];
  print_i64 = λ x. [];
  print_u64 = λ x. [];
  strtod = λ s. 0;
  i64_of = λ x. x;
  u64_of = λ x. x;
  strtoll = λ s. 0;
  strtoull = λ s. 0;
}

abbrev pub works : MsgType → Bool
works t = true

abbrev pub temperature : MetricDef
temperature = record {
  name = codes "temperature";
  datatype = 12;
  alias = 1;
  source = none;
  value = [];
  has_value = false;
  value_ts = 0;
}

abbrev pub node : Node
node = record {
  initialized = true;
  enabled = true;
  group_id = codes "plant";
  edge_node_id = codes "cam1";
  device_id = codes "lens";
  primary_host = [];
  defs = temperature ∷ [];
  history = replicate spb_history_max no_sample;
  hist_head = 0;
  hist_count = 0;
  bdseq = 7;
  seq = 255;
  birth_sent = false;
  data_published = 0;
  last_birth_ms = 0;
  host_online = true;
}
