-- ===== src/Node/SettingsTests.antt =====
-- app/engine/sparkplug.c: new settings at concrete inputs, and the theorems on them there.
use event_engine_acap.Sparkplug.Metric.{Metric}
use event_engine_acap.Prelude.{
  strcase_eq, Option, ℕ, ◌≡◌, refl, true, false, none, some, List, [], ◌∷◌, Str, codes, str_eq,
  snprintf,
}
use event_engine_acap.Node.Buffer.{buffer_sample}
use event_engine_acap.Node.History.{samples}
use event_engine_acap.Node.Replay.{replays}
use event_engine_acap.Prelude.{◌≤◌, length}
use event_engine_acap.Node.State.{spb_max_metrics}
use event_engine_acap.Node.Settings.{
  MetricSetting, Settings, Setup, build_defs, is_usable, carried, new_def,
}
use event_engine_acap.Node.Configure.{with_settings, sparkplug_configure}
use event_engine_acap.Node.Registry.{IsRegistry, with_settings-IsRegistry}
use event_engine_acap.Node.Filters.{Balanced, sparkplug_configure-Balanced}
use event_engine_acap.Sparkplug.Metric.{data_type_from_name, type_in, metric_set_value}
use event_engine_acap.Node.Publishing.{historical}
use event_engine_acap.Node.Fixtures.{plain, works, node}

abbrev setting : Str → MetricSetting
setting name = record {
  name = some name;
  datatype = some (codes "Int32");
  source = none;
  path = [];
  source_key = none;
}

abbrev settings : Settings
settings = record {
  enabled = true;
  is_2_2 = false;
  group_id = codes "plant";
  edge_node_id = codes "cam1";
  device_id = [];
  primary_host_id = codes "scada";
  metrics =
      setting (codes "humidity") ∷ setting (codes "bdSeq") ∷ setting (codes "temperature") ∷ [];
}

abbrev setup : Setup
setup = record {
  node = node;
  is_2_2 = false;
  config_hash = none;
  cmd_topic_node = [];
  cmd_topic_dev = [];
  filters = [] ∷ [] ∷ [] ∷ [];
}

with_settings-IsRegistry_example :
    (length (with_settings 60 settings node).defs ≤ spb_max_metrics)
    × IsRegistry 1 (with_settings 60 settings node).defs
with_settings-IsRegistry_example = with_settings-IsRegistry 60 settings node

sparkplug_configure-Balanced_example :
    let r = sparkplug_configure plain 0 true works 60 none settings setup in
    (length r.0.filters ≡ 3) × Balanced (codes "spBv1.0/STATE/scada") setup.filters r.0.filters r.1
sparkplug_configure-Balanced_example =
    sparkplug_configure-Balanced plain 0 true works 60 (codes "spBv1.0/STATE/scada") none settings
      setup refl

abbrev names : List (Metric ℕ) → List (Option Str)
names [] = []
names (m ∷ ms) = m.name ∷ names ms

-- A sample of the temperature that waits while the settings put the humidity in front is replayed as
-- a humidity.
renamed_sample :
    let n = buffer_sample 0 (codes "21") 100 node in
    (names (replays plain 0 n.defs (samples n)) ≡ some (codes "temperature") ∷ [])
    × (names (
          replays plain 0
            (with_settings 110 settings n).defs
            (samples (with_settings 110 settings n)))
        ≡ some (codes "humidity") ∷ [])
unfolding buffer_sample with_settings build_defs is_usable carried new_def snprintf str_eq
    historical data_type_from_name type_in metric_set_value strcase_eq
renamed_sample = (refl, refl)
