-- ===== src/Node/Settings.antt =====
-- app/engine/sparkplug.c: the settings of the node, its command topics and its list of metrics.
use Prim.Native.Nat.{bit_xor}
use event_engine_acap.Prelude.{
  ℕ, ◌+◌, ◌*◌, ◌%◌, ◌^◌, Bool, true, false, ◌&&◌, ◌||◌, not, leb, ◌==◌, if◌then◌else◌, Option, none,
  some, List, [], ◌∷◌, ◌++◌, Str, codes, str_eq, snprintf,
}
use event_engine_acap.Sparkplug.Metric.{data_type_from_name}
use event_engine_acap.Node.State.{
  spb_max_metrics, spb_value_len, Source, MetricDef, Node, is_set, valid_id,
}

-- A metric of the settings, with what is read of it: `source` is the path of a topic object that is
-- not empty, and `path` what `source_to_path` makes of any.
pub record MetricSetting : Type 0 where
  pub name : Option Str
  pub datatype : Option Str
  pub source : Option Str
  pub path : Str
  pub source_key : Option Str

-- The settings, with a string that is missing as an empty one.
pub record Settings : Type 0 where
  pub enabled : Bool
  pub is_2_2 : Bool
  pub group_id : Str
  pub edge_node_id : Str
  pub device_id : Str
  pub primary_host_id : Str
  pub metrics : List MetricSetting

-- The node with the variables that only the configuration reads: the version 2.2 of the
-- specification, the hash of the settings, and the topics and filters of the commands.
pub record Setup : Type 0 where
  pub node : Node
  pub is_2_2 : Bool
  pub config_hash : Option ℕ
  pub cmd_topic_node : Str
  pub cmd_topic_dev : Str
  pub filters : List Str

-- `h *= 1099511628211`
abbrev pub hash_byte : ℕ → ℕ → ℕ
hash_byte h b = bit_xor h b * 1099511628211 % 2 ^ 64

unfoldable pub hash_field : ℕ → Str → ℕ
hash_field h [] = hash_byte h 0xFF
hash_field h (b ∷ s) = hash_field (hash_byte h b) s

abbrev pub str_or_empty : Option Str → Str
str_or_empty none = []
str_or_empty (some s) = s

abbrev pub bit_text : Bool → Str
bit_text true = codes "1"
bit_text false = codes "0"

unfoldable pub hash_fields : ℕ → List Str → ℕ
hash_fields h [] = h
hash_fields h (s ∷ rest) = hash_fields (hash_field h s) rest

abbrev pub hashed_metrics : List MetricSetting → List Str
hashed_metrics [] = []
hashed_metrics (m ∷ ms) =
    str_or_empty m.name
    ∷ str_or_empty m.datatype
    ∷ str_or_empty m.source_key
    ∷ m.path
    ∷ hashed_metrics ms

unfoldable pub settings_hash : Settings → ℕ
settings_hash s =
    let versions = bit_text s.enabled ++ (b'|' ∷ bit_text (not s.is_2_2)) in
    hash_fields 1469598103934665603 (
      versions
      ∷ s.group_id
      ∷ s.edge_node_id
      ∷ s.device_id
      ∷ s.primary_host_id
      ∷ hashed_metrics s.metrics)

-- The strings cut to their buffers, with the serial number of the device for a node without a name.
-- Names that cannot be levels of a topic disable the node, or are left out.
unfoldable pub settle : Option Str → Settings → Settings
settle serial cfg =
    let group = snprintf 128 cfg.group_id in
    let given = snprintf 128 cfg.edge_node_id in
    let node = if is_set given then given else snprintf 128 (str_or_empty serial) in
    let device = snprintf 128 cfg.device_id in
    record cfg {
      enabled = (cfg.enabled && valid_id group) && valid_id node;
      group_id = group;
      edge_node_id = node;
      device_id = if valid_id device then device else [];
      primary_host_id = snprintf 128 cfg.primary_host_id;
    }

abbrev pub differs : Bool → Bool → Bool
differs true b = not b
differs false b = b

unfoldable pub identity_changed : Settings → Setup → Bool
identity_changed s u =
    differs s.enabled u.node.enabled
    || (not (str_eq s.group_id u.node.group_id)
        || (not (str_eq s.edge_node_id u.node.edge_node_id)
            || (not (str_eq s.device_id u.node.device_id)
                || (not (str_eq s.primary_host_id u.node.primary_host)
                    || differs s.is_2_2 u.is_2_2))))

-- A name of the settings that the list takes: not empty, and not one of the two of the specification.
abbrev pub is_reserved : Str → Bool
is_reserved name = str_eq name (codes "bdSeq") || str_eq name (codes "Node Control/Rebirth")

unfoldable pub is_usable : Option Str → Bool
is_usable none = false
is_usable (some name) = is_set name && not (is_reserved name)

-- The value that the first metric of that name had, if it had one.
unfoldable pub carried : List MetricDef → Str → Option Str
carried [] name = none
carried (p ∷ prev) name =
    if str_eq p.name name && p.has_value then some p.value else carried prev name

abbrev pub or_state : Option Str → Str
or_state none = codes "state"
or_state (some []) = codes "state"
or_state (some (c ∷ s)) = c ∷ s

abbrev pub source_of : MetricSetting → Option Source
source_of m = elim m.source [
  | none ↦ none
  | some path ↦ some (record { path = path; key = snprintf 64 (or_state m.source_key) })
]

abbrev pub or_string : ℕ → ℕ
or_string dt = if dt == 0 then 12 else dt

abbrev pub with_carried : ℕ → Option Str → MetricDef → MetricDef
with_carried now none def = def
with_carried now (some value) def = record def {
  value = snprintf spb_value_len value;
  has_value = true;
  value_ts = now;
}

-- The metric at the index `count`.
unfoldable pub new_def : List MetricDef → ℕ → ℕ → MetricSetting → MetricDef
new_def prev now count m =
    let name = snprintf 128 (str_or_empty m.name) in
    with_carried now (carried prev name) (record {
      name = name;
      datatype = or_string (data_type_from_name m.datatype);
      alias = count + 1;
      source = source_of m;
      value = [];
      has_value = false;
      value_ts = 0;
    })

-- The loop over the metrics of the settings, from the index `count` on.
unfoldable pub build_defs : List MetricDef → ℕ → ℕ → List MetricSetting → List MetricDef
build_defs prev now count [] = []
build_defs prev now count (m ∷ ms) =
    let skip = build_defs prev now count ms in
    let take = new_def prev now count m ∷ build_defs prev now (count + 1) ms in
    if leb spb_max_metrics count then [] else if is_usable m.name then take else skip
