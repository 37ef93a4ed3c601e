-- ===== src/Node/State.antt =====
-- app/engine/sparkplug.c: the state of the edge node, its names and its topics.
use event_engine_acap.Prelude.{
  ℕ, Bool, true, false, ◌&&◌, ◌||◌, ◌==◌, if◌then◌else◌, Option, none, some, List, [], ◌∷◌, ◌++◌,
  Str, codes, str_eq, snprintf,
}
use event_engine_acap.Table.{index_of}

-- `SPB_MAX_METRICS`, `SPB_HISTORY_MAX` and `SPB_VALUE_LEN`
abbrev pub spb_max_metrics : ℕ
spb_max_metrics = 128

abbrev pub spb_history_max : ℕ
spb_history_max = 256

abbrev pub spb_value_len : ℕ
spb_value_len = 256

-- Where the value of a metric comes from, if it is bound to a device event.
pub record Source : Type 0 where
  pub path : Str
  pub key : Str

pub record MetricDef : Type 0 where
  pub name : Str
  pub datatype : ℕ
  pub alias : ℕ
  pub source : Option Source
  pub value : Str
  pub has_value : Bool
  pub value_ts : ℕ

pub record Sample : Type 0 where
  pub def_idx : ℕ
  pub value : Str
  pub ts : ℕ

-- The static variables of the node. The definitions in use are a list, and its length is `def_count`.
pub record Node : Type 0 where
  pub initialized : Bool
  pub enabled : Bool
  pub group_id : Str
  pub edge_node_id : Str
  pub device_id : Str
  pub primary_host : Str
  pub defs : List MetricDef
  pub history : List Sample
  pub hist_head : ℕ
  pub hist_count : ℕ
  pub bdseq : ℕ
  pub seq : ℕ
  pub birth_sent : Bool
  pub data_published : ℕ
  pub last_birth_ms : ℕ
  pub host_online : Bool

-- Neither a separator of topics nor a wildcard.
unfoldable pub plain_id : Str → Bool
plain_id [] = true
plain_id (c ∷ s) = if (c == b'/' || c == b'+') || c == b'#' then false else plain_id s

abbrev pub is_set : Str → Bool
is_set [] = false
is_set (c ∷ s) = true

unfoldable pub valid_id : Str → Bool
valid_id s = is_set s && plain_id s

-- `enabled && valid_id(group_id) && valid_id(edge_node_id)`
abbrev pub is_active : Node → Bool
is_active n = (n.enabled && valid_id n.group_id) && valid_id n.edge_node_id

-- The types of messages.
pub data MsgType : Type 0 where
  nbirth dbirth ndata ddata ndeath : MsgType

unfoldable pub type_name : MsgType → Str
type_name nbirth = codes "NBIRTH"
type_name dbirth = codes "DBIRTH"
type_name ndata = codes "NDATA"
type_name ddata = codes "DDATA"
type_name ndeath = codes "NDEATH"

-- `msgtype[0] == 'D'`
abbrev pub of_device : MsgType → Bool
of_device dbirth = true
of_device ddata = true
of_device nbirth = false
of_device ndata = false
of_device ndeath = false

-- The parts of a topic with a slash between them.
abbrev pub slashed : List Str → Str
slashed [] = []
slashed (s ∷ []) = s
slashed (s ∷ t ∷ rest) = s ++ (b'/' ∷ slashed (t ∷ rest))

-- `out` has 512 bytes.
unfoldable pub build_topic : Node → MsgType → Str
build_topic n t =
    if is_set n.device_id && of_device t
    then snprintf 512
        (slashed (codes "spBv1.0" ∷ n.group_id ∷ type_name t ∷ n.edge_node_id ∷ n.device_id ∷ []))
    else snprintf 512 (slashed (codes "spBv1.0" ∷ n.group_id ∷ type_name t ∷ n.edge_node_id ∷ []))

-- The index of the definition, which the source returns as a pointer.
unfoldable pub find_def : Option Str → List MetricDef → Option ℕ
find_def none defs = none
find_def (some name) defs = index_of (λ def. str_eq def.name name) defs

-- `topic` is the prefix, or a level below it. `SPB_TOPIC_LEN` bounds both.
unfoldable pub below_prefix : Str → Str → Bool
below_prefix [] [] = true
below_prefix (c ∷ topic) [] = c == b'/'
below_prefix [] (p ∷ prefix) = false
below_prefix (c ∷ topic) (p ∷ prefix) = c == p && below_prefix topic prefix

unfoldable pub topic_matches : Str → Str → Bool
topic_matches topic prefix = is_set prefix && below_prefix topic prefix

-- `strncmp(s, word, strlen(word)) == 0`, and `strstr(s, word) != NULL`
unfoldable pub starts_with : Str → Str → Bool
starts_with s [] = true
starts_with [] (w ∷ word) = false
starts_with (c ∷ s) (w ∷ word) = c == w && starts_with s word

unfoldable pub strstr : Str → Str → Bool
strstr [] word = starts_with [] word
strstr (c ∷ s) word = starts_with (c ∷ s) word || strstr s word
