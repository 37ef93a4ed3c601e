-- ===== src/Node/Configure.antt =====
-- app/engine/sparkplug.c: the subscriptions of the node, and new settings.
use event_engine_acap.Prelude.{
  ℕ, Bool, true, false, ◌&&◌, ◌||◌, not, ◌==◌, if◌then◌else◌, Option, none, some, List, [], ◌∷◌,
  ◌++◌, map, Str, codes, str_eq, snprintf,
}
use event_engine_acap.Sparkplug.Metric.{Numbers}
use event_engine_acap.Node.State.{MsgType, Node, is_set, is_active, slashed}
use event_engine_acap.Node.Publishing.{Call, clear_will, publish_birth}
use event_engine_acap.Node.Settings.{
  Settings, Setup, settle, settings_hash, identity_changed, build_defs,
}

-- What the configuration asks of the other parts of the program.
pub data Request (D : Type 0) : Type 0 where
  subscribe : Str → Request D
  unsubscribe : Str → Request D
  resubscribe_events : Request D
  force_reconnect : Request D
  call : Call D → Request D

-- The topics of the commands to the node and to its device. `SPB_TOPIC_LEN` is 512.
unfoldable pub node_command_topic : Node → Str
node_command_topic n =
    if is_active n
    then snprintf 512 (slashed (codes "spBv1.0" ∷ n.group_id ∷ codes "NCMD" ∷ n.edge_node_id ∷ []))
    else []

unfoldable pub device_command_topic : Node → Str
device_command_topic n =
    if is_active n && is_set n.device_id
    then snprintf 512
        (slashed (codes "spBv1.0" ∷ n.group_id ∷ codes "DCMD" ∷ n.edge_node_id ∷ n.device_id ∷ []))
    else []

unfoldable pub state_topic : Bool → Node → Str
state_topic is_2_2 n =
    if is_active n && is_set n.primary_host
    then (if is_2_2
        then snprintf 512 (slashed (codes "STATE" ∷ n.primary_host ∷ []))
        else snprintf 512 (slashed (codes "spBv1.0" ∷ codes "STATE" ∷ n.primary_host ∷ [])))
    else []

-- `node`, `dev` and `state` of `update_command_subscriptions`
unfoldable pub wanted_filters : Bool → Node → List Str
wanted_filters is_2_2 n =
    let all_levels = snprintf 512 (node_command_topic n ++ codes "/#") in
    (if is_active n then all_levels else []) ∷ device_command_topic n ∷ state_topic is_2_2 n ∷ []

module _ {D : Type 0} where
  -- A round of the loop over `subs`: nothing for a filter that stays.
  unfoldable pub change_filter : Str → Str → List (Request D)
  change_filter cur next =
      if str_eq cur next
      then []
      else (if is_set cur then unsubscribe cur ∷ [] else [])
        ++ (if is_set next then subscribe next ∷ [] else [])

  unfoldable pub change_filters : List Str → List Str → List (Request D)
  change_filters [] nexts = []
  change_filters (cur ∷ curs) [] = []
  change_filters (cur ∷ curs) (next ∷ nexts) = change_filter cur next ++ change_filters curs nexts

-- The settings in use, and the list of metrics built anew. `now` is the time.
unfoldable pub with_settings : ℕ → Settings → Node → Node
with_settings now s n = record n {
  enabled = s.enabled;
  group_id = s.group_id;
  edge_node_id = s.edge_node_id;
  device_id = s.device_id;
  primary_host = s.primary_host_id;
  host_online =
      if not (is_set s.primary_host_id) || not (str_eq s.primary_host_id n.primary_host)
      then true
      else n.host_online;
  defs = build_defs n.defs now 0 s.metrics;
}

module _ {D : Type 0} (d : Numbers D) (zero_dbl : D) where
  -- The end of `Sparkplug_Configure`.
  unfoldable pub after_settings :
      Bool → (MsgType → Bool) → ℕ → Bool → Node → Node × List (Request D)
  after_settings connected works now changed n =
      let birth = publish_birth d zero_dbl works now n in
      if not n.enabled
      then (record n { birth_sent = false }, call clear_will ∷ [])
      else (if changed && connected
          then (n, force_reconnect ∷ [])
          else (if connected then (birth.0, map call birth.1) else (n, [])))

  abbrev pub is_hash : Option ℕ → ℕ → Bool
  is_hash none h = false
  is_hash (some h') h = h == h'

  -- `Sparkplug_Configure` with the settings that `settle` leaves.
  unfoldable pub apply_settings :
      Bool → (MsgType → Bool) → ℕ → Settings → Setup → Setup × List (Request D)
  apply_settings connected works now s u =
      let n = with_settings now s u.node in
      let filters = wanted_filters s.is_2_2 n in
      let after = after_settings connected works now (identity_changed s u) n in
      (
        record {
          node = after.0;
          is_2_2 = s.is_2_2;
          config_hash = some (settings_hash s);
          cmd_topic_node = node_command_topic n;
          cmd_topic_dev = device_command_topic n;
          filters = filters;
        },
        change_filters u.filters filters ++ (resubscribe_events ∷ after.1),
      )

  unfoldable pub sparkplug_configure :
      Bool → (MsgType → Bool) → ℕ → Option Str → Settings → Setup → Setup × List (Request D)
  sparkplug_configure connected works now serial cfg u =
      let s = settle serial cfg in
      if is_hash u.config_hash (settings_hash s)
      then (u, [])
      else apply_settings connected works now s u
