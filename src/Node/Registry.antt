-- ===== src/Node/Registry.antt =====
-- app/engine/sparkplug.c: the list of metrics and the subscriptions after new settings.
use event_engine_acap.Prelude.{
  ℕ, ◌+◌, ◌≤◌, ◌<◌, ◌≡◌, refl, sym, ap, ◌∙◌, inl, inr, true, false, leb, ◌==◌, Option, none, some,
  List, [], ◌∷◌, Str, codes, str_eq, eq_of_str_eq, snprintf, length, take, length-take, take_all,
  arith, Bool-cases,
}
use event_engine_acap.Sparkplug.Metric.{data_type_from_name}
use event_engine_acap.Node.State.{spb_max_metrics, MetricDef, Node, is_set}
use event_engine_acap.Node.Settings.{
  MetricSetting, is_usable, is_reserved, carried, with_carried, or_string, new_def, build_defs,
  str_or_empty,
}
use event_engine_acap.Node.Settings.{Settings, source_of}
use event_engine_acap.Node.Configure.{with_settings}
use event_engine_acap.Node.State.{Node}

-- The aliases count up from `k`, and every metric has a name that fits, is its own, and a datatype.
abbrev pub IsRegistry : ℕ → List MetricDef → Type 0
IsRegistry k [] = Unit
IsRegistry k (def ∷ defs) =
    (def.alias ≡ k)
    × (is_set def.name ≡ true)
    × (is_reserved def.name ≡ false)
    × (length def.name < 128)
    × (0 < def.datatype)
    × IsRegistry (k + 1) defs

-- A name that is cut is none of the short ones.
cut-ne :
    (name w : Str) → length w < 127 → str_eq name w ≡ false → str_eq (snprintf 128 name) w ≡ false
unfolding snprintf
cut-ne name w h e = elim (Bool-cases (str_eq (take 127 name) w)) [
  | inr f ↦ f
  | inl t ↦
      let cut : take 127 name ≡ w = eq_of_str_eq (take 127 name) w t in
      let whole : take 127 name ≡ name =
        take_all 127 name (omega (arith, length-take 127 name, ap length cut)) in
      let same : str_eq name w ≡ true = ap (λ x. str_eq x w) (sym whole) ∙ t in ground arith
]

length-name : (name : Str) → length (snprintf 128 name) < 128
unfolding snprintf
length-name name = omega (arith, length-take 127 name)

set_name : (name : Str) → is_set name ≡ true → is_set (snprintf 128 name) ≡ true
unfolding snprintf
set_name [] h = h
set_name (c ∷ s) h = refl

usable_name :
    (o : Option Str)
    → is_usable o ≡ true
    → (is_set (snprintf 128 (str_or_empty o)) ≡ true)
      × (is_reserved (snprintf 128 (str_or_empty o)) ≡ false)
unfolding is_usable
usable_name none h = ground arith
usable_name (some name) h = (
  set_name name (ground arith),
  rw
      (
        cut-ne name (codes "bdSeq") (omega arith) (ground arith),
        cut-ne name (codes "Node Control/Rebirth") (omega arith) (ground arith),
      )
      refl,
)

with_carried-same :
    (now : ℕ) (value : Option Str) (def : MetricDef)
    → let def' = with_carried now value def in
      (def'.name ≡ def.name) × (def'.alias ≡ def.alias) × (def'.datatype ≡ def.datatype)
with_carried-same now none def = (refl, refl, refl)
with_carried-same now (some value) def = (refl, refl, refl)

or_string-set : (dt : ℕ) → 0 < or_string dt
or_string-set dt = elim (Bool-cases (dt == 0)) [
  | inl e ↦ rw e (omega arith)
  | inr e ↦ rw e (ground arith)
]

new_def-IsRegistry :
    (prev : List MetricDef) (now count : ℕ) (m : MetricSetting) (rest : List MetricDef)
    → is_usable m.name ≡ true
    → IsRegistry (count + 1 + 1) rest
    → IsRegistry (count + 1) (new_def prev now count m ∷ rest)
unfolding new_def
new_def-IsRegistry prev now count m rest h r =
    let name = snprintf 128 (str_or_empty m.name) in
    let (named, own) = usable_name m.name h in
    let def : MetricDef = record {
      name = name;
      datatype = or_string (data_type_from_name m.datatype);
      alias = count + 1;
      source = source_of m;
      value = [];
      has_value = false;
      value_ts = 0;
    } in
    let (e, e', e'') = with_carried-same now (carried prev name) def in
    (
      e',
      ap is_set e ∙ named,
      ap is_reserved e ∙ own,
      rw e (length-name (str_or_empty m.name)),
      rw e'' (or_string-set (data_type_from_name m.datatype)),
      r,
    )

build_defs-IsRegistry :
    (prev : List MetricDef) (now count : ℕ) (ms : List MetricSetting)
    → count ≤ spb_max_metrics
    → (count + length (build_defs prev now count ms) ≤ spb_max_metrics)
      × IsRegistry (count + 1) (build_defs prev now count ms)
unfolding build_defs
build_defs-IsRegistry prev now count [] h = (omega arith, tt)
build_defs-IsRegistry prev now count (m ∷ ms) h = elim (Bool-cases (leb spb_max_metrics count)) [
  | inl full ↦ rw full (omega arith, tt)
  | inr room ↦ elim (Bool-cases (is_usable m.name)) [
    | inr skip ↦ rw (room, skip) (build_defs-IsRegistry prev now count ms h)
    | inl use' ↦
        let (bound, rest) = build_defs-IsRegistry prev now (count + 1) ms (ground arith) in
        rw (room, use') (omega arith, new_def-IsRegistry prev now count m _ use' rest)
  ]
]

-- The list of metrics that new settings leave has at most `SPB_MAX_METRICS` of them, with the aliases
-- 1, 2, 3 in order, and each has a name that is not empty, fits its buffer, is not one
-- of the two that the specification keeps, and a known datatype.
pub with_settings-IsRegistry :
    (now : ℕ) (s : Settings) (n : Node)
    → (length (with_settings now s n).defs ≤ spb_max_metrics)
      × IsRegistry 1 (with_settings now s n).defs
unfolding with_settings
with_settings-IsRegistry now s n =
    let (bound, registry) = build_defs-IsRegistry n.defs now 0 s.metrics (omega arith) in
    (omega arith, registry)
