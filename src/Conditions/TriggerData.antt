-- ===== src/Conditions/TriggerData.antt =====
-- app/engine/conditions.c: the condition on a field of the event that fired the rule.
use Prim.Native.Nat.{Ordering}
use event_engine_acap.Prelude.{
  Bool, true, false, ◌&&◌, ◌||◌, not, ◌==◌, if◌then◌else◌, Option, none, some, [], ◌∷◌, Str, codes,
  str_eq, strcmp, lower,
}
use event_engine_acap.Cjson.{Cjson, string_of, is_set}
use event_engine_acap.Node.State.{strstr}
use event_engine_acap.Conditions.Evaluate.{Answers}

-- What is read of an item and of a text beside `Cjson`: whether it is a number, `snprintf` with "%g",
-- and `strtod` with whether it read the whole text; and `Actions_Expand_Template` of app/engine/actions.c,
-- with `none` for its NULL.
pub record Texts (J D : Type 0) : Type 0 where
  pub is_number : J → Bool
  pub format_g : D → Str
  pub strtod : Str → D × Bool
  pub expand_template : Str → J → Option Str

-- `needle` is the start of the text, whatever the case.
unfoldable pub starts_nocase : Str → Str → Bool
starts_nocase hay [] = true
starts_nocase [] (n ∷ needle) = false
starts_nocase (h ∷ hay) (n ∷ needle) = lower h == lower n && starts_nocase hay needle

unfoldable pub contains_nocase : Str → Str → Bool
contains_nocase [] needle = starts_nocase [] needle
contains_nocase (h ∷ hay) needle = starts_nocase (h ∷ hay) needle || contains_nocase hay needle

-- The tests of the sign of `cmp`. An unknown `op` is none of them.
unfoldable pub op_holds : Str → Ordering → Bool
op_holds op cmp =
    if str_eq op (codes "eq")
    then is_eq cmp
    else if str_eq op (codes "ne")
    then not (is_eq cmp)
    else if str_eq op (codes "gt")
    then is_gt cmp
    else if str_eq op (codes "gte")
    then not (is_lt cmp)
    else if str_eq op (codes "lt")
    then is_lt cmp
    else if str_eq op (codes "lte")
    then not (is_gt cmp)
    else false
  where
    is_eq : Ordering → Bool
    is_eq Ordering.lt = false
    is_eq Ordering.eq = true
    is_eq Ordering.gt = false

    is_gt : Ordering → Bool
    is_gt Ordering.lt = false
    is_gt Ordering.eq = false
    is_gt Ordering.gt = true

    is_lt : Ordering → Bool
    is_lt Ordering.lt = true
    is_lt Ordering.eq = false
    is_lt Ordering.gt = false

module _ {J D : Type 0} (c : Cjson J D) (x : Texts J D) where
  -- `actual`, with `none` for an item that is not a string, a Boolean or a number.
  unfoldable pub actual_of : J → Option Str
  actual_of item = elim (c.get_string_value item) [
    | some s ↦ some s
    | none ↦
        if c.is_true item
        then some (codes "true")
        else if c.is_false item
        then some (codes "false")
        else if x.is_number item
        then some (x.format_g (c.valuedouble item))
        else none
  ]

  -- `(da > dv) - (da < dv)`
  abbrev pub compare_numbers : D → D → Ordering
  compare_numbers da dv =
      if c.lt dv da
      then (if c.lt da dv then Ordering.eq else Ordering.gt)
      else (if c.lt da dv then Ordering.lt else Ordering.eq)

  -- Numbers when both sides are numeric, otherwise text.
  unfoldable pub compare_actual : Str → Str → Ordering
  compare_actual actual value =
      let (da, whole_a) = x.strtod actual in
      let (dv, whole_v) = x.strtod value in
      if (is_set actual && is_set value) && (whole_a && whole_v)
      then compare_numbers da dv
      else strcmp actual value

  abbrev pub compare_text : Str → Str → Str → Bool
  compare_text op actual value =
      if str_eq op (codes "contains")
      then contains_nocase actual value
      else if str_eq op (codes "not_contains")
      then not (contains_nocase actual value)
      else op_holds op (compare_actual actual value)

  abbrev pub compare_some : Str → Str → Option Str → Bool
  compare_some op value none = false
  compare_some op value (some actual) = compare_text op actual value

  unfoldable pub trigger_data_compare : J → Str → Str → Bool
  trigger_data_compare item op value = compare_some op value (actual_of item)

  abbrev pub or_template : Str → Option Str → Str
  or_template template none = template
  or_template template (some text) = text

  -- The value, whose templates are expanded.
  abbrev pub value_of : Str → J → Str
  value_of template tdata =
      let expanded = or_template template (x.expand_template template tdata) in
      if strstr template (codes "{{") then expanded else template

  abbrev pub compare_field : Str → Str → J → Option J → Bool
  compare_field op template tdata none = false
  compare_field op template tdata (some item) =
      trigger_data_compare item op (value_of template tdata)

  abbrev pub compare_key : Option Str → Option Str → Option Str → Option J → Bool
  compare_key (some key) (some op) (some template) (some tdata) =
      if is_set key then compare_field op template tdata (c.get_object_item tdata key) else false
  compare_key _ _ _ _ = false

  unfoldable pub cond_trigger_data : J → Option J → Bool
  cond_trigger_data cfg tdata =
      compare_key (string_of c cfg (codes "key")) (string_of c cfg (codes "op"))
        (string_of c cfg (codes "value")) tdata

  -- The answers with that of this condition.
  abbrev pub with_trigger_data : Answers J → Answers J
  with_trigger_data a = record a { trigger_data = cond_trigger_data }
