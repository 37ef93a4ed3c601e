-- ===== src/RuleEngine/Rule.antt =====
-- app/engine/rule_engine.c: a rule, and its JSON forms. `J` is a JSON tree; times are seconds.
use event_engine_acap.Prelude.{
  ℕ, Bool, true, false, ltb, if◌then◌else◌, Option, none, some, List, [], ◌∷◌, Str, codes, str_eq,
  snprintf_or, length, replicate, ℤ, pos,
}
use event_engine_acap.Cjson.{Cjson, string_of, number_or}

-- `MAX_RULES` and `MAX_TRIGGERS_PER_RULE`
abbrev pub max_rules : ℕ
max_rules = 256

abbrev pub max_triggers_per_rule : ℕ
max_triggers_per_rule = 16

-- `trigger_logic`: 0, 1 and 2
pub data TriggerLogic : Type 0 where
  any_of all_of all_active : TriggerLogic

-- `condition_logic`: 0 and 1
pub data ConditionLogic : Type 0 where
  and_logic or_logic : ConditionLogic

-- `cond_window_state`: -1, 0 and 1
pub data WindowState : Type 0 where
  unknown closed opened : WindowState

pub record Rule (J : Type 0) : Type 0 where
  pub id : Str
  pub name : Str
  pub enabled : Bool
  pub triggers_json : J
  pub conditions_json : J
  pub actions_json : J
  pub trigger_logic : TriggerLogic
  pub condition_logic : ConditionLogic
  pub cooldown : ℤ
  pub max_executions : ℤ
  pub max_exec_period : Str
  pub trigger_window : ℤ
  pub trigger_count : ℕ
  pub last_fired : ℕ
  pub execution_count : ℕ
  pub period_exec_count : ℕ
  pub period_start : ℕ
  pub cond_window_state : WindowState
  pub trigger_pending : Bool
  pub trigger_fired_at : List ℕ
  pub has_time_window : Bool

abbrev pub rule_key : {J : Type 0} → Rule J → Str
rule_key r = r.id

-- `memset(r->trigger_fired_at, 0, …)`
abbrev pub no_stamps : List ℕ
no_stamps = replicate max_triggers_per_rule 0

unfoldable pub logic_of : Option Str → TriggerLogic
logic_of none = any_of
logic_of (some tl) =
    if str_eq tl (codes "AND")
    then all_of
    else if str_eq tl (codes "AND_ACTIVE")
    then all_active
    else any_of

unfoldable pub condition_logic_of : Option Str → ConditionLogic
condition_logic_of none = and_logic
condition_logic_of (some cl) = if str_eq cl (codes "OR") then or_logic else and_logic

abbrev pub logic_text : TriggerLogic → Str
logic_text any_of = codes "OR"
logic_text all_of = codes "AND"
logic_text all_active = codes "AND_ACTIVE"

abbrev pub condition_logic_text : ConditionLogic → Str
condition_logic_text and_logic = codes "AND"
condition_logic_text or_logic = codes "OR"

module _ {J D : Type 0} (c : Cjson J D) where
  -- `cJSON_GetObjectItem`, or a new array in its place
  abbrev pub array_of : J → Str → J
  array_of obj key = elim (c.get_object_item obj key) [
    | none ↦ c.create_array []
    | some item ↦ item
  ]

  abbrev pub is_text : Option Str → Str → Bool
  is_text none s = false
  is_text (some t) s = str_eq t s

  -- The loop that looks for a condition of type `time_window`.
  unfoldable pub any_time_window : List J → Bool
  any_time_window [] = false
  any_time_window (item ∷ rest) =
      if is_text (string_of c item (codes "type")) (codes "time_window")
      then true
      else any_time_window rest

  -- `!(en && cJSON_IsFalse(en))`
  abbrev pub enabled_of : J → Bool
  enabled_of obj = elim (c.get_object_item obj (codes "enabled")) [
    | none ↦ true
    | some en ↦ if c.is_false en then false else true
  ]

  unfoldable pub rule_from_json : J → Rule J
  rule_from_json obj =
      let triggers = array_of obj (codes "triggers") in
      let conditions = array_of obj (codes "conditions") in
      let count = length (c.children triggers) in
      record {
        id = snprintf_or 37 (string_of c obj (codes "id")) [];
        name = snprintf_or 128 (string_of c obj (codes "name")) (codes "Unnamed Rule");
        enabled = enabled_of obj;
        triggers_json = triggers;
        conditions_json = conditions;
        actions_json = array_of obj (codes "actions");
        trigger_logic = logic_of (string_of c obj (codes "trigger_logic"));
        condition_logic = condition_logic_of (string_of c obj (codes "condition_logic"));
        cooldown = number_or c obj (codes "cooldown") (pos 0);
        max_executions = number_or c obj (codes "max_executions") (pos 0);
        max_exec_period = snprintf_or 8 (string_of c obj (codes "max_exec_period")) [];
        trigger_window = number_or c obj (codes "trigger_window") (pos 0);
        trigger_count = if ltb max_triggers_per_rule count then max_triggers_per_rule else count;
        last_fired = 0;
        execution_count = 0;
        period_exec_count = 0;
        period_start = 0;
        cond_window_state = unknown;
        trigger_pending = false;
        trigger_fired_at = no_stamps;
        has_time_window = any_time_window (c.children conditions);
      }
