-- ===== src/RuleEngine/Tests.antt =====
-- Runs of the rule engine, and its theorems at concrete inputs.
use event_engine_acap.Prelude.{
  ℕ, ◌+◌, ◌≤◌, ◌≡◌, refl, true, false, if◌then◌else◌, none, some, List, [], ◌∷◌, map, Str, codes,
  str_eq, strcase_eq, str_eq_iff, snprintf, snprintf_or, replicate, length, pos, arith,
}
use event_engine_acap.Cjson.{Json, json, json_laws}
use event_engine_acap.Table.{find_key, occurs}
use event_engine_acap.RuleEngine.Rule.{
  Rule, rule_key, rule_from_json, any_time_window, any_of, and_logic, unknown, no_stamps,
}
use event_engine_acap.RuleEngine.Gates.{Env, Times}
use event_engine_acap.RuleEngine.Store.{rule_engine_init, rule_engine_add}
use event_engine_acap.RuleEngine.Ids.{IsStore, added, rule_engine_add-IsStore}
use event_engine_acap.RuleEngine.LongIds.{rule_engine_add_long}
use event_engine_acap.RuleEngine.Listing.{rules_to_json}
use event_engine_acap.RuleEngine.Saved.{Fits, restored, rule_engine_init-rules_to_json}
use event_engine_acap.RuleEngine.Steps.{Step, trigger, window_tick, firings}
use event_engine_acap.RuleEngine.Runs.{SpacedFrom, firings-SpacedFrom, firings_limit}

-- Every condition holds, and no trigger is active.
abbrev calm : Env Json
calm = record {
  evaluate = λ conditions logic tdata. true;
  evaluate_lightweight = λ conditions logic. true;
  all_currently_active = λ id skip. false;
  any_active = λ id. false;
}

abbrev at : ℕ → Times
at now = record { at_and = now; at_cooldown = now; at_period = now; at_fire = now }

-- A rule with a cooldown of 10 seconds that may fire twice.
abbrev door_rule : Rule Json
door_rule = record {
  id = codes "rule-door";
  name = codes "Door";
  enabled = true;
  triggers_json = json.create_array [];
  conditions_json = json.create_array [];
  actions_json = json.create_array [];
  trigger_logic = any_of;
  condition_logic = and_logic;
  cooldown = pos 10;
  max_executions = pos 2;
  max_exec_period = [];
  trigger_window = pos 0;
  trigger_count = 0;
  last_fired = 0;
  execution_count = 0;
  period_exec_count = 0;
  period_start = 0;
  cond_window_state = unknown;
  trigger_pending = false;
  trigger_fired_at = no_stamps;
  has_time_window = false;
}

abbrev one_rule : List (Rule Json)
one_rule = door_rule ∷ []

abbrev three_triggers : List (Step Json)
three_triggers =
    trigger calm (at 100) (codes "rule-door") (pos 0) none
    ∷ trigger calm (at 105) (codes "rule-door") (pos 0) none
    ∷ trigger calm (at 110) (codes "rule-door") (pos 0) none
    ∷ window_tick calm
    ∷ []

one_rule-IsStore : IsStore one_rule
unfolding occurs
one_rule-IsStore = record {
  distinct = λ k. ground (arith, str_eq_iff (codes "rule-door") k);
  bounded = omega arith;
}

firings-SpacedFrom_example :
    SpacedFrom 0 10 (firings json one_rule (codes "rule-door") three_triggers)
unfolding find_key str_eq
firings-SpacedFrom_example =
    firings-SpacedFrom json three_triggers one_rule (codes "rule-door") door_rule refl refl

firings_limit_example : 0 + length (firings json one_rule (codes "rule-door") three_triggers) ≤ 2
unfolding find_key str_eq
firings_limit_example =
    firings_limit json three_triggers one_rule (codes "rule-door") door_rule refl refl refl
      (omega arith)

-- A body with an id of its own.
abbrev lamp_json : Json
lamp_json = json.add_item json.create_object (codes "id") (json.create_string (codes "rule-lamp"))

abbrev some_uuid : Str
some_uuid = replicate 36 b'u'

abbrev lamp_added : List (Rule Json)
lamp_added = (rule_engine_add json some_uuid one_rule (some lamp_json)).0

rule_engine_add-IsStore_example :
    IsStore lamp_added
    × ((j : Str)
        → find_key rule_key j lamp_added ≡ (
            if str_eq (codes "rule-lamp") j
            then some (added json some_uuid lamp_json)
            else find_key rule_key j one_rule))
unfolding rule_engine_add find_key str_eq strcase_eq rule_from_json snprintf snprintf_or
rule_engine_add-IsStore_example =
    rule_engine_add-IsStore json some_uuid one_rule lamp_added lamp_json (codes "rule-lamp")
      (rule_engine_add json some_uuid one_rule (some lamp_json)).2 one_rule-IsStore (omega arith)
      refl (λ given e. ground arith) refl

abbrev long_id : Str
long_id = replicate 40 b'x'

abbrev long_json : Json
long_json = json.add_item json.create_object (codes "id") (json.create_string long_id)

rule_engine_add_long_example :
    let once = (rule_engine_add json some_uuid one_rule (some long_json)).0 in
    occurs rule_key (snprintf 37 long_id) (rule_engine_add json some_uuid once (some long_json)).0
    ≡ occurs rule_key (snprintf 37 long_id) one_rule + 2
unfolding find_key str_eq strcase_eq
rule_engine_add_long_example =
    rule_engine_add_long json some_uuid some_uuid one_rule long_json long_id refl (omega arith)
      (omega arith) refl

door_rule-Fits : Fits json door_rule
unfolding any_time_window
door_rule-Fits = record {
  id_fits = omega arith;
  name_fits = omega arith;
  period_fits = omega arith;
  cooldown_fits = omega arith;
  executions_fit = omega arith;
  window_fits = omega arith;
  count_fits = refl;
  window_found = refl;
}

rule_engine_init-rules_to_json_example :
    (rule_engine_init json (some (rules_to_json json one_rule)) none).0 ≡ map restored one_rule
rule_engine_init-rules_to_json_example =
    rule_engine_init-rules_to_json json json_laws one_rule none (door_rule-Fits, tt) (omega arith)
