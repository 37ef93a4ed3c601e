-- ===== src/RuleEngine/Fields.antt =====
-- app/engine/rule_engine.c: the fields of a rule in its JSON object.
use event_engine_acap.Prelude.{◌≡◌, some, codes, strcase_eq, is_pos, arith}
use event_engine_acap.Cjson.{Cjson, CjsonLaws, is_set, when, get-add_some}
use event_engine_acap.RuleEngine.Rule.{Rule, logic_text, condition_logic_text}
use event_engine_acap.RuleEngine.Listing.{rule_to_json}

module _ {J D : Type 0} (c : Cjson J D) (laws : CjsonLaws c) (r : Rule J) where
  pub get_id : c.get_object_item (rule_to_json c r) (codes "id") ≡ some (c.create_string r.id)
  unfolding rule_to_json strcase_eq
  get_id = simp (get-add_some c laws, laws.get_added, laws.get_created)

  pub get_name : c.get_object_item (rule_to_json c r) (codes "name") ≡ some (c.create_string r.name)
  unfolding rule_to_json strcase_eq
  get_name = simp (get-add_some c laws, laws.get_added, laws.get_created)

  pub get_enabled :
      c.get_object_item (rule_to_json c r) (codes "enabled") ≡ some (c.create_bool r.enabled)
  unfolding rule_to_json strcase_eq
  get_enabled = simp (get-add_some c laws, laws.get_added, laws.get_created)

  pub get_triggers : c.get_object_item (rule_to_json c r) (codes "triggers") ≡ some r.triggers_json
  unfolding rule_to_json strcase_eq
  get_triggers = simp (get-add_some c laws, laws.get_added, laws.get_created)

  pub get_conditions :
      c.get_object_item (rule_to_json c r) (codes "conditions") ≡ some r.conditions_json
  unfolding rule_to_json strcase_eq
  get_conditions = simp (get-add_some c laws, laws.get_added, laws.get_created)

  pub get_actions : c.get_object_item (rule_to_json c r) (codes "actions") ≡ some r.actions_json
  unfolding rule_to_json strcase_eq
  get_actions = simp (get-add_some c laws, laws.get_added, laws.get_created)

  pub get_trigger_logic :
      c.get_object_item (rule_to_json c r) (codes "trigger_logic")
      ≡ some (c.create_string (logic_text r.trigger_logic))
  unfolding rule_to_json strcase_eq
  get_trigger_logic = simp (get-add_some c laws, laws.get_added, laws.get_created)

  pub get_condition_logic :
      c.get_object_item (rule_to_json c r) (codes "condition_logic")
      ≡ some (c.create_string (condition_logic_text r.condition_logic))
  unfolding rule_to_json strcase_eq
  get_condition_logic = simp (get-add_some c laws, laws.get_added, laws.get_created)

  pub get_cooldown :
      c.get_object_item (rule_to_json c r) (codes "cooldown")
      ≡ some (c.create_number (c.of_ℤ r.cooldown))
  unfolding rule_to_json strcase_eq
  get_cooldown = simp (get-add_some c laws, laws.get_added, laws.get_created)

  pub get_max_executions :
      c.get_object_item (rule_to_json c r) (codes "max_executions")
      ≡ some (c.create_number (c.of_ℤ r.max_executions))
  unfolding rule_to_json strcase_eq
  get_max_executions = simp (get-add_some c laws, laws.get_added, laws.get_created)

  pub get_max_exec_period :
      c.get_object_item (rule_to_json c r) (codes "max_exec_period")
      ≡ when (is_set r.max_exec_period) (c.create_string r.max_exec_period)
  unfolding rule_to_json strcase_eq
  get_max_exec_period = simp (get-add_some c laws, laws.get_added, laws.get_created) (ground arith)

  pub get_trigger_window :
      c.get_object_item (rule_to_json c r) (codes "trigger_window")
      ≡ when (is_pos r.trigger_window) (c.create_number (c.of_ℤ r.trigger_window))
  unfolding rule_to_json strcase_eq
  get_trigger_window = simp (get-add_some c laws, laws.get_added, laws.get_created) (ground arith)
