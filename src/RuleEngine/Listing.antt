-- ===== src/RuleEngine/Listing.antt =====
-- app/engine/rule_engine.c: the rules as JSON, for the file and for the API.
use event_engine_acap.Prelude.{
  Option, none, some, List, [], ◌∷◌, map, Str, codes, length, ℤ, pos, is_pos,
}
use event_engine_acap.Cjson.{Cjson, string_of, when, is_set, add_some}
use event_engine_acap.Table.{find_key}
use event_engine_acap.RuleEngine.Rule.{Rule, rule_key, logic_text, condition_logic_text}

module _ {J D : Type 0} (c : Cjson J D) where
  abbrev int_item : ℤ → J
  int_item z = c.create_number (c.of_ℤ z)

  -- What `rules_save_locked` and `RuleEngine_Get` write of a rule.
  unfoldable pub rule_to_json : Rule J → J
  rule_to_json r =
      let named =
        c.add_item
          (c.add_item (c.add_item c.create_object (codes "id") (c.create_string r.id))
            (codes "name") (c.create_string r.name))
          (codes "enabled") (c.create_bool r.enabled) in
      let parts =
        c.add_item
          (c.add_item (c.add_item named (codes "triggers") r.triggers_json) (codes "conditions")
            r.conditions_json)
          (codes "actions") r.actions_json in
      let logic =
        c.add_item
          (c.add_item parts (codes "trigger_logic") (c.create_string (logic_text r.trigger_logic)))
          (codes "condition_logic") (c.create_string (condition_logic_text r.condition_logic)) in
      let limits =
        c.add_item (c.add_item logic (codes "cooldown") (int_item r.cooldown))
          (codes "max_executions") (int_item r.max_executions) in
      add_some c
        (add_some c limits (codes "max_exec_period")
          (when (is_set r.max_exec_period) (c.create_string r.max_exec_period)))
        (codes "trigger_window") (when (is_pos r.trigger_window) (int_item r.trigger_window))

  unfoldable pub rules_to_json : List (Rule J) → J
  rules_to_json rules = c.create_array (map rule_to_json rules)

  unfoldable pub rule_engine_get : List (Rule J) → Option Str → Option J
  rule_engine_get rules none = none
  rule_engine_get rules (some id) = elim (find_key rule_key id rules) [
    | none ↦ none
    | some r ↦ some (
        c.add_item
          (c.add_item (rule_to_json r) (codes "execution_count") (int_item (pos r.execution_count)))
          (codes "last_fired") (int_item (pos r.last_fired)))
  ]

  -- The strings of the `type` items of an array.
  abbrev pub type_strings : List J → List J
  type_strings [] = []
  type_strings (x ∷ xs) = elim (string_of c x (codes "type")) [
    | none ↦ type_strings xs
    | some t ↦ c.create_string t ∷ type_strings xs
  ]

  unfoldable pub list_item : Rule J → J
  list_item r =
      let triggers = c.children r.triggers_json in
      let conditions = c.children r.conditions_json in
      let actions = c.children r.actions_json in
      let named =
        c.add_item
          (c.add_item (c.add_item c.create_object (codes "id") (c.create_string r.id))
            (codes "name") (c.create_string r.name))
          (codes "enabled") (c.create_bool r.enabled) in
      let limits =
        add_some c
          (c.add_item (c.add_item named (codes "cooldown") (int_item r.cooldown))
            (codes "max_executions") (int_item r.max_executions))
          (codes "max_exec_period")
          (when (is_set r.max_exec_period) (c.create_string r.max_exec_period)) in
      let state =
        c.add_item (c.add_item limits (codes "execution_count") (int_item (pos r.execution_count)))
          (codes "last_fired") (int_item (pos r.last_fired)) in
      let counts =
        c.add_item
          (c.add_item (c.add_item state (codes "trigger_count") (int_item (pos (length triggers))))
            (codes "condition_count") (int_item (pos (length conditions))))
          (codes "action_count") (int_item (pos (length actions))) in
      c.add_item
        (c.add_item
          (c.add_item counts (codes "trigger_types") (c.create_array (type_strings triggers)))
          (codes "condition_types") (c.create_array (type_strings conditions)))
        (codes "action_types") (c.create_array (type_strings actions))

  unfoldable pub rule_engine_list : List (Rule J) → J
  rule_engine_list rules = c.create_array (map list_item rules)
