-- ===== src/RuleEngine/Saved.antt =====
-- app/engine/rule_engine.c: the rules written by `rules_save_locked` and read back by `RuleEngine_Init`.
use event_engine_acap.Prelude.{
  ℕ, ◌+◌, ◌≤◌, ◌<◌, ◌≡◌, refl, ap₂, sym, Bool, true, false, ltb, leb, if◌then◌else◌, Bool-cases,
  inl, inr, Option, some, List, [], ◌∷◌, map, Str, codes, str_eq, snprintf, snprintf_or,
  snprintf_fits, length, ℤ, pos, is_pos, arith,
}
use event_engine_acap.Cjson.{Cjson, CjsonLaws, Small, string_of, number_or, is_set, when}
use event_engine_acap.RuleEngine.Rule.{
  Rule, TriggerLogic, any_of, all_of, all_active, ConditionLogic, and_logic, or_logic, unknown,
  no_stamps, max_rules, max_triggers_per_rule, logic_of, logic_text, condition_logic_of,
  condition_logic_text, array_of, any_time_window, enabled_of, rule_from_json,
}
use event_engine_acap.RuleEngine.Listing.{rule_to_json, rules_to_json}
use event_engine_acap.RuleEngine.Store.{init_rules, rule_engine_init}
use event_engine_acap.RuleEngine.Fields.{
  get_id, get_name, get_enabled, get_triggers, get_conditions, get_actions, get_trigger_logic,
  get_condition_logic, get_cooldown, get_max_executions, get_max_exec_period, get_trigger_window,
}

-- A rule after a restart: its settings, and its state anew. A window that is negative, which means
-- none, comes back as 0.
abbrev pub restored : {J : Type 0} → Rule J → Rule J
restored r = record r {
  trigger_window = if is_pos r.trigger_window then r.trigger_window else pos 0;
  last_fired = 0;
  execution_count = 0;
  period_exec_count = 0;
  period_start = 0;
  cond_window_state = unknown;
  trigger_pending = false;
  trigger_fired_at = no_stamps;
}

logic_kept : (l : TriggerLogic) → logic_of (some (logic_text l)) ≡ l
unfolding logic_of str_eq
logic_kept any_of = refl
logic_kept all_of = refl
logic_kept all_active = refl

condition_logic_kept : (l : ConditionLogic) → condition_logic_of (some (condition_logic_text l)) ≡ l
unfolding condition_logic_of str_eq
condition_logic_kept and_logic = refl
condition_logic_kept or_logic = refl

period_kept : (s : Str) → length s < 8 → snprintf_or 8 (when (is_set s) s) [] ≡ s
unfolding snprintf_or snprintf
period_kept [] h = refl
period_kept (x ∷ s) h = snprintf_fits 8 (x ∷ s) h

module _ {J D : Type 0} (c : Cjson J D) where
  -- The strings fit their buffers, the numbers are ones that a double holds, and the two fields that are
  -- computed from the lists are what `rule_from_json` computes.
  pub record Fits (r : Rule J) : Type 0 where
    pub id_fits : length r.id < 37
    pub name_fits : length r.name < 128
    pub period_fits : length r.max_exec_period < 8
    pub cooldown_fits : Small r.cooldown
    pub executions_fit : Small r.max_executions
    pub window_fits : Small r.trigger_window
    pub count_fits : r.trigger_count ≡ (
        if ltb max_triggers_per_rule (length (c.children r.triggers_json))
        then max_triggers_per_rule
        else length (c.children r.triggers_json))
    pub window_found : r.has_time_window ≡ any_time_window c (c.children r.conditions_json)

  abbrev pub AllFit : List (Rule J) → Type 0
  AllFit [] = Unit {0}
  AllFit (r ∷ rs) = Fits r × AllFit rs

module _ {J D : Type 0} (c : Cjson J D) (laws : CjsonLaws c) where
  string_of-some :
      (o : J) (k s : Str)
      → c.get_object_item o k ≡ some (c.create_string s)
      → string_of c o k ≡ some s
  string_of-some o k s h = rw (h, string_of) (laws.string_created s)

  string_of-when :
      (o : J) (k : Str) (b : Bool) (s : Str)
      → c.get_object_item o k ≡ when b (c.create_string s)
      → string_of c o k ≡ when b s
  string_of-when o k true s h = rw (h, string_of) (laws.string_created s)
  string_of-when o k false s h = rw (h, string_of)

  number_of-some :
      (o : J) (k : Str) (z : ℤ)
      → Small z
      → c.get_object_item o k ≡ some (c.create_number (c.of_ℤ z))
      → number_or c o k (pos 0) ≡ z
  number_of-some o k z small h = rw (h, number_or, laws.number_created) (laws.to_of_ℤ z small)

  number_of-when :
      (o : J) (k : Str) (b : Bool) (z : ℤ)
      → Small z
      → c.get_object_item o k ≡ when b (c.create_number (c.of_ℤ z))
      → number_or c o k (pos 0) ≡ (if b then z else pos 0)
  number_of-when o k true z small h = number_of-some o k z small h
  number_of-when o k false z small h = rw (h, number_or) refl

  array_of-some :
      (o : J) (k : Str) (item : J) → c.get_object_item o k ≡ some item → array_of c o k ≡ item
  array_of-some o k item h = rw (h, array_of) refl

  enabled_kept : (r : Rule J) → enabled_of c (rule_to_json c r) ≡ r.enabled
  enabled_kept r =
      rw (get_enabled c laws r, enabled_of, laws.false_created r.enabled)
        (elim (Bool-cases r.enabled) [ inl on ↦ rw on refl | inr off ↦ rw off refl ])

  rule_from_json-rule_to_json :
      (r : Rule J) → Fits c r → rule_from_json c (rule_to_json c r) ≡ restored r
  unfolding rule_from_json snprintf_or
  rule_from_json-rule_to_json r f =
      let o = rule_to_json c r in
      rw
        (
          string_of-some o (codes "id") r.id (get_id c laws r),
          string_of-some o (codes "name") r.name (get_name c laws r),
          enabled_kept r,
          array_of-some o (codes "triggers") r.triggers_json (get_triggers c laws r),
          array_of-some o (codes "conditions") r.conditions_json (get_conditions c laws r),
          array_of-some o (codes "actions") r.actions_json (get_actions c laws r),
          string_of-some o (codes "trigger_logic") (logic_text r.trigger_logic)
              (get_trigger_logic c laws r),
          string_of-some o (codes "condition_logic") (condition_logic_text r.condition_logic)
              (get_condition_logic c laws r),
          logic_kept r.trigger_logic,
          condition_logic_kept r.condition_logic,
          number_of-some o (codes "cooldown") r.cooldown f.cooldown_fits (get_cooldown c laws r),
          number_of-some o (codes "max_executions") r.max_executions f.executions_fit
              (get_max_executions c laws r),
          string_of-when o (codes "max_exec_period") (is_set r.max_exec_period) r.max_exec_period
              (get_max_exec_period c laws r),
          period_kept r.max_exec_period f.period_fits,
          number_of-when o (codes "trigger_window") (is_pos r.trigger_window) r.trigger_window
              f.window_fits (get_trigger_window c laws r),
          snprintf_fits 37 r.id f.id_fits,
          snprintf_fits 128 r.name f.name_fits,
          sym f.count_fits,
          sym f.window_found,
        )
        refl

  init_rules-map :
      (n : ℕ) (rules : List (Rule J))
      → AllFit c rules
      → n + length rules ≤ max_rules
      → init_rules c n (map (rule_to_json c) rules) ≡ map restored rules
  unfolding init_rules
  init_rules-map n [] all room = refl
  init_rules-map n (r ∷ rs) (f, all) room =
      let space : leb max_rules n ≡ false = ground arith in
      rw space (
        ap₂ (λ (x : Rule J) (xs : List (Rule J)). x ∷ xs) (rule_from_json-rule_to_json r f)
          (init_rules-map (n + 1) rs all (omega arith)))

  -- After a restart the rules are the ones that were saved last, in their order, each with its
  -- settings and with its state anew, whatever the default rules are. The strings fit their buffers,
  -- a double holds the numbers, and the store is within its bound.
  pub rule_engine_init-rules_to_json :
      (rules : List (Rule J)) (defaults : Option J)
      → AllFit c rules
      → length rules ≤ max_rules
      → (rule_engine_init c (some (rules_to_json c rules)) defaults).0 ≡ map restored rules
  unfolding rule_engine_init rules_to_json
  rule_engine_init-rules_to_json rules defaults all room =
      rw
        (
          laws.array_created (map (rule_to_json c) rules),
          laws.children_created (map (rule_to_json c) rules),
        )
        (init_rules-map 0 rules all (omega arith))
