-- ===== src/RuleEngine/Dispatch.antt =====
-- app/engine/rule_engine.c: what runs on the main loop. An operation returns the rules and the
-- calls that it makes of other parts, in their order.
use event_engine_acap.Prelude.{
  ℕ, ◌+◌, Bool, true, false, ◌&&◌, if◌then◌else◌, Option, none, some, List, [], ◌∷◌, ◌++◌, Str,
  codes, str_eq, update_first, ℤ, negsuc,
}
use event_engine_acap.Cjson.{Cjson, string_of}
use event_engine_acap.Table.{find_key}
use event_engine_acap.RuleEngine.Rule.{Rule, rule_key, closed, opened, is_text}
use event_engine_acap.RuleEngine.Gates.{
  Env, Times, Gate, pass, block, gates, mark_fired, is_all_active, is_closed, is_opened,
}

pub data Effect (J : Type 0) : Type 0 where
  -- `EventLog_Append(id, name, fired, reason, data, 0, 0)`
  append_log : Str → Str → Bool → Option Str → Option J → Effect J
  -- `AlertStream_Broadcast(id, name, data)`
  broadcast : Str → Str → Option J → Effect J
  -- `ACAP_EVENTS_Fire_JSON("RuleFired", …)` with the id and the name
  rule_fired_event : Str → Str → Effect J
  -- `Actions_Execute(id, actions, data)`
  execute : Str → J → J → Effect J
  -- `Triggers_On_Rule_Fired(id)`
  on_rule_fired : Str → Effect J
  -- `Triggers_Tick`, `Variables_Flush` and `Actions_ForEach_Active_Siren`
  triggers_tick variables_flush check_sirens : Effect J

module _ {J : Type 0} where
  abbrev pub put_rule : Str → Rule J → List (Rule J) → List (Rule J)
  put_rule id r rules = update_first (λ x. str_eq (rule_key x) id) (λ x. r) rules

  abbrev pub has_active : Env J → Rule J → Bool
  has_active env r =
      if is_all_active r.trigger_logic
      then env.all_currently_active r.id (negsuc 0)
      else env.any_active r.id

  -- One round of the loop of `RuleEngine_Tick`, with whether the rule is to fire again.
  unfoldable pub tick_rule : Env J → Rule J → Rule J × Bool
  tick_rule env r =
      let now_open = env.evaluate_lightweight r.conditions_json r.condition_logic in
      let active = has_active env r in
      let pending =
        if is_opened r.cond_window_state && (if now_open then false else active)
        then true
        else r.trigger_pending in
      if r.enabled && r.has_time_window
      then (
        record r {
          cond_window_state = if now_open then opened else closed;
          trigger_pending = pending;
        },
        is_closed r.cond_window_state && (now_open && (pending && active)),
      )
      else (r, false)

  unfoldable pub tick_rules : Env J → List (Rule J) → List (Rule J) × List Str
  tick_rules env [] = ([], [])
  tick_rules env (r ∷ rs) =
      let (r', again) = tick_rule env r in
      let (rs', ids) = tick_rules env rs in (r' ∷ rs', if again then r.id ∷ ids else ids)

module _ {J D : Type 0} (c : Cjson J D) where
  abbrev pub data_or_object : Option J → J
  data_or_object none = c.create_object
  data_or_object (some tdata) = tdata

  -- `ttype && strcmp(ttype, "time_window_open") == 0`
  abbrev pub is_refire : Option J → Bool
  is_refire none = false
  is_refire (some tdata) = is_text c (string_of c tdata (codes "type")) (codes "time_window_open")

  -- The calls of a rule that fires, after the lock is released.
  abbrev pub firing : Rule J → Option J → List (Effect J)
  firing r trigger_data =
      append_log r.id r.name true none trigger_data
      ∷ broadcast r.id r.name trigger_data
      ∷ rule_fired_event r.id r.name
      ∷ execute r.id r.actions_json (data_or_object trigger_data)
      ∷ on_rule_fired r.id
      ∷ []

  abbrev pub finish : List (Rule J) → Str → ℕ → Option J → Gate J → List (Rule J) × List (Effect J)
  finish rules id now trigger_data (block r reason) =
      (put_rule id r rules, append_log r.id r.name false (some reason) trigger_data ∷ [])
  finish rules id now trigger_data (pass r) =
      (put_rule id (mark_fired now r) rules, firing r trigger_data)

  unfoldable pub on_trigger_fired :
      Env J → Times → List (Rule J) → Str → ℤ → Option J → List (Rule J) × List (Effect J)
  on_trigger_fired env t rules id index trigger_data = elim (find_key rule_key id rules) [
    | none ↦ (rules, [])
    | some r ↦
        if r.enabled
        then finish rules id t.at_fire trigger_data
            (gates env t index (is_refire trigger_data) trigger_data r)
        else (rules, [])
  ]

  -- `RuleEngine_Fire`; the result 0 or 1 is the Boolean.
  unfoldable pub rule_engine_fire : List (Rule J) → Str → Option J → Bool × List (Effect J)
  rule_engine_fire rules id trigger_data = elim (find_key rule_key id rules) [
    | none ↦ (false, [])
    | some r ↦ (
      true,
      append_log r.id r.name true (some (codes "manual")) (some (data_or_object trigger_data))
          ∷ broadcast r.id r.name (some (data_or_object trigger_data))
          ∷ execute r.id r.actions_json (data_or_object trigger_data)
          ∷ [],
    )
  ]

  -- `{ "type": "time_window_open" }`
  abbrev pub window_open_data : J
  window_open_data =
      c.add_item c.create_object (codes "type") (c.create_string (codes "time_window_open"))

  -- The calls of `on_trigger_fired` for the rules to fire again; `calls i` is what the i-th of
  -- them meets.
  unfoldable pub refire :
      (ℕ → Env J × Times) → ℕ → List (Rule J) → List Str → List (Rule J) × List (Effect J)
  refire calls i rules [] = (rules, [])
  refire calls i rules (id ∷ ids) =
      let (rules', effects) =
        on_trigger_fired (calls i).0 (calls i).1 rules id (negsuc 0) (some window_open_data) in
      let (rules'', more) = refire calls (i + 1) rules' ids in (rules'', effects ++ more)

  unfoldable pub rule_engine_tick :
      Env J → (ℕ → Env J × Times) → List (Rule J) → List (Rule J) × List (Effect J)
  rule_engine_tick env calls rules =
      let (ticked, ids) = tick_rules env rules in
      let (rules', effects) = refire calls 0 ticked ids in
      (rules', triggers_tick ∷ variables_flush ∷ check_sirens ∷ effects)

  -- `siren_condition_check`: whether a siren of the rule keeps running.
  unfoldable pub siren_condition_check : Env J → List (Rule J) → Str → Bool
  siren_condition_check env rules id = elim (find_key rule_key id rules) [
    | none ↦ false
    | some r ↦
        if (if r.enabled
          then (elim (c.children r.conditions_json) [ [] ↦ true | x ∷ xs ↦ false ])
          else true)
        then true
        else env.evaluate_lightweight r.conditions_json r.condition_logic
  ]
