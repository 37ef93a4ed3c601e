-- ===== src/RuleEngine/Firing.antt =====
-- app/engine/rule_engine.c: every outcome of `on_trigger_fired`.
use event_engine_acap.Prelude.{
  ◌+◌, ◌≡◌, true, false, Option, none, some, List, [], ◌∷◌, Str, str_eq, update_first,
  if◌then◌else◌, ℤ,
}
use event_engine_acap.Cjson.{Cjson, is_set}
use event_engine_acap.Table.{find_key}
use event_engine_acap.RuleEngine.Rule.{Rule, rule_key, no_stamps}
use event_engine_acap.RuleEngine.Gates.{Env, Times, is_all_of}
use event_engine_acap.RuleEngine.Dispatch.{
  Effect, append_log, broadcast, rule_fired_event, execute, on_rule_fired, data_or_object,
  is_refire,
}
use event_engine_acap.RuleEngine.Verdict.{
  HasAll, HasActive, HasCooled, HasRoom, stamps_of, count_of, period_from, Blocked,
}
use event_engine_acap.RuleEngine.Judged.{Judged}

module _ {J : Type 0} where
  -- The rule `r` after it fired: it is counted, and its mark and, if it waits for all triggers, its stamps
  -- are cleared.
  abbrev pub after_firing : Times → ℤ → Rule J → Rule J
  after_firing t index r = record r {
    trigger_pending = false;
    trigger_fired_at = if is_all_of r.trigger_logic then no_stamps else stamps_of t.at_and index r;
    last_fired = t.at_fire;
    execution_count = r.execution_count + 1;
    period_exec_count =
        if is_set r.max_exec_period then count_of t.at_period r + 1 else count_of t.at_period r;
    period_start = period_from t.at_period r;
  }

  -- The rules with `r'` in the place of the first of that id.
  abbrev pub replaced : Str → Rule J → List (Rule J) → List (Rule J)
  replaced id r' rules = update_first (λ x. str_eq x.id id) (λ x. r') rules

module _ {J D : Type 0} (c : Cjson J D) where
  -- Nothing happens, the rule is blocked, or it fires.
  pub data Outcome (env : Env J) (t : Times) (rules : List (Rule J)) (id : Str) (index : ℤ)
      (tdata : Option J) (rules' : List (Rule J)) (effects : List (Effect J)) : Type 0 where
    quiet :
        ((r : Rule J) → find_key rule_key id rules ≡ some r → r.enabled ≡ false)
        → rules' ≡ rules
        → effects ≡ []
        → Outcome env t rules id index tdata rules' effects
    blocked :
        (r r' : Rule J) (reason : Str)
        → find_key rule_key id rules ≡ some r
        → r.enabled ≡ true
        → Blocked env t index (is_refire c tdata) tdata r r' reason
        → rules' ≡ replaced id r' rules
        → effects ≡ append_log r.id r.name false (some reason) tdata ∷ []
        → Outcome env t rules id index tdata rules' effects
    fired :
        (r : Rule J)
        → find_key rule_key id rules ≡ some r
        → r.enabled ≡ true
        → HasAll t index r
        → HasActive env index r
        → HasCooled t r
        → HasRoom t r
        → env.evaluate r.conditions_json r.condition_logic tdata ≡ true
        → rules' ≡ replaced id (after_firing t index r) rules
        → effects
          ≡ append_log r.id r.name true none tdata
            ∷ broadcast r.id r.name tdata
            ∷ rule_fired_event r.id r.name
            ∷ execute r.id r.actions_json (data_or_object c tdata)
            ∷ on_rule_fired r.id
            ∷ []
        → Outcome env t rules id index tdata rules' effects
