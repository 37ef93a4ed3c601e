-- ===== src/RuleEngine/Steps.antt =====
-- app/engine/rule_engine.c: what one trigger or tick does to one rule.
use event_engine_acap.Prelude.{
  ◌+◌, ◌≤◌, ◌<◌, ◌≡◌, refl, ap, ◌∙◌, subst, ◌⊎◌, inl, inr, Bool, true, false, ◌&&◌, if◌then◌else◌,
  Bool-cases, Option, none, some, List, [], ◌∷◌, Str, str_eq, str_eq_iff, ℤ, pos_part, is_pos,
  arith,
}
use event_engine_acap.Cjson.{Cjson}
use event_engine_acap.Cjson.{is_set}
use event_engine_acap.Table.{find_key, key-find, find-update_first}
use event_engine_acap.RuleEngine.Rule.{Rule, rule_key, unknown}
use event_engine_acap.RuleEngine.Gates.{Env, Times, mark_fired}
use event_engine_acap.RuleEngine.Dispatch.{
  Effect, execute, put_rule, on_trigger_fired, tick_rule, tick_rules,
}
use event_engine_acap.RuleEngine.Checks.{settled, Passed}
use event_engine_acap.RuleEngine.Triggered.{Cases, quiet, blocked, fired, on_trigger_fired-Cases}

-- What happens on the main loop: a trigger of a rule, or the loop of `RuleEngine_Tick` over the rules.
pub data Step (J : Type 0) : Type 0 where
  trigger : Env J → Times → Str → ℤ → Option J → Step J
  window_tick : Env J → Step J

abbrev pub executes : {J : Type 0} → List (Effect J) → Bool
executes [] = false
executes (execute id actions tdata ∷ rest) = true
executes (effect ∷ rest) = executes rest

module _ {J D : Type 0} (c : Cjson J D) where
  unfoldable pub run_step : List (Rule J) → Step J → List (Rule J) × Bool
  run_step rules (trigger env t id index tdata) =
      let (rules', effects) = on_trigger_fired c env t rules id index tdata in
      (rules', executes effects)
  run_step rules (window_tick env) = ((tick_rules env rules).0, false)

  abbrev pub times_if : Bool → Times → List Times → List Times
  times_if true t ts = t ∷ ts
  times_if false t ts = ts

  -- The times at which the rule fires, in order.
  unfoldable pub firings : List (Rule J) → Str → List (Step J) → List Times
  firings rules id [] = []
  firings rules id (trigger env t id' index tdata ∷ steps) =
      let s = trigger env t id' index tdata in
      let rest = firings (run_step rules s).0 id steps in
      times_if (str_eq id' id && (run_step rules s).1) t rest
  firings rules id (window_tick env ∷ steps) = firings (run_step rules (window_tick env)).0 id steps

-- The settings of a rule, without what runs write.
abbrev pub config : {J : Type 0} → Rule J → Rule J
config r = record r {
  trigger_fired_at = [];
  period_exec_count = 0;
  period_start = 0;
  trigger_pending = false;
  cond_window_state = unknown;
  last_fired = 0;
  execution_count = 0;
}

-- A rule after a step at which it did not fire.
abbrev pub Kept : {J : Type 0} → Rule J → Rule J → Type 0
Kept r r' =
    (config r' ≡ config r)
    × (r'.last_fired ≡ r.last_fired)
    × (r'.execution_count ≡ r.execution_count)

-- A rule after a step at which it fired.
abbrev pub Advanced : {J : Type 0} → Times → Rule J → Rule J → Type 0
Advanced t r r' =
    (config r' ≡ config r)
    × (r'.last_fired ≡ t.at_fire)
    × (r'.execution_count ≡ r.execution_count + 1)
    × (is_pos r.cooldown ≡ true
        → 0 < r.last_fired
        → r.last_fired + pos_part r.cooldown ≤ t.at_cooldown)
    × (is_pos r.max_executions ≡ true
        → is_set r.max_exec_period ≡ false
        → r.execution_count < pos_part r.max_executions)

module _ {J : Type 0} where
  pub Kept-tick_rule : (env : Env J) (r : Rule J) → Kept r (tick_rule env r).0
  unfolding tick_rule
  Kept-tick_rule env r = ground arith

  find-tick_rules :
      (env : Env J) (id : Str) (rules : List (Rule J)) (r : Rule J)
      → find_key rule_key id rules ≡ some r
      → find_key rule_key id (tick_rules env rules).0 ≡ some (tick_rule env r).0
  unfolding tick_rules find_key
  find-tick_rules env id [] r e = cc
  find-tick_rules env id (x ∷ rules) r e =
      ground (arith, find-tick_rules env id rules r, ap (λ q. q.id) (Kept-tick_rule env x).0)

  find-put_rule :
      (id j : Str) (r' : Rule J) (rules : List (Rule J))
      → r'.id ≡ id
      → find_key rule_key j (put_rule id r' rules) ≡ (
          if str_eq id j
          then elim (find_key rule_key j rules) [ none ↦ none | some x ↦ some r' ]
          else find_key rule_key j rules)
  find-put_rule id j r' rules e = find-update_first rule_key id (λ x. r') (λ x h. e) j rules

  Kept-settled : (r r' : Rule J) → settled r' ≡ settled r → Kept r r'
  Kept-settled r r' e = ground arith

  Advanced-Passed :
      (env : Env J) (t : Times) (index : ℤ) (tdata : Option J) (r r' : Rule J)
      → Passed env t index tdata r r'
      → Advanced t r (mark_fired t.at_fire r')
  unfolding mark_fired
  Advanced-Passed env t index tdata r r' p = (
    ap config p.same,
    refl,
    ap (λ (q : Rule J). q.execution_count + 1) p.same,
    p.cooled,
    p.lifetime,
  )

  same_rule :
      (rules : List (Rule J)) (id' id : Str) (q r : Rule J)
      → str_eq id' id ≡ true
      → find_key rule_key id' rules ≡ some q
      → find_key rule_key id rules ≡ some r
      → q ≡ r
  same_rule rules id' id q r same found e = cc ((str_eq_iff id' id).0 same)

  -- What a trigger of the rule `id'` does to the rule `id`.
  abbrev pub EffectOn : Times → Bool → Rule J → Option (Rule J) → Type 0
  EffectOn t fires r o =
      (r' : Rule J) × (o ≡ some r')
      × (((fires ≡ true) × Advanced t r r') ⊎ ((fires ≡ false) × Kept r r'))

module _ {J D : Type 0} (c : Cjson J D) where
  EffectOn-Cases :
      (env : Env J) (t : Times) (rules : List (Rule J)) (id' : Str) (index : ℤ) (tdata : Option J)
      (rules' : List (Rule J)) (effects : List (Effect J))
      → Cases c env t rules id' index tdata rules' effects
      → (id : Str) (r : Rule J) → find_key rule_key id rules ≡ some r
      → EffectOn t (str_eq id' id && executes effects) r (find_key rule_key id rules')
  EffectOn-Cases env t rules id' index tdata rules' effects (quiet off same done) id r e =
      (r, rw same e, inr (rw done (ground arith), (refl, refl, refl)))
  EffectOn-Cases env t rules id' index tdata rules' effects
        (blocked q q' reason found on kept put log) id r e =
      elim (Bool-cases (str_eq id' id)) [
        | inl same ↦ (
          q',
          there ∙ rw (same, e) refl,
          inr (
            rw (same, log) refl,
            Kept-settled r q' (kept ∙ ap settled (same_rule rules id' id q r same found e)),
          ),
        )
        | inr other ↦ (r, there ∙ rw other e, inr (rw other refl, (refl, refl, refl)))
      ]
    where
      there : find_key rule_key id rules' ≡ (
          if str_eq id' id
          then elim (find_key rule_key id rules) [ none ↦ none | some x ↦ some q' ]
          else find_key rule_key id rules)
      there =
          ap (find_key rule_key id) put
          ∙ find-put_rule id' id q' rules
              (ap (λ (x : Rule J). x.id) kept ∙ key-find rule_key id' rules q found)
  EffectOn-Cases env t rules id' index tdata rules' effects (fired q q' found on passed put log) id
        r e =
      elim (Bool-cases (str_eq id' id)) [
        | inl same ↦ (
          mark_fired t.at_fire q',
          there ∙ rw (same, e) refl,
          inl (
            rw (same, log) refl,
            subst (λ x. Advanced t x (mark_fired t.at_fire q'))
                (same_rule rules id' id q r same found e)
                (Advanced-Passed env t index tdata q q' passed),
          ),
        )
        | inr other ↦ (r, there ∙ rw other e, inr (rw other refl, (refl, refl, refl)))
      ]
    where
      there : find_key rule_key id rules' ≡ (
          if str_eq id' id
          then elim (find_key rule_key id rules) [
            | none ↦ none
            | some x ↦ some (mark_fired t.at_fire q')
          ]
          else find_key rule_key id rules)
      there =
          ap (find_key rule_key id) put
          ∙ find-put_rule id' id (mark_fired t.at_fire q') rules (
              unfold mark_fired in
              (ap (λ (x : Rule J). x.id) passed.same ∙ key-find rule_key id' rules q found))

  pub step_effect :
      (env : Env J) (t : Times) (id' : Str) (index : ℤ) (tdata : Option J) (rules : List (Rule J))
      (id : Str) (r : Rule J)
      → find_key rule_key id rules ≡ some r
      → let s = run_step c rules (trigger env t id' index tdata) in
        EffectOn t (str_eq id' id && s.1) r (find_key rule_key id s.0)
  unfolding run_step
  step_effect env t id' index tdata rules id r e =
      EffectOn-Cases env t rules id' index tdata _ _
        (on_trigger_fired-Cases c env t rules id' index tdata) id r e

  pub tick_effect :
      (env : Env J) (rules : List (Rule J)) (id : Str) (r : Rule J)
      → find_key rule_key id rules ≡ some r
      → find_key rule_key id (run_step c rules (window_tick env)).0 ≡ some (tick_rule env r).0
  unfolding run_step
  tick_effect env rules id r e = find-tick_rules env id rules r e
