-- ===== src/RuleEngine/Runs.antt =====
-- app/engine/rule_engine.c: what a rule does over any sequence of triggers and ticks.
use event_engine_acap.Prelude.{
  ℕ, ◌+◌, ◌≤◌, ◌≡◌, ap, ◌∙◌, subst, ◌⊎◌, inl, inr, true, false, some, List, [], ◌∷◌, Str, length,
  pos_part, is_pos, arith, dec_lt,
}
use event_engine_acap.Cjson.{Cjson}
use event_engine_acap.Cjson.{is_set}
use event_engine_acap.Table.{find_key}
use event_engine_acap.RuleEngine.Rule.{Rule, rule_key}
use event_engine_acap.RuleEngine.Gates.{Times}
use event_engine_acap.RuleEngine.Dispatch.{tick_rule}
use event_engine_acap.RuleEngine.Steps.{
  Step, trigger, window_tick, firings, Kept, Advanced, Kept-tick_rule, step_effect, tick_effect,
}

-- Each firing is a cooldown after the one before it, the first one after the firing at `last`; a
-- `last` of 0 means that there was none.
abbrev pub SpacedFrom : ℕ → ℕ → List Times → Type 0
SpacedFrom last k [] = Unit {0}
SpacedFrom last k (t ∷ ts) = ((last ≡ 0) ⊎ (last + k ≤ t.at_cooldown)) × SpacedFrom t.at_fire k ts

module _ {J D : Type 0} (c : Cjson J D) where
  spaced-Kept :
      (r r' : Rule J) (ts : List Times)
      → Kept r r'
      → SpacedFrom r'.last_fired (pos_part r'.cooldown) ts
      → SpacedFrom r.last_fired (pos_part r.cooldown) ts
  spaced-Kept r r' ts (same, last, count) h =
      subst (λ n. SpacedFrom n (pos_part r.cooldown) ts) last
        (subst (λ z. SpacedFrom r'.last_fired (pos_part z) ts)
          (ap (λ (q : Rule J). q.cooldown) same) h)

  spaced-Advanced :
      (t : Times) (r r' : Rule J) (ts : List Times)
      → Advanced t r r'
      → is_pos r.cooldown ≡ true
      → SpacedFrom r'.last_fired (pos_part r'.cooldown) ts
      → SpacedFrom r.last_fired (pos_part r.cooldown) (t ∷ ts)
  spaced-Advanced t r r' ts (same, last, count, cooled, limit) h rest = (
    first,
    subst (λ n. SpacedFrom n (pos_part r.cooldown) ts) last
        (subst (λ z. SpacedFrom r'.last_fired (pos_part z) ts)
          (ap (λ (q : Rule J). q.cooldown) same) rest),
  )
    where
      first : (r.last_fired ≡ 0) ⊎ (r.last_fired + pos_part r.cooldown ≤ t.at_cooldown)
      first = elim (dec_lt 0 r.last_fired) [ yes p ↦ inr (cooled h p) | no p ↦ inl (omega arith) ]

  -- What the rest of a run proves of the rule after a step carries over to the rule before it.
  abbrev Limits : Rule J → List Times → Type 0
  Limits r ts =
      is_pos r.max_executions ≡ true
      → is_set r.max_exec_period ≡ false
      → r.execution_count ≤ pos_part r.max_executions
      → r.execution_count + length ts ≤ pos_part r.max_executions

  limit-Kept :
      (r r' : Rule J) (ts : List Times)
      → Kept r r'
      → r.execution_count ≤ pos_part r.max_executions
      → is_pos r.max_executions ≡ true
      → is_set r.max_exec_period ≡ false
      → Limits r' ts
      → r.execution_count + length ts ≤ pos_part r.max_executions
  limit-Kept r r' ts (same, last, count) l h p rest =
      let cap = ap (λ (q : Rule J). q.max_executions) same in
      let period = ap (λ (q : Rule J). q.max_exec_period) same in
      omega (
        arith,
        count,
        ap pos_part cap,
        rest (ap is_pos cap ∙ h) (ap is_set period ∙ p) (omega (arith, count, ap pos_part cap)),
      )

  limit-Advanced :
      (t : Times) (r r' : Rule J) (ts : List Times)
      → Advanced t r r'
      → is_pos r.max_executions ≡ true
      → is_set r.max_exec_period ≡ false
      → Limits r' ts
      → r.execution_count + length (t ∷ ts) ≤ pos_part r.max_executions
  limit-Advanced t r r' ts (same, last, count, cooled, limit) h p rest =
      let cap = ap (λ (q : Rule J). q.max_executions) same in
      let period = ap (λ (q : Rule J). q.max_exec_period) same in
      omega (
        arith,
        count,
        ap pos_part cap,
        limit h p,
        rest (ap is_pos cap ∙ h) (ap is_set period ∙ p)
            (omega (arith, count, ap pos_part cap, limit h p)),
      )

  -- Over any sequence of triggers and ticks, a rule with a cooldown fires again only when the
  -- cooldown has passed since it last fired; the first firing waits for the one before the
  -- sequence, if there was one.
  pub firings-SpacedFrom :
      (steps : List (Step J)) (rules : List (Rule J)) (id : Str) (r : Rule J)
      → find_key rule_key id rules ≡ some r
      → is_pos r.cooldown ≡ true
      → SpacedFrom r.last_fired (pos_part r.cooldown) (firings c rules id steps)
  unfolding firings
  firings-SpacedFrom [] rules id r e h = tt
  firings-SpacedFrom (window_tick env ∷ steps) rules id r e h =
      let kept = Kept-tick_rule env r in
      spaced-Kept r (tick_rule env r).0 _ kept (
        firings-SpacedFrom steps _ id _ (tick_effect c env rules id r e)
          (ap (λ (q : Rule J). is_pos q.cooldown) kept.0 ∙ h))
  firings-SpacedFrom (trigger env t id' index tdata ∷ steps) rules id r e h =
      let (r', found, outcome) = step_effect c env t id' index tdata rules id r e in
      elim outcome [
        | inl (fires, advanced) ↦ rw fires (
            spaced-Advanced t r r' _ advanced h (
              firings-SpacedFrom steps _ id r' found
                (ap (λ (q : Rule J). is_pos q.cooldown) advanced.0 ∙ h)))
        | inr (idle, kept) ↦ rw idle (
            spaced-Kept r r' _ kept (
              firings-SpacedFrom steps _ id r' found
                (ap (λ (q : Rule J). is_pos q.cooldown) kept.0 ∙ h)))
      ]

  -- A rule with a lifetime limit that it has not gone beyond fires at most as often as the limit leaves,
  -- over any sequence of triggers and ticks.
  pub firings_limit :
      (steps : List (Step J)) (rules : List (Rule J)) (id : Str) (r : Rule J)
      → find_key rule_key id rules ≡ some r
      → is_pos r.max_executions ≡ true
      → is_set r.max_exec_period ≡ false
      → r.execution_count ≤ pos_part r.max_executions
      → r.execution_count + length (firings c rules id steps) ≤ pos_part r.max_executions
  unfolding firings
  firings_limit [] rules id r e h p l = omega arith
  firings_limit (window_tick env ∷ steps) rules id r e h p l =
      let (same, last, count) = Kept-tick_rule env r in
      limit-Kept r (tick_rule env r).0 _ (same, last, count) l h p
        (firings_limit steps _ id (tick_rule env r).0 (tick_effect c env rules id r e))
  firings_limit (trigger env t id' index tdata ∷ steps) rules id r e h p l =
      let (r', found, outcome) = step_effect c env t id' index tdata rules id r e in
      elim outcome [
        | inl (fires, advanced) ↦
            rw fires (limit-Advanced t r r' _ advanced h p (firings_limit steps _ id r' found))
        | inr (idle, kept) ↦
            rw idle (limit-Kept r r' _ kept l h p (firings_limit steps _ id r' found))
      ]
