-- ===== src/RuleEngine/Checks.antt =====
-- app/engine/rule_engine.c: what a rule that passed every check of `on_trigger_fired` satisfies, and
-- what the checks leave alone.
use event_engine_acap.Prelude.{
  ℕ, ◌+◌, ◌≤◌, ◌<◌, ◌≡◌, refl, ap, ◌∙◌, subst, Bool, true, false, Option, [], take, ltb, ◌&&◌, ℤ,
  pos_part, is_pos, arith,
}
use event_engine_acap.Cjson.{is_set}
use event_engine_acap.RuleEngine.Rule.{Rule}
use event_engine_acap.RuleEngine.Gates.{
  Env, Times, Gate, pass, block, ◌>>=◌, all_fired, stamp, is_all_of, is_all_active, and_gate,
  active_gate, cooldown_gate, executions_gate, condition_gate, gates,
}

module _ {J : Type 0} where
  abbrev pub rule_of : Gate J → Rule J
  rule_of (pass r) = r
  rule_of (block r reason) = r

  -- A rule without the fields that the checks write.
  abbrev pub settled : Rule J → Rule J
  settled r = record r {
    trigger_fired_at = [];
    period_exec_count = 0;
    period_start = 0;
    trigger_pending = false;
  }

  -- A check that passes with the rest.
  >>=-eq-pass :
      (m : Gate J) (f : Rule J → Gate J) {r' : Rule J}
      → (m >>= f) ≡ pass r'
      → (r : Rule J) × (m ≡ pass r) × (f r ≡ pass r')
  >>=-eq-pass (pass r) f e = (r, refl, e)
  >>=-eq-pass (block r reason) f e = cc

  settled->>= :
      (m : Gate J) (f : Rule J → Gate J)
      → ((r : Rule J) → settled (rule_of (f r)) ≡ settled r)
      → settled (rule_of (m >>= f)) ≡ settled (rule_of m)
  settled->>= (pass r) f h = h r
  settled->>= (block r reason) f h = refl

  settled-and_gate :
      (now : ℕ) (index : ℤ) (r : Rule J) → settled (rule_of (and_gate now index r)) ≡ settled r
  unfolding and_gate
  settled-and_gate now index r = ground arith

  settled-active_gate :
      (env : Env J) (index : ℤ) (r : Rule J)
      → settled (rule_of (active_gate env index r)) ≡ settled r
  unfolding active_gate
  settled-active_gate env index r = ground arith

  settled-cooldown_gate :
      (now : ℕ) (r : Rule J) → settled (rule_of (cooldown_gate now r)) ≡ settled r
  unfolding cooldown_gate
  settled-cooldown_gate now r = ground arith

  settled-executions_gate :
      (now : ℕ) (r : Rule J) → settled (rule_of (executions_gate now r)) ≡ settled r
  unfolding executions_gate
  settled-executions_gate now r = ground arith

  settled-condition_gate :
      (env : Env J) (again : Bool) (tdata : Option J) (r : Rule J)
      → settled (rule_of (condition_gate env again tdata r)) ≡ settled r
  unfolding condition_gate
  settled-condition_gate env again tdata r = ground arith

  -- The checks write the stamps, the period counter and the pending mark, and nothing else.
  pub settled-gates :
      (env : Env J) (t : Times) (index : ℤ) (again : Bool) (tdata : Option J) (r : Rule J)
      → settled (rule_of (gates env t index again tdata r)) ≡ settled r
  unfolding gates
  settled-gates env t index again tdata r =
      settled->>= (and_gate t.at_and index r) _ (λ stamped.
        settled->>= (active_gate env index stamped) _ (λ active.
          settled->>= (cooldown_gate t.at_cooldown active) _ (λ cooled.
            settled->>= (executions_gate t.at_period cooled) _
              (settled-condition_gate env again tdata)
            ∙ settled-executions_gate t.at_period cooled)
          ∙ settled-cooldown_gate t.at_cooldown active)
        ∙ settled-active_gate env index stamped)
      ∙ settled-and_gate t.at_and index r

  -- What holds of a rule `r` that passes as `r'`.
  pub record Passed (env : Env J) (t : Times) (index : ℤ) (tdata : Option J) (r r' : Rule J)
      : Type 0 where
    pub same : settled r' ≡ settled r
    pub cooled :
        is_pos r.cooldown ≡ true
        → 0 < r.last_fired
        → r.last_fired + pos_part r.cooldown ≤ t.at_cooldown
    pub lifetime :
        is_pos r.max_executions ≡ true
        → is_set r.max_exec_period ≡ false
        → r.execution_count < pos_part r.max_executions
    pub rate :
        is_pos r.max_executions ≡ true
        → is_set r.max_exec_period ≡ true
        → r'.period_exec_count < pos_part r.max_executions
    pub all_in_window :
        is_all_of r.trigger_logic && ltb 1 r.trigger_count ≡ true
        → all_fired t.at_and r.trigger_window
            (take r.trigger_count (stamp r.trigger_fired_at r.trigger_count index t.at_and))
          ≡ true
    pub all_active :
        is_all_active r.trigger_logic && ltb 1 r.trigger_count ≡ true
        → env.all_currently_active r.id index ≡ true
    pub conditions : env.evaluate r.conditions_json r.condition_logic tdata ≡ true

  and_gate-pass :
      (now : ℕ) (index : ℤ) (r : Rule J) {r' : Rule J}
      → and_gate now index r ≡ pass r'
      → is_all_of r.trigger_logic && ltb 1 r.trigger_count ≡ true
      → all_fired now r.trigger_window
          (take r.trigger_count (stamp r.trigger_fired_at r.trigger_count index now))
        ≡ true
  unfolding and_gate
  and_gate-pass now index r e h = ground arith

  active_gate-pass :
      (env : Env J) (index : ℤ) (r : Rule J) {r' : Rule J}
      → active_gate env index r ≡ pass r'
      → is_all_active r.trigger_logic && ltb 1 r.trigger_count ≡ true
      → env.all_currently_active r.id index ≡ true
  unfolding active_gate
  active_gate-pass env index r e h = ground arith

  cooldown_gate-pass :
      (now : ℕ) (r : Rule J) {r' : Rule J}
      → cooldown_gate now r ≡ pass r'
      → is_pos r.cooldown ≡ true
      → 0 < r.last_fired
      → r.last_fired + pos_part r.cooldown ≤ now
  unfolding cooldown_gate
  cooldown_gate-pass now r e h p = ground arith

  executions_gate-lifetime :
      (now : ℕ) (r : Rule J) {r' : Rule J}
      → executions_gate now r ≡ pass r'
      → is_pos r.max_executions ≡ true
      → is_set r.max_exec_period ≡ false
      → r.execution_count < pos_part r.max_executions
  unfolding executions_gate
  executions_gate-lifetime now r e h p = ground arith

  executions_gate-rate :
      (now : ℕ) (r : Rule J) {r' : Rule J}
      → executions_gate now r ≡ pass r'
      → is_pos r.max_executions ≡ true
      → is_set r.max_exec_period ≡ true
      → r'.period_exec_count < pos_part r.max_executions
  unfolding executions_gate
  executions_gate-rate now r e h p = ground arith

  condition_gate-pass :
      (env : Env J) (again : Bool) (tdata : Option J) (r : Rule J) {r' : Rule J}
      → condition_gate env again tdata r ≡ pass r'
      → (env.evaluate r.conditions_json r.condition_logic tdata ≡ true) × (r' ≡ r)
  unfolding condition_gate
  condition_gate-pass env again tdata r e = ground arith

  pub gates-Passed :
      (env : Env J) (t : Times) (index : ℤ) (again : Bool) (tdata : Option J) (r : Rule J)
      {r' : Rule J}
      → gates env t index again tdata r ≡ pass r'
      → Passed env t index tdata r r'
  unfolding gates
  gates-Passed env t index again tdata r {r'} e =
      let (r1, e1, f1) = >>=-eq-pass (and_gate t.at_and index r) _ e in
      let (r2, e2, f2) = >>=-eq-pass (active_gate env index r1) _ f1 in
      let (r3, e3, f3) = >>=-eq-pass (cooldown_gate t.at_cooldown r2) _ f2 in
      let (r4, e4, e5) = >>=-eq-pass (executions_gate t.at_period r3) _ f3 in
      let s1 : settled r1 ≡ settled r =
        subst (λ g. settled (rule_of g) ≡ settled r) e1 (settled-and_gate t.at_and index r) in
      let s2 : settled r2 ≡ settled r =
        subst (λ g. settled (rule_of g) ≡ settled r1) e2 (settled-active_gate env index r1) ∙ s1 in
      let s3 : settled r3 ≡ settled r =
        subst (λ g. settled (rule_of g) ≡ settled r2) e3 (settled-cooldown_gate t.at_cooldown r2)
        ∙ s2 in
      let s4 : settled r4 ≡ settled r =
        subst (λ g. settled (rule_of g) ≡ settled r3) e4 (settled-executions_gate t.at_period r3)
        ∙ s3 in
      let (held, last) = condition_gate-pass env again tdata r4 e5 in
      record {
        same = ap settled last ∙ s4;
        cooled =
            subst
              (λ q.
                is_pos q.cooldown ≡ true
                → 0 < q.last_fired
                → q.last_fired + pos_part q.cooldown ≤ t.at_cooldown)
              s2 (cooldown_gate-pass t.at_cooldown r2 e3);
        lifetime =
            subst
              (λ q.
                is_pos q.max_executions ≡ true
                → is_set q.max_exec_period ≡ false
                → q.execution_count < pos_part q.max_executions)
              s3 (executions_gate-lifetime t.at_period r3 e4);
        rate = rw last (
            subst
              (λ q.
                is_pos q.max_executions ≡ true
                → is_set q.max_exec_period ≡ true
                → r4.period_exec_count < pos_part q.max_executions)
              s3 (executions_gate-rate t.at_period r3 e4));
        all_in_window = and_gate-pass t.at_and index r e1;
        all_active =
            subst
              (λ q.
                is_all_active q.trigger_logic && ltb 1 q.trigger_count ≡ true
                → env.all_currently_active q.id index ≡ true)
              s1 (active_gate-pass env index r1 e2);
        conditions =
            subst (λ q. env.evaluate q.conditions_json q.condition_logic tdata ≡ true) s4 held;
      }
