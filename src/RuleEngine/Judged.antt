-- ===== src/RuleEngine/Judged.antt =====
-- app/engine/rule_engine.c: which verdict the checks of `on_trigger_fired` come to.
use event_engine_acap.Prelude.{
  ◌+◌, ◌-◌, ◌≤◌, ◌<◌, ◌≡◌, refl, ◌⊎◌, inl, inr, Bool, true, false, not, ◌&&◌, ltb, if◌then◌else◌,
  Bool-cases, Option, Str, codes, take, ℤ, pos_part, is_pos, arith,
}
use event_engine_acap.Cjson.{is_set}
use event_engine_acap.RuleEngine.Rule.{Rule}
use event_engine_acap.RuleEngine.Gates.{
  Env, Times, Gate, pass, block, all_fired, is_closed, period_secs, and_gate, active_gate,
  cooldown_gate, executions_gate, condition_gate, gates,
}
use event_engine_acap.RuleEngine.Verdict.{
  needs_all, needs_active, stamps_of, is_over, HasAll, HasActive, HasCooled, HasRoom, stamped,
  counted, Blocked, pending, inactive, cooling, exhausted, barred, Passes,
}

module _ {J : Type 0} where
  module _ (env : Env J) (t : Times) (index : ℤ) (is_refire : Bool) (tdata : Option J)
      (r : Rule J) where
    pub data Judged : Gate J → Type 0 where
      passes : (r' : Rule J) → Passes env t index is_refire tdata r r' → Judged (pass r')
      blocks :
          (r' : Rule J) (reason : Str)
          → Blocked env t index is_refire tdata r r' reason
          → Judged (block r' reason)

    marked :
        (b : Bool)
        → (if b then record (counted t index r) { trigger_pending = true } else counted t index r)
          ≡ record (counted t index r) { trigger_pending = if b then true else r.trigger_pending }
    marked true = refl
    marked false = refl

    at_condition :
        HasAll t index r
        → HasActive env index r
        → HasCooled t r
        → HasRoom t r
        → Judged (condition_gate env is_refire tdata (counted t index r))
    unfolding condition_gate
    at_condition a b c d =
        let remembers = not is_refire && (r.has_time_window && is_closed r.cond_window_state) in
        elim (Bool-cases (env.evaluate r.conditions_json r.condition_logic tdata)) [
          | inl holds ↦ rw holds (
              passes (counted t index r) (record {
                has_all = a;
                has_active = b;
                has_cooled = c;
                has_room = d;
                conditions = holds;
                kept = refl;
              }))
          | inr fails ↦ rw fails (blocks _ _ (barred a b c d fails (marked remembers) refl))
        ]

    executions_gate-cases :
        (executions_gate t.at_period (stamped t index r) ≡ pass (counted t index r)) × HasRoom t r
        ⊎ ((executions_gate t.at_period (stamped t index r)
              ≡ block (stamped t index r) (codes "max_executions"))
            × (is_pos r.max_executions ≡ true)
            × (is_over t.at_period r ≡ false ⊎ is_set r.max_exec_period ≡ false)
            × (pos_part r.max_executions
                ≤ (if is_set r.max_exec_period then r.period_exec_count else r.execution_count)))
    unfolding executions_gate period_secs
    executions_gate-cases = ground arith

    cooldown_gate-cases :
        (cooldown_gate t.at_cooldown (stamped t index r) ≡ pass (stamped t index r)) × HasCooled t r
        ⊎ ((cooldown_gate t.at_cooldown (stamped t index r)
              ≡ block (stamped t index r) (codes "cooldown"))
            × (is_pos r.cooldown ≡ true)
            × (0 < r.last_fired)
            × (t.at_cooldown < r.last_fired + pos_part r.cooldown))
    unfolding cooldown_gate
    cooldown_gate-cases = elim (Bool-cases (is_pos r.cooldown && ltb 0 r.last_fired)) [
      | inr free ↦ inl (ground arith, λ h h'. absurd (ground arith))
      | inl limited ↦ elim (Bool-cases (ltb (t.at_cooldown - r.last_fired) (pos_part r.cooldown))) [
        | inr over ↦ inl (ground arith, λ h h'. ground arith)
        | inl early ↦ inr (ground arith, ground arith, ground arith, ground arith)
      ]
    ]

    active_gate-cases :
        (active_gate env index (stamped t index r) ≡ pass (stamped t index r))
          × HasActive env index r
        ⊎ ((active_gate env index (stamped t index r)
              ≡ block (stamped t index r) (codes "trigger_and_pending"))
            × (needs_active r ≡ true)
            × (env.all_currently_active r.id index ≡ false))
    unfolding active_gate
    active_gate-cases = elim (Bool-cases (needs_active r)) [
      | inr one ↦ inl (ground arith, λ h. absurd (ground arith))
      | inl all ↦ elim (Bool-cases (env.all_currently_active r.id index)) [
        | inl active ↦ inl (ground arith, λ h. active)
        | inr idle ↦ inr (ground arith, all, idle)
      ]
    ]

    and_gate-cases :
        (and_gate t.at_and index r ≡ pass (stamped t index r)) × HasAll t index r
        ⊎ ((and_gate t.at_and index r ≡ block (stamped t index r) (codes "trigger_and_pending"))
            × (needs_all r ≡ true)
            × (all_fired t.at_and r.trigger_window
                  (take r.trigger_count (stamps_of t.at_and index r))
                ≡ false))
    unfolding and_gate
    and_gate-cases = elim (Bool-cases (needs_all r)) [
      | inr one ↦ inl (rw (one, and_gate) refl, λ h. absurd (ground arith))
      | inl all ↦
          elim (Bool-cases (
            all_fired t.at_and r.trigger_window
              (take r.trigger_count (stamps_of t.at_and index r)))) [
                | inl fired ↦ inl (ground arith, λ h. fired)
                | inr waits ↦ inr (ground arith, all, waits)
              ]
    ]

    pub gates-Judged : Judged (gates env t index is_refire tdata r)
    unfolding gates
    gates-Judged = elim and_gate-cases [
      | inr (e, h, h') ↦ rw e (blocks _ _ (pending h h' refl refl))
      | inl (e1, a) ↦ rw e1 (elim active_gate-cases [
        | inr (e, h, h') ↦ rw e (blocks _ _ (inactive a h h' refl refl))
        | inl (e2, b) ↦ rw e2 (elim cooldown_gate-cases [
          | inr (e, h, h', h'') ↦ rw e (blocks _ _ (cooling a b h h' h'' refl refl))
          | inl (e3, c) ↦ rw e3 (elim executions_gate-cases [
            | inr (e, h, h', h'') ↦ rw e (blocks _ _ (exhausted a b c h h' h'' refl refl))
            | inl (e4, d) ↦ rw e4 (at_condition a b c d)
          ])
        ])
      ])
    ]
