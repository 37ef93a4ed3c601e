-- ===== src/RuleEngine/Triggered.antt =====
-- app/engine/rule_engine.c: the cases of `on_trigger_fired`, by the result of its checks.
use event_engine_acap.Prelude.{
  ◌≡◌, refl, subst, ◌⊎◌, inl, inr, true, false, Bool-cases, Option-cases, Option, none, some, List,
  [], ◌∷◌, Str, ℤ, arith,
}
use event_engine_acap.Cjson.{Cjson}
use event_engine_acap.Table.{find_key}
use event_engine_acap.RuleEngine.Rule.{Rule, rule_key}
use event_engine_acap.RuleEngine.Gates.{Env, Times, Gate, pass, block, gates, mark_fired}
use event_engine_acap.RuleEngine.Dispatch.{
  Effect, append_log, put_rule, firing, finish, is_refire, on_trigger_fired,
}
use event_engine_acap.RuleEngine.Checks.{settled, settled-gates, rule_of, Passed, gates-Passed}

pub Gate-cases :
    {J : Type 0} (g : Gate J)
    → ((r : Rule J) × (g ≡ pass r)) ⊎ ((r : Rule J) × (s : Str) × (g ≡ block r s))
Gate-cases (pass r) = inl (r, refl)
Gate-cases (block r s) = inr (r, s, refl)

module _ {J D : Type 0} (c : Cjson J D) where
  -- Nothing happens, the rule is blocked, or it fires.
  pub data Cases (env : Env J) (t : Times) (rules : List (Rule J)) (id : Str) (index : ℤ)
      (tdata : Option J) (rules' : List (Rule J)) (effects : List (Effect J)) : Type 0 where
    quiet :
        ((r : Rule J) → find_key rule_key id rules ≡ some r → r.enabled ≡ false)
        → rules' ≡ rules
        → effects ≡ []
        → Cases env t rules id index tdata rules' effects
    blocked :
        (r r' : Rule J) (reason : Str)
        → find_key rule_key id rules ≡ some r
        → r.enabled ≡ true
        → settled r' ≡ settled r
        → rules' ≡ put_rule id r' rules
        → effects ≡ append_log r'.id r'.name false (some reason) tdata ∷ []
        → Cases env t rules id index tdata rules' effects
    fired :
        (r r' : Rule J)
        → find_key rule_key id rules ≡ some r
        → r.enabled ≡ true
        → Passed env t index tdata r r'
        → rules' ≡ put_rule id (mark_fired t.at_fire r') rules
        → effects ≡ firing c r' tdata
        → Cases env t rules id index tdata rules' effects

  pub trigger_found :
      (env : Env J) (t : Times) (rules : List (Rule J)) (id : Str) (index : ℤ) (tdata : Option J)
      (r : Rule J)
      → find_key rule_key id rules ≡ some r
      → r.enabled ≡ true
      → on_trigger_fired c env t rules id index tdata
        ≡ finish c rules id t.at_fire tdata (gates env t index (is_refire c tdata) tdata r)
  unfolding on_trigger_fired
  trigger_found env t rules id index tdata r e h = rw (e, on_trigger_fired) (rw h)

  pub trigger_disabled :
      (env : Env J) (t : Times) (rules : List (Rule J)) (id : Str) (index : ℤ) (tdata : Option J)
      (r : Rule J)
      → find_key rule_key id rules ≡ some r
      → r.enabled ≡ false
      → on_trigger_fired c env t rules id index tdata ≡ (rules, [])
  unfolding on_trigger_fired
  trigger_disabled env t rules id index tdata r e h = rw (e, on_trigger_fired) (rw h)

  pub trigger_missing :
      (env : Env J) (t : Times) (rules : List (Rule J)) (id : Str) (index : ℤ) (tdata : Option J)
      → find_key rule_key id rules ≡ none
      → on_trigger_fired c env t rules id index tdata ≡ (rules, [])
  unfolding on_trigger_fired
  trigger_missing env t rules id index tdata e = rw (e, on_trigger_fired)

  pub on_trigger_fired-Cases :
      (env : Env J) (t : Times) (rules : List (Rule J)) (id : Str) (index : ℤ) (tdata : Option J)
      → let (rules', effects) = on_trigger_fired c env t rules id index tdata in
        Cases env t rules id index tdata rules' effects
  on_trigger_fired-Cases env t rules id index tdata =
      elim (Option-cases (find_key rule_key id rules)) [
        | inl e ↦ rw (trigger_missing env t rules id index tdata e) (quiet (λ r h. cc) refl refl)
        | inr (r, e) ↦ elim (Bool-cases r.enabled) [
          | inr off ↦
              rw (trigger_disabled env t rules id index tdata r e off)
                (quiet (λ q h. ground arith) refl refl)
          | inl on ↦
              rw (trigger_found env t rules id index tdata r e on)
                (elim (Gate-cases (gates env t index (is_refire c tdata) tdata r)) [
                  | inl (r', g) ↦ rw g (
                      fired r r' e on (gates-Passed env t index (is_refire c tdata) tdata r g) refl
                        refl)
                  | inr (r', reason, g) ↦ rw g (
                      blocked r r' reason e on
                        (subst (λ q. settled (rule_of q) ≡ settled r) g
                          (settled-gates env t index (is_refire c tdata) tdata r))
                        refl refl)
                ])
        ]
      ]
