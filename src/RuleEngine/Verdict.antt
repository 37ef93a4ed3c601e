-- ===== src/RuleEngine/Verdict.antt =====
-- app/engine/rule_engine.c: what each check of `on_trigger_fired` asks of a rule, for which
-- reason it blocks one, and what the checks write.
use event_engine_acap.Prelude.{
  ℕ, ◌+◌, ◌≤◌, ◌<◌, ◌≡◌, ap, ◌⊎◌, Bool, true, false, not, ◌&&◌, ◌||◌, ltb, leb, ◌==◌, if◌then◌else◌,
  Option, List, Str, codes, take, ℤ, pos_part, is_pos,
}
use event_engine_acap.Cjson.{is_set}
use event_engine_acap.RuleEngine.Rule.{Rule}
use event_engine_acap.RuleEngine.Gates.{
  Env, Times, all_fired, stamp, is_all_of, is_all_active, is_closed, period_secs,
}

module _ {J : Type 0} where
  -- All triggers have to fire, or to be active, as there are several.
  abbrev pub needs_all : Rule J → Bool
  needs_all r = is_all_of r.trigger_logic && ltb 1 r.trigger_count

  abbrev pub needs_active : Rule J → Bool
  needs_active r = is_all_active r.trigger_logic && ltb 1 r.trigger_count

  -- The stamps after the trigger `index` at the time `now`.
  abbrev pub stamps_of : ℕ → ℤ → Rule J → List ℕ
  stamps_of now index r =
      if needs_all r then stamp r.trigger_fired_at r.trigger_count index now else r.trigger_fired_at

  -- The executions are limited for each period, and the period is over, or none has begun.
  abbrev pub limits_period : Rule J → Bool
  limits_period r = is_pos r.max_executions && is_set r.max_exec_period

  abbrev pub is_over : ℕ → Rule J → Bool
  is_over now r = r.period_start == 0 || leb (r.period_start + period_secs r.max_exec_period) now

  -- The counter and the start of the period at the time `now`: both begin anew exactly when the period is
  -- over.
  abbrev pub count_of : ℕ → Rule J → ℕ
  count_of now r = if limits_period r && is_over now r then 0 else r.period_exec_count

  abbrev pub period_from : ℕ → Rule J → ℕ
  period_from now r = if limits_period r && is_over now r then now else r.period_start

  -- What each check asks of a rule.
  abbrev pub HasAll : Times → ℤ → Rule J → Type 0
  HasAll t index r =
      needs_all r ≡ true
      → all_fired t.at_and r.trigger_window (take r.trigger_count (stamps_of t.at_and index r))
        ≡ true

  abbrev pub HasActive : Env J → ℤ → Rule J → Type 0
  HasActive env index r = needs_active r ≡ true → env.all_currently_active r.id index ≡ true

  abbrev pub HasCooled : Times → Rule J → Type 0
  HasCooled t r =
      is_pos r.cooldown ≡ true
      → 0 < r.last_fired
      → r.last_fired + pos_part r.cooldown ≤ t.at_cooldown

  abbrev pub HasRoom : Times → Rule J → Type 0
  HasRoom t r =
      is_pos r.max_executions ≡ true
      → (if is_set r.max_exec_period then count_of t.at_period r else r.execution_count)
        < pos_part r.max_executions

  -- The rule that passed on is `r` with the stamps, and then with the period.
  abbrev pub stamped : Times → ℤ → Rule J → Rule J
  stamped t index r = record r { trigger_fired_at = stamps_of t.at_and index r }

  abbrev pub counted : Times → ℤ → Rule J → Rule J
  counted t index r = record r {
    trigger_fired_at = stamps_of t.at_and index r;
    period_exec_count = count_of t.at_period r;
    period_start = period_from t.at_period r;
  }

  module _ (env : Env J) (t : Times) (index : ℤ) (is_refire : Bool) (tdata : Option J)
      (r : Rule J) where
    -- The first check that a rule fails blocks it, for the reason of that check.
    pub data Blocked (r' : Rule J) (reason : Str) : Type 0 where
      pending :
          needs_all r ≡ true
          → all_fired t.at_and r.trigger_window (take r.trigger_count (stamps_of t.at_and index r))
            ≡ false
          → r' ≡ stamped t index r
          → reason ≡ codes "trigger_and_pending"
          → Blocked r' reason
      inactive :
          HasAll t index r
          → needs_active r ≡ true
          → env.all_currently_active r.id index ≡ false
          → r' ≡ stamped t index r
          → reason ≡ codes "trigger_and_pending"
          → Blocked r' reason
      cooling :
          HasAll t index r
          → HasActive env index r
          → is_pos r.cooldown ≡ true
          → 0 < r.last_fired
          → t.at_cooldown < r.last_fired + pos_part r.cooldown
          → r' ≡ stamped t index r
          → reason ≡ codes "cooldown"
          → Blocked r' reason
      -- Under a limit for each period, the period goes on.
      exhausted :
          HasAll t index r
          → HasActive env index r
          → HasCooled t r
          → is_pos r.max_executions ≡ true
          → is_over t.at_period r ≡ false ⊎ is_set r.max_exec_period ≡ false
          → pos_part r.max_executions
            ≤ (if is_set r.max_exec_period then r.period_exec_count else r.execution_count)
          → r' ≡ stamped t index r
          → reason ≡ codes "max_executions"
          → Blocked r' reason
      -- A trigger of its own that the closed window blocks is remembered.
      barred :
          HasAll t index r
          → HasActive env index r
          → HasCooled t r
          → HasRoom t r
          → env.evaluate r.conditions_json r.condition_logic tdata ≡ false
          → r' ≡ record (counted t index r) {
            trigger_pending =
                if not is_refire && (r.has_time_window && is_closed r.cond_window_state)
                then true
                else r.trigger_pending;
          }
          → reason ≡ codes "condition"
          → Blocked r' reason

    -- A rule that is blocked keeps its id and its name.
    pub called :
        (r' : Rule J) (reason : Str) → Blocked r' reason → (r'.id ≡ r.id) × (r'.name ≡ r.name)
    called r' reason (pending h h' e e') = (ap (λ q. q.id) e, ap (λ q. q.name) e)
    called r' reason (inactive a h h' e e') = (ap (λ q. q.id) e, ap (λ q. q.name) e)
    called r' reason (cooling a b h h' h'' e e') = (ap (λ q. q.id) e, ap (λ q. q.name) e)
    called r' reason (exhausted a b c h h' h'' e e') = (ap (λ q. q.id) e, ap (λ q. q.name) e)
    called r' reason (barred a b c d h e e') = (ap (λ q. q.id) e, ap (λ q. q.name) e)

    -- A rule that passes every check.
    pub record Passes (r' : Rule J) : Type 0 where
      pub has_all : HasAll t index r
      pub has_active : HasActive env index r
      pub has_cooled : HasCooled t r
      pub has_room : HasRoom t r
      pub conditions : env.evaluate r.conditions_json r.condition_logic tdata ≡ true
      pub kept : r' ≡ counted t index r
