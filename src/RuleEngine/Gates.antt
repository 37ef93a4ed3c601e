-- ===== src/RuleEngine/Gates.antt =====
-- app/engine/rule_engine.c: the checks of `on_trigger_fired` on one rule, in their order. A check
-- passes a rule on, with what it wrote to it, or blocks it for a reason.
use event_engine_acap.Prelude.{
  ℕ, ◌+◌, ◌-◌, Bool, true, false, not, ◌&&◌, ltb, leb, ◌==◌, if◌then◌else◌, Option, List, [], ◌∷◌,
  Str, codes, str_eq, take, set, ℤ, pos, negsuc, pos_part, is_pos,
}
use event_engine_acap.Cjson.{is_set}
use event_engine_acap.RuleEngine.Rule.{
  Rule, TriggerLogic, all_of, all_active, ConditionLogic, WindowState, closed, opened, no_stamps,
}

-- What the engine asks of conditions.c and triggers.c. A call reads their state, so these are
-- the answers at the time of one call of the engine.
pub record Env (J : Type 0) : Type 0 where
  -- `Conditions_Evaluate` and `Conditions_Evaluate_Lightweight`
  pub evaluate : J → ConditionLogic → Option J → Bool
  pub evaluate_lightweight : J → ConditionLogic → Bool
  -- `Triggers_All_Currently_Active` and `Triggers_Any_Active`
  pub all_currently_active : Str → ℤ → Bool
  pub any_active : Str → Bool

-- The four calls of `time(NULL)` in `on_trigger_fired`, in their order.
pub record Times : Type 0 where
  pub at_and : ℕ
  pub at_cooldown : ℕ
  pub at_period : ℕ
  pub at_fire : ℕ

pub data Gate (J : Type 0) : Type 0 where
  pass : Rule J → Gate J
  block : Rule J → Str → Gate J

infixl 5 ◌>>=◌
abbrev pub ◌>>=◌ : {J : Type 0} → Gate J → (Rule J → Gate J) → Gate J
pass r >>= f = f r
block r reason >>= f = block r reason

-- The loop over the stamps: each is set, and no older than the window if there is one. A stamp
-- after `now` is never too old, in C because the difference is negative.
unfoldable pub all_fired : ℕ → ℤ → List ℕ → Bool
all_fired now window [] = true
all_fired now window (t ∷ ts) =
    let rest = all_fired now window ts in
    if t == 0
    then false
    else if is_pos window && ltb (pos_part window) (now - t)
    then false
    else rest

-- `if (trigger_index >= 0 && trigger_index < trigger_count) trigger_fired_at[trigger_index] = now`
abbrev pub stamp : List ℕ → ℕ → ℤ → ℕ → List ℕ
stamp stamps count (pos i) now = if ltb i count then set stamps i now else stamps
stamp stamps count (negsuc i) now = stamps

abbrev pub is_all_of : TriggerLogic → Bool
is_all_of all_of = true
is_all_of _ = false

abbrev pub is_all_active : TriggerLogic → Bool
is_all_active all_active = true
is_all_active _ = false

abbrev pub is_closed : WindowState → Bool
is_closed closed = true
is_closed _ = false

abbrev pub is_opened : WindowState → Bool
is_opened opened = true
is_opened _ = false

unfoldable pub period_secs : Str → ℕ
period_secs period =
    if str_eq period (codes "hour") then 3600 else if str_eq period (codes "day") then 86400 else 60

module _ {J : Type 0} where
  unfoldable pub and_gate : ℕ → ℤ → Rule J → Gate J
  and_gate now index r =
      let r' = record r { trigger_fired_at = stamp r.trigger_fired_at r.trigger_count index now } in
      if is_all_of r.trigger_logic && ltb 1 r.trigger_count
      then (if all_fired now r.trigger_window (take r.trigger_count r'.trigger_fired_at)
          then pass r'
          else block r' (codes "trigger_and_pending"))
      else pass r

  unfoldable pub active_gate : Env J → ℤ → Rule J → Gate J
  active_gate env index r =
      if is_all_active r.trigger_logic && ltb 1 r.trigger_count
      then (if env.all_currently_active r.id index
          then pass r
          else block r (codes "trigger_and_pending"))
      else pass r

  unfoldable pub cooldown_gate : ℕ → Rule J → Gate J
  cooldown_gate now r =
      if is_pos r.cooldown && ltb 0 r.last_fired
      then (if ltb (now - r.last_fired) (pos_part r.cooldown)
          then block r (codes "cooldown")
          else pass r)
      else pass r

  -- The counter of the period starts anew when the period is over.
  abbrev pub roll_over : ℕ → Rule J → Rule J
  roll_over now r =
      if r.period_start == 0
      then record r { period_start = now; period_exec_count = 0 }
      else if leb (period_secs r.max_exec_period) (now - r.period_start)
      then record r { period_start = now; period_exec_count = 0 }
      else r

  unfoldable pub executions_gate : ℕ → Rule J → Gate J
  executions_gate now r =
      let rolled = roll_over now r in
      if is_pos r.max_executions
      then (if is_set r.max_exec_period
          then (if leb (pos_part r.max_executions) rolled.period_exec_count
              then block rolled (codes "max_executions")
              else pass rolled)
          else (if leb (pos_part r.max_executions) r.execution_count
              then block r (codes "max_executions")
              else pass r))
      else pass r

  -- A real trigger that the closed window blocks is remembered.
  unfoldable pub condition_gate : Env J → Bool → Option J → Rule J → Gate J
  condition_gate env is_refire trigger_data r =
      if env.evaluate r.conditions_json r.condition_logic trigger_data
      then pass r
      else block
          (if not is_refire && (r.has_time_window && is_closed r.cond_window_state)
            then record r { trigger_pending = true }
            else r)
          (codes "condition")

  -- The writes of a rule that fires.
  unfoldable pub mark_fired : ℕ → Rule J → Rule J
  mark_fired now r = record r {
    trigger_pending = false;
    trigger_fired_at = if is_all_of r.trigger_logic then no_stamps else r.trigger_fired_at;
    last_fired = now;
    execution_count = r.execution_count + 1;
    period_exec_count =
        if is_set r.max_exec_period then r.period_exec_count + 1 else r.period_exec_count;
  }

  -- All checks on a rule that is enabled.
  unfoldable pub gates : Env J → Times → ℤ → Bool → Option J → Rule J → Gate J
  gates env t index is_refire trigger_data r = do
    stamped ← and_gate t.at_and index r
    active ← active_gate env index stamped
    cooled ← cooldown_gate t.at_cooldown active
    counted ← executions_gate t.at_period cooled
    condition_gate env is_refire trigger_data counted
