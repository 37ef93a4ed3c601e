-- ===== src/Conditions/Evaluate.antt =====
-- app/engine/conditions.c: the conditions on the time and on variables, and the evaluation of all
-- conditions of a rule.
use event_engine_acap.Prelude.{
  ℕ, ◌+◌, ◌*◌, Bool, true, false, ◌&&◌, ◌||◌, ltb, leb, ◌==◌, if◌then◌else◌, Option, none, some,
  List, [], ◌∷◌, Str, codes, str_eq, ℤ, pos, negsuc,
}
use event_engine_acap.Cjson.{Cjson, string_of}
use event_engine_acap.RuleEngine.Rule.{ConditionLogic, and_logic, or_logic}
use event_engine_acap.Variables.Store.{Doubles, Variables, variables_compare, counter_compare}

-- The answers of the conditions that ask the device or another host, or read the event: `cond_io_state`,
-- `cond_day_night`, `cond_vapix_event_state`, `cond_http_check`, `cond_aoa_occupancy` and
-- `cond_trigger_data`, at the time of the evaluation.
pub record Answers (J : Type 0) : Type 0 where
  pub io_state : J → Bool
  pub day_night : J → Bool
  pub vapix_event_state : J → Bool
  pub http_check : J → Bool
  pub aoa_occupancy : J → Bool
  pub trigger_data : J → Option J → Bool

-- The time of day in seconds and the day of the week.
pub record LocalTime : Type 0 where
  pub sod : ℕ
  pub dow : ℕ

-- The window from `start` to `stop`, which may span midnight.
abbrev pub in_window : ℕ → ℕ → ℕ → Bool
in_window start stop sod =
    if leb start stop then leb start sod && ltb sod stop else leb start sod || ltb sod stop

abbrev pub time_of : ℕ × ℕ → ℕ
time_of (hours, minutes) = hours * 3600 + minutes * 60

-- The kinds of conditions that `conditions_evaluate_internal` knows by their `type`.
pub data ConditionType : Type 0 where
  time_window counter io_state variable_compare day_night : ConditionType
  vapix_event_state http_check aoa_occupancy trigger_data unknown_type : ConditionType

unfoldable pub condition_type : Str → ConditionType
condition_type t =
    if str_eq t (codes "time_window")
    then time_window
    else if str_eq t (codes "counter")
    then counter
    else if str_eq t (codes "io_state")
    then io_state
    else if str_eq t (codes "variable_compare")
    then variable_compare
    else if str_eq t (codes "day_night")
    then day_night
    else if str_eq t (codes "vapix_event_state")
    then vapix_event_state
    else if str_eq t (codes "http_check")
    then http_check
    else if str_eq t (codes "aoa_occupancy")
    then aoa_occupancy
    else if str_eq t (codes "trigger_data")
    then trigger_data
    else unknown_type

-- `scan` is `sscanf` with "%d:%d" of a text of hours and minutes that are not negative.
module _ {J D : Type 0} (c : Cjson J D) (d : Doubles D) (scan : Str → ℕ × ℕ) where
  abbrev pub is_day : ℕ → List J → Bool
  is_day dow [] = false
  is_day dow (x ∷ xs) = if same_day (c.to_ℤ (c.valuedouble x)) then true else is_day dow xs
    where
      same_day : ℤ → Bool
      same_day (pos n) = n == dow
      same_day (negsuc n) = false

  abbrev pub day_allowed : ℕ → Option J → Bool
  day_allowed dow none = true
  day_allowed dow (some days) = if c.is_array days then is_day dow (c.children days) else true

  unfoldable pub cond_time_window : LocalTime → J → Bool
  cond_time_window t cfg = elim (string_of c cfg (codes "start")) [
    | none ↦ false
    | some start ↦ elim (string_of c cfg (codes "end")) [
      | none ↦ false
      | some stop ↦
          if day_allowed t.dow (c.get_object_item cfg (codes "days"))
          then in_window (time_of (scan start)) (time_of (scan stop)) t.sod
          else false
    ]
  ]

  unfoldable pub cond_counter : Variables D → J → Bool
  cond_counter vs cfg = elim (string_of c cfg (codes "name")) [
    | none ↦ false
    | some name ↦ elim (string_of c cfg (codes "op")) [
      | none ↦ false
      | some op ↦ elim (c.get_object_item cfg (codes "value")) [
        | none ↦ false
        | some value ↦ counter_compare d vs (some name) op (c.valuedouble value)
      ]
    ]
  ]

  unfoldable pub cond_variable_compare : Variables D → J → Bool
  cond_variable_compare vs cfg =
      variables_compare vs (string_of c cfg (codes "name")) (string_of c cfg (codes "op"))
        (string_of c cfg (codes "value"))

  -- A condition of a type that is known passes or not; an unknown one is `none`.
  module _ (a : Answers J) (t : LocalTime) (vs : Variables D) where
    abbrev pub pass_of : Bool → Option J → ConditionType → J → Option Bool
    pass_of skip_expensive tdata time_window cond = some (cond_time_window t cond)
    pass_of skip_expensive tdata counter cond = some (cond_counter vs cond)
    pass_of skip_expensive tdata io_state cond = some (a.io_state cond)
    pass_of skip_expensive tdata variable_compare cond = some (cond_variable_compare vs cond)
    pass_of skip_expensive tdata day_night cond = some (a.day_night cond)
    pass_of skip_expensive tdata vapix_event_state cond =
        some (if skip_expensive then true else a.vapix_event_state cond)
    pass_of skip_expensive tdata http_check cond =
        some (if skip_expensive then true else a.http_check cond)
    pass_of skip_expensive tdata aoa_occupancy cond =
        some (if skip_expensive then true else a.aoa_occupancy cond)
    pass_of skip_expensive tdata trigger_data cond =
        some (if skip_expensive then true else a.trigger_data cond tdata)
    pass_of skip_expensive tdata unknown_type cond = none

    abbrev pub typed_pass : Bool → Option J → J → Option Str → Option Bool
    typed_pass skip_expensive tdata cond none = none
    typed_pass skip_expensive tdata cond (some type) =
        pass_of skip_expensive tdata (condition_type type) cond

    -- Whether a condition passes, with `none` for one that is passed over.
    unfoldable pub passes : Bool → Option J → J → Option Bool
    passes skip_expensive tdata cond =
        typed_pass skip_expensive tdata cond (string_of c cond (codes "type"))

    -- The loop, which ends at the first condition that decides.
    unfoldable pub evaluate_from : ConditionLogic → Bool → Option J → List J → Bool
    evaluate_from and_logic skip tdata [] = true
    evaluate_from or_logic skip tdata [] = false
    evaluate_from and_logic skip tdata (cond ∷ conds) =
        let rest = evaluate_from and_logic skip tdata conds in
        elim (passes skip tdata cond) [ none ↦ rest | some pass ↦ if pass then rest else false ]
    evaluate_from or_logic skip tdata (cond ∷ conds) =
        let rest = evaluate_from or_logic skip tdata conds in
        elim (passes skip tdata cond) [ none ↦ rest | some pass ↦ if pass then true else rest ]

    abbrev pub evaluate_list : ConditionLogic → Bool → Option J → List J → Bool
    evaluate_list logic skip tdata [] = true
    evaluate_list logic skip tdata (cond ∷ conds) = evaluate_from logic skip tdata (cond ∷ conds)

    unfoldable pub conditions_evaluate : J → ConditionLogic → Option J → Bool
    conditions_evaluate conditions logic tdata =
        evaluate_list logic false tdata (c.children conditions)

    unfoldable pub conditions_evaluate_lightweight : J → ConditionLogic → Bool
    conditions_evaluate_lightweight conditions logic =
        evaluate_list logic true none (c.children conditions)
