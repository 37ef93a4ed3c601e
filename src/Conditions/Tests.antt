-- ===== src/Conditions/Tests.antt =====
-- Evaluations of conditions, and the theorems at concrete inputs.
use event_engine_acap.Prelude.{
  Option, ℕ, ◌-◌, ◌+◌, ◌≡◌, ◌⊎◌, ◌↔◌, refl, true, false, ltb, leb, none, List, [], ◌∷◌, Str, codes,
  str_eq, strcase_eq, ℤ, pos, pos_part,
}
use event_engine_acap.Cjson.{Json, json}
use event_engine_acap.RuleEngine.Rule.{and_logic, or_logic}
use event_engine_acap.Variables.Store.{Doubles, Variables}
use event_engine_acap.Conditions.Evaluate.{
  Answers, LocalTime, condition_type, passes, evaluate_from, evaluate_list, conditions_evaluate,
  conditions_evaluate_lightweight,
}
use event_engine_acap.Conditions.Laws.{
  NoneFails, OnePasses, evaluate_list_lem, conditions_evaluate_lightweight_passes,
}
use event_engine_acap.Prelude.{some, lower}
use event_engine_acap.Node.State.{strstr, starts_with}
use event_engine_acap.Conditions.TriggerData.{
  Texts, starts_nocase, contains_nocase, actual_of, trigger_data_compare, cond_trigger_data,
}
use event_engine_acap.Conditions.Occurs.{Occurs}
use event_engine_acap.Conditions.Comparisons.{
  contains_nocase_iff, HasText, Verdicts, trigger_data_compare-Verdicts,
}

abbrev doubles : Doubles ℤ
doubles = record {
  zero = pos 0;
  add = λ a b. pos (pos_part a + pos_part b);
  sub = λ a b. pos (pos_part a - pos_part b);
  fabs = λ a. a;
  lt = λ a b. ltb (pos_part a) (pos_part b);
  le = λ a b. leb (pos_part a) (pos_part b);
  tolerance = pos 1;
  format_g = λ a. pos_part a ∷ [];
  atof = λ s. pos 0;
}

-- A device whose every port is active, and a page that does not answer.
abbrev device : Answers Json
device = record {
  io_state = λ cfg. true;
  day_night = λ cfg. true;
  vapix_event_state = λ cfg. true;
  http_check = λ cfg. false;
  aoa_occupancy = λ cfg. true;
  trigger_data = λ cfg tdata. true;
}

abbrev noon : LocalTime
noon = record { sod = 43200; dow = 1 }

abbrev no_vars : Variables ℤ
no_vars = record { store = []; dirty = false }

abbrev no_times : Str → ℕ × ℕ
no_times s = (0, 0)

abbrev typed : Str → Json
typed type = json.add_item json.create_object (codes "type") (json.create_string type)

abbrev two_conditions : List Json
two_conditions = typed (codes "io_state") ∷ typed (codes "trigger_data") ∷ []

evaluate_list_lem_example :
    ((evaluate_list json doubles no_times device noon no_vars and_logic false none two_conditions
        ≡ true)
      ↔ NoneFails json doubles no_times device noon no_vars false none two_conditions)
    × ((evaluate_list json doubles no_times device noon no_vars or_logic false none two_conditions
          ≡ true)
        ↔ ((two_conditions ≡ [])
            ⊎ OnePasses json doubles no_times device noon no_vars false none two_conditions))
evaluate_list_lem_example =
    evaluate_list_lem json doubles no_times device noon no_vars false none two_conditions

conditions_evaluate_lightweight_passes_example :
    conditions_evaluate_lightweight json doubles no_times device noon no_vars
      (json.create_array two_conditions)
      and_logic
    ≡ true
unfolding conditions_evaluate evaluate_from passes condition_type str_eq strcase_eq
conditions_evaluate_lightweight_passes_example =
    conditions_evaluate_lightweight_passes json doubles no_times device noon no_vars
      (json.create_array two_conditions) and_logic none refl

abbrev texts : Texts Json ℤ
texts = record {
  is_number = λ item. false;
  format_g = λ d. [];
  strtod = λ s. (pos 0, false);
  expand_template = λ s tdata. none;
}

trigger_data_compare-Verdicts_example :
    (actual : Option Str) × HasText json texts (json.create_string (codes "new")) actual
    × Verdicts json texts
        (λ op.
          trigger_data_compare json texts (json.create_string (codes "new")) op (codes "parked"))
        (codes "parked")
        actual
trigger_data_compare-Verdicts_example =
    trigger_data_compare-Verdicts json texts (json.create_string (codes "new")) (codes "parked")

contains_nocase_iff_example :
    (contains_nocase (codes "CarState") (codes "state") ≡ true)
    ↔ Occurs (codes "CarState") (codes "state")
contains_nocase_iff_example = contains_nocase_iff (codes "CarState") (codes "state")

-- A field of the event that fired the rule is compared without regard to case.
car_is_new :
    cond_trigger_data json texts
      (json.add_item
        (json.add_item
          (json.add_item json.create_object (codes "key") (json.create_string (codes "car")))
          (codes "op")
          (json.create_string (codes "contains")))
        (codes "value")
        (json.create_string (codes "NEW")))
      (some
        (json.add_item json.create_object (codes "car") (json.create_string (codes "brand new"))))
    ≡ true
unfolding cond_trigger_data trigger_data_compare actual_of contains_nocase starts_nocase lower
    strstr starts_with str_eq strcase_eq
car_is_new = refl
