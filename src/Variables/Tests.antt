-- ===== src/Variables/Tests.antt =====
-- Runs of the store, and its theorems at concrete inputs. A double is a number here.
use event_engine_acap.Prelude.{
  ◌+◌, ◌-◌, ◌≡◌, refl, true, false, ltb, leb, some, [], ◌∷◌, codes, str_eq_iff, arith, map, ℤ, pos,
  pos_part,
}
use event_engine_acap.Cjson.{json, json_laws}
use event_engine_acap.Table.{Distinct, occurs}
use event_engine_acap.Variables.Store.{
  Doubles, Variable, Variables, var_key, variables_set, counter_increment,
}
use event_engine_acap.Variables.Laws.{IsValid}
use event_engine_acap.Variables.Runs.{set_var, delete_var, run, run-IsValid}
use event_engine_acap.Variables.Persist.{AllFit, init-save, variables_init, save_locked, reloaded}

abbrev doubles : Doubles ℤ
doubles = record {
  zero = pos 0;
  add = λ a b. pos (pos_part a + pos_part b);
  sub = λ a b. pos (pos_part a - pos_part b);
  fabs = λ a. a;
  lt = λ a b. ltb (pos_part a) (pos_part b);
  le = λ a b. leb (pos_part a) (pos_part b);
  tolerance = pos 1;
  format_g = λ a. pos_part a ∷ [];
  atof = λ s. pos 0;
}

abbrev door : Variable ℤ
door = record { name = codes "door"; value = codes "open"; numeric = pos 0; is_counter = false }

abbrev hits : Variable ℤ
hits = record { name = codes "hits"; value = 3 ∷ []; numeric = pos 3; is_counter = true }

abbrev two_vars : Variables ℤ
two_vars = record { store = door ∷ hits ∷ []; dirty = false }

two_vars-Distinct : Distinct var_key two_vars.store
unfolding occurs
two_vars-Distinct k = ground (arith, str_eq_iff (codes "door") k, str_eq_iff (codes "hits") k)

two_vars-IsValid : IsValid two_vars.store
two_vars-IsValid = record { distinct = two_vars-Distinct; bounded = omega arith }

abbrev door_shut : Variables ℤ
door_shut = (variables_set doubles two_vars (some (codes "door")) (some (codes "shut"))).0

abbrev hits_four : Variables ℤ
hits_four = (counter_increment doubles two_vars (some (codes "hits")) (pos 1)).0

run-IsValid_example :
    IsValid
      (run doubles two_vars
        (set_var (codes "a") (codes "b") ∷ delete_var (codes "door") ∷ [])).store
run-IsValid_example =
    run-IsValid doubles two_vars (set_var (codes "a") (codes "b") ∷ delete_var (codes "door") ∷ [])
      (omega arith) two_vars-IsValid

two_vars-AllFit : AllFit two_vars.store
two_vars-AllFit = omega arith

init-save_example :
    (variables_init json doubles
      (record { store = []; dirty = false })
      (some (save_locked json two_vars).1)).store
    ≡ map (reloaded doubles) two_vars.store
init-save_example =
    init-save json json_laws doubles two_vars (record { store = []; dirty = false }) two_vars-AllFit
      two_vars-Distinct (omega arith) refl
