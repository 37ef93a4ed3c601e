-- ===== src/Conditions/Laws.antt =====
-- app/engine/conditions.c: what the evaluation of the conditions of a rule decides.
use event_engine_acap.Prelude.{
  ℕ, ◌≡◌, ◌≢◌, refl, ap, ◌⊎◌, ◌↔◌, inl, inr, Bool, true, false, not, Option-cases, Option, none,
  some, List, [], ◌∷◌, Str, codes, arith,
}
use event_engine_acap.Cjson.{Cjson, string_of}
use event_engine_acap.RuleEngine.Rule.{ConditionLogic, and_logic, or_logic}
use event_engine_acap.Variables.Store.{Doubles, Variables}
use event_engine_acap.Conditions.Evaluate.{
  in_window, Answers, LocalTime, ConditionType, time_window, counter, io_state, variable_compare,
  day_night, vapix_event_state, http_check, aoa_occupancy, trigger_data, unknown_type,
  condition_type, pass_of, typed_pass, passes, evaluate_from, evaluate_list, conditions_evaluate,
  conditions_evaluate_lightweight,
}

-- What passes in the first case passes in the second, and the same conditions are passed over.
abbrev Weaker : Option Bool → Option Bool → Type 0
Weaker none none = Unit {0}
Weaker none (some b) = ⊥
Weaker (some b) none = ⊥
Weaker (some b) (some b') = b ≡ true → b' ≡ true

module _ {J D : Type 0} (c : Cjson J D) (d : Doubles D) (scan : Str → ℕ × ℕ) (a : Answers J)
    (t : LocalTime) (vs : Variables D) where
  -- No condition of the list fails.
  abbrev pub NoneFails : Bool → Option J → List J → Type 0
  NoneFails skip tdata [] = Unit {0}
  NoneFails skip tdata (cond ∷ conds) =
      (passes c d scan a t vs skip tdata cond ≢ some false) × NoneFails skip tdata conds

  -- A condition of the list passes.
  abbrev pub OnePasses : Bool → Option J → List J → Type 0
  OnePasses skip tdata [] = ⊥
  OnePasses skip tdata (cond ∷ conds) =
      (passes c d scan a t vs skip tdata cond ≡ some true) ⊎ OnePasses skip tdata conds

  -- A condition is passed over, fails or passes.
  verdict_cases :
      (skip : Bool) (tdata : Option J) (cond : J)
      → (passes c d scan a t vs skip tdata cond ≡ none)
        ⊎ ((passes c d scan a t vs skip tdata cond ≡ some false)
            ⊎ (passes c d scan a t vs skip tdata cond ≡ some true))
  verdict_cases skip tdata cond = elim (Option-cases (passes c d scan a t vs skip tdata cond)) [
    | inl e ↦ inl e
    | inr (true, e) ↦ inr (inr e)
    | inr (false, e) ↦ inr (inl e)
  ]

  evaluate_and :
      (skip : Bool) (tdata : Option J) (conds : List J)
      → (evaluate_from c d scan a t vs and_logic skip tdata conds ≡ true)
        ↔ NoneFails skip tdata conds
  unfolding evaluate_from
  evaluate_and skip tdata [] = (λ e. tt, λ h. refl)
  evaluate_and skip tdata (cond ∷ conds) =
      let (there, back) = evaluate_and skip tdata conds in
      elim (verdict_cases skip tdata cond) [
        | inl e ↦ rw (e, evaluate_from) ((λ h. (λ p. cc, there h)), λ h. back h.1)
        | inr (inl e) ↦ rw (e, evaluate_from) ((λ h. cc), λ h. absurd (h.0 refl))
        | inr (inr e) ↦ rw (e, evaluate_from) ((λ h. (λ p. cc, there h)), λ h. back h.1)
      ]

  evaluate_or :
      (skip : Bool) (tdata : Option J) (conds : List J)
      → (evaluate_from c d scan a t vs or_logic skip tdata conds ≡ true)
        ↔ OnePasses skip tdata conds
  unfolding evaluate_from
  evaluate_or skip tdata [] = (λ e. cc, λ h. absurd h)
  evaluate_or skip tdata (cond ∷ conds) =
      let (there, back) = evaluate_or skip tdata conds in
      elim (verdict_cases skip tdata cond) [
        | inl e ↦
            rw (e, evaluate_from)
              ((λ h. inr (there h)), λ h. elim h [ inl p ↦ cc | inr q ↦ back q ])
        | inr (inl e) ↦
            rw (e, evaluate_from)
              ((λ h. inr (there h)), λ h. elim h [ inl p ↦ cc | inr q ↦ back q ])
        | inr (inr e) ↦ rw (e, evaluate_from) ((λ h. inl refl), λ h. refl)
      ]

  -- `Conditions_Evaluate` and `Conditions_Evaluate_Lightweight` under AND pass exactly when no condition
  -- of a known type fails, and under OR when there is no condition at all or one that passes.
  pub evaluate_list_lem :
      (skip : Bool) (tdata : Option J) (conds : List J)
      → ((evaluate_list c d scan a t vs and_logic skip tdata conds ≡ true)
          ↔ NoneFails skip tdata conds)
        × ((evaluate_list c d scan a t vs or_logic skip tdata conds ≡ true)
            ↔ ((conds ≡ []) ⊎ OnePasses skip tdata conds))
  evaluate_list_lem skip tdata [] = ((λ e. tt, λ h. refl), (λ e. inl refl, λ h. refl))
  evaluate_list_lem skip tdata (cond ∷ conds) =
      let (there, back) = evaluate_or skip tdata (cond ∷ conds) in
      (
        evaluate_and skip tdata (cond ∷ conds),
        (λ e. inr (there e), λ h. elim h [ inl e ↦ cc | inr p ↦ back p ]),
      )

  Weaker-pass_of :
      (tdata : Option J) (k : ConditionType) (cond : J)
      → Weaker
          (pass_of c d scan a t vs false tdata k cond)
          (pass_of c d scan a t vs true none k cond)
  Weaker-pass_of tdata time_window cond = λ e. e
  Weaker-pass_of tdata counter cond = λ e. e
  Weaker-pass_of tdata io_state cond = λ e. e
  Weaker-pass_of tdata variable_compare cond = λ e. e
  Weaker-pass_of tdata day_night cond = λ e. e
  Weaker-pass_of tdata vapix_event_state cond = λ e. refl
  Weaker-pass_of tdata http_check cond = λ e. refl
  Weaker-pass_of tdata aoa_occupancy cond = λ e. refl
  Weaker-pass_of tdata trigger_data cond = λ e. refl
  Weaker-pass_of tdata unknown_type cond = tt

  Weaker-typed :
      (tdata : Option J) (cond : J) (o : Option Str)
      → Weaker
          (typed_pass c d scan a t vs false tdata cond o)
          (typed_pass c d scan a t vs true none cond o)
  Weaker-typed tdata cond none = tt
  Weaker-typed tdata cond (some type) = Weaker-pass_of tdata (condition_type type) cond

  Weaker-passes :
      (tdata : Option J) (cond : J)
      → Weaker (passes c d scan a t vs false tdata cond) (passes c d scan a t vs true none cond)
  unfolding passes
  Weaker-passes tdata cond = Weaker-typed tdata cond (string_of c cond (codes "type"))

  fails-Weaker : (o o' : Option Bool) → Weaker o o' → o ≢ some false → o' ≢ some false
  fails-Weaker none none w h = λ e. cc
  fails-Weaker none (some b) w h = absurd w
  fails-Weaker (some b) none w h = absurd w
  fails-Weaker (some true) (some b') w h = λ e. cc (w refl)
  fails-Weaker (some false) (some b') w h = absurd (h refl)

  some-Weaker : (o o' : Option Bool) → Weaker o o' → o ≡ some true → o' ≡ some true
  some-Weaker none o' w e = cc
  some-Weaker (some b) none w e = absurd w
  some-Weaker (some true) (some b') w e = ap some (w refl)
  some-Weaker (some false) (some b') w e = cc

  light-NoneFails :
      (tdata : Option J) (conds : List J) → NoneFails false tdata conds → NoneFails true none conds
  light-NoneFails tdata [] h = tt
  light-NoneFails tdata (cond ∷ conds) (here, rest) =
      (fails-Weaker _ _ (Weaker-passes tdata cond) here, light-NoneFails tdata conds rest)

  light-OnePasses :
      (tdata : Option J) (conds : List J) → OnePasses false tdata conds → OnePasses true none conds
  light-OnePasses tdata [] h = h
  light-OnePasses tdata (cond ∷ conds) (inl here) =
      inl (some-Weaker _ _ (Weaker-passes tdata cond) here)
  light-OnePasses tdata (cond ∷ conds) (inr rest) = inr (light-OnePasses tdata conds rest)

  -- Conditions that `Conditions_Evaluate` passes for a trigger also pass
  -- `Conditions_Evaluate_Lightweight` at the same time, under both logics.
  pub conditions_evaluate_lightweight_passes :
      (conditions : J) (logic : ConditionLogic) (tdata : Option J)
      → conditions_evaluate c d scan a t vs conditions logic tdata ≡ true
      → conditions_evaluate_lightweight c d scan a t vs conditions logic ≡ true
  unfolding conditions_evaluate conditions_evaluate_lightweight
  conditions_evaluate_lightweight_passes conditions and_logic tdata e =
      let conds = c.children conditions in
      (evaluate_list_lem true none conds).0.1
        (light-NoneFails tdata conds ((evaluate_list_lem false tdata conds).0.0 e))
  conditions_evaluate_lightweight_passes conditions or_logic tdata e =
      let conds = c.children conditions in
      elim ((evaluate_list_lem false tdata conds).1.0 e) [
        | inl nothing ↦ (evaluate_list_lem true none conds).1.1 (inl nothing)
        | inr one ↦ (evaluate_list_lem true none conds).1.1 (inr (light-OnePasses tdata conds one))
      ]

-- Of two different times of day, every time is in the window from the one to the other or in the one
-- back, and not in both.
pub in_window_back :
    (start stop sod : ℕ) → start ≢ stop → in_window start stop sod ≡ not (in_window stop start sod)
in_window_back start stop sod other = ground arith
