-- ===== src/RuleEngine/LongIds.antt =====
-- app/engine/rule_engine.c: what `RuleEngine_Add` does with an id longer than the field that holds it.
use event_engine_acap.Prelude.{
  suc, ◌+◌, ◌≤◌, ◌<◌, ◌≡◌, refl, ap, false, Bool-cases, inl, inr, none, some, List, [], ◌∷◌, ◌++◌,
  Str, codes, str_eq, str_eq_iff, str_eq_refl, snprintf, snprintf_or, length, length-append,
  length-take, take, arith,
}
use event_engine_acap.Cjson.{Cjson, string_of}
use event_engine_acap.Table.{find_key, find-append, occurs, occurs-append}
use event_engine_acap.RuleEngine.Rule.{Rule, rule_key, max_rules, rule_from_json}
use event_engine_acap.RuleEngine.Store.{id_taken, rule_engine_add}

cut_id : (g : Str) → 37 ≤ length g → str_eq (snprintf 37 g) g ≡ false
unfolding snprintf
cut_id g long = elim (Bool-cases (str_eq (take 36 g) g)) [
  | inl e ↦ absurd (omega (arith, ap length ((str_eq_iff (take 36 g) g).0 e), length-take 36 g))
  | inr e ↦ e
]

module _ {J D : Type 0} (c : Cjson J D) where
  add_untaken :
      (uuid : Str) (rules : List (Rule J)) (json : J) (g : Str)
      → string_of c json (codes "id") ≡ some g
      → 37 ≤ length g
      → length rules < max_rules
      → find_key rule_key g rules ≡ none
      → (rule_engine_add c uuid rules (some json)).0 ≡ rules ++ (rule_from_json c json ∷ [])
  unfolding rule_engine_add
  add_untaken uuid rules json g given long room free =
      rw (given, free, rule_engine_add, id_taken) (ground arith)

  long_id_free :
      (rules : List (Rule J)) (json : J) (g : Str)
      → string_of c json (codes "id") ≡ some g
      → 37 ≤ length g
      → find_key rule_key g rules ≡ none
      → find_key rule_key g (rules ++ (rule_from_json c json ∷ [])) ≡ none
  unfolding rule_from_json snprintf_or find_key
  long_id_free rules json g given long free =
      rw (find-append rule_key g rules (rule_from_json c json ∷ []), free, given, cut_id g long)
        refl

  long_id_occurs :
      (rules : List (Rule J)) (json : J) (g : Str)
      → string_of c json (codes "id") ≡ some g
      → occurs rule_key (snprintf 37 g) (rules ++ (rule_from_json c json ∷ []))
        ≡ suc (occurs rule_key (snprintf 37 g) rules)
  unfolding rule_from_json snprintf_or occurs
  long_id_occurs rules json g given =
      rw
        (
          occurs-append rule_key (snprintf 37 g) rules (rule_from_json c json ∷ []),
          given,
          str_eq_refl (snprintf 37 g),
        )
        (omega arith)

  -- An id of 37 bytes or more in a body is compared before it is cut, so no rule answers to it:
  -- adding such a body twice, with room for both, stores two rules under the cut id.
  pub rule_engine_add_long :
      (uuid uuid' : Str) (rules : List (Rule J)) (json : J) (g : Str)
      → string_of c json (codes "id") ≡ some g
      → 37 ≤ length g
      → length rules + 1 < max_rules
      → find_key rule_key g rules ≡ none
      → let once = (rule_engine_add c uuid rules (some json)).0 in
        occurs rule_key (snprintf 37 g) (rule_engine_add c uuid' once (some json)).0
        ≡ occurs rule_key (snprintf 37 g) rules + 2
  rule_engine_add_long uuid uuid' rules json g given long room free =
      let once = rules ++ (rule_from_json c json ∷ []) in
      rw
        (
          add_untaken uuid rules json g given long (omega arith) free,
          add_untaken uuid' once json g given long
              (omega (arith, length-append rules (rule_from_json c json ∷ [])))
              (long_id_free rules json g given long free),
        )
        (omega (arith, long_id_occurs once json g given, long_id_occurs rules json g given))
