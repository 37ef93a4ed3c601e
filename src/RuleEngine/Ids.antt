-- ===== src/RuleEngine/Ids.antt =====
-- app/engine/rule_engine.c: the rule ids under the operations of the API.
use event_engine_acap.Prelude.{
  ◌≤◌, ◌<◌, ◌≡◌, refl, ◌∙◌, ◌⊎◌, inl, inr, true, false, leb, if◌then◌else◌, Bool-cases,
  Option-cases, Option, none, some, List, [], ◌∷◌, ◌++◌, Str, codes, str_eq, str_eq_iff, snprintf,
  snprintf_or, snprintf_fits, length, length-append, arith,
}
use event_engine_acap.Cjson.{Cjson, string_of}
use event_engine_acap.Table.{
  find_key, occurs, Distinct, find-append, occurs-append, occurs_of_find_none,
}
use event_engine_acap.RuleEngine.Rule.{Rule, rule_key, max_rules, rule_from_json}
use event_engine_acap.RuleEngine.Store.{StoreEffect, id_taken, usable_id, rule_engine_add}

-- No two rules answer to one id, and the rules fit the array.
pub record IsStore {J : Type 0} (rules : List (Rule J)) : Type 0 where
  pub distinct : Distinct rule_key rules
  pub bounded : length rules ≤ max_rules

-- The id under which `RuleEngine_Add` stores a rule.
abbrev pub chosen : Str → Option Str → Str
chosen uuid given = if usable_id given then snprintf_or 37 given [] else uuid

taken_of_found :
    {J : Type 0} (g : Str) (rules : List (Rule J)) (r : Rule J)
    → find_key rule_key g rules ≡ some r
    → id_taken rules (some g) ≡ true
taken_of_found g rules r found = rw (found, id_taken) refl

pub untaken_absent :
    {J : Type 0} (g : Str) (rules : List (Rule J))
    → id_taken rules (some g) ≡ false
    → find_key rule_key g rules ≡ none
untaken_absent g rules untaken = elim (Option-cases (find_key rule_key g rules)) [
  | inl gone ↦ gone
  | inr (r, found) ↦ absurd (cc (taken_of_found g rules r found))
]

chosen_free :
    {J : Type 0} (uuid : Str) (o : Option Str) (rules : List (Rule J))
    → length uuid < 37
    → find_key rule_key uuid rules ≡ none
    → ((given : Str) → o ≡ some given → length given < 37)
    → (usable_id o ≡ false) ⊎ (id_taken rules o ≡ false)
    → (length (chosen uuid o) < 37) × (find_key rule_key (chosen uuid o) rules ≡ none)
unfolding snprintf_or
chosen_free uuid none rules short fresh fits free = (short, fresh)
chosen_free uuid (some g) rules short fresh fits (inl no_id) = rw no_id (short, fresh)
chosen_free uuid (some g) rules short fresh fits (inr untaken) =
    elim (Bool-cases (leb 8 (length g))) [
      | inr small ↦ rw small (short, fresh)
      | inl usable ↦
          rw (usable, snprintf_fits 37 g (fits g refl))
            (fits g refl, untaken_absent g rules untaken)
    ]

module _ {J D : Type 0} (c : Cjson J D) where
  -- The rule that `RuleEngine_Add` stores.
  abbrev pub added : Str → J → Rule J
  added uuid json =
      if usable_id (string_of c json (codes "id"))
      then rule_from_json c json
      else record (rule_from_json c json) { id = uuid }

  -- A successful add puts the rule at the end, and its id was not taken.
  pub add_inv :
      (uuid : Str) (rules rules' : List (Rule J)) (json : J) (id : Str)
      (effects : List (StoreEffect J))
      → rule_engine_add c uuid rules (some json) ≡ (rules', some id, effects)
      → (rules' ≡ rules ++ (added uuid json ∷ []))
        × (id ≡ snprintf 37 (added uuid json).id)
        × (length rules < max_rules)
        × ((usable_id (string_of c json (codes "id")) ≡ false)
            ⊎ (id_taken rules (string_of c json (codes "id")) ≡ false))
  unfolding rule_engine_add
  add_inv uuid rules rules' json id effects e = elim (Bool-cases (leb max_rules (length rules))) [
    | inl full ↦ absurd (ground arith)
    | inr room ↦ elim (Bool-cases (usable_id (string_of c json (codes "id")))) [
      | inr fresh ↦ (ground arith, ground arith, ground arith, inl fresh)
      | inl given ↦ elim (Bool-cases (id_taken rules (string_of c json (codes "id")))) [
        | inl taken ↦ absurd (ground arith)
        | inr free ↦ (ground arith, ground arith, ground arith, inr free)
      ]
    ]
  ]

  added_id :
      (uuid : Str) (json : J) → (added uuid json).id ≡ chosen uuid (string_of c json (codes "id"))
  unfolding rule_from_json
  added_id uuid json = elim (Bool-cases (usable_id (string_of c json (codes "id")))) [
    | inl given ↦ rw given
    | inr fresh ↦ rw fresh
  ]

  stored_id :
      (uuid : Str) (json : J) (rules : List (Rule J))
      → length uuid < 37
      → find_key rule_key uuid rules ≡ none
      → ((given : Str) → string_of c json (codes "id") ≡ some given → length given < 37)
      → (usable_id (string_of c json (codes "id")) ≡ false)
        ⊎ (id_taken rules (string_of c json (codes "id")) ≡ false)
      → (length (added uuid json).id < 37) × (find_key rule_key (added uuid json).id rules ≡ none)
  stored_id uuid json rules short fresh fits free =
      rw (added_id uuid json)
        (chosen_free uuid (string_of c json (codes "id")) rules short fresh fits free)

  -- A `RuleEngine_Add` that succeeds on a well-formed store, of a body whose id, if it carries one, has
  -- at most 36 bytes, and with an id of the generator that no rule has: the store keeps one rule to an
  -- id, the returned id names the new rule, and every other id names what it named.
  pub rule_engine_add-IsStore :
      (uuid : Str) (rules rules' : List (Rule J)) (json : J) (id : Str)
      (effects : List (StoreEffect J))
      → IsStore rules
      → length uuid < 37
      → find_key rule_key uuid rules ≡ none
      → ((given : Str) → string_of c json (codes "id") ≡ some given → length given < 37)
      → rule_engine_add c uuid rules (some json) ≡ (rules', some id, effects)
      → IsStore rules'
        × ((j : Str)
            → find_key rule_key j rules'
              ≡ (if str_eq id j then some (added uuid json) else find_key rule_key j rules))
  unfolding find_key occurs
  rule_engine_add-IsStore uuid rules rules' json id effects v short fresh fits e =
      let (more, named, room, free) = add_inv uuid rules rules' json id effects e in
      let (small, absent) = stored_id uuid json rules short fresh fits free in
      let same : id ≡ (added uuid json).id = named ∙ snprintf_fits 37 (added uuid json).id small in
      rw (more, same)
        (
          record {
            distinct = λ k. ground (
              arith,
              v.distinct k,
              occurs-append rule_key k rules (added uuid json ∷ []),
              str_eq_iff (added uuid json).id k,
              occurs_of_find_none rule_key k rules,
            );
            bounded = omega (arith, length-append rules (added uuid json ∷ []));
          },
          λ j. ground (
            arith,
            find-append rule_key j rules (added uuid json ∷ []),
            str_eq_iff (added uuid json).id j,
          ),
        )
