-- ===== src/RuleEngine/Edits.antt =====
-- app/engine/rule_engine.c: updates, deletions and switches of a rule, in a store with one rule to an
-- id.
use event_engine_acap.Prelude.{
  ℕ, zero, suc, ◌≡◌, refl, ◌≢◌, ◌↔◌, inl, inr, Bool, true, false, if◌then◌else◌, Option-cases, none,
  some, List, [], Str, str_eq, str_eq_iff, str_eq_refl, snprintf, snprintf_fits, length, ◌<◌, arith,
  update_first,
}
use event_engine_acap.Cjson.{Cjson}
use event_engine_acap.Table.{
  find_key, index_of, swap_remove, occurs_of_find_none, find-swap_remove, find_of_index_none,
  occurs-swap_remove, length-swap_remove, find-update_first, occurs-update_first,
  length-update_first,
}
use event_engine_acap.RuleEngine.Rule.{Rule, rule_key, rule_from_json}
use event_engine_acap.RuleEngine.Store.{
  id_taken, rule_engine_update, rule_engine_delete, rule_engine_set_enabled, enable,
}
use event_engine_acap.RuleEngine.Ids.{IsStore}

replaced-IsStore :
    {J : Type 0} (id : Str) (f : Rule J → Rule J)
    → ((x : Rule J) → rule_key x ≡ id → rule_key (f x) ≡ id)
    → (rules : List (Rule J)) → IsStore rules
    → IsStore (update_first (λ x. str_eq (rule_key x) id) f rules)
replaced-IsStore id f keeps rules v = record {
  distinct = λ k. omega (arith, v.distinct k, occurs-update_first rule_key id f keeps k rules);
  bounded = omega (arith, v.bounded, length-update_first rule_key id f keeps rules);
}

module _ {J D : Type 0} (c : Cjson J D) where
  delete_miss :
      (rules : List (Rule J)) (id : Str)
      → index_of (λ x. str_eq (rule_key x) id) rules ≡ none
      → rule_engine_delete c rules id ≡ (rules, false, [])
  unfolding rule_engine_delete
  delete_miss rules id e = rw (e, rule_engine_delete) refl

  delete_hit :
      (rules : List (Rule J)) (id : Str) (i : ℕ)
      → index_of (λ x. str_eq (rule_key x) id) rules ≡ some i
      → ((rule_engine_delete c rules id).0 ≡ swap_remove rules i)
        × ((rule_engine_delete c rules id).1 ≡ true)
  unfolding rule_engine_delete
  delete_hit rules id i e = rw (e, rule_engine_delete) (refl, refl)

  found_of_index :
      (rules : List (Rule J)) (id : Str) (i : ℕ)
      → index_of (λ x. str_eq (rule_key x) id) rules ≡ some i
      → find_key rule_key id rules ≢ none
  found_of_index rules id i at gone = omega (
    arith,
    occurs-swap_remove rule_key id rules i at id,
    occurs_of_find_none rule_key id rules gone,
    one,
  )
    where
      one : (if str_eq id id then suc zero else zero) ≡ 1
      one = rw (str_eq_refl id) refl

  -- `RuleEngine_Delete` of an id removes the rule of that id alone and keeps the store well formed; it
  -- returns 0 exactly on an id that no rule has.
  pub rule_engine_delete-find :
      (rules : List (Rule J)) (id : Str)
      → IsStore rules
      → IsStore (rule_engine_delete c rules id).0
        × ((j : Str)
            → find_key rule_key j (rule_engine_delete c rules id).0
              ≡ (if str_eq id j then none else find_key rule_key j rules))
        × (((rule_engine_delete c rules id).1 ≡ false) ↔ (find_key rule_key id rules ≡ none))
  rule_engine_delete-find rules id v =
      elim (Option-cases (index_of (λ x. str_eq (rule_key x) id) rules)) [
        | inl gone ↦ rw (delete_miss rules id gone) (
          v,
          λ j. ground (arith, find_of_index_none rule_key id rules gone, str_eq_iff id j),
          (λ e. find_of_index_none rule_key id rules gone, λ e. refl),
        )
        | inr (i, at) ↦
            let (left, hit) = delete_hit rules id i at in
            rw (left, hit)
              (
                record {
                  distinct =
                      λ k. omega (arith, v.distinct k, occurs-swap_remove rule_key id rules i at k);
                  bounded = omega (arith, v.bounded, length-swap_remove rule_key id rules i at);
                },
                λ j. ground (arith, find-swap_remove rule_key id rules i at v.distinct j),
                (λ e. cc, λ e. absurd (found_of_index rules id i at e)),
              )
      ]

  -- The rule that `RuleEngine_Update` puts in the place of the rule `id`.
  abbrev pub updated : Str → J → Rule J
  updated id rule_json = record (rule_from_json c rule_json) { id = snprintf 37 id }

  update_miss :
      (rules : List (Rule J)) (id : Str) (rule_json : J)
      → find_key rule_key id rules ≡ none
      → ((rule_engine_update c rules id rule_json).0 ≡ rules)
        × ((rule_engine_update c rules id rule_json).1 ≡ false)
  unfolding rule_engine_update
  update_miss rules id rule_json e = rw (e, id_taken, rule_engine_update) (refl, refl)

  update_hit :
      (rules : List (Rule J)) (id : Str) (rule_json : J) (r : Rule J)
      → find_key rule_key id rules ≡ some r
      → ((rule_engine_update c rules id rule_json).0
          ≡ update_first (λ x. str_eq (rule_key x) id) (λ x. updated id rule_json) rules)
        × ((rule_engine_update c rules id rule_json).1 ≡ true)
  unfolding rule_engine_update
  update_hit rules id rule_json r e = rw (e, id_taken, rule_engine_update) (refl, refl)

  -- `RuleEngine_Update` of an id of at most 36 bytes: the rule that the id names becomes the one of the
  -- body, with its id kept, no other id is affected and the store stays well formed; the result is 0
  -- exactly on an id that no rule has.
  pub rule_engine_update-find :
      (rules : List (Rule J)) (id : Str) (rule_json : J)
      → IsStore rules
      → length id < 37
      → IsStore (rule_engine_update c rules id rule_json).0
        × ((j : Str)
            → find_key rule_key j (rule_engine_update c rules id rule_json).0 ≡ (
                if str_eq id j
                then elim (find_key rule_key j rules) [
                  | none ↦ none
                  | some r ↦ some (updated id rule_json)
                ]
                else find_key rule_key j rules))
        × (((rule_engine_update c rules id rule_json).1 ≡ false)
            ↔ (find_key rule_key id rules ≡ none))
  rule_engine_update-find rules id rule_json v short =
      elim (Option-cases (find_key rule_key id rules)) [
        | inl gone ↦
            let (left, miss) = update_miss rules id rule_json gone in
            rw (left, miss) (v, λ j. ground (arith, gone, str_eq_iff id j), (λ e. gone, λ e. refl))
        | inr (r, found) ↦
            let (left, hit) = update_hit rules id rule_json r found in
            rw (left, hit)
              (
                replaced-IsStore id (λ x. updated id rule_json) (λ x e. snprintf_fits 37 id short)
                    rules v,
                λ j.
                    find-update_first rule_key id (λ x. updated id rule_json)
                      (λ x e. snprintf_fits 37 id short) j rules,
                (λ e. cc, λ e. cc),
              )
      ]

  switch_miss :
      (rules : List (Rule J)) (id : Str) (on : Bool)
      → find_key rule_key id rules ≡ none
      → ((rule_engine_set_enabled c rules id on).0 ≡ rules)
        × ((rule_engine_set_enabled c rules id on).1 ≡ false)
  unfolding rule_engine_set_enabled
  switch_miss rules id on e = rw (e, rule_engine_set_enabled) (refl, refl)

  switch_hit :
      (rules : List (Rule J)) (id : Str) (on : Bool) (r : Rule J)
      → find_key rule_key id rules ≡ some r
      → ((rule_engine_set_enabled c rules id on).0
          ≡ update_first (λ x. str_eq (rule_key x) id) (enable on) rules)
        × ((rule_engine_set_enabled c rules id on).1 ≡ true)
  unfolding rule_engine_set_enabled
  switch_hit rules id on r e = rw (e, rule_engine_set_enabled) (refl, refl)

  -- `RuleEngine_SetEnabled` sets the switch of the rule that the id names, and nothing else of it or of
  -- another id, and keeps the store well formed; the result is 0 exactly on an id that no rule has.
  pub rule_engine_set_enabled-find :
      (rules : List (Rule J)) (id : Str) (on : Bool)
      → IsStore rules
      → IsStore (rule_engine_set_enabled c rules id on).0
        × ((j : Str)
            → find_key rule_key j (rule_engine_set_enabled c rules id on).0 ≡ (
                if str_eq id j
                then elim (find_key rule_key j rules) [
                  | none ↦ none
                  | some r ↦ some (record r { enabled = on })
                ]
                else find_key rule_key j rules))
        × (((rule_engine_set_enabled c rules id on).1 ≡ false)
            ↔ (find_key rule_key id rules ≡ none))
  rule_engine_set_enabled-find rules id on v = elim (Option-cases (find_key rule_key id rules)) [
    | inl gone ↦
        let (left, miss) = switch_miss rules id on gone in
        rw (left, miss) (v, λ j. ground (arith, gone, str_eq_iff id j), (λ e. gone, λ e. refl))
    | inr (r, found) ↦
        let (left, hit) = switch_hit rules id on r found in
        rw (left, hit)
          (
            replaced-IsStore id (enable on) (λ x e. e) rules v,
            λ j. find-update_first rule_key id (enable on) (λ x e. e) j rules,
            (λ e. cc, λ e. cc),
          )
  ]
