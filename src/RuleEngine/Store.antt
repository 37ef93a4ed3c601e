-- ===== src/RuleEngine/Store.antt =====
-- app/engine/rule_engine.c: the rule store as the API changes it. An operation returns the rules, its
-- result and the calls that it makes of other parts, in their order.
use event_engine_acap.Prelude.{
  ℕ, ◌+◌, Bool, true, false, leb, if◌then◌else◌, Option, none, some, List, [], ◌∷◌, ◌++◌, Str,
  codes, str_eq, snprintf, length, update_first,
}
use event_engine_acap.Cjson.{Cjson, string_of, is_set}
use event_engine_acap.Table.{find_key, index_of, swap_remove}
use event_engine_acap.RuleEngine.Rule.{Rule, rule_key, max_rules, rule_from_json}
use event_engine_acap.RuleEngine.Listing.{rules_to_json}

pub data StoreEffect (J : Type 0) : Type 0 where
  -- `ACAP_FILE_Write("localdata/rules.json", …)`
  write_rules : J → StoreEffect J
  -- `schedule_subscribe(id, triggers)` and `schedule_unsubscribe(id)`
  schedule_subscribe : Str → J → StoreEffect J
  schedule_unsubscribe : Str → StoreEffect J
  -- `Actions_IoFlash_Stop_Rule(id)`
  stop_io_flash : Str → StoreEffect J

-- `given_id && strlen(given_id) >= 8`
abbrev pub usable_id : Option Str → Bool
usable_id none = false
usable_id (some id) = leb 8 (length id)

abbrev pub id_taken : {J : Type 0} → List (Rule J) → Option Str → Bool
id_taken rules none = false
id_taken rules (some id) = elim (find_key rule_key id rules) [ none ↦ false | some r ↦ true ]

unfoldable pub rule_engine_exists : {J : Type 0} → List (Rule J) → Str → Bool
rule_engine_exists rules id = if is_set id then id_taken rules (some id) else false

-- The ids of the rules that `RuleEngine_Init` subscribes, with their triggers.
abbrev pub subscribe_enabled : {J : Type 0} → List (Rule J) → List (StoreEffect J)
subscribe_enabled [] = []
subscribe_enabled (r ∷ rs) =
    if r.enabled
    then schedule_subscribe r.id r.triggers_json ∷ subscribe_enabled rs
    else subscribe_enabled rs

unfoldable pub rule_engine_is_enabled : {J : Type 0} → List (Rule J) → Str → Bool
rule_engine_is_enabled rules id = elim (find_key rule_key id rules) [
  | none ↦ false
  | some r ↦ r.enabled
]

abbrev pub enable : {J : Type 0} → Bool → Rule J → Rule J
enable enabled r = record r { enabled = enabled }

unfoldable pub rule_engine_count_enabled : {J : Type 0} → List (Rule J) → ℕ
rule_engine_count_enabled [] = 0
rule_engine_count_enabled (r ∷ rs) =
    let rest = rule_engine_count_enabled rs in if r.enabled then rest + 1 else rest

module _ {J D : Type 0} (c : Cjson J D) where
  -- The loop of `RuleEngine_Init`; `n` rules are stored.
  unfoldable pub init_rules : ℕ → List J → List (Rule J)
  init_rules n [] = []
  init_rules n (obj ∷ rest) =
      let more = rule_from_json c obj ∷ init_rules (n + 1) rest in
      if leb max_rules n then [] else more

  -- The arguments are what is read of localdata/rules.json and of settings/default_rules.json; each
  -- is `none` where the file is missing or cannot be parsed.
  unfoldable pub rule_engine_init : Option J → Option J → List (Rule J) × List (StoreEffect J)
  rule_engine_init saved defaults =
      let source : Option J = elim saved [ none ↦ defaults | some json ↦ some json ] in
      let rules : List (Rule J) = elim source [
        | none ↦ []
        | some json ↦ if c.is_array json then init_rules 0 (c.children json) else []
      ] in
      (rules, subscribe_enabled rules)

  -- `uuid` is what `gen_uuid` writes, which is called if no usable id was given. The result is the
  -- id that `id_out_37` receives, and `none` stands for the result 0.
  unfoldable pub rule_engine_add :
      Str → List (Rule J) → Option J → List (Rule J) × Option Str × List (StoreEffect J)
  rule_engine_add uuid rules none = (rules, none, [])
  rule_engine_add uuid rules (some rule_json) =
      let given = string_of c rule_json (codes "id") in
      let parsed = rule_from_json c rule_json in
      let r = if usable_id given then parsed else record parsed { id = uuid } in
      let rules' = rules ++ (r ∷ []) in
      let subscribed = if r.enabled then schedule_subscribe r.id r.triggers_json ∷ [] else [] in
      if leb max_rules (length rules)
      then (rules, none, [])
      else if usable_id given
      then (if id_taken rules given
          then (rules, none, [])
          else (rules', some (snprintf 37 r.id), write_rules (rules_to_json c rules') ∷ subscribed))
      else (rules', some (snprintf 37 r.id), write_rules (rules_to_json c rules') ∷ subscribed)

  unfoldable pub rule_engine_update :
      List (Rule J) → Str → J → List (Rule J) × Bool × List (StoreEffect J)
  rule_engine_update rules id rule_json =
      let r = record (rule_from_json c rule_json) { id = snprintf 37 id } in
      let rules' = update_first (λ x. str_eq (rule_key x) id) (λ x. r) rules in
      if id_taken rules (some id)
      then (
        rules',
        true,
        write_rules (rules_to_json c rules')
            ∷ (if r.enabled then schedule_subscribe id r.triggers_json else schedule_unsubscribe id)
            ∷ stop_io_flash id
            ∷ [],
      )
      else (rules, false, [])

  unfoldable pub rule_engine_delete :
      List (Rule J) → Str → List (Rule J) × Bool × List (StoreEffect J)
  rule_engine_delete rules id = elim (index_of (λ x. str_eq (rule_key x) id) rules) [
    | none ↦ (rules, false, [])
    | some i ↦ (
      swap_remove rules i,
      true,
      write_rules (rules_to_json c (swap_remove rules i))
          ∷ schedule_unsubscribe id
          ∷ stop_io_flash id
          ∷ [],
    )
  ]

  unfoldable pub rule_engine_set_enabled :
      List (Rule J) → Str → Bool → List (Rule J) × Bool × List (StoreEffect J)
  rule_engine_set_enabled rules id enabled =
      let rules' = update_first (λ x. str_eq (rule_key x) id) (enable enabled) rules in
      elim (find_key rule_key id rules) [
        | none ↦ (rules, false, [])
        | some r ↦ (
          rules',
          true,
          write_rules (rules_to_json c rules')
              ∷ (if enabled
                  then schedule_subscribe id r.triggers_json ∷ []
                  else schedule_unsubscribe id ∷ stop_io_flash id ∷ []),
        )
      ]
