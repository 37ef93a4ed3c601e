-- ===== src/RuleEngine/Subscribe.antt =====
-- app/engine/rule_engine.c: new ids, the idle callbacks on the main loop, and the end of the engine.
use event_engine_acap.Prelude.{
  ℕ, ◌+◌, ◌/◌, ◌%◌, ◌≡◌, refl, Bool, false, ltb, if◌then◌else◌, Option, none, some, List, [], ◌∷◌,
  ◌++◌, Str, codes, get_or, length,
}
use event_engine_acap.Cjson.{Cjson, string_of, is_set}
use event_engine_acap.Table.{find_key}
use event_engine_acap.RuleEngine.Rule.{Rule, rule_key, is_text}

abbrev hex_digit : ℕ → ℕ
hex_digit n = if ltb n 10 then 48 + n else 87 + n

-- "%02x" of a byte
abbrev pub hex : ℕ → Str
hex b = hex_digit (b / 16) ∷ hex_digit (b % 16) ∷ []

-- The bytes at the places of a list, in hexadecimal.
abbrev pub hex_at : List ℕ → List ℕ → Str
hex_at buf [] = []
hex_at buf (i ∷ is) = hex (get_or buf i 0) ++ hex_at buf is

-- `gen_uuid` of what was read of /dev/urandom: `buf[6]` and `buf[8]` get the version and the variant.
unfoldable pub gen_uuid : List ℕ → Str
gen_uuid buf =
    hex_at buf (0 ∷ 1 ∷ 2 ∷ 3 ∷ [])
    ++ (b'-' ∷ hex_at buf (4 ∷ 5 ∷ [])
        ++ (b'-' ∷ hex (get_or buf 6 0 % 16 + 64)
            ++ (hex_at buf (7 ∷ [])
                ++ (b'-' ∷ hex (get_or buf 8 0 % 64 + 128)
                    ++ (hex_at buf (9 ∷ [])
                        ++ (b'-' ∷ hex_at buf (10 ∷ 11 ∷ 12 ∷ 13 ∷ 14 ∷ 15 ∷ [])))))))

-- Every new id has 36 bytes, which the field of a rule holds, and so is never cut.
pub length-gen_uuid : (buf : List ℕ) → length (gen_uuid buf) ≡ 36
unfolding gen_uuid
length-gen_uuid buf = refl

-- What the idle callbacks call of triggers.c.
pub data SubscribeCall (J : Type 0) : Type 0 where
  -- `Triggers_Subscribe_Rule(id, triggers)`
  subscribe_rule : Str → J → SubscribeCall J
  -- `Triggers_Subscribe_Passive(id, aidx, action)`
  subscribe_passive : Str → ℕ → J → SubscribeCall J
  -- `Triggers_Unsubscribe_Rule(id)`
  unsubscribe_rule : Str → SubscribeCall J

unfoldable pub do_unsubscribe : {J : Type 0} → Str → List (SubscribeCall J)
do_unsubscribe id = unsubscribe_rule id ∷ []

-- `RuleEngine_Cleanup` and `RuleEngine_Count`
unfoldable pub rule_engine_cleanup : {J : Type 0} → List (Rule J) → List (Rule J)
rule_engine_cleanup rules = []

unfoldable pub rule_engine_count : {J : Type 0} → List (Rule J) → ℕ
rule_engine_count rules = length rules

abbrev pub is_remote : Option Str → Bool
is_remote none = false
is_remote (some host) = is_set host

module _ {J D : Type 0} (c : Cjson J D) where
  -- The loop over the actions: the local actions of type `vapix_query`, with their positions.
  unfoldable pub passive_calls : Str → ℕ → List J → List (SubscribeCall J)
  passive_calls id aidx [] = []
  passive_calls id aidx (action ∷ actions) =
      let rest = passive_calls id (aidx + 1) actions in
      if is_text c (string_of c action (codes "type")) (codes "vapix_query")
      then (if is_remote (string_of c action (codes "remote_host"))
          then rest
          else subscribe_passive id aidx action ∷ rest)
      else rest

  unfoldable pub do_subscribe : List (Rule J) → Str → List (SubscribeCall J)
  do_subscribe rules id = elim (find_key rule_key id rules) [
    | none ↦ []
    | some r ↦
        subscribe_rule r.id r.triggers_json ∷ passive_calls r.id 0 (c.children r.actions_json)
  ]
