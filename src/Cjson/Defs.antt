-- ===== src/Cjson/Defs.antt =====
-- What the code calls of app/cJSON.c. `J` is a JSON tree and `D` a C double. Trees are values: a
-- duplicate is the tree itself, and a deletion does nothing.
use event_engine_acap.Prelude.{
  ◌^◌, ◌<◌, ◌≡◌, Bool, true, false, not, Option, none, some, List, Str, ℤ, [], ◌∷◌, arith, pos_part,
  neg_part, ltb_ℤ, strcase_eq, if◌then◌else◌,
}

pub record Cjson (J D : Type 0) : Type 0 where
  pub create_object : J
  pub create_array : List J → J
  pub create_string : Str → J
  pub create_number : D → J
  pub create_bool : Bool → J
  -- `cJSON_AddItemToObject(object, key, item)`
  pub add_item : J → Str → J → J
  -- `cJSON_GetObjectItem`, with `none` for NULL
  pub get_object_item : J → Str → Option J
  -- `cJSON_GetStringValue` of a tree that is not NULL
  pub get_string_value : J → Option Str
  pub valuedouble : J → D
  pub is_true : J → Bool
  pub is_false : J → Bool
  pub is_array : J → Bool
  pub is_object : J → Bool
  -- what `cJSON_ArrayForEach` visits
  pub children : J → List J
  -- the conversions (double)n and (int)d, and `<` on doubles
  pub of_ℤ : ℤ → D
  pub to_ℤ : D → ℤ
  pub lt : D → D → Bool

-- The integers that a double holds exactly.
abbrev pub Small : ℤ → Type 0
Small z = (pos_part z < 2 ^ 53) × (neg_part z < 2 ^ 53)

-- What the library documents of these calls.
pub record CjsonLaws {J D : Type 0} (c : Cjson J D) : Type 0 where
  pub get_created : (k : Str) → c.get_object_item c.create_object k ≡ none
  -- Keys are compared without regard to case, and the first that fits is returned.
  pub get_added :
      (o : J) (k : Str) (item : J) (j : Str)
      → c.get_object_item (c.add_item o k item) j ≡ elim (c.get_object_item o j) [
        | some found ↦ some found
        | none ↦ if strcase_eq k j then some item else none
      ]
  pub object_created : c.is_object c.create_object ≡ true
  pub object_added :
      (o : J) (k : Str) (item : J) → c.is_object o ≡ true → c.is_object (c.add_item o k item) ≡ true
  pub string_created : (s : Str) → c.get_string_value (c.create_string s) ≡ some s
  pub number_created : (d : D) → c.valuedouble (c.create_number d) ≡ d
  pub true_created : (b : Bool) → c.is_true (c.create_bool b) ≡ b
  pub false_created : (b : Bool) → c.is_false (c.create_bool b) ≡ not b
  pub array_created : (xs : List J) → c.is_array (c.create_array xs) ≡ true
  pub children_created : (xs : List J) → c.children (c.create_array xs) ≡ xs
  pub to_of_ℤ : (z : ℤ) → Small z → c.to_ℤ (c.of_ℤ z) ≡ z
  pub lt_of_ℤ : (a b : ℤ) → Small a → Small b → c.lt (c.of_ℤ a) (c.of_ℤ b) ≡ ltb_ℤ a b

-- `s[0] != 0`
abbrev pub is_set : Str → Bool
is_set [] = false
is_set (x ∷ s) = true

abbrev pub when {ℓ} : {A : Type ℓ} → Bool → A → Option A
when true a = some a
when false a = none

module _ {J D : Type 0} (c : Cjson J D) where
  -- An item that is added only if there is one.
  unfoldable pub add_some : J → Str → Option J → J
  add_some obj key none = obj
  add_some obj key (some item) = c.add_item obj key item

  -- `cJSON_GetStringValue(cJSON_GetObjectItem(obj, key))`
  abbrev pub string_of : J → Str → Option Str
  string_of obj key = elim (c.get_object_item obj key) [
    | none ↦ none
    | some item ↦ c.get_string_value item
  ]

  -- `item ? (int)item->valuedouble : d`
  abbrev pub number_or : J → Str → ℤ → ℤ
  number_or obj key d = elim (c.get_object_item obj key) [
    | none ↦ d
    | some item ↦ c.to_ℤ (c.valuedouble item)
  ]

module _ {J D : Type 0} (c : Cjson J D) (laws : CjsonLaws c) where
  pub get-add_some :
      (o : J) (k : Str) (item : Option J) (j : Str)
      → c.get_object_item (add_some c o k item) j ≡ elim (c.get_object_item o j) [
        | some found ↦ some found
        | none ↦ if strcase_eq k j then item else none
      ]
  unfolding add_some
  get-add_some o k none j = ground arith
  get-add_some o k (some v) j = laws.get_added o k v j
