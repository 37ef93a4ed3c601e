-- ===== src/Cjson/Instance.antt =====
-- One library of JSON trees that keeps the laws; a double is an integer in it.
use event_engine_acap.Prelude.{
  ◌≡◌, refl, Bool, true, false, not, Option, none, some, List, [], ◌∷◌, Str, ℤ, pos, ltb_ℤ,
  strcase_eq, if◌then◌else◌, arith,
}
use event_engine_acap.Cjson.Defs.{Cjson, CjsonLaws}

mutual
  pub data Json : Type 0 where
    bool : Bool → Json
    number : ℤ → Json
    string : Str → Json
    arr : Items → Json
    obj : Fields → Json

  pub data Items : Type 0 where
    nil : Items
    cons : Json → Items → Items

  pub data Fields : Type 0 where
    end : Fields
    field : Str → Json → Fields → Fields

abbrev to_items : List Json → Items
to_items [] = nil
to_items (x ∷ xs) = cons x (to_items xs)

abbrev of_items : Items → List Json
of_items nil = []
of_items (cons x xs) = x ∷ of_items xs

abbrev find_field : Fields → Str → Option Json
find_field end j = none
find_field (field k v fs) j = if strcase_eq k j then some v else find_field fs j

abbrev add_field : Fields → Str → Json → Fields
add_field end k v = field k v end
add_field (field k' v' fs) k v = field k' v' (add_field fs k v)

abbrev get_item : Json → Str → Option Json
get_item (obj fs) j = find_field fs j
get_item _ j = none

abbrev add_to : Json → Str → Json → Json
add_to (obj fs) k v = obj (add_field fs k v)
add_to _ k v = obj (field k v end)

abbrev as_string : Json → Option Str
as_string (string s) = some s
as_string _ = none

abbrev as_number : Json → ℤ
as_number (number d) = d
as_number _ = pos 0

abbrev as_true : Json → Bool
as_true (bool b) = b
as_true _ = false

abbrev as_false : Json → Bool
as_false (bool b) = if b then false else true
as_false _ = false

abbrev as_array : Json → Bool
as_array (arr xs) = true
as_array _ = false

abbrev as_object : Json → Bool
as_object (obj fs) = true
as_object _ = false

abbrev items : Json → List Json
items (arr xs) = of_items xs
items _ = []

abbrev pub json : Cjson Json ℤ
json = record {
  create_object = obj end;
  create_array = λ xs. arr (to_items xs);
  create_string = string;
  create_number = number;
  create_bool = bool;
  add_item = add_to;
  get_object_item = get_item;
  get_string_value = as_string;
  valuedouble = as_number;
  is_true = as_true;
  is_false = as_false;
  is_array = as_array;
  is_object = as_object;
  children = items;
  of_ℤ = λ z. z;
  to_ℤ = λ d. d;
  lt = ltb_ℤ;
}

find-add :
    (fs : Fields) (k : Str) (v : Json) (j : Str)
    → find_field (add_field fs k v) j ≡ elim (find_field fs j) [
      | some found ↦ some found
      | none ↦ if strcase_eq k j then some v else none
    ]
find-add end k v j = refl
find-add (field k' v' fs) k v j = ground (arith, find-add fs k v j)

get-add :
    (o : Json) (k : Str) (v : Json) (j : Str)
    → get_item (add_to o k v) j ≡ elim (get_item o j) [
      | some found ↦ some found
      | none ↦ if strcase_eq k j then some v else none
    ]
get-add (obj fs) k v j = find-add fs k v j
get-add _ k v j = refl

object-add : (o : Json) (k : Str) (v : Json) → as_object o ≡ true → as_object (add_to o k v) ≡ true
object-add (obj fs) k v h = refl
object-add _ k v h = refl

of_items-to_items : (xs : List Json) → of_items (to_items xs) ≡ xs
of_items-to_items [] = refl
of_items-to_items (x ∷ xs) = rw (of_items-to_items xs)

false-bool : (b : Bool) → as_false (bool b) ≡ not b
false-bool true = refl
false-bool false = refl

pub json_laws : CjsonLaws json
json_laws = record {
  get_created = λ k. refl;
  get_added = get-add;
  object_created = refl;
  object_added = object-add;
  string_created = λ s. refl;
  number_created = λ d. refl;
  true_created = λ b. refl;
  false_created = λ b. false-bool b;
  array_created = λ xs. refl;
  children_created = of_items-to_items;
  to_of_ℤ = λ z h. refl;
  lt_of_ℤ = λ a b h k. refl;
}
