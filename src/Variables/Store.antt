-- ===== src/Variables/Store.antt =====
-- app/engine/variables.c: the store and its operations. The entries in use are a list, and its
-- length is `store_count`.
use event_engine_acap.Prelude.{
  ℕ, Bool, true, false, leb, if◌then◌else◌, Option, none, some, List, [], ◌∷◌, ◌++◌, Str, codes,
  str_eq, strcmp, snprintf, length, update_first,
}
use Prim.Native.Nat.{Ordering}
use event_engine_acap.Table.{find_key, index_of, swap_remove}

-- C doubles and the libc functions that variables.c calls on them.
pub record Doubles (D : Type 0) : Type 0 where
  pub zero : D
  pub add : D → D → D
  pub sub : D → D → D
  pub fabs : D → D
  pub lt : D → D → Bool
  pub le : D → D → Bool
  -- 1e-9
  pub tolerance : D
  -- `snprintf` with "%g"
  pub format_g : D → Str
  pub atof : Str → D

-- `MAX_VARS`, `VAR_NAME_LEN` and `VAR_VALUE_LEN`
abbrev pub max_vars : ℕ
max_vars = 256

abbrev pub var_name_len : ℕ
var_name_len = 64

abbrev pub var_value_len : ℕ
var_value_len = 512

pub record Variable (D : Type 0) : Type 0 where
  pub name : Str
  pub value : Str
  pub numeric : D
  pub is_counter : Bool

pub record Variables (D : Type 0) : Type 0 where
  pub store : List (Variable D)
  pub dirty : Bool

abbrev pub var_key : {D : Type 0} → Variable D → Str
var_key v = v.name

-- The chain of `strcmp(op, "…")` over the sign of the comparison.
unfoldable pub compare_op : Str → Ordering → Bool
compare_op op cmp =
    if str_eq op (codes "eq")
    then elim cmp [ Ordering.eq ↦ true | _ ↦ false ]
    else if str_eq op (codes "ne")
    then elim cmp [ Ordering.eq ↦ false | _ ↦ true ]
    else if str_eq op (codes "lt")
    then elim cmp [ Ordering.lt ↦ true | _ ↦ false ]
    else if str_eq op (codes "lte")
    then elim cmp [ Ordering.gt ↦ false | _ ↦ true ]
    else if str_eq op (codes "gt")
    then elim cmp [ Ordering.gt ↦ true | _ ↦ false ]
    else if str_eq op (codes "gte")
    then elim cmp [ Ordering.lt ↦ false | _ ↦ true ]
    else false

module _ {D : Type 0} where
  unfoldable pub find_var : List (Variable D) → Str → Option (Variable D)
  find_var store name = find_key var_key name store

  unfoldable pub variables_get : Variables D → Option Str → Option Str
  variables_get vs none = none
  variables_get vs (some name) = elim (find_var vs.store name) [
    | none ↦ none
    | some v ↦ some v.value
  ]

  unfoldable pub variables_delete : Variables D → Option Str → Variables D × Bool
  variables_delete vs none = (vs, false)
  variables_delete vs (some name) = elim (index_of (λ x. str_eq (var_key x) name) vs.store) [
    | none ↦ (vs, false)
    | some i ↦ (record { store = swap_remove vs.store i; dirty = true }, true)
  ]

  unfoldable pub variables_compare : Variables D → Option Str → Option Str → Option Str → Bool
  variables_compare vs (some name) (some op) (some value) = elim (find_var vs.store name) [
    | none ↦ false
    | some v ↦ compare_op op (strcmp v.value value)
  ]
  variables_compare vs _ _ _ = false

module _ {D : Type 0} (d : Doubles D) where
  abbrev pub new_var : Str → Variable D
  new_var name = record {
    name = snprintf var_name_len name;
    value = [];
    numeric = d.zero;
    is_counter = false;
  }

  -- `find_or_create`, and the writes `f` through the pointer that it returns.
  unfoldable pub with_var :
      List (Variable D) → Str → (Variable D → Variable D) → Option (List (Variable D))
  unfolding find_var
  with_var store name f = elim (find_var store name) [
    | some v ↦ some (update_first (λ x. str_eq (var_key x) name) f store)
    | none ↦ if leb max_vars (length store) then none else some (store ++ (f (new_var name) ∷ []))
  ]

  -- The end of an operation that writes: the result 0 or 1 of the C function is the Boolean.
  abbrev pub written : Variables D → Option (List (Variable D)) → Variables D × Bool
  written vs none = (vs, false)
  written vs (some store) = (record { store = store; dirty = true }, true)

  abbrev pub assign : Str → Variable D → Variable D
  assign value v = record v {
    value = snprintf var_value_len value;
    is_counter = false;
    numeric = d.zero;
  }

  unfoldable pub variables_set : Variables D → Option Str → Option Str → Variables D × Bool
  variables_set vs none value = (vs, false)
  variables_set vs (some name) none = (vs, false)
  variables_set vs (some name) (some value) = written vs (with_var vs.store name (assign value))

  abbrev pub count_as : D → Variable D → Variable D
  count_as value v = record v {
    is_counter = true;
    numeric = value;
    value = snprintf var_value_len (d.format_g value);
  }

  unfoldable pub counter_set : Variables D → Option Str → D → Variables D × Bool
  counter_set vs none value = (vs, false)
  counter_set vs (some name) value = written vs (with_var vs.store name (count_as value))

  unfoldable pub counter_get : Variables D → Option Str → D
  counter_get vs none = d.zero
  counter_get vs (some name) = elim (find_var vs.store name) [ none ↦ d.zero | some v ↦ v.numeric ]

  unfoldable pub counter_increment : Variables D → Option Str → D → Variables D × Bool
  counter_increment vs none delta = (vs, false)
  counter_increment vs (some name) delta =
      written vs (with_var vs.store name (λ v. count_as (d.add v.numeric delta) v))

  unfoldable pub counter_reset : Variables D → Option Str → Variables D × Bool
  counter_reset vs name = counter_set vs name d.zero

  unfoldable pub counter_compare : Variables D → Option Str → Str → D → Bool
  counter_compare vs name op threshold =
      let val = counter_get vs name in
      let gap = d.fabs (d.sub val threshold) in
      if str_eq op (codes "eq")
      then d.lt gap d.tolerance
      else if str_eq op (codes "ne")
      then d.le d.tolerance gap
      else if str_eq op (codes "lt")
      then d.lt val threshold
      else if str_eq op (codes "lte")
      then d.le val threshold
      else if str_eq op (codes "gt")
      then d.lt threshold val
      else if str_eq op (codes "gte")
      then d.le threshold val
      else false
