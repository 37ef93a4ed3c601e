-- ===== src/Variables/Laws.antt =====
-- app/engine/variables.c: a valid store is a finite map from short names to variables.
use event_engine_acap.Prelude.{
  ◌≤◌, ◌<◌, ◌≡◌, ap, ◌∙◌, ◌⊎◌, ◌↔◌, inl, inr, if◌then◌else◌, Option-cases, Option, none, some, List,
  [], ◌∷◌, ◌++◌, Str, str_eq, str_eq_iff, snprintf_fits, length, length-append, update_first, arith,
}
use event_engine_acap.Table.{
  find_key, occurs, Distinct, occurs-append, find-append, find-update_first, occurs-update_first,
  length-update_first, occurs_of_find_none,
}
use event_engine_acap.Variables.Store.{
  Doubles, Variable, max_vars, var_name_len, var_key, find_var, with_var, new_var,
}

-- No name stands twice, and the names and their number are within the array.
pub record IsValid {D : Type 0} (store : List (Variable D)) : Type 0 where
  pub distinct : Distinct var_key store
  pub bounded : length store ≤ max_vars

module _ {D : Type 0} (d : Doubles D) (name : Str) (f : Variable D → Variable D)
    (keeps : (v : Variable D) → var_key (f v) ≡ var_key v) where
  -- The variable that a write leaves under the name.
  abbrev pub after_write : Option (Variable D) → Variable D
  after_write none = f (new_var d name)
  after_write (some v) = f v

  -- A write adds a variable or changes the one that is there.
  pub with_var_cases :
      (store store' : List (Variable D))
      → with_var d store name f ≡ some store'
      → ((find_var store name ≡ none)
          × (length store < max_vars)
          × (store' ≡ store ++ (f (new_var d name) ∷ [])))
        ⊎ ((v : Variable D) × (find_var store name ≡ some v)
            × (store' ≡ update_first (λ x. str_eq (var_key x) name) f store))
  unfolding with_var
  with_var_cases store store' e = elim (Option-cases (find_key var_key name store)) [
    | inl fresh ↦ inl (fresh, ground arith, ground arith)
    | inr (v, found) ↦ inr (v, found, ground arith)
  ]

  new_key : length name < var_name_len → var_key (f (new_var d name)) ≡ name
  new_key short = keeps (new_var d name) ∙ snprintf_fits var_name_len name short

  keeps_name : (v : Variable D) → var_key v ≡ name → var_key (f v) ≡ name
  keeps_name v e = keeps v ∙ e

  -- A write of a short name is a write to the map.
  pub find-with_var :
      (store store' : List (Variable D))
      → length name < var_name_len
      → with_var d store name f ≡ some store'
      → (j : Str)
      → find_var store' j
        ≡ (if str_eq name j then some (after_write (find_var store name)) else find_var store j)
  unfolding find_var find_key
  find-with_var store store' short e j = elim (with_var_cases store store' e) [
    | inl (fresh, room, more) ↦ rw more (
        ground (
          arith,
          find-append var_key j store (f (new_var d name) ∷ []),
          ap (λ s. str_eq s j) (new_key short),
          str_eq_iff name j,
        ))
    | inr (v, found, changed) ↦
        rw changed
          (ground (arith, find-update_first var_key name f keeps_name j store, str_eq_iff name j))
  ]

  pub with_var-IsValid :
      (store store' : List (Variable D))
      → length name < var_name_len
      → IsValid store
      → with_var d store name f ≡ some store'
      → IsValid store'
  unfolding find_var occurs
  with_var-IsValid store store' short v e = elim (with_var_cases store store' e) [
    | inl (fresh, room, more) ↦ rw more (record {
      distinct = λ k. ground (
        arith,
        v.distinct k,
        occurs-append var_key k store (f (new_var d name) ∷ []),
        ap (λ s. str_eq s k) (new_key short),
        str_eq_iff name k,
        occurs_of_find_none var_key k store,
      );
      bounded = omega (arith, length-append store (f (new_var d name) ∷ []));
    })
    | inr (w, found, changed) ↦ rw changed (record {
      distinct =
          λ k. omega (arith, v.distinct k, occurs-update_first var_key name f keeps_name k store);
      bounded = omega (arith, v.bounded, length-update_first var_key name f keeps_name store);
    })
  ]

  -- A write fails only on a full store that has no such variable.
  pub with_var_fails :
      (store : List (Variable D))
      → (with_var d store name f ≡ none)
        ↔ ((find_var store name ≡ none) × (max_vars ≤ length store))
  unfolding with_var
  with_var_fails store = (λ e. (ground arith, ground arith), λ h. ground arith)
