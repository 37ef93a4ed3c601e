-- ===== src/Variables/Operations.antt =====
-- app/engine/variables.c: the operations on a valid store.
use event_engine_acap.Prelude.{
  ℕ, zero, suc, ◌≤◌, ◌<◌, ◌≡◌, refl, ap, sym, ◌≢◌, ◌↔◌, inl, inr, true, false, if◌then◌else◌,
  Option-cases, Option, none, some, List, Str, str_eq, str_eq_iff, str_eq_refl, snprintf, length,
  arith,
}
use event_engine_acap.Table.{
  index_of, swap_remove, occurs_of_find_none, find-swap_remove, find_of_index_none,
  occurs-swap_remove, length-swap_remove,
}
use event_engine_acap.Variables.Store.{
  Doubles, Variable, Variables, max_vars, var_name_len, var_value_len, var_key, find_var, with_var,
  written, assign, count_as, variables_set, variables_get, variables_delete, counter_get,
  counter_increment,
}
use event_engine_acap.Variables.Laws.{IsValid, find-with_var, with_var-IsValid, with_var_fails}

delete_miss :
    {D : Type 0} (vs : Variables D) (name : Str)
    → index_of (λ x. str_eq (var_key x) name) vs.store ≡ none
    → variables_delete vs (some name) ≡ (vs, false)
unfolding variables_delete
delete_miss vs name e = rw (e, variables_delete)

delete_hit :
    {D : Type 0} (vs : Variables D) (name : Str) (i : ℕ)
    → index_of (λ x. str_eq (var_key x) name) vs.store ≡ some i
    → variables_delete vs (some name)
      ≡ (record { store = swap_remove vs.store i; dirty = true }, true)
unfolding variables_delete
delete_hit vs name i e = rw (e, variables_delete)

swap_remove-IsValid :
    {D : Type 0} (vs : Variables D) (name : Str) (i : ℕ)
    → index_of (λ x. str_eq (var_key x) name) vs.store ≡ some i
    → IsValid vs.store
    → IsValid (swap_remove vs.store i)
swap_remove-IsValid vs name i at v = record {
  distinct = λ k. omega (arith, v.distinct k, occurs-swap_remove var_key name vs.store i at k);
  bounded = omega (arith, v.bounded, length-swap_remove var_key name vs.store i at);
}

found_of_index :
    {D : Type 0} (vs : Variables D) (name : Str) (i : ℕ)
    → index_of (λ x. str_eq (var_key x) name) vs.store ≡ some i
    → find_var vs.store name ≢ none
unfolding find_var
found_of_index vs name i at gone = omega (
  arith,
  occurs-swap_remove var_key name vs.store i at name,
  occurs_of_find_none var_key name vs.store gone,
  one,
)
  where
    one : (if str_eq name name then suc zero else zero) ≡ 1
    one = rw (str_eq_refl name) refl

-- `Variables_Delete` of a name removes that name alone, and fails exactly on a name that is not
-- there, when nothing changes.
pub variables_delete-get :
    {D : Type 0} (vs : Variables D) (name : Str)
    → IsValid vs.store
    → IsValid (variables_delete vs (some name)).0.store
      × ((j : Str)
          → variables_get (variables_delete vs (some name)).0 (some j)
            ≡ (if str_eq name j then none else variables_get vs (some j)))
      × (((variables_delete vs (some name)).1 ≡ false) ↔ (find_var vs.store name ≡ none))
unfolding variables_get find_var
variables_delete-get vs name v =
    elim (Option-cases (index_of (λ x. str_eq (var_key x) name) vs.store)) [
      | inl gone ↦ rw (delete_miss vs name gone) (
        v,
        λ j. ground (arith, find_of_index_none var_key name vs.store gone, str_eq_iff name j),
        (λ e. find_of_index_none var_key name vs.store gone, λ e. refl),
      )
      | inr (i, at) ↦ rw (delete_hit vs name i at) (
        swap_remove-IsValid vs name i at v,
        λ j. ground (arith, find-swap_remove var_key name vs.store i at v.distinct j),
        (λ e. cc, λ e. absurd (found_of_index vs name i at e)),
      )
    ]

-- A write that returned 1 left the new store.
pub written_inv :
    {D : Type 0} (d : Doubles D) (vs vs' : Variables D) (o : Option (List (Variable D)))
    → written d vs o ≡ (vs', true)
    → (store : List (Variable D)) × (o ≡ some store)
      × (vs' ≡ record { store = store; dirty = true })
written_inv d vs vs' none e = cc
written_inv d vs vs' (some store) e = (store, refl, sym (ap (λ p. p.0) e))

module _ {D : Type 0} (d : Doubles D) where
  -- After a `Variables_Set` of a short name that returns 1, that name reads as the value, cut to 511
  -- bytes, every other name reads as before, and the store is valid and due to be saved.
  pub variables_set-get :
      (vs vs' : Variables D) (name value : Str)
      → IsValid vs.store
      → length name < var_name_len
      → variables_set d vs (some name) (some value) ≡ (vs', true)
      → IsValid vs'.store
        × (vs'.dirty ≡ true)
        × ((j : Str)
            → variables_get vs' (some j) ≡ (
                if str_eq name j
                then some (snprintf var_value_len value)
                else variables_get vs (some j)))
  unfolding variables_set variables_get
  variables_set-get vs vs' name value v short e =
      let (store, written_store, result) =
        written_inv d vs vs' (with_var d vs.store name (assign d value)) e in
      rw result (
        with_var-IsValid d name (assign d value) (λ w. refl) vs.store store short v written_store,
        refl,
        λ j. ground (
          arith,
          find-with_var d name (assign d value) (λ w. refl) vs.store store short written_store j,
        ),
      )

  -- `Variables_Set` returns 0 exactly on a full store that has no such variable, and then changes
  -- nothing.
  pub variables_set_full :
      (vs : Variables D) (name value : Str)
      → ((variables_set d vs (some name) (some value)).1 ≡ false
          ↔ ((find_var vs.store name ≡ none) × (max_vars ≤ length vs.store)))
        × ((variables_set d vs (some name) (some value)).1 ≡ false
            → (variables_set d vs (some name) (some value)).0 ≡ vs)
  unfolding variables_set
  variables_set_full vs name value =
      let full = with_var_fails d name (assign d value) (λ w. refl) vs.store in
      elim (Option-cases (with_var d vs.store name (assign d value))) [
        | inl e ↦ rw e ((λ h. full.0 e, λ h. refl), λ h. refl)
        | inr (store, e) ↦ rw e ((λ h. cc, λ h. cc (full.1 h)), λ h. cc)
      ]

  -- A successful `Counter_Increment` adds the delta to what `Counter_Get` returned, 0 for a name
  -- that was not there, and leaves the other counters.
  pub counter_increment-get :
      (vs vs' : Variables D) (name : Str) (delta : D)
      → length name < var_name_len
      → counter_increment d vs (some name) delta ≡ (vs', true)
      → (j : Str)
      → counter_get d vs' (some j) ≡ (
          if str_eq name j
          then d.add (counter_get d vs (some name)) delta
          else counter_get d vs (some j))
  unfolding counter_increment counter_get
  counter_increment-get vs vs' name delta short e j =
      let add_to = λ (v : Variable D). count_as d (d.add v.numeric delta) v in
      let (store, written_store, result) =
        written_inv d vs vs' (with_var d vs.store name add_to) e in
      rw result (
        ground
          (arith, find-with_var d name add_to (λ w. refl) vs.store store short written_store j))
