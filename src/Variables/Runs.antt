-- ===== src/Variables/Runs.antt =====
-- app/engine/variables.c: sequences of operations, comparisons, and names that do not fit.
use event_engine_acap.Prelude.{
  ◌+◌, ◌≤◌, ◌<◌, ◌≡◌, refl, ap, ◌↔◌, inl, inr, true, false, not, Bool-cases, Option-cases, none,
  some, List, [], ◌∷◌, Str, codes, str_eq, str_eq_iff, str_eq_iff_strcmp, strcmp, snprintf, length,
  length-append, length-take, take, arith,
}
use Prim.Native.Nat.{Ordering}
use event_engine_acap.Table.{find_key, find-append}
use event_engine_acap.Variables.Store.{
  Doubles, Variable, Variables, var_name_len, var_key, find_var, with_var, new_var, written, assign,
  count_as, variables_set, variables_get, variables_delete, counter_set, counter_increment,
  counter_reset, variables_compare, compare_op,
}
use event_engine_acap.Variables.Laws.{IsValid, with_var_cases, with_var-IsValid}
use event_engine_acap.Variables.Operations.{variables_delete-get, written_inv}

-- The operations of the API that change the store.
pub data Op (D : Type 0) : Type 0 where
  set_var : Str → Str → Op D
  delete_var : Str → Op D
  set_counter : Str → D → Op D
  increment_counter : Str → D → Op D
  reset_counter : Str → Op D

abbrev pub name_of : {D : Type 0} → Op D → Str
name_of (set_var name value) = name
name_of (delete_var name) = name
name_of (set_counter name value) = name
name_of (increment_counter name delta) = name
name_of (reset_counter name) = name

abbrev pub ShortNames : {D : Type 0} → List (Op D) → Type 0
ShortNames [] = Unit {0}
ShortNames (op ∷ ops) = (length (name_of op) < var_name_len) × ShortNames ops

-- The six tests at one result of `strcmp`.
compare_tests :
    (cmp : Ordering)
    → (compare_op (codes "eq") cmp ≡ true ↔ (cmp ≡ Ordering.eq))
      × (compare_op (codes "ne") cmp ≡ not (compare_op (codes "eq") cmp))
      × (compare_op (codes "gte") cmp ≡ not (compare_op (codes "lt") cmp))
      × (compare_op (codes "lte") cmp ≡ not (compare_op (codes "gt") cmp))
      × (compare_op (codes "lt") cmp ≡ true → compare_op (codes "gt") cmp ≡ false)
unfolding compare_op str_eq
compare_tests Ordering.lt = ((λ e. cc, λ e. cc), refl, refl, refl, λ e. refl)
compare_tests Ordering.eq = ((λ e. refl, λ e. refl), refl, refl, refl, λ e. refl)
compare_tests Ordering.gt = ((λ e. cc, λ e. cc), refl, refl, refl, λ e. cc)

compare_found :
    {D : Type 0} (vs : Variables D) (name value op : Str) (v : Variable D)
    → find_var vs.store name ≡ some v
    → variables_compare vs (some name) (some op) (some value) ≡ compare_op op (strcmp v.value value)
unfolding variables_compare
compare_found vs name value op v e = rw (e, variables_compare)

-- Every variable of that name compares by the sign of `strcmp`, and the six tests fit together; a
-- name that is not there satisfies none of them.
pub variables_compare_lem :
    {D : Type 0} (vs : Variables D) (name value : Str)
    → ((find_var vs.store name ≡ none)
        → (op : Str) → variables_compare vs (some name) (some op) (some value) ≡ false)
      × ((v : Variable D)
          → find_var vs.store name ≡ some v
          → let test = λ (op : Str). variables_compare vs (some name) (some op) (some value) in
            ((test (codes "eq") ≡ true) ↔ (v.value ≡ value))
            × (test (codes "ne") ≡ not (test (codes "eq")))
            × (test (codes "gte") ≡ not (test (codes "lt")))
            × (test (codes "lte") ≡ not (test (codes "gt")))
            × ((test (codes "lt") ≡ true) → test (codes "gt") ≡ false))
unfolding variables_compare
variables_compare_lem vs name value = (
  λ e op. rw (e, variables_compare),
  λ v e.
      let found = λ (op : Str). compare_found vs name value op v e in
      let (eq, ne, gte, lte, lt) = compare_tests (strcmp v.value value) in
      let same = str_eq_iff_strcmp v.value value in
      let equal = str_eq_iff v.value value in
      rw
        (
          found (codes "eq"),
          found (codes "ne"),
          found (codes "gte"),
          found (codes "lt"),
          found (codes "lte"),
          found (codes "gt"),
        )
        ((λ h. equal.0 (same.1 (eq.0 h)), λ h. eq.1 (same.0 (equal.1 h))), ne, gte, lte, lt),
)

cut_name :
    (name : Str) → var_name_len ≤ length name → str_eq (snprintf var_name_len name) name ≡ false
unfolding snprintf
cut_name name long = elim (Bool-cases (str_eq (take 63 name) name)) [
  | inl e ↦
      absurd (omega (arith, ap length ((str_eq_iff (take 63 name) name).0 e), length-take 63 name))
  | inr e ↦ e
]

module _ {D : Type 0} (d : Doubles D) where
  unfoldable pub step : Variables D → Op D → Variables D
  step vs (set_var name value) = (variables_set d vs (some name) (some value)).0
  step vs (delete_var name) = (variables_delete vs (some name)).0
  step vs (set_counter name value) = (counter_set d vs (some name) value).0
  step vs (increment_counter name delta) = (counter_increment d vs (some name) delta).0
  step vs (reset_counter name) = (counter_reset d vs (some name)).0

  unfoldable pub run : Variables D → List (Op D) → Variables D
  run vs [] = vs
  run vs (op ∷ ops) = run (step vs op) ops

  write-IsValid :
      (vs : Variables D) (name : Str) (f : Variable D → Variable D)
      → ((v : Variable D) → var_key (f v) ≡ var_key v)
      → length name < var_name_len
      → IsValid vs.store
      → IsValid (written d vs (with_var d vs.store name f)).0.store
  write-IsValid vs name f keeps short v = elim (Option-cases (with_var d vs.store name f)) [
    | inl e ↦ rw e v
    | inr (store, e) ↦ rw e (with_var-IsValid d name f keeps vs.store store short v e)
  ]

  step-IsValid :
      (vs : Variables D) (op : Op D)
      → length (name_of op) < var_name_len
      → IsValid vs.store
      → IsValid (step vs op).store
  unfolding step variables_set counter_set counter_increment counter_reset
  step-IsValid vs (set_var name value) h v = write-IsValid vs name (assign d value) (λ w. refl) h v
  step-IsValid vs (delete_var name) h v = (variables_delete-get vs name v).0
  step-IsValid vs (set_counter name value) h v =
      write-IsValid vs name (count_as d value) (λ w. refl) h v
  step-IsValid vs (increment_counter name delta) h v =
      write-IsValid vs name (λ w. count_as d (d.add w.numeric delta) w) (λ w. refl) h v
  step-IsValid vs (reset_counter name) h v =
      write-IsValid vs name (count_as d d.zero) (λ w. refl) h v

  -- Over any sequence of operations on names of at most 63 bytes no name comes to stand twice, and
  -- the store stays within its array.
  pub run-IsValid :
      (vs : Variables D) (ops : List (Op D))
      → ShortNames ops
      → IsValid vs.store
      → IsValid (run vs ops).store
  unfolding run
  run-IsValid vs [] h v = v
  run-IsValid vs (op ∷ ops) h v = run-IsValid (step vs op) ops h.1 (step-IsValid vs op h.0 v)

  -- A name of 64 bytes or more that is not in the store is never found again: a `Variables_Set` of
  -- it that returns 1 adds one more entry under the cut name, and the name still reads as absent.
  pub variables_set_long :
      (vs vs' : Variables D) (name value : Str)
      → var_name_len ≤ length name
      → variables_get vs (some name) ≡ none
      → variables_set d vs (some name) (some value) ≡ (vs', true)
      → (variables_get vs' (some name) ≡ none) × (length vs'.store ≡ length vs.store + 1)
  unfolding variables_set variables_get find_var find_key
  variables_set_long vs vs' name value long absent e =
      let (store, stored, result) =
        written_inv d vs vs' (with_var d vs.store name (assign d value)) e in
      elim (with_var_cases d name (assign d value) (λ w. refl) vs.store store stored) [
        | inl (fresh, room, more) ↦
            rw (result, more)
              (
                ground (
                  arith,
                  fresh,
                  find-append var_key name vs.store (assign d value (new_var d name) ∷ []),
                  cut_name name long,
                ),
                omega (arith, length-append vs.store (assign d value (new_var d name) ∷ [])),
              )
        | inr (v, found, changed) ↦ absurd (ground (arith, found, absent))
      ]
