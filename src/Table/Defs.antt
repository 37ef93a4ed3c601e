-- ===== src/Table/Defs.antt =====
-- The operations on a table. The entries in use are a list; its length is the counter in the code.
use event_engine_acap.Prelude.{
  ℕ, suc, ◌+◌, ◌-◌, Bool, ltb, if◌then◌else◌, Option, none, some, List, [], ◌∷◌, Str, str_eq,
  length, get_elem?, set, take,
}

abbrev pub or_else : {A : Type 0} → Option A → Option A → Option A
or_else (some a) b = some a
or_else none b = b

module _ {A : Type 0} where
  -- The position of the first entry that passes the test.
  unfoldable pub index_of : (A → Bool) → List A → Option ℕ
  index_of p [] = none
  index_of p (x ∷ xs) =
      let rest : Option ℕ = elim (index_of p xs) [ none ↦ none | some i ↦ some (suc i) ] in
      if p x then some 0 else rest

  -- `if (i < count - 1) a[i] = a[count - 1]; count--;`
  unfoldable pub swap_remove : List A → ℕ → List A
  swap_remove xs i = elim (get_elem? xs (length xs - 1)) [
    | none ↦ xs
    | some last ↦ take (length xs - 1) (if ltb i (length xs - 1) then set xs i last else xs)
  ]

  module _ (key : A → Str) where
    -- The loop `for (i...) if (strcmp(a[i].key, k) == 0)`.
    unfoldable pub find_key : Str → List A → Option A
    find_key k [] = none
    find_key k (x ∷ xs) = if str_eq (key x) k then some x else find_key k xs

    -- How many entries have the key.
    unfoldable pub occurs : Str → List A → ℕ
    occurs k [] = 0
    occurs k (x ∷ xs) = if str_eq (key x) k then occurs k xs + 1 else occurs k xs
