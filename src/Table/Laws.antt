-- ===== src/Table/Laws.antt =====
-- Looking up by key.
use event_engine_acap.Prelude.{
  ℕ, ◌+◌, ◌≤◌, ◌≡◌, refl, ap, if◌then◌else◌, Bool-cases, Option-cases, eq_of_str_eq, str_eq_iff,
  update_first, inl, inr, none, some, List, [], ◌∷◌, ◌++◌, Str, str_eq, length, arith,
}
use event_engine_acap.Table.Defs.{find_key, occurs, or_else, index_of}

module _ {A : Type 0} (key : A → Str) where
  pub occurs-append :
      (k : Str) (xs ys : List A) → occurs key k (xs ++ ys) ≡ occurs key k xs + occurs key k ys
  unfolding occurs
  occurs-append k [] ys = omega arith
  occurs-append k (x ∷ xs) ys = ground (arith, occurs-append k xs ys)

  pub occurs-le-length : (k : Str) (xs : List A) → occurs key k xs ≤ length xs
  unfolding occurs
  occurs-le-length k [] = omega arith
  occurs-le-length k (x ∷ xs) = ground (arith, occurs-le-length k xs)

  pub find-append :
      (k : Str) (xs ys : List A)
      → find_key key k (xs ++ ys) ≡ or_else (find_key key k xs) (find_key key k ys)
  unfolding find_key
  find-append k [] ys = refl
  find-append k (x ∷ xs) ys = ground (arith, find-append k xs ys)

  pub key-find : (k : Str) (xs : List A) (x : A) → find_key key k xs ≡ some x → key x ≡ k
  unfolding find_key
  key-find k [] x e = cc
  key-find k (y ∷ xs) x e = ground (arith, key-find k xs x, str_eq_iff (key y) k)

  pub find_none_of_occurs : (k : Str) (xs : List A) → occurs key k xs ≡ 0 → find_key key k xs ≡ none
  unfolding find_key occurs
  find_none_of_occurs k [] h = refl
  find_none_of_occurs k (x ∷ xs) h = ground (arith, find_none_of_occurs k xs)

  pub occurs_of_find_none : (k : Str) (xs : List A) → find_key key k xs ≡ none → occurs key k xs ≡ 0
  unfolding find_key occurs
  occurs_of_find_none k [] h = refl
  occurs_of_find_none k (x ∷ xs) h = ground (arith, occurs_of_find_none k xs)

  -- Where a key stands once, the order of the entries does not matter.
  pub find-append_comm :
      (k : Str) (xs ys : List A)
      → occurs key k (xs ++ ys) ≤ 1
      → find_key key k (xs ++ ys) ≡ find_key key k (ys ++ xs)
  find-append_comm k xs ys h = ground (
    arith,
    find-append k xs ys,
    find-append k ys xs,
    occurs-append k xs ys,
    occurs_of_find_none k xs,
    find_none_of_occurs k xs,
    find_none_of_occurs k ys,
  )

  -- The entry that a search finds, with what stands before and behind it.
  pub index_of_split :
      (k : Str) (xs : List A) (i : ℕ)
      → index_of (λ x. str_eq (key x) k) xs ≡ some i
      → (pre : List A) × (x : A) × (post : List A) × (xs ≡ pre ++ (x ∷ post))
        × (i ≡ length pre)
        × (key x ≡ k)
        × (find_key key k pre ≡ none)
  unfolding index_of find_key
  index_of_split k [] i h = cc
  index_of_split k (x ∷ xs) i h = elim (Bool-cases (str_eq (key x) k)) [
    | inl hit ↦ ([], x, xs, refl, ground arith, eq_of_str_eq (key x) k hit, refl)
    | inr miss ↦ elim (Option-cases (index_of (λ y. str_eq (key y) k) xs)) [
      | inl gone ↦ absurd (ground arith)
      | inr (j, at) ↦
          let (pre, y, post, split, here, same, before) = index_of_split k xs j at in
          (x ∷ pre, y, post, ap (◌∷◌ x) split, ground arith, same, ground arith)
    ]
  ]

  pub find_of_index_none :
      (k : Str) (xs : List A)
      → index_of (λ x. str_eq (key x) k) xs ≡ none
      → find_key key k xs ≡ none
  unfolding find_key index_of
  find_of_index_none k [] h = refl
  find_of_index_none k (x ∷ xs) h = ground (arith, find_of_index_none k xs)

  module _ (k : Str) (f : A → A) (keeps : (x : A) → key x ≡ k → key (f x) ≡ k) where
    -- Changing the entry of a key, and not its key, shows in a lookup of that key alone.
    pub find-update_first :
        (j : Str) (xs : List A)
        → find_key key j (update_first (λ x. str_eq (key x) k) f xs) ≡ (
            if str_eq k j
            then elim (find_key key j xs) [ none ↦ none | some x ↦ some (f x) ]
            else find_key key j xs)
    unfolding find_key
    find-update_first j [] = ground arith
    find-update_first j (x ∷ xs) = ground (
      arith,
      find-update_first j xs,
      λ (e : key x ≡ k). ap (λ s. str_eq s j) (keeps x e),
      str_eq_iff (key x) k,
      str_eq_iff (key x) j,
      str_eq_iff k j,
    )

    pub occurs-update_first :
        (j : Str) (xs : List A)
        → occurs key j (update_first (λ x. str_eq (key x) k) f xs) ≡ occurs key j xs
    unfolding occurs
    occurs-update_first j [] = refl
    occurs-update_first j (x ∷ xs) = ground (
      arith,
      occurs-update_first j xs,
      str_eq_iff (key x) k,
      λ (e : key x ≡ k). ap (λ s. str_eq s j) (keeps x e),
    )

    pub length-update_first :
        (xs : List A) → length (update_first (λ x. str_eq (key x) k) f xs) ≡ length xs
    length-update_first [] = refl
    length-update_first (x ∷ xs) = ground (arith, length-update_first xs)
