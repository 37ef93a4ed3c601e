-- ===== src/Table/Removal.antt =====
-- What moving the last entry into the gap does to lookups.
use event_engine_acap.Prelude.{
  ℕ, zero, suc, ◌+◌, ◌-◌, ◌≤◌, ◌<◌, ◌≡◌, refl, sym, ap, ◌∙◌, subst, ◌⊎◌, inl, inr, true, false, ltb,
  lt→ltb, ltb→lt, if◌then◌else◌, Bool-cases, none, some, List, [], ◌∷◌, ◌++◌, Str, str_eq, length,
  length-append, length-set, get_elem?, set, take, arith,
}
use mathlib.Core.List.{append_assoc, append-nil}
use event_engine_acap.Table.Defs.{find_key, occurs, index_of, swap_remove}
use event_engine_acap.Table.Laws.{
  occurs-append, find-append, find-append_comm, find_none_of_occurs, index_of_split,
}

module _ {A : Type 0} where
  pub snoc_cases : (xs : List A) → (xs ≡ []) ⊎ ((mid : List A) × (l : A) × (xs ≡ mid ++ (l ∷ [])))
  snoc_cases [] = inl refl
  snoc_cases (x ∷ xs) = elim (snoc_cases xs) [
    | inl e ↦ inr ([], x, ap (◌∷◌ x) e)
    | inr (mid, l, e) ↦ inr (x ∷ mid, l, ap (◌∷◌ x) e)
  ]

  get_elem?-snoc : (xs : List A) (l : A) → get_elem? (xs ++ (l ∷ [])) (length xs) ≡ some l
  get_elem?-snoc [] l = refl
  get_elem?-snoc (x ∷ xs) l = get_elem?-snoc xs l

  set-snoc :
      (xs : List A) (l : A) (i : ℕ) (v : A)
      → i < length xs
      → set (xs ++ (l ∷ [])) i v ≡ set xs i v ++ (l ∷ [])
  set-snoc [] l i v h = absurd (omega arith)
  set-snoc (x ∷ xs) l zero v h = refl
  set-snoc (x ∷ xs) l (suc i) v h = ap (◌∷◌ x) (set-snoc xs l i v (omega arith))

  take-snoc : (xs : List A) (l : A) → take (length xs) (xs ++ (l ∷ [])) ≡ xs
  take-snoc [] l = refl
  take-snoc (x ∷ xs) l = ap (◌∷◌ x) (take-snoc xs l)

  set-middle :
      (pre : List A) (x : A) (post : List A) (v : A)
      → set (pre ++ (x ∷ post)) (length pre) v ≡ pre ++ (v ∷ post)
  set-middle [] x post v = refl
  set-middle (y ∷ pre) x post v = ap (◌∷◌ y) (set-middle pre x post v)

  length-snoc-pred : (xs : List A) (l : A) → length (xs ++ (l ∷ [])) - 1 ≡ length xs
  length-snoc-pred xs l = omega (arith, length-append xs (l ∷ []))

  swap_remove_lem :
      (xs : List A) (i n : ℕ) (l : A)
      → length xs - 1 ≡ n
      → get_elem? xs n ≡ some l
      → swap_remove xs i ≡ take n (if ltb i n then set xs i l else xs)
  unfolding swap_remove
  swap_remove_lem xs i n l e at = ground arith

  pub swap_remove-snoc :
      (front : List A) (l : A) (i : ℕ)
      → swap_remove (front ++ (l ∷ [])) i ≡ (if ltb i (length front) then set front i l else front)
  swap_remove-snoc front l i =
      swap_remove_lem (front ++ (l ∷ [])) i (length front) l (length-snoc-pred front l)
        (get_elem?-snoc front l)
      ∙ elim (Bool-cases (ltb i (length front))) [
        | inl inside ↦
            rw (inside, set-snoc front l i l (ltb→lt i (length front) inside))
              (ap (λ n. take n (set front i l ++ (l ∷ []))) (sym (length-set front i l))
                ∙ take-snoc (set front i l) l)
        | inr outside ↦ rw outside (take-snoc front l)
      ]

  swap_remove_last : (pre : List A) (x : A) → swap_remove (pre ++ (x ∷ [])) (length pre) ≡ pre
  swap_remove_last pre x = swap_remove-snoc pre x (length pre) ∙ rw (outside) refl
    where
      outside : ltb (length pre) (length pre) ≡ false
      outside = ground arith

  swap_remove_middle :
      (pre : List A) (x : A) (mid : List A) (l : A)
      → swap_remove (pre ++ (x ∷ mid ++ (l ∷ []))) (length pre) ≡ pre ++ (l ∷ mid)
  swap_remove_middle pre x mid l =
      ap (λ xs. swap_remove xs (length pre)) (sym (append_assoc pre (x ∷ mid) (l ∷ [])))
      ∙ swap_remove-snoc (pre ++ (x ∷ mid)) l (length pre)
      ∙ rw inside (set-middle pre x mid l)
    where
      inside : ltb (length pre) (length (pre ++ (x ∷ mid))) ≡ true
      inside = lt→ltb _ _ (omega (arith, length-append pre (x ∷ mid)))

  -- Removing the entry at the gap leaves the others, one of them moved.
  pub swap_remove_cases :
      (pre : List A) (x : A) (post : List A)
      → (mid rest : List A) × (post ≡ rest ++ mid)
        × (swap_remove (pre ++ (x ∷ post)) (length pre) ≡ pre ++ (mid ++ rest))
  swap_remove_cases pre x post = elim (snoc_cases post) [
    | inl e ↦ (
      [],
      [],
      e,
      ap (λ p. swap_remove (pre ++ (x ∷ p)) (length pre)) e
          ∙ swap_remove_last pre x
          ∙ sym (append-nil pre),
    )
    | inr (mid, l, e) ↦ (
      l ∷ [],
      mid,
      e,
      ap (λ p. swap_remove (pre ++ (x ∷ p)) (length pre)) e ∙ swap_remove_middle pre x mid l,
    )
  ]

module _ {A : Type 0} (key : A → Str) where
  -- Each key stands once at most.
  abbrev pub Distinct : List A → Type 0
  Distinct xs = (k : Str) → occurs key k xs ≤ 1

  module _ (k : Str) (xs : List A) (i : ℕ) (at : index_of (λ x. str_eq (key x) k) xs ≡ some i) where
    pub length-swap_remove : length (swap_remove xs i) + 1 ≡ length xs
    length-swap_remove =
        let (pre, x, post, split, here, same, before) = index_of_split key k xs i at in
        let (mid, rest, parts, e) = swap_remove_cases pre x post in
        rw (split, here, e)
          (omega (
            arith,
            length-append pre (mid ++ rest),
            length-append mid rest,
            length-append pre (x ∷ post),
            length-append rest mid,
            ap length parts,
          ))

    -- Every key but the removed one stands as often as before.
    pub occurs-swap_remove :
        (j : Str)
        → occurs key j xs ≡ occurs key j (swap_remove xs i) + (if str_eq k j then 1 else 0)
    unfolding occurs
    occurs-swap_remove j =
        let (pre, x, post, split, here, same, before) = index_of_split key k xs i at in
        let (mid, rest, parts, e) = swap_remove_cases pre x post in
        rw (split, here, e)
          (ground (
            arith,
            occurs-append key j pre (x ∷ post),
            occurs-append key j pre (mid ++ rest),
            occurs-append key j mid rest,
            occurs-append key j rest mid,
            ap (occurs key j) parts,
            ap (λ s. str_eq s j) same,
          ))

    -- Once the entry is removed, a lookup of its key fails and the others find what they found.
    pub find-swap_remove :
        Distinct xs
        → (j : Str)
        → find_key key j (swap_remove xs i) ≡ (if str_eq k j then none else find_key key j xs)
    unfolding find_key occurs
    find-swap_remove d j =
        let (pre, x, post, split, here, same, before) = index_of_split key k xs i at in
        let (mid, rest, parts, e) = swap_remove_cases pre x post in
        let once : occurs key j (pre ++ (x ∷ post)) ≤ 1 =
          subst (λ l. occurs key j l ≤ 1) split (d j) in
        rw (split, here, e)
          (ground (
            arith,
            once,
            find-append key j pre (x ∷ post),
            find-append key j pre (mid ++ rest),
            find-append_comm key j mid rest,
            find_none_of_occurs key j pre,
            find_none_of_occurs key j post,
            occurs-append key j pre (x ∷ post),
            occurs-append key j mid rest,
            occurs-append key j rest mid,
            ap (occurs key j) parts,
            ap (find_key key j) parts,
            ap (λ s. str_eq s j) same,
          ))
