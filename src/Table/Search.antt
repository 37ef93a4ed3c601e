-- ===== src/Table/Search.antt =====
-- Searching an array for the first entry that passes a test.
use event_engine_acap.Prelude.{
  ℕ, zero, suc, ◌<◌, ◌≡◌, Bool, true, false, Bool-cases, Option-cases, inl, inr, none, some, List,
  [], ◌∷◌, length, get_or, arith,
}
use event_engine_acap.Table.Defs.{index_of}

-- `d` is what `get_or` returns beyond the end.
module _ {A : Type 0} (p : A → Bool) (d : A) where
  pub index_at :
      (xs : List A) (i : ℕ) → index_of p xs ≡ some i → (i < length xs) × (p (get_or xs i d) ≡ true)
  unfolding index_of
  index_at [] i e = cc
  index_at (x ∷ xs) i e = elim (Bool-cases (p x)) [
    | inl hit ↦ let first : i ≡ 0 = ground arith in rw first (omega arith, hit)
    | inr miss ↦ elim (Option-cases (index_of p xs)) [
      | inl gone ↦ absurd (ground arith)
      | inr (j, at) ↦
          let later : i ≡ suc j = ground arith in
          let (inside, holds) = index_at xs j at in rw later (omega arith, holds)
    ]
  ]

  -- What stands before the first does not pass.
  pub index_before :
      (xs : List A) (i j : ℕ) → index_of p xs ≡ some i → j < i → p (get_or xs j d) ≡ false
  unfolding index_of
  index_before [] i j e h = cc
  index_before (x ∷ xs) i j e h = elim (Bool-cases (p x)) [
    | inl hit ↦ let first : i ≡ 0 = ground arith in absurd (omega arith)
    | inr miss ↦ elim (Option-cases (index_of p xs)) [
      | inl gone ↦ absurd (ground arith)
      | inr (k, at) ↦
          let later : i ≡ suc k = ground arith in
          elim j as (λ j. j < i → p (get_or (x ∷ xs) j d) ≡ false) [
            | zero ↦ λ h. miss
            | suc j ↦ λ h. index_before xs k j at (omega arith)
          ]
            h
    ]
  ]

  pub index_none :
      (xs : List A) (i : ℕ) → index_of p xs ≡ none → i < length xs → p (get_or xs i d) ≡ false
  unfolding index_of
  index_none [] i e h = absurd (omega arith)
  index_none (x ∷ xs) zero e h = elim (Bool-cases (p x)) [
    | inl hit ↦ absurd (ground arith)
    | inr miss ↦ miss
  ]
  index_none (x ∷ xs) (suc i) e h = elim (Bool-cases (p x)) [
    | inl hit ↦ absurd (ground arith)
    | inr miss ↦ elim (Option-cases (index_of p xs)) [
      | inl gone ↦ index_none xs i gone (omega arith)
      | inr (j, at) ↦ absurd (ground arith)
    ]
  ]
