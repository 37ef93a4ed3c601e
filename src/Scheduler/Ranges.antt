-- ===== src/Scheduler/Ranges.antt =====
-- app/engine/scheduler.c: the bits that the loop over a range sets.
use event_engine_acap.Prelude.{
  ℕ, zero, suc, ◌+◌, ◌*◌, ◌≤◌, ◌<◌, ◌≡◌, ◌↔◌, ◌⊎◌, refl, inl, inr, true, false, leb, Bool-cases,
  Option, some, List, [], pos, arith,
}
use event_engine_acap.Scheduler.Cron.{with_bit, range_from}
use event_engine_acap.Scheduler.Parse.{has_bit}

-- The numbers `a`, `a + k` and so on up to `b`.
pub record InSteps (a b k i : ℕ) : Type 0 where
  pub count : ℕ
  pub here : i ≡ a + count * k
  pub up_to : i ≤ b

abbrev pub InBounds : ℕ → ℕ → ℕ → Type 0
InBounds low high i = (low ≤ i) × (i ≤ high)

pub has_bit-with_bit :
    (low high a i : ℕ) (bits : List ℕ)
    → (has_bit (with_bit low high (pos a) bits) i ≡ true)
      ↔ ((InBounds low high i × (i ≡ a)) ⊎ (has_bit bits i ≡ true))
has_bit-with_bit low high a i bits = (λ h. ground arith, λ h. ground arith)

-- Steps from `a` are `a` and the steps from the number after it.
steps_cons : (a b k i : ℕ) → a ≤ b → InSteps a b k i ↔ ((i ≡ a) ⊎ InSteps (a + k) b k i)
steps_cons a b k i h = (there, back)
  where
    there : InSteps a b k i → (i ≡ a) ⊎ InSteps (a + k) b k i
    there s =
        elim s.count as (λ c. i ≡ a + c * k → (i ≡ a) ⊎ InSteps (a + k) b k i) [
          | zero ↦ λ e. inl (omega arith)
          | suc c ↦ λ e. inr (record { count = c; here = omega arith; up_to = s.up_to })
        ]
          s.here

    back : (i ≡ a) ⊎ InSteps (a + k) b k i → InSteps a b k i
    back (inl e) = record { count = 0; here = omega arith; up_to = omega arith }
    back (inr s) = record { count = suc s.count; here = omega arith; up_to = s.up_to }

-- A parse that ended, with the bits of the numbers within the bounds that satisfy `P`.
abbrev pub Sets : ℕ → ℕ → Option (List ℕ) → (ℕ → Type 0) → Type 0
Sets low high o P =
    (bits : List ℕ) × (o ≡ some bits)
    × ((i : ℕ) → (has_bit bits i ≡ true) ↔ (InBounds low high i × P i))

past_end : (a b k i : ℕ) → b < a → ¬ InSteps a b k i
past_end a b k i h s = omega (arith, h, s.here, s.up_to)

no_steps : (low high a b k : ℕ) → b < a → Sets low high (some []) (InSteps a b k)
no_steps low high a b k h =
    ([], refl, λ i. (λ e. absurd (ground arith), λ (w, s). absurd (past_end a b k i h s)))

pub range_from-Sets :
    (low high k n a b : ℕ)
    → suc b ≤ a + n
    → Sets low high (range_from low high n (pos a) (pos b) (pos (suc k))) (InSteps a b (suc k))
unfolding range_from
range_from-Sets low high k zero a b far =
    let over : leb a b ≡ false = ground arith in
    rw over (no_steps low high a b (suc k) (ground arith))
range_from-Sets low high k (suc n) a b far = elim (Bool-cases (leb a b)) [
  | inr over ↦ rw over (no_steps low high a b (suc k) (ground arith))
  | inl within ↦
      let (bits, e, iff) = range_from-Sets low high k n (a + suc k) b (omega arith) in
      rw (within, e)
        (
          with_bit low high (pos a) bits,
          refl,
          λ i.
              let (there, back) = iff i in
              let (there', back') = has_bit-with_bit low high a i bits in
              let (split, join) = steps_cons a b (suc k) i (ground arith) in
              (
                λ h. elim (there' h) [
                  | inl (w, x) ↦ (w, join (inl x))
                  | inr q ↦ ((there q).0, join (inr (there q).1))
                ],
                λ (w, s). back' (elim (split s) [ inl x ↦ inl (w, x) | inr q ↦ inr (back (w, q)) ]),
              ),
        )
]
