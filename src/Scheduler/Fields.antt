-- ===== src/Scheduler/Fields.antt =====
-- app/engine/scheduler.c: the fields of cron expressions, and the numbers that the parser finds in them.
use mathlib.Core.List.{append-nil}
use event_engine_acap.Prelude.{
  ℕ, zero, suc, ◌+◌, ◌≤◌, ◌<◌, ◌≡◌, ◌↔◌, ◌⊎◌, refl, sym, ap, ap₂, ◌∙◌, inl, inr, true, false, ltb,
  ◌==◌, Bool-cases, Option, some, none, List, [], ◌∷◌, ◌++◌, map, Str, pos, arith,
}
use event_engine_acap.Scheduler.Cron.{is_digit, atoi, after_byte, with_bit, range_from}
use event_engine_acap.Scheduler.Parse.{has_bit, at_least_one, token_bits, parse_token, parse_tokens}
use event_engine_acap.Scheduler.Ranges.{InSteps, Sets, has_bit-with_bit, range_from-Sets}
use event_engine_acap.Scheduler.Scanned.{
  all_digits, is_numeral, value, lacks_digits, atoi-append, after_byte-append,
}

-- An item of a field, with its numbers in decimal digits: one number, a range, a range in steps, and
-- every so many of the whole field.
pub data Item : Type 0 where
  one : Str → Item
  span : Str → Str → Item
  span_by : Str → Str → Str → Item
  every : Str → Item

abbrev pub item_text : Item → Str
item_text (one a) = a
item_text (span a b) = a ++ (b'-' ∷ b)
item_text (span_by a b k) = a ++ (b'-' ∷ b ++ (b'/' ∷ k))
item_text (every k) = b'*' ∷ b'/' ∷ k

abbrev pub step_value : ℕ → ℕ
step_value zero = 1
step_value (suc k) = suc k

-- The numbers that an item stands for, in a field from `low` to `high`.
abbrev pub Selects : ℕ → ℕ → Item → ℕ → Type 0
Selects low high (one a) i = i ≡ value a
Selects low high (span a b) i = InSteps (value a) (value b) 1 i
Selects low high (span_by a b k) i = InSteps (value a) (value b) (value k) i
Selects low high (every k) i = InSteps low high (step_value (value k)) i

-- The numbers are decimal, a range has a step that is not 0, and ends within `n`.
abbrev pub IsItem : ℕ → Item → Type 0
IsItem n (one a) = is_numeral a ≡ true
IsItem n (span a b) = (is_numeral a ≡ true) × (is_numeral b ≡ true) × (value b < n)
IsItem n (span_by a b k) =
    (is_numeral a ≡ true)
    × (is_numeral b ≡ true)
    × (value b < n)
    × (is_numeral k ≡ true)
    × (0 < value k)
IsItem n (every k) = is_numeral k ≡ true

atoi_whole : (ds : Str) → is_numeral ds ≡ true → atoi ds ≡ pos (value ds)
atoi_whole ds h = ap atoi (sym (append-nil ds)) ∙ atoi-append ds [] h refl

digits_of : (ds : Str) → is_numeral ds ≡ true → all_digits ds ≡ true
digits_of [] h = refl
digits_of (b ∷ bs) h = h

-- A byte after a numeral is found after it, and one that is nowhere is not found.
after_numeral :
    (sep : ℕ) (ds rest : Str)
    → is_digit sep ≡ false
    → is_numeral ds ≡ true
    → after_byte sep (ds ++ rest) ≡ after_byte sep rest
after_numeral sep ds rest s h =
    after_byte-append sep ds rest (lacks_digits sep ds s (digits_of ds h))

not_after_numeral :
    (sep : ℕ) (ds : Str) → is_digit sep ≡ false → is_numeral ds ≡ true → after_byte sep ds ≡ none
not_after_numeral sep ds s h =
    ap (after_byte sep) (sym (append-nil ds))
    ∙ after_numeral sep ds [] s h
    ∙ unfold after_byte in refl

one-Sets : (low high a : ℕ) → Sets low high (some (with_bit low high (pos a) [])) (λ i. i ≡ a)
one-Sets low high a = (
  with_bit low high (pos a) [],
  refl,
  λ i.
      let (there, back) = has_bit-with_bit low high a i [] in
      (λ h. elim (there h) [ inl w ↦ w | inr x ↦ absurd (ground arith) ], λ w. back (inl w)),
)

by_step-Sets :
    (low high n a b k : ℕ)
    → suc b ≤ a + n
    → 0 < k
    → Sets low high (range_from low high n (pos a) (pos b) (pos k)) (InSteps a b k)
by_step-Sets low high n a b zero h p = absurd (omega arith)
by_step-Sets low high n a b (suc k) h p = range_from-Sets low high k n a b h

-- A token is parsed by what follows its dash and its slash.
parse_token_by :
    (n low high : ℕ) (tok : Str) {dash slash : Option Str}
    → after_byte b'-' tok ≡ dash
    → after_byte b'/' tok ≡ slash
    → parse_token n low high tok ≡ token_bits n low high tok dash slash
unfolding parse_token
parse_token_by n low high tok e e' = ap₂ (token_bits n low high tok) e e'

-- After a numeral, a byte that comes next is found there.
found_after :
    (sep : ℕ) (ds rest : Str)
    → is_digit sep ≡ false
    → is_numeral ds ≡ true
    → after_byte sep (ds ++ (sep ∷ rest)) ≡ some rest
found_after sep ds rest s h =
    after_numeral sep ds (sep ∷ rest) s h
    ∙ (let same : (sep == sep) ≡ true = ground arith in unfold after_byte in rw same refl)

-- The slash of a range is after its dash.
slash_after :
    (a rest : Str)
    → is_numeral a ≡ true
    → after_byte b'/' (a ++ (b'-' ∷ rest)) ≡ after_byte b'/' rest
slash_after a rest h = after_numeral b'/' a (b'-' ∷ rest) refl h ∙ unfold after_byte in refl

step_value-pos : (k : ℕ) → at_least_one (pos k) ≡ pos (step_value k)
step_value-pos zero = refl
step_value-pos (suc k) = let set : ltb 0 (suc k) ≡ true = ground arith in rw set refl

step_value-set : (k : ℕ) → 0 < step_value k
step_value-set zero = omega arith
step_value-set (suc k) = omega arith

no_dash : (k : Str) → is_numeral k ≡ true → after_byte b'-' (b'*' ∷ b'/' ∷ k) ≡ none
unfolding after_byte
no_dash k p = not_after_numeral b'-' k refl p

parse_token-Sets :
    (n low high : ℕ) (item : Item)
    → high < n
    → IsItem n item
    → Sets low high (parse_token n low high (item_text item)) (Selects low high item)
parse_token-Sets n low high (one a) h p =
    let parsed =
      parse_token_by n low high a (not_after_numeral b'-' a refl p)
        (not_after_numeral b'/' a refl p) in
    rw (parsed, atoi_whole a p) (one-Sets low high (value a))
parse_token-Sets n low high (span a b) h (p, q, far) =
    let tok = a ++ (b'-' ∷ b) in
    let parsed =
      parse_token_by n low high tok (found_after b'-' a b refl p)
        (slash_after a b p ∙ not_after_numeral b'/' b refl q) in
    rw (parsed, atoi-append a (b'-' ∷ b) p refl, atoi_whole b q)
      (by_step-Sets low high n (value a) (value b) 1 (omega arith) (omega arith))
parse_token-Sets n low high (span_by a b k) h (p, q, far, r, s) =
    let upper = b ++ (b'/' ∷ k) in
    let tok = a ++ (b'-' ∷ upper) in
    let parsed =
      parse_token_by n low high tok (found_after b'-' a upper refl p)
        (slash_after a upper p ∙ found_after b'/' b k refl q) in
    rw
      (parsed, atoi-append a (b'-' ∷ upper) p refl, atoi-append b (b'/' ∷ k) q refl, atoi_whole k r)
      (by_step-Sets low high n (value a) (value b) (value k) (omega arith) s)
parse_token-Sets n low high (every k) h p =
    let tok = b'*' ∷ b'/' ∷ k in
    let parsed =
      parse_token_by n low high tok {dash = none} {slash = some k} (no_dash k p)
        (unfold after_byte in refl) in
    rw (parsed, atoi_whole k p, step_value-pos (value k))
      (by_step-Sets low high n low high (step_value (value k)) (omega arith)
        (step_value-set (value k)))

-- The items one after the other, and whether one of them selects a number.
abbrev pub Chosen : ℕ → ℕ → List Item → ℕ → Type 0
Chosen low high [] i = ⊥
Chosen low high (item ∷ items) i = Selects low high item i ⊎ Chosen low high items i

abbrev pub AreItems : ℕ → List Item → Type 0
AreItems n [] = Unit
AreItems n (item ∷ items) = IsItem n item × AreItems n items

has_bit-append :
    (xs ys : List ℕ) (i : ℕ)
    → (has_bit (xs ++ ys) i ≡ true) ↔ ((has_bit xs i ≡ true) ⊎ (has_bit ys i ≡ true))
has_bit-append [] ys i = (λ h. inr h, λ h. elim h [ inl x ↦ absurd (ground arith) | inr y ↦ y ])
has_bit-append (x ∷ xs) ys i = elim (Bool-cases (x == i)) [
  | inl e ↦ rw e ((λ h. inl refl, λ h. refl))
  | inr e ↦ rw e (has_bit-append xs ys i)
]

pub parse_tokens-Sets :
    (n low high : ℕ) (items : List Item)
    → high < n
    → AreItems n items
    → Sets low high (parse_tokens n low high (map item_text items)) (Chosen low high items)
unfolding parse_tokens
parse_tokens-Sets n low high [] h p =
    ([], refl, λ i. (λ e. absurd (ground arith), λ (w, x). absurd x))
parse_tokens-Sets n low high (item ∷ items) h (p, ps) =
    let (bits, e, iff) = parse_token-Sets n low high item h p in
    let (more, e', iff') = parse_tokens-Sets n low high items h ps in
    rw (e, e')
      (
        bits ++ more,
        refl,
        λ i.
            let (there, back) = has_bit-append bits more i in
            let (one_there, one_back) = iff i in
            let (all_there, all_back) = iff' i in
            (
              λ b. elim (there b) [
                | inl x ↦ ((one_there x).0, inl (one_there x).1)
                | inr y ↦ ((all_there y).0, inr (all_there y).1)
              ],
              λ (w, x).
                  back (elim x [ inl s ↦ inl (one_back (w, s)) | inr c ↦ inr (all_back (w, c)) ]),
            ),
      )
