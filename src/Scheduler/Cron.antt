-- ===== src/Scheduler/Cron.antt =====
-- app/engine/scheduler.c: `parse_cron_field` and `parse_cron`. A mask is the list of the bits that were
-- set; `none` stands for a parse that has not ended after the given number of rounds.
use event_engine_acap.Prelude.{
  ℕ, zero, suc, ◌+◌, ◌-◌, ◌*◌, Bool, true, false, ◌&&◌, ◌||◌, leb, ◌==◌, if◌then◌else◌, Option,
  none, some, List, [], ◌∷◌, ◌++◌, Str, ℤ, pos, negsuc,
}

abbrev pub plus : ℤ → ℕ → ℤ
plus (pos a) k = pos (a + k)
plus (negsuc a) k = if leb k a then negsuc (a - k) else pos (k - suc a)

abbrev pub minus : ℤ → ℕ → ℤ
minus (pos a) k = if leb k a then pos (a - k) else negsuc (k - suc a)
minus (negsuc a) k = negsuc (a + k)

-- `i + step`
abbrev pub step_from : ℤ → ℤ → ℤ
step_from i (pos k) = plus i k
step_from i (negsuc k) = minus i (suc k)

abbrev pub leb_ℤ : ℤ → ℤ → Bool
leb_ℤ (pos a) (pos b) = leb a b
leb_ℤ (pos a) (negsuc b) = false
leb_ℤ (negsuc a) (pos b) = true
leb_ℤ (negsuc a) (negsuc b) = leb b a

abbrev pub is_digit : ℕ → Bool
is_digit b = leb b'0' b && leb b b'9'

abbrev pub digits : ℕ → Str → ℕ
digits n [] = n
digits n (b ∷ bs) = if is_digit b then digits (n * 10 + (b - b'0')) bs else n

abbrev negated : ℕ → ℤ
negated zero = pos 0
negated (suc n) = negsuc n

-- libc's `atoi`: a sign and the digits after spaces, and 0 without digits.
unfoldable pub atoi : Str → ℤ
atoi [] = pos 0
atoi (b ∷ bs) =
    let later = atoi bs in
    if b == b' ' || (leb 9 b && leb b 13)
    then later
    else if b == b'-'
    then negated (digits 0 bs)
    else if b == b'+'
    then pos (digits 0 bs)
    else pos (digits 0 (b ∷ bs))

-- What stands after the first such byte, as `strchr` finds it.
unfoldable pub after_byte : ℕ → Str → Option Str
after_byte sep [] = none
after_byte sep (b ∷ bs) = if b == sep then some bs else after_byte sep bs

abbrev pub push : Str → List Str → List Str
push [] toks = toks
push (b ∷ bs) toks = (b ∷ bs) ∷ toks

-- The tokens of `strtok_r`, which are never empty; `tok` is the one that is read.
unfoldable pub tokens_from : ℕ → Str → Str → List Str
tokens_from sep tok [] = push tok []
tokens_from sep tok (b ∷ bs) =
    let same = tokens_from sep (tok ++ (b ∷ [])) bs in
    let next = tokens_from sep [] bs in if b == sep then push tok next else same

abbrev pub tokens : ℕ → Str → List Str
tokens sep s = tokens_from sep [] s

abbrev pub with_bit : ℕ → ℕ → ℤ → List ℕ → List ℕ
with_bit low high (pos i) bits = if leb low i && leb i high then i ∷ bits else bits
with_bit low high (negsuc i) bits = bits

abbrev pub and_bit : ℕ → ℕ → ℤ → Option (List ℕ) → Option (List ℕ)
and_bit low high i none = none
and_bit low high i (some bits) = some (with_bit low high i bits)

-- The loop `for (int i = a; i <= b; i += step)`, in at most `n` rounds.
unfoldable pub range_from : ℕ → ℕ → ℕ → ℤ → ℤ → ℤ → Option (List ℕ)
range_from low high zero i b step = if leb_ℤ i b then none else some []
range_from low high (suc n) i b step =
    let rest = and_bit low high i (range_from low high n (step_from i step) b step) in
    if leb_ℤ i b then rest else some []
