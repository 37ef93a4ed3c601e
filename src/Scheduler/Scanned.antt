-- ===== src/Scheduler/Scanned.antt =====
-- app/engine/scheduler.c: what `atoi`, `strchr` and `strtok_r` find in texts of numbers.
use mathlib.Core.List.{append-nil, append_assoc}
use event_engine_acap.Prelude.{
  ℕ, ◌+◌, ◌-◌, ◌*◌, ◌≡◌, refl, sym, ap, ◌∙◌, Bool, true, false, ◌&&◌, ◌||◌, not, leb, ◌==◌, List,
  [], ◌∷◌, ◌++◌, Str, pos, arith,
}
use event_engine_acap.Scheduler.Cron.{is_digit, digits, atoi, after_byte, push, tokens_from, tokens}

abbrev pub all_digits : Str → Bool
all_digits [] = true
all_digits (b ∷ bs) = is_digit b && all_digits bs

-- A number in decimal digits.
abbrev pub is_numeral : Str → Bool
is_numeral [] = false
is_numeral (b ∷ bs) = all_digits (b ∷ bs)

abbrev pub value : Str → ℕ
value s = digits 0 s

-- No number goes on here.
abbrev pub stops : Str → Bool
stops [] = true
stops (b ∷ bs) = not (is_digit b)

abbrev pub lacks : ℕ → Str → Bool
lacks sep [] = true
lacks sep (b ∷ bs) = not (b == sep) && lacks sep bs

digits-append :
    (n : ℕ) (ds rest : Str)
    → all_digits ds ≡ true
    → stops rest ≡ true
    → digits n (ds ++ rest) ≡ digits n ds
digits-append n [] [] h s = refl
digits-append n [] (b ∷ bs) h s = ground arith
digits-append n (b ∷ bs) rest h s =
    ground (arith, digits-append (n * 10 + (b - b'0')) bs rest (ground arith) s)

pub atoi-append :
    (ds rest : Str) → is_numeral ds ≡ true → stops rest ≡ true → atoi (ds ++ rest) ≡ pos (value ds)
unfolding atoi
atoi-append [] rest h s = ground arith
atoi-append (b ∷ bs) rest h s =
    let digit : is_digit b ≡ true = ground arith in
    let no_space : (b == b' ' || (leb 9 b && leb b 13)) ≡ false = ground arith in
    let no_minus : (b == b'-') ≡ false = ground arith in
    let no_plus : (b == b'+') ≡ false = ground arith in
    rw (no_space, no_minus, no_plus) (ap pos (digits-append 0 (b ∷ bs) rest h s))

pub after_byte-append :
    (sep : ℕ) (s rest : Str) → lacks sep s ≡ true → after_byte sep (s ++ rest) ≡ after_byte sep rest
unfolding after_byte
after_byte-append sep [] rest h = refl
after_byte-append sep (b ∷ bs) rest h = ground (arith, after_byte-append sep bs rest (ground arith))

-- A byte that is no digit is in no numeral.
pub lacks_digits :
    (sep : ℕ) (ds : Str) → is_digit sep ≡ false → all_digits ds ≡ true → lacks sep ds ≡ true
lacks_digits sep [] h d = refl
lacks_digits sep (b ∷ bs) h d = ground (arith, lacks_digits sep bs h (ground arith))

abbrev pub joined : ℕ → List Str → Str
joined sep [] = []
joined sep (t ∷ []) = t
joined sep (t ∷ u ∷ ts) = t ++ (sep ∷ joined sep (u ∷ ts))

tokens_from-append :
    (sep : ℕ) (tok s rest : Str)
    → lacks sep s ≡ true
    → tokens_from sep tok (s ++ rest) ≡ tokens_from sep (tok ++ s) rest
unfolding tokens_from
tokens_from-append sep tok [] rest h = ap (λ t. tokens_from sep t rest) (sym (append-nil tok))
tokens_from-append sep tok (b ∷ bs) rest h =
    ground (arith, tokens_from-append sep (tok ++ (b ∷ [])) bs rest (ground arith))
    ∙ ap (λ t. tokens_from sep t rest) (append_assoc tok (b ∷ []) bs)

-- Texts that are not empty and have no separator.
abbrev pub AreTokens : ℕ → List Str → Type 0
AreTokens sep [] = Unit
AreTokens sep ([] ∷ ts) = ⊥
AreTokens sep ((b ∷ bs) ∷ ts) = (lacks sep (b ∷ bs) ≡ true) × AreTokens sep ts

-- A separator ends the token that is read.
tokens_from-sep :
    (sep : ℕ) (tok rest : Str)
    → tokens_from sep tok (sep ∷ rest) ≡ push tok (tokens_from sep [] rest)
unfolding tokens_from
tokens_from-sep sep tok rest = let same : (sep == sep) ≡ true = ground arith in rw same refl

-- The tokens of texts with a separator between them are the texts.
pub tokens-joined : (sep : ℕ) (ts : List Str) → AreTokens sep ts → tokens sep (joined sep ts) ≡ ts
tokens-joined sep [] h = unfold tokens_from in refl
tokens-joined sep ([] ∷ ts) h = absurd h
tokens-joined sep ((b ∷ bs) ∷ []) h =
    ap (tokens_from sep []) (sym (append-nil (b ∷ bs)))
    ∙ tokens_from-append sep [] (b ∷ bs) [] h.0
    ∙ unfold tokens_from in refl
tokens-joined sep ((b ∷ bs) ∷ u ∷ ts) h =
    tokens_from-append sep [] (b ∷ bs) (sep ∷ joined sep (u ∷ ts)) h.0
    ∙ tokens_from-sep sep (b ∷ bs) (joined sep (u ∷ ts))
    ∙ ap (◌∷◌ (b ∷ bs)) (tokens-joined sep (u ∷ ts) h.1)
