-- ===== src/Scheduler/Masks.antt =====
-- app/engine/scheduler.c: a whole field of a cron expression.
use event_engine_acap.Prelude.{
  ℕ, ◌-◌, ◌<◌, ◌≡◌, refl, ◌∙◌, Bool, true, false, ◌&&◌, not, ◌==◌, List, [], ◌∷◌, ◌++◌, map, Str,
  codes, str_eq, snprintf_fits, length, pos, arith,
}
use event_engine_acap.Cjson.{is_set}
use event_engine_acap.Scheduler.Cron.{is_digit, range_from}
use event_engine_acap.Scheduler.Parse.{parse_cron_field}
use event_engine_acap.Scheduler.Ranges.{InSteps, InBounds, Sets, range_from-Sets}
use event_engine_acap.Scheduler.Scanned.{
  is_numeral, lacks, lacks_digits, joined, AreTokens, tokens-joined,
}
use event_engine_acap.Scheduler.Fields.{
  Item, one, span, span_by, every, item_text, IsItem, Chosen, AreItems, parse_tokens-Sets,
}

-- A field: a star, or items with commas between them.
pub data Field : Type 0 where
  star : Field
  items : List Item → Field

abbrev pub field_text : Field → Str
field_text star = codes "*"
field_text (items is) = joined b',' (map item_text is)

-- The numbers that a field stands for.
abbrev pub Allows : ℕ → ℕ → Field → ℕ → Type 0
Allows low high star i = Unit {0}
Allows low high (items is) i = Chosen low high is i

-- The items are well-formed, and fit the buffer of the parser.
abbrev pub IsField : ℕ → Field → Type 0
IsField n star = Unit {0}
IsField n (items is) = AreItems n is × (length (field_text (items is)) < 128)

pub lacks-append :
    (sep : ℕ) (s t : Str) → lacks sep s ≡ true → lacks sep t ≡ true → lacks sep (s ++ t) ≡ true
lacks-append sep [] t h k = k
lacks-append sep (b ∷ s) t h k = ground (arith, lacks-append sep s t (ground arith) k)

pub lacks_numeral :
    (sep : ℕ) (ds : Str) → is_digit sep ≡ false → is_numeral ds ≡ true → lacks sep ds ≡ true
lacks_numeral sep [] s h = refl
lacks_numeral sep (b ∷ bs) s h = lacks_digits sep (b ∷ bs) s h

-- A byte that no item has.
abbrev pub is_outside : ℕ → Bool
is_outside sep =
    not (is_digit sep) && (not (b'-' == sep) && (not (b'/' == sep) && not (b'*' == sep)))

item-lacks :
    (sep n : ℕ) (item : Item)
    → is_outside sep ≡ true
    → IsItem n item
    → lacks sep (item_text item) ≡ true
item-lacks sep n (one a) o p = lacks_numeral sep a (ground arith) p
item-lacks sep n (span a b) o (p, q, far) =
    let out : is_digit sep ≡ false = ground arith in
    lacks-append sep a (b'-' ∷ b) (lacks_numeral sep a out p)
      (ground (arith, lacks_numeral sep b out q))
item-lacks sep n (span_by a b k) o (p, q, far, r, s) =
    let out : is_digit sep ≡ false = ground arith in
    lacks-append sep a (b'-' ∷ b ++ (b'/' ∷ k)) (lacks_numeral sep a out p) (
      ground (
        arith,
        lacks-append sep b (b'/' ∷ k) (lacks_numeral sep b out q)
            (ground (arith, lacks_numeral sep k out r)),
      ))
item-lacks sep n (every k) o p = ground (arith, lacks_numeral sep k (ground arith) p)

pub AreTokens-cons :
    (sep : ℕ) (s : Str) (ts : List Str)
    → is_set s ≡ true
    → lacks sep s ≡ true
    → AreTokens sep ts
    → AreTokens sep (s ∷ ts)
AreTokens-cons sep [] ts h l t = absurd (ground arith)
AreTokens-cons sep (b ∷ s) ts h l t = (l, t)

set_append : (s t : Str) → is_set s ≡ true → is_set (s ++ t) ≡ true
set_append [] t h = absurd (ground arith)
set_append (b ∷ s) t h = refl

set_numeral : (s : Str) → is_numeral s ≡ true → is_set s ≡ true
set_numeral [] h = h
set_numeral (b ∷ s) h = refl

set_item : (n : ℕ) (item : Item) → IsItem n item → is_set (item_text item) ≡ true
set_item n (one a) p = set_numeral a p
set_item n (span a b) p = set_append a (b'-' ∷ b) (set_numeral a p.0)
set_item n (span_by a b k) p = set_append a (b'-' ∷ b ++ (b'/' ∷ k)) (set_numeral a p.0)
set_item n (every k) p = refl

pub set_items :
    (n : ℕ) (item : Item) (is : List Item)
    → IsItem n item
    → is_set (field_text (items (item ∷ is))) ≡ true
set_items n item [] p = set_item n item p
set_items n item (next ∷ is) p =
    set_append (item_text item) (b',' ∷ field_text (items (next ∷ is))) (set_item n item p)

items-AreTokens : (n : ℕ) (is : List Item) → AreItems n is → AreTokens b',' (map item_text is)
items-AreTokens n [] h = tt
items-AreTokens n (item ∷ is) (p, ps) =
    AreTokens-cons b',' (item_text item) (map item_text is) (set_item n item p)
      (item-lacks b',' n item refl p) (items-AreTokens n is ps)

-- A field has no byte that its items do not have, other than its commas.
pub field-lacks :
    (sep n : ℕ) (is : List Item)
    → is_outside sep ≡ true
    → (b',' == sep) ≡ false
    → AreItems n is
    → lacks sep (field_text (items is)) ≡ true
field-lacks sep n [] o c h = refl
field-lacks sep n (item ∷ []) o c (p, ps) = item-lacks sep n item o p
field-lacks sep n (item ∷ next ∷ is) o c (p, ps) =
    lacks-append sep (item_text item) (b',' ∷ field_text (items (next ∷ is)))
      (item-lacks sep n item o p) (ground (arith, field-lacks sep n (next ∷ is) o c ps))

digit_start :
    (c : ℕ) (t : Str) (ts : List Str)
    → is_digit c ≡ true
    → str_eq (joined b',' ((c ∷ t) ∷ ts)) (codes "*") ≡ false
unfolding str_eq
digit_start c t [] h = ground arith
digit_start c t (u ∷ ts) h = ground arith

star_start :
    (k : Str) (ts : List Str) → str_eq (joined b',' ((b'*' ∷ b'/' ∷ k) ∷ ts)) (codes "*") ≡ false
unfolding str_eq
star_start k [] = refl
star_start k (u ∷ ts) = refl

numeral_start :
    (a rest : Str) (ts : List Str)
    → is_numeral a ≡ true
    → str_eq (joined b',' ((a ++ rest) ∷ ts)) (codes "*") ≡ false
numeral_start [] rest ts h = absurd (ground arith)
numeral_start (c ∷ a) rest ts h = digit_start c (a ++ rest) ts (ground arith)

-- No items are a star.
not_star :
    (n : ℕ) (is : List Item) → AreItems n is → str_eq (field_text (items is)) (codes "*") ≡ false
not_star n [] h = unfold str_eq in refl
not_star n (one [] ∷ is) (p, ps) = absurd (ground arith)
not_star n (one (c ∷ a) ∷ is) (p, ps) = digit_start c a (map item_text is) (ground arith)
not_star n (span a b ∷ is) ((p, q, far), ps) = numeral_start a (b'-' ∷ b) (map item_text is) p
not_star n (span_by a b k ∷ is) ((p, q, far, r, s), ps) =
    numeral_start a (b'-' ∷ b ++ (b'/' ∷ k)) (map item_text is) p
not_star n (every k ∷ is) (p, ps) = star_start k (map item_text is)

parse_star :
    (n low high : ℕ)
    → parse_cron_field n (codes "*") low high ≡ range_from low high n (pos low) (pos high) (pos 1)
unfolding parse_cron_field str_eq
parse_star n low high = refl

all_steps : (low high i : ℕ) → InBounds low high i → InSteps low high 1 i
all_steps low high i (l, h) = record { count = i - low; here = omega arith; up_to = h }

-- The parser of a field of cron ends and sets exactly the bits of the numbers, within the bounds of
-- the field, that the field stands for: all for a star, and otherwise those of a single
-- number, of a range with or without a step, or of every so many from the lower bound, for items of
-- decimal numbers whose steps in ranges are not 0. `n` rounds are enough when it is above
-- the numbers where ranges end.
pub parse_cron_field-Field :
    (n low high : ℕ) (f : Field)
    → high < n
    → IsField n f
    → Sets low high (parse_cron_field n (field_text f) low high) (Allows low high f)
unfolding parse_cron_field
parse_cron_field-Field n low high star h p =
    let (bits, e, iff) = range_from-Sets low high 0 n low high (omega arith) in
    (
      bits,
      parse_star n low high ∙ e,
      λ i.
          let (there, back) = iff i in
          (λ b. ((there b).0, tt), λ (w, x). back (w, all_steps low high i w)),
    )
parse_cron_field-Field n low high (items is) h (p, fits) =
    rw
      (
        not_star n is p,
        snprintf_fits 128 (field_text (items is)) fits,
        tokens-joined b',' (map item_text is) (items-AreTokens n is p),
      )
      (parse_tokens-Sets n low high is h p)
