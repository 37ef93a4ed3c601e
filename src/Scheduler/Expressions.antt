-- ===== src/Scheduler/Expressions.antt =====
-- app/engine/scheduler.c: a cron expression, from its text to the ticks that it allows.
use event_engine_acap.Prelude.{
  ℕ, ◌<◌, ◌≡◌, ◌↔◌, refl, Bool, true, ◌&&◌, none, some, List, [], ◌∷◌, Str, snprintf_fits, length,
  arith,
}
use event_engine_acap.Scheduler.Entry.{ScheduleEntry}
use event_engine_acap.Scheduler.Tick.{Clock, cron_allows}
use event_engine_acap.Scheduler.Parse.{has_bit, parsed, parse_cron}
use event_engine_acap.Scheduler.Ranges.{InBounds}
use event_engine_acap.Scheduler.Scanned.{joined, AreTokens, tokens-joined}
use event_engine_acap.Scheduler.Masks.{
  Field, star, items, field_text, Allows, IsField, AreTokens-cons, set_items, field-lacks,
  parse_cron_field-Field,
}

-- The five fields of an expression.
pub record Expression : Type 0 where
  pub minute : Field
  pub hour : Field
  pub dom : Field
  pub month : Field
  pub dow : Field

abbrev pub expression_text : Expression → Str
expression_text x = joined b' ' (
    field_text x.minute
    ∷ field_text x.hour
    ∷ field_text x.dom
    ∷ field_text x.month
    ∷ field_text x.dow
    ∷ [])

-- A field that has items, and is well-formed.
abbrev pub IsFilled : ℕ → Field → Type 0
IsFilled n star = Unit {0}
IsFilled n (items []) = ⊥
IsFilled n (items (item ∷ is)) = IsField n (items (item ∷ is))

IsFilled-IsField : (n : ℕ) (f : Field) → IsFilled n f → IsField n f
IsFilled-IsField n star p = tt
IsFilled-IsField n (items []) p = absurd p
IsFilled-IsField n (items (item ∷ is)) p = p

field-AreTokens :
    (n : ℕ) (f : Field) (ts : List Str)
    → IsFilled n f
    → AreTokens b' ' ts
    → AreTokens b' ' (field_text f ∷ ts)
field-AreTokens n star ts p t = (refl, t)
field-AreTokens n (items []) ts p t = absurd p
field-AreTokens n (items (item ∷ is)) ts (ps, fits) t =
    AreTokens-cons b' ' (field_text (items (item ∷ is))) ts (set_items n item is ps.0)
      (field-lacks b' ' n (item ∷ is) refl refl ps) t

-- Fields that are filled, in an expression that fits the buffer of the parser.
pub record IsExpression (n : ℕ) (x : Expression) : Type 0 where
  pub minute : IsFilled n x.minute
  pub hour : IsFilled n x.hour
  pub dom : IsFilled n x.dom
  pub month : IsFilled n x.month
  pub dow : IsFilled n x.dow
  pub fits : length (expression_text x) < 128

-- The expression stands for the minute of the clock.
abbrev pub IsTime : Expression → Clock → Type 0
IsTime x t =
    (InBounds 0 59 t.minute × Allows 0 59 x.minute t.minute)
    × (InBounds 0 23 t.hour × Allows 0 23 x.hour t.hour)
    × (InBounds 1 31 t.mday × Allows 1 31 x.dom t.mday)
    × (InBounds 1 12 t.mon × Allows 1 12 x.month t.mon)
    × (InBounds 0 6 t.wday × Allows 0 6 x.dow t.wday)

and_all :
    (a b c d e : Bool)
    → ((a && (b && (c && (d && e)))) ≡ true)
      ↔ ((a ≡ true) × (b ≡ true) × (c ≡ true) × (d ≡ true) × (e ≡ true))
and_all a b c d e = (λ h. ground arith, λ h. ground arith)

-- The parser of cron expressions ends on the text of an expression, and its entry, which fired at no minute yet, is allowed at a
-- tick exactly when the expression stands for the minute of it. More rounds than 59 and than the
-- numbers where ranges end are enough.
pub parse_cron-Expression :
    (n : ℕ) (x : Expression) (e : ScheduleEntry)
    → 59 < n
    → IsExpression n x
    → (e' : ScheduleEntry) × (parse_cron n e (some (expression_text x)) ≡ parsed e')
      × (e'.cron_last_min ≡ none)
      × ((t : Clock) → (cron_allows e' t ≡ true) ↔ IsTime x t)
unfolding parse_cron
parse_cron-Expression n x e h p =
    let (minute, em, fm) =
      parse_cron_field-Field n 0 59 x.minute h (IsFilled-IsField n x.minute p.minute) in
    let (hour, eh, fh) =
      parse_cron_field-Field n 0 23 x.hour (omega arith) (IsFilled-IsField n x.hour p.hour) in
    let (dom, ed, fd) =
      parse_cron_field-Field n 1 31 x.dom (omega arith) (IsFilled-IsField n x.dom p.dom) in
    let (month, eo, fo) =
      parse_cron_field-Field n 1 12 x.month (omega arith) (IsFilled-IsField n x.month p.month) in
    let (dow, ew, fw) =
      parse_cron_field-Field n 0 6 x.dow (omega arith) (IsFilled-IsField n x.dow p.dow) in
    let fields =
      field_text x.minute
      ∷ field_text x.hour
      ∷ field_text x.dom
      ∷ field_text x.month
      ∷ field_text x.dow
      ∷ [] in
    let filled : AreTokens b' ' fields = field-AreTokens n x.minute _ p.minute (
      field-AreTokens n x.hour _ p.hour (
        field-AreTokens n x.dom _ p.dom
          (field-AreTokens n x.month _ p.month (field-AreTokens n x.dow _ p.dow tt)))) in
    rw
      (
        snprintf_fits 128 (expression_text x) p.fits,
        tokens-joined b' ' fields filled,
        em,
        eh,
        ed,
        eo,
        ew,
      )
      (
        record e {
          minute_mask = has_bit minute;
          hour_mask = has_bit hour;
          dom_mask = has_bit dom;
          month_mask = has_bit month;
          dow_mask = has_bit dow;
          cron_last_min = none;
        },
        refl,
        refl,
        λ t.
            let (split, join) =
              and_all (has_bit minute t.minute) (has_bit hour t.hour) (has_bit dom t.mday)
                (has_bit month t.mon) (has_bit dow t.wday) in
            (
              λ b.
                  let (m, h', d, o, w) = split b in
                  (
                    (fm t.minute).0 m,
                    (fh t.hour).0 h',
                    (fd t.mday).0 d,
                    (fo t.mon).0 o,
                    (fw t.wday).0 w,
                  ),
              λ (m, h', d, o, w). join (
                (fm t.minute).1 m,
                (fh t.hour).1 h',
                (fd t.mday).1 d,
                (fo t.mon).1 o,
                (fw t.wday).1 w,
              ),
            ),
      )
