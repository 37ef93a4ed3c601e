-- ===== src/Conditions/Occurs.antt =====
-- app/engine/conditions.c: where `contains_nocase` finds a text.
use event_engine_acap.Prelude.{
  ℕ, ◌≡◌, refl, ap, inl, inr, true, Bool-cases, [], ◌∷◌, ◌++◌, Str, strcase_eq, arith,
}
use event_engine_acap.Conditions.TriggerData.{starts_nocase, contains_nocase}

-- A part of the text that is the needle but for the case of letters.
pub record Occurs (hay needle : Str) : Type 0 where
  pub before : Str
  pub found : Str
  pub after : Str
  pub splits : hay ≡ before ++ (found ++ after)
  pub same : strcase_eq found needle ≡ true

starts-Occurs :
    (hay needle : Str)
    → starts_nocase hay needle ≡ true
    → (found : Str) × (after : Str) × (hay ≡ found ++ after) × (strcase_eq found needle ≡ true)
unfolding starts_nocase strcase_eq
starts-Occurs hay [] h = ([], hay, refl, refl)
starts-Occurs [] (n ∷ needle) h = absurd (ground arith)
starts-Occurs (b ∷ hay) (n ∷ needle) h =
    let (found, after, e, same) = starts-Occurs hay needle (ground arith) in
    (b ∷ found, after, ap (◌∷◌ b) e, ground arith)

starts_nocase-append :
    (found after needle : Str)
    → strcase_eq found needle ≡ true
    → starts_nocase (found ++ after) needle ≡ true
unfolding starts_nocase strcase_eq
starts_nocase-append [] after [] h = refl
starts_nocase-append [] after (n ∷ needle) h = absurd (ground arith)
starts_nocase-append (b ∷ found) after [] h = absurd (ground arith)
starts_nocase-append (b ∷ found) after (n ∷ needle) h =
    ground (arith, starts_nocase-append found after needle (ground arith))

-- A start is an occurrence with nothing before it.
start-Occurs : (hay needle : Str) → starts_nocase hay needle ≡ true → Occurs hay needle
start-Occurs hay needle h =
    let (found, after, e, same) = starts-Occurs hay needle h in
    record { before = []; found = found; after = after; splits = e; same = same }

pub contains-Occurs : (hay needle : Str) → contains_nocase hay needle ≡ true → Occurs hay needle
unfolding contains_nocase
contains-Occurs [] needle h = start-Occurs [] needle h
contains-Occurs (b ∷ hay) needle h = elim (Bool-cases (starts_nocase (b ∷ hay) needle)) [
  | inl s ↦ start-Occurs (b ∷ hay) needle s
  | inr s ↦
      let o = contains-Occurs hay needle (ground arith) in
      record {
        before = b ∷ o.before;
        found = o.found;
        after = o.after;
        splits = ap (◌∷◌ b) o.splits;
        same = o.same;
      }
]

contains_later :
    (b : ℕ) (hay needle : Str)
    → contains_nocase hay needle ≡ true
    → contains_nocase (b ∷ hay) needle ≡ true
unfolding contains_nocase
contains_later b hay needle h = ground arith

contains_here :
    (hay needle : Str) → starts_nocase hay needle ≡ true → contains_nocase hay needle ≡ true
unfolding contains_nocase
contains_here [] needle h = h
contains_here (b ∷ hay) needle h = rw h refl

pub contains_nocase-append :
    (before found after needle : Str)
    → strcase_eq found needle ≡ true
    → contains_nocase (before ++ (found ++ after)) needle ≡ true
contains_nocase-append [] found after needle h =
    contains_here (found ++ after) needle (starts_nocase-append found after needle h)
contains_nocase-append (b ∷ before) found after needle h =
    contains_later b (before ++ (found ++ after)) needle
      (contains_nocase-append before found after needle h)
