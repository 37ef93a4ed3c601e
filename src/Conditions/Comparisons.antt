-- ===== src/Conditions/Comparisons.antt =====
-- app/engine/conditions.c: what the comparisons of an event field decide.
use Prim.Native.Nat.{Ordering}
use event_engine_acap.Prelude.{
  ◌&&◌, Option-cases, strcmp, str_eq_iff_strcmp, str_eq_iff, ◌≡◌, ◌↔◌, refl, inl, inr, Bool, true,
  false, not, Bool-cases, Option, none, some, Str, codes, str_eq,
}
use event_engine_acap.Cjson.{Cjson, is_set}
use event_engine_acap.Conditions.Occurs.{Occurs, contains-Occurs, contains_nocase-append}
use event_engine_acap.Conditions.Operators.{
  op_lt, op_eq, apart_str, IsUnknown, Consistent, op_holds-Consistent,
}
use event_engine_acap.Conditions.TriggerData.{
  Texts, contains_nocase, op_holds, actual_of, compare_numbers, compare_text, compare_actual,
  compare_some, trigger_data_compare,
}

-- `contains_nocase` finds a text exactly when a part of the other is the same but for the case
-- of letters.
pub contains_nocase_iff :
    (hay needle : Str) → (contains_nocase hay needle ≡ true) ↔ Occurs hay needle
contains_nocase_iff hay needle = (
  contains-Occurs hay needle,
  λ o. rw o.splits (contains_nocase-append o.before o.found o.after needle o.same),
)

-- Both texts are numbers: neither is empty, and `strtod` reads each as a whole.
abbrev pub are_numbers : {J D : Type 0} → Texts J D → Str → Str → Bool
are_numbers x a v = (is_set a && is_set v) && ((x.strtod a).1 && (x.strtod v).1)

module _ {J D : Type 0} (c : Cjson J D) (x : Texts J D) where
  -- The text by which a field is compared.
  pub data HasText (item : J) : Option Str → Type 0 where
    of_string : (s : Str) → c.get_string_value item ≡ some s → HasText item (some s)
    of_true :
        c.get_string_value item ≡ none → c.is_true item ≡ true → HasText item (some (codes "true"))
    of_false :
        c.get_string_value item ≡ none
        → c.is_true item ≡ false
        → c.is_false item ≡ true
        → HasText item (some (codes "false"))
    of_number :
        c.get_string_value item ≡ none
        → c.is_true item ≡ false
        → c.is_false item ≡ false
        → x.is_number item ≡ true
        → HasText item (some (x.format_g (c.valuedouble item)))
    of_other :
        c.get_string_value item ≡ none
        → c.is_true item ≡ false
        → c.is_false item ≡ false
        → x.is_number item ≡ false
        → HasText item none

  -- What the tests `t` say of the texts of a field and of the value.
  pub record Decides (t : Str → Bool) (actual value : Str) : Type 0 where
    pub ordered : Consistent t
    pub contained : (t (codes "contains") ≡ true) ↔ Occurs actual value
    pub not_contained : t (codes "not_contains") ≡ not (t (codes "contains"))
    -- Two numbers compare as numbers, two texts by their bytes.
    pub numbers :
        are_numbers x actual value ≡ true
        → let da = (x.strtod actual).0 in
          let dv = (x.strtod value).0 in
          (t (codes "lt") ≡ c.lt da dv && not (c.lt dv da))
          × (t (codes "gt") ≡ c.lt dv da && not (c.lt da dv))
    pub equal_texts :
        are_numbers x actual value ≡ false → (t (codes "eq") ≡ true) ↔ (actual ≡ value)
    pub texts :
        are_numbers x actual value ≡ false
        → (t (codes "lt") ≡ true) ↔ (strcmp actual value ≡ Ordering.lt)
    pub unknown : (op : Str) → IsUnknown op → t op ≡ false

  actual_of-HasText : (item : J) → HasText item (actual_of c x item)
  unfolding actual_of
  actual_of-HasText item = elim (Option-cases (c.get_string_value item)) [
    | inr (s, e) ↦ rw (e, actual_of) (of_string s e)
    | inl other ↦
        rw (other, actual_of)
          (elim (Bool-cases (c.is_true item)) [
            | inl so ↦ rw so (of_true other so)
            | inr untrue ↦ rw untrue (elim (Bool-cases (c.is_false item)) [
              | inl so ↦ rw so (of_false other untrue so)
              | inr unfalse ↦ rw unfalse (elim (Bool-cases (x.is_number item)) [
                | inl so ↦ rw so (of_number other untrue unfalse so)
                | inr unknown ↦ rw unknown (of_other other untrue unfalse unknown)
              ])
            ])
          ])
  ]

  compare_numbers-lem :
      (value actual : Str)
      → are_numbers x actual value ≡ true
      → compare_actual c x actual value ≡ compare_numbers c x (x.strtod actual).0 (x.strtod value).0
  unfolding compare_actual
  compare_numbers-lem value actual h = rw h refl

  compare_texts :
      (value actual : Str)
      → are_numbers x actual value ≡ false
      → compare_actual c x actual value ≡ strcmp actual value
  unfolding compare_actual
  compare_texts value actual h = rw h refl

  is_lt_numbers :
      (da dv : D)
      → (op_holds (codes "lt") (compare_numbers c x da dv) ≡ c.lt da dv && not (c.lt dv da))
        × (op_holds (codes "gt") (compare_numbers c x da dv) ≡ c.lt dv da && not (c.lt da dv))
  unfolding op_holds str_eq
  is_lt_numbers da dv = elim (Bool-cases (c.lt da dv)) [
    | inl below ↦ elim (Bool-cases (c.lt dv da)) [
      | inl above ↦ rw (below, above) (refl, refl)
      | inr rest ↦ rw (below, rest) (refl, refl)
    ]
    | inr not_below ↦ elim (Bool-cases (c.lt dv da)) [
      | inl above ↦ rw (not_below, above) (refl, refl)
      | inr rest ↦ rw (not_below, rest) (refl, refl)
    ]
  ]

  compare_text_unknown :
      (value actual op : Str) → IsUnknown op → compare_text c x op actual value ≡ false
  unfolding op_holds
  compare_text_unknown value actual op (e1, e2, e3, e4, e5, e6, e7, e8) =
      rw
        (
          apart_str op (codes "contains") e7,
          apart_str op (codes "not_contains") e8,
          apart_str op (codes "eq") e1,
          apart_str op (codes "ne") e2,
          apart_str op (codes "gt") e3,
          apart_str op (codes "gte") e4,
          apart_str op (codes "lt") e5,
          apart_str op (codes "lte") e6,
        )
        refl

  compare_some-Decides :
      (value actual : Str) → Decides (λ op. compare_some c x op value (some actual)) actual value
  unfolding str_eq
  compare_some-Decides value actual = record {
    ordered = op_holds-Consistent (compare_actual c x actual value);
    contained = contains_nocase_iff actual value;
    not_contained = refl;
    numbers = λ h.
        rw (compare_numbers-lem value actual h)
          (is_lt_numbers (x.strtod actual).0 (x.strtod value).0);
    equal_texts = λ h. rw (compare_texts value actual h) (
      λ e.
          (str_eq_iff actual value).0
            ((str_eq_iff_strcmp actual value).1 ((op_eq (strcmp actual value)).0 e)),
      λ e.
          (op_eq (strcmp actual value)).1
            ((str_eq_iff_strcmp actual value).0 ((str_eq_iff actual value).1 e)),
    );
    texts = λ h. rw (compare_texts value actual h) (op_lt (strcmp actual value));
    unknown = compare_text_unknown value actual;
  }

  -- What the tests say of a field: nothing holds of one without a text.
  abbrev pub Verdicts : (Str → Bool) → Str → Option Str → Type 0
  Verdicts t value none = (op : Str) → t op ≡ false
  Verdicts t value (some actual) = Decides t actual value

  compare_some-Verdicts :
      (value : Str) (actual : Option Str)
      → Verdicts (λ op. compare_some c x op value actual) value actual
  compare_some-Verdicts value none = λ op. refl
  compare_some-Verdicts value (some actual) = compare_some-Decides value actual

  -- A field has a text to compare by when it is a string, a Boolean or a number, and nothing holds of
  -- any other. Of a field with a text exactly one of `lt`, `eq` and `gt` holds, and `ne`, `gte`, `lte` and
  -- `not_contains` are the opposites of `eq`, `lt`, `gt` and `contains`. `contains` looks for the value
  -- without regard to case. When both texts are numbers `lt` and `gt` are those of the numbers; else
  -- `eq` holds of equal texts, and `lt` is that of `strcmp`. No other operator holds.
  pub trigger_data_compare-Verdicts :
      (item : J) (value : Str)
      → (actual : Option Str) × HasText item actual
        × Verdicts (λ op. trigger_data_compare c x item op value) value actual
  unfolding trigger_data_compare
  trigger_data_compare-Verdicts item value =
      (actual_of c x item, actual_of-HasText item, compare_some-Verdicts value (actual_of c x item))
