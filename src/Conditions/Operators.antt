-- ===== src/Conditions/Operators.antt =====
-- app/engine/conditions.c: the operators of a comparison.
use Prim.Native.Nat.{Ordering}
use event_engine_acap.Prelude.{
  ◌≡◌, ◌≢◌, ◌↔◌, ◌⊎◌, refl, inl, inr, Bool, true, false, not, Bool-cases, Str, codes, str_eq,
  str_eq_iff,
}
use event_engine_acap.Conditions.TriggerData.{op_holds}

-- Exactly one of three.
abbrev pub OneOf : Bool → Bool → Bool → Type 0
OneOf a b c =
    (a ≡ true) × (b ≡ false) × (c ≡ false)
    ⊎ ((a ≡ false) × (b ≡ true) × (c ≡ false) ⊎ (a ≡ false) × (b ≡ false) × (c ≡ true))

pub op_lt : (o : Ordering) → (op_holds (codes "lt") o ≡ true) ↔ (o ≡ Ordering.lt)
unfolding op_holds str_eq
op_lt Ordering.lt = (λ e. refl, λ e. refl)
op_lt Ordering.eq = (λ e. cc, λ e. cc)
op_lt Ordering.gt = (λ e. cc, λ e. cc)

pub op_eq : (o : Ordering) → (op_holds (codes "eq") o ≡ true) ↔ (o ≡ Ordering.eq)
unfolding op_holds str_eq
op_eq Ordering.lt = (λ e. cc, λ e. cc)
op_eq Ordering.eq = (λ e. refl, λ e. refl)
op_eq Ordering.gt = (λ e. cc, λ e. cc)

pub apart_str : (op k : Str) → op ≢ k → str_eq op k ≡ false
apart_str op k apart = elim (Bool-cases (str_eq op k)) [
  | inl same ↦ absurd (apart ((str_eq_iff op k).0 same))
  | inr other ↦ other
]

-- None of the eight operators.
abbrev pub IsUnknown : Str → Type 0
IsUnknown op =
    (op ≢ codes "eq")
    × (op ≢ codes "ne")
    × (op ≢ codes "gt")
    × (op ≢ codes "gte")
    × (op ≢ codes "lt")
    × (op ≢ codes "lte")
    × (op ≢ codes "contains")
    × (op ≢ codes "not_contains")

-- Six tests that agree with one order.
abbrev pub Consistent : (Str → Bool) → Type 0
Consistent t =
    (t (codes "ne") ≡ not (t (codes "eq")))
    × (t (codes "gte") ≡ not (t (codes "lt")))
    × (t (codes "lte") ≡ not (t (codes "gt")))
    × OneOf (t (codes "lt")) (t (codes "eq")) (t (codes "gt"))

pub op_holds-Consistent : (cmp : Ordering) → Consistent (λ op. op_holds op cmp)
unfolding op_holds str_eq
op_holds-Consistent Ordering.lt = (refl, refl, refl, inl (refl, refl, refl))
op_holds-Consistent Ordering.eq = (refl, refl, refl, inr (inl (refl, refl, refl)))
op_holds-Consistent Ordering.gt = (refl, refl, refl, inr (inr (refl, refl, refl)))
