-- ===== src/Scheduler/Unregister.antt =====
-- app/engine/scheduler.c: what `Scheduler_Unregister_Rule` leaves.
use event_engine_acap.Prelude.{
  ℕ, zero, suc, ◌≤◌, ◌≡◌, refl, ap, Bool, not, ◌&&◌, Bool-cases, inl, inr, some, List, [], ◌∷◌,
  ◌++◌, Str, str_eq, length, length-append, keep, arith,
}
use event_engine_acap.Table.{swap_remove, snoc_cases, swap_remove-snoc}
use event_engine_acap.Scheduler.Entry.{
  ScheduleEntry, Scheduler, unregister_from, scheduler_unregister_rule,
}

module _ {A : Type 0} where
  keep-append : (p : A → Bool) (xs ys : List A) → keep p (xs ++ ys) ≡ keep p xs ++ keep p ys
  keep-append p [] ys = refl
  keep-append p (x ∷ xs) ys = elim (Bool-cases (p x)) [
    | inl h ↦ rw h (ap (◌∷◌ x) (keep-append p xs ys))
    | inr h ↦ rw h (keep-append p xs ys)
  ]

  -- Without its first entry an array has the rest, in some order.
  keep-swap_remove :
      (p : A → Bool) (x : A) (xs : List A)
      → length (keep p (swap_remove (x ∷ xs) 0)) ≡ length (keep p xs)
  keep-swap_remove p x xs = elim (snoc_cases xs) [
    | inl e ↦ rw (e, swap_remove-snoc [] x 0) refl
    | inr (mid, l, e) ↦
        rw (e, swap_remove-snoc (x ∷ mid) l 0, keep-append p mid (l ∷ []))
          (elim (Bool-cases (p l)) [
            | inl h ↦ ground (arith, length-append (keep p mid) (l ∷ []))
            | inr h ↦ ground (arith, length-append (keep p mid) [])
          ])
  ]

  length-swap_remove_first : (x : A) (xs : List A) → length (swap_remove (x ∷ xs) 0) ≡ length xs
  length-swap_remove_first x xs = elim (snoc_cases xs) [
    | inl e ↦ rw (e, swap_remove-snoc [] x 0) refl
    | inr (mid, l, e) ↦
        rw (e, swap_remove-snoc (x ∷ mid) l 0) (ground (arith, length-append mid (l ∷ [])))
  ]

abbrev pub of_other : Str → ScheduleEntry → Bool
of_other rule_id e = not (str_eq e.rule_id rule_id)

keep-unregister_from :
    (n : ℕ) (rule_id : Str) (p : ScheduleEntry → Bool) (es : List ScheduleEntry)
    → length es ≤ n
    → length (keep p (unregister_from n rule_id es))
      ≡ length (keep (λ e. p e && of_other rule_id e) es)
unfolding unregister_from
keep-unregister_from zero rule_id p [] h = refl
keep-unregister_from zero rule_id p (e ∷ es) h = absurd (omega arith)
keep-unregister_from (suc n) rule_id p [] h = refl
keep-unregister_from (suc n) rule_id p (e ∷ es) h = elim (Bool-cases (str_eq e.rule_id rule_id)) [
  | inl same ↦
      let left = swap_remove (e ∷ es) 0 in
      let fewer : length left ≤ n = omega (arith, length-swap_remove_first e es) in
      ground (
        arith,
        keep-unregister_from n rule_id p left fewer,
        keep-swap_remove (λ x. p x && of_other rule_id x) e es,
      )
  | inr other ↦ ground (arith, keep-unregister_from n rule_id p es (omega arith))
]

-- After `Scheduler_Unregister_Rule` the entries of the rule are gone and all others are there, each
-- as often as before: any test passes as many entries as it passed of those of other rules.
pub scheduler_unregister_rule-keep :
    (s : Scheduler) (rule_id : Str) (p : ScheduleEntry → Bool)
    → length (keep p (scheduler_unregister_rule s (some rule_id)).entries)
      ≡ length (keep (λ e. p e && of_other rule_id e) s.entries)
unfolding scheduler_unregister_rule
scheduler_unregister_rule-keep s rule_id p =
    keep-unregister_from (length s.entries) rule_id p s.entries (omega arith)
