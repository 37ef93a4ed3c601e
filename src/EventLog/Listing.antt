-- ===== src/EventLog/Listing.antt =====
-- app/engine/event_log.c: what the two listings of the ring return.
use event_engine_acap.Prelude.{
  ℕ, zero, suc, ◌+◌, ◌-◌, ◌≤◌, ◌<◌, ◌≡◌, refl, ap, ◌∙◌, sym, inl, inr, Bool, true, false, leb,
  Bool-cases, if◌then◌else◌, some, List, [], ◌∷◌, map, Str, str_eq, take, keep, ℤ, pos_part, is_pos,
  arith,
}
use event_engine_acap.Cjson.{Cjson}
use event_engine_acap.EventLog.Ring.{LogEntry, EventLog, entry_at}
use event_engine_acap.EventLog.Recent.{ages, recent, take-ages}
use event_engine_acap.EventLog.Json.{
  entry_to_json, clip_limit, recent_from, get_recent, for_rule_from, get_for_rule,
}

-- The first entries up to the limit; a limit of 0 or less takes all.
abbrev pub limited : {A : Type 0} → ℤ → List A → List A
limited limit xs = if is_pos limit then take (pos_part limit) xs else xs

take_nil : {A : Type 0} (n : ℕ) → take {A = A} n [] ≡ []
take_nil zero = refl
take_nil (suc n) = refl

take_zero : {A : Type 0} (n : ℕ) (xs : List A) → n ≡ 0 → take n xs ≡ []
take_zero zero xs e = refl
take_zero (suc n) xs e = absurd (omega arith)

take_cons :
    {A : Type 0} (n : ℕ) (x : A) (xs : List A) → 0 < n → take n (x ∷ xs) ≡ x ∷ take (n - 1) xs
take_cons zero x xs h = absurd (omega arith)
take_cons (suc n) x xs h = ap (λ k. x ∷ take k xs) (omega arith)

module _ {J D : Type 0} (c : Cjson J D) where
  recent_from-ages :
      (log : EventLog J) (i n : ℕ)
      → i + n ≤ log.count
      → recent_from c log i n ≡ map (entry_to_json c) (ages log i n)
  unfolding recent_from
  recent_from-ages log i zero h = refl
  recent_from-ages log i (suc n) h = ground (arith, recent_from-ages log (i + 1) n (omega arith))

  -- `EventLog_Get_Recent` returns the most recent entries, up to the limit, newest first.
  pub get_recent-limited :
      (log : EventLog J) (limit : ℤ)
      → get_recent c log limit
        ≡ c.create_array (map (entry_to_json c) (take (clip_limit log limit) (recent log)))
  unfolding get_recent
  get_recent-limited log limit = ap c.create_array (
      recent_from-ages log 0 (clip_limit log limit) clipped
      ∙ ap (map (entry_to_json c))
          (sym (take-ages log 0 (clip_limit log limit) log.count (omega (arith, clipped)))))
    where
      clipped : 0 + clip_limit log limit ≤ log.count
      clipped = ground arith

  module _ (log : EventLog J) (rule_id : Str) where
    abbrev of_rule : LogEntry J → Bool
    of_rule e = str_eq e.rule_id rule_id

    for_rule_all :
        (limit : ℤ) (found i n : ℕ)
        → is_pos limit ≡ false
        → for_rule_from c log rule_id limit found i n
          ≡ map (entry_to_json c) (keep of_rule (ages log i n))
    unfolding for_rule_from
    for_rule_all limit found i zero h = refl
    for_rule_all limit found i (suc n) h = elim (Bool-cases (of_rule (entry_at log i))) [
      | inl hit ↦
          rw (h, hit)
            (ap (◌∷◌ (entry_to_json c (entry_at log i)))
              (for_rule_all limit (found + 1) (i + 1) n h))
      | inr miss ↦ rw (h, miss) (for_rule_all limit found (i + 1) n h)
    ]

    for_rule_some :
        (limit : ℤ) (found i n : ℕ)
        → is_pos limit ≡ true
        → for_rule_from c log rule_id limit found i n
          ≡ map (entry_to_json c) (take (pos_part limit - found) (keep of_rule (ages log i n)))
    unfolding for_rule_from
    for_rule_some limit found i zero h =
        ap (map (entry_to_json c)) (sym (take_nil (pos_part limit - found)))
    for_rule_some limit found i (suc n) h = elim (Bool-cases (leb (pos_part limit) found)) [
      | inl full ↦
          rw (h, full)
            (ap (map (entry_to_json c)) (
              sym (
                take_zero (pos_part limit - found) (keep of_rule (ages log i (suc n)))
                  (ground arith))))
      | inr room ↦ elim (Bool-cases (of_rule (entry_at log i))) [
        | inl hit ↦
            rw (h, room, hit)
              (ap (◌∷◌ (entry_to_json c (entry_at log i)))
                  (for_rule_some limit (found + 1) (i + 1) n h)
                ∙ ap (map (entry_to_json c)) (
                    ap (λ k. entry_at log i ∷ take k (keep of_rule (ages log (i + 1) n)))
                      (omega arith)
                    ∙ sym (take_cons (pos_part limit - found) (entry_at log i) _ (ground arith))))
        | inr miss ↦ rw (h, room, miss) (for_rule_some limit found (i + 1) n h)
      ]
    ]

    -- `EventLog_Get_For_Rule` returns the entries of the rule, newest first, up to the limit.
    pub get_for_rule-limited :
        (limit : ℤ)
        → get_for_rule c log (some rule_id) limit
          ≡ c.create_array (map (entry_to_json c) (limited limit (keep of_rule (recent log))))
    unfolding get_for_rule
    get_for_rule-limited limit = elim (Bool-cases (is_pos limit)) [
      | inl bounded ↦ rw bounded (
          ap c.create_array (
            for_rule_some limit 0 0 log.count bounded
            ∙ ap (λ k. map (entry_to_json c) (take k (keep of_rule (recent log)))) (omega arith)))
      | inr all ↦ rw all (ap c.create_array (for_rule_all limit 0 0 log.count all))
    ]
