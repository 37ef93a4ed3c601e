-- ===== src/EventLog/Find.antt =====
-- app/engine/event_log.c: the loops over the ages of the ring that look for a rule's entries.
use event_engine_acap.Prelude.{
  ℕ, zero, suc, ◌+◌, ◌≤◌, ◌<◌, ◌≡◌, refl, ap, ap₂, ◌∙◌, ◌≢◌, inl, inr, true, false, some, ◌∷◌, Str,
  arith, length, keep, get_or, set, get_or-set_self, get_or-set_ne, length-set, Bool-cases, str_eq,
  update_first, ℤ, pos,
}
use event_engine_acap.EventLog.Ring.{
  LogEntry, EventLog, blank, slot, entry_at, with_error, set_error_from, set_action_error, fired_on,
  count_from, count_today,
}
use event_engine_acap.EventLog.Recent.{IsValid, ages, recent}

slot-ne : (head i j : ℕ) → head < 500 → i < j → j < 500 → slot head j ≢ slot head i
slot-ne head i j h p q = omega arith

module _ {J : Type 0} where
  -- Writing the slot of age `i` leaves the older entries.
  ages-set_older :
      (log : EventLog J) (i j n : ℕ) (e : LogEntry J)
      → log.head < 500
      → i < j
      → j + n ≤ 500
      → ages (record log { entries = set log.entries (slot log.head i) e }) j n ≡ ages log j n
  ages-set_older log i j zero e h p q = refl
  ages-set_older log i j (suc n) e h p q =
      ap₂ ◌∷◌ (get_or-set_ne log.entries e blank other)
        (ages-set_older log i (j + 1) n e h (omega arith) (omega arith))
    where
      other : slot log.head i ≢ slot log.head j
      other = omega arith

  head-set_error :
      (log : EventLog J) (rule_id msg : Str) (i n : ℕ)
      → let log' = set_error_from log rule_id msg i n in
        (log'.head ≡ log.head)
        × (log'.count ≡ log.count)
        × (length log'.entries ≡ length log.entries)
  unfolding set_error_from
  head-set_error log rule_id msg i zero = (refl, refl, refl)
  head-set_error log rule_id msg i (suc n) = ground (
    arith,
    head-set_error log rule_id msg (i + 1) n,
    length-set log.entries (slot log.head i) (with_error msg (entry_at log i)),
  )

  -- The loop from age `j` on leaves the younger entries.
  entry-set_error :
      (log : EventLog J) (rule_id msg : Str) (i j n : ℕ)
      → log.head < 500
      → i < j
      → j + n ≤ 500
      → get_or (set_error_from log rule_id msg j n).entries (slot log.head i) blank
        ≡ get_or log.entries (slot log.head i) blank
  unfolding set_error_from
  entry-set_error log rule_id msg i j zero h p q = refl
  entry-set_error log rule_id msg i j (suc n) h p q =
      elim (Bool-cases (str_eq (entry_at log j).rule_id rule_id)) [
        | inl hit ↦ rw hit (
            get_or-set_ne log.entries (with_error msg (entry_at log j)) blank
              (slot-ne log.head i j h p (omega arith)))
        | inr miss ↦
            rw miss (entry-set_error log rule_id msg i (j + 1) n h (omega arith) (omega arith))
      ]

  set_error_hit :
      (log : EventLog J) (rule_id msg : Str) (i n : ℕ)
      → str_eq (entry_at log i).rule_id rule_id ≡ true
      → set_error_from log rule_id msg i (suc n) ≡ record log {
        entries = set log.entries (slot log.head i) (with_error msg (entry_at log i));
      }
  unfolding set_error_from
  set_error_hit log rule_id msg i n hit = rw hit

  set_error_miss :
      (log : EventLog J) (rule_id msg : Str) (i n : ℕ)
      → str_eq (entry_at log i).rule_id rule_id ≡ false
      → set_error_from log rule_id msg i (suc n) ≡ set_error_from log rule_id msg (i + 1) n
  unfolding set_error_from
  set_error_miss log rule_id msg i n miss = rw miss

  ages-set_error :
      (log : EventLog J) (rule_id msg : Str) (i n : ℕ)
      → IsValid log
      → i + n ≤ 500
      → ages (set_error_from log rule_id msg i n) i n
        ≡ update_first (λ e. str_eq e.rule_id rule_id) (with_error msg) (ages log i n)
  ages-set_error log rule_id msg i zero v h = refl
  ages-set_error log rule_id msg i (suc n) v h =
      elim (Bool-cases (str_eq (entry_at log i).rule_id rule_id)) [
        | inl hit ↦
            ap (λ l. ages l i (suc n)) (set_error_hit log rule_id msg i n hit)
            ∙ rw hit (
                ap₂ ◌∷◌
                  (get_or-set_self log.entries (slot log.head i) (with_error msg (entry_at log i))
                    blank (omega (arith, v.full_size)))
                  (ages-set_older log i (i + 1) n (with_error msg (entry_at log i)) v.head_in
                    (omega arith) (omega arith)))
        | inr miss ↦
            ap (λ l. ages l i (suc n)) (set_error_miss log rule_id msg i n miss)
            ∙ rw miss (
                ap₂ ◌∷◌
                  (ap
                      (λ k.
                        get_or (set_error_from log rule_id msg (i + 1) n).entries (slot k i) blank)
                      (head-set_error log rule_id msg (i + 1) n).0
                    ∙ entry-set_error log rule_id msg i (i + 1) n v.head_in (omega arith)
                        (omega arith))
                  (ages-set_error log rule_id msg (i + 1) n v (omega arith)))
      ]

  -- `EventLog_Set_Action_Error` marks the most recent entry of the rule, and no other.
  pub recent-set_action_error :
      (log : EventLog J) (rule_id msg : Str)
      → IsValid log
      → recent (set_action_error log (some rule_id) (some msg))
        ≡ update_first (λ e. str_eq e.rule_id rule_id) (with_error msg) (recent log)
  unfolding set_action_error
  recent-set_action_error log rule_id msg v =
      ap (ages (set_error_from log rule_id msg 0 log.count) 0)
        (head-set_error log rule_id msg 0 log.count).1
      ∙ ages-set_error log rule_id msg 0 log.count v (omega (arith, v.count_in))

  count_from-length :
      (day : ℤ → ℕ × ℕ) (log : EventLog J) (today : ℕ × ℕ) (cnt i n : ℕ)
      → count_from day log today cnt i n ≡ cnt + length (keep (fired_on day today) (ages log i n))
  unfolding count_from
  count_from-length day log today cnt i zero = omega arith
  count_from-length day log today cnt i (suc n) =
      elim (Bool-cases (fired_on day today (entry_at log i))) [
        | inl hit ↦ rw hit (omega (arith, count_from-length day log today (cnt + 1) (i + 1) n))
        | inr miss ↦ rw miss (count_from-length day log today cnt (i + 1) n)
      ]

  -- `EventLog_Count_Today` is the number of entries in the ring that fired on the day of the call.
  pub count_today-length :
      (day : ℤ → ℕ × ℕ) (log : EventLog J) (now : ℕ)
      → count_today day log now ≡ length (keep (fired_on day (day (pos now))) (recent log))
  unfolding count_today
  count_today-length day log now =
      omega (arith, count_from-length day log (day (pos now)) 0 0 log.count)
