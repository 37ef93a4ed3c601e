-- ===== src/EventLog/Recent.antt =====
-- app/engine/event_log.c: the ring seen as the list of its entries, newest first.
use event_engine_acap.Prelude.{
  ℕ, zero, suc, ◌+◌, ◌%◌, ◌≤◌, ◌<◌, ◌≡◌, refl, sym, ap, ap₂, ◌∙◌, ◌≢◌, inl, inr, Bool, ltb, Option,
  List, [], ◌∷◌, Str, arith, length, take, take_all, get_or-set_self, get_or-set_ne, length-set,
  length-replicate, Bool-cases,
}
use event_engine_acap.EventLog.Ring.{
  LogEntry, EventLog, event_log_size, blank, slot, entry_at, event_log_init, cleanup, write_head,
  append, new_entry, clear,
}

module _ {J : Type 0} where
  pub record IsValid (log : EventLog J) : Type 0 where
    pub full_size : length log.entries ≡ event_log_size
    pub head_in : log.head < event_log_size
    pub count_in : log.count ≤ event_log_size

  -- The entries of the ages `i` to `i + n - 1`.
  abbrev pub ages : EventLog J → ℕ → ℕ → List (LogEntry J)
  ages log i zero = []
  ages log i (suc n) = entry_at log i ∷ ages log (i + 1) n

  abbrev pub recent : EventLog J → List (LogEntry J)
  recent log = ages log 0 log.count

  pub length-ages : (log : EventLog J) (i n : ℕ) → length (ages log i n) ≡ n
  length-ages log i zero = refl
  length-ages log i (suc n) = ap suc (length-ages log (i + 1) n)

  pub take-ages : (log : EventLog J) (i k n : ℕ) → k ≤ n → take k (ages log i n) ≡ ages log i k
  take-ages log i zero n h = refl
  take-ages log i (suc k) zero h = absurd (omega arith)
  take-ages log i (suc k) (suc n) h =
      ap (◌∷◌ (entry_at log i)) (take-ages log (i + 1) k n (omega arith))

  pub event_log_init-IsValid : (log : EventLog J) → IsValid (event_log_init log)
  unfolding event_log_init
  event_log_init-IsValid log = record {
    full_size = length-replicate event_log_size (blank {J = J});
    head_in = omega arith;
    count_in = omega arith;
  }

  pub write_head-IsValid :
      (log : EventLog J) (e : LogEntry J) → IsValid log → IsValid (write_head log e)
  write_head-IsValid log e v = record {
    full_size = length-set log.entries log.head e ∙ v.full_size;
    head_in = omega arith;
    count_in = ground arith;
  }

  module _ (log : EventLog J) (e : LogEntry J) (v : IsValid log) where
    entry_at-write_newest : entry_at (write_head log e) 0 ≡ e
    entry_at-write_newest =
        rw (slot_newest) (get_or-set_self log.entries log.head e blank (omega arith))
      where
        slot_newest : slot ((log.head + 1) % event_log_size) 0 ≡ log.head
        slot_newest = omega (arith, v.head_in)

    entry_at-write_older : (i : ℕ) → i < 499 → entry_at (write_head log e) (i + 1) ≡ entry_at log i
    entry_at-write_older i h =
        rw (shift) (get_or-set_ne log.entries {i = log.head} {j = slot log.head i} e blank other)
      where
        shift : slot ((log.head + 1) % event_log_size) (i + 1) ≡ slot log.head i
        shift = omega (arith, v.head_in)

        other : log.head ≢ slot log.head i
        other = omega (arith, v.head_in)

    ages-write : (i n : ℕ) → i + n ≤ 499 → ages (write_head log e) (i + 1) n ≡ ages log i n
    ages-write i zero h = refl
    ages-write i (suc n) h =
        ap₂ ◌∷◌ (entry_at-write_older i (omega arith)) (ages-write (i + 1) n (omega arith))

    ages-write_front : (n : ℕ) → n ≤ 499 → ages (write_head log e) 0 (suc n) ≡ e ∷ ages log 0 n
    ages-write_front n h = ap₂ ◌∷◌ entry_at-write_newest (ages-write 0 n (omega arith))

    -- A write puts the entry in front, and drops the oldest of a full ring.
    pub recent-write_head : recent (write_head log e) ≡ take event_log_size (e ∷ recent log)
    recent-write_head = elim (Bool-cases (ltb log.count event_log_size)) [
      | inl room ↦
          let more : (write_head log e).count ≡ suc log.count = ground arith in
          ap (ages (write_head log e) 0) more
          ∙ ages-write_front log.count (ground arith)
          ∙ ap (◌∷◌ e)
              (sym (take_all 499 (recent log) (ground (arith, length-ages log 0 log.count))))
      | inr full ↦
          let same : (write_head log e).count ≡ 500 = ground arith in
          ap (ages (write_head log e) 0) same
          ∙ ages-write_front 499 (omega arith)
          ∙ ap (◌∷◌ e) (sym (take-ages log 0 499 log.count (ground arith)))
    ]

  -- `EventLog_Append` puts the new entry in front of the entries that are seen, the oldest of a
  -- full ring is lost, and the file is due to be written.
  pub recent-append :
      (log : EventLog J) (now : ℕ) (rule_id rule_name : Option Str) (fired : Bool)
      (block_reason : Option Str) (trigger_data : Option J) (run failed : ℕ)
      → IsValid log
      → let log' = append log now rule_id rule_name fired block_reason trigger_data run failed in
        IsValid log'
        × (recent log'
            ≡ take event_log_size (
                new_entry now rule_id rule_name fired block_reason trigger_data run failed
                ∷ recent log))
        × (log'.persist_dirty ≡ log.persist_dirty + 1)
  unfolding append
  recent-append log now rule_id rule_name fired block_reason trigger_data run failed v =
      let e = new_entry now rule_id rule_name fired block_reason trigger_data run failed in
      let w = write_head-IsValid log e v in
      (
        record { full_size = w.full_size; head_in = w.head_in; count_in = w.count_in },
        recent-write_head log e v,
        refl,
      )

  -- After `EventLog_Init`, `EventLog_Cleanup` and `EventLog_Clear` the ring is valid and empty.
  pub reset_empty :
      (log : EventLog J)
      → (IsValid (event_log_init log) × (recent (event_log_init log) ≡ []))
        × (IsValid (cleanup log) × (recent (cleanup log) ≡ []))
        × (IsValid (clear log) × (recent (clear log) ≡ []))
  unfolding event_log_init cleanup clear
  reset_empty log = ((fresh, refl), (fresh', refl), (fresh'', refl))
    where
      fresh : IsValid (event_log_init log)
      fresh = event_log_init-IsValid log

      fresh' : IsValid (cleanup log)
      fresh' = record {
        full_size = fresh.full_size;
        head_in = fresh.head_in;
        count_in = fresh.count_in;
      }

      fresh'' : IsValid (clear log)
      fresh'' = record {
        full_size = fresh.full_size;
        head_in = fresh.head_in;
        count_in = fresh.count_in;
      }
