-- ===== src/EventLog/RoundTrip.antt =====
-- app/engine/event_log.c: what `EventLog_Load` reads back of what `EventLog_Persist` wrote.
use event_engine_acap.Prelude.{
  ℕ, zero, suc, ◌+◌, ◌≤◌, ◌<◌, ◌≡◌, refl, sym, ap, ap₂, ◌∙◌, inl, inr, false, ltb, lt→ltb, ltb_ℤ,
  Bool-cases, some, List, [], ◌∷◌, ◌++◌, map, length, take, take_all, arith,
}
use mathlib.Core.List.{append-nil, append_assoc, map-append}
use event_engine_acap.Cjson.{Cjson, CjsonLaws, Small}
use event_engine_acap.EventLog.Ring.{LogEntry, EventLog, entry_at, write_head, event_log_init}
use event_engine_acap.EventLog.Recent.{
  IsValid, ages, recent, recent-write_head, write_head-IsValid, take-ages, length-ages,
  event_log_init-IsValid,
}
use event_engine_acap.EventLog.Json.{entry_to_json, persist_down, persist, get_timestamp}
use event_engine_acap.EventLog.Entry.{Fits, saved, load_entry-entry_to_json}
use event_engine_acap.EventLog.Load.{
  LoadItem, load_item_before, insert_item, sort_items, load_items, load_entry, load_all,
  load_sorted, load,
}

-- Older entries are not later in time.
abbrev pub Ordered : {J : Type 0} → EventLog J → ℕ → Type 0
Ordered log n =
    (i : ℕ) → suc i < n → ltb_ℤ (entry_at log i).timestamp (entry_at log (suc i)).timestamp ≡ false

abbrev pub AllFit : {J : Type 0} → EventLog J → ℕ → Type 0
AllFit log n = (i : ℕ) → i < n → Fits (entry_at log i)

ages_snoc :
    {J : Type 0} (log : EventLog J) (i n : ℕ)
    → ages log i (suc n) ≡ ages log i n ++ (entry_at log (i + n) ∷ [])
ages_snoc log i zero = ap (λ k. entry_at log k ∷ []) (omega arith)
ages_snoc log i (suc n) =
    ap (◌∷◌ (entry_at log i)) (
      ages_snoc log (i + 1) n ∙ ap (λ k. ages log (i + 1) n ++ (entry_at log k ∷ [])) (omega arith))

module _ {J D : Type 0} (c : Cjson J D) (laws : CjsonLaws c) where
  before_next :
      (log : EventLog J) (i m : ℕ) (later : List J)
      → Small (entry_at log (suc i)).timestamp
      → Small (entry_at log i).timestamp
      → ltb_ℤ (entry_at log i).timestamp (entry_at log (suc i)).timestamp ≡ false
      → sort_items c (load_items c (m + 1) (entry_to_json c (entry_at log i) ∷ later))
        ≡ load_items c (m + 1) (entry_to_json c (entry_at log i) ∷ later)
      → sort_items c (
          load_items c m
            (entry_to_json c (entry_at log (suc i)) ∷ entry_to_json c (entry_at log i) ∷ later))
        ≡ load_items c m
            (entry_to_json c (entry_at log (suc i)) ∷ entry_to_json c (entry_at log i) ∷ later)
  unfolding sort_items load_items insert_item load_item_before
  before_next log i m later s s' o ih = rw ih (
      ground (
        arith,
        get_timestamp c laws (entry_at log i),
        get_timestamp c laws (entry_at log (suc i)),
        laws.number_created (c.of_ℤ (entry_at log i).timestamp),
        laws.number_created (c.of_ℤ (entry_at log (suc i)).timestamp),
        laws.lt_of_ℤ (entry_at log i).timestamp (entry_at log (suc i)).timestamp s' s,
        laws.lt_of_ℤ (entry_at log (suc i)).timestamp (entry_at log i).timestamp s s',
      ))

  -- What the file holds is sorted already.
  sort_items-persist_down :
      (log : EventLog J) (m n : ℕ)
      → Ordered log n
      → AllFit log n
      → sort_items c (load_items c m (persist_down c log n)) ≡ load_items c m (persist_down c log n)
  unfolding persist_down
  sort_items-persist_down log m zero o f = unfold sort_items load_items in refl
  sort_items-persist_down log m (suc zero) o f =
      unfold sort_items load_items insert_item persist_down in refl
  sort_items-persist_down log m (suc (suc n)) o f =
      before_next log n m (persist_down c log n) (f (suc n) (omega arith)).time_fits
        (f n (omega arith)).time_fits (o n (omega arith))
        (sort_items-persist_down log (m + 1) (suc n) (λ i h. o i (omega arith))
          (λ i h. f i (omega arith)))

  load_step :
      (log file : EventLog J) (m n : ℕ)
      → load_all c log (load_items c m (persist_down c file (suc n)))
        ≡ load_all c
            (write_head log (load_entry c (entry_to_json c (entry_at file n))))
            (load_items c (m + 1) (persist_down c file n))
  unfolding load_all load_items persist_down
  load_step log file m n = refl

  recent-load_all :
      (log file : EventLog J) (m n : ℕ)
      → IsValid log
      → AllFit file n
      → log.count + n ≤ 500
      → let log' = load_all c log (load_items c m (persist_down c file n)) in
        IsValid log' × (recent log' ≡ map saved (ages file 0 n) ++ recent log)
  recent-load_all log file m zero v f h = unfold load_all load_items persist_down in (v, refl)
  recent-load_all log file m (suc n) v f h = rw (load_step log file m n) (
      let (v', e) =
        recent-load_all next file (m + 1) n (write_head-IsValid log loaded v)
          (λ i p. f i (omega arith)) (ground arith) in
      (v', e ∙ ap (◌++◌ (map saved (ages file 0 n))) pushed ∙ regroup))
    where
      loaded : LogEntry J
      loaded = load_entry c (entry_to_json c (entry_at file n))

      next : EventLog J
      next = write_head log loaded

      pushed : recent next ≡ saved (entry_at file n) ∷ recent log
      pushed =
          recent-write_head log loaded v
          ∙ ap₂ ◌∷◌ (load_entry-entry_to_json c laws (entry_at file n) (f n (omega arith)))
              (take_all 499 (recent log) (omega (arith, length-ages log 0 log.count)))

      regroup :
          map saved (ages file 0 n) ++ (saved (entry_at file n) ∷ recent log)
          ≡ map saved (ages file 0 (suc n)) ++ recent log
      regroup =
          sym (append_assoc (map saved (ages file 0 n)) (saved (entry_at file n) ∷ []) (recent log))
          ∙ ap (λ l. l ++ recent log)
              (sym (
                ap (map saved) (ages_snoc file 0 n)
                ∙ map-append saved (ages file 0 n) (entry_at file (0 + n) ∷ [])
                ∙ ap (λ k. map saved (ages file 0 n) ++ (saved (entry_at file k) ∷ []))
                    (omega arith)))

  length-items : (log : EventLog J) (m n : ℕ) → length (load_items c m (persist_down c log n)) ≡ n
  unfolding load_items persist_down
  length-items log m zero = refl
  length-items log m (suc n) = ap suc (length-items log (m + 1) n)

  load_sorted_short :
      (log : EventLog J) (items : List (LoadItem J D))
      → length items ≤ 500
      → load_sorted c log items ≡ record (load_all c log items) { persist_dirty = 0 }
  unfolding load_sorted
  load_sorted_short log items h = rw (not_above) refl
    where
      not_above : ltb 500 (length items) ≡ false
      not_above = ground arith

  load_written :
      (start log : EventLog J) (n : ℕ)
      → n ≤ 200
      → Ordered log n
      → AllFit log n
      → recent (load c (event_log_init start) (some (c.create_array (persist_down c log n))))
        ≡ map saved (ages log 0 n)
  unfolding load event_log_init
  load_written start log n h o f =
      rw
        (
          laws.array_created (persist_down c log n),
          laws.children_created,
          sort_items-persist_down log 0 n o f,
          load_sorted_short (event_log_init start) (load_items c 0 (persist_down c log n))
              (omega (arith, length-items log 0 n)),
        )
        ((recent-load_all (event_log_init start) log 0 n (event_log_init-IsValid start) f
            (omega arith)).1
          ∙ append-nil (map saved (ages log 0 n)))

  -- After a restart the ring holds what it held: `EventLog_Load`, on a new ring and the file that
  -- `EventLog_Persist` wrote, gives back the 200 most recent entries in their order, without the
  -- action results and the block reason of an entry that fired. The strings fit their buffers, the
  -- times fit a double, and no entry is later than a more recent one.
  pub load-persist :
      (start log : EventLog J)
      → IsValid log
      → 0 < log.persist_dirty
      → Ordered log log.count
      → AllFit log log.count
      → recent (load c (event_log_init start) (persist c log).1) ≡ map saved (take 200 (recent log))
  unfolding persist
  load-persist start log v dirty o f = elim (Bool-cases (ltb log.count 200)) [
    | inl few ↦
        rw (lt→ltb _ _ dirty, few)
          (load_written start log log.count (ground arith) o f
            ∙ ap (map saved)
                (sym (take_all 200 (recent log) (ground (arith, length-ages log 0 log.count)))))
    | inr many ↦
        rw (lt→ltb _ _ dirty, many)
          (load_written start log 200 (omega arith) (λ i h. o i (ground arith))
              (λ i h. f i (ground arith))
            ∙ ap (map saved) (sym (take-ages log 0 200 log.count (ground arith))))
  ]
