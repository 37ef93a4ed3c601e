-- ===== src/Mqtt/Retries.antt =====
-- app/engine/mqtt_client.c: how often a QoS 1 message is sent again, and what the table holds.
use event_engine_acap.Prelude.{
  ℕ, zero, suc, ◌+◌, ◌*◌, ◌-◌, ◌≤◌, ◌≡◌, refl, ◌∙◌, inl, inr, Bool, ◌==◌, Bool-cases, Option-cases,
  Option, none, some, List, [], ◌∷◌, ◌++◌, length, length-append, length-set, get_elem?, set, arith,
}
use event_engine_acap.Table.{index_of}
use event_engine_acap.Mqtt.Inflight.{
  mqtt_max_inflight, mqtt_max_retries, InflightMsg, Inflight, is_free, has_pid, inflight_add,
  inflight_release, inflight_ack, clear_from, inflight_clear, resend, turn_of, retransmit_from,
  inflight_retransmit,
}

-- How many slots are in use.
unfoldable pub used : List (Option InflightMsg) → ℕ
used [] = 0
used (none ∷ slots) = used slots
used (some m ∷ slots) = used slots + 1

-- How often the messages in the table may still be sent again.
pub budget : List (Option InflightMsg) → ℕ
budget [] = 0
budget (none ∷ slots) = budget slots
budget (some m ∷ slots) = budget slots + (mqtt_max_retries - m.retries)

-- The number of slots is fixed, and the counter counts those in use.
pub record IsValid (t : Inflight) : Type 0 where
  pub sized : length t.slots ≡ mqtt_max_inflight
  pub counted : t.count ≡ used t.slots

set_free :
    (m : InflightMsg) (slots : List (Option InflightMsg)) (i : ℕ)
    → index_of is_free slots ≡ some i
    → (used (set slots i (some m)) ≡ used slots + 1)
      × (budget (set slots i (some m)) ≡ budget slots + (mqtt_max_retries - m.retries))
unfolding used budget index_of
set_free m [] i e = cc
set_free m (none ∷ slots) zero e = (refl, refl)
set_free m (none ∷ slots) (suc i) e = absurd (ground arith)
set_free m (some w ∷ slots) i e = elim (Option-cases (index_of is_free slots)) [
  | inl full ↦ absurd (ground arith)
  | inr (j, at) ↦
      let later : i ≡ suc j = ground arith in rw later (ground (arith, set_free m slots j at))
]

-- Emptying a slot that is in use.
empty_used :
    (slots : List (Option InflightMsg)) (i : ℕ) (m : InflightMsg)
    → get_elem? slots i ≡ some (some m)
    → (used (set slots i none) + 1 ≡ used slots) × (budget (set slots i none) ≤ budget slots)
unfolding used budget
empty_used [] i m e = cc
empty_used (none ∷ slots) zero m e = cc
empty_used (some w ∷ slots) zero m e = (refl, omega arith)
empty_used (none ∷ slots) (suc i) m e = empty_used slots i m e
empty_used (some w ∷ slots) (suc i) m e = omega (arith, empty_used slots i m e)

index_has_pid :
    (pid : ℕ) (slots : List (Option InflightMsg)) (i : ℕ)
    → index_of (has_pid pid) slots ≡ some i
    → (m : InflightMsg) × (get_elem? slots i ≡ some (some m)) × (m.pid ≡ pid)
unfolding index_of
index_has_pid pid [] i e = cc
index_has_pid pid (none ∷ slots) i e = elim (Option-cases (index_of (has_pid pid) slots)) [
  | inl gone ↦ absurd (ground arith)
  | inr (j, at) ↦ let later : i ≡ suc j = ground arith in rw later (index_has_pid pid slots j at)
]
index_has_pid pid (some w ∷ slots) i e = elim (Bool-cases (w.pid == pid)) [
  | inl hit ↦ let first : i ≡ 0 = ground arith in rw first (w, refl, ground arith)
  | inr miss ↦ elim (Option-cases (index_of (has_pid pid) slots)) [
    | inl gone ↦ absurd (ground arith)
    | inr (j, at) ↦ let later : i ≡ suc j = ground arith in rw later (index_has_pid pid slots j at)
  ]
]

pass_lem :
    (sends : ℕ → Bool) (now i : ℕ) (slots : List (Option InflightMsg))
    → let p = retransmit_from sends now i slots in
      (length p.left ≡ length slots)
      × (used p.left + p.released ≡ used slots)
      × (budget p.left + length p.resent ≡ budget slots)
unfolding retransmit_from used budget resend turn_of
pass_lem sends now i [] = (refl, refl, refl)
pass_lem sends now i (none ∷ slots) = ground (arith, pass_lem sends now (i + 1) slots)
pass_lem sends now i (some m ∷ slots) = ground (arith, pass_lem sends now (i + 1) slots)

-- What the worker and its callers do to the table. A pass of `inflight_retransmit` has the answers of
-- `send_all`.
pub data Op : Type 0 where
  track : (ℕ → Bool) → ℕ → ℕ → List ℕ → Op
  acknowledge : ℕ → Op
  retry : (ℕ → Bool) → ℕ → Op
  drop_all : Op

unfoldable pub step : Op → Inflight → Inflight × List (List ℕ)
step (track alloc now pid packet) t = (inflight_add alloc now pid packet t, [])
step (acknowledge pid) t = (inflight_ack pid t, [])
step (retry sends now) t = inflight_retransmit sends now t
step drop_all t = ((inflight_clear t).0, [])

-- The table after the operations, and what was sent again.
unfoldable pub run : List Op → Inflight → Inflight × List (List ℕ)
run [] t = (t, [])
run (op ∷ ops) t =
    let (t', resent) = step op t in let (t'', more) = run ops t' in (t'', resent ++ more)

pub tracked : List Op → ℕ
tracked [] = 0
tracked (track alloc now pid packet ∷ ops) = tracked ops + 1
tracked (acknowledge pid ∷ ops) = tracked ops
tracked (retry sends now ∷ ops) = tracked ops
tracked (drop_all ∷ ops) = tracked ops

-- The table stays valid, and what was sent again was in the budget.
record Kept (before after : Inflight) (resent gained : ℕ) : Type 0 where
  valid : IsValid after
  paid : budget after.slots + resent ≤ budget before.slots + gained

release_used :
    (t : Inflight) (i : ℕ) (m : InflightMsg)
    → IsValid t
    → get_elem? t.slots i ≡ some (some m)
    → Kept t (inflight_release i t) 0 0 × (used (inflight_release i t).slots + 1 ≡ used t.slots)
unfolding inflight_release
release_used t i m v e =
    let (one, less) = empty_used t.slots i m e in
    (
      record {
        valid = record {
          sized = length-set t.slots i none ∙ v.sized;
          counted = ground (arith, v.counted);
        };
        paid = omega arith;
      },
      one,
    )

add-Kept :
    (alloc : ℕ → Bool) (now pid : ℕ) (packet : List ℕ) (t : Inflight)
    → IsValid t
    → Kept t (inflight_add alloc now pid packet t) 0 mqtt_max_retries
unfolding inflight_add
add-Kept alloc now pid packet t v = elim (Option-cases (index_of is_free t.slots)) [
  | inl full ↦ rw (full, inflight_add) (record { valid = v; paid = omega arith })
  | inr (i, at) ↦ elim (Bool-cases (alloc (length packet))) [
    | inl got ↦
        let m : InflightMsg = record { pid = pid; packet = packet; sent_at = now; retries = 0 } in
        let (one, more) = set_free m t.slots i at in
        rw (at, inflight_add, got)
          (record {
            valid = record {
              sized = length-set t.slots i (some m) ∙ v.sized;
              counted = omega (arith, v.counted);
            };
            paid = omega arith;
          })
    | inr out ↦ rw (at, inflight_add, out) (record { valid = v; paid = omega arith })
  ]
]

ack-Kept : (pid : ℕ) (t : Inflight) → IsValid t → Kept t (inflight_ack pid t) 0 0
unfolding inflight_ack
ack-Kept pid t v = elim (Option-cases (index_of (has_pid pid) t.slots)) [
  | inl gone ↦ rw (gone, inflight_ack) (record { valid = v; paid = omega arith })
  | inr (i, at) ↦
      let (m, there, same) = index_has_pid pid t.slots i at in
      rw (at, inflight_ack) (release_used t i m v there).0
]

retransmit-Kept :
    (sends : ℕ → Bool) (now : ℕ) (t : Inflight)
    → IsValid t
    → Kept t (inflight_retransmit sends now t).0 (length (inflight_retransmit sends now t).1) 0
unfolding inflight_retransmit
retransmit-Kept sends now t v =
    let (same, left, spent) = pass_lem sends now 0 t.slots in
    record {
      valid = record { sized = same ∙ v.sized; counted = omega (arith, v.counted) };
      paid = omega arith;
    }

pub retransmit-IsValid :
    (sends : ℕ → Bool) (now : ℕ) (t : Inflight)
    → IsValid t
    → IsValid (inflight_retransmit sends now t).0
retransmit-IsValid sends now t v = (retransmit-Kept sends now t v).valid

clear_from-Kept : (n i : ℕ) (t : Inflight) → IsValid t → Kept t (clear_from n i t).0 0 0
unfolding clear_from
clear_from-Kept zero i t v = record { valid = v; paid = omega arith }
clear_from-Kept (suc n) i t v = elim (Option-cases (get_elem? t.slots i)) [
  | inl gone ↦ rw gone (clear_from-Kept n (i + 1) t v)
  | inr (none, at) ↦ rw at (clear_from-Kept n (i + 1) t v)
  | inr (some m, at) ↦
      let (k, one) = release_used t i m v at in
      let rest = clear_from-Kept n (i + 1) (inflight_release i t) k.valid in
      rw at (record { valid = rest.valid; paid = omega (arith, k.paid, rest.paid) })
]

step-Kept :
    (op : Op) (t : Inflight)
    → IsValid t
    → Kept t (step op t).0 (length (step op t).1) (mqtt_max_retries * tracked (op ∷ []))
unfolding step tracked inflight_clear
step-Kept (track alloc now pid packet) t v = add-Kept alloc now pid packet t v
step-Kept (acknowledge pid) t v = ack-Kept pid t v
step-Kept (retry sends now) t v = retransmit-Kept sends now t v
step-Kept drop_all t v = clear_from-Kept mqtt_max_inflight 0 t v

tracked-cons : (op : Op) (ops : List Op) → tracked (op ∷ ops) ≡ tracked (op ∷ []) + tracked ops
unfolding tracked
tracked-cons (track alloc now pid packet) ops = omega arith
tracked-cons (acknowledge pid) ops = omega arith
tracked-cons (retry sends now) ops = omega arith
tracked-cons drop_all ops = omega arith

run-Kept :
    (ops : List Op) (t : Inflight)
    → IsValid t
    → Kept t (run ops t).0 (length (run ops t).1) (mqtt_max_retries * tracked ops)
unfolding run
run-Kept [] t v = record { valid = v; paid = omega arith }
run-Kept (op ∷ ops) t v =
    let first = step-Kept op t v in
    let rest = run-Kept ops (step op t).0 first.valid in
    record {
      valid = rest.valid;
      paid = omega (
        arith,
        first.paid,
        rest.paid,
        tracked-cons op ops,
        length-append (step op t).1 (run ops (step op t).0).1,
      );
    }

pub clear-IsValid : (t : Inflight) → IsValid t → IsValid (inflight_clear t).0
unfolding inflight_clear
clear-IsValid t v = (clear_from-Kept mqtt_max_inflight 0 t v).valid

-- Over any sequence of operations the table keeps its 64 slots and its counter counts those in use.
-- In all, packets are sent again at most three times for each message that the operations track, and
-- as often as the messages of the first table had retries left.
pub inflight_run-IsValid :
    (ops : List Op) (t : Inflight)
    → IsValid t
    → IsValid (run ops t).0
      × (length (run ops t).1 ≤ budget t.slots + mqtt_max_retries * tracked ops)
inflight_run-IsValid ops t v = let k = run-Kept ops t v in (k.valid, omega (arith, k.paid))
