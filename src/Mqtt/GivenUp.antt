-- ===== src/Mqtt/GivenUp.antt =====
-- app/engine/mqtt_client.c: a QoS 1 message that is never acknowledged is given up, and what an
-- acknowledgment and a lost connection remove.
use event_engine_acap.Prelude.{
  ℕ, zero, suc, ◌+◌, ◌-◌, ◌≤◌, ◌<◌, ◌≡◌, ◌≢◌, refl, sym, ap, subst, ◌∙◌, inl, inr, true, ◌==◌,
  if◌then◌else◌, Bool-cases, Option-cases, Option, none, some, List, [], ◌∷◌, length, get_elem?,
  get_or, get_or-set_self, get_or-set_ne, set, arith,
}
use event_engine_acap.Table.{index_of}
use event_engine_acap.Mqtt.Inflight.{
  mqtt_max_inflight, mqtt_max_retries, mqtt_ack_timeout_sec, InflightMsg, Inflight, has_pid,
  inflight_ack, inflight_release, clear_from, inflight_clear, resend, turn_of, retransmit_from,
  inflight_retransmit,
}
use event_engine_acap.Mqtt.Retries.{used, IsValid, retransmit-IsValid, clear-IsValid}

-- Every message was last sent before `now` by the timeout, and has at most `k` retries left.
abbrev pub Overdue : ℕ → ℕ → List (Option InflightMsg) → Type 0
Overdue k now [] = Unit {0}
Overdue k now (none ∷ slots) = Overdue k now slots
Overdue k now (some m ∷ slots) =
    (m.sent_at + mqtt_ack_timeout_sec ≤ now)
    × (mqtt_max_retries ≤ m.retries + k)
    × Overdue k now slots

-- Passes of `inflight_retransmit` at these times, while `send_all` succeeds.
pub passes : List ℕ → Inflight → Inflight
passes [] t = t
passes (now ∷ times) t = passes times (inflight_retransmit (λ i. true) now t).0

-- Each time is later than the one before by the timeout.
abbrev pub Spaced : ℕ → List ℕ → Type 0
Spaced now [] = Unit {0}
Spaced now (next ∷ times) = (now + mqtt_ack_timeout_sec ≤ next) × Spaced next times

Overdue-pass :
    (k now next i : ℕ) (slots : List (Option InflightMsg))
    → now + mqtt_ack_timeout_sec ≤ next
    → Overdue (suc k) now slots
    → Overdue k next (retransmit_from (λ i. true) now i slots).left
unfolding retransmit_from turn_of resend
Overdue-pass k now next i [] later o = tt
Overdue-pass k now next i (none ∷ slots) later o = Overdue-pass k now next (i + 1) slots later o
Overdue-pass k now next i (some m ∷ slots) later o =
    ground (arith, Overdue-pass k now next (i + 1) slots later o.2)

Overdue-end :
    (now i : ℕ) (slots : List (Option InflightMsg))
    → Overdue 0 now slots
    → used (retransmit_from (λ i. true) now i slots).left ≡ 0
unfolding retransmit_from turn_of resend used
Overdue-end now i [] o = refl
Overdue-end now i (none ∷ slots) o = Overdue-end now (i + 1) slots o
Overdue-end now i (some m ∷ slots) o = ground (arith, Overdue-end now (i + 1) slots o.2)

-- Messages that have at most `k` retries left, all due and never acknowledged, are gone after `k + 1`
-- passes of `inflight_retransmit` that are at least the timeout apart and whose sends succeed: no slot
-- is in use, and the counter is 0.
pub passes_give_up :
    (times : List ℕ) (now : ℕ) (t : Inflight)
    → IsValid t
    → Spaced now times
    → Overdue (length times) now t.slots
    → (used (passes (now ∷ times) t).slots ≡ 0) × ((passes (now ∷ times) t).count ≡ 0)
unfolding passes inflight_retransmit
passes_give_up [] now t v spaced o =
    let empty = Overdue-end now 0 t.slots o in
    (empty, (retransmit-IsValid (λ i. true) now t v).counted ∙ empty)
passes_give_up (next ∷ times) now t v spaced o =
    passes_give_up times next (inflight_retransmit (λ i. true) now t).0
      (retransmit-IsValid (λ i. true) now t v) spaced.1
      (Overdue-pass (length times) now next 0 t.slots spaced.0 o)

-- How many messages wait under the identifier.
unfoldable pub waiting : ℕ → List (Option InflightMsg) → ℕ
waiting pid [] = 0
waiting pid (o ∷ slots) = if has_pid pid o then waiting pid slots + 1 else waiting pid slots

waiting_release :
    (pid other : ℕ) (slots : List (Option InflightMsg)) (i : ℕ)
    → index_of (has_pid pid) slots ≡ some i
    → waiting other slots ≡ waiting other (set slots i none) + (if pid == other then 1 else 0)
unfolding waiting index_of
waiting_release pid other [] i e = cc
waiting_release pid other (none ∷ slots) i e = elim (Option-cases (index_of (has_pid pid) slots)) [
  | inl gone ↦ absurd (ground arith)
  | inr (j, at) ↦
      let later : i ≡ suc j = ground arith in rw later (waiting_release pid other slots j at)
]
waiting_release pid other (some w ∷ slots) i e = elim (Bool-cases (w.pid == pid)) [
  | inl hit ↦ let first : i ≡ 0 = ground arith in rw first (ground arith)
  | inr miss ↦ elim (Option-cases (index_of (has_pid pid) slots)) [
    | inl gone ↦ absurd (ground arith)
    | inr (j, at) ↦
        let later : i ≡ suc j = ground arith in
        rw later (ground (arith, waiting_release pid other slots j at))
  ]
]

waiting-none :
    (pid : ℕ) (slots : List (Option InflightMsg))
    → index_of (has_pid pid) slots ≡ none
    → waiting pid slots ≡ 0
unfolding waiting index_of
waiting-none pid [] e = refl
waiting-none pid (o ∷ slots) e = ground (arith, waiting-none pid slots)

-- A PUBACK takes one message with its identifier out of the table, if one waits, and no other.
pub inflight_ack-waiting :
    (pid other : ℕ) (t : Inflight)
    → waiting other (inflight_ack pid t).slots
      ≡ waiting other t.slots - (if pid == other then 1 else 0)
unfolding inflight_ack inflight_release
inflight_ack-waiting pid other t = elim (Option-cases (index_of (has_pid pid) t.slots)) [
  | inl gone ↦
      rw (gone, inflight_ack)
        (ground (
          arith,
          waiting-none pid t.slots gone,
          λ (e : pid ≡ other). ap (λ p. waiting p t.slots) e,
        ))
  | inr (i, at) ↦ rw (at, inflight_ack) (omega (arith, waiting_release pid other t.slots i at))
]

-- No slot below the position is in use.
abbrev EmptyBelow : ℕ → List (Option InflightMsg) → Type 0
EmptyBelow k slots = (j : ℕ) → j < k → get_or slots j none ≡ none

used_empty : (slots : List (Option InflightMsg)) → EmptyBelow (length slots) slots → used slots ≡ 0
unfolding used
used_empty [] h = refl
used_empty (none ∷ slots) h = used_empty slots (λ j lt. h (suc j) (omega arith))
used_empty (some m ∷ slots) h = absurd (ground (arith, h 0))

get_or-none :
    (slots : List (Option InflightMsg)) (i : ℕ)
    → ((m : InflightMsg) → get_elem? slots i ≢ some (some m))
    → get_or slots i none ≡ none
get_or-none [] i h = refl
get_or-none (none ∷ slots) zero h = refl
get_or-none (some m ∷ slots) zero h = absurd (h m refl)
get_or-none (o ∷ slots) (suc i) h = get_or-none slots i h

get_elem?-lt :
    (slots : List (Option InflightMsg)) (i : ℕ) (o : Option InflightMsg)
    → get_elem? slots i ≡ some o
    → i < length slots
get_elem?-lt [] i o e = cc
get_elem?-lt (x ∷ slots) zero o e = omega arith
get_elem?-lt (x ∷ slots) (suc i) o e = omega (arith, get_elem?-lt slots i o e)

EmptyBelow-more :
    (i : ℕ) (slots : List (Option InflightMsg))
    → EmptyBelow i slots
    → get_or slots i none ≡ none
    → EmptyBelow (i + 1) slots
EmptyBelow-more i slots h e j lt = elim (Bool-cases (i == j)) [
  | inl here ↦ let same : i ≡ j = ground arith in subst (λ k. get_or slots k none ≡ none) same e
  | inr below ↦ h j (ground arith)
]

EmptyBelow-set :
    (i : ℕ) (slots : List (Option InflightMsg))
    → EmptyBelow i slots
    → EmptyBelow i (set slots i none)
EmptyBelow-set i slots h j lt =
    let apart : i ≢ j = ground arith in get_or-set_ne slots none none apart ∙ h j lt

clear_from-EmptyBelow :
    (n i : ℕ) (t : Inflight) → EmptyBelow i t.slots → EmptyBelow (n + i) (clear_from n i t).0.slots
unfolding clear_from inflight_release
clear_from-EmptyBelow zero i t h = λ j lt. h j (omega arith)
clear_from-EmptyBelow (suc n) i t h =
    let count : suc n + i ≡ n + (i + 1) = omega arith in
    rw count (elim (Option-cases (get_elem? t.slots i)) [
      | inl gone ↦ rw gone (
          clear_from-EmptyBelow n (i + 1) t
            (EmptyBelow-more i t.slots h (get_or-none t.slots i (λ m e. cc))))
      | inr (none, at) ↦ rw at (
          clear_from-EmptyBelow n (i + 1) t
            (EmptyBelow-more i t.slots h (get_or-none t.slots i (λ m e. cc))))
      | inr (some m, at) ↦ rw at (
          clear_from-EmptyBelow n (i + 1) (inflight_release i t) (
            EmptyBelow-more i (set t.slots i none) (EmptyBelow-set i t.slots h)
              (get_or-set_self t.slots i none none (get_elem?-lt t.slots i (some m) at))))
    ])

-- When the connection is lost or the client shuts down no message waits any longer.
pub inflight_clear_empty :
    (t : Inflight)
    → IsValid t
    → (used (inflight_clear t).0.slots ≡ 0) × ((inflight_clear t).0.count ≡ 0)
unfolding inflight_clear
inflight_clear_empty t v =
    let v' = clear-IsValid t v in
    let below = clear_from-EmptyBelow mqtt_max_inflight 0 t (λ j lt. absurd (omega arith)) in
    let empty =
      used_empty (inflight_clear t).0.slots
        (subst (λ n. EmptyBelow n (inflight_clear t).0.slots) (sym v'.sized) below) in
    (empty, v'.counted ∙ empty)
