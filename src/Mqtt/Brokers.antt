-- ===== src/Mqtt/Brokers.antt =====
-- app/engine/mqtt_client.c: the waits are bounded, and every broker has its turn.
use event_engine_acap.Prelude.{
  ℕ, zero, suc, ◌+◌, ◌%◌, ◌≤◌, ◌<◌, ◌≡◌, refl, sym, subst, ap, ◌∙◌, ◌⊎◌, inl, inr, true, false, leb,
  ◌==◌, Bool-cases, Option, none, some, List, [], ◌∷◌, length, arith,
}
use native.Mathlib.Nat.{mod-add-mod}
use event_engine_acap.Mqtt.Worker.{
  reconnect_delay_max, Worker, Round, idle, no_host, tcp_failed, tls_failed, handshake_failed,
  session_ended, next_server, longer_delay, pick_server, after_failure, after_session, worker_round,
  worker_start,
}

-- The delays that the doubling goes through.
data IsDelay (d : ℕ) : Type 0 where
  doubled :
      (d ≡ 2) ⊎ ((d ≡ 4) ⊎ ((d ≡ 8) ⊎ ((d ≡ 16) ⊎ ((d ≡ 32) ⊎ ((d ≡ 64) ⊎ (d ≡ 60)))))) → IsDelay d

abbrev pub Within : ℕ → Option ℕ → Type 0
Within n none = Unit {0}
Within n (some d) = d ≤ n

longer_delay-IsDelay : (d : ℕ) → IsDelay d → IsDelay (longer_delay d)
unfolding longer_delay
longer_delay-IsDelay d (doubled h) = doubled (ground arith)

IsDelay-le : (d : ℕ) → IsDelay d → d ≤ 64
IsDelay-le d (doubled h) = ground arith

-- The worker after rounds with their numbers of brokers, and the waits.
pub rounds : List (ℕ × Round) → Worker → Worker × List (Option ℕ)
rounds [] w = (w, [])
rounds ((count, r) ∷ rs) w =
    let (w', wait) = worker_round count r w in
    let (w'', waits) = rounds rs w' in (w'', wait ∷ waits)

abbrev pub AllWithin : ℕ → List (Option ℕ) → Type 0
AllWithin n [] = Unit {0}
AllWithin n (d ∷ ds) = Within n d × AllWithin n ds

failure-IsDelay :
    (count : ℕ) (w : Worker)
    → IsDelay w.reconnect_delay
    → IsDelay (after_failure count w).0.reconnect_delay × Within 64 (after_failure count w).1
unfolding after_failure next_server
failure-IsDelay count w h =
    let more = longer_delay-IsDelay w.reconnect_delay h in
    let small = IsDelay-le w.reconnect_delay h in
    elim (Bool-cases (leb count 1)) [
      | inl one ↦ rw one (more, small)
      | inr several ↦ elim (Bool-cases ((w.server_index + 1) % count == 0)) [
        | inl back ↦ rw (several, back) (more, small)
        | inr on ↦ rw (several, on) (h, omega arith)
      ]
    ]

pick-delay : (count : ℕ) (w : Worker) → (pick_server count w).reconnect_delay ≡ w.reconnect_delay
unfolding pick_server
pick-delay count w = ground arith

next-delay : (count : ℕ) (w : Worker) → (next_server count w).0.reconnect_delay ≡ w.reconnect_delay
unfolding next_server
next-delay count w = ground arith

round-IsDelay :
    (count : ℕ) (r : Round) (w : Worker)
    → IsDelay w.reconnect_delay
    → IsDelay (worker_round count r w).0.reconnect_delay × Within 64 (worker_round count r w).1
unfolding worker_round after_session
round-IsDelay count idle w h = (h, omega arith)
round-IsDelay count no_host w h = (
  subst IsDelay (sym (next-delay count (pick_server count w) ∙ pick-delay count w)) h,
  omega arith,
)
round-IsDelay count tcp_failed w h =
    failure-IsDelay count (pick_server count w) (subst IsDelay (sym (pick-delay count w)) h)
round-IsDelay count tls_failed w h =
    failure-IsDelay count (pick_server count w) (subst IsDelay (sym (pick-delay count w)) h)
round-IsDelay count handshake_failed w h =
    let kept = subst IsDelay (sym (pick-delay count w)) h in
    (longer_delay-IsDelay _ kept, IsDelay-le _ kept)
round-IsDelay count (session_ended true) w h = (doubled (inl refl), tt)
round-IsDelay count (session_ended false) w h =
    (longer_delay-IsDelay 2 (doubled (inl refl)), omega arith)

rounds-Within :
    (rs : List (ℕ × Round)) (w : Worker) → IsDelay w.reconnect_delay → AllWithin 64 (rounds rs w).1
unfolding rounds
rounds-Within [] w h = tt
rounds-Within ((count, r) ∷ rs) w h =
    let (kept, small) = round-IsDelay count r w h in
    (small, rounds-Within rs (worker_round count r w).0 kept)

-- A round that does not come to a session with the broker that it tries.
pub data Fails : Round → Type 0 where
  tcp : Fails tcp_failed
  tls : Fails tls_failed
  handshake : Fails handshake_failed

abbrev pub AllFail : List Round → Type 0
AllFail [] = Unit {0}
AllFail (r ∷ rs) = Fails r × AllFail rs

-- The same number of brokers in every round.
abbrev pub with_count : ℕ → List Round → List (ℕ × Round)
with_count count [] = []
with_count count (r ∷ rs) = (count, r) ∷ with_count count rs

Fails-alone :
    (r : Round) (d : ℕ)
    → Fails r
    → worker_round 1 r (record { server_index = 0; reconnect_delay = d })
      ≡ (record { server_index = 0; reconnect_delay = longer_delay d }, some d)
unfolding worker_round pick_server after_failure next_server
Fails-alone r d tcp = refl
Fails-alone r d tls = refl
Fails-alone r d handshake = refl

-- The waits of so many failures, the first after this delay.
abbrev delays : ℕ → ℕ → List (Option ℕ)
delays zero d = []
delays (suc n) d = some d ∷ delays n (longer_delay d)

rounds_alone :
    (rs : List Round) (d : ℕ)
    → AllFail rs
    → (rounds (with_count 1 rs) (record { server_index = 0; reconnect_delay = d })).1
      ≡ delays (length rs) d
unfolding rounds
rounds_alone [] d f = refl
rounds_alone (r ∷ rs) d f =
    rw (Fails-alone r d f.0) (ap (◌∷◌ (some d)) (rounds_alone rs (longer_delay d) f.1))

-- No wait of the worker is above 64 seconds, whatever happens in its rounds. With one broker that
-- cannot be reached the waits double from 2 seconds on, and the sixth is 64 seconds, beyond
-- `RECONNECT_DELAY_MAX`.
pub rounds_bounded :
    ((rs : List (ℕ × Round)) → AllWithin 64 (rounds rs worker_start).1)
    × ((rs : List Round)
        → length rs ≡ 6
        → AllFail rs
        → (rounds (with_count 1 rs) worker_start).1
          ≡ some 2 ∷ some 4 ∷ some 8 ∷ some 16 ∷ some 32 ∷ some 64 ∷ [])
    × (reconnect_delay_max < 64)
unfolding worker_start longer_delay
rounds_bounded = (
  λ rs. rounds-Within rs worker_start (doubled (inl refl)),
  λ rs six f. rounds_alone rs 2 f ∙ ap (λ n. delays n 2) six,
  omega arith,
)

pick-inside : (count : ℕ) (w : Worker) → w.server_index < count → pick_server count w ≡ w
unfolding pick_server
pick-inside count w inside = ground arith

failure-index :
    (count : ℕ) (w : Worker)
    → w.server_index < count
    → (after_failure count w).0.server_index ≡ (w.server_index + 1) % count
unfolding after_failure next_server
failure-index count w inside = elim (Bool-cases (leb count 1)) [
  | inl one ↦
      let single : count ≡ 1 = ground arith in
      let first : w.server_index ≡ 0 = ground arith in rw one (rw (single, first) refl)
  | inr several ↦ elim (Bool-cases ((w.server_index + 1) % count == 0)) [
    | inl back ↦ rw (several, back) refl
    | inr on ↦ rw (several, on) refl
  ]
]

round-index :
    (count : ℕ) (r : Round) (w : Worker)
    → w.server_index < count
    → Fails r
    → (worker_round count r w).0.server_index ≡ (w.server_index + 1) % count
unfolding worker_round
round-index count _ w inside tcp = rw (pick-inside count w inside) (failure-index count w inside)
round-index count _ w inside tls = rw (pick-inside count w inside) (failure-index count w inside)
round-index count _ w inside handshake = rw (pick-inside count w inside) refl

-- While connecting fails the brokers have their turn one after the other from the current one on, the
-- first following the last.
pub rounds-index :
    (rs : List Round) (count : ℕ) (w : Worker)
    → w.server_index < count
    → AllFail rs
    → (rounds (with_count count rs) w).0.server_index ≡ (w.server_index + length rs) % count
unfolding rounds
rounds-index [] count w inside f = grind arith
rounds-index (r ∷ rs) count w inside f =
    let step = round-index count r w inside f.0 in
    let below : (w.server_index + 1) % count < count = grind arith in
    rounds-index rs count (worker_round count r w).0 (subst (λ n. n < count) (sym step) below) f.1
    ∙ ap (λ n. (n + length rs) % count) step
    ∙ mod-add-mod (w.server_index + 1) count (length rs)
    ∙ ap (λ n. n % count) (omega arith)
