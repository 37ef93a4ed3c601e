-- ===== src/Scheduler/Firings.antt =====
-- app/engine/scheduler.c: at which ticks an entry fires.
use event_engine_acap.Prelude.{
  ℕ, zero, suc, ◌+◌, ◌≤◌, ◌≡◌, ◌≢◌, refl, sym, ap, subst, Bool, true, false, leb, ◌==◌, Bool-cases,
  inl, inr, Option, List, [], ◌∷◌, arith,
}
use event_engine_acap.Scheduler.Entry.{ScheduleType, interval, ScheduleEntry}
use event_engine_acap.Scheduler.Tick.{Clock, tick_interval, tick_as, tick_entry}

abbrev pub clocks_if : Bool → Clock → List Clock → List Clock
clocks_if true t ts = t ∷ ts
clocks_if false t ts = ts

-- The ticks at which an entry fires, in order, each with what `compute_solar_event` finds at it.
unfoldable pub firings : ScheduleEntry → List (Option ℕ × Clock) → List Clock
firings e [] = []
firings e ((solar, t) ∷ ticks) =
    let rest = firings (tick_entry solar t e).0 ticks in clocks_if (tick_entry solar t e).1 t rest

-- Firings are `k` seconds apart; `last` is the time of the one before, and 0 if there was none.
abbrev pub Apart : ℕ → ℕ → List Clock → Type 0
Apart last k [] = Unit {0}
Apart last k (t ∷ ts) = (last + k ≤ t.now) × Apart t.now k ts

-- What a tick comes to for an entry of one kind.
as_kind :
    (k : ScheduleType) (solar : Option ℕ) (t : Clock) (e : ScheduleEntry)
    → e.kind ≡ k
    → tick_entry solar t e ≡ tick_as k solar t e
unfolding tick_entry
as_kind k solar t e is = ap (λ x. tick_as x solar t e) is

-- A property of the firings is one of what the first tick does.
pub firings_by :
    {k : ScheduleType} (P : List Clock → Type 0) (solar : Option ℕ) (t : Clock) (e : ScheduleEntry)
    (ticks : List (Option ℕ × Clock))
    → e.kind ≡ k
    → (let (e', fires) = tick_as k solar t e in P (clocks_if fires t (firings e' ticks)))
    → P (firings e ((solar, t) ∷ ticks))
unfolding firings
firings_by {k = k} P solar t e ticks is h =
    subst (λ out. P (clocks_if out.1 t (firings out.0 ticks))) (sym (as_kind k solar t e is)) h

-- An interval entry after a tick: its first tick only starts the clock.
interval_tick :
    (P : ScheduleEntry × Bool → Type 0) (t : Clock) (e : ScheduleEntry)
    → (e.last_run ≡ 0 → P (record e { last_run = t.now }, false))
    → (e.last_run ≢ 0
        → e.last_run + e.interval_seconds ≤ t.now
        → P (record e { last_run = t.now }, true))
    → (e.last_run ≢ 0 → P (e, false))
    → P (tick_interval t e)
unfolding tick_interval
interval_tick P t e first due idle = elim (Bool-cases (e.last_run == 0)) [
  | inl fresh ↦ rw fresh (first (ground arith))
  | inr old ↦ rw old (elim (Bool-cases (leb (e.last_run + e.interval_seconds) t.now)) [
    | inl now ↦ rw now (due (ground arith) (ground arith))
    | inr early ↦ rw early (idle (ground arith))
  ])
]

Apart-weaken : (a b k : ℕ) (ts : List Clock) → a ≤ b → Apart b k ts → Apart a k ts
Apart-weaken a b k [] h rest = tt
Apart-weaken a b k (t ∷ ts) h (first, rest) = (omega arith, rest)

-- When an entry starts to count: when it last ran, or at the first tick if it never did.
abbrev pub start_of : ℕ → List (Option ℕ × Clock) → ℕ
start_of zero [] = 0
start_of zero ((solar, t) ∷ ticks) = t.now
start_of (suc n) ticks = suc n

start_set : (n : ℕ) (ticks : List (Option ℕ × Clock)) → n ≢ 0 → start_of n ticks ≡ n
start_set zero ticks h = absurd (h refl)
start_set (suc n) ticks h = refl

start_of-le : (n : ℕ) (ticks : List (Option ℕ × Clock)) → n ≤ start_of n ticks
start_of-le zero ticks = omega arith
start_of-le (suc n) ticks = omega arith

-- Over any sequence of ticks, the firings of an interval entry are at least its interval apart, and the
-- first is at least an interval after the entry last ran, or after the first tick if it never ran.
pub firings-Apart :
    (ticks : List (Option ℕ × Clock)) (e : ScheduleEntry)
    → e.kind ≡ interval
    → Apart (start_of e.last_run ticks) e.interval_seconds (firings e ticks)
unfolding firings
firings-Apart [] e is = tt
firings-Apart ((solar, t) ∷ ticks) e is =
    let k = e.interval_seconds in
    let from = start_of e.last_run ((solar, t) ∷ ticks) in
    firings_by (Apart from k) solar t e ticks is (
      interval_tick (λ out. Apart from k (clocks_if out.1 t (firings out.0 ticks))) t e
        (λ fresh. rw fresh (
          Apart-weaken t.now (start_of t.now ticks) k _ (start_of-le t.now ticks)
            (firings-Apart ticks (record e { last_run = t.now }) is)))
        (λ old due. rw (start_set e.last_run ((solar, t) ∷ ticks) old) (
          due,
          Apart-weaken t.now (start_of t.now ticks) k _ (start_of-le t.now ticks)
              (firings-Apart ticks (record e { last_run = t.now }) is),
        ))
        (λ old. rw (start_set e.last_run ((solar, t) ∷ ticks) old) (
          Apart-weaken e.last_run (start_of e.last_run ticks) k _ (start_of-le e.last_run ticks)
            (firings-Apart ticks e is))))
