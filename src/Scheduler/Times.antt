-- ===== src/Scheduler/Times.antt =====
-- app/engine/scheduler.c: at which ticks cron entries and daily entries fire.
use event_engine_acap.Prelude.{
  ℕ, ◌≤◌, ◌≡◌, refl, Bool, true, false, not, ◌&&◌, ◌==◌, Bool-cases, inl, inr, Option, none, some,
  List, [], ◌∷◌, length, arith,
}
use event_engine_acap.Scheduler.Entry.{cron, daily_time, ScheduleEntry}
use event_engine_acap.Scheduler.Tick.{
  Clock, sod, minute_of_day, is_at, cron_allows, tick_cron, tick_daily, new_day, crossed,
  within_minute,
}
use event_engine_acap.Scheduler.Firings.{firings, firings_by, clocks_if}

-- A cron entry after a tick.
cron_tick :
    (P : ScheduleEntry × Bool → Type 0) (t : Clock) (e : ScheduleEntry)
    → (t.sec ≡ 0
        → is_at e.cron_last_min (minute_of_day t) ≡ false
        → cron_allows e t ≡ true
        → P (record e { cron_last_min = some (minute_of_day t) }, true))
    → P (e, false)
    → P (tick_cron t e)
unfolding tick_cron
cron_tick P t e fires idle =
    elim (Bool-cases (t.sec == 0 && not (is_at e.cron_last_min (minute_of_day t)))) [
      | inr early ↦ rw early idle
      | inl ready ↦ rw ready (elim (Bool-cases (cron_allows e t)) [
        | inl allowed ↦ rw allowed (fires (ground arith) (ground arith) allowed)
        | inr barred ↦ rw barred idle
      ])
    ]

-- Each firing is at the first second of a minute that the fields allow, and not at the minute of the
-- day of the one before, which is `last`.
abbrev CronTimes : ScheduleEntry → Option ℕ → List Clock → Type 0
CronTimes e last [] = Unit {0}
CronTimes e last (t ∷ ts) =
    (t.sec ≡ 0)
    × (cron_allows e t ≡ true)
    × (is_at last (minute_of_day t) ≡ false)
    × CronTimes e (some (minute_of_day t)) ts

firings-CronTimes :
    (ticks : List (Option ℕ × Clock)) (e : ScheduleEntry)
    → e.kind ≡ cron
    → CronTimes e e.cron_last_min (firings e ticks)
unfolding firings
firings-CronTimes [] e is = tt
firings-CronTimes ((solar, t) ∷ ticks) e is =
    firings_by (CronTimes e e.cron_last_min) solar t e ticks is (
      cron_tick (λ out. CronTimes e e.cron_last_min (clocks_if out.1 t (firings out.0 ticks))) t e
        (λ start other allowed. (
          start,
          allowed,
          other,
          firings-CronTimes ticks (record e { cron_last_min = some (minute_of_day t) }) is,
        ))
        (firings-CronTimes ticks e is))

single_time :
    (e : ScheduleEntry) (m : ℕ) (last : Option ℕ) (ts : List Clock)
    → ((t : Clock) → cron_allows e t ≡ true → minute_of_day t ≡ m)
    → CronTimes e last ts
    → length ts ≤ 1
single_time e m last [] one times = omega arith
single_time e m last (t ∷ []) one times = omega arith
single_time e m last (t ∷ t' ∷ ts) one (start, allowed, other, (start', allowed', other', rest)) =
    absurd (ground (arith, one t allowed, one t' allowed'))

-- A cron entry whose fields allow one minute of the day, such as 30 7 * * *, fires at most once over any
-- sequence of ticks, however many days they span: a defect, as it is to fire once per matching minute.
pub firings_single_minute :
    (ticks : List (Option ℕ × Clock)) (e : ScheduleEntry) (m : ℕ)
    → e.kind ≡ cron
    → ((t : Clock) → cron_allows e t ≡ true → minute_of_day t ≡ m)
    → length (firings e ticks) ≤ 1
firings_single_minute ticks e m is one =
    single_time e m e.cron_last_min (firings e ticks) one (firings-CronTimes ticks e is)

-- A daily entry after a tick.
daily_tick :
    (P : ScheduleEntry × Bool → Type 0) (t : Clock) (e : ScheduleEntry)
    → ((new_day t e).fired_today ≡ false
        → within_minute e.seconds_of_day (sod t) ≡ true
        → e.days_mask t.wday ≡ true
        → P (record (new_day t e) { fired_today = true }, true))
    → P (new_day t e, false)
    → P (tick_daily t e)
unfolding tick_daily
daily_tick P t e fires idle =
    elim (Bool-cases (
      not (new_day t e).fired_today
      && (within_minute e.seconds_of_day (sod t) && e.days_mask t.wday))) [
        | inr early ↦ rw early idle
        | inl ready ↦ rw ready (fires (ground arith) (ground arith) (ground arith))
      ]

-- The time of day does not go back from `before` on.
abbrev pub Forward : ℕ → List (Option ℕ × Clock) → Type 0
Forward before [] = Unit {0}
Forward before ((solar, t) ∷ ticks) = (before ≤ sod t) × Forward (sod t) ticks

abbrev pub last_sod : Option ℕ → ℕ
last_sod none = 0
last_sod (some n) = n

-- A firing in the minute of the entry on a day of the entry, and no other.
abbrev pub OnceOnTime : ScheduleEntry → List Clock → Type 0
OnceOnTime e [] = Unit {0}
OnceOnTime e (t ∷ ts) =
    (within_minute e.seconds_of_day (sod t) ≡ true) × (e.days_mask t.wday ≡ true) × (ts ≡ [])

not_crossed : (before : Option ℕ) (now : ℕ) → last_sod before ≤ now → crossed before now ≡ false
not_crossed none now h = refl
not_crossed (some n) now h = ground arith

-- An entry that fired rests while the time of day goes on.
daily_rests :
    (ticks : List (Option ℕ × Clock)) (e : ScheduleEntry)
    → e.kind ≡ daily_time
    → e.fired_today ≡ true
    → Forward (last_sod e.prev_sod) ticks
    → firings e ticks ≡ []
unfolding firings
daily_rests [] e is done on = refl
daily_rests ((solar, t) ∷ ticks) e is done (later, on) =
    let stays : (new_day t e).fired_today ≡ true = rw (not_crossed e.prev_sod (sod t) later) done in
    firings_by (λ ts. ts ≡ []) solar t e ticks is
      (daily_tick (λ out. clocks_if out.1 t (firings out.0 ticks) ≡ []) t e
        (λ fresh due day. absurd (cc)) (daily_rests ticks (new_day t e) is stays on))

-- While the time of day does not go back, a daily entry fires at most once, within a minute of its
-- time and on one of its days.
pub firings-OnceOnTime :
    (ticks : List (Option ℕ × Clock)) (e : ScheduleEntry)
    → e.kind ≡ daily_time
    → Forward (last_sod e.prev_sod) ticks
    → OnceOnTime e (firings e ticks)
unfolding firings
firings-OnceOnTime [] e is on = tt
firings-OnceOnTime ((solar, t) ∷ ticks) e is (later, on) =
    firings_by (OnceOnTime e) solar t e ticks is (
      daily_tick (λ out. OnceOnTime e (clocks_if out.1 t (firings out.0 ticks))) t e
        (λ fresh due day.
          (due, day, daily_rests ticks (record (new_day t e) { fired_today = true }) is refl on))
        (firings-OnceOnTime ticks (new_day t e) is on))
