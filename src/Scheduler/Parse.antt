-- ===== src/Scheduler/Parse.antt =====
-- app/engine/scheduler.c: `parse_cron_field`, `parse_cron` and `days_array_to_mask`.
use event_engine_acap.Prelude.{
  ℕ, Bool, true, false, ◌==◌, if◌then◌else◌, Option, none, some, List, [], ◌∷◌, ◌++◌, Str, codes,
  str_eq, snprintf, take, ℤ, pos, is_pos,
}
use event_engine_acap.Cjson.{Cjson}
use event_engine_acap.Scheduler.Entry.{ScheduleEntry}
use event_engine_acap.Scheduler.Cron.{atoi, after_byte, tokens, with_bit, range_from}

-- The test of a bit of a mask.
abbrev pub has_bit : List ℕ → ℕ → Bool
has_bit [] i = false
has_bit (b ∷ bits) i = if b == i then true else has_bit bits i

abbrev pub step_of : Option Str → ℤ
step_of none = pos 1
step_of (some text) = atoi text

abbrev pub at_least_one : ℤ → ℤ
at_least_one step = if is_pos step then step else pos 1

-- A token of a field by what follows its dash and its slash: a range, a step, or a number.
abbrev pub token_bits : ℕ → ℕ → ℕ → Str → Option Str → Option Str → Option (List ℕ)
token_bits n low high tok (some upper) slash =
    range_from low high n (atoi tok) (atoi upper) (step_of slash)
token_bits n low high tok none (some step) =
    range_from low high n (pos low) (pos high) (at_least_one (atoi step))
token_bits n low high tok none none = some (with_bit low high (atoi tok) [])

unfoldable pub parse_token : ℕ → ℕ → ℕ → Str → Option (List ℕ)
parse_token n low high tok = token_bits n low high tok (after_byte b'-' tok) (after_byte b'/' tok)

abbrev pub join : Option (List ℕ) → Option (List ℕ) → Option (List ℕ)
join (some bits) (some more) = some (bits ++ more)
join _ _ = none

unfoldable pub parse_tokens : ℕ → ℕ → ℕ → List Str → Option (List ℕ)
parse_tokens n low high [] = some []
parse_tokens n low high (tok ∷ toks) =
    join (parse_token n low high tok) (parse_tokens n low high toks)

-- `n` bounds the rounds of each loop; `none` is a parse that has not ended by then.
unfoldable pub parse_cron_field : ℕ → Str → ℕ → ℕ → Option (List ℕ)
parse_cron_field n field low high =
    if str_eq field (codes "*")
    then range_from low high n (pos low) (pos high) (pos 1)
    else parse_tokens n low high (tokens b',' (snprintf 128 field))

-- The result 0, a parse that has not ended, and the result 1 with the entry.
pub data CronResult : Type 0 where
  rejected running : CronResult
  parsed : ScheduleEntry → CronResult

abbrev pub masks :
    ScheduleEntry
    → Option (List ℕ)
    → Option (List ℕ)
    → Option (List ℕ)
    → Option (List ℕ)
    → Option (List ℕ)
    → CronResult
masks e (some minute) (some hour) (some dom) (some month) (some dow) = parsed (record e {
  minute_mask = has_bit minute;
  hour_mask = has_bit hour;
  dom_mask = has_bit dom;
  month_mask = has_bit month;
  dow_mask = has_bit dow;
  cron_last_min = none;
})
masks e _ _ _ _ _ = running

abbrev pub parse_fields : ℕ → ScheduleEntry → List Str → CronResult
parse_fields n e (minute ∷ hour ∷ dom ∷ month ∷ dow ∷ []) =
    masks e (parse_cron_field n minute 0 59) (parse_cron_field n hour 0 23)
      (parse_cron_field n dom 1 31) (parse_cron_field n month 1 12) (parse_cron_field n dow 0 6)
parse_fields n e _ = rejected

unfoldable pub parse_cron : ℕ → ScheduleEntry → Option Str → CronResult
parse_cron n e none = rejected
parse_cron n e (some expr) = parse_fields n e (take 5 (tokens b' ' (snprintf 128 expr)))

module _ {J D : Type 0} (c : Cjson J D) where
  unfoldable pub days_bits : List J → List ℕ
  days_bits [] = []
  days_bits (x ∷ xs) = with_bit 0 6 (c.to_ℤ (c.valuedouble x)) (days_bits xs)

  abbrev all_week : List ℕ → List ℕ
  all_week [] = 0 ∷ 1 ∷ 2 ∷ 3 ∷ 4 ∷ 5 ∷ 6 ∷ []
  all_week (b ∷ bits) = b ∷ bits

  -- Without days the mask is that of the whole week.
  unfoldable pub days_array_to_mask : Option J → ℕ → Bool
  days_array_to_mask none = has_bit (all_week [])
  days_array_to_mask (some days) =
      if c.is_array days
      then has_bit (all_week (days_bits (c.children days)))
      else has_bit (all_week [])
