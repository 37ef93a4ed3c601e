-- ===== src/Sparkplug/Payload.antt =====
-- app/engine/sparkplug_pb.c: `SPB_Decode`.
use event_engine_acap.Prelude.{
  ℕ, zero, suc, ◌+◌, ◌/◌, ◌%◌, ◌^◌, ltb, ◌==◌, ◌&&◌, if◌then◌else◌, Option, none, some, List, [],
  ◌∷◌, length,
}
use event_engine_acap.Sparkplug.Buffer.{◌>>=◌, wt_len}
use event_engine_acap.Sparkplug.Wire.{pb_read_varint, read_len, pb_skip}
use event_engine_acap.Sparkplug.Metric.{Numbers}
use event_engine_acap.Sparkplug.Decode.{Call, call_of, decode_metric}

abbrev pub passed_over : Option (List ℕ) → Option (Option Call × List ℕ)
passed_over none = none
passed_over (some bs) = some (none, bs)

module _ {D : Type 0} (d : Numbers D) where
  -- What one round of the loop of `SPB_Decode` reads: a metric, or a field that is passed over.
  abbrev pub metric_after : Option (List ℕ × List ℕ) → Option (Option Call × List ℕ)
  metric_after none = none
  metric_after (some (payload, bs)) = decode_metric d payload >>= λ dm. some (some (call_of dm), bs)

  abbrev pub payload_after : Option (ℕ × List ℕ) → Option (Option Call × List ℕ)
  payload_after none = none
  payload_after (some (key, bs)) =
      if key / 8 % 2 ^ 32 == 2 && key % 8 == wt_len
      then metric_after (read_len bs)
      else passed_over (pb_skip (key % 8) bs)

  unfoldable pub payload_round : List ℕ → Option (Option Call × List ℕ)
  payload_round bs = payload_after (pb_read_varint bs)

-- `SPB_MAX_METRICS`
abbrev pub spb_max_metrics : ℕ
spb_max_metrics = 4096

-- A call before the others.
abbrev pub call_then : Call → List Call × Option ℕ → List Call × Option ℕ
call_then call (calls, result) = (call ∷ calls, result)

module _ {D : Type 0} (d : Numbers D) where
  -- The loop of `SPB_Decode` in at most `n` rounds, after `count` metrics: the calls of the handler,
  -- and the result, where `none` stands for -1.
  unfoldable pub payload_loop : ℕ → ℕ → List ℕ → List Call × Option ℕ
  payload_loop n count [] = ([], some count)
  payload_loop zero count (b ∷ bs) = ([], none)
  payload_loop (suc n) count (b ∷ bs) = elim (payload_round d (b ∷ bs)) [
    | none ↦ ([], none)
    | some (none, rest) ↦ payload_loop n count rest
    | some (some call, rest) ↦
        let more = call_then call (payload_loop n (count + 1) rest) in
        if ltb spb_max_metrics (count + 1) then ([], none) else more
  ]

  unfoldable pub spb_decode : List ℕ → List Call × Option ℕ
  spb_decode bs = payload_loop (length bs) 0 bs
