-- ===== src/Sparkplug/Loops.antt =====
-- app/engine/sparkplug_pb.c: the loops of `decode_metric` and `SPB_Decode` end, since each round reads
-- a byte.
use event_engine_acap.Prelude.{
  ℕ, zero, suc, ◌+◌, ◌≤◌, ◌<◌, ◌≡◌, refl, Option-cases, inl, inr, none, some, List, [], ◌∷◌, length,
  arith,
}
use event_engine_acap.Sparkplug.Metric.{Numbers}
use event_engine_acap.Sparkplug.Decode.{Decoded, decode_round, decode_loop, Call}
use event_engine_acap.Sparkplug.Payload.{call_then, payload_round, payload_loop, spb_max_metrics}
use event_engine_acap.Sparkplug.Lengths.{decode_round-length, payload_round-length}

module _ {D : Type 0} (d : Numbers D) where
  -- The loop of `decode_metric` returns the same for every bound that is at least the number of bytes.
  pub decode_loop_enough :
      (n m : ℕ) (dm : Decoded) (bs : List ℕ)
      → length bs ≤ n
      → length bs ≤ m
      → decode_loop d n dm bs ≡ decode_loop d m dm bs
  unfolding decode_loop
  decode_loop_enough n m dm [] h k = refl
  decode_loop_enough zero m dm (b ∷ bs) h k = absurd (omega arith)
  decode_loop_enough (suc n) zero dm (b ∷ bs) h k = absurd (omega arith)
  decode_loop_enough (suc n) (suc m) dm (b ∷ bs) h k =
      elim (Option-cases (decode_round d dm (b ∷ bs))) [
        | inl e ↦ rw e refl
        | inr ((dm', rest), e) ↦
            let less = decode_round-length d dm (b ∷ bs) dm' rest e in
            rw e (decode_loop_enough n m dm' rest (omega arith) (omega arith))
      ]

  -- One round of the loop.
  pub decode_loop-step :
      (dm : Decoded) (bs : List ℕ) (dm' : Decoded) (rest : List ℕ)
      → decode_round d dm bs ≡ some (dm', rest)
      → decode_loop d (length bs) dm bs ≡ decode_loop d (length rest) dm' rest
  unfolding decode_loop
  decode_loop-step dm [] dm' rest e = absurd (omega (arith, decode_round-length d dm [] dm' rest e))
  decode_loop-step dm (b ∷ bs) dm' rest e =
      let less = decode_round-length d dm (b ∷ bs) dm' rest e in
      rw e (decode_loop_enough (length bs) (length rest) dm' rest (omega arith) (omega arith))

  -- The loop of `SPB_Decode` returns the same for every bound that is at least the number of bytes.
  pub payload_loop_enough :
      (n m count : ℕ) (bs : List ℕ)
      → length bs ≤ n
      → length bs ≤ m
      → payload_loop d n count bs ≡ payload_loop d m count bs
  unfolding payload_loop
  payload_loop_enough n m count [] h k = refl
  payload_loop_enough zero m count (b ∷ bs) h k = absurd (omega arith)
  payload_loop_enough (suc n) zero count (b ∷ bs) h k = absurd (omega arith)
  payload_loop_enough (suc n) (suc m) count (b ∷ bs) h k =
      elim (Option-cases (payload_round d (b ∷ bs))) [
        | inl e ↦ rw (e, payload_loop) refl
        | inr ((none, rest), e) ↦
            let less = payload_round-length d (b ∷ bs) none rest e in
            rw (e, payload_loop) (payload_loop_enough n m count rest (omega arith) (omega arith))
        | inr ((some call, rest), e) ↦
            let less = payload_round-length d (b ∷ bs) (some call) rest e in
            let same = payload_loop_enough n m (count + 1) rest (omega arith) (omega arith) in
            rw (e, payload_loop) (rw same refl)
      ]

  -- A round of `SPB_Decode` over a field that is no metric, and one over a metric within the limit.
  pub payload_loop-skip :
      (count : ℕ) (bs rest : List ℕ)
      → payload_round d bs ≡ some (none, rest)
      → payload_loop d (length bs) count bs ≡ payload_loop d (length rest) count rest
  unfolding payload_loop
  payload_loop-skip count [] rest e = absurd (omega (arith, payload_round-length d [] none rest e))
  payload_loop-skip count (b ∷ bs) rest e =
      let less = payload_round-length d (b ∷ bs) none rest e in
      rw (e, payload_loop)
        (payload_loop_enough (length bs) (length rest) count rest (omega arith) (omega arith))

  pub payload_loop-call :
      (count : ℕ) (bs rest : List ℕ) (call : Call)
      → payload_round d bs ≡ some (some call, rest)
      → count < spb_max_metrics
      → payload_loop d (length bs) count bs
        ≡ call_then call (payload_loop d (length rest) (count + 1) rest)
  unfolding payload_loop
  payload_loop-call count [] rest call e room =
      absurd (omega (arith, payload_round-length d [] (some call) rest e))
  payload_loop-call count (b ∷ bs) rest call e room =
      let less = payload_round-length d (b ∷ bs) (some call) rest e in
      let same =
        payload_loop_enough (length bs) (length rest) (count + 1) rest (omega arith)
          (omega arith) in
      rw (e, payload_loop) (rw same (ground arith))
