-- ===== src/Sparkplug/Hostile.antt =====
-- app/engine/sparkplug_pb.c: what `SPB_Decode` does on any bytes.
use event_engine_acap.Prelude.{
  ℕ, zero, suc, ◌+◌, ◌≤◌, ◌≡◌, ltb, Bool-cases, Option-cases, inl, inr, Option, none, some, List,
  [], ◌∷◌, length, arith,
}
use event_engine_acap.Sparkplug.Metric.{Numbers}
use event_engine_acap.Sparkplug.Decode.{Call}
use event_engine_acap.Sparkplug.Payload.{
  call_then, payload_round, payload_loop, spb_decode, spb_max_metrics,
}

-- The calls and the result of a loop that starts after `count` metrics.
abbrev Bounded : ℕ → List Call × Option ℕ → Type 0
Bounded count (calls, result) =
    (count + length calls ≤ spb_max_metrics)
    × ((n : ℕ) → result ≡ some n → n ≡ count + length calls)

Bounded-call_then :
    (count : ℕ) (call : Call) (out : List Call × Option ℕ)
    → Bounded (count + 1) out
    → Bounded count (call_then call out)
Bounded-call_then count call (calls, result) (few, all) =
    (omega (arith, few), λ n e. omega (arith, all n e))

Bounded-stopped : (count : ℕ) → count ≤ spb_max_metrics → Bounded count ([], none)
Bounded-stopped count h = (omega arith, λ n e. cc)

module _ {D : Type 0} (d : Numbers D) where
  Bounded-loop :
      (n count : ℕ) (bs : List ℕ)
      → count ≤ spb_max_metrics
      → Bounded count (payload_loop d n count bs)
  unfolding payload_loop
  Bounded-loop n count [] h = (omega arith, λ k e. ground arith)
  Bounded-loop zero count (b ∷ bs) h = Bounded-stopped count h
  Bounded-loop (suc n) count (b ∷ bs) h = elim (Option-cases (payload_round d (b ∷ bs))) [
    | inl e ↦ rw (e, payload_loop) (Bounded-stopped count h)
    | inr ((none, rest), e) ↦ rw (e, payload_loop) (Bounded-loop n count rest h)
    | inr ((some call, rest), e) ↦ elim (Bool-cases (ltb spb_max_metrics (count + 1))) [
      | inl over ↦ rw (e, payload_loop, over) (Bounded-stopped count h)
      | inr room ↦
          rw (e, payload_loop, room)
            (Bounded-call_then count call (payload_loop d n (count + 1) rest)
              (Bounded-loop n (count + 1) rest (ground arith)))
    ]
  ]

  -- On any bytes the handler is called at most 4096 times, and a result other than -1 is the number of
  -- the calls.
  pub spb_decode-length :
      (bs : List ℕ)
      → (length (spb_decode d bs).0 ≤ spb_max_metrics)
        × ((n : ℕ) → (spb_decode d bs).1 ≡ some n → n ≡ length (spb_decode d bs).0)
  unfolding spb_decode
  spb_decode-length bs =
      let (few, all) = Bounded-loop (length bs) 0 bs (omega arith) in
      (omega (arith, few), λ n e. omega (arith, all n e))
