-- ===== src/Sparkplug/Lengths.antt =====
-- app/engine/sparkplug_pb.c: how much the readers leave.
use event_engine_acap.Prelude.{
  ℕ, ◌/◌, ◌%◌, ◌^◌, ◌≤◌, ◌<◌, ◌≡◌, ap, sym, ◌∙◌, Bool, true, false, leb, ◌==◌, if◌then◌else◌,
  Bool-cases, Option-cases, inl, inr, Option, none, some, List, length, length-drop, arith, subst,
  ◌||◌, ◌&&◌,
}
use event_engine_acap.Sparkplug.Buffer.{wt_len}
use event_engine_acap.Sparkplug.Wire.{pb_read_varint, read_len, take_bytes, rest_of, pb_skip}
use event_engine_acap.Sparkplug.Varint.{pb_read_varint-length}
use event_engine_acap.Sparkplug.Metric.{Numbers}
use event_engine_acap.Sparkplug.Decode.{
  Decoded, read_as, keep_metric, field_after, decode_field, decode_round, is_varint_field,
  blank_metric, Call, decode_metric,
}
use event_engine_acap.Sparkplug.Payload.{metric_after, passed_over, payload_after, payload_round}

-- Every result of a reader has at most `n` bytes left.
abbrev pub Leaves : {A : Type 0} → ℕ → Option (A × List ℕ) → Type 0
Leaves n none = Unit {0}
Leaves n (some (a, bs)) = length bs ≤ n

Leaves-take_bytes : (n : ℕ) (bs : List ℕ) → Leaves (length bs) (take_bytes n bs)
Leaves-take_bytes n bs = elim (Bool-cases (leb n (length bs))) [
  | inl enough ↦ rw enough (omega (arith, length-drop n bs))
  | inr short ↦ rw short tt
]

Leaves-varint : (bs : List ℕ) → Leaves (length bs) (pb_read_varint bs)
Leaves-varint bs = elim (Option-cases (pb_read_varint bs)) [
  | inl e ↦ rw e tt
  | inr ((v, rest), e) ↦ rw e (omega (arith, pb_read_varint-length bs v rest e))
]

Leaves-read_len : (bs : List ℕ) → Leaves (length bs) (read_len bs)
unfolding read_len
Leaves-read_len bs = elim (Option-cases (pb_read_varint bs)) [
  | inl e ↦ rw e tt
  | inr ((v, rest), e) ↦
      rw e
        (weaker (take_bytes v rest) (Leaves-take_bytes v rest) (pb_read_varint-length bs v rest e))
]
  where
    weaker : {A : Type 0} {m n : ℕ} (o : Option (A × List ℕ)) → Leaves m o → m < n → Leaves n o
    weaker none h k = tt
    weaker (some (a, bs)) h k = omega arith

Shrinks-rest_of :
    {A : Type 0} (n : ℕ) (dm : Decoded) (o : Option (A × List ℕ))
    → Leaves n o
    → Leaves n (keep_metric dm (rest_of o))
Shrinks-rest_of n dm none h = tt
Shrinks-rest_of n dm (some (a, bs)) h = h

Leaves-skip :
    (wt : ℕ) (bs : List ℕ) (dm : Decoded) → Leaves (length bs) (keep_metric dm (pb_skip wt bs))
unfolding pb_skip
Leaves-skip wt bs dm = elim (Bool-cases (wt == 0)) [
  | inl h ↦ rw h (Shrinks-rest_of _ dm _ (Leaves-varint bs))
  | inr h ↦ rw h (elim (Bool-cases (wt == 1)) [
    | inl h ↦ rw h (Shrinks-rest_of _ dm _ (Leaves-take_bytes 8 bs))
    | inr h ↦ rw h (elim (Bool-cases (wt == 5)) [
      | inl h ↦ rw h (Shrinks-rest_of _ dm _ (Leaves-take_bytes 4 bs))
      | inr h ↦ rw h (elim (Bool-cases (wt == 2)) [
        | inl h ↦ rw h (Shrinks-rest_of _ dm _ (Leaves-read_len bs))
        | inr h ↦ rw h tt
      ])
    ])
  ])
]

Leaves-read_as :
    {A : Type 0} (n : ℕ) (put : A → Decoded) (o : Option (A × List ℕ))
    → Leaves n o
    → Leaves n (read_as put o)
Leaves-read_as n put none h = tt
Leaves-read_as n put (some (a, bs)) h = h

Leaves-if :
    {A : Type 0} (n : ℕ) (t : Bool) (o o' : Option (A × List ℕ))
    → Leaves n o
    → Leaves n o'
    → Leaves n (if t then o else o')
Leaves-if n true o o' h h' = h
Leaves-if n false o o' h h' = h'

module _ {D : Type 0} (d : Numbers D) where
  Leaves-field :
      (dm : Decoded) (field wt : ℕ) (bs : List ℕ)
      → Leaves (length bs) (decode_field d dm field wt bs)
  unfolding decode_field
  Leaves-field dm field wt bs =
      Leaves-if _ (is_varint_field field) _ _
        (Leaves-if _ (wt == 0) _ none (Leaves-read_as _ _ _ (Leaves-varint bs)) tt)
        (Leaves-if _ (field == 1 || field == 15) _ _
          (Leaves-if _ (wt == 2) _ none (Leaves-read_as _ _ _ (Leaves-read_len bs)) tt)
          (Leaves-if _ (field == 12) _ _
            (Leaves-if _ (wt == 5) _ none (Leaves-read_as _ _ _ (Leaves-take_bytes 4 bs)) tt)
            (Leaves-if _ (field == 13) _ _
              (Leaves-if _ (wt == 1) _ none (Leaves-read_as _ _ _ (Leaves-take_bytes 8 bs)) tt)
              (Leaves-skip wt bs dm))))

  -- A round of the loop of `decode_metric` reads at least one byte.
  pub decode_round-length :
      (dm : Decoded) (bs : List ℕ) (dm' : Decoded) (rest : List ℕ)
      → decode_round d dm bs ≡ some (dm', rest)
      → length rest < length bs
  unfolding decode_round
  decode_round-length dm bs dm' rest e = elim (Option-cases (pb_read_varint bs)) [
    | inl none_read ↦ absurd (cc (ap (field_after d dm) none_read))
    | inr ((key, more), read) ↦
        let found : decode_field d dm (key / 8 % 2 ^ 32) (key % 8) more ≡ some (dm', rest) =
          sym (ap (field_after d dm) read) ∙ e in
        let bound : length rest ≤ length more =
          subst (Leaves (length more)) found (Leaves-field dm (key / 8 % 2 ^ 32) (key % 8) more) in
        omega (arith, pb_read_varint-length bs key more read, bound)
  ]

  Leaves-metric_after :
      (n : ℕ) (o : Option (List ℕ × List ℕ)) → Leaves n o → Leaves n (metric_after d o)
  Leaves-metric_after n none h = tt
  Leaves-metric_after n (some (payload, bs)) h = elim (Option-cases (decode_metric d payload)) [
    | inl e ↦ rw e tt
    | inr (dm, e) ↦ rw e h
  ]

  Leaves-passed_over :
      (n : ℕ) (o : Option (List ℕ))
      → Leaves n (keep_metric blank_metric o)
      → Leaves n (passed_over o)
  Leaves-passed_over n none h = tt
  Leaves-passed_over n (some bs) h = h

  -- A round of the loop of `SPB_Decode` reads at least one byte.
  pub payload_round-length :
      (bs : List ℕ) (call : Option Call) (rest : List ℕ)
      → payload_round d bs ≡ some (call, rest)
      → length rest < length bs
  unfolding payload_round
  payload_round-length bs call rest e = elim (Option-cases (pb_read_varint bs)) [
    | inl none_read ↦ absurd (cc (ap (payload_after d) none_read))
    | inr ((key, more), read) ↦
        let found : payload_after d (some (key, more)) ≡ some (call, rest) =
          sym (ap (payload_after d) read) ∙ e in
        let bound : length rest ≤ length more = subst (Leaves (length more)) found (
          Leaves-if _ (key / 8 % 2 ^ 32 == 2 && key % 8 == wt_len) _ _
            (Leaves-metric_after _ _ (Leaves-read_len more))
            (Leaves-passed_over _ _ (Leaves-skip (key % 8) more blank_metric))) in
        omega (arith, pb_read_varint-length bs key more read, bound)
  ]
