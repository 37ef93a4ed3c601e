-- ===== src/Sparkplug/Writers.antt =====
-- app/engine/sparkplug_pb.c: what the writers append to the buffer.
use event_engine_acap.Prelude.{
  ℕ, zero, suc, ◌+◌, ◌*◌, ◌≤◌, ◌≡◌, refl, sym, ◌∙◌, ap, Bool, false, leb, ◌==◌, if◌then◌else◌,
  Bool-cases, Option-cases, inl, inr, Option, none, some, List, [], ◌∷◌, ◌++◌, Str, length,
  length-append, arith,
}
use mathlib.Core.List.{append-nil, append_assoc}
use event_engine_acap.Sparkplug.Buffer.{
  ◌>>=◌, SpbBuf, grow, varint_bytes, bytes_of, buf_reserve, buf_put, pb_varint, pb_tag,
  pb_varint_field, pb_bool_field, pb_fixed32_field, pb_fixed64_field, pb_bytes_field,
  pb_string_field,
}
use event_engine_acap.Sparkplug.Layout.{
  tag, varint_field, bool_field, fixed32_field, fixed64_field, len_field,
}

-- The bytes fit the memory that is allocated.
abbrev pub IsValid : SpbBuf → Type 0
IsValid b = length b.bytes ≤ b.cap

-- As many rounds as there are bytes to hold are enough.
pub grow_enough : (n cap need : ℕ) → 1 ≤ cap → need ≤ cap + n → need ≤ grow n cap need
unfolding grow
grow_enough zero cap need h k = omega arith
grow_enough (suc n) cap need h k =
    ground (arith, grow_enough n (cap * 2) need (omega arith) (omega arith))

module _ (realloc : ℕ → Bool) where
  -- A writer appended the bytes, or could not get the memory.
  pub data Wrote (before bs : List ℕ) (o : Option SpbBuf) : Type 0 where
    done : (b : SpbBuf) → o ≡ some b → b.bytes ≡ before ++ bs → IsValid b → Wrote before bs o
    failed : (n : ℕ) → realloc n ≡ false → o ≡ none → Wrote before bs o

  abbrev pub Writes : (SpbBuf → Option SpbBuf) → List ℕ → Type 0
  Writes w bs = (b : SpbBuf) → IsValid b → Wrote b.bytes bs (w b)

  pub Writes-then :
      (w w' : SpbBuf → Option SpbBuf) (bs bs' : List ℕ)
      → Writes w bs
      → Writes w' bs'
      → Writes (λ b. w b >>= w') (bs ++ bs')
  Writes-then w w' bs bs' first second b v = elim (first b v) [
    | failed n broke e ↦ rw e (failed n broke refl)
    | done b' e same v' ↦ rw e (elim (second b' v') [
      | failed n broke e' ↦ failed n broke e'
      | done b'' e' same' v'' ↦
          done b'' e' (same' ∙ ap (λ xs. xs ++ bs') same ∙ append_assoc b.bytes bs bs') v''
    ])
  ]

  pub Writes-nothing : Writes some []
  Writes-nothing b v = done b refl (sym (append-nil b.bytes)) v

  pub reserve_enough :
      (extra : ℕ) (b b' : SpbBuf)
      → buf_reserve realloc extra b ≡ some b'
      → (b'.bytes ≡ b.bytes) × (length b.bytes + extra ≤ b'.cap)
  unfolding buf_reserve
  reserve_enough extra b b' e =
      let need = length b.bytes + extra in
      let cap = grow need (if b.cap == 0 then 128 else b.cap) need in
      let enough : need ≤ cap =
        grow_enough need (if b.cap == 0 then 128 else b.cap) need (ground arith) (omega arith) in
      elim (Bool-cases (leb need b.cap)) [
        | inl fits ↦ ground arith
        | inr small ↦ elim (Bool-cases (realloc cap)) [
          | inl got ↦ ground (arith, enough)
          | inr broke ↦ absurd (ground arith)
        ]
      ]

  reserve_fails :
      (extra : ℕ) (b : SpbBuf) → buf_reserve realloc extra b ≡ none → (n : ℕ) × (realloc n ≡ false)
  unfolding buf_reserve
  reserve_fails extra b e =
      let need = length b.bytes + extra in
      let cap = grow need (if b.cap == 0 then 128 else b.cap) need in
      elim (Bool-cases (leb need b.cap)) [
        | inl fits ↦ absurd (ground arith)
        | inr small ↦ elim (Bool-cases (realloc cap)) [
          | inl got ↦ absurd (ground arith)
          | inr broke ↦ (cap, broke)
        ]
      ]

  pub Writes-buf_put : (src : List ℕ) → Writes (buf_put realloc src) src
  unfolding buf_put
  Writes-buf_put [] b v = done b refl (sym (append-nil b.bytes)) v
  Writes-buf_put (x ∷ xs) b v = elim (Option-cases (buf_reserve realloc (length (x ∷ xs)) b)) [
    | inl e ↦ let (n, broke) = reserve_fails _ b e in rw e (failed n broke refl)
    | inr (b', e) ↦
        let (same, room) = reserve_enough _ b b' e in
        rw e (
          done (record b' { bytes = b'.bytes ++ (x ∷ xs) }) refl (ap (λ ys. ys ++ (x ∷ xs)) same)
            (omega (arith, length-append b'.bytes (x ∷ xs), ap length same, room)))
  ]

  Writes-tag : (field wt : ℕ) → Writes (pb_tag realloc field wt) (tag field wt)
  unfolding pb_tag pb_varint
  Writes-tag field wt = Writes-buf_put (varint_bytes 10 (field * 8 + wt))

  Writes-varint : (v : ℕ) → Writes (pb_varint realloc v) (varint_bytes 10 v)
  unfolding pb_varint
  Writes-varint v = Writes-buf_put (varint_bytes 10 v)

  pub Writes-varint_field :
      (field v : ℕ) → Writes (pb_varint_field realloc field v) (varint_field field v)
  unfolding pb_varint_field
  Writes-varint_field field v = Writes-then _ _ _ _ (Writes-tag field 0) (Writes-varint v)

  pub Writes-bool_field :
      (field : ℕ) (v : Bool) → Writes (pb_bool_field realloc field v) (bool_field field v)
  unfolding pb_bool_field
  Writes-bool_field field v = Writes-then _ _ _ _ (Writes-tag field 0) (Writes-buf_put _)

  pub Writes-fixed32_field :
      (field v : ℕ) → Writes (pb_fixed32_field realloc field v) (fixed32_field field v)
  unfolding pb_fixed32_field
  Writes-fixed32_field field v = Writes-then _ _ _ _ (Writes-tag field 5) (Writes-buf_put _)

  pub Writes-fixed64_field :
      (field v : ℕ) → Writes (pb_fixed64_field realloc field v) (fixed64_field field v)
  unfolding pb_fixed64_field
  Writes-fixed64_field field v = Writes-then _ _ _ _ (Writes-tag field 1) (Writes-buf_put _)

  pub Writes-bytes_field :
      (field : ℕ) (src : List ℕ) → Writes (pb_bytes_field realloc field src) (len_field field src)
  unfolding pb_bytes_field
  Writes-bytes_field field src =
      Writes-then _ _ _ _ (Writes-tag field 2)
        (Writes-then _ _ _ _ (Writes-varint (length src)) (Writes-buf_put src))

  pub Writes-string_field :
      (field : ℕ) (s : Option Str)
      → Writes (pb_string_field realloc field s) (len_field field (bytes_of s))
  unfolding pb_string_field
  Writes-string_field field s = Writes-bytes_field field (bytes_of s)
