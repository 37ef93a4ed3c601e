-- ===== src/Modbus/Replies.antt =====
-- app/engine/modbus_pool.c: which answers over RTU are accepted, however they arrive.
use event_engine_acap.Prelude.{
  ℕ, zero, suc, ◌+◌, ◌*◌, ◌-◌, ◌/◌, ◌%◌, ◌≤◌, ◌<◌, ◌≡◌, ◌↔◌, refl, sym, ap, subst, ◌∙◌, true, false,
  ltb, leb, ◌==◌, if◌then◌else◌, Bool-cases, inl, inr, none, some, List, [], ◌∷◌, ◌++◌, length,
  take, drop, get_or, length-append, take_all, arith,
}
use mathlib.Core.List.{append_assoc, append-nil}
use Prim.Native.Nat.{bit_xor}
use event_engine_acap.Modbus.Frames.{
  crc_bit, crc_bits, crc_from, crc16, rtu_frame, rbuf_size, expected, is_whole, read_answer,
  check_answer, rtu_request, sgw_request,
}
use event_engine_acap.Modbus.Requests.{joined}

get_or-append : (xs ys : List ℕ) (i d : ℕ) → i < length xs → get_or (xs ++ ys) i d ≡ get_or xs i d
get_or-append [] ys i d h = absurd (omega arith)
get_or-append (x ∷ xs) ys zero d h = refl
get_or-append (x ∷ xs) ys (suc i) d h = get_or-append xs ys i d (omega arith)

-- A frame that says of itself how long it is, and fits the buffer.
pub record IsFrame (f : List ℕ) : Type 0 where
  pub exact : expected f ≡ length f
  pub bounds : (5 ≤ length f) × (length f ≤ rbuf_size)

-- No part of a frame passes for the whole.
not_whole :
    (f got : List ℕ) (b : ℕ) (bs : List ℕ) → IsFrame f → f ≡ got ++ (b ∷ bs) → is_whole got ≡ false
unfolding is_whole expected
not_whole f got b bs frame e = elim (Bool-cases (leb 5 (length got))) [
  | inr short ↦ rw short refl
  | inl long ↦
      let one = get_or-append got (b ∷ bs) 1 0 (ground arith) in
      let two = get_or-append got (b ∷ bs) 2 0 (ground arith) in
      ground (arith, frame.exact, ap length e, ap expected e, length-append got (b ∷ bs), one, two)
]

-- Each call of `read` brings something.
abbrev pub AllSome : List (List ℕ) → Type 0
AllSome [] = Unit {0}
AllSome ([] ∷ chunks) = ⊥
AllSome ((b ∷ bs) ∷ chunks) = AllSome chunks

-- What passes for the whole is the whole.
whole_is_all : (f got rest : List ℕ) → IsFrame f → f ≡ got ++ rest → is_whole got ≡ true → got ≡ f
whole_is_all f got [] frame e w = sym (e ∙ append-nil got)
whole_is_all f got (b ∷ bs) frame e w = absurd (ground (arith, not_whole f got b bs frame e))

-- A frame is put together from whatever parts it arrives in.
pub read_answer-joined :
    (f : List ℕ) (chunks : List (List ℕ)) (got : List ℕ)
    → IsFrame f
    → AllSome chunks
    → f ≡ got ++ joined chunks
    → read_answer chunks got ≡ f
unfolding read_answer
read_answer-joined f [] got frame all e = sym (e ∙ append-nil got)
read_answer-joined f ([] ∷ chunks) got frame all e = absurd all
read_answer-joined f ((b ∷ bs) ∷ chunks) got frame all e =
    let c = b ∷ bs in
    let size = length-append got (c ++ joined chunks) in
    let part = length-append c (joined chunks) in
    let fits = frame.bounds.1 in
    let room : leb rbuf_size (length got) ≡ false = ground (arith, ap length e) in
    let all' = take_all (rbuf_size - length got) c (omega (arith, ap length e)) in
    let e' = e ∙ sym (append_assoc got c (joined chunks)) in
    elim (Bool-cases (is_whole (got ++ c))) [
      | inl whole ↦
          rw (room, all', whole) (whole_is_all f (got ++ c) (joined chunks) frame e' whole)
      | inr part' ↦ rw (room, all', part') (read_answer-joined f chunks (got ++ c) frame all e')
    ]

crc_bits-lt : (n crc : ℕ) → crc < 65536 → crc_bits n crc < 65536
unfolding crc_bits crc_bit
crc_bits-lt zero crc h = h
crc_bits-lt (suc n) crc h = crc_bits-lt n (crc_bit crc) (omega arith)

crc_from-lt : (crc : ℕ) (bs : List ℕ) → crc < 65536 → crc_from crc bs < 65536
unfolding crc_from
crc_from-lt crc [] h = h
crc_from-lt crc (b ∷ bs) h =
    crc_from-lt (crc_bits 8 (bit_xor crc b % 65536)) bs
      (crc_bits-lt 8 (bit_xor crc b % 65536) (omega arith))

crc16-lt : (bs : List ℕ) → crc16 bs < 65536
unfolding crc16
crc16-lt bs = crc_from-lt 0xFFFF bs (omega arith)

take-append : (xs ys : List ℕ) → take (length xs) (xs ++ ys) ≡ xs
take-append [] ys = refl
take-append (x ∷ xs) ys = ap (◌∷◌ x) (take-append xs ys)

get_or-second :
    (xs : List ℕ) (x y d : ℕ)
    → (get_or (xs ++ (x ∷ y ∷ [])) (length xs) d ≡ x)
      × (get_or (xs ++ (x ∷ y ∷ [])) (suc (length xs)) d ≡ y)
get_or-second [] x y d = (refl, refl)
get_or-second (z ∷ xs) x y d = get_or-second xs x y d

-- The checks, once the length is known.
check_sized :
    (slave_id m : ℕ) (got : List ℕ)
    → length got ≡ m + 3
    → 1 ≤ m
    → check_answer slave_id got ≡ (
        if crc16 (take (suc m) got) == get_or got (suc (suc m)) 0 * 256 + get_or got (suc m) 0
        then (if get_or got 0 0 == slave_id % 256 then some (take m (drop 1 got)) else none)
        else none)
unfolding check_answer
check_sized slave_id m got size some' =
    let long : ltb (length got) 4 ≡ false = ground arith in
    let one : length got - 1 ≡ suc (suc m) = omega arith in
    let two : length got - 2 ≡ suc m = omega arith in
    let three : length got - 3 ≡ m = omega arith in rw (long, one, two, three) refl

-- An answer that is long enough, in its parts.
check_parts :
    (slave_id a x y : ℕ) (pdu : List ℕ)
    → 1 ≤ length pdu
    → check_answer slave_id ((a ∷ pdu) ++ (x ∷ y ∷ [])) ≡ (
        if crc16 (a ∷ pdu) == y * 256 + x
        then (if a == slave_id % 256 then some pdu else none)
        else none)
check_parts slave_id a x y pdu some' =
    let tail = x ∷ y ∷ [] in
    let (first, second) = get_or-second (a ∷ pdu) x y 0 in
    check_sized slave_id (length pdu) ((a ∷ pdu) ++ tail) (omega (arith, length-append pdu tail))
      some'
    ∙ rw (take-append pdu tail, first, second) refl

-- The frame of a PDU is accepted, and the PDU taken out of it.
pub check_answer-rtu_frame :
    (slave_id : ℕ) (pdu : List ℕ)
    → 1 ≤ length pdu
    → check_answer slave_id (rtu_frame slave_id pdu) ≡ some pdu
unfolding rtu_frame
check_answer-rtu_frame slave_id pdu some' =
    let crc = crc16 (slave_id % 256 ∷ pdu) in
    let whole : crc / 256 % 256 * 256 + crc % 256 ≡ crc =
      omega (arith, crc16-lt (slave_id % 256 ∷ pdu)) in
    check_parts slave_id (slave_id % 256) (crc % 256) (crc / 256 % 256) pdu some'
    ∙ rw whole (ground arith)

-- Each number is a byte.
abbrev pub Bytes : List ℕ → Type 0
Bytes [] = Unit {0}
Bytes (b ∷ bs) = (b < 256) × Bytes bs

Bytes-last : (xs : List ℕ) (x y : ℕ) → Bytes (xs ++ (x ∷ y ∷ [])) → (x < 256) × (y < 256)
Bytes-last [] x y h = (h.0, h.1.0)
Bytes-last (z ∷ xs) x y h = Bytes-last xs x y h.1

-- A list of two or more, with its last two.
last_two :
    (a b : ℕ) (xs : List ℕ)
    → (front : List ℕ) × (x : ℕ) × (y : ℕ) × (a ∷ b ∷ xs ≡ front ++ (x ∷ y ∷ []))
last_two a b [] = ([], a, b, refl)
last_two a b (c ∷ xs) = let (front, x, y, e) = last_two b c xs in (a ∷ front, x, y, ap (◌∷◌ a) e)

accepted_parts :
    (slave_id a x y : ℕ) (pdu pdu' : List ℕ)
    → 1 ≤ length pdu
    → x < 256
    → y < 256
    → check_answer slave_id ((a ∷ pdu) ++ (x ∷ y ∷ [])) ≡ some pdu'
    → (a ∷ pdu) ++ (x ∷ y ∷ []) ≡ rtu_frame slave_id pdu'
unfolding rtu_frame
accepted_parts slave_id a x y pdu pdu' some' hx hy e =
    let checks = sym (check_parts slave_id a x y pdu some') ∙ e in
    elim (Bool-cases (crc16 (a ∷ pdu) == y * 256 + x)) [
      | inr wrong ↦ absurd (ground arith)
      | inl right ↦ elim (Bool-cases (a == slave_id % 256)) [
        | inr other ↦ absurd (ground arith)
        | inl same ↦
            let sum : crc16 (a ∷ pdu) ≡ y * 256 + x = ground arith in
            let here : a ≡ slave_id % 256 = ground arith in
            let out : pdu ≡ pdu' = ground arith in
            let low : crc16 (a ∷ pdu) % 256 ≡ x = omega arith in
            let high : crc16 (a ∷ pdu) / 256 % 256 ≡ y = omega arith in
            rw (← out, ← here, low, high) refl
      ]
    ]

length-rtu_frame : (slave_id : ℕ) (pdu : List ℕ) → length (rtu_frame slave_id pdu) ≡ length pdu + 3
unfolding rtu_frame
length-rtu_frame slave_id pdu = omega (
  arith,
  length-append pdu
      (crc16 (slave_id % 256 ∷ pdu) % 256 ∷ crc16 (slave_id % 256 ∷ pdu) / 256 % 256 ∷ []),
)

accepted_frame :
    (slave_id : ℕ) (got pdu : List ℕ)
    → Bytes got
    → check_answer slave_id got ≡ some pdu
    → got ≡ rtu_frame slave_id pdu
unfolding check_answer
accepted_frame slave_id [] pdu bytes e = cc
accepted_frame slave_id (a ∷ []) pdu bytes e = cc
accepted_frame slave_id (a ∷ b ∷ []) pdu bytes e = cc
accepted_frame slave_id (a ∷ b ∷ c ∷ []) pdu bytes e = cc
accepted_frame slave_id (a ∷ b ∷ c ∷ d ∷ xs) pdu bytes e =
    let (front, x, y, split) = last_two b c (d ∷ xs) in
    let whole = ap (◌∷◌ a) split in
    let (hx, hy) = Bytes-last (a ∷ front) x y (subst Bytes whole bytes) in
    let some' : 1 ≤ length front =
      omega (arith, ap length split, length-append front (x ∷ y ∷ [])) in
    whole
    ∙ accepted_parts slave_id a x y front pdu some' hx hy
        (ap (check_answer slave_id) (sym whole) ∙ e)

long_enough :
    (slave_id : ℕ) (got pdu : List ℕ) → check_answer slave_id got ≡ some pdu → 4 ≤ length got
unfolding check_answer
long_enough slave_id got pdu e = elim (Bool-cases (ltb (length got) 4)) [
  | inl short ↦ absurd (ground arith)
  | inr long ↦ ground arith
]

-- Bytes are accepted exactly when they are the frame, for this slave and with the right checksum, of a
-- PDU that is not empty; fewer than four bytes never are.
pub check_answer_iff :
    (slave_id : ℕ) (got pdu : List ℕ)
    → Bytes got
    → (check_answer slave_id got ≡ some pdu) ↔ ((1 ≤ length pdu) × (got ≡ rtu_frame slave_id pdu))
check_answer_iff slave_id got pdu bytes = (
  λ e.
      let frame = accepted_frame slave_id got pdu bytes e in
      (
        omega
            (arith, ap length frame, length-rtu_frame slave_id pdu, long_enough slave_id got pdu e),
        frame,
      ),
  λ (some', e). ap (check_answer slave_id) e ∙ check_answer-rtu_frame slave_id pdu some',
)

-- A frame of a PDU that says how long it is, in whatever parts it arrives, over a serial line or a
-- socket.
pub request-rtu_frame :
    (slave_id : ℕ) (pdu : List ℕ) (chunks : List (List ℕ))
    → 1 ≤ length pdu
    → IsFrame (rtu_frame slave_id pdu)
    → AllSome chunks
    → joined chunks ≡ rtu_frame slave_id pdu
    → (rtu_request slave_id true chunks ≡ some pdu) × (sgw_request slave_id true chunks ≡ some pdu)
unfolding rtu_request sgw_request
request-rtu_frame slave_id pdu chunks some' frame all e =
    let read = read_answer-joined (rtu_frame slave_id pdu) chunks [] frame all (sym e) in
    let accepted = ap (check_answer slave_id) read ∙ check_answer-rtu_frame slave_id pdu some' in
    (accepted, accepted)
