-- ===== src/Modbus/Registers.antt =====
-- app/engine/modbus_pool.c: what an operation makes of the answer of a device.
use event_engine_acap.Prelude.{
  ℕ, suc, ◌+◌, ◌*◌, ◌/◌, ◌%◌, ◌≤◌, ◌≡◌, refl, ap, ◌∙◌, Bool, true, false, ◌||◌, ltb, none, some,
  List, [], ◌∷◌, ◌++◌, length, take, length-append, arith,
}
use event_engine_acap.Modbus.Frames.{
  tcp_answer, tcp_request, rtu_frame, rtu_request, sgw_request, expected,
}
use event_engine_acap.Modbus.Requests.{
  Transport, mb_tcp, mb_rtu, mb_serial_gw, Ctx, Line, joined, ensure_connected, do_request,
  exchange, read_pdu, register_of, bit_of, mb_read_register, mb_read_bit, mb_write_register,
  mb_write_bit,
}
use event_engine_acap.Modbus.Replies.{IsFrame, AllSome, request-rtu_frame}

-- The PDU arrives on the line as a whole answer: over TCP behind a header that counts the slave's
-- number and the PDU, with any transaction number, and over RTU as the frame of the slave.
pub data Answers (slave_id : ℕ) (pdu : List ℕ) (chunks : List (List ℕ)) : Transport → Type 0 where
  over_tcp :
      (a b c d unit : ℕ) (rest : List ℕ)
      → joined chunks
        ≡ a ∷ b ∷ c ∷ d ∷ suc (length pdu) / 256 ∷ suc (length pdu) % 256 ∷ unit ∷ pdu ++ rest
      → Answers slave_id pdu chunks mb_tcp
  over_rtu :
      AllSome chunks → joined chunks ≡ rtu_frame slave_id pdu → Answers slave_id pdu chunks mb_rtu
  over_gateway :
      AllSome chunks
      → joined chunks ≡ rtu_frame slave_id pdu
      → Answers slave_id pdu chunks mb_serial_gw

take-append : (xs ys : List ℕ) → take (length xs) (xs ++ ys) ≡ xs
take-append [] ys = refl
take-append (x ∷ xs) ys = ap (◌∷◌ x) (take-append xs ys)

tcp_answer-pdu :
    (a b c d unit : ℕ) (pdu rest : List ℕ)
    → 1 ≤ length pdu
    → length pdu ≤ 252
    → tcp_answer
        (a ∷ b ∷ c ∷ d ∷ suc (length pdu) / 256 ∷ suc (length pdu) % 256 ∷ unit ∷ pdu ++ rest)
      ≡ some pdu
unfolding tcp_answer
tcp_answer-pdu a b c d unit pdu rest some' small =
    let n = suc (length pdu) in
    let whole : n / 256 * 256 + n % 256 ≡ n = omega arith in
    let room : (ltb n 2 || ltb 253 n) ≡ false = ground arith in
    let there : ltb (suc (length (pdu ++ rest))) n ≡ false =
      ground (arith, length-append pdu rest) in
    rw (whole, room, there, take-append pdu rest) (ground arith)

-- The answer that a request finds on the line.
answer_found :
    (c : Ctx) (t : Transport) (txid slave_id : ℕ) (request pdu : List ℕ) (line : Line)
    → c.transport ≡ t
    → 1 ≤ length pdu
    → length pdu ≤ 252
    → IsFrame (rtu_frame slave_id pdu)
    → line.sent ≡ true
    → Answers slave_id pdu line.chunks t
    → (do_request c txid slave_id request line).1 ≡ some pdu
unfolding do_request tcp_request
answer_found c _ txid slave_id request pdu line e some' small frame sent
      (over_tcp a b c' d unit rest there) =
    rw (e, do_request)
      (ap (λ t. tcp_request t (joined line.chunks)) sent
        ∙ ap tcp_answer there
        ∙ tcp_answer-pdu a b c' d unit pdu rest some' small)
answer_found c _ txid slave_id request pdu line e some' small frame sent (over_rtu all there) =
    rw (e, do_request)
      (ap (λ t. rtu_request slave_id t line.chunks) sent
        ∙ (request-rtu_frame slave_id pdu line.chunks some' frame all there).0)
answer_found c _ txid slave_id request pdu line e some' small frame sent (over_gateway all there) =
    rw (e, do_request)
      (ap (λ t. sgw_request slave_id t line.chunks) sent
        ∙ (request-rtu_frame slave_id pdu line.chunks some' frame all there).1)

-- A device answers a request: there is a connection or one can be made, the frame is sent, and the PDU
-- arrives.
pub record Answered (slave_id : ℕ) (pdu : List ℕ) (line : Line) (c : Ctx) : Type 0 where
  pub ready : (ensure_connected line.connects c).1 ≡ true
  pub sent : line.sent ≡ true
  pub arrives : Answers slave_id pdu line.chunks c.transport

ensure_connected-transport :
    (connects : Bool) (c : Ctx) → (ensure_connected connects c).0.transport ≡ c.transport
unfolding ensure_connected
ensure_connected-transport connects c = ground arith

exchange-answer :
    (txid slave_id : ℕ) (request pdu : List ℕ) (line : Line) (c : Ctx)
    → 1 ≤ length pdu
    → length pdu ≤ 252
    → IsFrame (rtu_frame slave_id pdu)
    → Answered slave_id pdu line c
    → (exchange txid slave_id request line c).answer ≡ some pdu
unfolding exchange
exchange-answer txid slave_id request pdu line c some' small frame h = rw h.ready (
    answer_found (ensure_connected line.connects c).0 c.transport txid slave_id request pdu line
      (ensure_connected-transport line.connects c) some' small frame h.sent h.arrives)

-- The frames of these answers say how long they are.
register-IsFrame :
    (slave_id fc hi lo : ℕ) → fc ≤ 4 → IsFrame (rtu_frame slave_id (fc ∷ 2 ∷ hi ∷ lo ∷ []))
unfolding rtu_frame expected
register-IsFrame slave_id fc hi lo known = record { exact = ground arith; bounds = omega arith }

bit-IsFrame : (slave_id fc v : ℕ) → fc ≤ 4 → IsFrame (rtu_frame slave_id (fc ∷ 1 ∷ v ∷ []))
unfolding rtu_frame expected
bit-IsFrame slave_id fc v known = record { exact = ground arith; bounds = omega arith }

exception-IsFrame :
    (slave_id fc code : ℕ) → 128 ≤ fc → IsFrame (rtu_frame slave_id (fc ∷ code ∷ []))
unfolding rtu_frame expected
exception-IsFrame slave_id fc code high = record { exact = ground arith; bounds = omega arith }

-- Over each transport, whatever parts the answer arrives in: a read of a register returns the two bytes
-- that a device answers with, the high one first; a read of a bit the lowest bit of its byte; and both
-- fail when the device answers with an exception.
pub mb_reads_answer :
    (txid slave_id fc address : ℕ) (line : Line) (c : Ctx)
    → fc ≤ 4
    → ((hi lo : ℕ)
        → Answered slave_id (fc ∷ 2 ∷ hi ∷ lo ∷ []) line c
        → (mb_read_register txid slave_id fc address line c).1 ≡ some (hi * 256 + lo))
      × ((v : ℕ)
          → Answered slave_id (fc ∷ 1 ∷ v ∷ []) line c
          → (mb_read_bit txid slave_id fc address line c).1 ≡ some (v % 2))
      × ((code : ℕ)
          → Answered slave_id ((fc + 128) ∷ code ∷ []) line c
          → ((mb_read_register txid slave_id fc address line c).1 ≡ none)
            × ((mb_read_bit txid slave_id fc address line c).1 ≡ none))
unfolding mb_read_register mb_read_bit register_of bit_of
mb_reads_answer txid slave_id fc address line c known =
    let request = read_pdu fc address in
    (
      λ hi lo h.
          rw
            (exchange-answer txid slave_id request _ line c (omega arith) (omega arith)
              (register-IsFrame slave_id fc hi lo known) h)
            (ground arith),
      λ v h.
          rw
            (exchange-answer txid slave_id request _ line c (omega arith) (omega arith)
              (bit-IsFrame slave_id fc v known) h)
            (ground arith),
      λ code h.
          let e =
            exchange-answer txid slave_id request _ line c (omega arith) (omega arith)
              (exception-IsFrame slave_id (fc + 128) code (omega arith)) h in
          rw e (ground arith, ground arith),
    )

-- A write that the device refuses with an exception is reported as a success.
pub mb_writes_exception :
    (txid slave_id address value fc code : ℕ) (line : Line) (c : Ctx)
    → 128 ≤ fc
    → Answered slave_id (fc ∷ code ∷ []) line c
    → ((mb_write_register txid slave_id address value line c).1 ≡ true)
      × ((mb_write_bit txid slave_id address value line c).1 ≡ true)
unfolding mb_write_register mb_write_bit
mb_writes_exception txid slave_id address value fc code line c high h =
    let frame = exception-IsFrame slave_id fc code high in
    (
      rw (exchange-answer txid slave_id _ _ line c (omega arith) (omega arith) frame h) refl,
      rw (exchange-answer txid slave_id _ _ line c (omega arith) (omega arith) frame h) refl,
    )
