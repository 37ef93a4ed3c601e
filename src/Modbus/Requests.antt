-- ===== src/Modbus/Requests.antt =====
-- app/engine/modbus_pool.c: reads and writes of registers and coils.
use event_engine_acap.Prelude.{
  ℕ, ◌+◌, ◌*◌, ◌/◌, ◌%◌, Bool, true, false, ◌&&◌, ltb, leb, ◌==◌, if◌then◌else◌, ℤ, Option, none,
  some, List, [], ◌∷◌, ◌++◌, Str, length, get_or,
}
use event_engine_acap.Modbus.Frames.{tcp_frame, tcp_request, rtu_frame, rtu_request, sgw_request}

-- `mb_transport_t`
pub data Transport : Type 0 where
  mb_tcp mb_rtu mb_serial_gw : Transport

-- `struct mb_ctx`; `opened` is `fd >= 0`.
pub record Ctx : Type 0 where
  pub transport : Transport
  pub host : Str
  pub port : ℤ
  pub device : Str
  pub baud : ℤ
  pub parity : ℕ
  pub opened : Bool
  pub connected : Bool
  pub key : Str

-- What a request meets: whether a connection can be made, whether the frame is sent whole, and what
-- the calls that read the answer return.
pub record Line : Type 0 where
  pub connects : Bool
  pub sent : Bool
  pub chunks : List (List ℕ)

abbrev pub joined : List (List ℕ) → List ℕ
joined [] = []
joined (bs ∷ chunks) = bs ++ joined chunks

-- The connection, and whether there is one.
unfoldable pub ensure_connected : Bool → Ctx → Ctx × Bool
ensure_connected connects c =
    if c.connected && c.opened
    then (c, true)
    else if connects
    then (record c { opened = true; connected = true }, true)
    else (record c { opened = false }, false)

-- The frame that is sent, and the PDU of the answer.
unfoldable pub do_request : Ctx → ℕ → ℕ → List ℕ → Line → List ℕ × Option (List ℕ)
do_request c txid slave_id pdu line = elim (c.transport) [
  | mb_tcp ↦ (tcp_frame txid slave_id pdu, tcp_request line.sent (joined line.chunks))
  | mb_serial_gw ↦ (rtu_frame slave_id pdu, sgw_request slave_id line.sent line.chunks)
  | mb_rtu ↦ (rtu_frame slave_id pdu, rtu_request slave_id line.sent line.chunks)
]

-- The connection after a request, the next transaction number, the frame that was sent, and the
-- PDU of the answer.
pub record Exchange : Type 0 where
  pub ctx : Ctx
  pub txid : ℕ
  pub frame : Option (List ℕ)
  pub answer : Option (List ℕ)

abbrev pub next_txid : Transport → ℕ → ℕ
next_txid mb_tcp txid = (txid + 1) % 65536
next_txid mb_rtu txid = txid
next_txid mb_serial_gw txid = txid

-- The part that the four operations share.
unfoldable pub exchange : ℕ → ℕ → List ℕ → Line → Ctx → Exchange
exchange txid slave_id pdu line c =
    let (c', ready) = ensure_connected line.connects c in
    let (frame, answer) = do_request c' txid slave_id pdu line in
    if ready
    then record {
      ctx = c';
      txid = next_txid c'.transport txid;
      frame = some frame;
      answer = answer;
    }
    else record { ctx = c'; txid = txid; frame = none; answer = none }

abbrev pub u16_be : ℕ → List ℕ
u16_be v = v / 256 % 256 ∷ v % 256 ∷ []

unfoldable pub read_pdu : ℕ → ℕ → List ℕ
read_pdu fc address = fc % 256 ∷ u16_be address ++ (0 ∷ 1 ∷ [])

unfoldable pub register_of : Option (List ℕ) → Option ℕ
register_of none = none
register_of (some resp) =
    if ltb (length resp) 4
    then none
    else if leb 128 (get_or resp 0 0)
    then none
    else some (get_or resp 2 0 * 256 + get_or resp 3 0)

unfoldable pub bit_of : Option (List ℕ) → Option ℕ
bit_of none = none
bit_of (some resp) =
    if ltb (length resp) 3
    then none
    else if leb 128 (get_or resp 0 0)
    then none
    else some (get_or resp 2 0 % 2)

unfoldable pub mb_read_register : ℕ → ℕ → ℕ → ℕ → Line → Ctx → Exchange × Option ℕ
mb_read_register txid slave_id fc address line c =
    let x = exchange txid slave_id (read_pdu fc address) line c in (x, register_of x.answer)

unfoldable pub mb_read_bit : ℕ → ℕ → ℕ → ℕ → Line → Ctx → Exchange × Option ℕ
mb_read_bit txid slave_id fc address line c =
    let x = exchange txid slave_id (read_pdu fc address) line c in (x, bit_of x.answer)

abbrev pub succeeded : Option (List ℕ) → Bool
succeeded none = false
succeeded (some resp) = true

-- The result of a write is that of the request.
unfoldable pub mb_write_register : ℕ → ℕ → ℕ → ℕ → Line → Ctx → Exchange × Bool
mb_write_register txid slave_id address value line c =
    let x = exchange txid slave_id (0x06 ∷ u16_be address ++ u16_be value) line c in
    (x, succeeded x.answer)

unfoldable pub mb_write_bit : ℕ → ℕ → ℕ → ℕ → Line → Ctx → Exchange × Bool
mb_write_bit txid slave_id address value line c =
    let v = if value == 0 then 0 else 0xFF00 in
    let x = exchange txid slave_id (0x05 ∷ u16_be address ++ u16_be v) line c in
    (x, succeeded x.answer)

-- `modbus_pool_invalidate`
unfoldable pub modbus_pool_invalidate : Ctx → Ctx
modbus_pool_invalidate c = record c { opened = false; connected = false }
