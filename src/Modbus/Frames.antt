-- ===== src/Modbus/Frames.antt =====
-- app/engine/modbus_pool.c: the checksum, and a request over TCP and over RTU.
use event_engine_acap.Prelude.{
  ℕ, zero, suc, ◌+◌, ◌*◌, ◌-◌, ◌/◌, ◌%◌, Bool, ◌&&◌, ◌||◌, ltb, leb, ◌==◌, if◌then◌else◌, Option,
  none, some, List, [], ◌∷◌, ◌++◌, length, take, drop, get_or,
}
use Prim.Native.Nat.{bit_xor}

-- One bit of the inner loop of `crc16`. The checksum has 16 bits.
unfoldable pub crc_bit : ℕ → ℕ
crc_bit crc = (if crc % 2 == 1 then bit_xor (crc / 2) 0xA001 else crc / 2) % 65536

-- The inner loop, for `n` more bits.
unfoldable pub crc_bits : ℕ → ℕ → ℕ
crc_bits zero crc = crc
crc_bits (suc n) crc = crc_bits n (crc_bit crc)

unfoldable pub crc_from : ℕ → List ℕ → ℕ
crc_from crc [] = crc
crc_from crc (b ∷ bs) = crc_from (crc_bits 8 (bit_xor crc b % 65536)) bs

unfoldable pub crc16 : List ℕ → ℕ
crc16 bs = crc_from 0xFFFF bs

-- `tcp_request`: the frame of a request with its transaction number.
unfoldable pub tcp_frame : ℕ → ℕ → List ℕ → List ℕ
tcp_frame txid slave_id pdu =
    let len = (1 + length pdu) % 65536 in
    txid / 256 % 256 ∷ txid % 256 ∷ 0 ∷ 0 ∷ len / 256 % 256 ∷ len % 256 ∷ slave_id % 256 ∷ pdu

-- The answer to a request: `stream` is what arrives on the socket, and the result is the PDU.
unfoldable pub tcp_answer : List ℕ → Option (List ℕ)
tcp_answer stream =
    let rlen = get_or stream 4 0 * 256 + get_or stream 5 0 in
    if ltb (length stream) 6
    then none
    else if ltb rlen 2 || ltb 253 rlen
    then none
    else if ltb (length (drop 6 stream)) rlen
    then none
    else some (drop 1 (take rlen (drop 6 stream)))

unfoldable pub tcp_request : Bool → List ℕ → Option (List ℕ)
tcp_request sent stream = if sent then tcp_answer stream else none

-- The frame of a request over RTU: address, PDU and checksum.
unfoldable pub rtu_frame : ℕ → List ℕ → List ℕ
rtu_frame slave_id pdu =
    let front = slave_id % 256 ∷ pdu in front ++ (crc16 front % 256 ∷ crc16 front / 256 % 256 ∷ [])

-- The size of `rbuf`.
abbrev pub rbuf_size : ℕ
rbuf_size = 256

-- How long the frame that starts like this is.
unfoldable pub expected : List ℕ → ℕ
expected got =
    let r1 = get_or got 1 0 in
    if leb 128 r1 then 5 else if leb (r1 % 128) 4 then 3 + get_or got 2 0 + 2 else 8

-- `got >= 5` and `got >= expected`
unfoldable pub is_whole : List ℕ → Bool
is_whole got = leb 5 (length got) && leb (expected got) (length got)

-- The loop that reads an answer. `chunks` are what the calls of `read` return, an empty one for a
-- timeout or a failure; a call returns at most what fits the buffer.
unfoldable pub read_answer : List (List ℕ) → List ℕ → List ℕ
read_answer [] got = got
read_answer ([] ∷ chunks) got = got
read_answer ((b ∷ bs) ∷ chunks) got =
    let got' = got ++ take (rbuf_size - length got) (b ∷ bs) in
    let more = read_answer chunks got' in
    if leb rbuf_size (length got) then got else if is_whole got' then got' else more

-- The checks on an answer, and the PDU of it.
unfoldable pub check_answer : ℕ → List ℕ → Option (List ℕ)
check_answer slave_id got =
    let n = length got in
    let rx_crc = get_or got (n - 1) 0 * 256 + get_or got (n - 2) 0 in
    if ltb n 4
    then none
    else if crc16 (take (n - 2) got) == rx_crc
    then (if get_or got 0 0 == slave_id % 256 then some (take (n - 3) (drop 1 got)) else none)
    else none

unfoldable pub rtu_request : ℕ → Bool → List (List ℕ) → Option (List ℕ)
rtu_request slave_id sent chunks =
    if sent then check_answer slave_id (read_answer chunks []) else none

-- The same frames over a socket.
unfoldable pub sgw_request : ℕ → Bool → List (List ℕ) → Option (List ℕ)
sgw_request slave_id sent chunks =
    if sent then check_answer slave_id (read_answer chunks []) else none
