-- ===== src/Modbus/Tests.antt =====
-- app/engine/modbus_pool.c: runs at concrete inputs, and the theorems at inputs that meet their
-- hypotheses.
use event_engine_acap.Prelude.{
  ◌≤◌, none, ℕ, ◌+◌, ◌*◌, ◌≡◌, ◌↔◌, refl, true, false, some, Option, List, [], ◌∷◌, codes, str_eq,
  strcase_eq, snprintf, pos, arith,
}
use event_engine_acap.Cjson.{json, Json}
use event_engine_acap.Modbus.Frames.{crc_bit, crc_bits, crc_from, crc16, rtu_frame, check_answer}
use event_engine_acap.Modbus.Requests.{
  mb_tcp, mb_rtu, Ctx, Line, ensure_connected, mb_read_register, mb_write_register, mb_write_bit,
}
use event_engine_acap.Modbus.Replies.{check_answer_iff}
use event_engine_acap.Modbus.Registers.{
  over_tcp, over_rtu, Answered, mb_reads_answer, mb_writes_exception,
}
use event_engine_acap.Modbus.Pool.{
  transport_of, decimal, decimal_from, empty_pool, key_of, modbus_pool_get, Pool,
}
use event_engine_acap.Modbus.Slots

abbrev new_tcp : Ctx
new_tcp = record {
  transport = mb_tcp;
  host = codes "plc";
  port = pos 502;
  device = [];
  baud = pos 0;
  parity = 0;
  opened = false;
  connected = false;
  key = codes "tcp:plc:502";
}

abbrev new_rtu : Ctx
new_rtu = record new_tcp { transport = mb_rtu; key = codes "rtu:/dev/ttyS1:9600:N" }

-- The checksum of the nine digits, a known value.
crc16_digits : crc16 (codes "123456789") ≡ 0x4B37
unfolding crc16 crc_from crc_bits crc_bit
crc16_digits = refl

decimal_port : decimal (pos 502) ≡ codes "502"
unfolding decimal decimal_from
decimal_port = refl

abbrev register_line : Line
register_line = record {
  connects = true;
  sent = true;
  chunks = (0 ∷ 1 ∷ 0 ∷ 0 ∷ 0 ∷ 5 ∷ []) ∷ (1 ∷ 3 ∷ 2 ∷ 1 ∷ 44 ∷ []) ∷ [];
}

register-Answered : Answered 1 (3 ∷ 2 ∷ 1 ∷ 44 ∷ []) register_line new_tcp
unfolding ensure_connected
register-Answered = record { ready = refl; sent = refl; arrives = over_tcp 0 1 0 0 1 [] refl }

mb_reads_answer_example : (mb_read_register 1 1 3 100 register_line new_tcp).1 ≡ some (1 * 256 + 44)
mb_reads_answer_example =
    (mb_reads_answer 1 1 3 100 register_line new_tcp (omega arith)).0 1 44 register-Answered

abbrev refusal_line : Line
refusal_line = record {
  connects = true;
  sent = true;
  chunks = (1 ∷ 0x86 ∷ []) ∷ (2 ∷ 0xC3 ∷ 0xA1 ∷ []) ∷ [];
}

refusal-Answered : Answered 1 (0x86 ∷ 2 ∷ []) refusal_line new_rtu
unfolding ensure_connected rtu_frame crc16 crc_from crc_bits crc_bit
refusal-Answered = record { ready = refl; sent = refl; arrives = over_rtu tt refl }

mb_writes_exception_example :
    ((mb_write_register 1 1 7 9 refusal_line new_rtu).1 ≡ true)
    × ((mb_write_bit 1 1 7 9 refusal_line new_rtu).1 ≡ true)
mb_writes_exception_example =
    mb_writes_exception 1 1 7 9 0x86 2 refusal_line new_rtu (omega arith) refusal-Answered

check_answer_iff_example :
    (check_answer 1 (1 ∷ 0x86 ∷ 2 ∷ 0xC3 ∷ 0xA1 ∷ []) ≡ some (0x86 ∷ 2 ∷ []))
    ↔ ((1 ≤ 2) × (◌≡◌ {A = List ℕ} (1 ∷ 0x86 ∷ 2 ∷ 0xC3 ∷ 0xA1 ∷ []) (rtu_frame 1 (0x86 ∷ 2 ∷ []))))
check_answer_iff_example =
    check_answer_iff 1 (1 ∷ 0x86 ∷ 2 ∷ 0xC3 ∷ 0xA1 ∷ []) (0x86 ∷ 2 ∷ []) (omega arith)

-- The frame of an empty PDU has the right checksum, and is too short.
empty_frame :
    (rtu_frame 1 [] ≡ 1 ∷ 0x7E ∷ 0x80 ∷ []) × (check_answer 1 (1 ∷ 0x7E ∷ 0x80 ∷ []) ≡ none)
unfolding rtu_frame check_answer crc16 crc_from crc_bits crc_bit
empty_frame = (refl, refl)

abbrev plc : Json
plc = json.add_item json.create_object (codes "host") (json.create_string (codes "plc"))

abbrev with_plc : Pool × Option ℕ
with_plc = modbus_pool_get json (some plc) empty_pool

modbus_pool_get-Got_example :
    Slots.Got json mb_tcp (key_of json mb_tcp plc) plc empty_pool with_plc
    × Slots.IsValid with_plc.0
    × ((i : ℕ) (cfg' : Json)
        → with_plc.1 ≡ some i
        → Slots.key_in json cfg' ≡ Slots.key_in json plc
        → modbus_pool_get json (some cfg') with_plc.0 ≡ (with_plc.0, some i))
unfolding transport_of str_eq strcase_eq
modbus_pool_get-Got_example = Slots.modbus_pool_get-Got json plc empty_pool Slots.empty_pool-IsValid

key_plc : key_of json mb_tcp plc ≡ codes "tcp:plc:502"
unfolding key_of decimal decimal_from snprintf strcase_eq
key_plc = refl
