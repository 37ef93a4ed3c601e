-- ===== src/Modbus/Pool.antt =====
-- app/engine/modbus_pool.c: the pool of connections, found by their settings.
use event_engine_acap.Prelude.{
  ℕ, zero, suc, ◌+◌, ◌/◌, ◌%◌, Bool, true, false, ltb, if◌then◌else◌, ℤ, pos, negsuc, Option, none,
  some, List, [], ◌∷◌, ◌++◌, Str, codes, str_eq, snprintf, snprintf_or, set, replicate, get_or,
}
use event_engine_acap.Cjson.{Cjson, string_of, number_or}
use event_engine_acap.Table.{index_of}
use event_engine_acap.Modbus.Requests.{Transport, mb_tcp, mb_rtu, mb_serial_gw, Ctx}

-- `POOL_MAX`
abbrev pub pool_max : ℕ
pool_max = 16

-- The digits of a number, in at most as many steps as the first argument.
unfoldable pub decimal_from : ℕ → ℕ → Str
decimal_from zero n = []
decimal_from (suc steps) n =
    let front = decimal_from steps (n / 10) in
    if ltb n 10 then (n + b'0') ∷ [] else front ++ ((n % 10 + b'0') ∷ [])

-- "%d"
unfoldable pub decimal : ℤ → Str
decimal (pos n) = decimal_from (suc n) n
decimal (negsuc n) = b'-' ∷ decimal_from (suc (suc n)) (suc n)

-- A slot that is not in `pool_used` is `none`.
abbrev pub Pool : Type 0
Pool = List (Option Ctx)

abbrev pub slot_free : Option Ctx → Bool
slot_free none = true
slot_free (some c) = false

abbrev pub slot_has : Str → Option Ctx → Bool
slot_has key none = false
slot_has key (some c) = str_eq c.key key

unfoldable pub empty_pool : Pool
empty_pool = replicate pool_max none

unfoldable pub transport_of : Option Str → Transport
transport_of none = mb_tcp
transport_of (some ctype) =
    if str_eq ctype (codes "rtu")
    then mb_rtu
    else if str_eq ctype (codes "serial_gateway")
    then mb_serial_gw
    else mb_tcp

abbrev pub or_default : Option Str → Str → Str
or_default none d = d
or_default (some s) d = s

-- `(parity && parity[0]) ? parity : "N"`
abbrev pub parity_or_n : Option Str → Str
parity_or_n none = codes "N"
parity_or_n (some []) = codes "N"
parity_or_n (some (p ∷ ps)) = p ∷ ps

module _ {J D : Type 0} (cj : Cjson J D) where
  unfoldable pub key_of : Transport → J → Str
  key_of mb_rtu cfg = snprintf 256 (
      codes "rtu:"
      ++ (or_default (string_of cj cfg (codes "device")) (codes "/dev/ttyS1")
          ++ (b':'
              ∷ (decimal (number_or cj cfg (codes "baud") (pos 9600))
                  ++ (b':' ∷ parity_or_n (string_of cj cfg (codes "parity")))))))
  key_of other cfg = snprintf 256 (
      elim other [ mb_serial_gw ↦ codes "sgw" | _ ↦ codes "tcp" ]
      ++ (b':'
          ∷ (or_default (string_of cj cfg (codes "host")) (codes "127.0.0.1")
              ++ (b':' ∷ decimal (number_or cj cfg (codes "port") (pos 502))))))

  unfoldable pub new_ctx : Transport → Str → J → Ctx
  new_ctx mb_rtu key cfg = record {
    transport = mb_rtu;
    host = [];
    port = pos 0;
    device = snprintf_or 64 (string_of cj cfg (codes "device")) (codes "/dev/ttyS1");
    baud = number_or cj cfg (codes "baud") (pos 9600);
    parity = get_or (parity_or_n (string_of cj cfg (codes "parity"))) 0 b'N';
    opened = false;
    connected = false;
    key = key;
  }
  new_ctx other key cfg = record {
    transport = other;
    host = snprintf_or 128 (string_of cj cfg (codes "host")) (codes "127.0.0.1");
    port = number_or cj cfg (codes "port") (pos 502);
    device = [];
    baud = pos 0;
    parity = 0;
    opened = false;
    connected = false;
    key = key;
  }

  -- The slot of the key: the one that has it, else the first that is free, if any is.
  unfoldable pub get_slot : Transport → Str → J → Pool → Pool × Option ℕ
  get_slot transport key cfg pool = elim (index_of (slot_has key) pool) [
    | some i ↦ (pool, some i)
    | none ↦ elim (index_of slot_free pool) [
      | none ↦ (pool, none)
      | some i ↦ (set pool i (some (new_ctx transport key cfg)), some i)
    ]
  ]

  -- `cfg` is `none` for NULL, and the result is the number of the slot.
  unfoldable pub modbus_pool_get : Option J → Pool → Pool × Option ℕ
  modbus_pool_get none pool = (pool, none)
  modbus_pool_get (some cfg) pool =
      let transport = transport_of (string_of cj cfg (codes "connection_type")) in
      get_slot transport (key_of transport cfg) cfg pool

unfoldable pub modbus_pool_release_all : Pool → Pool
modbus_pool_release_all [] = []
modbus_pool_release_all (slot ∷ pool) = none ∷ modbus_pool_release_all pool
