-- ===== src/Sparkplug/Metric.antt =====
-- app/engine/sparkplug_pb.c and sparkplug_pb.h: datatypes and metrics. A `datatype` is the 32 bits of
-- the C int, and an `i64` the 64 bits of the C int64_t, both as a natural number.
use event_engine_acap.Prelude.{
  ℕ, Bool, true, false, ◌||◌, leb, ◌==◌, ◌&&◌, if◌then◌else◌, Option, none, some, List, [], ◌∷◌,
  Str, codes, strcase_eq, ℤ,
}
use event_engine_acap.Cjson.{is_set}

-- C doubles, what the codec does with them, and the numbers that libc reads and prints.
pub record Numbers (D : Type 0) : Type 0 where
  -- the bits of `(float) d` and of `d`
  pub float_bits : D → ℕ
  pub double_bits : D → ℕ
  -- `snprintf` with "%.9g" of the float of these bits, and with "%.17g" of the double
  pub print_float : ℕ → Str
  pub print_double : ℕ → Str
  -- `snprintf` with PRId64 and with PRIu64
  pub print_i64 : ℤ → Str
  pub print_u64 : ℕ → Str
  pub strtod : Str → D
  -- the bits of `(int64_t) d` and of `(int64_t)(uint64_t) d`
  pub i64_of : D → ℕ
  pub u64_of : D → ℕ
  -- the bits of `strtoll(text, NULL, 10)` and of `strtoull(text, NULL, 10)`
  pub strtoll : Str → ℕ
  pub strtoull : Str → ℕ

-- `SPB_Metric`
pub record Metric (D : Type 0) : Type 0 where
  pub name : Option Str
  pub alias : ℕ
  pub has_alias : Bool
  pub timestamp_ms : ℕ
  pub datatype : ℕ
  pub is_null : Bool
  pub is_historical : Bool
  pub i64 : ℕ
  pub dbl : D
  pub str : Option Str

-- `DT_NAMES`, with the values of `SPB_DataType`
abbrev pub dt_names : List (ℕ × Str)
dt_names =
    (1, codes "Int8")
    ∷ (2, codes "Int16")
    ∷ (3, codes "Int32")
    ∷ (4, codes "Int64")
    ∷ (5, codes "UInt8")
    ∷ (6, codes "UInt16")
    ∷ (7, codes "UInt32")
    ∷ (8, codes "UInt64")
    ∷ (9, codes "Float")
    ∷ (10, codes "Double")
    ∷ (11, codes "Boolean")
    ∷ (12, codes "String")
    ∷ (13, codes "DateTime")
    ∷ (14, codes "Text")
    ∷ (15, codes "UUID")
    ∷ []

unfoldable pub name_in : List (ℕ × Str) → ℕ → Str
name_in [] datatype = codes "Unknown"
name_in ((dt, name) ∷ rest) datatype = if dt == datatype then name else name_in rest datatype

unfoldable pub data_type_name : ℕ → Str
data_type_name datatype = name_in dt_names datatype

unfoldable pub type_in : List (ℕ × Str) → Str → ℕ
type_in [] name = 0
type_in ((dt, n) ∷ rest) name = if strcase_eq n name then dt else type_in rest name

unfoldable pub data_type_from_name : Option Str → ℕ
data_type_from_name none = 0
data_type_from_name (some name) = if is_set name then type_in dt_names name else 0

abbrev pub dt_is_signed_int : ℕ → Bool
dt_is_signed_int dt = leb 1 dt && leb dt 4

abbrev pub dt_is_unsigned_int : ℕ → Bool
dt_is_unsigned_int dt = (leb 5 dt && leb dt 8) || dt == 13

abbrev pub dt_is_string : ℕ → Bool
dt_is_string dt = dt == 12 || (dt == 14 || dt == 15)

-- The branches of the switch of `encode_value`: an integer of 8, 16 or 32 bits, one of 64 bits, a
-- float, a double, a boolean, a string, or none of these.
pub data ValueKind : Type 0 where
  int_value : ℕ → ValueKind
  long_value float_value double_value bool_value string_value no_value : ValueKind

-- The case labels of the switch.
unfoldable pub value_kind : ℕ → ValueKind
value_kind dt =
    if dt == 1 || dt == 5
    then int_value 8
    else if dt == 2 || dt == 6
    then int_value 16
    else if dt == 3 || dt == 7
    then int_value 32
    else if dt == 4 || (dt == 8 || dt == 13)
    then long_value
    else if dt == 9
    then float_value
    else if dt == 10
    then double_value
    else if dt == 11
    then bool_value
    else if dt_is_string dt
    then string_value
    else no_value

-- `strpbrk(text, ".eE")`
abbrev pub has_point : Str → Bool
has_point [] = false
has_point (b ∷ bs) = if b == b'.' || (b == b'e' || b == b'E') then true else has_point bs

abbrev pub is_yes : Str → Bool
is_yes text =
    strcase_eq text (codes "true")
    || (strcase_eq text (codes "1")
        || (strcase_eq text (codes "on") || strcase_eq text (codes "yes")))

abbrev pub text_of : Option Str → Str
text_of none = []
text_of (some text) = text

module _ {D : Type 0} (d : Numbers D) where
  -- `SPB_Metric_Set_Value` of a metric, on a text that may be NULL.
  unfoldable pub metric_set_value : Metric D → Option Str → Metric D
  metric_set_value m o =
      let text = text_of o in
      if dt_is_string m.datatype
      then record m { str = some text }
      else if m.datatype == 11
      then record m { i64 = if is_yes text then 1 else 0 }
      else if m.datatype == 9 || m.datatype == 10
      then record m { dbl = d.strtod text }
      else if dt_is_unsigned_int m.datatype
      then record m { i64 = if has_point text then d.u64_of (d.strtod text) else d.strtoull text }
      else record m { i64 = if has_point text then d.i64_of (d.strtod text) else d.strtoll text }
