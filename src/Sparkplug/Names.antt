-- ===== src/Sparkplug/Names.antt =====
-- app/engine/sparkplug_pb.c: the names of datatypes.
use event_engine_acap.Prelude.{
  ℕ, zero, suc, ◌≤◌, ◌≡◌, refl, Bool, true, ◌&&◌, ◌==◌, some, sym, subst, strcase_eq, arith, dec_le,
}
use event_engine_acap.Sparkplug.Metric.{data_type_name, data_type_from_name, name_in, type_in}

abbrev found_again : ℕ → Bool
found_again dt = data_type_from_name (some (data_type_name dt)) == dt

abbrev all_found : ℕ → Bool
all_found zero = true
all_found (suc n) = found_again (suc n) && all_found n

all_found_lem : (n dt : ℕ) → all_found n ≡ true → 1 ≤ dt → dt ≤ n → found_again dt ≡ true
all_found_lem zero dt all h k = absurd (omega arith)
all_found_lem (suc n) dt all h k = elim (dec_le dt n) [
  | yes below ↦ all_found_lem n dt (ground arith) h below
  | no last ↦
      let top : dt ≡ suc n = omega arith in
      subst (λ m. found_again m ≡ true) (sym top) (ground arith)
]

fifteen_found : all_found 15 ≡ true
unfolding data_type_name data_type_from_name name_in type_in strcase_eq
fifteen_found = refl

-- `SPB_DataType_From_Name` of the name of a datatype, whose number is from 1 to 15, is that datatype.
pub data_type_from_name-data_type_name :
    (dt : ℕ) → 1 ≤ dt → dt ≤ 15 → data_type_from_name (some (data_type_name dt)) ≡ dt
data_type_from_name-data_type_name dt h k =
    let found = all_found_lem 15 dt fifteen_found h k in ground arith
