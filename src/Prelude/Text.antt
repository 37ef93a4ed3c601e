-- ===== src/Prelude/Text.antt =====
-- C strings as the list of their bytes, without the closing NUL.
use Prim.Native.Nat.{ℕ, ◌+◌, ◌-◌, ◌<◌, compare, Ordering}
use Prim.Native.Char.{code}
use Prim.Native.String.{String}
use mathlib.Core.Path.{◌≡◌, refl}
use mathlib.Core.Logic.{◌↔◌}
use mathlib.Core.Bool.{Bool, true, false, ◌&&◌}
use mathlib.Core.List.{List, [], ◌∷◌}
use mathlib.Core.Option.{Option, none, some}
use native.Mathlib.Omega.{arith}
use event_engine_acap.Prelude.Tests.{◌==◌, if◌then◌else◌, leb}
use event_engine_acap.Prelude.Lists.{take, length, take_all}

abbrev pub Str : Type 0
Str = List ℕ

-- The bytes of a literal in the source. `String` has its own `[]` and `∷`.
abbrev pub codes : String → Str
codes String.[] = []
codes (String.◌∷◌ c s) = code c ∷ codes s

-- `strcmp(a, b)`, by its sign.
unfoldable pub strcmp : Str → Str → Ordering
strcmp [] [] = Ordering.eq
strcmp [] (b ∷ bs) = Ordering.lt
strcmp (a ∷ as') [] = Ordering.gt
strcmp (a ∷ as') (b ∷ bs) = elim (compare a b) [
  | Ordering.lt ↦ Ordering.lt
  | Ordering.eq ↦ strcmp as' bs
  | Ordering.gt ↦ Ordering.gt
]

-- `strcmp(a, b) == 0`
unfoldable pub str_eq : Str → Str → Bool
str_eq [] [] = true
str_eq [] (b ∷ bs) = false
str_eq (a ∷ as') [] = false
str_eq (a ∷ as') (b ∷ bs) = a == b && str_eq as' bs

-- `tolower` in the C locale.
unfoldable pub lower : ℕ → ℕ
lower c = if leb b'A' c && leb c b'Z' then c + 32 else c

-- `strcasecmp(a, b) == 0`
unfoldable pub strcase_eq : Str → Str → Bool
unfolding lower
strcase_eq [] [] = true
strcase_eq [] (b ∷ bs) = false
strcase_eq (a ∷ as') [] = false
strcase_eq (a ∷ as') (b ∷ bs) = lower a == lower b && strcase_eq as' bs

pub str_eq_refl : (a : Str) → str_eq a a ≡ true
unfolding str_eq
str_eq_refl [] = refl
str_eq_refl (a ∷ as') = ground (arith, str_eq_refl as')

pub eq_of_str_eq : (a b : Str) → str_eq a b ≡ true → a ≡ b
unfolding str_eq
eq_of_str_eq [] [] h = refl
eq_of_str_eq [] (b ∷ bs) h = ground arith
eq_of_str_eq (a ∷ as') [] h = ground arith
eq_of_str_eq (a ∷ as') (b ∷ bs) h = ground (arith, eq_of_str_eq as' bs)

pub str_eq_iff : (a b : Str) → (str_eq a b ≡ true) ↔ (a ≡ b)
str_eq_iff a b = (eq_of_str_eq a b, λ e. ground (arith, str_eq_refl b))

pub str_eq_iff_strcmp : (a b : Str) → (str_eq a b ≡ true) ↔ (strcmp a b ≡ Ordering.eq)
unfolding str_eq strcmp
str_eq_iff_strcmp [] [] = ground arith
str_eq_iff_strcmp [] (b ∷ bs) = ground arith
str_eq_iff_strcmp (a ∷ as') [] = ground arith
str_eq_iff_strcmp (a ∷ as') (b ∷ bs) = ground (arith, str_eq_iff_strcmp as' bs)

-- `snprintf(dst, size, "%s", s)`: at most `size - 1` bytes are kept.
unfoldable pub snprintf : ℕ → Str → Str
snprintf size s = take (size - 1) s

-- `snprintf(dst, size, "%s", s ? s : d)`
unfoldable pub snprintf_or : ℕ → Option Str → Str → Str
snprintf_or size none d = snprintf size d
snprintf_or size (some s) d = snprintf size s

-- A string that fits is kept whole.
pub snprintf_fits : (size : ℕ) (s : Str) → length s < size → snprintf size s ≡ s
unfolding snprintf
snprintf_fits size s h = take_all (size - 1) s (omega arith)
