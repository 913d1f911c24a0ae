-- ===== src/PyDecimal.antt =====
-- Python's `decimal.Decimal`, as far as the backend uses it: the numbers, their order, their text,
-- and the arithmetic of a context with a precision and rounding half to even. A context's bounds
-- on the exponent (999999 digits away) are left out; not-a-number has no payload.
pub mod Digits
pub mod Order
pub mod Arithmetic
use hanyangchem_qc_v.Base.{
  ℕ, zero, suc, ◌+◌, ◌-◌, ◌*◌, ◌/◌, ◌%◌, ◌^◌, Bool, true, false, not, ◌&&◌, ◌||◌, Option, none,
  some, List, [], ◌∷◌, ◌++◌, length, ltb, leb, ◌==◌, if◌then◌else◌,
}
use hanyangchem_qc_v.Base.Int.{ℤ, pos, negsuc, pos_part, neg_part, sub_ℕ}
use Digits.{digits, fixed_digits}

-- The sign (true below zero), the coefficient and the exponent.
pub data Decimal : Type 0 where
  finite : Bool → ℕ → ℤ → Decimal
  infinite : Bool → Decimal
  not_a_number : Decimal

abbrev pub is_finite : Decimal → Bool
is_finite (finite s c e) = true
is_finite _ = false

abbrev pub is_zero : Decimal → Bool
is_zero (finite s c e) = c == 0
is_zero _ = false

abbrev pub is_signed : Decimal → Bool
is_signed (finite s c e) = s
is_signed (infinite s) = s
is_signed not_a_number = false

-- A finite number is (above - below) / unit.
abbrev pub above : Decimal → ℕ
above (finite false c e) = c * 10 ^ pos_part e
above _ = 0

abbrev pub below : Decimal → ℕ
below (finite true c e) = c * 10 ^ pos_part e
below _ = 0

abbrev pub unit : Decimal → ℕ
unit (finite s c e) = 10 ^ neg_part e
unit _ = 1

-- `x <= y`, `x < y` and `x == y` of finite numbers.
unfoldable pub dec_leb : Decimal → Decimal → Bool
dec_leb x y = leb (above x * unit y + below y * unit x) (above y * unit x + below x * unit y)

unfoldable pub dec_ltb : Decimal → Decimal → Bool
dec_ltb x y = ltb (above x * unit y + below y * unit x) (above y * unit x + below x * unit y)

unfoldable pub dec_eq : Decimal → Decimal → Bool
dec_eq x y = above x * unit y + below y * unit x == above y * unit x + below x * unit y

abbrev pub dec_zero : Decimal
dec_zero = finite false 0 (pos 0)

abbrev minus : List ℕ
minus = b'-' ∷ []

abbrev pub with_sign : Bool → List ℕ → List ℕ
with_sign s t = if s then b'-' ∷ t else t

-- `format(x, "f")` of a finite number whose exponent is at most 0, at -k: the whole part, and k
-- digits after the point.
abbrev pub fixed_point : ℕ → ℕ → List ℕ
fixed_point c k = digits (c / 10 ^ k) ++ (if k == 0 then [] else b'.' ∷ fixed_digits k (c % 10 ^ k))

unfoldable pub format_f : Decimal → List ℕ
format_f (finite s c (pos e)) = with_sign s (fixed_point (c * 10 ^ e) 0)
format_f (finite s c (negsuc k)) = with_sign s (fixed_point c (suc k))
format_f (infinite s) = with_sign s (b'I' ∷ b'n' ∷ b'f' ∷ b'i' ∷ b'n' ∷ b'i' ∷ b't' ∷ b'y' ∷ [])
format_f not_a_number = b'N' ∷ b'a' ∷ b'N' ∷ []

-- The digits with the point behind the first, and the exponent.
abbrev pub mantissa : List ℕ → List ℕ
mantissa [] = []
mantissa (d ∷ []) = d ∷ []
mantissa (d ∷ e ∷ ds) = d ∷ b'.' ∷ e ∷ ds

abbrev pub exponent_text : ℤ → List ℕ
exponent_text (pos n) = b'E' ∷ b'+' ∷ digits n
exponent_text (negsuc n) = b'E' ∷ b'-' ∷ digits (suc n)

abbrev pub scientific : ℕ → ℤ → List ℕ
scientific c e =
    mantissa (digits c) ++ exponent_text (sub_ℕ (pos_part e + (length (digits c) - 1)) (neg_part e))

-- `str(x)` writes an exponent where it is positive, or where the first digit stands more than five
-- zeros behind the point.
unfoldable pub to_str : Decimal → List ℕ
unfolding format_f
to_str (finite s c (pos zero)) = format_f (finite s c (pos 0))
to_str (finite s c (pos (suc e))) = with_sign s (scientific c (pos (suc e)))
to_str (finite s c (negsuc k)) =
    if ltb (suc k) (length (digits c) + 6)
    then format_f (finite s c (negsuc k))
    else with_sign s (scientific c (negsuc k))
to_str x = format_f x
