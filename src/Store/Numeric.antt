-- ===== src/Store/Numeric.antt =====
-- `StrictNumeric` of backend/src/hyc_data/models.py: a column NUMERIC(24, 12). What is written is
-- read back with twelve places, rounded half away from zero, and without the sign of a zero. A number
-- of more than twelve digits before the point, once it is rounded, is refused, and so is an infinite
-- one; not-a-number is kept.
use hanyangchem_qc_v.Base.{
  ℕ, suc, ◌+◌, ◌-◌, ◌*◌, ◌/◌, ◌%◌, ◌^◌, Bool, true, false, not, ◌&&◌, ltb, leb, ◌==◌, if◌then◌else◌,
}
use hanyangchem_qc_v.Base.Int.{ℤ, pos, negsuc}
use hanyangchem_qc_v.PyDecimal.{Decimal, finite, infinite, not_a_number}

abbrev half_away : ℕ → ℕ → ℕ → ℕ
half_away q r m = if ltb (2 * r) m then q else q + 1

-- The number in units of the twelfth place.
unfoldable pub scaled : ℕ → ℤ → ℕ
scaled c (pos e) = c * 10 ^ (e + 12)
scaled c (negsuc k) =
    if leb (suc k) 12
    then c * 10 ^ (12 - suc k)
    else half_away (c / 10 ^ (suc k - 12)) (c % 10 ^ (suc k - 12)) (10 ^ (suc k - 12))

-- What the column holds of a number that it takes.
unfoldable pub numeric : Decimal → Decimal
unfolding scaled
numeric (finite s c e) = let n = scaled c e in finite (s && not (n == 0)) n (negsuc 11)
numeric x = x

-- Whether the column takes the number.
unfoldable pub fits : Decimal → Bool
unfolding scaled
fits (finite s c e) = ltb (scaled c e) (10 ^ 24)
fits (infinite s) = false
fits not_a_number = true
