-- ===== src/PyDecimal/Arithmetic.antt =====
-- Arithmetic in a context: precision `prec`, rounding half to even. A signal that the context
-- traps is an error.
use hanyangchem_qc_v.Base.{
  ℕ, zero, suc, ◌+◌, ◌-◌, ◌*◌, ◌/◌, ◌%◌, ◌^◌, Bool, true, false, not, ◌||◌, length, ltb, leb, ◌==◌,
  if◌then◌else◌, Result, ok, err,
}
use hanyangchem_qc_v.Base.Int.{ℤ, pos, pos_part, neg_part, sub_ℕ, leb_ℤ}
use hanyangchem_qc_v.PyDecimal.{Decimal, finite, infinite, not_a_number}
use hanyangchem_qc_v.PyDecimal.Digits.{digits}

-- ArithmeticError.
pub data Trapped : Type 0 where
  trapped : Trapped

abbrev pub Computed : Type 0
Computed = Result Trapped Decimal

abbrev pub add_ℕ : ℤ → ℕ → ℤ
add_ℕ e d = sub_ℕ (pos_part e + d) (neg_part e)

abbrev pub plus_ℤ : ℤ → ℤ → ℤ
plus_ℤ a b = sub_ℕ (pos_part a + pos_part b) (neg_part a + neg_part b)

abbrev pub minus_ℤ : ℤ → ℤ → ℤ
minus_ℤ a b = sub_ℕ (pos_part a + neg_part b) (neg_part a + pos_part b)

-- The quotient `q` with remainder `r` of a division by `m`, rounded half to even.
abbrev pub half_even : ℕ → ℕ → ℕ → ℕ
half_even q r m =
    if ltb (2 * r) m then q else if ltb m (2 * r) then q + 1 else if q % 2 == 0 then q else q + 1

unfoldable pub num_digits : ℕ → ℕ
num_digits c = length (digits c)

-- A result rounded to the precision.
unfoldable pub fix : ℕ → Bool → ℕ → ℤ → Decimal
unfolding num_digits
fix prec s c e =
    let d = num_digits c - prec in
    let q = half_even (c / 10 ^ d) (c % 10 ^ d) (10 ^ d) in
    if d == 0
    then finite s c e
    else if ltb prec (num_digits q)
    then finite s (q / 10) (add_ℕ e (d + 1))
    else finite s q (add_ℕ e d)

abbrev xor_sign : Bool → Bool → Bool
xor_sign true b = not b
xor_sign false b = b

unfoldable pub mul : ℕ → Decimal → Decimal → Computed
unfolding fix
mul prec (finite s c e) (finite t d f) = ok (fix prec (xor_sign s t) (c * d) (plus_ℤ e f))
mul prec x y = err trapped

-- Trailing zeros taken off while the exponent is below the ideal one.
reduce_to : ℕ → ℕ → ℤ → ℤ → ℕ × ℤ
reduce_to zero c e ideal = (c, e)
reduce_to (suc f) c e ideal =
    let rest = reduce_to f (c / 10) (add_ℕ e 1) ideal in
    if leb_ℤ ideal e || not (c % 10 == 0) then (c, e) else rest

-- A quotient with more digits than the precision; a digit that is no tie marks an inexact one.
div_digits : ℕ → ℕ → ℤ → ℕ → ℤ → ℕ × ℤ
unfolding reduce_to num_digits
div_digits prec c e d f =
    let shift = sub_ℕ (num_digits d + prec + 1) (num_digits c) in
    let dividend = c * 10 ^ pos_part shift in
    let divisor = d * 10 ^ neg_part shift in
    let q = dividend / divisor in
    let ideal = minus_ℤ e f in
    if dividend % divisor == 0
    then reduce_to (num_digits q) q (minus_ℤ ideal shift) ideal
    else ((if q % 5 == 0 then q + 1 else q), minus_ℤ ideal shift)

unfoldable pub div : ℕ → Decimal → Decimal → Computed
unfolding fix div_digits
div prec (finite s c e) (finite t zero f) = err trapped
div prec (finite s zero e) (finite t (suc d) f) = ok (fix prec (xor_sign s t) 0 (minus_ℤ e f))
div prec (finite s (suc c) e) (finite t (suc d) f) =
    let (q, g) = div_digits prec (suc c) e (suc d) f in ok (fix prec (xor_sign s t) q g)
div prec x y = err trapped

-- The coefficient at the exponent `low`, which is not above the number's own.
abbrev coefficient_at : ℤ → ℕ → ℤ → ℕ
coefficient_at low c e = c * 10 ^ pos_part (minus_ℤ e low)

-- A sum of signed coefficients; a zero is below zero only if both parts are.
abbrev signed_sum : Bool → ℕ → Bool → ℕ → Bool × ℕ
signed_sum true a true b = (true, a + b)
signed_sum false a false b = (false, a + b)
signed_sum true a false b = if leb a b then (false, b - a) else (true, a - b)
signed_sum false a true b = if leb b a then (false, a - b) else (true, b - a)

unfoldable pub add : ℕ → Decimal → Decimal → Computed
unfolding fix
add prec (finite s c e) (finite t d f) =
    let low = if leb_ℤ e f then e else f in
    let (sign, sum) = signed_sum s (coefficient_at low c e) t (coefficient_at low d f) in
    ok (fix prec sign sum low)
add prec x y = err trapped

abbrev pub negated : Decimal → Decimal
negated (finite s c e) = finite (not s) c e
negated (infinite s) = infinite (not s)
negated not_a_number = not_a_number

unfoldable pub sub : ℕ → Decimal → Decimal → Computed
unfolding add
sub prec x y = add prec x (negated y)

unfoldable pub abs : ℕ → Decimal → Computed
unfolding fix
abs prec (finite s c e) = ok (fix prec false c e)
abs prec x = err trapped

-- `x.quantize(Decimal(1).scaleb(-scale))`: the number with `scale` digits behind the point, an
-- error if its coefficient is longer than the precision.
abbrev pub rescaled : ℤ → ℕ → ℤ → ℕ
rescaled scale c e =
    let k = plus_ℤ e scale in
    let m = 10 ^ neg_part k in half_even (c * 10 ^ pos_part k / m) (c * 10 ^ pos_part k % m) m

unfoldable pub quantize : ℕ → ℤ → Decimal → Computed
unfolding num_digits
quantize prec scale (finite s c e) =
    let q = rescaled scale c e in
    if ltb prec (num_digits q) then err trapped else ok (finite s q (minus_ℤ (pos 0) scale))
quantize prec scale x = err trapped
