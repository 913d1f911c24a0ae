-- ===== src/PyDecimal/Digits.antt =====
-- Decimal digits as text: of a number, of a fixed count, and the number that digits stand for.
pub mod Value
use hanyangchem_qc_v.Base.{
  ℕ, zero, suc, ◌+◌, ◌-◌, ◌*◌, ◌/◌, ◌%◌, Bool, ◌&&◌, List, [], ◌∷◌, ltb, leb, if◌then◌else◌,
}

abbrev pub is_digit : ℕ → Bool
is_digit c = leb b'0' c && leb c b'9'

-- The digits of `n` in front of `rest`; a number has no more digits than its own size, and one.
digits_from : ℕ → ℕ → List ℕ → List ℕ
digits_from zero n rest = rest
digits_from (suc f) n rest =
    let more = digits_from f (n / 10) ((b'0' + n % 10) ∷ rest) in
    if ltb n 10 then (b'0' + n) ∷ rest else more

unfoldable pub digits : ℕ → List ℕ
unfolding digits_from
digits n = digits_from (suc n) n []

-- The last `k` digits of `n`, with leading zeros.
fixed_from : ℕ → ℕ → List ℕ → List ℕ
fixed_from zero n rest = rest
fixed_from (suc k) n rest = fixed_from k (n / 10) ((b'0' + n % 10) ∷ rest)

unfoldable pub fixed_digits : ℕ → ℕ → List ℕ
unfolding fixed_from
fixed_digits k n = fixed_from k n []

-- `int(text)` for digits.
pub value_from : ℕ → List ℕ → ℕ
value_from acc [] = acc
value_from acc (c ∷ cs) = value_from (acc * 10 + (c - b'0')) cs

unfoldable pub digits_value : List ℕ → ℕ
unfolding value_from
digits_value = value_from 0
