-- ===== src/Examples/Decimals.antt =====
-- A value that decimals.py reads and writes again, and one that it refuses.
use hanyangchem_qc_v.Base.{ℕ, ◌+◌, ◌≤◌, ◌≡◌, refl, ok, false, [], ◌∷◌, List, length, arith}
use hanyangchem_qc_v.Base.Int.{negsuc}
use hanyangchem_qc_v.PyDecimal.{finite}
use hanyangchem_qc_v.PyDecimal.Digits.{digits, digits_value}
use hanyangchem_qc_v.Decimals.{
  DecimalValue, text, parse, canonical, parse_text, canonical_matches, to_decimal, span_digits,
}
use hanyangchem_qc_v.Decimals.RoundTrip.{parse-canonical}

-- 99.50
abbrev purity_text : List ℕ
purity_text = b'9' ∷ b'9' ∷ b'.' ∷ b'5' ∷ b'0' ∷ []

abbrev purity_value : DecimalValue
purity_value = record { value = finite false 9950 (negsuc 1) }

purity_text-parsed : parse (text purity_text) ≡ ok purity_value
unfolding parse parse_text canonical_matches to_decimal span_digits digits_value
purity_text-parsed = refl

parse-canonical_example : parse (text (canonical purity_value)) ≡ ok purity_value
parse-canonical_example = parse-canonical (text purity_text) purity_value purity_text-parsed

zero-short : length (digits 0) + 6 ≤ 12
unfolding digits
zero-short = omega arith
