-- ===== src/Decimals/RoundTrip.antt =====
-- About `parse` and `canonical` of decimals.py, one after the other.
use hanyangchem_qc_v.Base.{
  ℕ, zero, suc, ◌*◌, ◌/◌, ◌%◌, ◌^◌, ◌≡◌, refl, sym, ap, subst, ◌∙◌, Bool, true, false, ◌&&◌, List,
  [], ◌∷◌, ◌++◌, all, length, is_empty, arith, ◌==◌, &&-true, Result, ok,
}
use mathlib.Core.List.{append-nil}
use native.Mathlib.Nat.{div-add-mod, mod-mod}
use hanyangchem_qc_v.Base.Int.{ℤ, pos, negsuc, pos_part, sub_ℕ}
use hanyangchem_qc_v.PyDecimal.{
  Decimal, finite, infinite, not_a_number, is_zero, is_signed, format_f, to_str, fixed_point,
  with_sign,
}
use hanyangchem_qc_v.PyDecimal.Digits.{digits, fixed_digits, is_digit, digits_value}
use hanyangchem_qc_v.PyDecimal.Digits.Value.{
  digits_value-digits, digits_value-shifted, all-digits, all-fixed_digits, length-fixed_digits,
  leads-digits, leads,
}
use hanyangchem_qc_v.Decimals.{
  Raw, text, decimal, other, DecimalError, DecimalValue, span_digits, whole_matches,
  fraction_matches, fraction_digits, has_minus, without_minus, to_decimal, parse_text, parse,
  canonical,
}

span-all : (xs : List ℕ) → all is_digit xs ≡ true → span_digits xs ≡ (xs, [])
unfolding span_digits
span-all [] h = refl
span-all (x ∷ xs) h =
    let (d, ds) = &&-true (is_digit x) (all is_digit xs) h in rw (d, span-all xs ds)

span-point :
    (xs ys : List ℕ) → all is_digit xs ≡ true → span_digits (xs ++ b'.' ∷ ys) ≡ (xs, b'.' ∷ ys)
unfolding span_digits
span-point [] ys h = refl
span-point (x ∷ xs) ys h =
    let (d, ds) = &&-true (is_digit x) (all is_digit xs) h in rw (d, span-point xs ys ds)

whole_matches-leads : (xs : List ℕ) → whole_matches xs ≡ leads xs
whole_matches-leads [] = refl
whole_matches-leads (c ∷ []) = refl
whole_matches-leads (c ∷ d ∷ ds) = refl

-- Digits begin with no minus.
unsigned :
    (xs ys : List ℕ)
    → all is_digit xs ≡ true
    → leads xs ≡ true
    → (has_minus (xs ++ ys) ≡ false) × (without_minus (xs ++ ys) ≡ xs ++ ys)
unsigned [] ys h k = cc
unsigned (x ∷ xs) ys h k = ground arith

-- What is read off a text that is a sign, a whole part and a rest.
module _ (s : Bool) (n : ℕ) (rest : List ℕ) where
  signed :
      (has_minus (with_sign s (digits n ++ rest)) ≡ s)
      × (without_minus (with_sign s (digits n ++ rest)) ≡ digits n ++ rest)
  signed = sign_cases s
    where
      sign_cases :
          (s : Bool)
          → (has_minus (with_sign s (digits n ++ rest)) ≡ s)
            × (without_minus (with_sign s (digits n ++ rest)) ≡ digits n ++ rest)
      sign_cases true = (refl, refl)
      sign_cases false = unsigned (digits n) rest (all-digits n) (leads-digits n)

  parse_text-parts :
      span_digits (digits n ++ rest) ≡ (digits n, rest)
      → fraction_matches rest ≡ true
      → let c = digits_value (digits n ++ fraction_digits rest) in
        (c == 0 && s) ≡ false
        → parse_text (with_sign s (digits n ++ rest))
          ≡ ok (record { value = finite s c (sub_ℕ 0 (length (fraction_digits rest))) })
  unfolding parse_text
  parse_text-parts split fraction nonneg =
      let (minus, plain) = signed in
      rw (plain, split, whole_matches-leads (digits n), leads-digits n, fraction, minus, nonneg)

-- An exponent that is not positive, and no negative zero.
abbrev pub IsExact : Decimal → Type 0
IsExact (finite s c e) = (pos_part e ≡ 0) × ((c == 0 && s) ≡ false)
IsExact _ = ⊥

abbrev parsed : Bool → ℕ → ℤ → Result DecimalError DecimalValue
parsed s c e = ok (record { value = finite s c e })

whole_text :
    (s : Bool) (c : ℕ)
    → (c == 0 && s) ≡ false
    → parse_text (with_sign s (fixed_point c 0)) ≡ parsed s c (pos 0)
whole_text s c h =
    parse_text-parts s (c / 1) [] (rw append-nil (span-all (digits (c / 1)) (all-digits (c / 1))))
      refl (rw same h)
    ∙ ap (λ d. parsed s d (pos 0)) same
  where
    same : digits_value (digits (c / 1) ++ []) ≡ c
    same = rw append-nil (digits_value-digits (c / 1) ∙ omega arith)

fraction_fixed : (k m : ℕ) → fraction_matches (b'.' ∷ fixed_digits (suc k) m) ≡ true
fraction_fixed k m = ground (
  arith,
  all-fixed_digits (suc k) m,
  not_empty (fixed_digits (suc k) m) (length-fixed_digits (suc k) m),
)
  where
    not_empty : (xs : List ℕ) → length xs ≡ suc k → is_empty xs ≡ false
    not_empty [] h = absurd (omega arith)
    not_empty (x ∷ xs) h = refl

point_text :
    (s : Bool) (c k : ℕ)
    → (c == 0 && s) ≡ false
    → parse_text (with_sign s (fixed_point c (suc k))) ≡ parsed s c (negsuc k)
point_text s c k h = rw suc_ne (
    parse_text-parts s (c / 10 ^ suc k) (b'.' ∷ fixed_digits (suc k) (c % 10 ^ suc k))
      (span-point (digits (c / 10 ^ suc k)) _ (all-digits (c / 10 ^ suc k)))
      (fraction_fixed k (c % 10 ^ suc k)) (rw same h)
    ∙ ap (λ d. parsed s d (sub_ℕ 0 (length (fixed_digits (suc k) (c % 10 ^ suc k))))) same
    ∙ ap (parsed s c) places)
  where
    same : digits_value (digits (c / 10 ^ suc k) ++ fixed_digits (suc k) (c % 10 ^ suc k)) ≡ c
    same =
        digits_value-shifted (c / 10 ^ suc k) (suc k) (c % 10 ^ suc k)
        ∙ omega (arith, div-add-mod c (10 ^ suc k), mod-mod c (10 ^ suc k))

    suc_ne : (suc k == 0) ≡ false
    suc_ne = ground arith

    places : sub_ℕ 0 (length (fixed_digits (suc k) (c % 10 ^ suc k))) ≡ negsuc k
    places = rw length-fixed_digits (ground arith)

exact_text : (d : Decimal) → IsExact d → parse_text (format_f d) ≡ ok (record { value = d })
unfolding format_f
exact_text (finite s c (pos zero)) h = rw times_one (whole_text s c h.1)
  where
    times_one : c * 10 ^ 0 ≡ c
    times_one = omega arith
exact_text (finite s c (pos (suc e))) h = absurd (omega arith)
exact_text (finite s c (negsuc k)) h = point_text s c k h.1
exact_text (infinite s) h = absurd h
exact_text not_a_number h = absurd h

sub_exact : (k : ℕ) → pos_part (sub_ℕ 0 k) ≡ 0
sub_exact k = ground arith

accepted_value :
    (t : List ℕ) (v : DecimalValue)
    → parse_text t ≡ ok v
    → (v.value ≡ to_decimal t) × ((is_zero (to_decimal t) && is_signed (to_decimal t)) ≡ false)
unfolding parse_text
accepted_value t v h = ground arith

parse_text-IsExact : (t : List ℕ) (v : DecimalValue) → parse_text t ≡ ok v → IsExact v.value
unfolding to_decimal
parse_text-IsExact t v h =
    let (same, nonneg) = accepted_value t v h in subst IsExact (sym same) (sub_exact _, nonneg)

parse-IsExact : (raw : Raw) (v : DecimalValue) → parse raw ≡ ok v → IsExact v.value
unfolding parse
parse-IsExact (text t) v h = parse_text-IsExact t v h
parse-IsExact (decimal d) v h = parse_text-IsExact (to_str d) v h
parse-IsExact other v h = cc

-- Every value that `parse` accepts, from a text or from a Decimal, has a canonical text, which
-- parses to the very same sign, coefficient and exponent.
pub parse-canonical :
    (raw : Raw) (v : DecimalValue) → parse raw ≡ ok v → parse (text (canonical v)) ≡ ok v
unfolding parse canonical
parse-canonical raw v h = exact_text v.value (parse-IsExact raw v h)
