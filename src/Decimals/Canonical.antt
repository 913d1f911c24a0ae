-- ===== src/Decimals/Canonical.antt =====
-- About the texts that `parse` of decimals.py takes.
use hanyangchem_qc_v.Base.{
  ℕ, suc, ◌+◌, ◌-◌, ◌≤◌, ◌≡◌, refl, ◌∙◌, Bool, true, false, ◌&&◌, ◌||◌, List, [], ◌∷◌, ◌++◌, all,
  length, arith, ◌==◌, ltb, Bool-cases, inl, inr, &&-true, err,
}
use hanyangchem_qc_v.Base.Int.{ℤ, pos, negsuc, pos_part, neg_part, sub_ℕ}
use hanyangchem_qc_v.PyDecimal.{finite, to_str, scientific, mantissa, exponent_text, with_sign}
use hanyangchem_qc_v.PyDecimal.Digits.{digits, is_digit}
use hanyangchem_qc_v.Decimals.{
  decimal, span_digits, fraction_matches, canonical_matches, parse_text, parse, not_canonical,
}

-- The characters of a canonical text.
abbrev allowed : ℕ → Bool
allowed c = is_digit c || c == b'.' || c == b'-'

all-append : (p : ℕ → Bool) (xs ys : List ℕ) → all p (xs ++ ys) ≡ (all p xs && all p ys)
all-append p [] ys = refl
all-append p (x ∷ xs) ys = ground (arith, all-append p xs ys)

all-digits : (xs : List ℕ) → all is_digit xs ≡ true → all allowed xs ≡ true
all-digits [] h = refl
all-digits (x ∷ xs) h = ground (arith, all-digits xs)

fraction-allowed : (r : List ℕ) → fraction_matches r ≡ true → all allowed r ≡ true
fraction-allowed [] h = refl
fraction-allowed (c ∷ cs) h = ground (arith, all-digits cs)

span-allowed : (cs : List ℕ) → fraction_matches (span_digits cs).1 ≡ true → all allowed cs ≡ true
unfolding span_digits
span-allowed [] h = refl
span-allowed (c ∷ cs) h = elim (Bool-cases (is_digit c)) [
  | inl d ↦ ground (arith, span-allowed cs)
  | inr d ↦ fraction-allowed (c ∷ cs) (rw d at h)
]

canonical-allowed : (t : List ℕ) → canonical_matches t ≡ true → all allowed t ≡ true
unfolding canonical_matches
canonical-allowed [] h = refl
canonical-allowed (c ∷ cs) h = elim (Bool-cases (c == b'-')) [
  | inl m ↦ ground (arith, span-allowed cs)
  | inr m ↦ span-allowed (c ∷ cs) ((&&-true _ _ (rw m at h)).1)
]

exponent-not_allowed : (e : ℤ) → all allowed (exponent_text e) ≡ false
exponent-not_allowed (pos n) = refl
exponent-not_allowed (negsuc n) = refl

scientific-not_allowed : (c : ℕ) (e : ℤ) → all allowed (scientific c e) ≡ false
scientific-not_allowed c e =
    all-append allowed (mantissa (digits c)) (exponent_text _)
    ∙ ground (arith, exponent-not_allowed (exponent_of c e))
  where
    exponent_of : ℕ → ℤ → ℤ
    exponent_of c e = sub_ℕ (pos_part e + (length (digits c) - 1)) (neg_part e)

with_sign-not_allowed :
    (s : Bool) (t : List ℕ) → all allowed t ≡ false → all allowed (with_sign s t) ≡ false
with_sign-not_allowed true t h = h
with_sign-not_allowed false t h = h

parse_text-refused : (t : List ℕ) → all allowed t ≡ false → parse_text t ≡ err not_canonical
unfolding parse_text
parse_text-refused t h = elim (Bool-cases (canonical_matches t)) [
  | inl matched ↦ absurd (cc (canonical-allowed t matched))
  | inr refused ↦ rw refused
]

-- A Decimal with places behind the point whose first digit stands more than five zeros behind it,
-- zero with seven places or more among them, is refused: its text has an exponent.
pub parse-exponent :
    (s : Bool) (c k : ℕ)
    → length (digits c) + 6 ≤ suc k
    → parse (decimal (finite s c (negsuc k))) ≡ err not_canonical
unfolding parse to_str
parse-exponent s c k far = rw not_short (
    parse_text-refused (with_sign s (scientific c (negsuc k)))
      (with_sign-not_allowed s (scientific c (negsuc k)) (scientific-not_allowed c (negsuc k))))
  where
    not_short : ltb (suc k) (length (digits c) + 6) ≡ false
    not_short = ground arith
