-- ===== src/PyDecimal/Digits/Value.antt =====
-- About the digits of a number and the number of digits.
use native.Mathlib.Nat.{pow-suc, div-add-mod, div-div-eq-div-mul, mul_comm}
use hanyangchem_qc_v.Base.{
  ℕ, zero, suc, ◌+◌, ◌-◌, ◌*◌, ◌/◌, ◌%◌, ◌^◌, ◌<◌, ◌≡◌, refl, ap, ◌∙◌, ◌≢◌, ◌⊎◌, inl, inr, Bool,
  true, false, not, List, [], ◌∷◌, ◌++◌, arith, ltb, ◌==◌, length, all, Bool-cases, ltb→lt,
}
use hanyangchem_qc_v.PyDecimal.Digits.{
  is_digit, digits_from, digits, fixed_from, fixed_digits, value_from, digits_value,
}

value_from-append :
    (acc : ℕ) (xs ys : List ℕ) → value_from acc (xs ++ ys) ≡ value_from (value_from acc xs) ys
unfolding value_from
value_from-append acc [] ys = refl
value_from-append acc (x ∷ xs) ys = value_from-append (acc * 10 + (x - b'0')) xs ys

value_from-digits_from :
    (f n : ℕ) (rest : List ℕ) → n < f → value_from 0 (digits_from f n rest) ≡ value_from n rest
unfolding digits_from value_from
value_from-digits_from zero n rest h = absurd (omega arith)
value_from-digits_from (suc f) n rest h = elim (Bool-cases (ltb n 10)) [
  | inl small ↦ rw small (ap (λ k. value_from k rest) (omega arith))
  | inr large ↦ rw large (
      value_from-digits_from f (n / 10) ((b'0' + n % 10) ∷ rest) (ground arith)
      ∙ ap (λ k. value_from k rest) (omega arith))
]

all-digits_from :
    (f n : ℕ) (rest : List ℕ)
    → n < f
    → all is_digit rest ≡ true
    → all is_digit (digits_from f n rest) ≡ true
unfolding digits_from
all-digits_from zero n rest h d = absurd (omega arith)
all-digits_from (suc f) n rest h d = elim (Bool-cases (ltb n 10)) [
  | inl small ↦ rw small (ground arith)
  | inr large ↦
      rw large (all-digits_from f (n / 10) ((b'0' + n % 10) ∷ rest) (ground arith) (ground arith))
]

step_mod : (n m : ℕ) → n % (m * 10) ≡ n / 10 % m * 10 + n % 10
step_mod n m = omega (
  arith,
  div-add-mod n (m * 10),
  div-add-mod (n / 10) m,
  ap (λ q. m * q) (div-div-eq-div-mul n 10 m ∙ ap (λ k. n / k) (mul_comm 10 m)),
)

value_from-fixed_from :
    (k acc n : ℕ) (rest : List ℕ)
    → value_from acc (fixed_from k n rest) ≡ value_from (acc * 10 ^ k + n % 10 ^ k) rest
unfolding fixed_from value_from
value_from-fixed_from zero acc n rest = ap (λ v. value_from v rest) (omega arith)
value_from-fixed_from (suc k) acc n rest =
    value_from-fixed_from k acc (n / 10) ((b'0' + n % 10) ∷ rest)
    ∙ ap (λ v. value_from v rest)
        (omega (
          arith,
          step_mod n (10 ^ k),
          pow-suc 10 k,
          ap (λ p. acc * p) (pow-suc 10 k),
          ap (λ p. n % p) (pow-suc 10 k),
        ))

length-fixed_from : (k n : ℕ) (rest : List ℕ) → length (fixed_from k n rest) ≡ k + length rest
unfolding fixed_from
length-fixed_from zero n rest = omega arith
length-fixed_from (suc k) n rest =
    omega (arith, length-fixed_from k (n / 10) ((b'0' + n % 10) ∷ rest))

all-fixed_from :
    (k n : ℕ) (rest : List ℕ) → all is_digit rest ≡ true → all is_digit (fixed_from k n rest) ≡ true
unfolding fixed_from
all-fixed_from zero n rest d = d
all-fixed_from (suc k) n rest d = all-fixed_from k (n / 10) ((b'0' + n % 10) ∷ rest) (ground arith)

-- The digits of a number stand for it.
pub digits_value-digits : (n : ℕ) → digits_value (digits n) ≡ n
unfolding digits digits_value value_from
digits_value-digits n = value_from-digits_from (suc n) n [] (omega arith)

-- The digits of a number and `k` more stand for the number shifted by the `k` more.
pub digits_value-shifted :
    (n k m : ℕ) → digits_value (digits n ++ fixed_digits k m) ≡ n * 10 ^ k + m % 10 ^ k
unfolding digits digits_value fixed_digits value_from
digits_value-shifted n k m =
    value_from-append 0 (digits n) (fixed_digits k m)
    ∙ ap (λ v. value_from v (fixed_digits k m)) (digits_value-digits n)
    ∙ value_from-fixed_from k n m []

pub all-digits : (n : ℕ) → all is_digit (digits n) ≡ true
unfolding digits
all-digits n = all-digits_from (suc n) n [] (omega arith) refl

pub all-fixed_digits : (k n : ℕ) → all is_digit (fixed_digits k n) ≡ true
unfolding fixed_digits
all-fixed_digits k n = all-fixed_from k n [] refl

pub length-fixed_digits : (k n : ℕ) → length (fixed_digits k n) ≡ k
unfolding fixed_digits
length-fixed_digits k n = omega (arith, length-fixed_from k n [])

-- A number is written with one digit, or begins with one that is not zero.
abbrev pub leads : List ℕ → Bool
leads [] = false
leads (c ∷ []) = true
leads (c ∷ d ∷ ds) = not (c == b'0')

leads-digits_from :
    (f n : ℕ) (rest : List ℕ) → n < f → (n ≢ 0) ⊎ (rest ≡ []) → leads (digits_from f n rest) ≡ true
unfolding digits_from
leads-digits_from zero n rest h z = absurd (omega arith)
leads-digits_from (suc f) n rest h z = elim (Bool-cases (ltb n 10)) [
  | inl small ↦ rw small (one_digit n rest (ltb→lt n 10 small) z)
  | inr large ↦
      rw large
        (leads-digits_from f (n / 10) ((b'0' + n % 10) ∷ rest) (ground arith) (inl (ground arith)))
]
  where
    one_digit :
        (n : ℕ) (rest : List ℕ) → n < 10 → (n ≢ 0) ⊎ (rest ≡ []) → leads ((b'0' + n) ∷ rest) ≡ true
    one_digit n [] h z = refl
    one_digit n (r ∷ rs) h (inl z) = ground arith
    one_digit n (r ∷ rs) h (inr z) = cc

pub leads-digits : (n : ℕ) → leads (digits n) ≡ true
unfolding digits
leads-digits n = leads-digits_from (suc n) n [] (omega arith) (inr refl)
