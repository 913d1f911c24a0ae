-- ===== src/PyDecimal/Order.antt =====
-- The order of finite decimals.
use hanyangchem_qc_v.Base.{
  ℕ, ◌+◌, ◌*◌, ◌^◌, ◌≤◌, ◌<◌, zero, suc, ◌≡◌, true, false, not, Bool-cases, inl, inr, ltb, leb,
  arith, leb→le, le→leb,
}
use native.Mathlib.Nat.{mul-le-mul_right, le_of_mul-le-mul_left}
use hanyangchem_qc_v.Base.Int.{neg_part}
use hanyangchem_qc_v.PyDecimal.{Decimal, finite, above, below, unit, dec_leb, dec_ltb}

pow_pos : (k : ℕ) → 0 < 10 ^ k
pow_pos zero = omega arith
pow_pos (suc k) = grind (arith, pow_pos k)

pub unit_pos : (x : Decimal) → 0 < unit x
unit_pos (finite s c e) = pow_pos (neg_part e)
unit_pos _ = omega arith

-- Fractions (a - b) / d are compared across; the middle one cancels.
cross_le :
    (a1 b1 d1 a2 b2 d2 a3 b3 d3 : ℕ)
    → 0 < d2
    → a1 * d2 + b2 * d1 ≤ a2 * d1 + b1 * d2
    → a2 * d3 + b3 * d2 ≤ a3 * d2 + b2 * d3
    → a1 * d3 + b3 * d1 ≤ a3 * d1 + b1 * d3
cross_le a1 b1 d1 a2 b2 d2 a3 b3 d3 p h k =
    le_of_mul-le-mul_left {k = d2} (omega (arith, mul-le-mul_right d3 h, mul-le-mul_right d1 k)) p

pub dec_ltb-eq-not : (x y : Decimal) → dec_ltb x y ≡ not (dec_leb y x)
unfolding dec_leb dec_ltb
dec_ltb-eq-not x y =
    compare_flip (above x * unit y + below y * unit x) (above y * unit x + below x * unit y)
  where
    compare_flip : (a b : ℕ) → ltb a b ≡ not (leb b a)
    compare_flip a b = ground arith

pub dec_leb-total : (x y : Decimal) → dec_leb x y ≡ false → dec_leb y x ≡ true
unfolding dec_leb
dec_leb-total x y h =
    compare_total (above x * unit y + below y * unit x) (above y * unit x + below x * unit y) h
  where
    compare_total : (a b : ℕ) → leb a b ≡ false → leb b a ≡ true
    compare_total a b h = ground arith

pub dec_leb_refl : (x : Decimal) → dec_leb x x ≡ true
unfolding dec_leb
dec_leb_refl x = le→leb _ _ (omega arith)

module _ (x y z : Decimal) where
  pub dec_leb_trans : dec_leb x y ≡ true → dec_leb y z ≡ true → dec_leb x z ≡ true
  unfolding dec_leb
  dec_leb_trans h k = le→leb _ _ (
      cross_le (above x) (below x) (unit x) (above y) (below y) (unit y) (above z) (below z)
        (unit z) (unit_pos y) (leb→le _ _ h) (leb→le _ _ k))

module _ (x y z : Decimal) where
  pub dec_ltb-leb_trans : dec_ltb x y ≡ true → dec_leb y z ≡ true → dec_ltb x z ≡ true
  dec_ltb-leb_trans h k = elim (Bool-cases (dec_leb z x)) [
    | inl back ↦ absurd (cc (dec_ltb-eq-not x y, dec_leb_trans y z x k back))
    | inr gone ↦ rw (dec_ltb-eq-not x z, gone)
  ]

  pub dec_leb-ltb_trans : dec_leb x y ≡ true → dec_ltb y z ≡ true → dec_ltb x z ≡ true
  dec_leb-ltb_trans h k = elim (Bool-cases (dec_leb z x)) [
    | inl back ↦ absurd (cc (dec_ltb-eq-not y z, dec_leb_trans z x y back h))
    | inr gone ↦ rw (dec_ltb-eq-not x z, gone)
  ]
