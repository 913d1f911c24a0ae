-- ===== src/Services/Headers/Bounds.antt =====
-- About the headers of p3.py.
use hanyangchem_qc_v.Base.{
  ℕ, ◌≤◌, ◌≡◌, refl, inl, inr, Bool, false, ◌&&◌, ◌||◌, some, [], ◌∷◌, length, is_empty, arith, ltb,
  Bool-cases, raise_if-ok, ok,
}
use hanyangchem_qc_v.Base.Text.{is_space}
use hanyangchem_qc_v.Snapshots.{Text}
use hanyangchem_qc_v.Services.{key_required}
use hanyangchem_qc_v.Services.Headers.{lstrip_by, rstrip_by, strip_by, require_idempotency_key}

-- The text is empty or begins with a character that is kept.
abbrev heads : (ℕ → Bool) → Text → Bool
heads test [] = false
heads test (c ∷ cs) = test c

module _ (test : ℕ → Bool) where
  heads-lstrip_by : (t : Text) → heads test (lstrip_by test t) ≡ false
  unfolding lstrip_by
  heads-lstrip_by [] = refl
  heads-lstrip_by (c ∷ cs) = elim (Bool-cases (test c)) [
    | inl gone ↦ rw gone (heads-lstrip_by cs)
    | inr kept ↦ rw kept kept
  ]

  lstrip_by-kept : (t : Text) → heads test t ≡ false → lstrip_by test t ≡ t
  unfolding lstrip_by
  lstrip_by-kept [] h = refl
  lstrip_by-kept (c ∷ cs) h = rw h refl

  heads-rstrip_by : (t : Text) → heads test t ≡ false → heads test (rstrip_by test t) ≡ false
  unfolding rstrip_by
  heads-rstrip_by [] h = refl
  heads-rstrip_by (c ∷ cs) h = rw h h

  rstrip_by-twice : (t : Text) → rstrip_by test (rstrip_by test t) ≡ rstrip_by test t
  unfolding rstrip_by
  rstrip_by-twice [] = refl
  rstrip_by-twice (c ∷ cs) = elim (Bool-cases (test c && is_empty (rstrip_by test cs))) [
    | inl gone ↦ rw gone refl
    | inr kept ↦ rw (kept, rstrip_by-twice cs, kept) refl
  ]

  strip_by-twice : (t : Text) → strip_by test (strip_by test t) ≡ strip_by test t
  unfolding strip_by
  strip_by-twice t =
      let lead = heads-rstrip_by (lstrip_by test t) (heads-lstrip_by t) in
      rw (lstrip_by-kept (rstrip_by test (lstrip_by test t)) lead)
        (rstrip_by-twice (lstrip_by test t))

  lstrip_by-le : (t : Text) → length (lstrip_by test t) ≤ length t
  unfolding lstrip_by
  lstrip_by-le [] = omega arith
  lstrip_by-le (c ∷ cs) = ground (arith, lstrip_by-le cs)

  rstrip_by-le : (t : Text) → length (rstrip_by test t) ≤ length t
  unfolding rstrip_by
  rstrip_by-le [] = omega arith
  rstrip_by-le (c ∷ cs) = ground (arith, rstrip_by-le cs)

  strip_by-le : (t : Text) → length (strip_by test t) ≤ length t
  unfolding strip_by
  strip_by-le t = omega (arith, lstrip_by-le t, rstrip_by-le (lstrip_by test t))

or_false : (a b : Bool) → (a || b) ≡ false → (a ≡ false) × (b ≡ false)
or_false a b h = ground arith

some_length : (t : Text) → is_empty t ≡ false → 1 ≤ length t
some_length [] h = cc
some_length (c ∷ cs) h = omega arith

within : (n : ℕ) → ltb 256 n ≡ false → n ≤ 256
within n h = ground arith

beyond : (n : ℕ) → n ≤ 256 → ltb 256 n ≡ false
beyond n h = ground arith

-- A key that is accepted has between 1 and 256 characters, and is accepted again as it is: a
-- repeated request that sends it back names the same key.
pub require_idempotency_key-bounds :
    (raw key : Text)
    → require_idempotency_key (some raw) ≡ ok key
    → (1 ≤ length key) × (length key ≤ 256) × (require_idempotency_key (some key) ≡ ok key)
unfolding require_idempotency_key
require_idempotency_key-bounds raw key h =
    let stripped = strip_by is_space raw in
    let (fits, found) =
      raise_if-ok (is_empty stripped || ltb 256 (length raw)) key_required (ok stripped) h in
    let (full, short) = or_false (is_empty stripped) (ltb 256 (length raw)) fits in
    let same : stripped ≡ key = cc in
    let low : 1 ≤ length stripped = some_length stripped full in
    let high : length stripped ≤ 256 =
      omega (arith, strip_by-le is_space raw, within (length raw) short) in
    let again : require_idempotency_key (some stripped) ≡ ok stripped =
      rw (strip_by-twice is_space raw, full, beyond (length stripped) high) refl in
    (rw (← same) low, rw (← same) high, rw (← same) again)
