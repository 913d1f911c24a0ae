-- ===== src/Specs/Overlap.antt =====
-- About `validate_no_active_overlap` of specs.py, and the days on which versions apply.
use hanyangchem_qc_v.Base.{
  ℕ, ◌≡◌, refl, ◌↔◌, inl, inr, true, false, not, ◌&&◌, Option, none, some, List, [], ◌∷◌, filter,
  any, All, All-map, any-false, filter-All, arith, Bool-cases, ok, leb,
}
use hanyangchem_qc_v.Specs.{
  SpecVersion, is_active, same_scope, before, check_version, effective_on, ranges_meet,
  check_overlaps, validate_no_active_overlap,
}

-- `R` holds of each element and every later one.
abbrev pub Pairs : (SpecVersion → SpecVersion → Type 0) → List SpecVersion → Type 0
Pairs R [] = Unit
Pairs R (s ∷ ss) = All (R s) ss × Pairs R ss

-- Versions of one scope do not apply on the same day.
abbrev pub Disjoint : SpecVersion → SpecVersion → Type 0
Disjoint s t =
    same_scope s.scope t.scope ≡ true
    → (when : ℕ) → (effective_on s when && effective_on t when) ≡ false

ranges_meet-Disjoint : (s t : SpecVersion) → ranges_meet s t ≡ false → Disjoint s t
unfolding ranges_meet effective_on
ranges_meet-Disjoint s t h same when =
    days s.effective_from t.effective_from s.effective_to t.effective_to (rw same at h)
  where
    days :
        (a b : ℕ) (e f : Option ℕ)
        → (true && not (before f a) && not (before e b)) ≡ false
        → (leb a when && not (before e when) && (leb b when && not (before f when))) ≡ false
    days a b none none h = cc
    days a b none (some f) h = ground arith
    days a b (some e) none h = ground arith
    days a b (some e) (some f) h = ground arith

-- Where both ranges are in order, they meet on the later of the two first days.
Disjoint-ranges_meet :
    (s t : SpecVersion)
    → check_version s ≡ ok tt
    → check_version t ≡ ok tt
    → Disjoint s t
    → ranges_meet s t ≡ false
unfolding ranges_meet effective_on check_version
Disjoint-ranges_meet s t h k d = elim (Bool-cases (same_scope s.scope t.scope)) [
  | inr other ↦ rw other
  | inl same ↦ rw same (
      days s.effective_from t.effective_from s.effective_to t.effective_to (ordered s h)
        (ordered t k) (d same s.effective_from) (d same t.effective_from))
]
  where
    ordered :
        (s : SpecVersion) → check_version s ≡ ok tt → before s.effective_to s.effective_from ≡ false
    ordered s h = ground arith

    days :
        (a b : ℕ) (e f : Option ℕ)
        → before e a ≡ false
        → before f b ≡ false
        → (leb a a && not (before e a) && (leb b a && not (before f a))) ≡ false
        → (leb a b && not (before e b) && (leb b b && not (before f b))) ≡ false
        → (true && not (before f a) && not (before e b)) ≡ false
    days a b none none h k x y = ground arith
    days a b none (some f) h k x y = ground arith
    days a b (some e) none h k x y = ground arith
    days a b (some e) (some f) h k x y = ground arith

check_overlaps-Pairs : (ss : List SpecVersion) → check_overlaps ss ≡ ok tt → Pairs Disjoint ss
unfolding check_overlaps
check_overlaps-Pairs [] h = tt
check_overlaps-Pairs (s ∷ ss) h = elim (Bool-cases (any (ranges_meet s) ss)) [
  | inl meets ↦ absurd (cc (rw meets at h))
  | inr apart ↦ (
    All-map _ (Disjoint s) ss (λ t m. ranges_meet-Disjoint s t m)
        (any-false (ranges_meet s) ss apart),
    check_overlaps-Pairs ss (rw apart at h),
  )
]

not_any :
    (s : SpecVersion) (ss : List SpecVersion)
    → check_version s ≡ ok tt
    → All (λ t. check_version t ≡ ok tt) ss
    → All (Disjoint s) ss
    → any (ranges_meet s) ss ≡ false
not_any s [] h hs ds = refl
not_any s (t ∷ ts) h hs ds = rw (Disjoint-ranges_meet s t h hs.0 ds.0) (not_any s ts h hs.1 ds.1)

Pairs-check_overlaps :
    (ss : List SpecVersion)
    → All (λ s. check_version s ≡ ok tt) ss
    → Pairs Disjoint ss
    → check_overlaps ss ≡ ok tt
unfolding check_overlaps
Pairs-check_overlaps [] hs d = refl
Pairs-check_overlaps (s ∷ ss) hs d =
    rw (not_any s ss hs.0 hs.1 d.0) (Pairs-check_overlaps ss hs.1 d.1)

-- For versions that were constructed without an error, the check passes exactly when no two
-- active versions of one scope apply on the same day.
pub validate_no_active_overlap-ok_iff :
    (specs : List SpecVersion)
    → All (λ s. check_version s ≡ ok tt) specs
    → (validate_no_active_overlap specs ≡ ok tt)
      ↔ Pairs Disjoint (filter (λ s. is_active s.status) specs)
unfolding validate_no_active_overlap
validate_no_active_overlap-ok_iff specs valid = (
  check_overlaps-Pairs (filter (λ s. is_active s.status) specs),
  Pairs-check_overlaps (filter (λ s. is_active s.status) specs)
      (All-map _ _ _ (λ s h. h.1) (filter-All (λ s. is_active s.status) _ specs valid)),
)
