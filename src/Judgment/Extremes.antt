-- ===== src/Judgment/Extremes.antt =====
-- About MIN_IN_SPEC and MAX_IN_SPEC beside ALL_SAMPLES_IN_SPEC (`_aggregate` of judgment.py).
use hanyangchem_qc_v.Base.{
  ◌≡◌, refl, sym, ap, ◌∙◌, ◌⊎◌, inl, inr, Bool, true, false, ◌&&◌, Option, some, List, [], ◌∷◌, map,
  all, String, arith, Bool-cases, ok, err,
}
use hanyangchem_qc_v.Base.Int.{ℤ}
use hanyangchem_qc_v.PyDecimal.{Decimal, dec_leb, dec_ltb}
use hanyangchem_qc_v.PyDecimal.Order.{
  dec_leb_trans, dec_leb-ltb_trans, dec_ltb-leb_trans, dec_ltb-eq-not, dec_leb-total,
}
use hanyangchem_qc_v.Rules.{Rule, gte, gt, lte, lt, validate}
use hanyangchem_qc_v.Judgment.{
  EngineDecision, Attempt, SamplePolicy, min_in_spec, max_in_spec, all_samples_in_spec, Source,
  decide, evaluate_rule, combine,
}
use hanyangchem_qc_v.Judgment.Samples.{
  smallest, largest, decisions, by_policy, aggregate, Aggregate,
}

module _ (test : Decimal → Bool) where
  combine-decide :
      (vs : List Decimal) → combine (map (λ v. some (decide (test v))) vs) ≡ decide (all test vs)
  unfolding combine
  combine-decide [] = refl
  combine-decide (v ∷ vs) = ground (arith, combine-decide vs)

  decisions-decide :
      (r : Rule) (vs : List Decimal)
      → ((v : Decimal) → evaluate_rule r v ≡ ok (decide (test v)))
      → decisions r vs ≡ ok (map (λ v. some (decide (test v))) vs)
  unfolding decisions
  decisions-decide r [] h = refl
  decisions-decide r (v ∷ vs) h = rw (h v, decisions-decide r vs h)

  test-smallest :
      ((m n : Decimal) → dec_leb m n ≡ true → test m ≡ true → test n ≡ true)
      → (m : Decimal) (vs : List Decimal) → test (smallest m vs) ≡ (test m && all test vs)
  unfolding smallest
  test-smallest up m [] = ground arith
  test-smallest up m (v ∷ vs) = elim (Bool-cases (dec_ltb v m)) [
    | inl below ↦ rw below (ground (arith, test-smallest up v vs, up v m (not_above v m below)))
    | inr above ↦ rw above (ground (arith, test-smallest up m vs, up m v (from_not v m above)))
  ]
    where
      not_above : (v m : Decimal) → dec_ltb v m ≡ true → dec_leb v m ≡ true
      not_above v m h = dec_leb-total m v (ground (arith, dec_ltb-eq-not v m))

      from_not : (v m : Decimal) → dec_ltb v m ≡ false → dec_leb m v ≡ true
      from_not v m h = ground (arith, dec_ltb-eq-not v m)

  test-largest :
      ((m n : Decimal) → dec_leb n m ≡ true → test m ≡ true → test n ≡ true)
      → (m : Decimal) (vs : List Decimal) → test (largest m vs) ≡ (test m && all test vs)
  unfolding largest
  test-largest down m [] = ground arith
  test-largest down m (v ∷ vs) = elim (Bool-cases (dec_ltb m v)) [
    | inl below ↦ rw below (ground (arith, test-largest down v vs, down v m (not_above m v below)))
    | inr above ↦ rw above (ground (arith, test-largest down m vs, down m v (from_not m v above)))
  ]
    where
      not_above : (v m : Decimal) → dec_ltb v m ≡ true → dec_leb v m ≡ true
      not_above v m h = dec_leb-total m v (ground (arith, dec_ltb-eq-not v m))

      from_not : (v m : Decimal) → dec_ltb v m ≡ false → dec_leb m v ≡ true
      from_not v m h = ground (arith, dec_ltb-eq-not v m)

-- The decision of an aggregation, its record left out.
abbrev pub decided : Attempt Aggregate → Attempt (Option EngineDecision)
decided (ok (d, a)) = ok d
decided (err e) = err e

-- The bound of a valid one-sided rule, as a test that its values pass from there on.
abbrev Upward : (Decimal → Bool) → Type 0
Upward test = (m n : Decimal) → dec_leb m n ≡ true → test m ≡ true → test n ≡ true

abbrev Downward : (Decimal → Bool) → Type 0
Downward test = (m n : Decimal) → dec_leb n m ≡ true → test m ≡ true → test n ≡ true

abbrev Tests : Rule → (Decimal → Bool) → Type 0
Tests r test = (w : Decimal) → evaluate_rule r w ≡ ok (decide (test w))

lower_given :
    (r : Rule)
    → validate r ≡ ok tt
    → (r.operator ≡ gte) ⊎ (r.operator ≡ gt)
    → (b : Decimal) × (r.lower ≡ some b)
unfolding validate
lower_given r valid op = ground arith

upper_given :
    (r : Rule)
    → validate r ≡ ok tt
    → (r.operator ≡ lte) ⊎ (r.operator ≡ lt)
    → (b : Decimal) × (r.upper ≡ some b)
unfolding validate
upper_given r valid op = ground arith

lower_test :
    (r : Rule)
    → validate r ≡ ok tt
    → (r.operator ≡ gte) ⊎ (r.operator ≡ gt)
    → (test : Decimal → Bool) × Tests r test × Upward test
unfolding evaluate_rule
lower_test r valid (inl op) =
    let (b, lower) = lower_given r valid (inl op) in
    (λ w. dec_leb b w, λ w. rw (valid, op, lower), λ m n h k. dec_leb_trans b m n k h)
lower_test r valid (inr op) =
    let (b, lower) = lower_given r valid (inr op) in
    (λ w. dec_ltb b w, λ w. rw (valid, op, lower), λ m n h k. dec_ltb-leb_trans b m n k h)

upper_test :
    (r : Rule)
    → validate r ≡ ok tt
    → (r.operator ≡ lte) ⊎ (r.operator ≡ lt)
    → (test : Decimal → Bool) × Tests r test × Downward test
unfolding evaluate_rule
upper_test r valid (inl op) =
    let (b, upper) = upper_given r valid (inl op) in
    (λ w. dec_leb w b, λ w. rw (valid, op, upper), λ m n h k. dec_leb_trans n m b h k)
upper_test r valid (inr op) =
    let (b, upper) = upper_given r valid (inr op) in
    (λ w. dec_ltb w b, λ w. rw (valid, op, upper), λ m n h k. dec_leb-ltb_trans n m b h k)

module _ (r : Rule) (source : Source) (scale : ℤ) (version : String) where
  abbrev by : List Decimal → SamplePolicy → Attempt (Option EngineDecision)
  by vs policy = decided (aggregate vs policy r source scale version)

  -- A valid rule whose judgment is a test of the value.
  by_test :
      (test : Decimal → Bool) (v : Decimal) (vs : List Decimal)
      → ((w : Decimal) → evaluate_rule r w ≡ ok (decide (test w)))
      → validate r ≡ ok tt
      → (by (v ∷ vs) all_samples_in_spec ≡ ok (some (decide (all test (v ∷ vs)))))
        × (by (v ∷ vs) min_in_spec ≡ ok (some (decide (test (smallest v vs)))))
        × (by (v ∷ vs) max_in_spec ≡ ok (some (decide (test (largest v vs)))))
  unfolding aggregate by_policy
  by_test test v vs h valid =
      let ds = decisions-decide test r (v ∷ vs) h in
      (
        rw (valid, ds, combine-decide test (v ∷ vs)),
        rw (valid, ds, h (smallest v vs)),
        rw (valid, ds, h (largest v vs)),
      )

-- Under a valid rule with a lower threshold alone, judging the smallest of one or more samples
-- decides as judging all of them does.
pub min_in_spec-all :
    (r : Rule) (source : Source) (scale : ℤ) (version : String) (v : Decimal) (vs : List Decimal)
    → validate r ≡ ok tt
    → (r.operator ≡ gte) ⊎ (r.operator ≡ gt)
    → decided (aggregate (v ∷ vs) min_in_spec r source scale version)
      ≡ decided (aggregate (v ∷ vs) all_samples_in_spec r source scale version)
min_in_spec-all r source scale version v vs valid op =
    let (test, tests, up) = lower_test r valid op in
    let (all, least, most) = by_test r source scale version test v vs tests valid in
    least ∙ ap (λ b. ok (some (decide b))) (test-smallest test up v vs) ∙ sym all

-- Under a valid rule with an upper threshold alone, judging the largest of one or more samples
-- decides as judging all of them does.
pub max_in_spec-all :
    (r : Rule) (source : Source) (scale : ℤ) (version : String) (v : Decimal) (vs : List Decimal)
    → validate r ≡ ok tt
    → (r.operator ≡ lte) ⊎ (r.operator ≡ lt)
    → decided (aggregate (v ∷ vs) max_in_spec r source scale version)
      ≡ decided (aggregate (v ∷ vs) all_samples_in_spec r source scale version)
max_in_spec-all r source scale version v vs valid op =
    let (test, tests, down) = upper_test r valid op in
    let (all, least, most) = by_test r source scale version test v vs tests valid in
    most ∙ ap (λ b. ok (some (decide b))) (test-largest test down v vs) ∙ sym all
