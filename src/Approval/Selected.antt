-- ===== src/Approval/Selected.antt =====
-- About the specification that `_effective_spec` of ApprovalRepository selects.
use hanyangchem_qc_v.Base.{
  ℕ, ◌≤◌, ◌<◌, ◌≡◌, ap, subst, ◌∙◌, ◌⊎◌, inl, inr, Bool, true, false, not, ◌&&◌, ◌||◌, List, [],
  ◌∷◌, filter, sort_by, insert_by, All, Any, All-map, filter-All, All-filter, All-self, Any-pick,
  arith, Bool-cases, bind-ok, raise_if-ok, ok, ltb, ◌==◌,
}
use hanyangchem_qc_v.Store.{Store, InspectionCase}
use hanyangchem_qc_v.Approval.{
  Candidate, profile_specificity, ranks_above, is_effective, joined_specs, most_specific,
  effective_spec, check_model, ambiguous_spec, other_spec, other_lot,
}
use hanyangchem_qc_v.Approval.Finalize.{Origin}
use hanyangchem_qc_v.Approval.Accepted.{effective_spec-bound}

abbrev rank : Candidate → ℕ
rank c = profile_specificity c.1

-- `d` does not rank above `c`.
abbrev NotAbove : Candidate → Candidate → Type 0
NotAbove c d = ranks_above d c ≡ false

module _ (P : Candidate → Type 0) where
  insert_by-All :
      (c : Candidate) (ds : List Candidate) → P c → All P ds → All P (insert_by ranks_above c ds)
  unfolding insert_by
  insert_by-All c [] p ps = (p, tt)
  insert_by-All c (d ∷ ds) p ps = elim (Bool-cases (ranks_above d c)) [
    | inl above ↦ rw above (ps.0, insert_by-All c ds p ps.1)
    | inr under ↦ rw under (p, ps)
  ]

  All-insert_by :
      (c : Candidate) (ds : List Candidate) → All P (insert_by ranks_above c ds) → P c × All P ds
  unfolding insert_by
  All-insert_by c [] ps = (ps.0, tt)
  All-insert_by c (d ∷ ds) ps = elim (Bool-cases (ranks_above d c)) [
    | inl above ↦
        let qs = rw above at ps in let (p, rest) = All-insert_by c ds qs.1 in (p, (qs.0, rest))
    | inr under ↦ let qs = rw under at ps in (qs.0, qs.1)
  ]

  sort_by-All : (cs : List Candidate) → All P cs → All P (sort_by ranks_above cs)
  unfolding sort_by
  sort_by-All [] ps = tt
  sort_by-All (c ∷ cs) ps = insert_by-All c (sort_by ranks_above cs) ps.0 (sort_by-All cs ps.1)

  All-sort_by : (cs : List Candidate) → All P (sort_by ranks_above cs) → All P cs
  unfolding sort_by
  All-sort_by [] ps = tt
  All-sort_by (c ∷ cs) ps =
      let (p, rest) = All-insert_by c (sort_by ranks_above cs) ps in (p, All-sort_by cs rest)

abbrev Ranked : List Candidate → Type 0
Ranked [] = Unit
Ranked (c ∷ cs) = All (NotAbove c) cs × Ranked cs

NotAbove-numbers :
    (a b d v w x i j k : ℕ)
    → (ltb a b || b == a && ltb v w || b == a && v == w && ltb i j) ≡ false
    → (ltb b d || d == b && ltb w x || d == b && w == x && ltb j k) ≡ false
    → (ltb a d || d == a && ltb v x || d == a && v == x && ltb i k) ≡ false
NotAbove-numbers a b d v w x i j k h l = ground arith

NotAbove-trans : (c d e : Candidate) → NotAbove c d → NotAbove d e → NotAbove c e
unfolding ranks_above
NotAbove-trans c d e h k =
    NotAbove-numbers (rank c) (rank d) (rank e) c.0.version d.0.version e.0.version c.0.id d.0.id
      e.0.id h k

above-NotAbove : (c d : Candidate) → ranks_above d c ≡ true → NotAbove d c
unfolding ranks_above
above-NotAbove c d h = numbers (rank d) (rank c) d.0.version c.0.version d.0.id c.0.id h
  where
    numbers :
        (a b v w i j : ℕ)
        → (ltb b a || a == b && ltb w v || a == b && w == v && ltb j i) ≡ true
        → (ltb a b || b == a && ltb v w || b == a && v == w && ltb i j) ≡ false
    numbers a b v w i j h = ground arith

NotAbove-rank : (c d : Candidate) → NotAbove c d → rank d ≤ rank c
unfolding ranks_above
NotAbove-rank c d h = numbers (rank c) (rank d) _ _ h
  where
    numbers : (a b : ℕ) (p q : Bool) → (ltb a b || p || q) ≡ false → b ≤ a
    numbers a b p q h = ground arith

insert_by-Ranked :
    (c : Candidate) (ds : List Candidate) → Ranked ds → Ranked (insert_by ranks_above c ds)
unfolding insert_by
insert_by-Ranked c [] r = (tt, tt)
insert_by-Ranked c (d ∷ ds) r = elim (Bool-cases (ranks_above d c)) [
  | inl above ↦
      rw above
        (insert_by-All (NotAbove d) c ds (above-NotAbove c d above) r.0, insert_by-Ranked c ds r.1)
  | inr under ↦
      rw under
        ((under, All-map (NotAbove d) (NotAbove c) ds (λ e h. NotAbove-trans c d e under h) r.0), r)
]

sort_by-Ranked : (cs : List Candidate) → Ranked (sort_by ranks_above cs)
unfolding sort_by
sort_by-Ranked [] = tt
sort_by-Ranked (c ∷ cs) = insert_by-Ranked c (sort_by ranks_above cs) (sort_by-Ranked cs)

-- The other candidate is the chosen one or less specific.
abbrev pub Tops : Candidate → Candidate → Type 0
Tops c d = (d ≡ c) ⊎ (profile_specificity d.1 < profile_specificity c.1)

apart : (a b : ℕ) → b ≤ a → (b == a) ≡ false → b < a
apart a b le ne = ground arith

most_specific-Tops :
    (cs : List Candidate) {c : Candidate}
    → Ranked cs
    → most_specific cs ≡ ok c
    → All (Tops c) cs × Any (λ d. d ≡ c) cs
unfolding most_specific
most_specific-Tops [] r h = cc
most_specific-Tops (d ∷ []) {c = c} r h = let same : d ≡ c = cc in ((inl same, tt), inl same)
most_specific-Tops (d ∷ e ∷ es) {c = c} r h =
    let (strict, found) = raise_if-ok (rank e == rank d) ambiguous_spec (ok d) h in
    let same : d ≡ c = cc in
    let second : rank e < rank d = apart (rank d) (rank e) (NotAbove-rank d e r.0.0) strict in
    let below : (f : Candidate) → NotAbove e f → Tops c f = λ f n. inr (
      subst (λ x. rank f < rank x) same
        (lower (rank e) (rank d) (rank f) (NotAbove-rank e f n) second)) in
    (
      (
        inl same,
        (
          inr (subst (λ x. rank e < rank x) same second),
          All-map (NotAbove e) (Tops c) es below r.1.0,
        ),
      ),
      inl same,
    )
  where
    lower : (a b f : ℕ) → f ≤ a → a < b → f < b
    lower a b f h k = omega arith

-- The specification that is selected for a case is one of the store's versions with its profile,
-- active, in effect on the day of the receipt, for the LOT's material, supplier and model, and the
-- one that the case is bound to; every other that is so is less specific.
pub effective_spec-Tops :
    (store : Store) (kase : InspectionCase) (o : Origin) {c : Candidate}
    → effective_spec store kase o.allocation o.receipt o.lot ≡ ok c
    → Any (λ d. d ≡ c) (joined_specs store.versions store.profiles)
      × (is_effective o.receipt o.lot o.allocation c ≡ true)
      × (c.0.id ≡ kase.spec_version_id)
      × All
          (λ d. is_effective o.receipt o.lot o.allocation d ≡ true → Tops c d)
          (joined_specs store.versions store.profiles)
unfolding effective_spec
effective_spec-Tops store kase o {c = c} h =
    let all = joined_specs store.versions store.profiles in
    let test = is_effective o.receipt o.lot o.allocation in
    let sorted = sort_by ranks_above (filter test all) in
    let (_, _, h1) = bind-ok (check_model store o.lot o.allocation.model_id) _ h in
    let (selected, chosen, h2) = bind-ok (most_specific sorted) _ h1 in
    let (_, h3) = raise_if-ok (not (selected.0.id == kase.spec_version_id)) other_spec _ h2 in
    let (_, h4) = raise_if-ok (not (o.allocation.material_lot_id == o.lot.id)) other_lot _ h3 in
    let same : selected ≡ c = cc in
    let (tops, found) =
      most_specific-Tops sorted (sort_by-Ranked (filter test all)) (chosen ∙ ap ok same) in
    let known =
      sort_by-All (λ d. (test d ≡ true) × Any (λ e. e ≡ d) all) (filter test all)
        (filter-All test (λ d. Any (λ e. e ≡ d) all) all (All-self all)) in
    let (d, at, (effective, stands)) = Any-pick (λ d. d ≡ c) _ sorted found known in
    (
      subst (λ x. Any (λ e. e ≡ x) all) {x = d} {y = c} at stands,
      subst (λ x. test x ≡ true) {x = d} {y = c} at effective,
      effective_spec-bound store kase o h,
      All-filter test (Tops c) all (All-sort_by (Tops c) (filter test all) tops),
    )
