-- ===== src/Services/Lineage/Place.antt =====
-- About the cases that `clone_lineage` of p3.py adds, and the constraints of
-- backend/src/hyc_data/models.py on their rows.
use hanyangchem_qc_v.Base.{
  ℕ, ◌≤◌, ◌<◌, ◌≡◌, refl, subst, ◌⊎◌, inl, inr, Bool, true, false, none, some, List, [], ◌∷◌, ◌++◌,
  any, any-false, All, is_none, is_some, opt_eq, String, ◌==◌, arith, Bool-cases, if◌then◌else◌,
  raise_if-ok, ok_parts, ok,
}
use hanyangchem_qc_v.Store.{
  SupplierResult, InternalResult, SampleMeasurement, InspectionCase, Store,
}
use hanyangchem_qc_v.Services.{Principal, not_finalized, database_error}
use hanyangchem_qc_v.Services.Lineage.{
  NewIds, cloned_case, same_place, supplier_sample_copies, internal_sample_copies,
  suppliers_samples, internals_samples, with_clone, clone_lineage,
}

-- `ck_inspection_correction_revision` and `ck_inspection_round_positive`.
pub record WellPlaced (kase : InspectionCase) : Type 0 where
  pub revision :
      ((kase.correction_of_case_id ≡ none) × (kase.revision_no ≡ 1))
      ⊎ ((is_some kase.correction_of_case_id ≡ true) × (1 < kase.revision_no))
  pub round : 0 < kase.round_no

-- `ck_sample_exactly_one_result`.
abbrev pub OneResult : SampleMeasurement → Type 0
OneResult s = is_some s.supplier_result_id ≡ is_none s.internal_result_id

-- No two cases have one place, by the unique constraints.
abbrev pub DistinctPlaces : List InspectionCase → Type 0
DistinctPlaces [] = Unit
DistinctPlaces (c ∷ cs) = All (λ d. same_place d c ≡ false) cs × DistinctPlaces cs

pub record LineageRows (store : Store) : Type 0 where
  pub placed : All WellPlaced store.cases
  pub distinct : DistinctPlaces store.cases
  pub samples : All OneResult store.samples

All-append : {A : Type 0} (P : A → Type 0) (xs ys : List A) → All P xs → All P ys → All P (xs ++ ys)
All-append P [] ys h k = k
All-append P (x ∷ xs) ys h k = (h.0, All-append P xs ys h.1 k)

DistinctPlaces-append :
    (cs : List InspectionCase) (kase : InspectionCase)
    → DistinctPlaces cs
    → All (λ c. same_place kase c ≡ false) cs
    → DistinctPlaces (cs ++ kase ∷ [])
DistinctPlaces-append [] kase h k = (tt, tt)
DistinctPlaces-append (c ∷ cs) kase h k = (
  All-append (λ d. same_place d c ≡ false) cs (kase ∷ []) h.0 (k.0, tt),
  DistinctPlaces-append cs kase h.1 k.1,
)

positive : (kase : InspectionCase) → WellPlaced kase → 1 ≤ kase.revision_no
positive kase p = by_revision p.revision
  where
    by_revision :
        ((kase.correction_of_case_id ≡ none) × (kase.revision_no ≡ 1))
          ⊎ ((is_some kase.correction_of_case_id ≡ true) × (1 < kase.revision_no))
        → 1 ≤ kase.revision_no
    by_revision (inl h) = omega (arith, h.1)
    by_revision (inr h) = omega (arith, h.1)

cloned_case-WellPlaced :
    (i : ℕ) (predecessor : InspectionCase) (reason : String) (retest : Bool)
    → WellPlaced predecessor
    → WellPlaced (cloned_case i predecessor reason retest)
unfolding cloned_case
cloned_case-WellPlaced i predecessor reason true p = record {
  revision = inl (refl, refl);
  round = omega (arith, p.round);
}
cloned_case-WellPlaced i predecessor reason false p = record {
  revision = inr (refl, omega (arith, positive predecessor p));
  round = p.round;
}

supplier_sample_copies-OneResult :
    (old new : ℕ) (samples : List SampleMeasurement)
    → All OneResult (supplier_sample_copies old new samples)
supplier_sample_copies-OneResult old new [] = tt
supplier_sample_copies-OneResult old new (s ∷ ss) =
    elim (Bool-cases (opt_eq s.supplier_result_id (some old))) [
      | inl hit ↦ rw hit (refl, supplier_sample_copies-OneResult old new ss)
      | inr miss ↦ rw miss (supplier_sample_copies-OneResult old new ss)
    ]

internal_sample_copies-OneResult :
    (old new : ℕ) (samples : List SampleMeasurement)
    → All OneResult (internal_sample_copies old new samples)
internal_sample_copies-OneResult old new [] = tt
internal_sample_copies-OneResult old new (s ∷ ss) =
    elim (Bool-cases (opt_eq s.internal_result_id (some old))) [
      | inl hit ↦ rw hit (refl, internal_sample_copies-OneResult old new ss)
      | inr miss ↦ rw miss (internal_sample_copies-OneResult old new ss)
    ]

suppliers_samples-OneResult :
    (fresh : ℕ → ℕ) (old : ℕ) (rows : List SupplierResult) (samples : List SampleMeasurement)
    → All OneResult (suppliers_samples fresh old rows samples)
suppliers_samples-OneResult fresh old [] samples = tt
suppliers_samples-OneResult fresh old (r ∷ rs) samples =
    elim (Bool-cases (r.inspection_case_id == old)) [
      | inl hit ↦ rw hit (
          All-append OneResult (supplier_sample_copies r.id (fresh r.id) samples) _
            (supplier_sample_copies-OneResult r.id (fresh r.id) samples)
            (suppliers_samples-OneResult fresh old rs samples))
      | inr miss ↦ rw miss (suppliers_samples-OneResult fresh old rs samples)
    ]

internals_samples-OneResult :
    (fresh : ℕ → ℕ) (old : ℕ) (rows : List InternalResult) (samples : List SampleMeasurement)
    → All OneResult (internals_samples fresh old rows samples)
internals_samples-OneResult fresh old [] samples = tt
internals_samples-OneResult fresh old (r ∷ rs) samples =
    elim (Bool-cases (r.inspection_case_id == old)) [
      | inl hit ↦ rw hit (
          All-append OneResult (internal_sample_copies r.id (fresh r.id) samples) _
            (internal_sample_copies-OneResult r.id (fresh r.id) samples)
            (internals_samples-OneResult fresh old rs samples))
      | inr miss ↦ rw miss (internals_samples-OneResult fresh old rs samples)
    ]

chosen_samples-OneResult :
    (retest : Bool) (copies : List SampleMeasurement)
    → All OneResult copies
    → All OneResult (if retest then [] else copies)
chosen_samples-OneResult true copies h = tt
chosen_samples-OneResult false copies h = h

with_clone-LineageRows :
    (store : Store) (ids : NewIds) (predecessor : InspectionCase) (principal : Principal)
    (reason : String) (retest : Bool)
    → LineageRows store
    → WellPlaced predecessor
    → any (same_place (cloned_case ids.kase predecessor reason retest)) store.cases ≡ false
    → LineageRows (with_clone store ids predecessor principal reason retest)
unfolding with_clone
with_clone-LineageRows store ids predecessor principal reason retest rows p free =
    let kase = cloned_case ids.kase predecessor reason retest in
    let old = predecessor.id in
    record {
      placed =
          All-append WellPlaced store.cases (kase ∷ []) rows.placed
            (cloned_case-WellPlaced ids.kase predecessor reason retest p, tt);
      distinct =
          DistinctPlaces-append store.cases kase rows.distinct
            (any-false (same_place kase) store.cases free);
      samples = All-append OneResult store.samples _ rows.samples (
          All-append OneResult
            (suppliers_samples ids.supplier old store.supplier_results store.samples) _
            (suppliers_samples-OneResult ids.supplier old store.supplier_results store.samples)
            (chosen_samples-OneResult retest _
              (internals_samples-OneResult ids.internal old store.internal_results store.samples)));
    }

-- A retest and a revision keep the constraints on the rows: a case is the first revision of its
-- round or corrects a case, rounds are positive, no two cases have one place in a lineage, and a
-- sample belongs to exactly one result; and the predecessor was settled.
pub clone_lineage-LineageRows :
    (store : Store) (ids : NewIds) (predecessor : InspectionCase) (principal : Principal)
    (reason : String) (retest : Bool) {after : Store} {kase : InspectionCase}
    → LineageRows store
    → WellPlaced predecessor
    → clone_lineage store ids predecessor principal reason retest ≡ ok (after, kase)
    → LineageRows after × (is_none predecessor.final_decision ≡ false)
unfolding clone_lineage
clone_lineage-LineageRows store ids predecessor principal reason retest rows p h =
    let kase = cloned_case ids.kase predecessor reason retest in
    let (settled, h1) = raise_if-ok (is_none predecessor.final_decision) not_finalized _ h in
    let (free, h2) = raise_if-ok (any (same_place kase) store.cases) database_error _ h1 in
    (
      subst LineageRows (ok_parts _ _ _ _ h2).0
          (with_clone-LineageRows store ids predecessor principal reason retest rows p free),
      settled,
    )
