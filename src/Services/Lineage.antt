-- ===== src/Services/Lineage.antt =====
-- `clone_lineage` of backend/src/hyc_api/services/p3.py: the retest and the revision of a settled
-- case. The identifiers of the rows it adds are arguments, for the results as functions of those
-- they are copied from. What the database refuses is a second case with the place of another in
-- its lineage (`uq_inspection_lineage_round_revision`, `uq_inspection_correction_revision`).
pub mod Place
use hanyangchem_qc_v.Base.{
  ℕ, suc, ◌+◌, Bool, true, false, not, ◌&&◌, ◌||◌, Option, none, some, List, [], ◌∷◌, ◌++◌, any,
  filter, is_none, opt_eq, String, ◌==◌, if◌then◌else◌, ok, err, ◌>>=◌, ◌>>◌, raise_if,
}
use hanyangchem_qc_v.Store.{
  SupplierResult, InternalResult, SampleMeasurement, InspectionCase, Store,
}
use hanyangchem_qc_v.Approval.Rows.{uuid, object_of}
use hanyangchem_qc_v.Services.{Service, Principal, not_finalized, database_error}

abbrev pub root_of : InspectionCase → ℕ
root_of kase = elim kase.lineage_root_id [ none ↦ kase.id | some i ↦ i ]

-- The new case.
unfoldable pub cloned_case : ℕ → InspectionCase → String → Bool → InspectionCase
cloned_case i predecessor reason retest = record {
  id = i;
  receipt_lot_allocation_id = predecessor.receipt_lot_allocation_id;
  spec_version_id = predecessor.spec_version_id;
  status = if retest then "INTERNAL_TEST_PENDING" else "READY_FOR_REVIEW";
  candidate_decision = if retest then some "ON_HOLD" else predecessor.candidate_decision;
  final_decision = none;
  submitted_by_id = none;
  correction_of_case_id = if retest then none else some predecessor.id;
  retest_of_case_id = if retest then some predecessor.id else none;
  lineage_root_id = some (root_of predecessor);
  round_no = if retest then predecessor.round_no + 1 else predecessor.round_no;
  revision_no = if retest then 1 else predecessor.revision_no + 1;
  lineage_reason = some reason;
  spec_snapshot = predecessor.spec_snapshot;
  lock_version = 1;
  deleted = false;
}

-- The columns of the two unique constraints; NULL equals nothing.
abbrev pub same_value : Option ℕ → Option ℕ → Bool
same_value (some a) (some b) = a == b
same_value _ _ = false

abbrev pub same_place : InspectionCase → InspectionCase → Bool
same_place a b =
    same_value a.lineage_root_id b.lineage_root_id
      && a.round_no == b.round_no
      && a.revision_no == b.revision_no
    || same_value a.correction_of_case_id b.correction_of_case_id && a.revision_no == b.revision_no

-- The copies of the supplier's results and of the internal ones.
abbrev pub copied_suppliers : (ℕ → ℕ) → ℕ → ℕ → List SupplierResult → List SupplierResult
copied_suppliers fresh old new [] = []
copied_suppliers fresh old new (r ∷ rs) =
    let rest = copied_suppliers fresh old new rs in
    if r.inspection_case_id == old
    then record r { id = fresh r.id; inspection_case_id = new; deleted = false } ∷ rest
    else rest

abbrev pub copied_internals : (ℕ → ℕ) → ℕ → ℕ → List InternalResult → List InternalResult
copied_internals fresh old new [] = []
copied_internals fresh old new (r ∷ rs) =
    let rest = copied_internals fresh old new rs in
    if r.inspection_case_id == old
    then record r { id = fresh r.id; inspection_case_id = new; deleted = false } ∷ rest
    else rest

-- The copies of the samples of one result.
abbrev pub supplier_sample_copies : ℕ → ℕ → List SampleMeasurement → List SampleMeasurement
supplier_sample_copies old new [] = []
supplier_sample_copies old new (s ∷ ss) =
    let rest = supplier_sample_copies old new ss in
    if opt_eq s.supplier_result_id (some old)
    then record s { supplier_result_id = some new; internal_result_id = none } ∷ rest
    else rest

abbrev pub internal_sample_copies : ℕ → ℕ → List SampleMeasurement → List SampleMeasurement
internal_sample_copies old new [] = []
internal_sample_copies old new (s ∷ ss) =
    let rest = internal_sample_copies old new ss in
    if opt_eq s.internal_result_id (some old)
    then record s { supplier_result_id = none; internal_result_id = some new } ∷ rest
    else rest

abbrev pub suppliers_samples :
    (ℕ → ℕ) → ℕ → List SupplierResult → List SampleMeasurement → List SampleMeasurement
suppliers_samples fresh old [] samples = []
suppliers_samples fresh old (r ∷ rs) samples =
    let rest = suppliers_samples fresh old rs samples in
    if r.inspection_case_id == old
    then supplier_sample_copies r.id (fresh r.id) samples ++ rest
    else rest

abbrev pub internals_samples :
    (ℕ → ℕ) → ℕ → List InternalResult → List SampleMeasurement → List SampleMeasurement
internals_samples fresh old [] samples = []
internals_samples fresh old (r ∷ rs) samples =
    let rest = internals_samples fresh old rs samples in
    if r.inspection_case_id == old
    then internal_sample_copies r.id (fresh r.id) samples ++ rest
    else rest

-- The identifiers of the rows that are added.
pub record NewIds : Type 0 where
  pub kase : ℕ
  pub supplier : ℕ → ℕ
  pub internal : ℕ → ℕ

unfoldable pub with_clone : Store → NewIds → InspectionCase → Principal → String → Bool → Store
unfolding cloned_case
with_clone store ids predecessor principal reason retest =
    let old = predecessor.id in
    record store {
      cases = store.cases ++ cloned_case ids.kase predecessor reason retest ∷ [];
      supplier_results =
          store.supplier_results
          ++ copied_suppliers ids.supplier old ids.kase store.supplier_results;
      internal_results =
          store.internal_results
          ++ (if retest
              then []
              else copied_internals ids.internal old ids.kase store.internal_results);
      samples =
          store.samples
          ++ (suppliers_samples ids.supplier old store.supplier_results store.samples
              ++ (if retest
                  then []
                  else internals_samples ids.internal old store.internal_results store.samples));
      audit_logs =
          store.audit_logs
          ++ record {
            entity_type = "inspection_case";
            entity_id = ids.kase;
            action = if retest then "P3_RETEST_CREATED" else "P3_REVISION_CREATED";
            payload =
                object_of
                  (("predecessor_id", uuid old) ∷ ("actor_id", uuid principal.actor_id) ∷ []);
            reason = some reason;
          }
            ∷ [];
    }

-- `clone_lineage`.
unfoldable pub clone_lineage :
    Store → NewIds → InspectionCase → Principal → String → Bool → Service (Store × InspectionCase)
unfolding with_clone cloned_case
clone_lineage store ids predecessor principal reason retest =
    let kase = cloned_case ids.kase predecessor reason retest in
    raise_if (is_none predecessor.final_decision) not_finalized
    >> (raise_if (any (same_place kase) store.cases) database_error
        >> ok (with_clone store ids predecessor principal reason retest, kase))
