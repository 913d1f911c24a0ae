-- ===== src/Services/Creation.antt =====
-- `create_inspection` of backend/src/hyc_api/services/p3.py: the case on an allocation, with the
-- supplier's results that a confirmed review has read. The identifiers of the new rows are
-- arguments, for the results as a function of the items of the specification.
pub mod Values
pub mod Rows
pub mod Repeat
pub mod Reading
pub mod Summary
pub mod Targets
pub mod Allowed
pub mod Goals
pub mod Local
pub mod Stored
pub mod Linked
pub mod Agreement
pub mod Confirmed
use hanyangchem_qc_v.Base.{
  ℕ, Bool, true, false, not, ◌&&◌, ◌||◌, Option, none, some, List, [], ◌∷◌, ◌++◌, any, filter,
  is_empty, is_none, String, str_eq, ◌==◌, if◌then◌else◌, ok, err, ◌>>=◌, ◌>>◌, raise_if,
}
use hanyangchem_qc_v.Base.Text.{codes}
use hanyangchem_qc_v.PyDecimal.{Decimal}
use hanyangchem_qc_v.Snapshots.{Text, Value, Members, member, end, string}
use hanyangchem_qc_v.Store.{
  SpecItem, ReceiptLotAllocation, InspectionCase, SupplierResult, SampleMeasurement,
  DocumentSection, DocumentAllocationLink, StandardTestItem, ExtractionRun, ExtractionFieldReview,
  AuditLog, Store, get_row,
}
use hanyangchem_qc_v.Reservations.{IdempotencyKey}
use hanyangchem_qc_v.Approval.{Candidate}
use hanyangchem_qc_v.Approval.Rows.{uuid_text, uuid, object_of}
use hanyangchem_qc_v.Services.{
  Service, Principal, confirmation_required, lineage_mismatch, duplicate_codes,
  fields_not_confirmed, missing_row,
}
use hanyangchem_qc_v.Services.Requests.{
  Call, reserve_idempotency, replay_idempotency_if_present, complete_idempotency,
}
use hanyangchem_qc_v.Services.Selection.{or_fail, select_spec, spec_snapshot}
use hanyangchem_qc_v.Services.Evaluation.{allocation_row}
use hanyangchem_qc_v.Services.Payload.{distinct}
use hanyangchem_qc_v.Services.Review.{run_fields}
use hanyangchem_qc_v.Services.Review.Mapping.{spec_rows}
use Values.{ItemValues, value_of, reviewed_values}
use Rows.{standards_of, standard_codes, supplier_rows, new_case, creation_audit}

-- The allocation and the run of a request, which must be confirmed.
abbrev pub run_row : Store → ℕ → Option ExtractionRun
run_row store i = get_row (λ (r : ExtractionRun). r.id) i store.runs

unfoldable pub confirmed_rows : Store → ℕ → ℕ → Service (ReceiptLotAllocation × ExtractionRun)
confirmed_rows store allocation_id run_id = do
  allocation ← or_fail (allocation_row store allocation_id) (err confirmation_required)
  run ← or_fail (run_row store run_id) (err confirmation_required)
  raise_if (not (str_eq run.status "CONFIRMED")) confirmation_required
  ok (allocation, run)

-- Whether a matched section of the document is linked to the allocation.
unfoldable pub is_linked : Store → ℕ → ℕ → Bool
is_linked store document allocation =
    any
      (λ (l : DocumentAllocationLink).
        l.receipt_lot_allocation_id == allocation
        && str_eq l.match_status "CONFIRMED"
        && any
            (λ (s : DocumentSection).
              s.id == l.document_section_id
              && s.document_id == document
              && str_eq s.status "MATCHED")
            store.sections)
      store.links

-- What a case is created from.
pub record Basis : Type 0 where
  pub spec : Candidate
  pub snapshot : Members
  pub standards : List StandardTestItem
  pub values : ItemValues

unfoldable pub basis_of : Store → ReceiptLotAllocation → ExtractionRun → Service Basis
unfolding is_linked reviewed_values
basis_of store allocation run = do
  raise_if (not (is_linked store run.document_id allocation.id)) lineage_mismatch
  spec ← select_spec store allocation
  let standards = standards_of store (spec_rows store spec.0.id)
  raise_if (not (distinct (standard_codes standards))) duplicate_codes
  let fields = run_fields store run.id
  raise_if
      (is_empty fields
        || any (λ (f : ExtractionFieldReview). not (str_eq f.status "CONFIRMED")) fields)
      fields_not_confirmed
  values ← reviewed_values run spec.0.id (standard_codes standards) fields
  snapshot ← spec_snapshot store spec
  ok (record { spec = spec; snapshot = snapshot; standards = standards; values = values })

-- The identifiers that `uuid4` gives the new rows.
pub record NewIds : Type 0 where
  pub kase : ℕ
  pub supplier : ℕ → ℕ

unfoldable pub with_inspection :
    Store
    → NewIds
    → ReceiptLotAllocation
    → ExtractionRun
    → Basis
    → List SupplierResult × List SampleMeasurement
    → Store
with_inspection store ids allocation run b rows = record store {
  cases = store.cases ++ new_case ids.kase allocation.id b.spec.0.id b.snapshot ∷ [];
  supplier_results = store.supplier_results ++ rows.0;
  samples = store.samples ++ rows.1;
  audit_logs = store.audit_logs ++ creation_audit ids.kase b.spec.0.id run.id ∷ [];
}

abbrev pub creation_body : ℕ → Members
creation_body kase = member (codes "inspection_id") (string (uuid_text kase)) end

-- What follows the reservation.
unfoldable pub record_inspection :
    Store
    → IdempotencyKey
    → ReceiptLotAllocation
    → ExtractionRun
    → NewIds
    → Service (Store × Members)
unfolding basis_of supplier_rows with_inspection
record_inspection store row allocation run ids = do
  b ← basis_of store allocation run
  rows ← supplier_rows ids.supplier ids.kase b.standards b.values (spec_rows store b.spec.0.id)
  ok (
    complete_idempotency (with_inspection store ids allocation run b rows) row 201
        (creation_body ids.kase) (uuid_text ids.kase),
    creation_body ids.kase,
  )

unfoldable pub creation_payload : ℕ → ℕ → Value
creation_payload allocation run =
    object_of (("allocation_id", uuid allocation) ∷ ("extraction_run_id", uuid run) ∷ [])

abbrev pub creation_call : ℕ → ℕ → Principal → Text → ℕ → Call
creation_call allocation run principal key now = record {
  principal = principal;
  scope = codes "p3.inspections";
  key = key;
  payload = creation_payload allocation run;
  now = now;
}

module _ (sha256 : Text → Text) where
  -- What follows where the request was not answered before.
  unfoldable pub reserve_inspection :
      Store → List IdempotencyKey → ℕ → ℕ → Call → NewIds → Service (Store × Members)
  unfolding confirmed_rows record_inspection
  reserve_inspection store rivals allocation_id run_id c ids = do
    (allocation, run) ← confirmed_rows store allocation_id run_id
    (reserved, row, replay) ← reserve_idempotency sha256 store rivals c
    elim replay [
      | some body ↦ ok (reserved, body)
      | none ↦ record_inspection reserved row allocation run ids
    ]

  -- `create_inspection`.
  unfoldable pub create_inspection :
      Store
      → List IdempotencyKey
      → ℕ
      → ℕ
      → Principal
      → Text
      → ℕ
      → NewIds
      → Service (Store × Members)
  unfolding reserve_inspection
  create_inspection store rivals allocation_id run_id principal key now ids =
      let c = creation_call allocation_id run_id principal key now in
      replay_idempotency_if_present sha256 store c >>= λ replay. elim replay [
        | some body ↦ ok (store, body)
        | none ↦ reserve_inspection store rivals allocation_id run_id c ids
      ]
