-- ===== src/Services/History.antt =====
-- The services of backend/src/hyc_api/services/p3.py as steps of the store, in whatever order the
-- requests come. The routes of inspections.py read the row of a case before they call the service.
pub mod Frame
pub mod Left
pub mod Kept
pub mod Changes
pub mod Settled
pub mod FourEyes
use hanyangchem_qc_v.Base.{ℕ, ◌≡◌, Bool, Option, some, List, filter, String, ok, ◌==◌}
use hanyangchem_qc_v.Snapshots.{Text, Members}
use hanyangchem_qc_v.Reservations.{IdempotencyKey}
use hanyangchem_qc_v.Store.{InspectionCase, ExtractionRun, DecisionSnapshotRow, Store}
use hanyangchem_qc_v.Services.{Service, Principal}
use hanyangchem_qc_v.Services.Intake
use hanyangchem_qc_v.Services.Intake.{IntakeRequest, create_intake}
use hanyangchem_qc_v.Services.Review.{ReviewRequest, confirm_review}
use hanyangchem_qc_v.Services.Creation
use hanyangchem_qc_v.Services.Creation.{create_inspection}
use hanyangchem_qc_v.Services.Judging.{View}
use hanyangchem_qc_v.Services.Evaluation.{Evaluated, evaluate_inspection}
use hanyangchem_qc_v.Services.Results.{InternalResultItem, put_internal_results}
use hanyangchem_qc_v.Services.Lifecycle.{
  case_row, submit_inspection, return_inspection, Decision, approve_inspection,
}
use hanyangchem_qc_v.Services.Lineage
use hanyangchem_qc_v.Services.Lineage.{clone_lineage}

-- A request that goes through.
pub data Step (sha256 : Text → Text) (nfkc : String → String) (s : Store) : Store → Type 0 where
  intake :
      {t : Store} {body : Members} (rivals : List IdempotencyKey) (r : IntakeRequest)
      (principal : Principal) (key : Text) (now : ℕ) (ids : Intake.NewIds)
      → create_intake sha256 nfkc s rivals r principal key now ids ≡ ok (t, body)
      → Step sha256 nfkc s t
  review :
      {t : Store} {run : ExtractionRun} (document i : ℕ) (q : ReviewRequest) (version fresh : ℕ)
      → confirm_review s document i q version fresh ≡ ok (t, run)
      → Step sha256 nfkc s t
  creation :
      {t : Store} {body : Members} (rivals : List IdempotencyKey) (allocation run : ℕ)
      (principal : Principal) (key : Text) (now : ℕ) (ids : Creation.NewIds)
      → create_inspection sha256 s rivals allocation run principal key now ids ≡ ok (t, body)
      → Step sha256 nfkc s t
  evaluating :
      {e : Evaluated} (kase : InspectionCase)
      → case_row s kase.id ≡ some kase
      → evaluate_inspection s kase ≡ ok e
      → Step sha256 nfkc s e.store
  results :
      {t : Store} {response : Service View} (kase : InspectionCase) (fresh : ℕ → ℕ)
      (request : List InternalResultItem) (version : ℕ)
      → case_row s kase.id ≡ some kase
      → put_internal_results s kase fresh request version ≡ ok (t, response)
      → Step sha256 nfkc s t
  submission :
      {t : Store} {response : Service View} (kase : InspectionCase) (version : ℕ)
      (principal : Principal)
      → case_row s kase.id ≡ some kase
      → submit_inspection s kase version principal ≡ ok (t, response)
      → Step sha256 nfkc s t
  correction :
      {t : Store} (kase : InspectionCase) (version : ℕ) (principal : Principal)
      (reason : Option String) (target : Option ℕ)
      → case_row s kase.id ≡ some kase
      → return_inspection s kase version principal reason target ≡ ok t
      → Step sha256 nfkc s t
  decision :
      {t : Store} (principal : Principal) (d : Decision)
      → approve_inspection sha256 s principal d ≡ ok t
      → Step sha256 nfkc s t
  lineage :
      {t : Store} {kase : InspectionCase} (ids : Lineage.NewIds) (predecessor : InspectionCase)
      (principal : Principal) (reason : String) (retest : Bool)
      → clone_lineage s ids predecessor principal reason retest ≡ ok (t, kase)
      → Step sha256 nfkc s t

-- The stores that requests lead to, one after the other.
pub data Reach (sha256 : Text → Text) (nfkc : String → String) (s : Store) : Store → Type 0 where
  here : Reach sha256 nfkc s s
  next : {t u : Store} → Reach sha256 nfkc s t → Step sha256 nfkc t u → Reach sha256 nfkc s u

-- The snapshots of the decisions on a case.
abbrev pub snapshots_of : Store → ℕ → List DecisionSnapshotRow
snapshots_of store i =
    filter (λ (r : DecisionSnapshotRow). r.inspection_case_id == i) store.snapshots
