-- ===== src/Store.antt =====
-- The rows that the repositories read and write (backend/src/hyc_data/models.py), with the columns
-- that they use. An identifier is the number of its UUID, a soft-deleted row has `deleted` set, and
-- the times that the database fills in are left out. `measure` is the column `unit`.
pub mod Numeric
use hanyangchem_qc_v.Base.{ℕ, Bool, Option, List, String, find?, ◌==◌}
use hanyangchem_qc_v.Base.Int.{ℤ}
use hanyangchem_qc_v.PyDecimal.{Decimal}
use hanyangchem_qc_v.Snapshots.{Text, Day, Value, Members, Jsons}
use hanyangchem_qc_v.Reservations.{IdempotencyKey}

pub record MaterialModel : Type 0 where
  pub id : ℕ
  pub material_id : ℕ
  pub deleted : Bool

pub record SpecProfile : Type 0 where
  pub id : ℕ
  pub material_id : ℕ
  pub supplier_id : Option ℕ
  pub model_id : Option ℕ

pub record SpecVersion : Type 0 where
  pub id : ℕ
  pub spec_profile_id : ℕ
  pub version : ℕ
  pub status : String
  pub effective_from : Day
  pub effective_to : Option Day

pub record SpecItem : Type 0 where
  pub id : ℕ
  pub spec_version_id : ℕ
  pub standard_test_item_id : ℕ
  pub deleted : Bool
  pub required : Bool
  pub source_policy : String
  pub missing_policy : String
  pub sample_policy : String
  pub operator : String
  pub lower_value : Option Decimal
  pub upper_value : Option Decimal
  pub target_value : Option Decimal
  pub tolerance : Option Decimal
  pub allowed_values : Option (List String)
  pub measure : Option String
  pub precision : ℤ

pub record MaterialLot : Type 0 where
  pub id : ℕ
  pub supplier_id : ℕ
  pub material_id : ℕ
  pub identity_policy_version : String
  pub identity_key : Option String
  pub supplier_lot_no_raw : Option String
  pub production_date_evidence : Option String
  pub package_mark_evidence : Option String
  pub identity_status : String
  pub merged_into_id : Option ℕ
  pub lock_version : ℕ
  pub deleted : Bool

pub record InboundReceipt : Type 0 where
  pub id : ℕ
  pub inbound_no : String
  pub supplier_id : ℕ
  pub status : String
  pub receipt_date : Day
  pub deleted : Bool

pub record ReceiptLotAllocation : Type 0 where
  pub id : ℕ
  pub inbound_receipt_id : ℕ
  pub material_lot_id : ℕ
  pub model_id : Option ℕ
  pub quantity : Decimal
  pub quantity_unit : String
  pub lock_version : ℕ
  pub deleted : Bool

pub record InspectionCase : Type 0 where
  pub id : ℕ
  pub receipt_lot_allocation_id : ℕ
  pub spec_version_id : ℕ
  pub status : String
  pub candidate_decision : Option String
  pub final_decision : Option String
  pub submitted_by_id : Option ℕ
  pub correction_of_case_id : Option ℕ
  pub retest_of_case_id : Option ℕ
  pub lineage_root_id : Option ℕ
  pub round_no : ℕ
  pub revision_no : ℕ
  pub lineage_reason : Option String
  pub spec_snapshot : Members
  pub lock_version : ℕ
  pub deleted : Bool

pub record SupplierResult : Type 0 where
  pub id : ℕ
  pub inspection_case_id : ℕ
  pub standard_test_item_id : Option ℕ
  pub supplier_item_name : String
  pub normalized_value : Option Decimal
  pub normalized_text : Option String
  pub mapping_status : String
  pub supplier_spec_text : Option String
  pub supplier_decision : Option String
  pub hyc_decision : Option String
  pub deleted : Bool

pub record InternalResult : Type 0 where
  pub id : ℕ
  pub inspection_case_id : ℕ
  pub spec_item_id : ℕ
  pub evaluated_value : Option Decimal
  pub evaluated_text : Option String
  pub decision : Option String
  pub deleted : Bool

pub record SampleMeasurement : Type 0 where
  pub supplier_result_id : Option ℕ
  pub internal_result_id : Option ℕ
  pub sample_index : ℕ
  pub numeric_value : Option Decimal
  pub text_value : Option String

pub record Document : Type 0 where
  pub id : ℕ
  pub checksum_sha256 : Text
  pub deleted : Bool

pub record DocumentSection : Type 0 where
  pub id : ℕ
  pub document_id : ℕ
  pub section_index : ℕ
  pub page_from : ℕ
  pub page_to : ℕ
  pub status : String

pub record DocumentAllocationLink : Type 0 where
  pub document_section_id : ℕ
  pub receipt_lot_allocation_id : ℕ
  pub match_status : String

pub record DecisionSnapshotRow : Type 0 where
  pub inspection_case_id : ℕ
  pub payload : Value
  pub content_hash : Text

pub record Approval : Type 0 where
  pub inspection_case_id : ℕ
  pub action : String
  pub actor_id : ℕ
  pub actor_role : String

pub record LotMergeApproval : Type 0 where
  pub material_lot_id : ℕ
  pub role : String
  pub actor_id : ℕ

pub record AuditLog : Type 0 where
  pub entity_type : String
  pub entity_id : ℕ
  pub action : String
  pub payload : Value
  pub reason : Option String

pub record OutboxEvent : Type 0 where
  pub topic : String
  pub payload : Value

pub record StandardTestItem : Type 0 where
  pub id : ℕ
  pub code : String
  pub name : String

pub record ExtractionRun : Type 0 where
  pub id : ℕ
  pub document_id : ℕ
  pub provider_name : String
  pub status : String
  pub lock_version : ℕ
  pub candidate_payload : Members
  pub conflicts : Jsons

pub record ExtractionFieldReview : Type 0 where
  pub id : ℕ
  pub extraction_run_id : ℕ
  pub field_key : String
  pub manual_text : Option String
  pub final_text : Option String
  pub source : Option String
  pub reason : Option String
  pub logic_conflict : Bool
  pub status : String

pub record InspectionReturnReason : Type 0 where
  pub inspection_case_id : ℕ
  pub reason : String
  pub target_spec_item_id : Option ℕ
  pub returned_by_id : ℕ
  pub actor_role : String

pub record Store : Type 0 where
  pub models : List MaterialModel
  pub profiles : List SpecProfile
  pub versions : List SpecVersion
  pub items : List SpecItem
  pub lots : List MaterialLot
  pub receipts : List InboundReceipt
  pub allocations : List ReceiptLotAllocation
  pub cases : List InspectionCase
  pub supplier_results : List SupplierResult
  pub internal_results : List InternalResult
  pub samples : List SampleMeasurement
  pub documents : List Document
  pub sections : List DocumentSection
  pub links : List DocumentAllocationLink
  pub snapshots : List DecisionSnapshotRow
  pub approvals : List Approval
  pub merge_approvals : List LotMergeApproval
  pub standards : List StandardTestItem
  pub runs : List ExtractionRun
  pub reviews : List ExtractionFieldReview
  pub return_reasons : List InspectionReturnReason
  pub keys : List IdempotencyKey
  pub audit_logs : List AuditLog
  pub events : List OutboxEvent

-- `session.get`: the row with the primary key.
abbrev pub get_row {ℓ} : {A : Type ℓ} → (A → ℕ) → ℕ → List A → Option A
get_row key i rows = find? (λ r. key r == i) rows
