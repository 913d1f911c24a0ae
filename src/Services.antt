-- ===== src/Services.antt =====
-- The services of backend/src/hyc_api/services/p3.py over the rows of Store, and the routes of
-- backend/src/hyc_api/routes/inspections.py that call them. A service leaves a store and gives a
-- result, or the error that ends the request: the session is closed and the store stays as it was.
-- Here are the errors. The identifiers of new rows (`uuid4`), the clock and SHA-256 are arguments.
pub mod Bodies
pub mod Headers
pub mod Requests
pub mod Intake
pub mod Selection
pub mod Judging
pub mod Evaluation
pub mod Lifecycle
pub mod Results
pub mod Lineage
pub mod Payload
pub mod Review
pub mod Creation
pub mod History
use hanyangchem_qc_v.Base.{ℕ, String, Result}
use hanyangchem_qc_v.Snapshots.{CanonicalizationError}
use hanyangchem_qc_v.Approval.{
  ApprovalError, not_lead, same_actor, merge_actors, stale_approval, stale_merge, bad_merge_target,
  stale_promotion, snapshot_refused, integrity_error,
}

-- The details of HTTPException, and the exceptions that no handler of the service catches.
pub data ServiceError : Type 0 where
  if_match_required if_match_not_positive key_required : ServiceError
  request_conflict request_pending inbound_conflict : ServiceError
  incomplete_context no_effective_spec ambiguous_spec no_spec_items : ServiceError
  context_not_found case_not_found stale_inspection finalized_immutable : ServiceError
  duplicate_spec_items bad_spec_item blockers_remain : ServiceError
  reason_missing stale_state bad_return_target not_finalized role_not_permitted : ServiceError
  refused_approval : ApprovalError → ServiceError
  run_not_found already_confirmed stale_review duplicate_fields : ServiceError
  fields_not_reviewed allocation_not_found source_identity_invalid : ServiceError
  duplicate_source_ids stale_source_ids stale_specification : ServiceError
  disposition_required unmapped_with_target target_outside_spec : ServiceError
  mapped_not_canonical duplicate_targets manual_without_text : ServiceError
  logic_conflict_remains result_not_numeric allocation_conflict : ServiceError
  mapped_without_target confirmation_required lineage_mismatch : ServiceError
  duplicate_codes fields_not_confirmed mapping_spec_mismatch : ServiceError
  mapping_identity_invalid duplicate_mapping_identity unmapped_invalid : ServiceError
  mapping_outside_spec result_not_canonical duplicate_result : ServiceError
  mapping_summary_invalid : ServiceError
  bad_integer bad_stored_response database_error missing_row fault_injected : ServiceError
  bad_request_value : CanonicalizationError → ServiceError
  failed_precondition : ApprovalError → ServiceError

abbrev pub Service {ℓ} : Type ℓ → Type ℓ
Service A = Result ServiceError A

-- The status of a refused approval, by the error's class.
abbrev pub approval_status : ApprovalError → ℕ
approval_status not_lead = 403
approval_status same_actor = 403
approval_status merge_actors = 403
approval_status stale_approval = 409
approval_status stale_merge = 409
approval_status bad_merge_target = 409
approval_status stale_promotion = 409
approval_status (snapshot_refused e) = 500
approval_status integrity_error = 500
approval_status _ = 422

-- The status of the response; what is not an HTTPException becomes an internal error.
abbrev pub status_of : ServiceError → ℕ
status_of request_conflict = 409
status_of request_pending = 409
status_of inbound_conflict = 409
status_of incomplete_context = 404
status_of context_not_found = 404
status_of case_not_found = 404
status_of stale_inspection = 409
status_of finalized_immutable = 409
status_of stale_state = 409
status_of role_not_permitted = 403
status_of (refused_approval e) = approval_status e
status_of run_not_found = 404
status_of already_confirmed = 409
status_of stale_review = 409
status_of allocation_not_found = 404
status_of allocation_conflict = 409
status_of lineage_mismatch = 409
status_of bad_integer = 500
status_of bad_stored_response = 500
status_of database_error = 500
status_of missing_row = 500
status_of fault_injected = 500
status_of (bad_request_value e) = 500
status_of (failed_precondition e) = 500
status_of _ = 422

pub record Principal : Type 0 where
  pub actor_id : ℕ
  pub role : String
