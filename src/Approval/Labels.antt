-- ===== src/Approval/Labels.antt =====
-- The values of the enumerations, as the rows and the snapshots hold them.
use hanyangchem_qc_v.Base.{String}
use hanyangchem_qc_v.Errors.{
  FailureCode, invalid_decimal, invalid_snapshot, unmapped_result, invalid_transition,
  stale_version, idempotency_conflict, approval_precondition_failed, authorization_denied,
  invalid_rule,
}
use hanyangchem_qc_v.Judgment.{
  EngineDecision, accepted, rejected, on_hold, SamplePolicy, all_samples_in_spec, average_in_spec,
  worst_case_in_spec, min_in_spec, max_in_spec, manual, Source, supplier_spec,
  supplier_result_hyc_spec, internal_result_hyc_spec, Stage, mapping, parse_type, unit_stage,
  sample, supplier_hyc_internal_decisions, source_policy_stage, missing_policy_stage, overall_stage,
}

abbrev pub decision_text : EngineDecision → String
decision_text accepted = "ACCEPTED"
decision_text rejected = "REJECTED"
decision_text on_hold = "ON_HOLD"

abbrev pub policy_text : SamplePolicy → String
policy_text all_samples_in_spec = "ALL_SAMPLES_IN_SPEC"
policy_text average_in_spec = "AVERAGE_IN_SPEC"
policy_text worst_case_in_spec = "WORST_CASE_IN_SPEC"
policy_text min_in_spec = "MIN_IN_SPEC"
policy_text max_in_spec = "MAX_IN_SPEC"
policy_text manual = "MANUAL"

abbrev pub source_text : Source → String
source_text supplier_spec = "supplier_spec"
source_text supplier_result_hyc_spec = "supplier_result_hyc_spec"
source_text internal_result_hyc_spec = "internal_result_hyc_spec"

abbrev pub stage_text : Stage → String
stage_text mapping = "mapping"
stage_text parse_type = "parse_type"
stage_text unit_stage = "unit"
stage_text sample = "sample"
stage_text supplier_hyc_internal_decisions = "supplier_hyc_internal_decisions"
stage_text source_policy_stage = "source_policy"
stage_text missing_policy_stage = "missing_policy"
stage_text overall_stage = "overall"

abbrev pub failure_text : FailureCode → String
failure_text invalid_decimal = "INVALID_DECIMAL"
failure_text invalid_snapshot = "INVALID_SNAPSHOT"
failure_text unmapped_result = "UNMAPPED_RESULT"
failure_text invalid_transition = "INVALID_TRANSITION"
failure_text stale_version = "STALE_VERSION"
failure_text idempotency_conflict = "IDEMPOTENCY_CONFLICT"
failure_text approval_precondition_failed = "APPROVAL_PRECONDITION_FAILED"
failure_text authorization_denied = "AUTHORIZATION_DENIED"
failure_text invalid_rule = "INVALID_RULE"
