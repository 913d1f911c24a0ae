-- ===== src/Errors.antt =====
-- The failure codes of backend/src/hyc_domain/errors.py. Each error class of the domain carries
-- one of them; the codes are what a caller sees of an error.
pub data FailureCode : Type 0 where
  invalid_decimal invalid_snapshot unmapped_result invalid_transition stale_version : FailureCode
  idempotency_conflict approval_precondition_failed authorization_denied invalid_rule : FailureCode
