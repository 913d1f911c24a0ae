-- ===== src/Examples/Services.antt =====
-- Services on the case of the approvals: a submission, an intake, repeated requests.
use hanyangchem_qc_v.Base.{
  ◌≡◌, refl, ◌≢◌, true, false, none, some, List, [], ◌∷◌, All, is_ok, is_ok_value, ok, err, arith,
  ◌≤◌, sort_by, insert_by,
}
use hanyangchem_qc_v.Base.Int.{pos, negsuc}
use hanyangchem_qc_v.Base.Text.{codes}
use hanyangchem_qc_v.PyDecimal.{to_str, format_f, dec_leb, dec_ltb}
use hanyangchem_qc_v.PyDecimal.Digits.{digits, digits_value, fixed_digits}
use hanyangchem_qc_v.Decimals.{parse, parse_text, canonical_matches, to_decimal, span_digits}
use hanyangchem_qc_v.Rules.{validate, check_columns}
use hanyangchem_qc_v.Judgment.{evaluate_rule, apply_rule, combine, ItemInput, on_hold}
use hanyangchem_qc_v.Judgment.Samples.{
  normalise_value, normalise_values, aggregate, aggregate_all, decisions, by_policy,
}
use hanyangchem_qc_v.Judgment.Evaluate.{
  evaluate_item_details, evaluate_item, evaluate_case, judge, apply_policies, chosen,
}
use hanyangchem_qc_v.Snapshots.{Members, member, end, object, string, number, array, cons, nil}
use hanyangchem_qc_v.Snapshots.Load.{loads}
use hanyangchem_qc_v.Store.{InspectionCase, Store}
use hanyangchem_qc_v.Approval.{
  effective_spec, most_specific, ranks_above, is_effective, joined_specs,
}
use hanyangchem_qc_v.Approval.Inputs.{
  persisted_inputs, item_inputs, item_input, rule_of, supplier_samples, internal_samples,
}
use hanyangchem_qc_v.Services.{Service, ServiceError, Principal}
use hanyangchem_qc_v.Services.Bodies.{dumps_body}
use hanyangchem_qc_v.Services.Bodies.Values.{PlainMembers, Plain}
use hanyangchem_qc_v.Services.Bodies.Loads.{loads-dumps_body}
use hanyangchem_qc_v.Services.Headers.{require_idempotency_key}
use hanyangchem_qc_v.Services.Headers.Bounds.{require_idempotency_key-bounds}
use hanyangchem_qc_v.Services.Judging.{View, judge_items, blocker_set}
use hanyangchem_qc_v.Services.Evaluation.{findings, context_of, evaluate_inspection}
use hanyangchem_qc_v.Services.Lifecycle.{submit_inspection, Decision, approve_inspection}
use hanyangchem_qc_v.Services.Lifecycle.Submitted.{submit-approve_inspection}
use hanyangchem_qc_v.Services.Lifecycle.Decided.{submit_inspection-Decided}
use hanyangchem_qc_v.Examples.Approval

-- A quotation mark, a letter of Hangul and a line feed.
abbrev body : Members
body =
    member (codes "lot") (string (b'"' ∷ 0xd55c ∷ 10 ∷ []))
      (member (codes "versions") (array (cons (number (pos 3)) (cons (number (negsuc 0)) nil))) end)

loads-dumps_body_example : loads (dumps_body body) ≡ ok (object body)
unfolding PlainMembers Plain
loads-dumps_body_example = loads-dumps_body body (omega arith)

require_idempotency_key-bounds_example :
    (1 ≤ 3) × (3 ≤ 256) × (require_idempotency_key (some (codes "k-1")) ≡ ok (codes "k-1"))
unfolding require_idempotency_key
require_idempotency_key-bounds_example =
    require_idempotency_key-bounds (codes " k-1 ") (codes "k-1") refl

-- The case before it is submitted.
abbrev ready : InspectionCase
ready = record Approval.waiting { status = "READY_FOR_REVIEW"; submitted_by_id = none }

abbrev open_store : Store
open_store = record Approval.store {
  cases = ready ∷ [];
  standards = record { id = 41; code = "PURITY"; name = "purity" } ∷ [];
}

abbrev inspector : Principal
inspector = record { actor_id = 7; role = "INSPECTOR" }

submits : is_ok (submit_inspection open_store ready 3 inspector) ≡ true
unfolding submit_inspection evaluate_inspection findings context_of judge_items blocker_set
    effective_spec sort_by insert_by persisted_inputs rule_of digits fixed_digits digits_value
    to_str format_f parse parse_text canonical_matches to_decimal span_digits validate check_columns
    evaluate_case evaluate_item evaluate_item_details judge apply_policies chosen aggregate_all
    aggregate decisions by_policy normalise_values normalise_value evaluate_rule apply_rule combine
    dec_leb dec_ltb supplier_samples internal_samples item_input item_inputs joined_specs
    is_effective ranks_above most_specific
submits = refl

submission :
    (left : Store × Service View) × (submit_inspection open_store ready 3 inspector ≡ ok left)
submission = is_ok_value (submit_inspection open_store ready 3 inspector) submits

abbrev approval : Decision
approval = record {
  case_id = 1;
  expected_version = 4;
  action = "APPROVE";
  reason = none;
  fault = false;
}

submit-approve_inspection_example :
    (e : ServiceError) × (approve_inspection Approval.digest submission.0.0
        (record { actor_id = 7; role = "LEAD" })
        approval
      ≡ err e)
submit-approve_inspection_example =
    submit-approve_inspection open_store ready 3 inspector refl submission.1 Approval.digest
      (record { actor_id = 7; role = "LEAD" }) approval refl refl refl

submit_inspection-Decided_example :
    (ready.lock_version ≡ 3)
    × (ready.final_decision ≡ none)
    × ((inputs : List ItemInput) × (persisted_inputs open_store ready.id ready.spec_version_id
          ≡ ok inputs)
        × (inputs ≢ [])
        × All (λ i. evaluate_item i ≢ on_hold) inputs)
submit_inspection-Decided_example =
    submit_inspection-Decided open_store ready 3 inspector submission.1
