-- ===== src/Examples/Approval.antt =====
-- A case that a lead accepts, with the rows that it rests on. The digest of a text is its length.
use hanyangchem_qc_v.Base.{
  ℕ, ◌≡◌, ◌↔◌, refl, ◌≢◌, true, false, none, some, List, [], ◌∷◌, All, length, sort_by, insert_by,
  is_ok, is_ok_value, ok, String,
}
use hanyangchem_qc_v.Base.Int.{pos, negsuc}
use hanyangchem_qc_v.Base.Text.{codes, is_blank, strip, lstrip, rstrip}
use hanyangchem_qc_v.PyDecimal.{finite, to_str, format_f, dec_leb, dec_ltb}
use hanyangchem_qc_v.PyDecimal.Digits.{digits, digits_value, fixed_digits}
use hanyangchem_qc_v.Decimals.{parse, parse_text, canonical_matches, to_decimal, span_digits}
use hanyangchem_qc_v.Rules.{validate, check_columns}
use hanyangchem_qc_v.Workflow.{guard_transition, find_case, check_case, lacks_reason}
use hanyangchem_qc_v.Judgment.{evaluate_rule, apply_rule, combine, accepted, ItemInput}
use hanyangchem_qc_v.Judgment.Samples.{
  normalise_value, normalise_values, aggregate, aggregate_all, decisions, by_policy,
}
use hanyangchem_qc_v.Judgment.Evaluate.{
  evaluate_item_details, evaluate_item, evaluate_case, judge, apply_policies, chosen,
}
use hanyangchem_qc_v.Snapshots.{Members, Text, Day, normalise, iso_date}
use hanyangchem_qc_v.Snapshots.Dump.{
  dumps, sort_entries, insert_entry, text_ltb, comma_joined, quoted, escape_all,
}
use hanyangchem_qc_v.Snapshots.Load.{
  loads, load_value, load_key, load_string, load_digits, token, behind,
}
use hanyangchem_qc_v.Snapshots.Freeze.{
  canonical_json, canonical_hash, freeze, freeze_for_approval, check_approval, verify, payload,
  of_json, is_empty_required_value,
}
use hanyangchem_qc_v.Store.{
  SpecItem, MaterialLot, InboundReceipt, InspectionCase, SupplierResult, Store,
}
use hanyangchem_qc_v.Approval.{
  effective_spec, most_specific, ranks_above, is_effective, joined_specs,
}
use hanyangchem_qc_v.Approval.Inputs.{
  persisted_inputs, item_inputs, item_input, rule_of, supplier_samples, internal_samples,
}
use hanyangchem_qc_v.Approval.Rows.{uuid_text, rule_payload, document_hashes}
use hanyangchem_qc_v.Approval.Payload.{item_decisions, stated_reason, snapshot_payload}
use hanyangchem_qc_v.Approval.Finalize.{
  Request, find_case_row, reviewed_case, origin_of, check_decision, snapshot_of, record_decision,
  finalize,
}
use hanyangchem_qc_v.Approval.Complete.{Passes, finalize-ok_iff}
use hanyangchem_qc_v.Approval.Decision.{finalize-accepted}
use hanyangchem_qc_v.Approval.{Candidate}
use hanyangchem_qc_v.Approval.Finalize.{Origin}
use hanyangchem_qc_v.Services.{Principal}
use hanyangchem_qc_v.Services.Lifecycle.{Decision, approve_inspection}

abbrev pub digest : Text → Text
digest t = digits (length t)

abbrev pub day : ℕ → Day
day d = record { year = 2026; month = 3; day = d }

abbrev pub purity : SpecItem
purity = record {
  id = 31;
  spec_version_id = 21;
  standard_test_item_id = 41;
  deleted = false;
  required = true;
  source_policy = "SUPPLIER_ONLY";
  missing_policy = "HOLD";
  sample_policy = "ALL_SAMPLES_IN_SPEC";
  operator = "GTE";
  lower_value = some (finite false 98000000000000 (negsuc 11));
  upper_value = none;
  target_value = none;
  tolerance = none;
  allowed_values = none;
  measure = some "%";
  precision = pos 4;
}

abbrev pub result : SupplierResult
result = record {
  id = 51;
  inspection_case_id = 1;
  standard_test_item_id = some 41;
  supplier_item_name = "purity";
  normalized_value = some (finite false 99500000000000 (negsuc 11));
  normalized_text = none;
  mapping_status = "MANUAL_CONFIRMED";
  supplier_spec_text = none;
  supplier_decision = none;
  hyc_decision = none;
  deleted = false;
}

abbrev pub waiting : InspectionCase
waiting = record {
  id = 1;
  receipt_lot_allocation_id = 61;
  spec_version_id = 21;
  status = "LEAD_REVIEW";
  candidate_decision = none;
  final_decision = none;
  submitted_by_id = some 7;
  correction_of_case_id = none;
  retest_of_case_id = none;
  lineage_root_id = some 1;
  round_no = 1;
  revision_no = 1;
  lineage_reason = none;
  spec_snapshot = Members.end;
  lock_version = 3;
  deleted = false;
}

abbrev pub lot : MaterialLot
lot = record {
  id = 71;
  supplier_id = 2;
  material_id = 5;
  identity_policy_version = "v1";
  identity_key = some "LOT-1";
  supplier_lot_no_raw = some "LOT-1";
  production_date_evidence = none;
  package_mark_evidence = none;
  identity_status = "CANONICAL";
  merged_into_id = none;
  lock_version = 1;
  deleted = false;
}

abbrev pub received : InboundReceipt
received = record {
  id = 81;
  inbound_no = "IN-1";
  supplier_id = 2;
  status = "RECEIVED";
  receipt_date = day 9;
  deleted = false;
}

abbrev pub store : Store
store = record {
  models = [];
  profiles = record { id = 11; material_id = 5; supplier_id = none; model_id = none } ∷ [];
  versions =
      record {
        id = 21;
        spec_profile_id = 11;
        version = 1;
        status = "ACTIVE";
        effective_from = day 1;
        effective_to = none;
      }
      ∷ [];
  items = purity ∷ [];
  lots = lot ∷ [];
  receipts = received ∷ [];
  allocations =
      record {
        id = 61;
        inbound_receipt_id = 81;
        material_lot_id = 71;
        model_id = none;
        quantity = finite false 5 (pos 0);
        quantity_unit = "kg";
        lock_version = 1;
        deleted = false;
      }
      ∷ [];
  cases = waiting ∷ [];
  supplier_results = result ∷ [];
  internal_results = [];
  samples = [];
  documents = record { id = 91; checksum_sha256 = codes "ab12"; deleted = false } ∷ [];
  sections =
      record {
        id = 92;
        document_id = 91;
        section_index = 1;
        page_from = 1;
        page_to = 1;
        status = "MATCHED";
      }
      ∷ [];
  links =
      record {
        document_section_id = 92;
        receipt_lot_allocation_id = 61;
        match_status = "CONFIRMED";
      }
      ∷ [];
  snapshots = [];
  approvals = [];
  merge_approvals = [];
  standards = [];
  runs = [];
  reviews = [];
  return_reasons = [];
  keys = [];
  audit_logs = [];
  events = [];
}

abbrev pub request : String → Request
request decision = record {
  case_id = 1;
  expected_version = 3;
  actor_id = 8;
  actor_role = "LEAD";
  final_decision = decision;
  reason = some "retained sample agrees";
}

successes :
    (is_ok (finalize digest store (request "ACCEPTED")) ≡ true)
    × (is_ok (finalize digest store (request "SPECIAL_ACCEPTED")) ≡ true)
unfolding finalize effective_spec sort_by insert_by persisted_inputs rule_of digits fixed_digits
    digits_value to_str format_f parse parse_text canonical_matches to_decimal span_digits validate
    check_columns guard_transition find_case check_case lacks_reason is_blank strip lstrip rstrip
    evaluate_case evaluate_item evaluate_item_details judge apply_policies chosen aggregate_all
    aggregate decisions by_policy normalise_values normalise_value evaluate_rule apply_rule combine
    dec_leb dec_ltb normalise iso_date dumps sort_entries text_ltb comma_joined quoted escape_all
    loads load_value load_key load_string load_digits token behind canonical_json canonical_hash
    freeze freeze_for_approval check_approval verify payload of_json is_empty_required_value
    uuid_text rule_payload document_hashes item_decisions stated_reason snapshot_payload
    supplier_samples internal_samples item_input item_inputs joined_specs is_effective ranks_above
    most_specific reviewed_case origin_of check_decision snapshot_of record_decision insert_entry
successes = (refl, refl)

pub acceptance : (after : Store) × (finalize digest store (request "ACCEPTED") ≡ ok after)
acceptance = is_ok_value (finalize digest store (request "ACCEPTED")) successes.0

special : (after : Store) × (finalize digest store (request "SPECIAL_ACCEPTED") ≡ ok after)
special = is_ok_value (finalize digest store (request "SPECIAL_ACCEPTED")) successes.1

-- The case with the decision that the engine proposes, which is approved.
abbrev pub proposed_store : Store
proposed_store = record store {
  cases = record waiting { candidate_decision = some "ACCEPTED" } ∷ [];
}

abbrev pub lead_principal : Principal
lead_principal = record { actor_id = 8; role = "LEAD" }

abbrev pub approval : Decision
approval = record {
  case_id = 1;
  expected_version = 3;
  action = "APPROVE";
  reason = none;
  fault = false;
}

approves : is_ok (approve_inspection digest proposed_store lead_principal approval) ≡ true
unfolding approve_inspection finalize effective_spec sort_by insert_by persisted_inputs rule_of
    digits fixed_digits digits_value to_str format_f parse parse_text canonical_matches to_decimal
    span_digits validate check_columns guard_transition find_case check_case lacks_reason is_blank
    strip lstrip rstrip evaluate_case evaluate_item evaluate_item_details judge apply_policies
    chosen aggregate_all aggregate decisions by_policy normalise_values normalise_value
    evaluate_rule apply_rule combine dec_leb dec_ltb normalise iso_date dumps sort_entries text_ltb
    comma_joined quoted escape_all loads load_value load_key load_string load_digits token behind
    canonical_json canonical_hash freeze freeze_for_approval check_approval verify payload of_json
    is_empty_required_value uuid_text rule_payload document_hashes item_decisions stated_reason
    snapshot_payload supplier_samples internal_samples item_input item_inputs joined_specs
    is_effective ranks_above most_specific reviewed_case origin_of check_decision snapshot_of
    record_decision insert_entry
approves = refl

pub approved :
    (after : Store) × (approve_inspection digest proposed_store lead_principal approval ≡ ok after)
approved = is_ok_value (approve_inspection digest proposed_store lead_principal approval) approves

finalize-accepted_example :
    (kase : InspectionCase) × (inputs : List ItemInput) × (find_case_row store 1 ≡ some kase)
    × (persisted_inputs store 1 kase.spec_version_id ≡ ok inputs)
    × (inputs ≢ [])
    × All (λ item. evaluate_item item ≡ accepted) inputs
finalize-accepted_example = finalize-accepted digest store (request "ACCEPTED") acceptance.1 refl

finalize-ok_iff_example :
    (finalize digest store (request "SPECIAL_ACCEPTED") ≡ ok special.0)
    ↔ Passes digest store (request "SPECIAL_ACCEPTED") special.0
finalize-ok_iff_example = finalize-ok_iff digest store (request "SPECIAL_ACCEPTED") special.0

abbrev origin : Origin
origin = record {
  allocation = record {
    id = 61;
    inbound_receipt_id = 81;
    material_lot_id = 71;
    model_id = none;
    quantity = finite false 5 (pos 0);
    quantity_unit = "kg";
    lock_version = 1;
    deleted = false;
  };
  receipt = received;
  lot = lot;
}

abbrev chosen_spec : Candidate
chosen_spec = (
  record {
    id = 21;
    spec_profile_id = 11;
    version = 1;
    status = "ACTIVE";
    effective_from = day 1;
    effective_to = none;
  },
  record { id = 11; material_id = 5; supplier_id = none; model_id = none },
)

spec-selected :
    effective_spec store waiting origin.allocation origin.receipt origin.lot ≡ ok chosen_spec
unfolding effective_spec sort_by insert_by joined_specs is_effective ranks_above most_specific
spec-selected = refl
