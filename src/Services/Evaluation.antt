-- ===== src/Services/Evaluation.antt =====
-- `evaluate_inspection` of backend/src/hyc_api/services/p3.py, over the specification, the inputs
-- and the engine of the approvals.
use hanyangchem_qc_v.Base.{
  ℕ, suc, Bool, true, false, ◌&&◌, Option, none, some, List, map, is_empty, is_some, String, str_eq,
  opt_eq, if◌then◌else◌, ok, err, ◌>>=◌,
}
use hanyangchem_qc_v.Judgment.{EngineDecision, ItemInput}
use hanyangchem_qc_v.Judgment.Evaluate.{evaluate_item_details, evaluate_case}
use hanyangchem_qc_v.Store.{
  InspectionCase, MaterialLot, InboundReceipt, ReceiptLotAllocation, Store, get_row,
}
use hanyangchem_qc_v.Approval.{Attempt, Candidate, effective_spec}
use hanyangchem_qc_v.Approval.Inputs.{persisted_inputs, items_of, suppliers_of, internals_of}
use hanyangchem_qc_v.Approval.Labels.{decision_text}
use hanyangchem_qc_v.Approval.Finalize.{put_case}
use hanyangchem_qc_v.Services.{Service, context_not_found, failed_precondition}
use hanyangchem_qc_v.Services.Selection.{or_fail, receipt_row, lot_of}
use hanyangchem_qc_v.Services.Judging.{
  Blocker, blocker_set, JudgmentView, View, judge_items, judged_suppliers, judged_internals,
}

abbrev pub or_failed {ℓ} : {A : Type ℓ} → Attempt A → Service A
or_failed (ok a) = ok a
or_failed (err e) = err (failed_precondition e)

abbrev pub same_text : Option String → Option String → Bool
same_text none none = true
same_text (some a) (some b) = str_eq a b
same_text _ _ = false

-- `flush`: the version is raised where a column of the row has changed.
abbrev pub flushed : InspectionCase → InspectionCase → InspectionCase
flushed old new =
    if str_eq old.status new.status
      && same_text old.candidate_decision new.candidate_decision
      && opt_eq old.submitted_by_id new.submitted_by_id
    then new
    else record new { lock_version = suc new.lock_version }

abbrev pub judged : InspectionCase → EngineDecision → List Blocker → InspectionCase
judged kase candidate blockers = record kase {
  candidate_decision = some (decision_text candidate);
  status =
      if str_eq kase.status "RETURNED"
      then kase.status
      else if is_empty blockers
      then "READY_FOR_REVIEW"
      else "INTERNAL_TEST_PENDING";
}

-- The case as an evaluation leaves it; a settled case stays as it is.
unfoldable pub evaluated_case : InspectionCase → EngineDecision → List Blocker → InspectionCase
evaluated_case kase candidate blockers =
    if is_some kase.final_decision then kase else flushed kase (judged kase candidate blockers)

pub record Context : Type 0 where
  pub allocation : ReceiptLotAllocation
  pub receipt : InboundReceipt
  pub lot : MaterialLot

abbrev pub allocation_row : Store → ℕ → Option ReceiptLotAllocation
allocation_row store i = get_row (λ (a : ReceiptLotAllocation). a.id) i store.allocations

unfoldable pub context_of : Store → InspectionCase → Service Context
context_of store kase = do
  allocation ← or_fail (allocation_row store kase.receipt_lot_allocation_id) (err context_not_found)
  receipt ← or_fail (receipt_row store allocation.inbound_receipt_id) (err context_not_found)
  lot ← or_fail (lot_of store allocation.material_lot_id) (err context_not_found)
  ok (record { allocation = allocation; receipt = receipt; lot = lot })

abbrev pub view_of :
    InspectionCase → Context → EngineDecision → List Blocker → List JudgmentView → View
view_of kase x candidate blockers judgments = record {
  inspection_id = kase.id;
  material_lot_id = x.lot.id;
  allocation_id = x.allocation.id;
  spec_version_id = kase.spec_version_id;
  spec_snapshot = kase.spec_snapshot;
  status = kase.status;
  candidate_decision = decision_text candidate;
  final_decision = kase.final_decision;
  version = kase.lock_version;
  round_no = kase.round_no;
  revision_no = kase.revision_no;
  blockers = blockers;
  judgments = judgments;
}

-- What an evaluation finds, before anything is written.
pub record Findings : Type 0 where
  pub around : Context
  pub spec : Candidate
  pub inputs : List ItemInput
  pub blockers : List Blocker
  pub judgments : List JudgmentView

unfoldable pub findings : Store → InspectionCase → Service Findings
unfolding context_of judge_items blocker_set
findings store kase = do
  x ← context_of store kase
  spec ← or_failed (effective_spec store kase x.allocation x.receipt x.lot)
  inputs ← or_failed (persisted_inputs store kase.id spec.0.id)
  (blockers, judgments) ←
      judge_items store (suppliers_of store kase.id) (internals_of store kase.id)
        (items_of store spec.0.id) (map evaluate_item_details inputs)
  ok (record {
    around = x;
    spec = spec;
    inputs = inputs;
    blockers = blocker_set blockers;
    judgments = judgments;
  })

-- The rows of the results and of the case, with what is written into them.
unfoldable pub with_judgments : Store → InspectionCase → Findings → Store
unfolding judged_suppliers judged_internals evaluated_case
with_judgments store kase f =
    let items = items_of store f.spec.0.id in
    let evaluations = map evaluate_item_details f.inputs in
    record store {
      supplier_results =
          judged_suppliers (suppliers_of store kase.id) items evaluations store.supplier_results;
      internal_results =
          judged_internals (internals_of store kase.id) items evaluations store.internal_results;
      cases = put_case (evaluated_case kase (evaluate_case f.inputs) f.blockers) store.cases;
    }

pub record Evaluated : Type 0 where
  pub store : Store
  pub kase : InspectionCase
  pub view : View

-- `evaluate_inspection`, with `persist` and without.
unfoldable pub evaluate_inspection : Store → InspectionCase → Service Evaluated
unfolding findings with_judgments evaluated_case
evaluate_inspection store kase = do
  f ← findings store kase
  let candidate = evaluate_case f.inputs
  let after = evaluated_case kase candidate f.blockers
  ok (record {
    store = with_judgments store kase f;
    kase = after;
    view = view_of after f.around candidate f.blockers f.judgments;
  })

unfoldable pub inspection_view : Store → InspectionCase → Service View
unfolding findings
inspection_view store kase = do
  f ← findings store kase
  ok (view_of kase f.around (evaluate_case f.inputs) f.blockers f.judgments)
