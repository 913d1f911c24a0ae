-- ===== src/Approval/Finalize.antt =====
-- `finalize`: the checks in the code's order, the snapshot, and the rows that it writes. SHA-256 is
-- a parameter.
use hanyangchem_qc_v.Base.{
  ℕ, suc, true, not, ◌&&◌, ◌||◌, Option, some, List, [], ◌∷◌, ◌++◌, map, any, String, str_eq,
  is_some, is_empty, ◌==◌, if◌then◌else◌, Result, ok, err, ◌>>=◌, ◌>>◌, raise_if,
}
use hanyangchem_qc_v.Workflow.{
  WorkflowState, draft, document_pending, match_review, supplier_review, internal_test_pending,
  ready_for_review, lead_review, returned, retest, special_accepted, closed, cancelled,
  guard_transition, lacks_reason, TransitionError,
}
use hanyangchem_qc_v.Judgment.{EngineDecision, ItemInput}
use hanyangchem_qc_v.Judgment.Evaluate.{evaluate_item_details, evaluate_case}
use hanyangchem_qc_v.Snapshots.{Text, Value, str, dict, Canonical}
use hanyangchem_qc_v.Snapshots.Freeze.{DecisionSnapshot, freeze_for_approval, verify, payload}
use hanyangchem_qc_v.Store.{
  MaterialLot, InboundReceipt, ReceiptLotAllocation, InspectionCase, DecisionSnapshotRow, Store,
  get_row,
}
use hanyangchem_qc_v.Approval.{
  Attempt, or_raise, enum, live, Candidate, effective_spec, not_lead, same_actor, stale_approval,
  not_allowed_decision, case_unavailable, not_awaiting, submitter_missing, allocation_unavailable,
  receipt_unavailable, not_canonical_lot, reason_required, held_accepted, transition_refused,
  no_documents, snapshot_refused, integrity_error,
}
use hanyangchem_qc_v.Approval.Inputs.{persisted_inputs, items_of, suppliers_of, internals_of}
use hanyangchem_qc_v.Approval.Labels.{decision_text}
use hanyangchem_qc_v.Approval.Rows.{texts, uuid, object_of, document_hashes}
use hanyangchem_qc_v.Approval.Payload.{Evidence, snapshot_payload, stated_reason}

-- FINAL_DECISIONS.
abbrev pub final_decisions : List String
final_decisions = "ACCEPTED" ∷ "REJECTED" ∷ "ON_HOLD" ∷ "RETEST" ∷ "SPECIAL_ACCEPTED" ∷ []

-- WorkflowState by its values.
abbrev pub workflow_states : List (WorkflowState × String)
workflow_states =
    (draft, "DRAFT")
    ∷ (document_pending, "DOCUMENT_PENDING")
    ∷ (match_review, "MATCH_REVIEW")
    ∷ (supplier_review, "SUPPLIER_REVIEW")
    ∷ (internal_test_pending, "INTERNAL_TEST_PENDING")
    ∷ (ready_for_review, "READY_FOR_REVIEW")
    ∷ (lead_review, "LEAD_REVIEW")
    ∷ (returned, "RETURNED")
    ∷ (WorkflowState.accepted, "ACCEPTED")
    ∷ (WorkflowState.rejected, "REJECTED")
    ∷ (retest, "RETEST")
    ∷ (special_accepted, "SPECIAL_ACCEPTED")
    ∷ (WorkflowState.on_hold, "ON_HOLD")
    ∷ (closed, "CLOSED")
    ∷ (cancelled, "CANCELLED")
    ∷ []

pub record Request : Type 0 where
  pub case_id : ℕ
  pub expected_version : ℕ
  pub actor_id : ℕ
  pub actor_role : String
  pub final_decision : String
  pub reason : Option String

abbrev pub find_case_row : Store → ℕ → Option InspectionCase
find_case_row store i =
    live (λ (c : InspectionCase). c.deleted) (get_row (λ (c : InspectionCase). c.id) i store.cases)

-- The checks on the case that the request names.
unfoldable pub reviewed_case : Store → Request → Attempt InspectionCase
reviewed_case store q = do
  raise_if (not (str_eq q.actor_role "LEAD")) not_lead
  raise_if (not (any (λ d. str_eq d q.final_decision) final_decisions)) not_allowed_decision
  kase ← or_raise (find_case_row store q.case_id) case_unavailable
  raise_if (not (kase.lock_version == q.expected_version)) stale_approval
  raise_if (is_some kase.final_decision || not (str_eq kase.status "LEAD_REVIEW")) not_awaiting
  submitter ← or_raise kase.submitted_by_id submitter_missing
  raise_if (submitter == q.actor_id) same_actor
  ok kase

pub record Origin : Type 0 where
  pub allocation : ReceiptLotAllocation
  pub receipt : InboundReceipt
  pub lot : MaterialLot

-- The allocation, the receipt and the LOT of the case.
unfoldable pub origin_of : Store → InspectionCase → Attempt Origin
origin_of store kase = do
  allocation ←
      or_raise
        (live (λ (a : ReceiptLotAllocation). a.deleted)
          (get_row (λ (a : ReceiptLotAllocation). a.id) kase.receipt_lot_allocation_id
            store.allocations))
        allocation_unavailable
  receipt ←
      or_raise
        (live (λ (r : InboundReceipt). r.deleted)
          (get_row (λ (r : InboundReceipt). r.id) allocation.inbound_receipt_id store.receipts))
        receipt_unavailable
  lot ←
      or_raise (get_row (λ (l : MaterialLot). l.id) allocation.material_lot_id store.lots)
        receipt_unavailable
  raise_if (not (str_eq lot.identity_status "CANONICAL") || is_some lot.merged_into_id)
      not_canonical_lot
  ok (record { allocation = allocation; receipt = receipt; lot = lot })

abbrev pub refused_transition : Result TransitionError (Unit {0}) → Attempt (Unit {0})
refused_transition (ok u) = ok u
refused_transition (err e) = err transition_refused

-- The checks on the decision, given the candidate.
unfoldable pub check_decision : Request → EngineDecision → Attempt (Unit {0})
check_decision q candidate = do
  raise_if (not (str_eq q.final_decision (decision_text candidate)) && lacks_reason q.reason)
      reason_required
  raise_if (not (str_eq (decision_text candidate) "ACCEPTED") && str_eq q.final_decision "ACCEPTED")
      held_accepted
  target ← enum workflow_states q.final_decision transition_refused
  refused_transition (guard_transition lead_review target q.actor_role q.reason true)

abbrev pub or_refused {ℓ} : {A : Type ℓ} → Canonical A → Attempt A
or_refused (ok a) = ok a
or_refused (err e) = err (snapshot_refused e)

abbrev pub evidence :
    Store → Request → InspectionCase → Origin → Candidate → List ItemInput → Evidence
evidence store q kase o spec inputs = record {
  actor_id = q.actor_id;
  reason = q.reason;
  final_decision = q.final_decision;
  candidate = evaluate_case inputs;
  version = spec.0;
  profile = spec.1;
  allocation = o.allocation;
  lot = o.lot;
  spec_items = items_of store spec.0.id;
  suppliers = suppliers_of store kase.id;
  internals = internals_of store kase.id;
  evaluations = map evaluate_item_details inputs;
  hashes = document_hashes store o.allocation.id;
}

-- The case as it is left, `flush` having raised its version.
abbrev pub finalized : Request → EngineDecision → InspectionCase → InspectionCase
finalized q candidate kase = record kase {
  status = q.final_decision;
  candidate_decision = some (decision_text candidate);
  final_decision = some q.final_decision;
  lock_version = suc kase.lock_version;
}

abbrev pub put_case : InspectionCase → List InspectionCase → List InspectionCase
put_case kase [] = []
put_case kase (c ∷ cs) =
    let rest = put_case kase cs in if c.id == kase.id then kase ∷ rest else c ∷ rest

-- The store with the rows of the decision added.
unfoldable pub record_decision :
    Store → Request → EngineDecision → InspectionCase → Value → Text → Store
record_decision store q candidate kase content hash = record store {
  cases = put_case (finalized q candidate kase) store.cases;
  snapshots =
      store.snapshots
      ++ record { inspection_case_id = kase.id; payload = content; content_hash = hash } ∷ [];
  approvals =
      store.approvals
      ++ record {
        inspection_case_id = kase.id;
        action = "APPROVE";
        actor_id = q.actor_id;
        actor_role = "LEAD";
      }
        ∷ [];
  audit_logs =
      store.audit_logs
      ++ record {
        entity_type = "inspection_case";
        entity_id = kase.id;
        action = "FINALIZE";
        payload = object_of (
            ("candidate_decision", texts (decision_text candidate))
            ∷ ("final_decision", texts q.final_decision)
            ∷ ("snapshot_hash", str hash)
            ∷ []);
        reason = stated_reason q.reason;
      }
        ∷ [];
  events =
      store.events
      ++ record {
        topic = "inspection.finalized";
        payload =
            object_of (("inspection_case_id", uuid kase.id) ∷ ("snapshot_hash", str hash) ∷ []);
      }
        ∷ [];
}

module _ (sha256 : Text → Text) where
  -- `_snapshot`.
  unfoldable pub snapshot_of : Evidence → Attempt DecisionSnapshot
  snapshot_of x = do
    raise_if (is_empty x.hashes) no_documents
    snapshot ← or_refused (freeze_for_approval sha256 (snapshot_payload x))
    or_refused (verify sha256 snapshot)
    ok snapshot

  -- `finalize`: the store that it leaves.
  unfoldable pub finalize : Store → Request → Attempt Store
  unfolding reviewed_case origin_of check_decision snapshot_of record_decision
  finalize store q = do
    kase ← reviewed_case store q
    origin ← origin_of store kase
    spec ← effective_spec store kase origin.allocation origin.receipt origin.lot
    inputs ← persisted_inputs store kase.id spec.0.id
    let candidate = evaluate_case inputs
    check_decision q candidate
    snapshot ← snapshot_of (evidence store q kase origin spec inputs)
    content ← or_refused (payload snapshot)
    raise_if (any (λ (r : DecisionSnapshotRow). r.inspection_case_id == kase.id) store.snapshots)
        integrity_error
    ok (record_decision store q candidate kase (dict content) snapshot.content_hash)
