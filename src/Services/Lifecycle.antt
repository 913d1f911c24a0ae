-- ===== src/Services/Lifecycle.antt =====
-- `submit_inspection`, `approve_inspection` and `return_inspection` of
-- backend/src/hyc_api/services/p3.py. The case is the row that the route has read.
pub mod Submitted
pub mod Settled
pub mod Decided
use hanyangchem_qc_v.Base.{
  ℕ, suc, Bool, true, false, not, ◌&&◌, ◌||◌, Option, none, some, List, [], ◌∷◌, ◌++◌, is_empty,
  is_some, String, str_eq, ◌==◌, if◌then◌else◌, Result, ok, err, ◌>>=◌, ◌>>◌, raise_if,
}
use hanyangchem_qc_v.Snapshots.{Text, Value}
use hanyangchem_qc_v.Store.{
  SpecItem, InspectionCase, InspectionReturnReason, AuditLog, Store, get_row,
}
use hanyangchem_qc_v.Workflow.{lacks_reason}
use hanyangchem_qc_v.Approval.{Attempt}
use hanyangchem_qc_v.Approval.Rows.{uuid, texts, or_null, or_text, object_of}
use hanyangchem_qc_v.Approval.Finalize.{Request, put_case, finalize}
use hanyangchem_qc_v.Services.{
  Service, Principal, stale_inspection, finalized_immutable, blockers_remain, case_not_found,
  refused_approval, fault_injected, reason_missing, stale_state, bad_return_target,
}
use hanyangchem_qc_v.Services.Selection.{or_fail}
use hanyangchem_qc_v.Services.Judging.{View}
use hanyangchem_qc_v.Services.Evaluation.{Evaluated, evaluate_inspection, inspection_view, flushed}

abbrev pub audited : Store → InspectionCase → String → Option String → Value → Store
audited store kase action reason payload = record store {
  cases = put_case kase store.cases;
  audit_logs =
      store.audit_logs
      ++ record {
        entity_type = "inspection_case";
        entity_id = kase.id;
        action = action;
        payload = payload;
        reason = reason;
      }
        ∷ [];
}

-- The case as `submit_inspection` leaves it.
abbrev pub submitted : InspectionCase → Principal → InspectionCase
submitted kase principal =
    flushed kase (record kase { status = "LEAD_REVIEW"; submitted_by_id = some principal.actor_id })

-- `submit_inspection`: what is committed, and the response that is built behind it.
unfoldable pub submit_inspection :
    Store → InspectionCase → ℕ → Principal → Service (Store × Service View)
submit_inspection store kase expected_version principal = do
  raise_if (not (kase.lock_version == expected_version)) stale_inspection
  raise_if (is_some kase.final_decision) finalized_immutable
  e ← evaluate_inspection store kase
  raise_if (not (is_empty e.view.blockers) || str_eq e.view.candidate_decision "ON_HOLD")
      blockers_remain
  let left =
      audited e.store (submitted e.kase principal) "P3_SUBMITTED" none
        (object_of (("actor_id", uuid principal.actor_id) ∷ []))
  ok (left, inspection_view left (submitted e.kase principal))

abbrev pub target_fits : Store → InspectionCase → Option ℕ → Bool
target_fits store kase none = true
target_fits store kase (some i) = elim (get_row (λ (x : SpecItem). x.id) i store.items) [
  | none ↦ false
  | some item ↦ item.spec_version_id == kase.spec_version_id
]

abbrev pub with_return : Store → InspectionCase → Principal → String → Option ℕ → Store
with_return store kase principal reason target = record store {
  return_reasons =
      store.return_reasons
      ++ record {
        inspection_case_id = kase.id;
        reason = reason;
        target_spec_item_id = target;
        returned_by_id = principal.actor_id;
        actor_role = principal.role;
      }
        ∷ [];
}

-- `return_inspection`.
unfoldable pub return_inspection :
    Store → InspectionCase → ℕ → Principal → Option String → Option ℕ → Service Store
return_inspection store kase expected_version principal reason target = do
  raise_if (lacks_reason reason) reason_missing
  raise_if (not (kase.lock_version == expected_version) || not (str_eq kase.status "LEAD_REVIEW"))
      stale_state
  raise_if (not (target_fits store kase target)) bad_return_target
  ok (
      audited (with_return store kase principal (or_text reason "") target)
        (flushed kase (record kase { status = "RETURNED" })) "P3_RETURNED" reason
        (object_of (
          ("actor_id", uuid principal.actor_id)
          ∷ ("target_spec_item_id", or_null uuid target)
          ∷ [])))

abbrev pub or_refused {ℓ} : {A : Type ℓ} → Attempt A → Service A
or_refused (ok a) = ok a
or_refused (err e) = err (refused_approval e)

-- The arguments of `approve_inspection`. A fault is injected on request.
pub record Decision : Type 0 where
  pub case_id : ℕ
  pub expected_version : ℕ
  pub action : String
  pub reason : Option String
  pub fault : Bool

abbrev pub case_row : Store → ℕ → Option InspectionCase
case_row store i = get_row (λ (c : InspectionCase). c.id) i store.cases

abbrev pub approval_request : InspectionCase → Principal → Decision → Request
approval_request kase principal d = record {
  case_id = d.case_id;
  expected_version = d.expected_version;
  actor_id = principal.actor_id;
  actor_role = principal.role;
  final_decision = or_text kase.candidate_decision "ON_HOLD";
  reason = d.reason;
}

module _ (sha256 : Text → Text) where
  -- `approve_inspection`.
  unfoldable pub approve_inspection : Store → Principal → Decision → Service Store
  unfolding return_inspection
  approve_inspection store principal d = do
    kase ← or_fail (case_row store d.case_id) (err case_not_found)
    let returning = return_inspection store kase d.expected_version principal d.reason none
    let settling =
        or_refused (finalize sha256 store (approval_request kase principal d)) >>= λ finalized.
        raise_if d.fault fault_injected >> ok finalized
    if str_eq d.action "RETURN" then returning else settling
