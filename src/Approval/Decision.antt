-- ===== src/Approval/Decision.antt =====
-- About the decisions that `finalize` of ApprovalRepository lets through.
use hanyangchem_qc_v.Base.{
  ◌≡◌, refl, sym, ◌≢◌, inl, inr, Bool, true, false, not, ◌&&◌, Option, some, List, [], All, Any,
  String, str_eq, eq_iff, Bool-cases, raise_if-ok, ok, ◌>>=◌, arith,
}
use hanyangchem_qc_v.Workflow.{lead_review, guard_transition, lacks_reason, find_case, check_case}
use hanyangchem_qc_v.Judgment.{EngineDecision, accepted, rejected, on_hold, ItemInput}
use hanyangchem_qc_v.Judgment.Evaluate.{evaluate_item, evaluate_case}
use hanyangchem_qc_v.Judgment.Policies.{evaluate_case-accepted_iff}
use hanyangchem_qc_v.Snapshots.{Text}
use hanyangchem_qc_v.Store.{InspectionCase, Store}
use hanyangchem_qc_v.Approval.{Attempt, enum, reason_required, held_accepted, transition_refused}
use hanyangchem_qc_v.Approval.Labels.{decision_text}
use hanyangchem_qc_v.Approval.Inputs.{persisted_inputs}
use hanyangchem_qc_v.Approval.Finalize.{
  Request, refused_transition, workflow_states, final_decisions, check_decision, finalize,
  find_case_row,
}
use hanyangchem_qc_v.Approval.Success.{finalize-Steps}
use hanyangchem_qc_v.Approval.Accepted.{
  reviewed_case-Reviewable, find_case_row-id, effective_spec-bound,
}

label-accepted : (c : EngineDecision) → str_eq (decision_text c) "ACCEPTED" ≡ true → c ≡ accepted
label-accepted accepted h = refl
label-accepted rejected h = cc
label-accepted on_hold h = cc

both_tests : (a b : Bool) → (not a && b) ≡ false → b ≡ true → a ≡ true
both_tests a b h k = ground arith

pub check_decision-accepted :
    (q : Request) (c : EngineDecision)
    → check_decision q c ≡ ok tt
    → q.final_decision ≡ "ACCEPTED"
    → c ≡ accepted
unfolding check_decision
check_decision-accepted q c h e =
    let (_, h1) =
      raise_if-ok (not (str_eq q.final_decision (decision_text c)) && lacks_reason q.reason)
        reason_required _ h in
    let (held, _) =
      raise_if-ok (not (str_eq (decision_text c) "ACCEPTED") && str_eq q.final_decision "ACCEPTED")
        held_accepted _ h1 in
    label-accepted c (both_tests _ _ held ((eq_iff _ _).1 e))

-- The last check of `finalize`, for a lead.
abbrev pub settle : Option String → String → Attempt (Unit {0})
settle reason d = enum workflow_states d transition_refused >>= λ target.
    refused_transition (guard_transition lead_review target "LEAD" reason true)

rejected-reason : (r : Option String) → settle r "REJECTED" ≡ ok tt → lacks_reason r ≡ false
unfolding guard_transition find_case check_case
rejected-reason r h = elim (Bool-cases (lacks_reason r)) [
  | inl lacks ↦ absurd (cc (rw lacks at h))
  | inr reasoned ↦ reasoned
]

on_hold-reason : (r : Option String) → settle r "ON_HOLD" ≡ ok tt → lacks_reason r ≡ false
unfolding guard_transition find_case check_case
on_hold-reason r h = elim (Bool-cases (lacks_reason r)) [
  | inl lacks ↦ absurd (cc (rw lacks at h))
  | inr reasoned ↦ reasoned
]

retest-reason : (r : Option String) → settle r "RETEST" ≡ ok tt → lacks_reason r ≡ false
unfolding guard_transition find_case check_case
retest-reason r h = elim (Bool-cases (lacks_reason r)) [
  | inl lacks ↦ absurd (cc (rw lacks at h))
  | inr reasoned ↦ reasoned
]

special_accepted-reason :
    (r : Option String) → settle r "SPECIAL_ACCEPTED" ≡ ok tt → lacks_reason r ≡ false
unfolding guard_transition find_case check_case
special_accepted-reason r h = elim (Bool-cases (lacks_reason r)) [
  | inl lacks ↦ absurd (cc (rw lacks at h))
  | inr reasoned ↦ reasoned
]

pub settle-reason :
    (r : Option String) (d : String)
    → Any (λ x. str_eq x d ≡ true) final_decisions
    → d ≢ "ACCEPTED"
    → settle r d ≡ ok tt
    → lacks_reason r ≡ false
settle-reason r d (inl e) n h = absurd (n (sym ((eq_iff _ _).0 e)))
settle-reason r d (inr (inl e)) n h = rejected-reason r (rw (← (eq_iff _ _).0 e) at h)
settle-reason r d (inr (inr (inl e))) n h = on_hold-reason r (rw (← (eq_iff _ _).0 e) at h)
settle-reason r d (inr (inr (inr (inl e)))) n h = retest-reason r (rw (← (eq_iff _ _).0 e) at h)
settle-reason r d (inr (inr (inr (inr (inl e))))) n h =
    special_accepted-reason r (rw (← (eq_iff _ _).0 e) at h)
settle-reason r d (inr (inr (inr (inr (inr e))))) n h = absurd e

pub check_decision-settle :
    (q : Request) (c : EngineDecision)
    → check_decision q c ≡ ok tt
    → q.actor_role ≡ "LEAD"
    → settle q.reason q.final_decision ≡ ok tt
unfolding check_decision
check_decision-settle q c h role =
    let (_, h1) =
      raise_if-ok (not (str_eq q.final_decision (decision_text c)) && lacks_reason q.reason)
        reason_required _ h in
    let (_, h2) =
      raise_if-ok (not (str_eq (decision_text c) "ACCEPTED") && str_eq q.final_decision "ACCEPTED")
        held_accepted _ h1 in
    rw role at h2

module _ (sha256 : Text → Text) (store : Store) (q : Request) {after : Store} where
  -- A case is settled as ACCEPTED only if its specification has items and the engine accepts every
  -- one of them, as the rows of the case and of the specification it is bound to give them.
  pub finalize-accepted :
      finalize sha256 store q ≡ ok after
      → q.final_decision ≡ "ACCEPTED"
      → (kase : InspectionCase) × (inputs : List ItemInput) × (find_case_row store q.case_id
          ≡ some kase)
        × (persisted_inputs store q.case_id kase.spec_version_id ≡ ok inputs)
        × (inputs ≢ [])
        × All (λ item. evaluate_item item ≡ accepted) inputs
  finalize-accepted h e =
      let steps = finalize-Steps sha256 store q h in
      let stands = (reviewed_case-Reviewable store q steps.reviewed).stands in
      let (some_item, all_items) =
        (evaluate_case-accepted_iff steps.inputs).0
          (check_decision-accepted q (evaluate_case steps.inputs) steps.decided e) in
      let read =
        rw
          (
            find_case_row-id store q.case_id stands,
            effective_spec-bound store steps.kase steps.origin steps.selected,
          )
          at steps.read in
      (steps.kase, steps.inputs, stands, read, some_item, all_items)
