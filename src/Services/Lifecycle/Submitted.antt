-- ===== src/Services/Lifecycle/Submitted.antt =====
-- About cases that are submitted (`submit_inspection` and `approve_inspection` of p3.py).
use hanyangchem_qc_v.Base.{
  ℕ, ◌≡◌, refl, sym, ap, ◌∙◌, inl, inr, Bool, true, false, not, ◌||◌, none, some, some-injective,
  List, [], ◌∷◌, is_empty, is_some, str_eq, ◌==◌, ==_iff, arith, Bool-cases, Result-cases,
  raise_if-ok, ok, err,
}
use hanyangchem_qc_v.Snapshots.{Text}
use hanyangchem_qc_v.Judgment.{EngineDecision}
use hanyangchem_qc_v.Judgment.Evaluate.{evaluate_case}
use hanyangchem_qc_v.Store.{InspectionCase, Store}
use hanyangchem_qc_v.Approval.Finalize.{finalize}
use hanyangchem_qc_v.Approval.Labels.{decision_text}
use hanyangchem_qc_v.Approval.Rows.{uuid, object_of}
use hanyangchem_qc_v.Approval.Success.{finalize-Steps}
use hanyangchem_qc_v.Approval.Accepted.{reviewed_case-Reviewable, live-some, negated}
use hanyangchem_qc_v.Approval.Once.{row, put_case-same}
use hanyangchem_qc_v.Services.{
  Service, ServiceError, Principal, stale_inspection, finalized_immutable, blockers_remain,
  refused_approval,
}
use hanyangchem_qc_v.Services.Judging.{Blocker, View}
use hanyangchem_qc_v.Services.Evaluation.{
  judged, Findings, findings, evaluated_case, evaluate_inspection, flushed, with_judgments,
}
use hanyangchem_qc_v.Services.Lifecycle.{
  audited, submitted, submit_inspection, Decision, case_row, approval_request, approve_inspection,
}

pub flushed-id : (old new : InspectionCase) → (flushed old new).id ≡ new.id
flushed-id old new = ground arith

flushed-submitted_by :
    (old new : InspectionCase) → (flushed old new).submitted_by_id ≡ new.submitted_by_id
flushed-submitted_by old new = ground arith

pub evaluated_case-id :
    (kase : InspectionCase) (candidate : EngineDecision) (bs : List Blocker)
    → (evaluated_case kase candidate bs).id ≡ kase.id
unfolding evaluated_case
evaluated_case-id kase candidate bs = elim (Bool-cases (is_some kase.final_decision)) [
  | inl settled ↦ rw settled refl
  | inr undecided ↦ rw undecided (flushed-id kase (judged kase candidate bs))
]

-- The store that an evaluation leaves has the evaluated case in the place of the case.
with_judgments-case :
    (store : Store) (kase : InspectionCase) (f : Findings)
    → case_row store kase.id ≡ some kase
    → case_row (with_judgments store kase f) kase.id
      ≡ some (evaluated_case kase (evaluate_case f.inputs) f.blockers)
unfolding with_judgments
with_judgments-case store kase f h =
    put_case-same kase.id (evaluated_case kase (evaluate_case f.inputs) f.blockers) store.cases
      (evaluated_case-id kase (evaluate_case f.inputs) f.blockers) h

-- What a submission rests on and what it leaves.
pub record Submission (store : Store) (kase : InspectionCase) (version : ℕ) (principal : Principal)
    (after : Store) : Type 0 where
  pub found : Findings
  pub current : kase.lock_version ≡ version
  pub undecided : is_some kase.final_decision ≡ false
  pub evaluated : findings store kase ≡ ok found
  pub cleared : is_empty found.blockers ≡ true
  pub decided : str_eq (decision_text (evaluate_case found.inputs)) "ON_HOLD" ≡ false
  pub left :
      after
      ≡ audited
          (with_judgments store kase found)
          (submitted (evaluated_case kase (evaluate_case found.inputs) found.blockers) principal)
          "P3_SUBMITTED"
          none
          (object_of (("actor_id", uuid principal.actor_id) ∷ []))

or_false : (a b : Bool) → (a || b) ≡ false → (a ≡ false) × (b ≡ false)
or_false a b h = ground arith

first_part :
    (a b : Store) (x y : Service View)
    → ◌≡◌ {A = Service (Store × Service View)} (ok (a, x)) (ok (b, y))
    → b ≡ a
first_part a b x y h = cc

pub submit_inspection-Submission :
    (store : Store) (kase : InspectionCase) (version : ℕ) (principal : Principal) {after : Store}
    {response : Service View}
    → submit_inspection store kase version principal ≡ ok (after, response)
    → Submission store kase version principal after
unfolding submit_inspection evaluate_inspection
submit_inspection-Submission store kase version principal h =
    let (current, h1) = raise_if-ok (not (kase.lock_version == version)) stale_inspection _ h in
    let (undecided, h2) = raise_if-ok (is_some kase.final_decision) finalized_immutable _ h1 in
    elim (Result-cases (findings store kase)) [
      | inr (e, failed) ↦ absurd (cc (rw failed at h2))
      | inl (f, evaluated) ↦
          let (ready, h3) =
            raise_if-ok
              (not (is_empty f.blockers)
                || str_eq (decision_text (evaluate_case f.inputs)) "ON_HOLD")
              blockers_remain _ (rw evaluated at h2) in
          let (clear, decided) = or_false (not (is_empty f.blockers)) _ ready in
          record {
            found = f;
            current = (==_iff _ _).0 (negated _ current);
            undecided = undecided;
            evaluated = evaluated;
            cleared = negated _ clear;
            decided = decided;
            left = first_part _ _ _ _ h3;
          }
    ]

module _ (store : Store) (kase : InspectionCase) (version : ℕ) (principal : Principal)
    {after : Store} {response : Service View} (stands : case_row store kase.id ≡ some kase)
    (h : submit_inspection store kase version principal ≡ ok (after, response)) where
  -- The row of a case that was submitted.
  pub submitted_row :
      (k : InspectionCase) × (case_row after kase.id ≡ some k)
      × (k.submitted_by_id ≡ some principal.actor_id)
  submitted_row =
      let s = submit_inspection-Submission store kase version principal h in
      let evaluated = evaluated_case kase (evaluate_case s.found.inputs) s.found.blockers in
      let k = submitted evaluated principal in
      let number : k.id ≡ kase.id =
        flushed-id evaluated _
        ∙ evaluated_case-id kase (evaluate_case s.found.inputs) s.found.blockers in
      let put =
        put_case-same kase.id k (with_judgments store kase s.found).cases number
          (with_judgments-case store kase s.found stands) in
      (k, ap (λ x. case_row x kase.id) s.left ∙ put, flushed-submitted_by evaluated _)

  -- Who submits a case does not decide it: an approval by the same person is refused, whatever
  -- version it expects, whatever role it claims and whether or not a fault is injected.
  pub submit-approve_inspection :
      (sha256 : Text → Text) (approver : Principal) (d : Decision)
      → approver.actor_id ≡ principal.actor_id
      → d.case_id ≡ kase.id
      → str_eq d.action "RETURN" ≡ false
      → (e : ServiceError) × (approve_inspection sha256 after approver d ≡ err e)
  unfolding approve_inspection
  submit-approve_inspection sha256 approver d same number action =
      let (k, stored, by) = submitted_row in
      let q = approval_request k approver d in
      let there : case_row after d.case_id ≡ some k = ap (case_row after) number ∙ stored in
      elim (Result-cases (finalize sha256 after q)) [
        | inr (e, refused) ↦ (refused_approval e, rw (there, action, refused) refl)
        | inl (settled, success) ↦
            let steps = finalize-Steps sha256 after q success in
            let r = reviewed_case-Reviewable after q steps.reviewed in
            let (s, submitter, other) = r.four_eyes in
            let live =
              live-some (λ (c : InspectionCase). c.deleted) (row d.case_id after.cases) r.stands in
            let mine : some s ≡ some principal.actor_id =
              sym submitter
              ∙ ap (λ (c : InspectionCase). c.submitted_by_id)
                  (some-injective _ _ (sym live ∙ there))
              ∙ by in
            absurd (other (some-injective _ _ mine ∙ sym same))
      ]
