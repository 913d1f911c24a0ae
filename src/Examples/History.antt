-- ===== src/Examples/History.antt =====
-- Requests on the case of the approvals, one after the other.
use hanyangchem_qc_v.Base.{
  All, ◌≡◌, refl, sym, ap, ◌∙◌, some-injective, any, raise_if, ◌>>◌, true, some, [], ◌∷◌, ok, err,
}
use hanyangchem_qc_v.Store.{InspectionCase, DecisionSnapshotRow, Store}
use hanyangchem_qc_v.Approval.{ApprovalError}
use hanyangchem_qc_v.Judgment.{EngineDecision}
use hanyangchem_qc_v.Judgment.Evaluate.{evaluate_case}
use hanyangchem_qc_v.Approval.Finalize.{finalize, finalized, put_case, record_decision}
use hanyangchem_qc_v.Approval.Success.{finalize-Steps}
use hanyangchem_qc_v.Approval.Accepted.{reviewed_case-Reviewable}
use hanyangchem_qc_v.Services.{database_error}
use hanyangchem_qc_v.Services.Lifecycle.{case_row}
use hanyangchem_qc_v.Services.Lineage.{cloned_case, same_place, with_clone, clone_lineage}
use hanyangchem_qc_v.Services.History.{here, next, lineage, decision, snapshots_of}
use hanyangchem_qc_v.Services.History.Settled.{finalize-Reach}
use hanyangchem_qc_v.Examples.Approval
use hanyangchem_qc_v.Services.History.FourEyes.{Backed, Reach-Backed}
use hanyangchem_qc_v.Examples.Lineage

-- The case of the approvals once it is accepted, whatever the engine has proposed.
abbrev accepted_case : EngineDecision → InspectionCase
accepted_case e = finalized (Approval.request "ACCEPTED") e Approval.waiting

acceptance-cases : (e : EngineDecision) × (Approval.acceptance.0.cases ≡ accepted_case e ∷ [])
unfolding record_decision
acceptance-cases =
    let steps =
      finalize-Steps Approval.digest Approval.store (Approval.request "ACCEPTED")
        Approval.acceptance.1 in
    let r = reviewed_case-Reviewable Approval.store (Approval.request "ACCEPTED") steps.reviewed in
    let same : Approval.waiting ≡ steps.kase = some-injective _ _ r.stands in
    (
      evaluate_case steps.inputs,
      ap (λ (s : Store). s.cases) steps.left
          ∙ ap
              (λ k.
                put_case (finalized (Approval.request "ACCEPTED") (evaluate_case steps.inputs) k)
                  (Approval.waiting ∷ []))
              (sym same),
    )

retest :
    (s : Store) (e : EngineDecision)
    → s.cases ≡ accepted_case e ∷ []
    → (left : Store × InspectionCase) × (clone_lineage s Lineage.clone_ids
          (accepted_case e)
          Lineage.inspector
          "again"
          true
        ≡ ok left)
unfolding clone_lineage cloned_case
retest s e h = (
  (
    with_clone s Lineage.clone_ids (accepted_case e) Lineage.inspector "again" true,
    cloned_case Lineage.clone_ids.kase (accepted_case e) "again" true,
  ),
  ap
      (λ b.
        raise_if b database_error
        >> ok (
          with_clone s Lineage.clone_ids (accepted_case e) Lineage.inspector "again" true,
          cloned_case Lineage.clone_ids.kase (accepted_case e) "again" true,
        ))
      (ap (any (same_place (cloned_case Lineage.clone_ids.kase (accepted_case e) "again" true))) h),
)

abbrev retested :
    (left : Store × InspectionCase) × (clone_lineage Approval.acceptance.0 Lineage.clone_ids
        (accepted_case acceptance-cases.0)
        Lineage.inspector
        "again"
        true
      ≡ ok left)
retested = retest Approval.acceptance.0 acceptance-cases.0 acceptance-cases.1

finalize-Reach_example :
    (kase : InspectionCase) × (d : DecisionSnapshotRow) × (kase.final_decision ≡ some "ACCEPTED")
    × (case_row Approval.acceptance.0 1 ≡ some kase)
    × (case_row retested.0.0 1 ≡ some kase)
    × (snapshots_of Approval.acceptance.0 1 ≡ d ∷ [])
    × (snapshots_of retested.0.0 1 ≡ d ∷ [])
    × ((e : ApprovalError) × (finalize Approval.digest retested.0.0 (Approval.request "REJECTED")
          ≡ err e))
finalize-Reach_example =
    finalize-Reach Approval.digest (λ s. s) Approval.store (Approval.request "ACCEPTED")
      (Approval.request "REJECTED") Approval.acceptance.1
      (next here (
        lineage Lineage.clone_ids (accepted_case acceptance-cases.0) Lineage.inspector "again" true
          retested.1))
      refl

Reach-Backed_example : All (Backed Approval.approved.0) Approval.approved.0.approvals
Reach-Backed_example =
    Reach-Backed Approval.digest (λ s. s)
      (next here (decision Approval.lead_principal Approval.approval Approval.approved.1)) tt
