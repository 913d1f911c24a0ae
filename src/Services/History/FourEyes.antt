-- ===== src/Services/History/FourEyes.antt =====
-- About the approvals that the services of p3.py record, one request after the other.
use hanyangchem_qc_v.Base.{
  ℕ, String, ◌≡◌, ◌≢◌, ◌⊎◌, inl, inr, none, sym, ap, subst, ◌∙◌, some, List, [], ◌∷◌, ◌++◌, All,
  All-map, ok,
}
use hanyangchem_qc_v.Snapshots.{Text}
use hanyangchem_qc_v.Store.{InspectionCase, DecisionSnapshotRow, Approval, Store}
use hanyangchem_qc_v.Approval.Finalize.{Request, record_decision, finalize}
use hanyangchem_qc_v.Approval.Success.{finalize-Steps}
use hanyangchem_qc_v.Approval.Accepted.{reviewed_case-Reviewable, find_case_row-id}
use hanyangchem_qc_v.Services.Evaluation.{with_judgments}
use hanyangchem_qc_v.Services.Results.{with_results}
use hanyangchem_qc_v.Services.Lifecycle.Submitted.{submit_inspection-Submission}
use hanyangchem_qc_v.Services.History.{
  Step, intake, review, creation, evaluating, results, submission, correction, decision, lineage,
  Reach, here, next, snapshots_of,
}
use hanyangchem_qc_v.Services.History.Frame.{
  create_intake-Adds, confirm_review-Adds, create_inspection-Adds, clone_lineage-Adds,
}
use hanyangchem_qc_v.Services.History.Left.{
  evaluation-left, results-left, correction-left, decision-left,
}
use hanyangchem_qc_v.Services.History.Settled.{
  Settled, Step-Keeps, one_snapshot, finalize-SettledBy,
}

-- An approval is backed by its case, which is settled, was submitted by somebody else than who
-- approves, and has one snapshot.
pub record Backed (s : Store) (a : Approval) : Type 0 where
  pub kase : InspectionCase
  pub settled : Settled a.inspection_case_id kase s
  pub four_eyes :
      (submitter : ℕ) × (kase.submitted_by_id ≡ some submitter) × (submitter ≢ a.actor_id)
  pub frozen : (d : DecisionSnapshotRow) × (snapshots_of s a.inspection_case_id ≡ d ∷ [])

All-behind :
    (P : Approval → Type 0) (rows : List Approval) (a : Approval)
    → All P rows
    → P a
    → All P (rows ++ a ∷ [])
All-behind P [] a h p = (p, tt)
All-behind P (x ∷ rows) a h p = (h.0, All-behind P rows a h.1 p)

module _ (sha256 : Text → Text) (nfkc : String → String) where
  -- A request leaves the approvals, or settles a case.
  Step-approvals :
      {s t : Store}
      → Step sha256 nfkc s t
      → (t.approvals ≡ s.approvals) ⊎ ((q : Request) × (finalize sha256 s q ≡ ok t))
  unfolding with_judgments with_results
  Step-approvals {s = s} (intake rivals r principal key now ids h) =
      inl (create_intake-Adds sha256 nfkc s rivals r principal key now ids h).approvals
  Step-approvals {s = s} (review document j q version fresh h) =
      inl (confirm_review-Adds s document j q version fresh h).approvals
  Step-approvals {s = s} (creation rivals allocation run principal key now ids h) =
      inl (create_inspection-Adds sha256 s rivals allocation run principal key now ids h).approvals
  Step-approvals {s = s} (evaluating kase read h) =
      inl (ap (λ (x : Store). x.approvals) (sym (evaluation-left s kase h).1))
  Step-approvals {s = s} (results kase fresh request version read h) =
      inl (ap (λ (x : Store). x.approvals) (sym (results-left s kase fresh request version h).1.1))
  Step-approvals {s = s} (submission kase version principal read h) = inl (
      ap (λ (x : Store). x.approvals)
        (submit_inspection-Submission s kase version principal h).left)
  Step-approvals {s = s} (correction kase version principal reason target read h) = inl (
      ap (λ (x : Store). x.approvals)
        (sym (correction-left s kase version principal reason target h).1.1))
  Step-approvals {s = s} (decision principal d h) = elim (decision-left sha256 s principal d h) [
    | inl (kase, read, returning) ↦ inl (
        ap (λ (x : Store). x.approvals)
          (sym (correction-left s kase d.expected_version principal d.reason none returning).1.1))
    | inr settling ↦ inr settling
  ]
  Step-approvals {s = s} (lineage ids predecessor principal reason retest h) =
      inl (clone_lineage-Adds s ids predecessor principal reason retest h).approvals

  Step-Backed : {s t : Store} {a : Approval} → Step sha256 nfkc s t → Backed s a → Backed t a
  Step-Backed {a = a} step x =
      let (stands, same) = Step-Keeps sha256 nfkc a.inspection_case_id x.kase x.settled step in
      let (d, one) = x.frozen in
      record {
        kase = x.kase;
        settled = record { stands = stands; decided = x.settled.decided; apart = x.settled.apart };
        four_eyes = x.four_eyes;
        frozen = (d, same ∙ one);
      }

  finalize-approvals :
      (s : Store) (q : Request) {t : Store}
      → finalize sha256 s q ≡ ok t
      → (a : Approval) × (t.approvals ≡ s.approvals ++ a ∷ []) × Backed t a
  unfolding record_decision
  finalize-approvals s q {t = t} h =
      let steps = finalize-Steps sha256 s q h in
      let r = reviewed_case-Reviewable s q steps.reviewed in
      let number = find_case_row-id s q.case_id r.stands in
      let x = finalize-SettledBy sha256 s q h in
      let approval : ℕ → Approval = λ i. record {
        inspection_case_id = i;
        action = "APPROVE";
        actor_id = q.actor_id;
        actor_role = "LEAD";
      } in
      let backed : Backed t (approval q.case_id) = record {
        kase = x.kase;
        settled = x.settled;
        four_eyes = x.four_eyes;
        frozen = one_snapshot sha256 s q h;
      } in
      (
        approval steps.kase.id,
        ap (λ (y : Store). y.approvals) steps.left,
        subst (λ i. Backed t (approval i)) (sym number) backed,
      )

  Step-All :
      {s t : Store} → Step sha256 nfkc s t → All (Backed s) s.approvals → All (Backed t) t.approvals
  Step-All {s = s} {t = t} step backed =
      let earlier = All-map (Backed s) (Backed t) s.approvals (λ a. Step-Backed step) backed in
      elim (Step-approvals step) [
        | inl same ↦ subst (All (Backed t)) (sym same) earlier
        | inr (q, settling) ↦
            let (a, added, new) = finalize-approvals s q settling in
            subst (All (Backed t)) (sym added) (All-behind (Backed t) s.approvals a earlier new)
      ]

  -- Whatever requests are made, by whomever and in whatever order, from a store in which it holds,
  -- each approval that the store has then is of a case that is settled, that somebody else has
  -- submitted than who approved it, and that has exactly one snapshot of its decision.
  pub Reach-Backed :
      {s t : Store}
      → Reach sha256 nfkc s t
      → All (Backed s) s.approvals
      → All (Backed t) t.approvals
  Reach-Backed here backed = backed
  Reach-Backed (next path step) backed = Step-All step (Reach-Backed path backed)
