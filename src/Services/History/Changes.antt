-- ===== src/Services/History/Changes.antt =====
-- About the requests of p3.py that write a case, beside a case that is settled.
use hanyangchem_qc_v.Base.{
  ℕ, ◌≡◌, refl, sym, ap, ◌∙◌, ◌≢◌, inl, inr, true, false, not, Option, none, some, List, is_some,
  String, str_eq, ◌==◌, ==_iff, Bool-cases, ok,
}
use hanyangchem_qc_v.Snapshots.{Text}
use hanyangchem_qc_v.Judgment.Evaluate.{evaluate_case}
use hanyangchem_qc_v.Store.{InspectionCase, Store}
use hanyangchem_qc_v.Approval.Finalize.{Request, finalized, record_decision, finalize}
use hanyangchem_qc_v.Approval.Success.{finalize-Steps}
use hanyangchem_qc_v.Approval.Accepted.{
  reviewed_case-Reviewable, find_case_row-id, live-some, differs,
}
use hanyangchem_qc_v.Approval.Once.{put_case-same}
use hanyangchem_qc_v.Services.{Principal, Service}
use hanyangchem_qc_v.Services.Judging.{View}
use hanyangchem_qc_v.Services.Evaluation.{
  evaluated_case, with_judgments, Evaluated, evaluate_inspection,
}
use hanyangchem_qc_v.Services.Results.{
  InternalResultItem, with_results, touched, put_internal_results,
}
use hanyangchem_qc_v.Services.Lifecycle.{
  case_row, submitted, submit_inspection, return_inspection, Decision, approve_inspection,
}
use hanyangchem_qc_v.Services.Lifecycle.Submitted.{
  flushed-id, evaluated_case-id, submit_inspection-Submission,
}
use hanyangchem_qc_v.Services.History.{snapshots_of}
use hanyangchem_qc_v.Services.History.Left.{
  evaluation-left, results-left, correction-left, decision-left,
}
use hanyangchem_qc_v.Services.History.Kept.{
  Keeps, same_case, another, put_another, with_judgments-another, filter-behind,
  evaluated_case-settled,
}

module _ (i : ℕ) (k : InspectionCase) (s : Store) where
  module _ (stands : case_row s i ≡ some k) (decided : is_some k.final_decision ≡ true) where
    pub evaluation-Keeps :
        (kase : InspectionCase) {e : Evaluated}
        → case_row s kase.id ≡ some kase
        → evaluate_inspection s kase ≡ ok e
        → Keeps i k s e.store
    unfolding with_judgments
    evaluation-Keeps kase {e = e} read h =
        let (f, left, _) = evaluation-left s kase h in
        let new = evaluated_case kase (evaluate_case f.inputs) f.blockers in
        (
          ap (λ t. case_row t i) (sym left) ∙ elim (Bool-cases (kase.id == i)) [
            | inl hit ↦
                let e_id = (==_iff _ _).0 hit in
                let same = same_case i k s stands kase read e_id in
                let unchanged : new ≡ kase =
                  evaluated_case-settled kase (evaluate_case f.inputs) f.blockers
                    (ap (λ (c : InspectionCase). is_some c.final_decision) same ∙ decided) in
                put_case-same i new s.cases (ap (λ (c : InspectionCase). c.id) unchanged ∙ e_id)
                  stands
                ∙ ap some (unchanged ∙ same)
            | inr miss ↦ with_judgments-another i k s s kase f (differs kase.id i miss) stands
          ],
          ap (λ t. snapshots_of t i) (sym left),
        )

    pub results-Keeps :
        (kase : InspectionCase) (fresh : ℕ → ℕ) (request : List InternalResultItem) (version : ℕ)
        {t : Store} {response : Service View}
        → case_row s kase.id ≡ some kase
        → put_internal_results s kase fresh request version ≡ ok (t, response)
        → Keeps i k s t
    unfolding with_results with_judgments
    results-Keeps kase fresh request version read h =
        let (undecided, (f, left)) = results-left s kase fresh request version h in
        let n =
          another i k s stands kase read (λ (c : InspectionCase). is_some c.final_decision) decided
            undecided in
        let x = with_results s kase fresh request in
        let new = evaluated_case kase (evaluate_case f.inputs) f.blockers in
        (
          ap (λ t. case_row t i) (sym left)
              ∙ put_another i k s kase (touched new) (with_judgments x kase f).cases n
                  (evaluated_case-id kase (evaluate_case f.inputs) f.blockers)
                  (with_judgments-another i k s x kase f n
                    (put_another i k s kase kase s.cases n refl stands)),
          ap (λ t. snapshots_of t i) (sym left),
        )

    pub submission-Keeps :
        (kase : InspectionCase) (version : ℕ) (principal : Principal) {t : Store}
        {response : Service View}
        → case_row s kase.id ≡ some kase
        → submit_inspection s kase version principal ≡ ok (t, response)
        → Keeps i k s t
    unfolding with_judgments
    submission-Keeps kase version principal read h =
        let x = submit_inspection-Submission s kase version principal h in
        let n =
          another i k s stands kase read (λ (c : InspectionCase). is_some c.final_decision) decided
            x.undecided in
        let evaluated = evaluated_case kase (evaluate_case x.found.inputs) x.found.blockers in
        (
          ap (λ t. case_row t i) x.left
              ∙ put_another i k s kase (submitted evaluated principal)
                  (with_judgments s kase x.found).cases n
                  (flushed-id evaluated _
                    ∙ evaluated_case-id kase (evaluate_case x.found.inputs) x.found.blockers)
                  (with_judgments-another i k s s kase x.found n stands),
          ap (λ t. snapshots_of t i) x.left,
        )

    pub settling-Keeps :
        (sha256 : Text → Text) (q : Request) {t : Store}
        → finalize sha256 s q ≡ ok t
        → Keeps i k s t
    unfolding record_decision
    settling-Keeps sha256 q {t = t} h =
        let steps = finalize-Steps sha256 s q h in
        let r = reviewed_case-Reviewable s q steps.reviewed in
        let number = find_case_row-id s q.case_id r.stands in
        let read : case_row s steps.kase.id ≡ some steps.kase =
          ap (case_row s) number ∙ live-some (λ (c : InspectionCase). c.deleted) _ r.stands in
        let n =
          another i k s stands steps.kase read (λ (c : InspectionCase). is_some c.final_decision)
            decided (ap is_some r.open_case) in
        (
          ap (λ t. case_row t i) steps.left
              ∙ put_another i k s steps.kase (finalized q (evaluate_case steps.inputs) steps.kase)
                  s.cases n refl stands,
          ap (λ t. snapshots_of t i) steps.left ∙ filter-behind i s.snapshots _ (apart n),
        )
      where
        apart : {j : ℕ} → j ≢ i → (j == i) ≡ false
        apart {j = j} n = elim (Bool-cases (j == i)) [
          | inl same ↦ absurd (n ((==_iff j i).0 same))
          | inr other ↦ other
        ]

    pub correction-Keeps :
        (kase : InspectionCase) (version : ℕ) (principal : Principal) (reason : Option String)
        (target : Option ℕ) {t : Store}
        → str_eq k.status "LEAD_REVIEW" ≡ false
        → case_row s kase.id ≡ some kase
        → return_inspection s kase version principal reason target ≡ ok t
        → Keeps i k s t
    correction-Keeps kase version principal reason target settled read h =
        let (waits, (payload, left)) = correction-left s kase version principal reason target h in
        let n =
          another i k s stands kase read
            (λ (c : InspectionCase). not (str_eq c.status "LEAD_REVIEW")) (ap not settled)
            (ap not waits) in
        (
          ap (λ t. case_row t i) (sym left)
              ∙ put_another i k s kase _ s.cases n (flushed-id kase _) stands,
          ap (λ t. snapshots_of t i) (sym left),
        )

    pub decision-Keeps :
        (sha256 : Text → Text) (principal : Principal) (d : Decision) {t : Store}
        → str_eq k.status "LEAD_REVIEW" ≡ false
        → approve_inspection sha256 s principal d ≡ ok t
        → Keeps i k s t
    decision-Keeps sha256 principal d settled h = elim (decision-left sha256 s principal d h) [
      | inl (kase, read, returning) ↦
          correction-Keeps kase d.expected_version principal d.reason none settled read returning
      | inr (q, settling) ↦ settling-Keeps sha256 q settling
    ]
