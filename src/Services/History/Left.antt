-- ===== src/Services/History/Left.antt =====
-- What the requests of p3.py that write a case leave.
use hanyangchem_qc_v.Base.{
  ℕ, ◌≡◌, ap, ◌∙◌, ◌⊎◌, inl, inr, true, false, not, ◌||◌, Option, none, some, Bool, if◌then◌else◌,
  List, find?-true, is_some, String, str_eq, ◌==◌, ==_iff, arith, bind-ok, raise_if-ok, ok_parts,
  ok-injective, ok, err,
}
use hanyangchem_qc_v.Snapshots.{Text}
use hanyangchem_qc_v.Judgment.Evaluate.{evaluate_case}
use hanyangchem_qc_v.Workflow.{lacks_reason}
use hanyangchem_qc_v.Store.{InspectionCase, Store}
use hanyangchem_qc_v.Approval.{Attempt}
use hanyangchem_qc_v.Approval.Finalize.{Request, put_case, finalize}
use hanyangchem_qc_v.Services.{
  Principal, Service, stale_inspection, finalized_immutable, duplicate_spec_items, bad_spec_item,
  database_error, reason_missing, stale_state, bad_return_target, case_not_found, fault_injected,
}
use hanyangchem_qc_v.Services.Selection.{or_fail}
use hanyangchem_qc_v.Services.Judging.{View}
use hanyangchem_qc_v.Services.Evaluation.{
  evaluated_case, findings, with_judgments, Evaluated, evaluate_inspection,
}
use hanyangchem_qc_v.Services.Results.{
  InternalResultItem, has_duplicates, all_fit, has_overflow, with_results, touched,
  put_internal_results,
}
use hanyangchem_qc_v.Services.Lifecycle.{
  case_row, return_inspection, target_fits, Decision, approval_request, or_refused,
  approve_inspection,
}
use hanyangchem_qc_v.Services.Review.Checked.{or_fail-ok}
use hanyangchem_qc_v.Snapshots.{Value}
use hanyangchem_qc_v.Approval.Rows.{or_text}
use hanyangchem_qc_v.Services.Evaluation.{Findings, flushed}
use hanyangchem_qc_v.Services.Lifecycle.{audited, with_return}

pub evaluation-left :
    (s : Store) (kase : InspectionCase) {e : Evaluated}
    → evaluate_inspection s kase ≡ ok e
    → (f : Findings) × (with_judgments s kase f ≡ e.store)
      × (evaluated_case kase (evaluate_case f.inputs) f.blockers ≡ e.kase)
unfolding evaluate_inspection
evaluation-left s kase {e = e} h =
    let (f, _, h1) = bind-ok (findings s kase) _ h in
    let same = ok-injective _ e h1 in
    (f, ap (λ (x : Evaluated). x.store) same, ap (λ (x : Evaluated). x.kase) same)

-- The store with a case that is written.
abbrev pub with_case : Store → InspectionCase → Store
with_case s kase = record s { cases = put_case kase s.cases }

-- The case is undecided, and is written with its results, evaluated and touched.
pub results-left :
    (s : Store) (kase : InspectionCase) (fresh : ℕ → ℕ) (request : List InternalResultItem)
    (version : ℕ) {t : Store} {response : Service View}
    → put_internal_results s kase fresh request version ≡ ok (t, response)
    → (is_some kase.final_decision ≡ false)
      × ((f : Findings) × (with_case
              (with_judgments (with_results s kase fresh request) kase f)
              (touched (evaluated_case kase (evaluate_case f.inputs) f.blockers))
            ≡ t))
unfolding put_internal_results
results-left s kase fresh request version {t = t} h =
    let (_, h1) = raise_if-ok (not (kase.lock_version == version)) stale_inspection _ h in
    let (undecided, h2) = raise_if-ok (is_some kase.final_decision) finalized_immutable _ h1 in
    let (_, h3) = raise_if-ok (has_duplicates request) duplicate_spec_items _ h2 in
    let (_, h4) = raise_if-ok (not (all_fit s kase request)) bad_spec_item _ h3 in
    let (_, h5) = raise_if-ok (has_overflow request) database_error _ h4 in
    let x = with_results s kase fresh request in
    let (e, evaluated, h6) = bind-ok (evaluate_inspection x kase) _ h5 in
    let (f, stored, found) = evaluation-left x kase evaluated in
    (
      undecided,
      (
        f,
        ap (λ y. with_case y (touched (evaluated_case kase (evaluate_case f.inputs) f.blockers)))
              stored
            ∙ ap (λ k. with_case e.store (touched k)) found
            ∙ (ok_parts _ t _ _ h6).0,
      ),
    )

-- The case waits for the lead's review, and is written as returned, beside the reason.
pub correction-left :
    (s : Store) (kase : InspectionCase) (version : ℕ) (principal : Principal)
    (reason : Option String) (target : Option ℕ) {t : Store}
    → return_inspection s kase version principal reason target ≡ ok t
    → (str_eq kase.status "LEAD_REVIEW" ≡ true)
      × ((payload : Value) × (audited
              (with_return s kase principal (or_text reason "") target)
              (flushed kase (record kase { status = "RETURNED" }))
              "P3_RETURNED"
              reason
              payload
            ≡ t))
unfolding return_inspection
correction-left s kase version principal reason target {t = t} h =
    let (_, h1) = raise_if-ok (lacks_reason reason) reason_missing _ h in
    let (waits, h2) =
      raise_if-ok (not (kase.lock_version == version) || not (str_eq kase.status "LEAD_REVIEW"))
        stale_state _ h1 in
    let (_, h3) = raise_if-ok (not (target_fits s kase target)) bad_return_target _ h2 in
    (ground (arith), (_, ok-injective _ t h3))

one_branch :
    {A : Type 0} (test : Bool) (x y : Service A) {a : A}
    → (if test then x else y) ≡ ok a
    → (x ≡ ok a) ⊎ (y ≡ ok a)
one_branch true x y h = inl h
one_branch false x y h = inr h

or_refused-ok : {A : Type 0} (m : Attempt A) {a : A} → or_refused m ≡ ok a → m ≡ ok a
or_refused-ok (ok b) h = ap ok (ok-injective _ _ h)
or_refused-ok (err e) h = cc

-- A decision returns the case or settles it.
pub decision-left :
    (sha256 : Text → Text) (s : Store) (principal : Principal) (d : Decision) {t : Store}
    → approve_inspection sha256 s principal d ≡ ok t
    → ((kase : InspectionCase) × (case_row s kase.id ≡ some kase)
        × (return_inspection s kase d.expected_version principal d.reason none ≡ ok t))
      ⊎ ((q : Request) × (finalize sha256 s q ≡ ok t))
unfolding approve_inspection
decision-left sha256 s principal d {t = t} h =
    let (kase, found, h1) = bind-ok (or_fail (case_row s d.case_id) (err case_not_found)) _ h in
    let there = or_fail-ok (case_row s d.case_id) case_not_found found in
    let number =
      (==_iff _ _).0 (find?-true (λ (c : InspectionCase). c.id == d.case_id) s.cases there) in
    elim (one_branch (str_eq d.action "RETURN") _ _ h1) [
      | inl returning ↦ inl (kase, ap (case_row s) number ∙ there, returning)
      | inr approving ↦
          let (left, settling, h2) =
            bind-ok (or_refused (finalize sha256 s (approval_request kase principal d))) _
              approving in
          let (_, h3) = raise_if-ok d.fault fault_injected _ h2 in
          inr (
            approval_request kase principal d,
            or_refused-ok _ settling ∙ ap ok (ok-injective _ t h3),
          )
    ]
