-- ===== src/Services/Lifecycle/Decided.antt =====
-- About the items of a case that is submitted (`submit_inspection` of p3.py).
use hanyangchem_qc_v.Base.{
  ℕ, ◌≡◌, refl, sym, ap, subst, ◌∙◌, ◌≢◌, inl, inr, true, false, List, [], ◌∷◌, ◌++◌, map, length,
  any, none, some, Option, is_some, is_empty, if◌then◌else◌, ok-injective, ok_parts, All, String,
  str_eq, arith, Bool-cases, bind-ok, raise_if-ok, ok, err,
}
use hanyangchem_qc_v.Judgment.{
  EngineDecision, accepted, rejected, on_hold, ItemEvaluation, ItemInput,
}
use hanyangchem_qc_v.Judgment.Evaluate.{evaluate_item_details, evaluate_item, evaluate_case}
use hanyangchem_qc_v.Store.{
  SpecItem, SupplierResult, InternalResult, SampleMeasurement, InspectionCase, Store,
}
use hanyangchem_qc_v.Approval.{Attempt, effective_spec, no_items}
use hanyangchem_qc_v.Approval.Finalize.{Origin}
use hanyangchem_qc_v.Approval.Inputs.{
  item_inputs, item_input, persisted_inputs, items_of, suppliers_of, internals_of,
}
use hanyangchem_qc_v.Approval.Labels.{decision_text}
use hanyangchem_qc_v.Approval.Accepted.{effective_spec-bound}
use hanyangchem_qc_v.Services.{Service, Principal, missing_row}
use hanyangchem_qc_v.Services.Selection.{or_fail}
use hanyangchem_qc_v.Services.Judging.{
  Blocker, internal_test_pending, supplier_review_required, is_internal, blocker_set, JudgmentView,
  View, is_on_hold, blockers_of, internal_of, judge_items, standard_row,
}
use hanyangchem_qc_v.Services.Evaluation.{Findings, findings, context_of, or_failed}
use hanyangchem_qc_v.Services.Lifecycle.{submit_inspection}
use hanyangchem_qc_v.Services.Lifecycle.Submitted.{submit_inspection-Submission}

blocker_set-empty : (bs : List Blocker) → is_empty (blocker_set bs) ≡ true → bs ≡ []
unfolding blocker_set
blocker_set-empty [] h = refl
blocker_set-empty (internal_test_pending ∷ bs) h = cc
blocker_set-empty (supplier_review_required ∷ bs) h = elim (Bool-cases (any is_internal bs)) [
  | inl some_internal ↦ absurd (cc (rw some_internal at h))
  | inr no_internal ↦ absurd (cc (rw no_internal at h))
]

no_blocker :
    (e : EngineDecision) (b : Blocker) (bs : List Blocker)
    → ((if is_on_hold e then b ∷ [] else []) ++ bs) ≡ []
    → (e ≢ on_hold) × (bs ≡ [])
no_blocker on_hold b bs h = cc
no_blocker accepted b bs h = ((λ e. cc), h)
no_blocker rejected b bs h = ((λ e. cc), h)

judge_items-clear :
    (store : Store) (suppliers : List SupplierResult) (internals : List InternalResult)
    (items : List SpecItem) (evaluations : List ItemEvaluation) {views : List JudgmentView}
    → length evaluations ≡ length items
    → judge_items store suppliers internals items evaluations ≡ ok ([], views)
    → All (λ (e : ItemEvaluation). e.overall ≢ on_hold) evaluations
unfolding judge_items
judge_items-clear store suppliers internals [] [] n h = tt
judge_items-clear store suppliers internals [] (e ∷ es) n h = absurd (omega arith)
judge_items-clear store suppliers internals (i ∷ is) [] n h = absurd (omega arith)
judge_items-clear store suppliers internals (i ∷ is) (e ∷ es) n h =
    let (standard, _, h1) =
      bind-ok (or_fail (standard_row store i.standard_test_item_id) (err missing_row)) _ h in
    let (rest, later, h2) = bind-ok (judge_items store suppliers internals is es) _ h1 in
    let none_here : blockers_of i (internal_of internals i) e ++ rest.0 ≡ [] =
      (ok_parts _ _ _ _ h2).0 in
    let (decided, none_later) = no_blocker e.overall _ rest.0 none_here in
    (
      decided,
      judge_items-clear store suppliers internals is es {views = rest.1} (omega arith) (
          subst (λ bs. judge_items store suppliers internals is es ≡ ok (bs, rest.1)) none_later
            later),
    )

length-item_inputs :
    (suppliers : List SupplierResult) (internals : List InternalResult)
    (samples : List SampleMeasurement) (items : List SpecItem) {inputs : List ItemInput}
    → item_inputs suppliers internals samples items ≡ ok inputs
    → length inputs ≡ length items
unfolding item_inputs
length-item_inputs suppliers internals samples [] h = ap length (sym (ok-injective _ _ h))
length-item_inputs suppliers internals samples (i ∷ is) h =
    let (first, _, h1) = bind-ok (item_input suppliers internals samples i) _ h in
    let (rest, later, h2) = bind-ok (item_inputs suppliers internals samples is) _ h1 in
    ap length (sym (ok-injective _ _ h2))
    ∙ omega (arith, length-item_inputs suppliers internals samples is later)

length-persisted_inputs :
    (store : Store) (kase version : ℕ) {inputs : List ItemInput}
    → persisted_inputs store kase version ≡ ok inputs
    → length inputs ≡ length (items_of store version)
unfolding persisted_inputs
length-persisted_inputs store kase version h =
    let (_, read) = raise_if-ok (is_empty (items_of store version)) no_items _ h in
    length-item_inputs (suppliers_of store kase) (internals_of store kase) store.samples
      (items_of store version) read

or_failed-ok : {A : Type 0} (m : Attempt A) {a : A} → or_failed m ≡ ok a → m ≡ ok a
or_failed-ok (ok b) h = ap ok (ok-injective _ _ h)
or_failed-ok (err e) h = cc

length-evaluations :
    (inputs : List ItemInput) → length (map evaluate_item_details inputs) ≡ length inputs
length-evaluations [] = refl
length-evaluations (i ∷ is) = omega (arith, length-evaluations is)

details-overall :
    (inputs : List ItemInput)
    → All (λ (e : ItemEvaluation). e.overall ≢ on_hold) (map evaluate_item_details inputs)
    → All (λ i. evaluate_item i ≢ on_hold) inputs
unfolding evaluate_item
details-overall [] h = tt
details-overall (i ∷ is) h = (h.0, details-overall is h.1)

-- What an evaluation without blockers has found.
findings-clear :
    (store : Store) (kase : InspectionCase) {f : Findings}
    → findings store kase ≡ ok f
    → is_empty f.blockers ≡ true
    → (persisted_inputs store kase.id kase.spec_version_id ≡ ok f.inputs)
      × All (λ i. evaluate_item i ≢ on_hold) f.inputs
unfolding findings
findings-clear store kase {f = f} h clear =
    let (x, _, h1) = bind-ok (context_of store kase) _ h in
    let (spec, chosen, h2) =
      bind-ok (or_failed (effective_spec store kase x.allocation x.receipt x.lot)) _ h1 in
    let (inputs, reading, h3) =
      bind-ok (or_failed (persisted_inputs store kase.id spec.0.id)) _ h2 in
    let (judged, judging, h4) =
      bind-ok
        (judge_items store (suppliers_of store kase.id) (internals_of store kase.id)
          (items_of store spec.0.id) (map evaluate_item_details inputs))
        _ h3 in
    let o : Origin = record { allocation = x.allocation; receipt = x.receipt; lot = x.lot } in
    let bound = effective_spec-bound store kase o (or_failed-ok _ chosen) in
    let read = or_failed-ok _ reading in
    let same = ok-injective _ _ h4 in
    let no_blockers =
      blocker_set-empty judged.0 (ap (λ (y : Findings). is_empty y.blockers) same ∙ clear) in
    let all_decided =
      judge_items-clear store (suppliers_of store kase.id) (internals_of store kase.id)
        (items_of store spec.0.id) (map evaluate_item_details inputs) {views = judged.1}
        (length-evaluations inputs ∙ length-persisted_inputs store kase.id spec.0.id read)
        (subst
          (λ bs.
            judge_items store (suppliers_of store kase.id) (internals_of store kase.id)
              (items_of store spec.0.id) (map evaluate_item_details inputs)
            ≡ ok (bs, judged.1))
          no_blockers judging) in
    let same_inputs : inputs ≡ f.inputs = ap (λ (y : Findings). y.inputs) same in
    (
      subst (λ v. persisted_inputs store kase.id v ≡ ok inputs) bound read ∙ ap ok same_inputs,
      subst (All (λ i. evaluate_item i ≢ on_hold)) same_inputs (details-overall inputs all_decided),
    )

some_input :
    (inputs : List ItemInput)
    → str_eq (decision_text (evaluate_case inputs)) "ON_HOLD" ≡ false
    → inputs ≢ []
unfolding evaluate_case
some_input [] h e = cc
some_input (i ∷ is) h e = cc

-- A case is submitted only at the version that the submitter has seen, undecided, and with inputs
-- of which there is one at least, and each of which the engine accepts or rejects.
pub submit_inspection-Decided :
    (store : Store) (kase : InspectionCase) (version : ℕ) (principal : Principal) {after : Store}
    {response : Service View}
    → submit_inspection store kase version principal ≡ ok (after, response)
    → (kase.lock_version ≡ version)
      × (kase.final_decision ≡ none)
      × ((inputs : List ItemInput) × (persisted_inputs store kase.id kase.spec_version_id
            ≡ ok inputs)
          × (inputs ≢ [])
          × All (λ i. evaluate_item i ≢ on_hold) inputs)
submit_inspection-Decided store kase version principal h =
    let s = submit_inspection-Submission store kase version principal h in
    let (read, all_decided) = findings-clear store kase s.evaluated s.cleared in
    (
      s.current,
      no_value kase.final_decision s.undecided,
      (s.found.inputs, read, some_input s.found.inputs s.decided, all_decided),
    )
  where
    no_value : (o : Option String) → is_some o ≡ false → o ≡ none
    no_value none h = refl
    no_value (some a) h = cc
