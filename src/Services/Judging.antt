-- ===== src/Services/Judging.antt =====
-- The loop of `evaluate_inspection` (backend/src/hyc_api/services/p3.py) over the items of the
-- specification: the blockers, the judgments that are shown, and what is written into the results.
use hanyangchem_qc_v.Base.{
  ℕ, Bool, true, false, not, ◌&&◌, ◌||◌, Option, none, some, List, [], ◌∷◌, ◌++◌, any, is_none,
  String, str_eq, opt_eq, ◌==◌, if◌then◌else◌, ok, err, ◌>>=◌,
}
use hanyangchem_qc_v.Judgment.{EngineDecision, on_hold, ItemEvaluation}
use hanyangchem_qc_v.Snapshots.{Members}
use hanyangchem_qc_v.Store.{
  SpecItem, SupplierResult, InternalResult, StandardTestItem, Store, get_row,
}
use hanyangchem_qc_v.Approval.Labels.{decision_text}
use hanyangchem_qc_v.Services.{Service, missing_row}
use hanyangchem_qc_v.Services.Selection.{or_fail}

-- "INTERNAL_TEST_PENDING" and "SUPPLIER_REVIEW_REQUIRED".
pub data Blocker : Type 0 where
  internal_test_pending supplier_review_required : Blocker

abbrev pub is_internal : Blocker → Bool
is_internal internal_test_pending = true
is_internal supplier_review_required = false

-- `sorted(set(blockers))`.
unfoldable pub blocker_set : List Blocker → List Blocker
blocker_set bs =
    (if any is_internal bs then internal_test_pending ∷ [] else [])
    ++ (if any (λ b. not (is_internal b)) bs then supplier_review_required ∷ [] else [])

pub record JudgmentView : Type 0 where
  pub spec_item_id : ℕ
  pub item_code : String
  pub supplier_decision : Option String
  pub hyc_reference_decision : Option String
  pub internal_decision : Option String
  pub effective_decision : String

pub record View : Type 0 where
  pub inspection_id : ℕ
  pub material_lot_id : ℕ
  pub allocation_id : ℕ
  pub spec_version_id : ℕ
  pub spec_snapshot : Members
  pub status : String
  pub candidate_decision : String
  pub final_decision : Option String
  pub version : ℕ
  pub round_no : ℕ
  pub revision_no : ℕ
  pub blockers : List Blocker
  pub judgments : List JudgmentView

abbrev pub text_of : Option EngineDecision → Option String
text_of none = none
text_of (some d) = some (decision_text d)

-- The value of a key in a dict that is made of the rows in turn: the last row that has it.
abbrev pub last_of {ℓ} : {A : Type ℓ} → (A → Bool) → List A → Option A
last_of test [] = none
last_of test (r ∷ rs) =
    let later = last_of test rs in
    elim later [ some x ↦ some x | none ↦ if test r then some r else none ]

abbrev pub supplier_of : List SupplierResult → SpecItem → Option SupplierResult
supplier_of suppliers item =
    last_of
      (λ (r : SupplierResult). opt_eq r.standard_test_item_id (some item.standard_test_item_id))
      suppliers

abbrev pub internal_of : List InternalResult → SpecItem → Option InternalResult
internal_of internals item = last_of (λ (r : InternalResult). r.spec_item_id == item.id) internals

abbrev pub is_on_hold : EngineDecision → Bool
is_on_hold on_hold = true
is_on_hold _ = false

abbrev pub waits_for_internal : String → Bool
waits_for_internal policy =
    str_eq policy "INTERNAL_ONLY"
    || str_eq policy "BOTH_ALL_MUST_PASS"
    || str_eq policy "SUPPLIER_REFERENCE_INTERNAL_FINAL"

abbrev pub blockers_of : SpecItem → Option InternalResult → ItemEvaluation → List Blocker
blockers_of item internal e =
    if is_on_hold e.overall
    then (if waits_for_internal item.source_policy && is_none internal
        then internal_test_pending
        else supplier_review_required)
      ∷ []
    else []

abbrev pub supplier_decision_of : Option SupplierResult → Option String
supplier_decision_of none = none
supplier_decision_of (some r) = r.supplier_decision

abbrev pub judgment_view :
    SpecItem → StandardTestItem → Option SupplierResult → ItemEvaluation → JudgmentView
judgment_view item standard supplier e = record {
  spec_item_id = item.id;
  item_code = standard.code;
  supplier_decision = supplier_decision_of supplier;
  hyc_reference_decision = text_of e.hyc_supplier_decision;
  internal_decision = text_of e.internal_decision;
  effective_decision = decision_text e.overall;
}

abbrev pub standard_row : Store → ℕ → Option StandardTestItem
standard_row store i = get_row (λ (x : StandardTestItem). x.id) i store.standards

-- The loop over the items and their evaluations: what it collects.
unfoldable pub judge_items :
    Store
    → List SupplierResult
    → List InternalResult
    → List SpecItem
    → List ItemEvaluation
    → Service (List Blocker × List JudgmentView)
judge_items store suppliers internals (i ∷ is) (e ∷ es) =
    let rest = judge_items store suppliers internals is es in
    do
      standard ← or_fail (standard_row store i.standard_test_item_id) (err missing_row)
      (blockers, views) ← rest
      ok (
        blockers_of i (internal_of internals i) e ++ blockers,
        judgment_view i standard (supplier_of suppliers i) e ∷ views,
      )
judge_items store suppliers internals _ _ = ok ([], [])

abbrev pub put_supplier : SupplierResult → List SupplierResult → List SupplierResult
put_supplier new [] = []
put_supplier new (r ∷ rs) =
    let rest = put_supplier new rs in if r.id == new.id then new ∷ rest else r ∷ rest

abbrev pub put_internal : InternalResult → List InternalResult → List InternalResult
put_internal new [] = []
put_internal new (r ∷ rs) =
    let rest = put_internal new rs in if r.id == new.id then new ∷ rest else r ∷ rest

-- What the loop writes into the rows of the results.
unfoldable pub judged_suppliers :
    List SupplierResult
    → List SpecItem
    → List ItemEvaluation
    → List SupplierResult
    → List SupplierResult
judged_suppliers suppliers (i ∷ is) (e ∷ es) rows =
    let written : List SupplierResult = elim (supplier_of suppliers i) [
      | none ↦ rows
      | some r ↦ put_supplier (record r { hyc_decision = text_of e.hyc_supplier_decision }) rows
    ] in
    judged_suppliers suppliers is es written
judged_suppliers suppliers _ _ rows = rows

unfoldable pub judged_internals :
    List InternalResult
    → List SpecItem
    → List ItemEvaluation
    → List InternalResult
    → List InternalResult
judged_internals internals (i ∷ is) (e ∷ es) rows =
    let written : List InternalResult = elim (internal_of internals i) [
      | none ↦ rows
      | some r ↦ put_internal (record r { decision = text_of e.internal_decision }) rows
    ] in
    judged_internals internals is es written
judged_internals internals _ _ rows = rows
