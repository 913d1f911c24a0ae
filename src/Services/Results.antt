-- ===== src/Services/Results.antt =====
-- `put_internal_results` of backend/src/hyc_api/services/p3.py. The table holds one row for a case
-- and an item (`uq_internal_result_case_spec_item`), so the dict of the rows that exist has them all.
-- A value is stored as its column NUMERIC(24, 12) holds it, and one that the column refuses is an
-- error of the database.
pub mod Samples
pub mod Exact
use hanyangchem_qc_v.Base.{
  ℕ, suc, ◌+◌, Bool, true, false, not, ◌&&◌, ◌||◌, Option, none, some, List, [], ◌∷◌, ◌++◌, map,
  any, filter, find?, length, is_none, is_some, opt_eq, ltb, ◌==◌, if◌then◌else◌, ok, err, ◌>>=◌,
  ◌>>◌, raise_if, sort_by,
}
use hanyangchem_qc_v.Base.Int.{pos}
use hanyangchem_qc_v.PyDecimal.{Decimal}
use hanyangchem_qc_v.Snapshots.{Value, integer}
use hanyangchem_qc_v.Store.{
  SpecItem, InternalResult, SampleMeasurement, InspectionCase, Store, get_row,
}
use hanyangchem_qc_v.Store.Numeric.{numeric, fits}
use hanyangchem_qc_v.Approval.Rows.{uuid, list_of, object_of}
use hanyangchem_qc_v.Approval.Finalize.{put_case}
use hanyangchem_qc_v.Services.{
  Service, stale_inspection, finalized_immutable, duplicate_spec_items, bad_spec_item,
  database_error,
}
use hanyangchem_qc_v.Services.Judging.{View}
use hanyangchem_qc_v.Services.Evaluation.{Evaluated, evaluate_inspection, inspection_view}
use hanyangchem_qc_v.Services.Lifecycle.{audited}

-- A submitted item has a value at least; the others stand behind it.
pub record InternalResultItem : Type 0 where
  pub spec_item_id : ℕ
  pub value : Decimal
  pub more : List Decimal

abbrev pub requests_item : ℕ → List InternalResultItem → Bool
requests_item i = any (λ (x : InternalResultItem). x.spec_item_id == i)

unfoldable pub has_duplicates : List InternalResultItem → Bool
has_duplicates [] = false
has_duplicates (x ∷ xs) = requests_item x.spec_item_id xs || has_duplicates xs

abbrev pub item_fits : Store → InspectionCase → ℕ → Bool
item_fits store kase i = elim (get_row (λ (x : SpecItem). x.id) i store.items) [
  | none ↦ false
  | some item ↦ item.spec_version_id == kase.spec_version_id
]

abbrev pub all_fit : Store → InspectionCase → List InternalResultItem → Bool
all_fit store kase [] = true
all_fit store kase (x ∷ xs) = item_fits store kase x.spec_item_id && all_fit store kase xs

-- A value that its column refuses.
abbrev pub has_overflow : List InternalResultItem → Bool
has_overflow [] = false
has_overflow (x ∷ xs) = any (λ v. not (fits v)) (x.value ∷ x.more) || has_overflow xs

abbrev pub of_case : InspectionCase → InternalResult → Bool
of_case kase r = r.inspection_case_id == kase.id

abbrev pub existing_results : Store → InspectionCase → List InternalResult
existing_results store kase = filter (of_case kase) store.internal_results

abbrev pub is_sample_of : List InternalResult → SampleMeasurement → Bool
is_sample_of results s =
    any (λ (r : InternalResult). opt_eq s.internal_result_id (some r.id)) results

-- Which of the rows stay: those of other cases, and those of the items that are requested again.
abbrev pub is_retained : InspectionCase → List InternalResultItem → InternalResult → Bool
is_retained kase request r = not (of_case kase r) || requests_item r.spec_item_id request

abbrev pub is_result_for : InspectionCase → ℕ → InternalResult → Bool
is_result_for kase i r = of_case kase r && r.spec_item_id == i

abbrev pub new_result : InspectionCase → ℕ → InternalResultItem → InternalResult
new_result kase i x = record {
  id = i;
  inspection_case_id = kase.id;
  spec_item_id = x.spec_item_id;
  evaluated_value = some (numeric x.value);
  evaluated_text = none;
  decision = none;
  deleted = false;
}

abbrev pub set_value :
    InspectionCase → InternalResultItem → List InternalResult → List InternalResult
set_value kase x [] = []
set_value kase x (r ∷ rs) =
    let rest = set_value kase x rs in
    if is_result_for kase x.spec_item_id r
    then record r { evaluated_value = some (numeric x.value) } ∷ rest
    else r ∷ rest

abbrev pub numbered : ℕ → ℕ → List Decimal → List SampleMeasurement
numbered result i [] = []
numbered result i (v ∷ vs) =
    record {
      supplier_result_id = none;
      internal_result_id = some result;
      sample_index = i;
      numeric_value = some (numeric v);
      text_value = none;
    }
    ∷ numbered result (suc i) vs

pub record Tables : Type 0 where
  pub results : List InternalResult
  pub samples : List SampleMeasurement

-- One submitted item: its row, found or new with an identifier of its own, and its samples.
unfoldable pub put_result : InspectionCase → (ℕ → ℕ) → InternalResultItem → Tables → Tables
put_result kase fresh x t = elim (find? (is_result_for kase x.spec_item_id) t.results) [
  | some r ↦ record {
    results = set_value kase x t.results;
    samples = t.samples ++ numbered r.id 1 (x.value ∷ x.more);
  }
  | none ↦ record {
    results = t.results ++ new_result kase (fresh x.spec_item_id) x ∷ [];
    samples = t.samples ++ numbered (fresh x.spec_item_id) 1 (x.value ∷ x.more);
  }
]

unfoldable pub put_results : InspectionCase → (ℕ → ℕ) → List InternalResultItem → Tables → Tables
unfolding put_result
put_results kase fresh [] t = t
put_results kase fresh (x ∷ xs) t = put_results kase fresh xs (put_result kase fresh x t)

-- The tables once the old samples and the rows that are not requested are deleted.
unfoldable pub cleared : Store → InspectionCase → List InternalResultItem → Tables
cleared store kase request = record {
  results = filter (is_retained kase request) store.internal_results;
  samples = filter (λ s. not (is_sample_of (existing_results store kase) s)) store.samples;
}

abbrev sorted_ids : List ℕ → Value
sorted_ids ids = list_of (map uuid (sort_by (λ a b. ltb a b) ids))

abbrev results_payload : Store → InspectionCase → List InternalResultItem → Value
results_payload store kase request =
    let existing = existing_results store kase in
    let kept = filter (λ (r : InternalResult). requests_item r.spec_item_id request) existing in
    let removed =
      filter (λ (r : InternalResult). not (requests_item r.spec_item_id request)) existing in
    object_of (
      ("result_count", integer (pos (length request)))
      ∷ (
        "requested_spec_item_ids",
        sorted_ids (map (λ (x : InternalResultItem). x.spec_item_id) request),
      )
      ∷ ("retained_spec_item_ids", sorted_ids (map (λ (r : InternalResult). r.spec_item_id) kept))
      ∷ ("removed_spec_item_ids", sorted_ids (map (λ (r : InternalResult). r.spec_item_id) removed))
      ∷ ("deleted_result_count", integer (pos (length removed)))
      ∷ (
        "deleted_sample_count",
        integer (pos (length (filter (is_sample_of existing) store.samples))),
      )
      ∷ [])

-- The store with the submitted rows, before it is evaluated.
unfoldable pub with_results : Store → InspectionCase → (ℕ → ℕ) → List InternalResultItem → Store
unfolding put_results cleared
with_results store kase fresh request =
    let t = put_results kase fresh request (cleared store kase request) in
    audited (record store { internal_results = t.results; samples = t.samples }) kase
      "P3_INTERNAL_RESULTS_UPDATED" none (results_payload store kase request)

-- The time of the update is written, which raises the version.
abbrev pub touched : InspectionCase → InspectionCase
touched kase = record kase { lock_version = suc kase.lock_version }

-- `put_internal_results`: what is committed, and the response that is built behind it.
unfoldable pub put_internal_results :
    Store → InspectionCase → (ℕ → ℕ) → List InternalResultItem → ℕ → Service (Store × Service View)
unfolding has_duplicates with_results
put_internal_results store kase fresh request expected_version = do
  raise_if (not (kase.lock_version == expected_version)) stale_inspection
  raise_if (is_some kase.final_decision) finalized_immutable
  raise_if (has_duplicates request) duplicate_spec_items
  raise_if (not (all_fit store kase request)) bad_spec_item
  raise_if (has_overflow request) database_error
  e ← evaluate_inspection (with_results store kase fresh request) kase
  let left = record e.store { cases = put_case (touched e.kase) e.store.cases }
  ok (left, inspection_view left (touched e.kase))
