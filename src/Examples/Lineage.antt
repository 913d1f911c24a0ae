-- ===== src/Examples/Lineage.antt =====
-- The specification of the case of the approvals, its retest, and its results and services once it
-- is settled.
use hanyangchem_qc_v.Base.{
  ℕ, ◌≡◌, refl, inl, true, false, none, some, [], ◌∷◌, is_none, ok, arith, sort_by, insert_by, ◌+◌,
  if◌then◌else◌,
}
use hanyangchem_qc_v.Base.Int.{pos}
use hanyangchem_qc_v.PyDecimal.{finite}
use hanyangchem_qc_v.Store.{
  InternalResult, SampleMeasurement, InspectionCase, ReceiptLotAllocation, Store,
}
use hanyangchem_qc_v.Workflow.{lacks_reason}
use hanyangchem_qc_v.Approval.{Candidate, effective_spec, is_effective, joined_specs}
use hanyangchem_qc_v.Services.{Principal}
use hanyangchem_qc_v.Services.Selection.{select_spec}
use hanyangchem_qc_v.Services.Selection.Agreement.{
  of_top, top, candidates, select_spec-top, effective_spec-select_spec,
}
use hanyangchem_qc_v.Services.Lifecycle.{case_row, submit_inspection, return_inspection}
use hanyangchem_qc_v.Services.Lifecycle.Settled.{RefusedWith, finalize-services}
use hanyangchem_qc_v.Services.Results.{InternalResultItem, put_internal_results, with_results}
use hanyangchem_qc_v.Services.Results.Samples.{requested_samples}
use hanyangchem_qc_v.Services.Results.Exact.{value_at, requested_value, others, with_results-exact}
use hanyangchem_qc_v.Services.Lineage.{NewIds, clone_lineage}
use hanyangchem_qc_v.Services.Lineage.Place.{WellPlaced, LineageRows, clone_lineage-LineageRows}
use hanyangchem_qc_v.Examples.Approval

abbrev allocation : ReceiptLotAllocation
allocation = record {
  id = 61;
  inbound_receipt_id = 81;
  material_lot_id = 71;
  model_id = none;
  quantity = finite false 5 (pos 0);
  quantity_unit = "kg";
  lock_version = 1;
  deleted = false;
}

abbrev selected : Candidate
selected = (
  record {
    id = 21;
    spec_profile_id = 11;
    version = 1;
    status = "ACTIVE";
    effective_from = Approval.day 1;
    effective_to = none;
  },
  record { id = 11; material_id = 5; supplier_id = none; model_id = none },
)

select_spec-top_example :
    select_spec Approval.store allocation
    ≡ of_top (top (candidates Approval.store allocation Approval.received Approval.lot))
select_spec-top_example =
    select_spec-top Approval.store allocation Approval.received Approval.lot refl refl

selecting : select_spec Approval.store allocation ≡ ok selected
unfolding select_spec sort_by insert_by is_effective joined_specs
selecting = refl

effective_spec-select_spec_example :
    effective_spec Approval.store Approval.waiting allocation Approval.received Approval.lot
    ≡ ok selected
effective_spec-select_spec_example =
    effective_spec-select_spec Approval.store allocation Approval.received Approval.lot refl refl
      Approval.waiting selecting refl refl

abbrev pub inspector : Principal
inspector = record { actor_id = 7; role = "INSPECTOR" }

abbrev same_ids : ℕ → ℕ
same_ids i = i + 1000

abbrev submitted_item : InternalResultItem
submitted_item = record { spec_item_id = 31; value = finite false 99 (pos 0); more = [] }

finalize-services_example :
    (kase : InspectionCase) × (case_row Approval.acceptance.0 1 ≡ some kase)
    × RefusedWith 409 (submit_inspection Approval.acceptance.0 kase 4 inspector)
    × RefusedWith 409
        (put_internal_results Approval.acceptance.0 kase same_ids (submitted_item ∷ []) 4)
    × RefusedWith
        (if lacks_reason (some "again") then 422 else 409)
        (return_inspection Approval.acceptance.0 kase 4 inspector (some "again") none)
finalize-services_example =
    finalize-services Approval.digest Approval.store (Approval.request "ACCEPTED") 4 inspector
      same_ids (submitted_item ∷ []) (some "again") none Approval.acceptance.1

-- The case has a row with a sample for the item, and one for an item that is not requested.
abbrev old_row : InternalResult
old_row = record {
  id = 601;
  inspection_case_id = Approval.waiting.id;
  spec_item_id = 31;
  evaluated_value = some (finite false 7 (pos 0));
  evaluated_text = none;
  decision = none;
  deleted = false;
}

abbrev old_sample : SampleMeasurement
old_sample = record {
  supplier_result_id = none;
  internal_result_id = some 601;
  sample_index = 1;
  numeric_value = some (finite false 7 (pos 0));
  text_value = none;
}

abbrev measured_store : Store
measured_store = record Approval.store {
  internal_results = old_row ∷ record old_row { id = 602; spec_item_id = 39 } ∷ [];
  samples =
      old_sample
      ∷ record old_sample { internal_result_id = some 602 }
      ∷ record old_sample { internal_result_id = some 999 }
      ∷ [];
}

with_results-exact_example :
    (value_at Approval.waiting 31
        (with_results measured_store Approval.waiting same_ids
          (submitted_item ∷ [])).internal_results
      ≡ requested_value 31 (submitted_item ∷ []) none)
    × ((with_results measured_store Approval.waiting same_ids (submitted_item ∷ [])).samples
        ≡ record old_sample { internal_result_id = some 999 }
          ∷ requested_samples (λ i. 601) (submitted_item ∷ []))
    × (others Approval.waiting
          (with_results measured_store Approval.waiting same_ids
            (submitted_item ∷ [])).internal_results
        ≡ others Approval.waiting measured_store.internal_results)
with_results-exact_example =
    with_results-exact Approval.waiting measured_store same_ids (submitted_item ∷ []) 31

abbrev settled : InspectionCase
settled = record Approval.waiting { status = "REJECTED"; final_decision = some "REJECTED" }

settled-WellPlaced : WellPlaced settled
settled-WellPlaced = record { revision = inl (refl, refl); round = omega arith }

abbrev settled_store : Store
settled_store = record Approval.store { cases = settled ∷ [] }

settled_store-LineageRows : LineageRows settled_store
settled_store-LineageRows = record {
  placed = (settled-WellPlaced, tt);
  distinct = (tt, tt);
  samples = tt;
}

abbrev pub clone_ids : NewIds
clone_ids = record { kase = 2; supplier = same_ids; internal = same_ids }

cloned :
    (left : Store × InspectionCase) × (clone_lineage settled_store clone_ids settled inspector
        "outlier" true
      ≡ ok left)
unfolding clone_lineage
cloned = (_, refl)

clone_lineage-LineageRows_example :
    LineageRows cloned.0.0 × (is_none settled.final_decision ≡ false)
clone_lineage-LineageRows_example =
    clone_lineage-LineageRows settled_store clone_ids settled inspector "outlier" true
      settled_store-LineageRows settled-WellPlaced cloned.1
