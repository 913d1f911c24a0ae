-- ===== src/Services/Creation/Rows.antt =====
-- The rows that `create_inspection` (backend/src/hyc_api/services/p3.py) adds. Their
-- values are stored as their columns NUMERIC(24, 12) hold them.
use hanyangchem_qc_v.Base.{
  ℕ, false, not, ◌&&◌, Option, none, some, List, [], ◌∷◌, ◌++◌, any, filter, map, is_none, str_eq,
  ◌==◌, if◌then◌else◌, Bool, ok, err, ◌>>=◌, ◌>>◌, raise_if,
}
use hanyangchem_qc_v.Base.Text.{codes}
use hanyangchem_qc_v.PyDecimal.{Decimal}
use hanyangchem_qc_v.Snapshots.{Text, Members}
use hanyangchem_qc_v.Store.{
  SpecItem, InspectionCase, SupplierResult, SampleMeasurement, StandardTestItem, AuditLog, Store,
  get_row,
}
use hanyangchem_qc_v.Store.Numeric.{numeric, fits}
use hanyangchem_qc_v.Approval.Rows.{uuid, object_of}
use hanyangchem_qc_v.Services.{Service, missing_row, database_error}
use hanyangchem_qc_v.Services.Selection.{or_fail}
use hanyangchem_qc_v.Services.Creation.Values.{ItemValues, value_of}

-- The standard items of a specification, and their codes.
abbrev pub standards_of : Store → List SpecItem → List StandardTestItem
standards_of store items =
    filter (λ (s : StandardTestItem). any (λ (i : SpecItem). i.standard_test_item_id == s.id) items)
      store.standards

abbrev pub standard_codes : List StandardTestItem → List Text
standard_codes ss = map (λ (s : StandardTestItem). codes s.code) ss

abbrev pub supplier_row : ℕ → ℕ → StandardTestItem → Option Decimal → SupplierResult
supplier_row i kase standard raw = record {
  id = i;
  inspection_case_id = kase;
  standard_test_item_id = some standard.id;
  supplier_item_name = standard.name;
  normalized_value = elim raw [ none ↦ none | some v ↦ some (numeric v) ];
  normalized_text = none;
  mapping_status = "MANUAL_CONFIRMED";
  supplier_spec_text = some "Synthetic supplier reference specification";
  supplier_decision = elim raw [ none ↦ none | some v ↦ some "ACCEPTED" ];
  hyc_decision = none;
  deleted = false;
}

-- The only sample of a value that was read.
abbrev pub supplier_sample : ℕ → Option Decimal → List SampleMeasurement
supplier_sample result none = []
supplier_sample result (some v) =
    record {
      supplier_result_id = some result;
      internal_result_id = none;
      sample_index = 1;
      numeric_value = some (numeric v);
      text_value = none;
    }
    ∷ []

-- A value that its column refuses.
abbrev is_refused : Option Decimal → Bool
is_refused none = false
is_refused (some v) = not (fits v)

-- The rows of the items that have a value or are tested internally only.
unfoldable pub supplier_rows :
    (ℕ → ℕ)
    → ℕ
    → List StandardTestItem
    → ItemValues
    → List SpecItem
    → Service (List SupplierResult × List SampleMeasurement)
supplier_rows fresh kase standards values [] = ok ([], [])
supplier_rows fresh kase standards values (i ∷ is) =
    let rest = supplier_rows fresh kase standards values is in
    do
      standard ←
          or_fail (get_row (λ (s : StandardTestItem). s.id) i.standard_test_item_id standards)
            (err missing_row)
      let raw = value_of values (codes standard.code)
      raise_if (is_refused raw) database_error
      (results, samples) ← rest
      ok (
          if is_none raw && not (str_eq i.source_policy "INTERNAL_ONLY")
          then (results, samples)
          else (
            supplier_row (fresh i.id) kase standard raw ∷ results,
            supplier_sample (fresh i.id) raw ++ samples,
          ))

abbrev pub new_case : ℕ → ℕ → ℕ → Members → InspectionCase
new_case i allocation version snapshot = record {
  id = i;
  receipt_lot_allocation_id = allocation;
  spec_version_id = version;
  status = "INTERNAL_TEST_PENDING";
  candidate_decision = some "ON_HOLD";
  final_decision = none;
  submitted_by_id = none;
  correction_of_case_id = none;
  retest_of_case_id = none;
  lineage_root_id = some i;
  round_no = 1;
  revision_no = 1;
  lineage_reason = none;
  spec_snapshot = snapshot;
  lock_version = 1;
  deleted = false;
}

abbrev pub creation_audit : ℕ → ℕ → ℕ → AuditLog
creation_audit kase version run = record {
  entity_type = "inspection_case";
  entity_id = kase;
  action = "P3_INSPECTION_CREATED";
  payload = object_of (("spec_version_id", uuid version) ∷ ("extraction_run_id", uuid run) ∷ []);
  reason = none;
}
