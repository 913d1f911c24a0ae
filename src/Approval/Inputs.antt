-- ===== src/Approval/Inputs.antt =====
-- The item inputs that `finalize` judges, from the persisted rows (`_rule`, `_enum`,
-- `_numeric_samples`, `_persisted_inputs`).
use hanyangchem_qc_v.Base.{
  ℕ, Bool, true, false, not, ◌&&◌, ◌||◌, Option, none, some, List, [], ◌∷◌, filter, find?, String,
  opt_eq, is_empty, ltb, ◌==◌, if◌then◌else◌, Result, ok, err, ◌>>=◌, ◌>>◌, raise_if, sort_by,
  or_list, ◌++◌,
}
use hanyangchem_qc_v.PyDecimal.{Decimal}
use hanyangchem_qc_v.Rules.{
  Operator, gte, gt, lte, lt, between_inclusive, between_exclusive, target_plus_minus, equal,
  in_set, contains, manual_pass_fail, Rule, validate,
}
use hanyangchem_qc_v.Judgment.{
  MappingStatus, unmapped, alias_matched, manual_confirmed, confirmed, SourcePolicy, supplier_only,
  internal_only, both_internal_priority, both_all_must_pass, supplier_reference_internal_final,
  MissingPolicy, request_supplement, internal_substitute, special_acceptance, hold, reject,
  SamplePolicy, all_samples_in_spec, average_in_spec, worst_case_in_spec, min_in_spec, max_in_spec,
  manual, ItemInput,
}
use hanyangchem_qc_v.Store.{SpecItem, SupplierResult, InternalResult, SampleMeasurement, Store}
use hanyangchem_qc_v.Approval.{
  Attempt, enum, no_items, bad_operator, bad_rule, bad_source_policy, bad_mapping_status,
  bad_missing_policy, bad_sample_policy,
}

abbrev pub operators : List (Operator × String)
operators =
    (gte, "GTE")
    ∷ (gt, "GT")
    ∷ (lte, "LTE")
    ∷ (lt, "LT")
    ∷ (between_inclusive, "BETWEEN_INCLUSIVE")
    ∷ (between_exclusive, "BETWEEN_EXCLUSIVE")
    ∷ (target_plus_minus, "TARGET_PLUS_MINUS")
    ∷ (equal, "EQUAL")
    ∷ (in_set, "IN_SET")
    ∷ (contains, "CONTAINS")
    ∷ (manual_pass_fail, "MANUAL_PASS_FAIL")
    ∷ []

abbrev pub mapping_statuses : List (MappingStatus × String)
mapping_statuses =
    (unmapped, "UNMAPPED")
    ∷ (alias_matched, "ALIAS_MATCHED")
    ∷ (manual_confirmed, "MANUAL_CONFIRMED")
    ∷ []

abbrev pub source_policies : List (SourcePolicy × String)
source_policies =
    (supplier_only, "SUPPLIER_ONLY")
    ∷ (internal_only, "INTERNAL_ONLY")
    ∷ (both_internal_priority, "BOTH_INTERNAL_PRIORITY")
    ∷ (both_all_must_pass, "BOTH_ALL_MUST_PASS")
    ∷ (supplier_reference_internal_final, "SUPPLIER_REFERENCE_INTERNAL_FINAL")
    ∷ []

abbrev pub missing_policies : List (MissingPolicy × String)
missing_policies =
    (request_supplement, "REQUEST_SUPPLEMENT")
    ∷ (internal_substitute, "INTERNAL_SUBSTITUTE")
    ∷ (special_acceptance, "SPECIAL_ACCEPTANCE")
    ∷ (hold, "HOLD")
    ∷ (reject, "REJECT")
    ∷ []

abbrev pub sample_policies : List (SamplePolicy × String)
sample_policies =
    (all_samples_in_spec, "ALL_SAMPLES_IN_SPEC")
    ∷ (average_in_spec, "AVERAGE_IN_SPEC")
    ∷ (worst_case_in_spec, "WORST_CASE_IN_SPEC")
    ∷ (min_in_spec, "MIN_IN_SPEC")
    ∷ (max_in_spec, "MAX_IN_SPEC")
    ∷ (manual, "MANUAL")
    ∷ []

abbrev pub or_nothing {ℓ} : {A : Type ℓ} → Option (List A) → List A
or_nothing none = []
or_nothing (some xs) = xs

abbrev pub columns_rule : Operator → SpecItem → Rule
columns_rule operator item = record {
  operator = operator;
  lower = item.lower_value;
  upper = item.upper_value;
  target = item.target_value;
  tolerance = item.tolerance;
  allowed = or_nothing item.allowed_values;
}

abbrev refused_rule {ℓ κ} : {E : Type ℓ} {A : Type κ} → Result E A → Attempt A
refused_rule (ok a) = ok a
refused_rule (err e) = err bad_rule

-- `_rule`.
unfoldable pub rule_of : SpecItem → Attempt Rule
rule_of item = do
  operator ← enum operators item.operator bad_operator
  refused_rule (validate (columns_rule operator item))
  ok (columns_rule operator item)

abbrev values_of : List (Option Decimal) → List Decimal
values_of [] = []
values_of (none ∷ rest) = values_of rest
values_of (some v ∷ rest) = v ∷ values_of rest

abbrev fallback_list : Option Decimal → List Decimal
fallback_list none = []
fallback_list (some v) = v ∷ []

abbrev numeric_values : (SampleMeasurement → Bool) → List SampleMeasurement → List Decimal
numeric_values of_result [] = []
numeric_values of_result (s ∷ ss) =
    let rest = numeric_values of_result ss in
    if of_result s then fallback_list s.numeric_value ++ rest else rest

-- `_numeric_samples`, for the two kinds of result.
unfoldable pub supplier_samples : List SampleMeasurement → Option SupplierResult → List Decimal
supplier_samples samples none = []
supplier_samples samples (some r) =
    or_list (numeric_values (λ s. opt_eq s.supplier_result_id (some r.id)) samples)
      (fallback_list r.normalized_value)

unfoldable pub internal_samples : List SampleMeasurement → Option InternalResult → List Decimal
internal_samples samples none = []
internal_samples samples (some r) =
    or_list (numeric_values (λ s. opt_eq s.internal_result_id (some r.id)) samples)
      (fallback_list r.evaluated_value)

abbrev pub is_internal_only : SourcePolicy → Bool
is_internal_only internal_only = true
is_internal_only _ = false

abbrev pub wants_internal : SourcePolicy → Bool
wants_internal internal_only = true
wants_internal both_all_must_pass = true
wants_internal supplier_reference_internal_final = true
wants_internal _ = false

abbrev mapping_of : SourcePolicy → Option SupplierResult → Attempt MappingStatus
mapping_of policy none = ok (if is_internal_only policy then alias_matched else unmapped)
mapping_of policy (some r) = enum mapping_statuses r.mapping_status bad_mapping_status

-- The input of one item.
unfoldable pub item_input :
    List SupplierResult
    → List InternalResult
    → List SampleMeasurement
    → SpecItem
    → Attempt ItemInput
unfolding rule_of supplier_samples internal_samples
item_input suppliers internals samples item = do
  let supplier =
      find?
        (λ (r : SupplierResult). opt_eq r.standard_test_item_id (some item.standard_test_item_id))
        suppliers
  let internal = find? (λ (r : InternalResult). r.spec_item_id == item.id) internals
  source_policy ← enum source_policies item.source_policy bad_source_policy
  mapping_status ← mapping_of source_policy supplier
  rule ← rule_of item
  missing_policy ← enum missing_policies item.missing_policy bad_missing_policy
  sample_policy ← enum sample_policies item.sample_policy bad_sample_policy
  ok (record {
    rule = rule;
    source_policy = source_policy;
    missing_policy = missing_policy;
    sample_policy = sample_policy;
    supplier_values = supplier_samples samples supplier;
    internal_values = internal_samples samples internal;
    supplier_rule = none;
    mapping_status = mapping_status;
    mapped = is_internal_only source_policy || confirmed mapping_status;
    source_confident = true;
    internal_required = wants_internal source_policy;
    raw_supplier_values = [];
    raw_internal_values = [];
    supplier_unit = none;
    internal_unit = none;
    target_unit = none;
    unit_registry = none;
    rounding_scale = item.precision;
    rounding_version = "P2_HALF_EVEN_V1";
  })

unfoldable pub item_inputs :
    List SupplierResult
    → List InternalResult
    → List SampleMeasurement
    → List SpecItem
    → Attempt (List ItemInput)
unfolding item_input
item_inputs suppliers internals samples [] = ok []
item_inputs suppliers internals samples (item ∷ items) =
    let rest = item_inputs suppliers internals samples items in
    do i ← item_input suppliers internals samples item; is ← rest; ok (i ∷ is)

abbrev pub items_of : Store → ℕ → List SpecItem
items_of store version =
    sort_by (λ (a b : SpecItem). ltb a.id b.id)
      (filter (λ (i : SpecItem). i.spec_version_id == version && not i.deleted) store.items)

abbrev pub suppliers_of : Store → ℕ → List SupplierResult
suppliers_of store kase =
    sort_by (λ (a b : SupplierResult). ltb a.id b.id)
      (filter (λ (r : SupplierResult). r.inspection_case_id == kase && not r.deleted)
        store.supplier_results)

abbrev pub internals_of : Store → ℕ → List InternalResult
internals_of store kase =
    sort_by (λ (a b : InternalResult). ltb a.id b.id)
      (filter (λ (r : InternalResult). r.inspection_case_id == kase && not r.deleted)
        store.internal_results)

-- `_persisted_inputs`, but for the evaluations, which follow from the inputs.
unfoldable pub persisted_inputs : Store → ℕ → ℕ → Attempt (List ItemInput)
unfolding item_inputs
persisted_inputs store kase version =
    raise_if (is_empty (items_of store version)) no_items
    >> item_inputs (suppliers_of store kase) (internals_of store kase) store.samples
        (items_of store version)
