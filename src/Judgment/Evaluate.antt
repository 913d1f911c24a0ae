-- ===== src/Judgment/Evaluate.antt =====
-- The methods of JudgmentEngine: from the values of an item to its evaluation, and the decision
-- on a case.
use hanyangchem_qc_v.Base.{
  Bool, true, false, not, ◌&&◌, ◌||◌, Option, none, some, List, [], ◌∷◌, ◌++◌, map, is_none,
  if◌then◌else◌, ok, err,
}
use hanyangchem_qc_v.Errors.{FailureCode, unmapped_result, invalid_rule}
use hanyangchem_qc_v.PyDecimal.{Decimal}
use hanyangchem_qc_v.Decimals.{Raw, decimal}
use hanyangchem_qc_v.Judgment.Samples.{normalise_values, Aggregate, Aggregates, aggregate_all}
use hanyangchem_qc_v.Judgment.{
  EngineDecision, rejected, on_hold, SourcePolicy, supplier_only, internal_only,
  both_internal_priority, both_all_must_pass, supplier_reference_internal_final, MissingPolicy,
  internal_substitute, reject, SamplePolicy, manual, Stage, mapping, parse_type, unit_stage, sample,
  supplier_hyc_internal_decisions, source_policy_stage, missing_policy_stage, overall_stage,
  ItemInput, SampleAggregation, ItemEvaluation, confirmed, Attempt, combine,
}

-- `_held`.
abbrev pub held : List Stage → FailureCode → ItemEvaluation
held stages code = record {
  supplier_decision = none;
  hyc_supplier_decision = none;
  internal_decision = none;
  overall = on_hold;
  completed_stages = stages;
  aggregations = [];
  failure_codes = code ∷ [];
}

-- `_evaluate_supplier_missing`.
unfoldable pub evaluate_supplier_missing : MissingPolicy → Option EngineDecision → EngineDecision
evaluate_supplier_missing reject internal = rejected
evaluate_supplier_missing internal_substitute none = on_hold
evaluate_supplier_missing internal_substitute (some d) = d
evaluate_supplier_missing _ internal = on_hold

abbrev pub expects_supplier : SourcePolicy → Bool
expects_supplier internal_only = false
expects_supplier _ = true

-- What decides where the supplier's result is missing and expected.
abbrev pub without_supplier : SourcePolicy → MissingPolicy → Option EngineDecision → EngineDecision
without_supplier both_all_must_pass missing internal = on_hold
without_supplier _ missing internal = evaluate_supplier_missing missing internal

abbrev pub first_given : Option EngineDecision → Option EngineDecision → Option EngineDecision
first_given (some d) other = some d
first_given none other = other

-- `chosen`.
unfoldable pub chosen :
    SourcePolicy → Option EngineDecision → Option EngineDecision → List (Option EngineDecision)
chosen supplier_only hyc internal = hyc ∷ []
chosen internal_only hyc internal = internal ∷ []
chosen supplier_reference_internal_final hyc internal = internal ∷ []
chosen both_internal_priority hyc internal = first_given internal hyc ∷ []
chosen both_all_must_pass hyc internal = hyc ∷ internal ∷ []

abbrev given : List (Option SampleAggregation) → List SampleAggregation
given [] = []
given (none ∷ rest) = given rest
given (some a ∷ rest) = a ∷ given rest

abbrev pub early_stages : List Stage
early_stages = mapping ∷ parse_type ∷ unit_stage ∷ []

abbrev pub decided_stages : List Stage
decided_stages = early_stages ++ sample ∷ supplier_hyc_internal_decisions ∷ []

abbrev pub all_stages : List Stage
all_stages = decided_stages ++ source_policy_stage ∷ missing_policy_stage ∷ overall_stage ∷ []

abbrev evaluation : Aggregate → Aggregate → Aggregate → EngineDecision → List Stage → ItemEvaluation
evaluation own hyc tested overall stages = record {
  supplier_decision = own.0;
  hyc_supplier_decision = hyc.0;
  internal_decision = tested.0;
  overall = overall;
  completed_stages = stages;
  aggregations = given (own.1 ∷ hyc.1 ∷ tested.1 ∷ []);
  failure_codes = [];
}

-- From the three decisions on: the policies.
unfoldable pub apply_policies : ItemInput → Aggregates → ItemEvaluation
unfolding evaluate_supplier_missing chosen
apply_policies item (own, hyc, tested) =
    if item.internal_required && is_none tested.0
    then evaluation own hyc tested on_hold decided_stages
    else if expects_supplier item.source_policy && is_none hyc.0
    then evaluation own hyc tested
        (without_supplier item.source_policy item.missing_policy tested.0) all_stages
    else evaluation own hyc tested (combine (chosen item.source_policy hyc.0 tested.0)) all_stages

abbrev pub is_manual : SamplePolicy → Bool
is_manual manual = true
is_manual _ = false

abbrev pub values_or : List Raw → List Decimal → List Raw
values_or [] values = map decimal values
values_or (r ∷ rs) values = r ∷ rs

-- From the values on.
unfoldable pub judge : ItemInput → List Decimal → List Decimal → ItemEvaluation
unfolding apply_policies
judge item supplier internal =
    if is_manual item.sample_policy
    then held early_stages unmapped_result
    else elim (aggregate_all item supplier internal) [
      | ok decided ↦ apply_policies item decided
      | err e ↦ held early_stages invalid_rule
    ]

abbrev pub supplier_input : ItemInput → Attempt (List Decimal)
supplier_input item =
    normalise_values item.supplier_unit item
      (values_or item.raw_supplier_values item.supplier_values)

abbrev pub internal_input : ItemInput → Attempt (List Decimal)
internal_input item =
    normalise_values item.internal_unit item
      (values_or item.raw_internal_values item.internal_values)

abbrev pub judge_inputs :
    ItemInput → Attempt (List Decimal) → Attempt (List Decimal) → ItemEvaluation
judge_inputs item (ok supplier) (ok internal) = judge item supplier internal
judge_inputs item _ _ = held (mapping ∷ []) unmapped_result

unfoldable pub evaluate_item_details : ItemInput → ItemEvaluation
unfolding judge
evaluate_item_details item =
    if not item.mapped || not (confirmed item.mapping_status)
    then held [] unmapped_result
    else if not item.source_confident
    then held (mapping ∷ []) unmapped_result
    else judge_inputs item (supplier_input item) (internal_input item)

unfoldable pub evaluate_item : ItemInput → EngineDecision
unfolding evaluate_item_details
evaluate_item item = (evaluate_item_details item).overall

-- `evaluate_case`: no items are no reason to accept.
unfoldable pub evaluate_case : List ItemInput → EngineDecision
unfolding evaluate_item combine
evaluate_case [] = on_hold
evaluate_case (i ∷ is) = combine (map (λ item. some (evaluate_item item)) (i ∷ is))
