-- ===== src/Judgment/Samples.antt =====
-- The values and the samples of an item: `_normalise_values` and `_aggregate` of JudgmentEngine.
use hanyangchem_qc_v.Base.{
  false, Option, none, some, List, [], ◌∷◌, String, length, if◌then◌else◌, ok, err, ◌>>=◌, ◌>>◌,
}
use hanyangchem_qc_v.Base.Int.{ℤ, pos}
use hanyangchem_qc_v.PyDecimal.{Decimal, finite, dec_ltb, dec_zero}
use hanyangchem_qc_v.PyDecimal.Arithmetic.{add, div, quantize}
use hanyangchem_qc_v.Decimals.{Raw, UnitRegistry, DecimalValue, parse, convert, decimal_precision}
use hanyangchem_qc_v.Rules.{Rule, validate}
use hanyangchem_qc_v.Judgment.{
  EngineDecision, on_hold, SamplePolicy, all_samples_in_spec, average_in_spec, worst_case_in_spec,
  min_in_spec, max_in_spec, manual, Source, supplier_spec, supplier_result_hyc_spec,
  internal_result_hyc_spec, ItemInput, SampleAggregation, Attempt, try, evaluate_rule, combine,
  caught,
}

-- The value in the target unit, when a unit is named at either end.
abbrev pub in_target_unit :
    Option UnitRegistry
    → Option String
    → Option String
    → ℤ
    → String
    → DecimalValue
    → Attempt DecimalValue
in_target_unit r none none scale version v = ok v
in_target_unit (some r) (some s) (some t) scale version v = do
  converted ← try (convert r v s t scale version)
  ok converted.rounded
in_target_unit _ _ _ scale version v = err caught

unfoldable pub normalise_value : Option String → ItemInput → Raw → Attempt Decimal
normalise_value source item raw = do
  parsed ← try (parse raw)
  v ←
      in_target_unit item.unit_registry source item.target_unit item.rounding_scale
        item.rounding_version parsed
  ok v.value

-- `_normalise_values`: every value, or nothing.
unfoldable pub normalise_values : Option String → ItemInput → List Raw → Attempt (List Decimal)
normalise_values source item [] = ok []
normalise_values source item (raw ∷ raws) =
    let rest = normalise_values source item raws in
    do v ← normalise_value source item raw; vs ← rest; ok (v ∷ vs)

-- `min(values)` and `max(values)`: the first of the smallest, of the largest.
unfoldable pub smallest : Decimal → List Decimal → Decimal
smallest m [] = m
smallest m (v ∷ vs) = smallest (if dec_ltb v m then v else m) vs

unfoldable pub largest : Decimal → List Decimal → Decimal
largest m [] = m
largest m (v ∷ vs) = largest (if dec_ltb m v then v else m) vs

-- `sum(values, Decimal(0))` in the engine's context.
unfoldable pub sum_from : Decimal → List Decimal → Attempt Decimal
sum_from acc [] = ok acc
sum_from acc (v ∷ vs) = try (add decimal_precision acc v) >>= λ next. sum_from next vs

abbrev pub Aggregate : Type 0
Aggregate = Option EngineDecision × Option SampleAggregation

-- What is common to the aggregations of one call.
abbrev pub aggregation :
    Source → SamplePolicy → ℤ → String → Option Decimal → Option Decimal → SampleAggregation
aggregation source policy scale version before after = record {
  source = source;
  policy = policy;
  pre_round = before;
  result = after;
  rounding_scale = scale;
  rounding_version = version;
}

unfoldable pub decisions : Rule → List Decimal → Attempt (List (Option EngineDecision))
decisions r [] = ok []
decisions r (v ∷ vs) =
    let rest = decisions r vs in do d ← evaluate_rule r v; ds ← rest; ok (some d ∷ ds)

-- The branches of `_aggregate` behind the decisions on each value.
unfoldable pub by_policy :
    SamplePolicy
    → Rule
    → Decimal
    → List Decimal
    → List (Option EngineDecision)
    → ℤ
    → Attempt (EngineDecision × Option Decimal × Option Decimal)
unfolding sum_from smallest largest
by_policy all_samples_in_spec r v vs ds scale = ok (combine ds, none, none)
by_policy worst_case_in_spec r v vs ds scale = ok (combine ds, none, none)
by_policy average_in_spec r v vs ds scale = do
  total ← sum_from dec_zero (v ∷ vs)
  pre_round ← try (div decimal_precision total (finite false (length (v ∷ vs)) (pos 0)))
  result ← try (quantize decimal_precision scale pre_round)
  d ← evaluate_rule r result
  ok (d, some pre_round, some result)
by_policy min_in_spec r v vs ds scale = do
  let result = smallest v vs
  d ← evaluate_rule r result
  ok (d, some result, some result)
by_policy max_in_spec r v vs ds scale = do
  let result = largest v vs
  d ← evaluate_rule r result
  ok (d, some result, some result)
by_policy manual r v vs ds scale = ok (on_hold, none, none)

-- `_aggregate`.
unfoldable pub aggregate :
    List Decimal → SamplePolicy → Rule → Source → ℤ → String → Attempt Aggregate
unfolding decisions by_policy
aggregate [] policy r source scale version = ok (none, none)
aggregate (v ∷ vs) policy r source scale version = do
  try (validate r)
  ds ← decisions r (v ∷ vs)
  (d, before, after) ← by_policy policy r v vs ds scale
  ok (some d, some (aggregation source policy scale version before after))

-- `_aggregate` for the supplier's own rule, where there is one.
abbrev pub aggregate_supplier : List Decimal → ItemInput → Option Rule → Attempt Aggregate
aggregate_supplier vs item none = ok (none, none)
aggregate_supplier vs item (some r) =
    aggregate vs item.sample_policy r supplier_spec item.rounding_scale item.rounding_version

abbrev pub Aggregates : Type 0
Aggregates = Aggregate × Aggregate × Aggregate

unfoldable pub aggregate_all : ItemInput → List Decimal → List Decimal → Attempt Aggregates
unfolding aggregate
aggregate_all item supplier internal = do
  own ← aggregate_supplier supplier item item.supplier_rule
  hyc ←
      aggregate supplier item.sample_policy item.rule supplier_result_hyc_spec item.rounding_scale
        item.rounding_version
  tested ←
      aggregate internal item.sample_policy item.rule internal_result_hyc_spec item.rounding_scale
        item.rounding_version
  ok (own, hyc, tested)
