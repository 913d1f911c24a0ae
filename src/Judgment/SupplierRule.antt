-- ===== src/Judgment/SupplierRule.antt =====
-- About the supplier's own rule, which JudgmentEngine judges beside the company's.
use hanyangchem_qc_v.Base.{
  ◌≡◌, refl, sym, ap, ◌∙◌, ◌⊎◌, inl, inr, true, Option, none, List, [], ◌∷◌, arith, Bool-cases,
  Result-cases, ok, err, String,
}
use hanyangchem_qc_v.PyDecimal.{Decimal}
use hanyangchem_qc_v.Decimals.{Raw}
use hanyangchem_qc_v.Rules.{Rule}
use hanyangchem_qc_v.Judgment.{
  on_hold, ItemInput, ItemEvaluation, caught, Attempt, supplier_result_hyc_spec,
  internal_result_hyc_spec,
}
use hanyangchem_qc_v.Judgment.Policies.{passes_checks, details-open, details-held}
use hanyangchem_qc_v.Judgment.Samples.{
  normalise_value, normalise_values, Aggregate, aggregate, aggregate_supplier, aggregate_all,
}
use hanyangchem_qc_v.Judgment.Evaluate.{
  apply_policies, judge, judge_inputs, supplier_input, internal_input, evaluate_item, is_manual,
  values_or,
}

abbrev pub with_supplier_rule : Option Rule → ItemInput → ItemInput
with_supplier_rule r item = record item { supplier_rule = r }

module _ (r : Option Rule) (item : ItemInput) where
  normalise_values-same :
      (source : Option String) (raws : List Raw)
      → normalise_values source (with_supplier_rule r item) raws ≡ normalise_values source item raws
  unfolding normalise_values normalise_value
  normalise_values-same source [] = refl
  normalise_values-same source (raw ∷ raws) = rw (normalise_values-same source raws)

  apply_policies-same :
      (a b : Aggregate) (hyc tested : Aggregate)
      → (apply_policies (with_supplier_rule r item) (a, hyc, tested)).overall
        ≡ (apply_policies item (b, hyc, tested)).overall
  unfolding apply_policies
  apply_policies-same a b hyc tested = ground arith

  hyc_aggregate : List Decimal → Attempt Aggregate
  hyc_aggregate vs =
      aggregate vs item.sample_policy item.rule supplier_result_hyc_spec item.rounding_scale
        item.rounding_version

  internal_aggregate : List Decimal → Attempt Aggregate
  internal_aggregate vs =
      aggregate vs item.sample_policy item.rule internal_result_hyc_spec item.rounding_scale
        item.rounding_version

  aggregate_all-same :
      (supplier internal : List Decimal)
      → (aggregate_all (with_supplier_rule r item) supplier internal ≡ err caught)
        ⊎ ((a b : Aggregate) × (hyc tested : Aggregate) × (aggregate_all
                (with_supplier_rule r item)
                supplier
                internal
              ≡ ok (a, hyc, tested))
            × (aggregate_all (with_supplier_rule none item) supplier internal
                ≡ ok (b, hyc, tested)))
  unfolding hyc_aggregate internal_aggregate aggregate_all
  aggregate_all-same supplier internal = elim (Result-cases (aggregate_supplier supplier item r)) [
    | inr (caught, e) ↦ inl (rw e)
    | inl (a, e) ↦ elim (Result-cases (hyc_aggregate supplier)) [
      | inr (caught, f) ↦ inl (rw (e, f))
      | inl (hyc, f) ↦ elim (Result-cases (internal_aggregate internal)) [
        | inr (caught, g) ↦ inl (rw (e, f, g))
        | inl (tested, g) ↦ inr (a, (none, none), hyc, tested, rw (e, f, g), rw (f, g))
      ]
    ]
  ]

  judge-same :
      (supplier internal : List Decimal)
      → ((judge (with_supplier_rule r item) supplier internal).overall ≡ on_hold)
        ⊎ ((judge (with_supplier_rule r item) supplier internal).overall
            ≡ (judge (with_supplier_rule none item) supplier internal).overall)
  unfolding judge
  judge-same supplier internal = elim (Bool-cases (is_manual item.sample_policy)) [
    | inl m ↦ inl (rw m)
    | inr m ↦ elim (aggregate_all-same supplier internal) [
      | inl e ↦ inl (rw (m, e))
      | inr (a, b, hyc, tested, e, f) ↦
          inr (rw (m, e, f) (apply_policies-same a b hyc tested ∙ refl))
    ]
  ]

  judge_inputs-same :
      (supplier internal : Attempt (List Decimal))
      → ((judge_inputs (with_supplier_rule r item) supplier internal).overall ≡ on_hold)
        ⊎ ((judge_inputs (with_supplier_rule r item) supplier internal).overall
            ≡ (judge_inputs (with_supplier_rule none item) supplier internal).overall)
  judge_inputs-same (ok s) (ok i) = judge-same s i
  judge_inputs-same (ok s) (err x) = inl refl
  judge_inputs-same (err x) i = inl refl

supplier_input-same :
    (r : Option Rule) (item : ItemInput)
    → supplier_input (with_supplier_rule r item) ≡ supplier_input item
supplier_input-same r item =
    normalise_values-same r item item.supplier_unit
      (values_or item.raw_supplier_values item.supplier_values)

internal_input-same :
    (r : Option Rule) (item : ItemInput)
    → internal_input (with_supplier_rule r item) ≡ internal_input item
internal_input-same r item =
    normalise_values-same r item item.internal_unit
      (values_or item.raw_internal_values item.internal_values)

through_inputs :
    (r : Option Rule) (item : ItemInput)
    → passes_checks item ≡ true
    → evaluate_item (with_supplier_rule r item)
      ≡ (judge_inputs
          (with_supplier_rule r item)
          (supplier_input item)
          (internal_input item)).overall
unfolding evaluate_item
through_inputs r item passes =
    ap (λ (e : ItemEvaluation). e.overall) (details-open (with_supplier_rule r item) passes)
    ∙ cc (supplier_input-same r item, internal_input-same r item)

-- Whatever rule of the supplier's own is judged beside the company's, the overall decision on the
-- item is the one without it, or a hold.
pub evaluate_item-supplier_rule :
    (r : Option Rule) (item : ItemInput)
    → (evaluate_item (with_supplier_rule r item) ≡ on_hold)
      ⊎ (evaluate_item (with_supplier_rule r item) ≡ evaluate_item (with_supplier_rule none item))
unfolding evaluate_item
evaluate_item-supplier_rule r item = elim (Bool-cases (passes_checks item)) [
  | inr fails ↦ inl (details-held (with_supplier_rule r item) fails)
  | inl passes ↦ elim (judge_inputs-same r item (supplier_input item) (internal_input item)) [
    | inl h ↦ inl (through_inputs r item passes ∙ h)
    | inr h ↦ inr (through_inputs r item passes ∙ h ∙ sym (through_inputs none item passes))
  ]
]
