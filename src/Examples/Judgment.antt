-- ===== src/Examples/Judgment.antt =====
-- An item and a case before the engine of judgment.py.
use hanyangchem_qc_v.Base.{
  ◌≡◌, refl, ◌≢◌, ◌↔◌, ◌⊎◌, inl, inr, true, false, none, some, List, [], ◌∷◌, All, err,
}
use hanyangchem_qc_v.Base.Int.{pos, negsuc}
use hanyangchem_qc_v.PyDecimal.{Decimal, finite, dec_leb, dec_ltb, to_str, format_f}
use hanyangchem_qc_v.PyDecimal.Digits.{digits, digits_value, fixed_digits}
use hanyangchem_qc_v.Decimals.{
  decimal, not_canonical, parse, parse_text, canonical_matches, to_decimal, span_digits,
}
use hanyangchem_qc_v.Rules.{Rule, gte, validate, check_columns}
use hanyangchem_qc_v.Judgment.{
  ItemInput, accepted, on_hold, evaluate_rule, apply_rule, combine, supplier_only,
  request_supplement, all_samples_in_spec, manual_confirmed,
}
use hanyangchem_qc_v.Judgment.Samples.{normalise_value, normalise_values, aggregate, aggregate_all}
use hanyangchem_qc_v.Judgment.Evaluate.{
  evaluate_item_details, evaluate_item, evaluate_case, judge, apply_policies, chosen,
  evaluate_supplier_missing,
}
use hanyangchem_qc_v.Judgment.Policies.{
  Accepts, evaluate_case-accepted_iff, evaluate_item_details-Accepts,
}
use hanyangchem_qc_v.Judgment.SupplierRule.{with_supplier_rule, evaluate_item-supplier_rule}
use hanyangchem_qc_v.Judgment.Refusals.{evaluate_item-Unreadable}

abbrev at_least : Decimal → Rule
at_least v = record {
  operator = gte;
  lower = some v;
  upper = none;
  target = none;
  tolerance = none;
  allowed = [];
}

-- 99.5, 98, and zero from a column NUMERIC(24,12).
abbrev ninety_nine_half : Decimal
ninety_nine_half = finite false 995 (negsuc 0)

abbrev ninety_eight : Decimal
ninety_eight = finite false 98 (pos 0)

abbrev stored_zero : Decimal
stored_zero = finite false 0 (negsuc 11)

abbrev purity : List Decimal → ItemInput
purity values = record {
  rule = at_least ninety_eight;
  source_policy = supplier_only;
  missing_policy = request_supplement;
  sample_policy = all_samples_in_spec;
  supplier_values = values;
  internal_values = [];
  supplier_rule = none;
  mapping_status = manual_confirmed;
  mapped = true;
  source_confident = true;
  internal_required = false;
  raw_supplier_values = [];
  raw_internal_values = [];
  supplier_unit = none;
  internal_unit = none;
  target_unit = none;
  unit_registry = none;
  rounding_scale = pos 12;
  rounding_version = "v1";
}

abbrev pure_item : ItemInput
pure_item = purity (ninety_nine_half ∷ [])

pure_item-accepted : (evaluate_item_details pure_item).overall ≡ accepted
unfolding evaluate_item_details judge apply_policies chosen evaluate_supplier_missing aggregate_all
    aggregate normalise_values normalise_value parse parse_text canonical_matches to_decimal
    span_digits to_str format_f digits digits_value fixed_digits evaluate_rule apply_rule validate
    check_columns combine dec_leb dec_ltb
pure_item-accepted = refl

evaluate_item_details-Accepts_example : Accepts pure_item (evaluate_item_details pure_item)
evaluate_item_details-Accepts_example = evaluate_item_details-Accepts pure_item pure_item-accepted

evaluate_case-accepted_iff_example :
    (evaluate_case (pure_item ∷ []) ≡ accepted)
    ↔ ((pure_item ∷ [] ≢ []) × All (λ item. evaluate_item item ≡ accepted) (pure_item ∷ []))
evaluate_case-accepted_iff_example = evaluate_case-accepted_iff (pure_item ∷ [])

evaluate_item-supplier_rule_example :
    (evaluate_item (with_supplier_rule (some (at_least ninety_nine_half)) pure_item) ≡ on_hold)
    ⊎ (evaluate_item (with_supplier_rule (some (at_least ninety_nine_half)) pure_item)
        ≡ evaluate_item (with_supplier_rule none pure_item))
evaluate_item-supplier_rule_example =
    evaluate_item-supplier_rule (some (at_least ninety_nine_half)) pure_item

stored_zero-unreadable : parse (decimal stored_zero) ≡ err not_canonical
unfolding parse parse_text canonical_matches span_digits to_str format_f digits
stored_zero-unreadable = refl

evaluate_item-Unreadable_example :
    evaluate_item (purity (ninety_nine_half ∷ stored_zero ∷ [])) ≡ on_hold
evaluate_item-Unreadable_example =
    evaluate_item-Unreadable (purity (ninety_nine_half ∷ stored_zero ∷ []))
      (inl (inr (inl (not_canonical, stored_zero-unreadable))))
