-- ===== src/Judgment/Refusals.antt =====
-- About values that JudgmentEngine cannot read.
use hanyangchem_qc_v.Base.{
  ℕ, suc, ◌+◌, ◌≤◌, ◌≡◌, refl, ap, ◌∙◌, ◌⊎◌, inl, inr, Bool, Option, String, List, [], ◌∷◌, map,
  length, Any, arith, Bool-cases, Result-cases, ok, err,
}
use hanyangchem_qc_v.Base.Int.{negsuc}
use hanyangchem_qc_v.PyDecimal.{Decimal, finite}
use hanyangchem_qc_v.PyDecimal.Digits.{digits}
use hanyangchem_qc_v.Decimals.{Raw, decimal, DecimalError, parse, not_canonical}
use hanyangchem_qc_v.Decimals.Canonical.{parse-exponent}
use hanyangchem_qc_v.Judgment.{on_hold, ItemInput, ItemEvaluation, Attempt, caught}
use hanyangchem_qc_v.Judgment.Policies.{passes_checks, details-open, details-held}
use hanyangchem_qc_v.Judgment.Samples.{normalise_value, normalise_values}
use hanyangchem_qc_v.Judgment.Evaluate.{
  judge_inputs, supplier_input, internal_input, values_or, evaluate_item,
}

-- DecimalValue.parse raises on the value.
abbrev pub Unreadable : Raw → Type 0
Unreadable raw = (e : DecimalError) × (parse raw ≡ err e)

normalise_value-Unreadable :
    (source : Option String) (item : ItemInput) (raw : Raw)
    → Unreadable raw
    → normalise_value source item raw ≡ err caught
unfolding normalise_value
normalise_value-Unreadable source item raw (e, p) = rw p

normalise_values-Unreadable :
    (source : Option String) (item : ItemInput) (raws : List Raw)
    → Any Unreadable raws
    → normalise_values source item raws ≡ err caught
unfolding normalise_values
normalise_values-Unreadable source item [] h = absurd h
normalise_values-Unreadable source item (raw ∷ raws) (inl h) =
    rw (normalise_value-Unreadable source item raw h)
normalise_values-Unreadable source item (raw ∷ raws) (inr h) =
    elim (Result-cases (normalise_value source item raw)) [
      | inl (v, e) ↦ rw (e, normalise_values-Unreadable source item raws h)
      | inr (caught, e) ↦ rw e
    ]

judge_inputs-held :
    (item : ItemInput) (supplier internal : Attempt (List Decimal))
    → (supplier ≡ err caught) ⊎ (internal ≡ err caught)
    → (judge_inputs item supplier internal).overall ≡ on_hold
judge_inputs-held item (ok s) (ok i) (inl h) = cc
judge_inputs-held item (ok s) (ok i) (inr h) = cc
judge_inputs-held item (ok s) (err x) h = refl
judge_inputs-held item (err x) i h = refl

-- An item is on hold if any of its values, the supplier's or the internal tests', is one that
-- DecimalValue.parse refuses, whatever its rules and policies are.
pub evaluate_item-Unreadable :
    (item : ItemInput)
    → Any Unreadable (values_or item.raw_supplier_values item.supplier_values)
      ⊎ Any Unreadable (values_or item.raw_internal_values item.internal_values)
    → evaluate_item item ≡ on_hold
unfolding evaluate_item
evaluate_item-Unreadable item h = elim (Bool-cases (passes_checks item)) [
  | inr fails ↦ details-held item fails
  | inl passes ↦
      ap (λ (e : ItemEvaluation). e.overall) (details-open item passes)
      ∙ judge_inputs-held item (supplier_input item) (internal_input item) (sides h)
]
  where
    sides :
        Any Unreadable (values_or item.raw_supplier_values item.supplier_values)
          ⊎ Any Unreadable (values_or item.raw_internal_values item.internal_values)
        → (supplier_input item ≡ err caught) ⊎ (internal_input item ≡ err caught)
    sides (inl u) = inl (normalise_values-Unreadable item.supplier_unit item _ u)
    sides (inr u) = inr (normalise_values-Unreadable item.internal_unit item _ u)

-- A sample of zero with seven or more places behind the point among the supplier's values, as a
-- column NUMERIC(24,12) gives it with twelve, puts an item without raw supplier values on hold: its
-- text is 0E-12, which is no canonical decimal.
pub evaluate_item-stored_zero :
    (item : ItemInput) (s : Bool) (k : ℕ)
    → item.raw_supplier_values ≡ []
    → Any (λ v. v ≡ finite s 0 (negsuc k)) item.supplier_values
    → 6 ≤ k
    → evaluate_item item ≡ on_hold
unfolding digits
evaluate_item-stored_zero item s k e stored places =
    evaluate_item-Unreadable item (inl (rw e (unreadable item.supplier_values stored)))
  where
    far : length (digits 0) + 6 ≤ suc k
    far = omega arith

    unreadable :
        (vs : List Decimal)
        → Any (λ v. v ≡ finite s 0 (negsuc k)) vs
        → Any Unreadable (map decimal vs)
    unreadable [] h = h
    unreadable (v ∷ vs) (inl h) = inl (rw h (not_canonical, parse-exponent s 0 k far))
    unreadable (v ∷ vs) (inr h) = inr (unreadable vs h)
