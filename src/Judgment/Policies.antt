-- ===== src/Judgment/Policies.antt =====
-- About acceptances of JudgmentEngine, under each of its policies.
use hanyangchem_qc_v.Base.{
  ◌≡◌, refl, sym, ap, ◌∙◌, ◌≢◌, ◌↔◌, ◌⊎◌, inl, inr, Bool, true, false, not, ◌&&◌, ◌||◌, Option,
  none, some, List, [], ◌∷◌, map, All, is_none, arith, &&-true, Bool-cases, some-injective,
  Result-cases, Result, ok, err, if◌then◌else◌,
}
use hanyangchem_qc_v.PyDecimal.{Decimal}
use hanyangchem_qc_v.Judgment.{
  EngineDecision, accepted, on_hold, SourcePolicy, supplier_only, internal_only,
  both_internal_priority, both_all_must_pass, supplier_reference_internal_final, MissingPolicy,
  internal_substitute, manual, ItemInput, ItemEvaluation, confirmed, combine, Caught,
}
use hanyangchem_qc_v.Judgment.Samples.{Aggregates, aggregate_all}
use hanyangchem_qc_v.Judgment.Evaluate.{
  evaluate_supplier_missing, without_supplier, chosen, apply_policies, judge, judge_inputs,
  supplier_input, internal_input, evaluate_item_details, evaluate_item, evaluate_case,
  expects_supplier, is_manual,
}

combine-cons :
    (d : Option EngineDecision) (ds : List (Option EngineDecision))
    → combine (d ∷ ds) ≡ accepted
    → (d ≡ some accepted) × (combine ds ≡ accepted)
unfolding combine
combine-cons d ds h = ground arith

combine-accepts :
    (d : Option EngineDecision) (ds : List (Option EngineDecision))
    → d ≡ some accepted
    → combine ds ≡ accepted
    → combine (d ∷ ds) ≡ accepted
unfolding combine
combine-accepts d ds e h = ground arith

combine-All :
    (is : List ItemInput)
    → combine (map (λ item. some (evaluate_item item)) is) ≡ accepted
    → All (λ item. evaluate_item item ≡ accepted) is
combine-All [] h = tt
combine-All (i ∷ is) h =
    let (d, rest) = combine-cons (some (evaluate_item i)) _ h in
    (some-injective _ _ d, combine-All is rest)

All-combine :
    (is : List ItemInput)
    → All (λ item. evaluate_item item ≡ accepted) is
    → combine (map (λ item. some (evaluate_item item)) is) ≡ accepted
unfolding combine
All-combine [] h = refl
All-combine (i ∷ is) h =
    combine-accepts (some (evaluate_item i)) (map (λ item. some (evaluate_item item)) is)
      (ap some h.0) (All-combine is h.1)

-- A case is accepted exactly when it has an item and every item is accepted.
pub evaluate_case-accepted_iff :
    (is : List ItemInput)
    → (evaluate_case is ≡ accepted) ↔ ((is ≢ []) × All (λ item. evaluate_item item ≡ accepted) is)
unfolding evaluate_case
evaluate_case-accepted_iff [] = (λ h. cc, λ (n, _). absurd (n refl))
evaluate_case-accepted_iff (i ∷ is) =
    (λ h. (λ e. cc, combine-All (i ∷ is) h), λ (_, h). All-combine (i ∷ is) h)

-- What an acceptance rests on, for each source policy: the judgment of the supplier's values and
-- that of the internal tests, both against the company's rule.
abbrev pub Backed :
    SourcePolicy → MissingPolicy → Option EngineDecision → Option EngineDecision → Type 0
Backed internal_only m hyc internal = internal ≡ some accepted
Backed supplier_reference_internal_final m hyc internal = internal ≡ some accepted
Backed both_all_must_pass m hyc internal = (hyc ≡ some accepted) × (internal ≡ some accepted)
Backed supplier_only m hyc internal =
    (hyc ≡ some accepted) ⊎ ((hyc ≡ none) × (m ≡ internal_substitute) × (internal ≡ some accepted))
Backed both_internal_priority m hyc internal =
    (internal ≡ some accepted) × ((hyc ≢ none) ⊎ (m ≡ internal_substitute))
    ⊎ ((internal ≡ none) × (hyc ≡ some accepted))

abbrev overall_of :
    SourcePolicy
    → MissingPolicy
    → Bool
    → Option EngineDecision
    → Option EngineDecision
    → EngineDecision
overall_of s m required hyc internal =
    if required && is_none internal
    then on_hold
    else if expects_supplier s && is_none hyc
    then without_supplier s m internal
    else combine (chosen s hyc internal)

overall-Backed :
    (s : SourcePolicy) (m : MissingPolicy) (required : Bool) (hyc internal : Option EngineDecision)
    → overall_of s m required hyc internal ≡ accepted
    → Backed s m hyc internal × (required ≡ true → internal ≢ none)
unfolding combine chosen evaluate_supplier_missing
overall-Backed supplier_only m required hyc internal h = ground arith
overall-Backed internal_only m required hyc internal h = ground arith
overall-Backed both_internal_priority m required hyc internal h = ground arith
overall-Backed both_all_must_pass m required hyc internal h = ground arith
overall-Backed supplier_reference_internal_final m required hyc internal h = ground arith

apply_policies-fields :
    (item : ItemInput) (a : Aggregates)
    → let e = apply_policies item a in
      (e.hyc_supplier_decision ≡ a.1.0)
      × (e.internal_decision ≡ a.2.0)
      × (e.overall
          ≡ overall_of item.source_policy item.missing_policy item.internal_required a.1.0 a.2.0)
unfolding apply_policies
apply_policies-fields item a = elim (Bool-cases (item.internal_required && is_none a.2.0)) [
  | inl c ↦ (rw c, rw c, rw c)
  | inr c ↦ elim (Bool-cases (expects_supplier item.source_policy && is_none a.1.0)) [
    | inl d ↦ (rw (c, d), rw (c, d), rw (c, d))
    | inr d ↦ (rw (c, d), rw (c, d), rw (c, d))
  ]
]

-- The evaluation of an accepted item: its mapping is confirmed and its source trusted, its values
-- were read, its samples are judged by the engine, and the decisions that its source policy asks
-- for are acceptances.
pub record Accepts (item : ItemInput) (e : ItemEvaluation) : Type 0 where
  pub mapped : item.mapped ≡ true
  pub mapping : confirmed item.mapping_status ≡ true
  pub confident : item.source_confident ≡ true
  pub supplier_read : (vs : List Decimal) × (supplier_input item ≡ ok vs)
  pub internal_read : (vs : List Decimal) × (internal_input item ≡ ok vs)
  pub sampled : item.sample_policy ≢ manual
  pub backed :
      Backed item.source_policy item.missing_policy e.hyc_supplier_decision e.internal_decision
  pub tested : item.internal_required ≡ true → e.internal_decision ≢ none

-- What `e` shows of an item that it accepts, the input's checks left out.
abbrev Judged : ItemInput → ItemEvaluation → Type 0
Judged item e =
    e.overall ≡ accepted
    → (item.sample_policy ≢ manual)
      × Backed item.source_policy item.missing_policy e.hyc_supplier_decision e.internal_decision
      × (item.internal_required ≡ true → e.internal_decision ≢ none)

apply_policies-Judged :
    (item : ItemInput) (a : Aggregates)
    → item.sample_policy ≢ manual
    → Judged item (apply_policies item a)
apply_policies-Judged item a n h =
    let (hyc, internal, overall) = apply_policies-fields item a in
    let (backed, tested) =
      overall-Backed item.source_policy item.missing_policy item.internal_required a.1.0 a.2.0
        (sym overall ∙ h) in
    (n, rw (hyc, internal) backed, λ r. rw internal (tested r))

judge-Judged :
    (item : ItemInput) (supplier internal : List Decimal)
    → Judged item (judge item supplier internal)
unfolding judge
judge-Judged item supplier internal = elim (Bool-cases (is_manual item.sample_policy)) [
  | inl m ↦ rw m (λ h. cc)
  | inr m ↦ elim (Result-cases (aggregate_all item supplier internal)) [
    | inl (a, e) ↦ rw (m, e) (apply_policies-Judged item a (λ c. cc (rw c at m)))
    | inr (x, e) ↦ rw (m, e) (λ h. cc)
  ]
]

judge_inputs-Accepts :
    (item : ItemInput) (supplier internal : Result Caught (List Decimal))
    → (judge_inputs item supplier internal).overall ≡ accepted
    → ((vs : List Decimal) × (supplier ≡ ok vs))
      × ((vs : List Decimal) × (internal ≡ ok vs))
      × Judged item (judge_inputs item supplier internal)
judge_inputs-Accepts item (ok s) (ok i) h = ((s, refl), (i, refl), judge-Judged item s i)
judge_inputs-Accepts item (ok s) (err x) h = cc
judge_inputs-Accepts item (err x) i h = cc

abbrev pub passes_checks : ItemInput → Bool
passes_checks item = item.mapped && confirmed item.mapping_status && item.source_confident

pub details-open :
    (item : ItemInput)
    → passes_checks item ≡ true
    → evaluate_item_details item ≡ judge_inputs item (supplier_input item) (internal_input item)
unfolding evaluate_item_details
details-open item h =
    checks item.mapped (confirmed item.mapping_status) item.source_confident _ _ _ h
  where
    checks :
        (a b c : Bool) (x y z : ItemEvaluation)
        → (a && b && c) ≡ true
        → (if not a || not b then x else if not c then y else z) ≡ z
    checks true true true x y z h = refl
    checks true true false x y z h = cc
    checks true false c x y z h = cc
    checks false b c x y z h = cc

-- An item that fails one of the first checks is held.
pub details-held :
    (item : ItemInput) → passes_checks item ≡ false → (evaluate_item_details item).overall ≡ on_hold
unfolding evaluate_item_details
details-held item h =
    checks item.mapped (confirmed item.mapping_status) item.source_confident _ _ _ h refl refl
  where
    checks :
        (a b c : Bool) (x y z : ItemEvaluation)
        → (a && b && c) ≡ false
        → x.overall ≡ on_hold
        → y.overall ≡ on_hold
        → (if not a || not b then x else if not c then y else z).overall ≡ on_hold
    checks true true true x y z h p q = cc
    checks true true false x y z h p q = q
    checks true false c x y z h p q = p
    checks false b c x y z h p q = p

-- An item is accepted only if its mapping is confirmed, its source trusted, all its values read,
-- its samples judged by the engine, and the decisions that its source policy rests on acceptances;
-- an internal test that is required was made.
pub evaluate_item_details-Accepts :
    (item : ItemInput)
    → (evaluate_item_details item).overall ≡ accepted
    → Accepts item (evaluate_item_details item)
evaluate_item_details-Accepts item h = elim (Bool-cases (passes_checks item)) [
  | inr fails ↦ absurd (cc (details-held item fails))
  | inl passes ↦
      let e = details-open item passes in
      let (supplier, internal, judged) =
        judge_inputs-Accepts item (supplier_input item) (internal_input item) (rw e at h) in
      let (sampled, backed, tested) = judged (rw e at h) in
      let (rest, c) =
        &&-true (item.mapped && confirmed item.mapping_status) item.source_confident passes in
      let (m, k) = &&-true item.mapped (confirmed item.mapping_status) rest in
      record {
        mapped = m;
        mapping = k;
        confident = c;
        supplier_read = supplier;
        internal_read = internal;
        sampled = sampled;
        backed = rw e backed;
        tested = rw e tested;
      }
]
