-- ===== src/Judgment.antt =====
-- The judgment engine (backend/src/hyc_domain/judgment.py): mapping, parsing, units, samples,
-- decisions and policies, in that order.
pub mod Samples
pub mod Evaluate
pub mod Policies
pub mod SupplierRule
pub mod Extremes
pub mod Refusals
use hanyangchem_qc_v.Base.{
  ℕ, suc, ◌≡◌, Bool, true, false, not, ◌&&◌, ◌||◌, Option, none, some, List, [], ◌∷◌, ◌++◌, map,
  any, String, length, is_empty, is_none, is_some, if◌then◌else◌, Result, ok, err, ◌>>=◌, ◌>>◌,
  raise_if,
}
use hanyangchem_qc_v.Base.Int.{pos, ℤ}
use hanyangchem_qc_v.Errors.{FailureCode, unmapped_result, invalid_rule}
use hanyangchem_qc_v.PyDecimal.{Decimal, finite, dec_leb, dec_ltb, dec_eq, dec_zero}
use hanyangchem_qc_v.PyDecimal.Arithmetic.{add, sub, div, abs, quantize}
use hanyangchem_qc_v.Decimals.{
  Raw, decimal, UnitRegistry, DecimalValue, parse, convert, decimal_precision,
}
use hanyangchem_qc_v.Rules.{
  Operator, gte, gt, lte, lt, between_inclusive, between_exclusive, target_plus_minus, equal, Rule,
  validate,
}

pub data EngineDecision : Type 0 where
  accepted rejected on_hold : EngineDecision

pub data MappingStatus : Type 0 where
  unmapped alias_matched manual_confirmed : MappingStatus

abbrev pub confirmed : MappingStatus → Bool
confirmed unmapped = false
confirmed _ = true

pub data SourcePolicy : Type 0 where
  supplier_only internal_only both_internal_priority both_all_must_pass : SourcePolicy
  supplier_reference_internal_final : SourcePolicy

pub data MissingPolicy : Type 0 where
  request_supplement internal_substitute special_acceptance hold reject : MissingPolicy

pub data SamplePolicy : Type 0 where
  all_samples_in_spec average_in_spec worst_case_in_spec min_in_spec max_in_spec manual :
      SamplePolicy

-- The members of `source` and of the stages.
pub data Source : Type 0 where
  supplier_spec supplier_result_hyc_spec internal_result_hyc_spec : Source

pub data Stage : Type 0 where
  mapping parse_type unit_stage sample supplier_hyc_internal_decisions : Stage
  source_policy_stage missing_policy_stage overall_stage : Stage

pub record ItemInput : Type 0 where
  pub rule : Rule
  pub source_policy : SourcePolicy
  pub missing_policy : MissingPolicy
  pub sample_policy : SamplePolicy
  pub supplier_values : List Decimal
  pub internal_values : List Decimal
  pub supplier_rule : Option Rule
  pub mapping_status : MappingStatus
  pub mapped : Bool
  pub source_confident : Bool
  pub internal_required : Bool
  pub raw_supplier_values : List Raw
  pub raw_internal_values : List Raw
  pub supplier_unit : Option String
  pub internal_unit : Option String
  pub target_unit : Option String
  pub unit_registry : Option UnitRegistry
  pub rounding_scale : ℤ
  pub rounding_version : String

pub record SampleAggregation : Type 0 where
  pub source : Source
  pub policy : SamplePolicy
  pub pre_round : Option Decimal
  pub result : Option Decimal
  pub rounding_scale : ℤ
  pub rounding_version : String

pub record ItemEvaluation : Type 0 where
  pub supplier_decision : Option EngineDecision
  pub hyc_supplier_decision : Option EngineDecision
  pub internal_decision : Option EngineDecision
  pub overall : EngineDecision
  pub completed_stages : List Stage
  pub aggregations : List SampleAggregation
  pub failure_codes : List FailureCode

-- The errors that `evaluate_item_details` catches: ValueError, DecimalValidationError and
-- ArithmeticError are one, since they are handled alike.
pub data Caught : Type 0 where
  caught : Caught

abbrev pub Attempt {ℓ} : Type ℓ → Type ℓ
Attempt A = Result Caught A

abbrev pub try {ℓ κ} : {E : Type ℓ} {A : Type κ} → Result E A → Attempt A
try (ok a) = ok a
try (err e) = err caught

abbrev pub decide : Bool → EngineDecision
decide true = accepted
decide false = rejected

-- The precision of the context in force outside the engine's own: Python's default.
abbrev pub ambient_precision : ℕ
ambient_precision = 28

-- A comparison with a bound; a missing bound is a TypeError in Python, which `validate` rules out.
abbrev pub against : (Decimal → Bool) → Option Decimal → Attempt EngineDecision
against test none = err caught
against test (some bound) = ok (decide (test bound))

abbrev pub between :
    (Decimal → Decimal → Bool) → Option Decimal → Option Decimal → Attempt EngineDecision
between test (some a) (some b) = ok (decide (test a b))
between test _ _ = err caught

-- `abs(value - rule.target) <= rule.tolerance`.
unfoldable pub within_tolerance : Decimal → Option Decimal → Option Decimal → Attempt EngineDecision
within_tolerance v (some t) (some tol) = do
  difference ← try (sub ambient_precision v t)
  distance ← try (abs ambient_precision difference)
  ok (decide (dec_leb distance tol))
within_tolerance v _ _ = err caught

-- The ladder of `_evaluate_rule` behind `rule.validate()`.
unfoldable pub apply_rule : Operator → Rule → Decimal → Attempt EngineDecision
unfolding within_tolerance
apply_rule gte r v = against (λ b. dec_leb b v) r.lower
apply_rule gt r v = against (λ b. dec_ltb b v) r.lower
apply_rule lte r v = against (λ b. dec_leb v b) r.upper
apply_rule lt r v = against (λ b. dec_ltb v b) r.upper
apply_rule between_inclusive r v = between (λ a b. dec_leb a v && dec_leb v b) r.lower r.upper
apply_rule between_exclusive r v = between (λ a b. dec_ltb a v && dec_ltb v b) r.lower r.upper
apply_rule target_plus_minus r v = within_tolerance v r.target r.tolerance
apply_rule equal r v = against (λ b. dec_eq v b) r.lower
apply_rule _ r v = ok on_hold

unfoldable pub evaluate_rule : Rule → Decimal → Attempt EngineDecision
unfolding apply_rule
evaluate_rule r v = try (validate r) >> apply_rule r.operator r v

abbrev pub undecided : Option EngineDecision → Bool
undecided none = true
undecided (some on_hold) = true
undecided (some _) = false

abbrev pub is_rejected : Option EngineDecision → Bool
is_rejected (some rejected) = true
is_rejected _ = false

-- `_combine`: a missing or held decision holds the whole, then a rejection rejects it.
unfoldable pub combine : List (Option EngineDecision) → EngineDecision
combine ds = if any undecided ds then on_hold else if any is_rejected ds then rejected else accepted
