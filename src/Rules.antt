-- ===== src/Rules.antt =====
-- The acceptance rules of specs.py: the operators, the columns that each wants, and when a rule is
-- refused.
use hanyangchem_qc_v.Base.{
  Bool, true, false, not, ◌||◌, Option, none, some, List, [], ◌∷◌, any, String, is_none, is_some,
  is_empty, Result, ◌>>◌, raise_if,
}
use hanyangchem_qc_v.PyDecimal.{Decimal, is_finite, dec_ltb, dec_zero}

pub data Operator : Type 0 where
  gte gt lte lt between_inclusive between_exclusive target_plus_minus : Operator
  equal in_set contains manual_pass_fail : Operator

pub record Rule : Type 0 where
  pub operator : Operator
  pub lower : Option Decimal
  pub upper : Option Decimal
  pub target : Option Decimal
  pub tolerance : Option Decimal
  pub allowed : List String

-- The messages of the ValueError that `validate` raises.
pub data RuleError : Type 0 where
  not_finite bad_lower_threshold bad_threshold bad_range bad_tolerance bad_set bad_manual :
      RuleError

abbrev pub infinite_column : Option Decimal → Bool
infinite_column none = false
infinite_column (some v) = not (is_finite v)

abbrev pub columns : Rule → List (Option Decimal)
columns r = r.lower ∷ r.upper ∷ r.target ∷ r.tolerance ∷ []

-- `a is None or b is None or a > b`.
abbrev pub range_missing_or_reversed : Option Decimal → Option Decimal → Bool
range_missing_or_reversed (some a) (some b) = dec_ltb b a
range_missing_or_reversed _ _ = true

abbrev pub missing_or_negative : Option Decimal → Bool
missing_or_negative none = true
missing_or_negative (some t) = dec_ltb t dec_zero

abbrev pub has_allowed : Rule → Bool
has_allowed r = not (is_empty r.allowed)

abbrev pub lower_threshold : Rule → Bool
lower_threshold r =
    is_none r.lower || any is_some (r.upper ∷ r.target ∷ r.tolerance ∷ []) || has_allowed r

abbrev pub upper_threshold : Rule → Bool
upper_threshold r =
    is_none r.upper || any is_some (r.lower ∷ r.target ∷ r.tolerance ∷ []) || has_allowed r

abbrev pub range_columns : Rule → Bool
range_columns r =
    range_missing_or_reversed r.lower r.upper
    || is_some r.target
    || is_some r.tolerance
    || has_allowed r

abbrev pub tolerance_columns : Rule → Bool
tolerance_columns r =
    is_none r.target
    || missing_or_negative r.tolerance
    || is_some r.lower
    || is_some r.upper
    || has_allowed r

-- The columns of each operator.
unfoldable pub check_columns : Operator → Rule → Result RuleError (Unit {0})
check_columns gte r = raise_if (lower_threshold r) bad_lower_threshold
check_columns gt r = raise_if (lower_threshold r) bad_lower_threshold
check_columns equal r = raise_if (lower_threshold r) bad_lower_threshold
check_columns lte r = raise_if (upper_threshold r) bad_threshold
check_columns lt r = raise_if (upper_threshold r) bad_threshold
check_columns between_inclusive r = raise_if (range_columns r) bad_range
check_columns between_exclusive r = raise_if (range_columns r) bad_range
check_columns target_plus_minus r = raise_if (tolerance_columns r) bad_tolerance
check_columns in_set r = raise_if (not (has_allowed r) || any is_some (columns r)) bad_set
check_columns contains r = raise_if (not (has_allowed r) || any is_some (columns r)) bad_set
check_columns manual_pass_fail r = raise_if (any is_some (columns r) || has_allowed r) bad_manual

-- Rule.validate.
unfoldable pub validate : Rule → Result RuleError (Unit {0})
unfolding check_columns
validate r = raise_if (any infinite_column (columns r)) not_finite >> check_columns r.operator r
