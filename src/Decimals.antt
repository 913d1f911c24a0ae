-- ===== src/Decimals.antt =====
-- Exact decimal values and unit conversion (backend/src/hyc_domain/decimals.py).
pub mod Canonical
pub mod RoundTrip
use Prim.Native.String.{◌++◌ as str_append}
use hanyangchem_qc_v.Base.{
  ℕ, zero, suc, ◌+◌, ◌≤◌, ◌≡◌, Bool, true, false, not, ◌&&◌, ◌||◌, Option, none, some, List, [],
  ◌∷◌, ◌++◌, String, str_eq, length, all, is_empty, find?, is_none, ltb, leb, ◌==◌, if◌then◌else◌,
  Result, ok, err, ◌>>=◌, ◌>>◌, raise_if,
}
use hanyangchem_qc_v.Base.Int.{ℤ, pos, negsuc, sub_ℕ, leb_ℤ, pos_part}
use hanyangchem_qc_v.Base.Text.{is_blank}
use hanyangchem_qc_v.Errors.{FailureCode, invalid_decimal}
use hanyangchem_qc_v.PyDecimal.{
  Decimal, finite, is_finite, is_zero, is_signed, dec_leb, dec_zero, format_f, to_str,
}
use hanyangchem_qc_v.PyDecimal.Digits.{is_digit, digits_value}
use hanyangchem_qc_v.PyDecimal.Arithmetic.{Trapped, mul, div, quantize}

-- The messages of DecimalValidationError.
pub data DecimalError : Type 0 where
  not_text not_canonical not_finite negative_zero code_required duplicate_code : DecimalError
  bad_factor bad_scale rounding_version_required unknown_unit incompatible : DecimalError
  conversion_failed : DecimalError

abbrev pub code : DecimalError → FailureCode
code e = invalid_decimal

-- DECIMAL_PRECISION.
abbrev pub decimal_precision : ℕ
decimal_precision = 96

-- What reaches `parse`: a text (its code points), a Decimal, or a value of another type.
pub data Raw : Type 0 where
  text : List ℕ → Raw
  decimal : Decimal → Raw
  other : Raw

pub record DecimalValue : Type 0 where
  pub value : Decimal

-- The longest run of digits in front, and what follows it.
unfoldable pub span_digits : List ℕ → List ℕ × List ℕ
span_digits [] = ([], [])
span_digits (c ∷ cs) =
    let rest = span_digits cs in if is_digit c then (c ∷ rest.0, rest.1) else ([], c ∷ cs)

-- `0|[1-9][0-9]*` of a run of digits.
abbrev pub whole_matches : List ℕ → Bool
whole_matches [] = false
whole_matches (c ∷ []) = true
whole_matches (c ∷ d ∷ ds) = not (c == b'0')

-- `(?:\.[0-9]+)?`.
abbrev pub fraction_matches : List ℕ → Bool
fraction_matches [] = true
fraction_matches (c ∷ cs) = c == b'.' && not (is_empty cs) && all is_digit cs

abbrev pub has_minus : List ℕ → Bool
has_minus [] = false
has_minus (c ∷ cs) = c == b'-'

abbrev pub without_minus : List ℕ → List ℕ
without_minus [] = []
without_minus (c ∷ cs) = if c == b'-' then cs else c ∷ cs

-- `_CANONICAL.fullmatch(text)`.
unfoldable pub canonical_matches : List ℕ → Bool
unfolding span_digits
canonical_matches t =
    let (whole, rest) = span_digits (without_minus t) in
    whole_matches whole && fraction_matches rest

abbrev pub fraction_digits : List ℕ → List ℕ
fraction_digits [] = []
fraction_digits (c ∷ cs) = cs

-- `Decimal(text)` of a canonical text.
unfoldable pub to_decimal : List ℕ → Decimal
unfolding span_digits
to_decimal t =
    let (whole, rest) = span_digits (without_minus t) in
    finite (has_minus t) (digits_value (whole ++ fraction_digits rest))
      (sub_ℕ 0 (length (fraction_digits rest)))

-- From `text = str(raw)` on.
unfoldable pub parse_text : List ℕ → Result DecimalError DecimalValue
unfolding canonical_matches to_decimal
parse_text t = do
  raise_if (not (canonical_matches t)) not_canonical
  let value = to_decimal t
  raise_if (not (is_finite value)) not_finite
  raise_if (is_zero value && is_signed value) negative_zero
  ok (record { value = value })

-- DecimalValue.parse.
unfoldable pub parse : Raw → Result DecimalError DecimalValue
unfolding parse_text
parse (text t) = parse_text t
parse (decimal d) = parse_text (to_str d)
parse other = err not_text

-- DecimalValue.canonical.
unfoldable pub canonical : DecimalValue → List ℕ
canonical v = format_f v.value

pub data Dimension : Type 0 where
  mass dimension_length percent count : Dimension

abbrev pub dimension_value : Dimension → ℕ
dimension_value mass = 0
dimension_value dimension_length = 1
dimension_value percent = 2
dimension_value count = 3

-- The class `Unit` of decimals.py.
pub record MeasureUnit : Type 0 where
  pub unit_code : String
  pub dimension : Dimension
  pub factor_to_base : Decimal
  pub conversion_version : String

pub record ConvertedValue : Type 0 where
  pub pre_round : DecimalValue
  pub rounded : DecimalValue
  pub source_unit : String
  pub target_unit : String
  pub conversion_version : String
  pub rounding_version : String

-- The table of a UnitRegistry, in insertion order.
pub record UnitRegistry : Type 0 where
  pub units : List MeasureUnit

abbrev pub has_code : String → MeasureUnit → Bool
has_code c u = str_eq u.unit_code c

pub get_unit : String → List MeasureUnit → Option MeasureUnit
get_unit c us = find? (has_code c) us

-- The checks of one unit; the annotations' types are taken for granted.
pub check_unit : MeasureUnit → List MeasureUnit → Result DecimalError (Unit {0})
unfolding get_unit
check_unit u known = do
  raise_if (is_blank u.unit_code || is_blank u.conversion_version) code_required
  raise_if (not (is_none (get_unit u.unit_code known))) duplicate_code
  raise_if (not (is_finite u.factor_to_base) || dec_leb u.factor_to_base dec_zero) bad_factor

-- The loop of `__init__`.
pub register : List MeasureUnit → List MeasureUnit → Result DecimalError UnitRegistry
unfolding check_unit
register known [] = ok (record { units = known })
register known (u ∷ us) = let rest = register (known ++ u ∷ []) us in check_unit u known >> rest

unfoldable pub new_registry : List MeasureUnit → Result DecimalError UnitRegistry
unfolding register
new_registry us = register [] us

-- An arithmetic signal becomes "decimal conversion failed", as does a refused text.
abbrev pub convert_or_fail {ℓ κ} : {E : Type ℓ} {A : Type κ} → Result E A → Result DecimalError A
convert_or_fail (ok a) = ok a
convert_or_fail (err e) = err conversion_failed

-- The body of the `try`: the value in the target's unit, and the same rounded.
unfoldable pub convert_value :
    Decimal → Decimal → Decimal → ℤ → Result DecimalError (DecimalValue × DecimalValue)
convert_value v from to scale = do
  product ← convert_or_fail (mul decimal_precision v from)
  quotient ← convert_or_fail (div decimal_precision product to)
  pre_round ← convert_or_fail (parse_text (format_f quotient))
  quantized ← convert_or_fail (quantize decimal_precision scale pre_round.value)
  rounded ← convert_or_fail (parse_text (format_f quantized))
  ok (pre_round, rounded)

-- `f"{a}:{b}"`.
pub joined : String → String → String
joined a b = str_append a (str_append ":" b)

abbrev pub or_raise {ℓ κ} : {E : Type ℓ} {A : Type κ} → Option A → E → Result E A
or_raise none e = err e
or_raise (some a) e = ok a

-- UnitRegistry.convert.
unfoldable pub convert :
    UnitRegistry → DecimalValue → String → String → ℤ → String → Result DecimalError ConvertedValue
unfolding get_unit convert_value joined
convert registry value source target scale rounding_version = do
  raise_if (not (leb_ℤ (pos 0) scale && leb_ℤ scale (pos 18))) bad_scale
  raise_if (is_blank rounding_version) rounding_version_required
  source_unit ← or_raise (get_unit source registry.units) unknown_unit
  target_unit ← or_raise (get_unit target registry.units) unknown_unit
  raise_if (not (dimension_value source_unit.dimension == dimension_value target_unit.dimension))
      incompatible
  (pre_round, rounded) ←
      convert_value value.value source_unit.factor_to_base target_unit.factor_to_base scale
  ok (record {
    pre_round = pre_round;
    rounded = rounded;
    source_unit = source;
    target_unit = target;
    conversion_version = joined source_unit.conversion_version target_unit.conversion_version;
    rounding_version = rounding_version;
  })
