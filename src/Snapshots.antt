-- ===== src/Snapshots.antt =====
-- Canonical values of snapshots (backend/src/hyc_domain/snapshots.py): what a payload holds, and
-- its normal form. A text is its code points. JSON texts are in Dump
-- and Load, the snapshots in Freeze.
pub mod Dump
pub mod Load
pub mod Freeze
pub mod KeyOrder
use hanyangchem_qc_v.Base.{
  ℕ, suc, ◌+◌, ◌≡◌, Bool, true, false, not, ◌&&◌, ◌||◌, Option, none, some, List, [], ◌∷◌, ◌++◌,
  String, is_empty, ltb, leb, ◌==◌, if◌then◌else◌, Result, ok, err, ◌>>=◌, ◌>>◌, raise_if,
}
use hanyangchem_qc_v.Base.Int.{ℤ}
use hanyangchem_qc_v.Base.Text.{codes, is_space}
use hanyangchem_qc_v.Errors.{FailureCode, invalid_snapshot}
use hanyangchem_qc_v.PyDecimal.{Decimal, is_finite, format_f}
use hanyangchem_qc_v.PyDecimal.Digits.{fixed_digits}

abbrev pub Text : Type 0
Text = List ℕ

-- A `date` holds its parts; so does a `datetime`, with those of its clock. An aware one is given
-- by its parts in UTC, as `astimezone(UTC)` gives them.
pub record Day : Type 0 where
  pub year : ℕ
  pub month : ℕ
  pub day : ℕ

pub record Clock : Type 0 where
  pub day : Day
  pub hour : ℕ
  pub minute : ℕ
  pub second : ℕ
  pub microsecond : ℕ

-- A key of a dict: a string, or a value of another type.
pub data Key : Type 0 where
  name : Text → Key
  other_key : Key

-- The values that reach `_normalise`, told apart as its tests do. `foreign` is any other type.
mutual
  pub data Value : Type 0 where
    null : Value
    boolean : Bool → Value
    str : Text → Value
    integer : ℤ → Value
    float : Value
    decimal : Decimal → Value
    aware : Clock → Value
    naive : Clock → Value
    date : Day → Value
    dict : Fields → Value
    array : Items → Value
    tuple : Items → Value
    foreign : Value

  pub data Items : Type 0 where
    nil : Items
    cons : Value → Items → Items

  pub data Fields : Type 0 where
    end : Fields
    field : Key → Value → Fields → Fields

-- The messages of CanonicalizationError; `not_json` is the error of `json.loads`.
pub data CanonicalizationError : Type 0 where
  float_value infinite_decimal naive_datetime key_not_text unsupported : CanonicalizationError
  not_mapping incomplete empty_values not_candidate : CanonicalizationError
  not_json not_object hash_mismatch not_canonical : CanonicalizationError

abbrev pub code : CanonicalizationError → FailureCode
code e = invalid_snapshot

abbrev pub Canonical {ℓ} : Type ℓ → Type ℓ
Canonical A = Result CanonicalizationError A

-- `date.isoformat()` and, in UTC with Z for the offset, `datetime.isoformat()`.
unfoldable pub iso_date : Day → Text
iso_date d = fixed_digits 4 d.year ++ b'-' ∷ (fixed_digits 2 d.month ++ b'-' ∷ fixed_digits 2 d.day)

unfoldable pub iso_datetime : Clock → Text
unfolding iso_date
iso_datetime c =
    iso_date c.day
    ++ b'T'
      ∷ (fixed_digits 2 c.hour
          ++ b':'
            ∷ (fixed_digits 2 c.minute
                ++ b':'
                  ∷ (fixed_digits 2 c.second
                      ++ ((if c.microsecond == 0 then [] else b'.' ∷ fixed_digits 6 c.microsecond)
                          ++ b'Z' ∷ []))))

abbrev pub keys_are_text : Fields → Bool
keys_are_text Fields.end = true
keys_are_text (field (name k) v fs) = keys_are_text fs
keys_are_text (field other_key v fs) = false

-- What `_normalise` returns and `json.loads` gives back.
mutual
  pub data Json : Type 0 where
    null : Json
    boolean : Bool → Json
    string : Text → Json
    number : ℤ → Json
    object : Members → Json
    array : Jsons → Json

  pub data Jsons : Type 0 where
    nil : Jsons
    cons : Json → Jsons → Jsons

  pub data Members : Type 0 where
    end : Members
    member : Text → Json → Members → Members

abbrev pub text_key : Key → Canonical Text
text_key (name k) = ok k
text_key other_key = err key_not_text

-- `_normalise`.
unfoldable mutual
  pub normalise : Value → Canonical Json
  normalise Value.null = ok Json.null
  normalise (Value.boolean b) = ok (Json.boolean b)
  normalise (str s) = ok (string s)
  normalise (integer n) = ok (number n)
  normalise float = err float_value
  normalise (decimal d) = raise_if (not (is_finite d)) infinite_decimal >> ok (string (format_f d))
  normalise (aware c) = ok (string (iso_datetime c))
  normalise (naive c) = err naive_datetime
  normalise (date d) = ok (string (iso_date d))
  normalise (dict fs) =
      let rest = normalise_fields fs in
      do raise_if (not (keys_are_text fs)) key_not_text; ms ← rest; ok (object ms)
  normalise (Value.array vs) = do js ← normalise_items vs; ok (Json.array js)
  normalise (tuple vs) = do js ← normalise_items vs; ok (Json.array js)
  normalise foreign = err unsupported

  pub normalise_items : Items → Canonical Jsons
  normalise_items Items.nil = ok Jsons.nil
  normalise_items (Items.cons v vs) = do
    j ← normalise v
    js ← normalise_items vs
    ok (Jsons.cons j js)

  pub normalise_fields : Fields → Canonical Members
  normalise_fields Fields.end = ok Members.end
  normalise_fields (field k v fs) = do
    j ← normalise v
    ms ← normalise_fields fs
    t ← text_key k
    ok (member t j ms)
