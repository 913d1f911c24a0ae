-- ===== src/Services/Payload.antt =====
-- The candidate payload of an extraction, a dict that JSON gave, and the numbers that reviews enter
-- (backend/src/hyc_api/services/p3.py): what `confirm_review` and `create_inspection` share.
pub mod Items
pub mod Named
pub mod Keys
use hanyangchem_qc_v.Base.{
  Bool, true, false, not, ◌&&◌, Option, none, some, List, [], ◌∷◌, ◌++◌, any, all, length, String,
  ltb, if◌then◌else◌, ok, err, ◌>>=◌, ◌>>◌, raise_if,
}
use hanyangchem_qc_v.Base.Text.{codes, text_eq}
use hanyangchem_qc_v.PyDecimal.{Decimal}
use hanyangchem_qc_v.Decimals.{
  canonical_matches, to_decimal, span_digits, without_minus, fraction_digits,
}
use hanyangchem_qc_v.Snapshots.{
  Text, Json, Jsons, Members, string, object, array, nil, cons, end, member,
}
use hanyangchem_qc_v.Services.{Service, ServiceError}

-- `t in xs`, `len(set(xs)) == len(xs)` and `set(xs) == set(ys)`.
abbrev pub holds : List Text → Text → Bool
holds xs t = any (text_eq t) xs

abbrev pub distinct : List Text → Bool
distinct [] = true
distinct (x ∷ xs) = not (holds xs x) && distinct xs

abbrev pub same_set : List Text → List Text → Bool
same_set xs ys = all (holds ys) xs && all (holds xs) ys

-- `dict.get` and the assignment of a key, which keeps the place of one that is there.
abbrev pub get_item : Text → Members → Option Json
get_item k end = none
get_item k (member n v ms) = let later = get_item k ms in if text_eq n k then some v else later

abbrev pub set_item : Text → Json → Members → Members
set_item k v end = member k v end
set_item k v (member n w ms) =
    let rest = set_item k v ms in if text_eq n k then member n v ms else member n w rest

-- A value that is a text, a list, a dict.
abbrev pub as_text : Option Json → Option Text
as_text (some (string t)) = some t
as_text _ = none

abbrev pub json_items : Jsons → List Json
json_items nil = []
json_items (cons j js) = j ∷ json_items js

abbrev pub json_array : List Json → Jsons
json_array [] = nil
json_array (j ∷ js) = cons j (json_array js)

abbrev pub as_list : Option Json → Option (List Json)
as_list (some (array js)) = some (json_items js)
as_list _ = none

abbrev pub as_members : Option Json → Option Members
as_members (some (object ms)) = some ms
as_members _ = none

abbrev pub is_text : Option Text → Text → Bool
is_text none t = false
is_text (some s) t = text_eq s t

-- The dict of the metadata by `field_id`; an error where an entry has no such text, and another
-- where two have the same.
abbrev pub Metadata : Type 0
Metadata = List (Text × Members)

abbrev pub ids_of : Metadata → List Text
ids_of [] = []
ids_of (m ∷ ms) = m.0 ∷ ids_of ms

abbrev pub metadata_of : Text → Metadata → Option Members
metadata_of i [] = none
metadata_of i (m ∷ ms) = let later = metadata_of i ms in if text_eq m.0 i then some m.1 else later

abbrev pub entry_of : ServiceError → Json → Service (Text × Members)
entry_of invalid (object ms) = elim (as_text (get_item (codes "field_id") ms)) [
  | some i ↦ ok (i, ms)
  | none ↦ err invalid
]
entry_of invalid _ = err invalid

unfoldable pub metadata_by_id :
    ServiceError → ServiceError → List Json → Metadata → Service Metadata
metadata_by_id invalid duplicate [] seen = ok seen
metadata_by_id invalid duplicate (j ∷ js) seen = entry_of invalid j >>= λ (i, ms).
    raise_if (holds (ids_of seen) i) duplicate
    >> metadata_by_id invalid duplicate js (seen ++ (i, ms) ∷ [])

-- `_canonical_finite_decimal`: at most twelve digits on either side of the point.
unfoldable pub canonical_finite_decimal : Option String → Option Decimal
canonical_finite_decimal none = none
canonical_finite_decimal (some raw) =
    let t = codes raw in
    let (whole, rest) = span_digits (without_minus t) in
    if canonical_matches t
      && not (ltb 12 (length whole))
      && not (ltb 12 (length (fraction_digits rest)))
    then some (to_decimal t)
    else none
