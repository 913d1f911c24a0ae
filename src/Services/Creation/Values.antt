-- ===== src/Services/Creation/Values.antt =====
-- The values that `create_inspection` (backend/src/hyc_api/services/p3.py) takes from the confirmed
-- fields of an extraction.
use hanyangchem_qc_v.Base.{
  ℕ, ◌-◌, Bool, true, false, not, ◌&&◌, ◌||◌, Option, none, some, List, [], ◌∷◌, ◌++◌, length, ◌==◌,
  if◌then◌else◌, ok, err, ◌>>=◌, ◌>>◌, raise_if,
}
use hanyangchem_qc_v.Base.Int.{pos}
use hanyangchem_qc_v.Base.Text.{codes, text_eq}
use hanyangchem_qc_v.PyDecimal.{Decimal}
use hanyangchem_qc_v.Snapshots.{Text, Json, Members, null, boolean, string, number}
use hanyangchem_qc_v.Store.{ExtractionRun, ExtractionFieldReview}
use hanyangchem_qc_v.Approval.Rows.{uuid_text}
use hanyangchem_qc_v.Services.{
  Service, missing_row, mapping_spec_mismatch, mapping_identity_invalid, duplicate_mapping_identity,
  unmapped_invalid, mapping_outside_spec, result_not_canonical, duplicate_result,
  mapping_summary_invalid,
}
use hanyangchem_qc_v.Services.Selection.{or_fail}
use hanyangchem_qc_v.Services.Payload.{
  holds, distinct, same_set, get_item, as_text, as_list, as_members, is_text, Metadata, ids_of,
  metadata_of, metadata_by_id, canonical_finite_decimal,
}
use hanyangchem_qc_v.Services.Review.{row_ids, is_local}
use hanyangchem_qc_v.Services.Review.Writes.{sorted_codes}

-- The values by the code of their item.
abbrev pub ItemValues : Type 0
ItemValues = List (Text × Decimal)

abbrev pub codes_in : ItemValues → List Text
codes_in [] = []
codes_in (v ∷ vs) = v.0 ∷ codes_in vs

abbrev pub value_of : ItemValues → Text → Option Decimal
value_of [] t = none
value_of (v ∷ vs) t = let later = value_of vs t in if text_eq v.0 t then some v.1 else later

abbrev pub is_null : Option Json → Bool
is_null none = true
is_null (some null) = true
is_null _ = false

-- A field that is mapped to nothing.
abbrev pub unmapped_values : ExtractionFieldReview → Text → Option Json → Service ItemValues
unmapped_values f source target =
    raise_if (not (is_null target) || not (text_eq (codes f.field_key) source)) unmapped_invalid
    >> ok []

-- A field that is mapped to one of the codes.
abbrev pub mapped_value : List Text → ExtractionFieldReview → Option Text → Service ItemValues
mapped_value allowed f none = err mapping_outside_spec
mapped_value allowed f (some target) =
    raise_if (not (holds allowed target) || not (text_eq (codes f.field_key) target))
      mapping_outside_spec
    >> or_fail (canonical_finite_decimal f.final_text) (err result_not_canonical)
    >>= λ v. ok ((target, v) ∷ [])

-- The value of a field, if it is mapped, by what its metadata says.
abbrev pub item_values :
    List Text → ExtractionFieldReview → Option Text → Option Text → Option Json → Service ItemValues
item_values allowed f none disposition target = err mapping_identity_invalid
item_values allowed f (some source) disposition target =
    if is_text disposition (codes "UNMAPPED")
    then unmapped_values f source target
    else (raise_if (not (is_text disposition (codes "MAP"))) mapping_outside_spec
        >> mapped_value allowed f (as_text target))

unfoldable pub field_values : List Text → Members → ExtractionFieldReview → Service ItemValues
field_values allowed ms f =
    item_values allowed f (as_text (get_item (codes "source_field_key") ms))
      (as_text (get_item (codes "mapping_disposition") ms)) (get_item (codes "mapped_field_key") ms)

unfoldable pub all_values : List Text → Metadata → List ExtractionFieldReview → Service ItemValues
unfolding field_values
all_values allowed metadata [] = ok []
all_values allowed metadata (f ∷ fs) =
    let rest = all_values allowed metadata fs in
    or_fail (metadata_of (uuid_text f.id) metadata) (err missing_row) >>= λ ms.
    field_values allowed ms f >>= λ values. rest >>= λ others. ok (values ++ others)

-- `value == n`, where a truth value is a number.
abbrev pub is_count : Option Json → ℕ → Bool
is_count (some (number (pos k))) n = k == n
is_count (some (boolean true)) n = n == 1
is_count (some (boolean false)) n = n == 0
is_count _ n = false

abbrev pub are_texts : List Json → List Text → Bool
are_texts [] [] = true
are_texts (string s ∷ js) (t ∷ ts) = text_eq s t && are_texts js ts
are_texts _ _ = false

abbrev pub lists_texts : Option (List Json) → List Text → Bool
lists_texts none ts = false
lists_texts (some js) ts = are_texts js ts

-- The summary that the review has left.
unfoldable pub check_summary : Members → List ExtractionFieldReview → List Text → Service (Unit {0})
check_summary summary fields targets =
    raise_if
      (not (is_count (get_item (codes "mapped_count") summary) (length targets))
        || not
            (is_count (get_item (codes "unmapped_count") summary) (length fields - length targets))
        || not (
            lists_texts (as_list (get_item (codes "target_codes") summary)) (sorted_codes targets)))
      mapping_summary_invalid

-- The values of a run of the local recognition, by the summary and the entries of its payload.
unfoldable pub payload_values :
    Option Json → Option Json → ℕ → List Text → List ExtractionFieldReview → Service ItemValues
unfolding all_values check_summary metadata_by_id
payload_values review listed version allowed fields = do
  summary ← or_fail (as_members review) (err mapping_spec_mismatch)
  raise_if
      (not (is_text (as_text (get_item (codes "spec_version_id") summary)) (uuid_text version)))
      mapping_spec_mismatch
  entries ← or_fail (as_list listed) (err mapping_spec_mismatch)
  metadata ← metadata_by_id mapping_identity_invalid duplicate_mapping_identity entries []
  raise_if (not (same_set (ids_of metadata) (row_ids fields))) mapping_identity_invalid
  values ← all_values allowed metadata fields
  raise_if (not (distinct (codes_in values))) duplicate_result
  check_summary summary fields (codes_in values)
  ok values

unfoldable pub local_values :
    Members → ℕ → List Text → List ExtractionFieldReview → Service ItemValues
unfolding payload_values
local_values payload =
    payload_values (get_item (codes "review") payload) (get_item (codes "fields") payload)

-- The values of any other run, behind those that were read.
unfoldable pub fixture_values :
    List Text → List ExtractionFieldReview → ItemValues → Service ItemValues
fixture_values allowed [] seen = ok seen
fixture_values allowed (f ∷ fs) seen =
    let skipped = fixture_values allowed fs seen in
    let taken =
      raise_if (holds (codes_in seen) (codes f.field_key)) duplicate_result
      >> or_fail (canonical_finite_decimal f.final_text) (err result_not_canonical)
      >>= λ v. fixture_values allowed fs (seen ++ (codes f.field_key, v) ∷ []) in
    if holds allowed (codes f.field_key) then taken else skipped

unfoldable pub reviewed_values :
    ExtractionRun → ℕ → List Text → List ExtractionFieldReview → Service ItemValues
unfolding local_values fixture_values
reviewed_values run version allowed fields =
    if is_local run
    then local_values run.candidate_payload version allowed fields
    else fixture_values allowed fields []
