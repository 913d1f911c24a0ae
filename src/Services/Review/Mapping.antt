-- ===== src/Services/Review/Mapping.antt =====
-- How `confirm_review` (backend/src/hyc_api/services/p3.py) checks what a field is mapped to.
use hanyangchem_qc_v.Base.{
  ℕ, Bool, not, Option, none, some, List, [], ◌∷◌, filter, is_none, String, ◌==◌, ok, err, ◌>>=◌,
  ◌>>◌, raise_if,
}
use hanyangchem_qc_v.Base.Text.{codes}
use hanyangchem_qc_v.Snapshots.{Text, Json, null, string}
use hanyangchem_qc_v.Store.{SpecItem, ExtractionFieldReview, Store, get_row}
use hanyangchem_qc_v.Approval.Rows.{uuid_text}
use hanyangchem_qc_v.Services.{
  Service, stale_source_ids, disposition_required, unmapped_with_target, target_outside_spec,
  mapped_not_canonical, missing_row,
}
use hanyangchem_qc_v.Services.Selection.{or_fail}
use hanyangchem_qc_v.Services.Judging.{standard_row}
use hanyangchem_qc_v.Services.Payload.{
  holds, get_item, as_text, is_text, Metadata, metadata_of, canonical_finite_decimal,
}

-- "MAP" and "UNMAPPED".
pub data Disposition : Type 0 where
  mapped unmapped : Disposition

abbrev pub disposition_text : Disposition → Text
disposition_text mapped = codes "MAP"
disposition_text unmapped = codes "UNMAPPED"

abbrev pub disposition_json : Option Disposition → Json
disposition_json none = null
disposition_json (some d) = string (disposition_text d)

pub record FieldReviewInput : Type 0 where
  pub field_id : Option ℕ
  pub field_key : String
  pub manual_text : Option String
  pub final_text : String
  pub source : String
  pub reason : String
  pub logic_conflict : Bool
  pub mapping_disposition : Option Disposition
  pub mapped_field_key : Option String

-- The codes of the standard items of a version.
abbrev pub codes_of : Store → List SpecItem → List Text
codes_of store [] = []
codes_of store (i ∷ is) =
    let rest = codes_of store is in
    elim (standard_row store i.standard_test_item_id) [ none ↦ rest | some s ↦ codes s.code ∷ rest ]

abbrev pub spec_rows : Store → ℕ → List SpecItem
spec_rows store version = filter (λ (i : SpecItem). i.spec_version_id == version) store.items

abbrev pub spec_codes : Store → ℕ → List Text
spec_codes store version = codes_of store (spec_rows store version)

-- The target of a field, if it has one.
unfoldable pub mapped_code :
    List Text → Option Disposition → Option String → String → Service (List Text)
mapped_code allowed none target final = err disposition_required
mapped_code allowed (some unmapped) (some t) final = err unmapped_with_target
mapped_code allowed (some unmapped) none final = ok []
mapped_code allowed (some mapped) none final = err target_outside_spec
mapped_code allowed (some mapped) (some t) final = do
  raise_if (not (holds allowed (codes t))) target_outside_spec
  raise_if (is_none (canonical_finite_decimal (some final))) mapped_not_canonical
  ok (codes t ∷ [])

unfoldable pub check_mapping :
    List ExtractionFieldReview → Metadata → List Text → FieldReviewInput → Service (List Text)
unfolding mapped_code
check_mapping fields metadata allowed item = do
  i ← or_fail item.field_id (err stale_source_ids)
  field ← or_fail (get_row (λ (f : ExtractionFieldReview). f.id) i fields) (err stale_source_ids)
  source ← or_fail (metadata_of (uuid_text field.id) metadata) (err missing_row)
  raise_if
      (not (is_text (as_text (get_item (codes "source_field_key") source)) (codes item.field_key)))
      stale_source_ids
  mapped_code allowed item.mapping_disposition item.mapped_field_key item.final_text
