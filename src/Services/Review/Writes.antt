-- ===== src/Services/Review/Writes.antt =====
-- What `confirm_review` (backend/src/hyc_api/services/p3.py) writes into the fields and the run of a
-- review.
use hanyangchem_qc_v.Base.{
  ℕ, suc, Bool, true, false, not, ◌&&◌, Option, none, some, List, [], ◌∷◌, any, map, length, String,
  str_eq, ◌==◌, sort_by, if◌then◌else◌, ok, err, ◌>>=◌, ◌>>◌, raise_if,
}
use hanyangchem_qc_v.Base.Int.{pos}
use hanyangchem_qc_v.Base.Text.{codes}
use hanyangchem_qc_v.Snapshots.{
  Text, Value, Json, Members, string, number, object, array, str, integer, nil,
}
use hanyangchem_qc_v.Snapshots.Dump.{text_ltb}
use hanyangchem_qc_v.Store.{ExtractionRun, ExtractionFieldReview, AuditLog}
use hanyangchem_qc_v.Approval.Rows.{uuid_text, uuid, list_of, object_of}
use hanyangchem_qc_v.Services.{Service, mapped_without_target, database_error, missing_row}
use hanyangchem_qc_v.Services.Selection.{or_fail, or_json_null, str_uuid, members}
use hanyangchem_qc_v.Services.Payload.{set_item, json_array, Metadata, metadata_of}
use hanyangchem_qc_v.Services.Review.Mapping.{
  FieldReviewInput, Disposition, mapped, disposition_json,
}

-- A field with what was submitted for it.
abbrev pub Reviewed : Type 0
Reviewed = ExtractionFieldReview × FieldReviewInput

abbrev pub is_mapped : Option Disposition → Bool
is_mapped (some mapped) = true
is_mapped _ = false

abbrev pub new_key : Bool → Reviewed → Service String
new_key is_local (f, i) =
    if is_local && is_mapped i.mapping_disposition
    then or_fail i.mapped_field_key (err mapped_without_target)
    else ok f.field_key

abbrev pub confirmed_field : String → Reviewed → ExtractionFieldReview
confirmed_field key (f, i) = record f {
  field_key = key;
  manual_text = i.manual_text;
  final_text = some i.final_text;
  source = some i.source;
  reason = some i.reason;
  logic_conflict = false;
  status = "CONFIRMED";
}

unfoldable pub confirmed_fields : Bool → List Reviewed → Service (List ExtractionFieldReview)
confirmed_fields is_local [] = ok []
confirmed_fields is_local (r ∷ rs) =
    let rest = confirmed_fields is_local rs in
    new_key is_local r >>= λ key. rest >>= λ others. ok (confirmed_field key r ∷ others)

-- The metadata of a field with its mapping.
abbrev pub reviewed_entry : Members → FieldReviewInput → Members
reviewed_entry ms i =
    set_item (codes "mapped_field_key") (or_json_null (λ t. string (codes t)) i.mapped_field_key)
      (set_item (codes "mapping_disposition") (disposition_json i.mapping_disposition) ms)

unfoldable pub reviewed_entries : Metadata → List Reviewed → Service (List Json)
reviewed_entries metadata [] = ok []
reviewed_entries metadata ((f, i) ∷ rs) =
    let rest = reviewed_entries metadata rs in
    or_fail (metadata_of (uuid_text f.id) metadata) (err missing_row) >>= λ ms.
    rest >>= λ others. ok (object (reviewed_entry ms i) ∷ others)

-- The rows are updated in turn, and none may take the key of another of its run.
abbrev pub put_review :
    ExtractionFieldReview → List ExtractionFieldReview → List ExtractionFieldReview
put_review new [] = []
put_review new (r ∷ rs) =
    let rest = put_review new rs in if r.id == new.id then new ∷ rest else r ∷ rest

abbrev pub takes_key : ExtractionFieldReview → ExtractionFieldReview → Bool
takes_key new r =
    not (r.id == new.id)
    && r.extraction_run_id == new.extraction_run_id
    && str_eq r.field_key new.field_key

unfoldable pub put_reviews :
    List ExtractionFieldReview → List ExtractionFieldReview → Service (List ExtractionFieldReview)
put_reviews [] rows = ok rows
put_reviews (r ∷ rs) rows =
    raise_if (any (takes_key r) rows) database_error >> put_reviews rs (put_review r rows)

-- The targets and the number of the fields that have none, in a local run.
abbrev pub mapped_codes : Bool → List Reviewed → List Text
mapped_codes is_local [] = []
mapped_codes is_local ((f, i) ∷ rs) =
    let rest = mapped_codes is_local rs in
    if is_local && is_mapped i.mapping_disposition
    then elim i.mapped_field_key [ none ↦ rest | some t ↦ codes t ∷ rest ]
    else rest

abbrev pub unmapped_count : Bool → List Reviewed → ℕ
unmapped_count is_local [] = 0
unmapped_count is_local ((f, i) ∷ rs) =
    let rest = unmapped_count is_local rs in
    if is_local && not (is_mapped i.mapping_disposition) then suc rest else rest

abbrev pub sorted_codes : List Text → List Text
sorted_codes = sort_by text_ltb

abbrev pub json_texts : List Text → List Json
json_texts [] = []
json_texts (t ∷ ts) = string t ∷ json_texts ts

-- `payload | {"fields": ..., "review": ...}`.
abbrev pub reviewed_payload : Members → Option ℕ → List Json → List Reviewed → Members
reviewed_payload payload spec entries rs =
    let targets = mapped_codes true rs in
    set_item (codes "review")
      (object (
        members (
          ("spec_version_id", str_uuid spec)
          ∷ ("mapped_count", number (pos (length targets)))
          ∷ ("unmapped_count", number (pos (unmapped_count true rs)))
          ∷ ("target_codes", array (json_array (json_texts (sorted_codes targets))))
          ∷ [])))
      (set_item (codes "fields") (array (json_array entries)) payload)

unfoldable pub confirmed_run :
    Bool → ExtractionRun → Option ℕ → List Json → List Reviewed → ExtractionRun
confirmed_run is_local run spec entries rs = record run {
  status = "CONFIRMED";
  lock_version = suc run.lock_version;
  conflicts = nil;
  candidate_payload =
      if is_local
      then reviewed_payload run.candidate_payload spec entries rs
      else run.candidate_payload;
}

abbrev pub put_run : ExtractionRun → List ExtractionRun → List ExtractionRun
put_run new [] = []
put_run new (r ∷ rs) = let rest = put_run new rs in if r.id == new.id then new ∷ rest else r ∷ rest

abbrev text_values : List Text → List Value
text_values ts = map str ts

abbrev pub review_audit : Bool → ℕ → ℕ → List Reviewed → AuditLog
review_audit is_local run allocation rs =
    let targets = mapped_codes is_local rs in
    record {
      entity_type = "extraction_run";
      entity_id = run;
      action = "P3_EXTRACTION_REVIEW_CONFIRMED";
      payload = object_of (
          ("allocation_id", uuid allocation)
          ∷ ("field_count", integer (pos (length rs)))
          ∷ ("mapped_count", integer (pos (length targets)))
          ∷ ("unmapped_count", integer (pos (unmapped_count is_local rs)))
          ∷ ("target_codes", list_of (text_values (sorted_codes targets)))
          ∷ []);
      reason = none;
    }
