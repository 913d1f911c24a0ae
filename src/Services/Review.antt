-- ===== src/Services/Review.antt =====
-- `confirm_review` of backend/src/hyc_api/services/p3.py: what a review is checked for, and what it
-- writes. The requests are those of backend/src/hyc_api/contracts.py.
pub mod Mapping
pub mod Writes
pub mod Links
pub mod Checked
pub mod Updates
pub mod Once
use hanyangchem_qc_v.Base.{
  ℕ, suc, Bool, true, false, not, ◌&&◌, ◌||◌, Option, none, some, List, [], ◌∷◌, ◌++◌, map, any,
  filter, find?, length, is_none, is_some, is_empty, String, str_eq, opt_eq, ltb, ◌==◌, sort_by,
  if◌then◌else◌, ok, err, ◌>>=◌, ◌>>◌, raise_if,
}
use hanyangchem_qc_v.Base.Int.{pos}
use hanyangchem_qc_v.Base.Text.{codes}
use hanyangchem_qc_v.Snapshots.{
  Text, Value, Json, Members, string, number, object, array, nil, null, str, integer,
}
use hanyangchem_qc_v.Snapshots.Dump.{text_ltb}
use hanyangchem_qc_v.Store.{
  DocumentSection, DocumentAllocationLink, ExtractionRun, ExtractionFieldReview, AuditLog, Store,
  ReceiptLotAllocation, get_row,
}
use hanyangchem_qc_v.Approval.Rows.{uuid_text, uuid, list_of, object_of}
use hanyangchem_qc_v.Services.{
  Service, run_not_found, already_confirmed, stale_review, duplicate_fields, fields_not_reviewed,
  allocation_not_found, source_identity_invalid, duplicate_source_ids, stale_source_ids,
  stale_specification, duplicate_targets, manual_without_text, logic_conflict_remains,
  result_not_numeric, allocation_conflict, mapped_without_target, database_error, missing_row,
}
use hanyangchem_qc_v.Services.Selection.{or_fail, select_spec, or_json_null, members}
use hanyangchem_qc_v.Services.Evaluation.{allocation_row}
use hanyangchem_qc_v.Services.Intake.{found_or_new}
use hanyangchem_qc_v.Services.Payload.{
  distinct, same_set, holds, get_item, set_item, as_list, json_array, Metadata, ids_of, metadata_of,
  metadata_by_id, canonical_finite_decimal,
}
use Mapping.{FieldReviewInput, check_mapping, spec_codes}
use Writes.{
  Reviewed, confirmed_fields, reviewed_entries, put_reviews, confirmed_run, put_run, review_audit,
}
use Links.{section_left, section_of, confirmed_links, links_elsewhere, new_section, with_link}

pub record ReviewRequest : Type 0 where
  pub fields : List FieldReviewInput
  pub allocation_id : ℕ
  pub spec_version_id : Option ℕ

abbrev pub run_fields : Store → ℕ → List ExtractionFieldReview
run_fields store run =
    filter (λ (f : ExtractionFieldReview). f.extraction_run_id == run) store.reviews

abbrev pub keys_of : List ExtractionFieldReview → List Text
keys_of [] = []
keys_of (f ∷ fs) = codes f.field_key ∷ keys_of fs

abbrev pub row_ids : List ExtractionFieldReview → List Text
row_ids fs = map (λ (f : ExtractionFieldReview). uuid_text f.id) fs

abbrev pub submitted_keys : List FieldReviewInput → List Text
submitted_keys [] = []
submitted_keys (i ∷ is) = codes i.field_key ∷ submitted_keys is

abbrev pub submitted_ids : List FieldReviewInput → List Text
submitted_ids [] = []
submitted_ids (i ∷ is) =
    let rest = submitted_ids is in elim i.field_id [ none ↦ rest | some n ↦ uuid_text n ∷ rest ]

-- The input of a field.
abbrev pub input_of : ReviewRequest → ExtractionFieldReview → Option FieldReviewInput
input_of q f = find? (λ (i : FieldReviewInput). str_eq i.field_key f.field_key) q.fields

abbrev pub is_local : ExtractionRun → Bool
is_local run = str_eq run.provider_name "local-paddleocr"

unfoldable pub check_mappings :
    List ExtractionFieldReview → Metadata → List Text → List FieldReviewInput → Service (List Text)
unfolding check_mapping
check_mappings fields metadata allowed [] = ok []
check_mappings fields metadata allowed (i ∷ is) =
    let rest = check_mappings fields metadata allowed is in
    do codes ← check_mapping fields metadata allowed i; others ← rest; ok (codes ++ others)

-- `payload.get("fields", [])`.
abbrev pub payload_fields : ExtractionRun → Json
payload_fields run = elim (get_item (codes "fields") run.candidate_payload) [
  | none ↦ array nil
  | some j ↦ j
]

-- The checks of a run of the local recognition: the dict of its metadata.
unfoldable pub check_local :
    Store
    → ExtractionRun
    → List ExtractionFieldReview
    → ReviewRequest
    → ReceiptLotAllocation
    → Service Metadata
unfolding metadata_by_id check_mappings
check_local store run fields q allocation = do
  entries ← or_fail (as_list (some (payload_fields run))) (err source_identity_invalid)
  metadata ← metadata_by_id source_identity_invalid duplicate_source_ids entries []
  raise_if (not (same_set (ids_of metadata) (row_ids fields))) source_identity_invalid
  let ids = submitted_ids q.fields
  raise_if (not (length ids == length q.fields) || not (distinct ids)) stale_source_ids
  raise_if (not (same_set ids (row_ids fields))) stale_source_ids
  spec ← select_spec store allocation
  raise_if (not (opt_eq q.spec_version_id (some spec.0.id))) stale_specification
  codes ← check_mappings fields metadata (spec_codes store spec.0.id) q.fields
  raise_if (not (distinct codes)) duplicate_targets
  ok metadata

-- The checks of any other run: the codes whose values are numbers.
unfoldable pub check_fixture : Store → ReviewRequest → ReceiptLotAllocation → Service (List Text)
check_fixture store q allocation = do
  spec ← select_spec store allocation
  raise_if (is_some q.spec_version_id && not (opt_eq q.spec_version_id (some spec.0.id)))
      stale_specification
  ok (spec_codes store spec.0.id)

-- The metadata of a local run, and the codes whose values are numbers in any other.
unfoldable pub check_source :
    Store
    → ExtractionRun
    → List ExtractionFieldReview
    → ReviewRequest
    → ReceiptLotAllocation
    → Service (Metadata × List Text)
unfolding check_local check_fixture
check_source store run fields q allocation =
    if is_local run
    then (check_local store run fields q allocation >>= λ metadata. ok (metadata, []))
    else (check_fixture store q allocation >>= λ numeric. ok ([], numeric))

-- The fields with their inputs.
abbrev pub with_inputs : ReviewRequest → List ExtractionFieldReview → Service (List Reviewed)
with_inputs q [] = ok []
with_inputs q (f ∷ fs) =
    let rest = with_inputs q fs in
    or_fail (input_of q f) (err missing_row) >>= λ i. rest >>= λ others. ok ((f, i) ∷ others)

abbrev lacks_text : Option String → Bool
lacks_text none = true
lacks_text (some t) = str_eq t ""

unfoldable pub check_inputs : Bool → List Text → List Reviewed → Service (Unit {0})
check_inputs is_local numeric [] = ok tt
check_inputs is_local numeric ((f, i) ∷ rest) =
    raise_if (str_eq i.source "MANUAL" && lacks_text i.manual_text) manual_without_text
    >> raise_if i.logic_conflict logic_conflict_remains
    >> raise_if
        (not is_local
          && holds numeric (codes f.field_key)
          && is_none (canonical_finite_decimal (some i.final_text)))
        result_not_numeric
    >> check_inputs is_local numeric rest

-- What a review is checked for: the run and its fields with their inputs, the allocation and the
-- metadata.
pub record Review : Type 0 where
  pub run : ExtractionRun
  pub allocation : ReceiptLotAllocation
  pub reviewed : List Reviewed
  pub metadata : Metadata

abbrev pub document_run : Store → ℕ → ℕ → Option ExtractionRun
document_run store document run =
    find? (λ (r : ExtractionRun). r.id == run && r.document_id == document) store.runs

-- The run, which waits for its review at the version that was seen.
unfoldable pub reviewable_run : Store → ℕ → ℕ → ℕ → Service ExtractionRun
reviewable_run store document run_id expected_version = do
  run ← or_fail (document_run store document run_id) (err run_not_found)
  raise_if (not (str_eq run.status "REVIEW_REQUIRED")) already_confirmed
  raise_if (not (run.lock_version == expected_version)) stale_review
  ok run

unfoldable pub check_fields : List ExtractionFieldReview → ReviewRequest → Service (Unit {0})
check_fields fields q =
    raise_if (not (distinct (keys_of fields))) duplicate_fields
    >> raise_if
        (not (distinct (submitted_keys q.fields))
          || not (same_set (keys_of fields) (submitted_keys q.fields)))
        fields_not_reviewed

unfoldable pub check_review : Store → ℕ → ℕ → ReviewRequest → ℕ → Service Review
unfolding reviewable_run check_fields check_source check_inputs
check_review store document run_id q expected_version = do
  run ← reviewable_run store document run_id expected_version
  let fields = run_fields store run.id
  check_fields fields q
  allocation ← or_fail (allocation_row store q.allocation_id) (err allocation_not_found)
  (metadata, numeric) ← check_source store run fields q allocation
  reviewed ← with_inputs q fields
  check_inputs (is_local run) numeric reviewed
  ok (record { run = run; allocation = allocation; reviewed = reviewed; metadata = metadata })

-- Another run of the document that is confirmed.
abbrev pub confirmed_beside : ExtractionRun → ExtractionRun → Bool
confirmed_beside run x =
    not (x.id == run.id) && x.document_id == run.document_id && str_eq x.status "CONFIRMED"

-- The store with the rows of a review.
abbrev pub with_review :
    Store
    → List ExtractionFieldReview
    → List DocumentSection
    → List DocumentAllocationLink
    → List ExtractionRun
    → AuditLog
    → Store
with_review store reviews sections links runs audit = record store {
  reviews = reviews;
  sections = sections;
  links = links;
  runs = runs;
  audit_logs = store.audit_logs ++ audit ∷ [];
}

-- What is written, and the run.
unfoldable pub write_review : Store → Review → ReviewRequest → ℕ → Service (Store × ExtractionRun)
unfolding confirmed_fields reviewed_entries put_reviews with_link
write_review store r q fresh = do
  let found = section_of store r.run.document_id
  let links = confirmed_links store found
  raise_if (links_elsewhere r.allocation.id links) allocation_conflict
  fields ← confirmed_fields (is_local r.run) r.reviewed
  entries ← (if is_local r.run then reviewed_entries r.metadata r.reviewed else ok [])
  reviews ←
      put_reviews (sort_by (λ (a b : ExtractionFieldReview). ltb a.id b.id) fields) store.reviews
  let (section, sections) = section_left store fresh r.run.document_id
  linked ← with_link store.links section.id r.allocation.id (not (is_empty links))
  raise_if (any (confirmed_beside r.run) store.runs) allocation_conflict
  let run = confirmed_run (is_local r.run) r.run q.spec_version_id entries r.reviewed
  ok (
    with_review store reviews sections linked (put_run run store.runs)
        (review_audit (is_local r.run) run.id r.allocation.id r.reviewed),
    run,
  )

-- `confirm_review`.
unfoldable pub confirm_review :
    Store → ℕ → ℕ → ReviewRequest → ℕ → ℕ → Service (Store × ExtractionRun)
unfolding check_review write_review
confirm_review store document run_id q expected_version fresh =
    check_review store document run_id q expected_version >>= λ r. write_review store r q fresh
