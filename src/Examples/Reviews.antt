-- ===== src/Examples/Reviews.antt =====
-- A review of a document that the local recognition has read, and the inspection on its allocation.
-- The digest of a text is its length.
use hanyangchem_qc_v.Base.{
  ℕ, ◌+◌, String, Option, ◌≡◌, refl, true, false, none, some, [], ◌∷◌, is_ok, is_ok_value, All, ok,
  err, sort_by, insert_by,
}
use hanyangchem_qc_v.Base.Int.{negsuc}
use hanyangchem_qc_v.Base.Text.{codes}
use hanyangchem_qc_v.PyDecimal.{format_f, finite}
use hanyangchem_qc_v.PyDecimal.Digits.{digits, digits_value, fixed_digits}
use hanyangchem_qc_v.Decimals.{canonical_matches, to_decimal, span_digits}
use hanyangchem_qc_v.Snapshots.{
  Members, member, end, string, object, array, nil, cons, normalise, iso_date,
}
use hanyangchem_qc_v.Snapshots.Dump.{
  dumps, sort_entries, insert_entry, text_ltb, comma_joined, quoted, escape_all,
}
use hanyangchem_qc_v.Snapshots.Freeze.{canonical_json, canonical_hash}
use hanyangchem_qc_v.Store.{ExtractionRun, ExtractionFieldReview, Store}
use hanyangchem_qc_v.Approval.{Candidate, is_effective, joined_specs}
use hanyangchem_qc_v.Approval.Rows.{uuid_text, hex_from}
use hanyangchem_qc_v.Services.{ServiceError, Principal}
use hanyangchem_qc_v.Services.Requests.{
  reserve_idempotency, replay_idempotency_if_present, digest_of,
}
use hanyangchem_qc_v.Services.Selection.{select_spec, spec_snapshot}
use hanyangchem_qc_v.Services.Payload.{metadata_by_id, canonical_finite_decimal}
use hanyangchem_qc_v.Store.Numeric.{fits}
use hanyangchem_qc_v.Services.Review.{
  Review, is_local, row_ids, run_fields, ReviewRequest, check_review, write_review, confirm_review,
}
use hanyangchem_qc_v.Services.Review.Mapping.{FieldReviewInput, Disposition, mapped, unmapped}
use hanyangchem_qc_v.Services.Review.Writes.{confirmed_run}
use hanyangchem_qc_v.Services.Review.Mapping.{spec_rows}
use hanyangchem_qc_v.Services.Payload.{distinct}
use hanyangchem_qc_v.Services.Creation.Rows.{standards_of}
use hanyangchem_qc_v.Services.Creation.Reading.{reading}
use hanyangchem_qc_v.Services.Creation.Agreement.{NamesSource}
use hanyangchem_qc_v.Services.Creation.Confirmed.{write_review-basis_of}
use hanyangchem_qc_v.Services.Review.Once.{confirm_review-once}
use hanyangchem_qc_v.Services.Creation.{basis_of, NewIds, create_inspection, creation_payload}
use hanyangchem_qc_v.Services.Creation.Repeat.{create_inspection-repeat}
use hanyangchem_qc_v.Examples.Approval

abbrev source : ℕ → String → Members
source i key =
    member (codes "field_id") (string (uuid_text i))
      (member (codes "source_field_key") (string (codes key)) end)

abbrev run : ExtractionRun
run = record {
  id = 301;
  document_id = 91;
  provider_name = "local-paddleocr";
  status = "REVIEW_REQUIRED";
  lock_version = 1;
  candidate_payload =
      member (codes "fields")
        (array (cons (object (source 312 "colour")) (cons (object (source 311 "purity %")) nil)))
        end;
  conflicts = nil;
}

abbrev field : ℕ → String → ExtractionFieldReview
field i key = record {
  id = i;
  extraction_run_id = 301;
  field_key = key;
  manual_text = none;
  final_text = none;
  source = none;
  reason = none;
  logic_conflict = false;
  status = "REVIEW_REQUIRED";
}

abbrev read_store : Store
read_store = record Approval.store {
  standards = record { id = 41; code = "PURITY"; name = "purity" } ∷ [];
  runs = run ∷ [];
  reviews = field 311 "purity %" ∷ field 312 "colour" ∷ [];
}

abbrev input : ℕ → String → String → Disposition → Option String → FieldReviewInput
input i key text disposition target = record {
  field_id = some i;
  field_key = key;
  manual_text = none;
  final_text = text;
  source = "OCR";
  reason = "read";
  logic_conflict = false;
  mapping_disposition = some disposition;
  mapped_field_key = target;
}

abbrev request : ReviewRequest
request = record {
  fields =
      input 311 "purity %" "99.5" mapped (some "PURITY")
      ∷ input 312 "colour" "white" unmapped none
      ∷ [];
  allocation_id = 61;
  spec_version_id = some 21;
}

confirmation :
    (left : Store × ExtractionRun) × (confirm_review read_store 91 301 request 1 401 ≡ ok left)
unfolding confirm_review check_review write_review select_spec sort_by insert_by is_effective
    joined_specs metadata_by_id canonical_finite_decimal canonical_matches to_decimal span_digits
    uuid_text hex_from digits digits_value text_ltb iso_date
confirmation = (_, refl)

confirm_review-once_example :
    (e : ServiceError) × (confirm_review confirmation.0.0 91 301 request 2 402 ≡ err e)
confirm_review-once_example =
    confirm_review-once read_store 91 301 request 1 401 confirmation.1 301 request 2 402

checking : (r : Review) × (check_review read_store 91 301 request 1 ≡ ok r)
unfolding confirm_review check_review write_review select_spec sort_by insert_by is_effective
    joined_specs metadata_by_id canonical_finite_decimal canonical_matches to_decimal span_digits
    uuid_text hex_from digits digits_value text_ltb iso_date
checking = (_, refl)

writing :
    (left : Store × ExtractionRun) × (write_review read_store checking.0 request 401 ≡ ok left)
unfolding confirm_review check_review write_review select_spec sort_by insert_by is_effective
    joined_specs metadata_by_id canonical_finite_decimal canonical_matches to_decimal span_digits
    uuid_text hex_from digits digits_value text_ltb iso_date checking
writing = (_, refl)

checked-is_local : is_local checking.0.run ≡ true
unfolding checking
checked-is_local = refl

checked-NamesSource :
    All (NamesSource checking.0.metadata) (run_fields read_store checking.0.run.id)
unfolding checking uuid_text hex_from
checked-NamesSource = ((_, refl, refl), ((_, refl, refl), tt))

reviews-apart : distinct (row_ids read_store.reviews) ≡ true
unfolding uuid_text hex_from
reviews-apart = refl

selecting : (spec : Candidate) × (select_spec read_store checking.0.allocation ≡ ok spec)
unfolding checking select_spec sort_by insert_by is_effective joined_specs
selecting = (_, refl)

freezing : (snapshot : Members) × (spec_snapshot read_store selecting.0 ≡ ok snapshot)
unfolding selecting spec_snapshot sort_by insert_by
freezing = (_, refl)

write_review-basis_of_example :
    basis_of writing.0.0 checking.0.allocation writing.0.1
    ≡ ok (record {
      spec = selecting.0;
      snapshot = freezing.0;
      standards = standards_of read_store (spec_rows read_store selecting.0.0.id);
      values = reading checking.0.reviewed;
    })
write_review-basis_of_example =
    write_review-basis_of read_store 91 301 request 1 401 selecting.0 freezing.0 checking.1
      writing.1 checked-is_local reviews-apart refl checked-NamesSource (refl, tt) refl selecting.1
      freezing.1

-- The value that is read.
reading_one : reading checking.0.reviewed ≡ (codes "PURITY", finite false 995 (negsuc 0)) ∷ []
unfolding checking canonical_finite_decimal canonical_matches to_decimal span_digits digits_value
reading_one = refl

abbrev inspector : Principal
inspector = record { actor_id = 7; role = "INSPECTOR" }

abbrev ids : NewIds
ids = record { kase = 501; supplier = λ i. 600 + i }

creates :
    is_ok
      (create_inspection Approval.digest confirmation.0.0 [] 61 301 inspector (codes "k-3") 100 ids)
    ≡ true
unfolding fits confirm_review check_review write_review select_spec sort_by insert_by is_effective
    joined_specs metadata_by_id canonical_finite_decimal canonical_matches to_decimal span_digits
    uuid_text hex_from digits digits_value text_ltb iso_date create_inspection creation_payload
    reserve_idempotency replay_idempotency_if_present digest_of dumps sort_entries insert_entry
    comma_joined quoted escape_all canonical_json canonical_hash normalise format_f fixed_digits
    spec_snapshot confirmation confirmed_run
creates = refl

created :
    (left : Store × Members) × (create_inspection Approval.digest confirmation.0.0 [] 61 301
        inspector
        (codes "k-3")
        100
        ids
      ≡ ok left)
created = is_ok_value _ creates

create_inspection-repeat_example :
    create_inspection Approval.digest created.0.0 [] 61 301 inspector (codes "k-3") 900 ids
    ≡ ok (created.0.0, created.0.1)
create_inspection-repeat_example =
    create_inspection-repeat Approval.digest 61 301 inspector (codes "k-3") 100 900 ids [] []
      confirmation.0.0 ids created.1
