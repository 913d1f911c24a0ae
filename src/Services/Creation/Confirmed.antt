-- ===== src/Services/Creation/Confirmed.antt =====
-- From a confirmed review of p3.py an inspection can be created, on what the review has entered.
use hanyangchem_qc_v.Base.{
  ℕ, ◌≡◌, refl, sym, ap, ◌∙◌, Bool, true, false, not, List, [], ◌∷◌, any, filter, is_empty, All,
  str_eq, ◌==◌, ok-injective, ok, ltb, sort_by, ◌||◌, ◌>>◌, raise_if, Bool-cases, inl, inr,
}
use hanyangchem_qc_v.Base.Text.{codes}
use hanyangchem_qc_v.Snapshots.{Members}
use hanyangchem_qc_v.Store.{
  StandardTestItem, ReceiptLotAllocation, DocumentSection, DocumentAllocationLink, ExtractionRun,
  ExtractionFieldReview, AuditLog, Store,
}
use hanyangchem_qc_v.Approval.{Candidate}
use hanyangchem_qc_v.Approval.Rows.{uuid_text}
use hanyangchem_qc_v.Services.{duplicate_fields, fields_not_reviewed}
use hanyangchem_qc_v.Services.Selection.{select_spec, spec_snapshot}
use hanyangchem_qc_v.Services.Payload.{distinct, same_set}
use hanyangchem_qc_v.Services.Payload.Keys.{distinct-filter}
use hanyangchem_qc_v.Services.Review.{
  ReviewRequest, Review, run_fields, row_ids, submitted_keys, is_local, check_fields, check_review,
  write_review, with_review,
}
use hanyangchem_qc_v.Services.Review.Links.{section_left}
use hanyangchem_qc_v.Services.Review.Mapping.{FieldReviewInput, spec_rows}
use hanyangchem_qc_v.Services.Review.Writes.{
  Reviewed, confirmed_run, put_reviews, put_run, review_audit,
}
use hanyangchem_qc_v.Services.Review.Checked.{check_review-Checked, write_review-Written}
use hanyangchem_qc_v.Services.Creation.{is_linked, basis_of}
use hanyangchem_qc_v.Services.Creation.Rows.{standards_of, standard_codes}
use hanyangchem_qc_v.Services.Creation.Values.{ItemValues, reviewed_values}
use hanyangchem_qc_v.Services.Creation.Reading.{reading}
use hanyangchem_qc_v.Services.Creation.Summary.{rows_of, confirmed_list}
use hanyangchem_qc_v.Services.Creation.Agreement.{NamesSource, read_confirmed_list}
use hanyangchem_qc_v.Services.Creation.Stored.{put_reviews-stored}
use hanyangchem_qc_v.Services.Creation.Linked.{with_review-is_linked}

abbrev unconfirmed : List ExtractionFieldReview → Bool
unconfirmed fs = any (λ (f : ExtractionFieldReview). not (str_eq f.status "CONFIRMED")) fs

confirmed_list-confirmed : (rs : List Reviewed) → unconfirmed (confirmed_list rs) ≡ false
confirmed_list-confirmed [] = refl
confirmed_list-confirmed (r ∷ rs) = confirmed_list-confirmed rs

-- What a case is created from, once every check has its answer.
basis_of-checked :
    (store : Store) (reviews : List ExtractionFieldReview) (sections : List DocumentSection)
    (links : List DocumentAllocationLink) (runs : List ExtractionRun) (audit : AuditLog)
    (allocation : ReceiptLotAllocation) (run : ExtractionRun) (spec : Candidate)
    (snapshot : Members) (fs : List ExtractionFieldReview) (values : ItemValues)
    → let left = with_review store reviews sections links runs audit in
      let standards = standards_of store (spec_rows store spec.0.id) in
      is_linked left run.document_id allocation.id ≡ true
      → select_spec store allocation ≡ ok spec
      → distinct (standard_codes standards) ≡ true
      → filter (λ (f : ExtractionFieldReview). f.extraction_run_id == run.id) reviews ≡ fs
      → is_empty fs ≡ false
      → unconfirmed fs ≡ false
      → reviewed_values run spec.0.id (standard_codes standards) fs ≡ ok values
      → spec_snapshot store spec ≡ ok snapshot
      → basis_of left allocation run
        ≡ ok (record { spec = spec; snapshot = snapshot; standards = standards; values = values })
unfolding basis_of select_spec spec_snapshot
basis_of-checked store reviews sections links runs audit allocation run spec snapshot fs values
      linked selected apart rows filled settled read frozen =
    rw linked (rw selected (rw apart (rw rows (rw (filled, settled) (rw read (rw frozen refl))))))

-- A review of fields is not empty where its request is not.
filled_fields :
    (fields : List ExtractionFieldReview) (q : ReviewRequest)
    → check_fields fields q ≡ ok tt
    → is_empty q.fields ≡ false
    → is_empty fields ≡ false
unfolding check_fields
filled_fields (f ∷ fs) q h k = refl
filled_fields [] q h k = by_fields q.fields h k
  where
    by_fields :
        (is : List FieldReviewInput)
        → (raise_if false duplicate_fields
            >> raise_if
                (not (distinct (submitted_keys is)) || not (same_set [] (submitted_keys is)))
                fields_not_reviewed)
          ≡ ok tt
        → is_empty is ≡ false
        → true ≡ false
    by_fields [] h k = k
    by_fields (i ∷ is) h k = elim (Bool-cases (distinct (submitted_keys (i ∷ is)))) [
      | inl apart ↦ cc (rw apart at h)
      | inr twice ↦ cc (rw twice at h)
    ]

-- From a confirmed review of a local run a case can be created on what the review has entered: in
-- the store that write_review leaves, basis_of finds the document linked to the allocation, every
-- field of the run confirmed, and takes from the fields exactly the targets of those that the review
-- has mapped, with their values, in the order of the fields, under the specification and the
-- snapshot that are in effect. The rows of the fields have identifiers of their own and the standard
-- items codes of their own; the metadata of each field names its key as the source, the sections are
-- matched, and the request names a field at least.
pub write_review-basis_of :
    (store : Store) (document i : ℕ) (q : ReviewRequest) (version fresh : ℕ) (spec : Candidate)
    (snapshot : Members) {r : Review} {after : Store} {run : ExtractionRun}
    → check_review store document i q version ≡ ok r
    → write_review store r q fresh ≡ ok (after, run)
    → is_local r.run ≡ true
    → distinct (row_ids store.reviews) ≡ true
    → distinct (standard_codes store.standards) ≡ true
    → All (NamesSource r.metadata) (run_fields store r.run.id)
    → All (λ (x : DocumentSection). str_eq x.status "MATCHED" ≡ true) store.sections
    → is_empty q.fields ≡ false
    → select_spec store r.allocation ≡ ok spec
    → spec_snapshot store spec ≡ ok snapshot
    → basis_of after r.allocation run
      ≡ ok (record {
        spec = spec;
        snapshot = snapshot;
        standards = standards_of store (spec_rows store spec.0.id);
        values = reading r.reviewed;
      })
unfolding confirmed_run
write_review-basis_of store document i q version fresh spec snapshot {r = r} {run = run} checked
      written local apart codes_apart sources matched asked selected frozen =
    let w = write_review-Written store r q fresh written in
    let c = check_review-Checked store document i q version checked in
    let test : ExtractionFieldReview → Bool = λ f. f.extraction_run_id == r.run.id in
    let (found, found_is, fields, same, values) =
      read_confirmed_list store document i q version fresh checked w local
        (distinct-filter (λ (f : ExtractionFieldReview). uuid_text f.id) test store.reviews apart)
        sources in
    let standards = standards_of store (spec_rows store spec.0.id) in
    let one : found ≡ spec = ok-injective found spec (sym found_is ∙ selected) in
    let is_id : r.run.id ≡ run.id = ap (λ (x : ExtractionRun). x.id) w.is_run in
    let is_document : r.run.document_id ≡ run.document_id =
      ap (λ (x : ExtractionRun). x.document_id) w.is_run in
    let listed : w.fields ≡ confirmed_list r.reviewed =
      ok-injective _ _ (sym w.confirmed ∙ fields) in
    let stored = put_reviews-stored r.run.id store.reviews r.reviewed apart same (
      ap
        (λ fs.
          put_reviews (sort_by (λ (a b : ExtractionFieldReview). ltb a.id b.id) fs) store.reviews)
        (sym listed)
      ∙ w.put) in
    let audit = review_audit (is_local r.run) run.id r.allocation.id r.reviewed in
    let sections = (section_left store fresh r.run.document_id).1 in
    let linked =
      with_review-is_linked store fresh r.run.document_id r.allocation.id w.reviews
        (put_run run store.runs) audit matched w.here w.linked in
    let left = with_review store w.reviews sections w.links (put_run run store.runs) audit in
    ap (λ x. basis_of x r.allocation run) (sym w.stands)
    ∙ (basis_of-checked store w.reviews sections w.links (put_run run store.runs) audit r.allocation
        run spec snapshot (confirmed_list r.reviewed) (reading r.reviewed)
        (ap (λ d. is_linked left d r.allocation.id) (sym is_document) ∙ linked) selected
        (distinct-filter (λ (s : StandardTestItem). codes s.code) _ store.standards codes_apart)
        (ap (λ n. filter (λ (f : ExtractionFieldReview). f.extraction_run_id == n) w.reviews)
            (sym is_id)
          ∙ stored)
        (filled_list r.reviewed
          (ap is_empty same ∙ filled_fields (run_fields store r.run.id) q c.fields asked))
        (confirmed_list-confirmed r.reviewed)
        (ap
            (λ (x : Candidate).
              reviewed_values run x.0.id
                (standard_codes (standards_of store (spec_rows store x.0.id)))
                (confirmed_list r.reviewed))
            (sym one)
          ∙ values)
        frozen)
  where
    filled_list :
        (rs : List Reviewed) → is_empty (rows_of rs) ≡ false → is_empty (confirmed_list rs) ≡ false
    filled_list [] h = h
    filled_list (x ∷ xs) h = refl
