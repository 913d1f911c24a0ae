-- ===== src/Services/Creation/Agreement.antt =====
-- An inspection of p3.py reads from a confirmed review what the review has entered.
use hanyangchem_qc_v.Base.{
  ℕ, ◌≡◌, sym, ap, ◌∙◌, subst, inl, inr, true, not, Option, some, List, [], ◌∷◌, All, raise_if-ok,
  ok-injective, ok,
}
use hanyangchem_qc_v.Base.Text.{codes}
use hanyangchem_qc_v.Snapshots.{Text, Json, Members}
use hanyangchem_qc_v.Store.{ExtractionRun, ExtractionFieldReview, Store}
use hanyangchem_qc_v.Approval.{Candidate}
use hanyangchem_qc_v.Approval.Rows.{uuid_text}
use hanyangchem_qc_v.Services.{duplicate_fields}
use hanyangchem_qc_v.Services.Selection.{select_spec}
use hanyangchem_qc_v.Services.Payload.{holds, distinct, get_item, as_text, Metadata, metadata_of}
use hanyangchem_qc_v.Services.Payload.Items.{NamesItself, objects}
use hanyangchem_qc_v.Services.Payload.Named.{metadata_of-named}
use hanyangchem_qc_v.Services.Creation.Local.{check_source-Local, negated}
use hanyangchem_qc_v.Services.Creation.Goals.{Own, Own-Fits, with_inputs-Own, mapped_codes-distinct}
use hanyangchem_qc_v.Services.Creation.Allowed.{spec_codes-standard_codes}
use hanyangchem_qc_v.Services.Review.{
  ReviewRequest, Review, run_fields, keys_of, row_ids, is_local, check_fields, check_review,
  write_review,
}
use hanyangchem_qc_v.Services.Review.Mapping.{FieldReviewInput, spec_rows, spec_codes}
use hanyangchem_qc_v.Services.Review.Writes.{
  Reviewed, mapped_codes, confirmed_run, confirmed_fields, reviewed_payload,
}
use hanyangchem_qc_v.Services.Review.Checked.{Written, check_review-Checked, write_review-Written}
use hanyangchem_qc_v.Services.Creation.Rows.{standards_of, standard_codes}
use hanyangchem_qc_v.Services.Creation.Values.{reviewed_values, local_values}
use hanyangchem_qc_v.Services.Creation.Reading.{Fate, Good, reading}
use hanyangchem_qc_v.Services.Creation.Summary.{
  rows_of, confirmed_list, confirmed_fields-AllGood, reviewed_entries-AllGood, local_values-AllGood,
  entry_pairs,
}
use hanyangchem_qc_v.Services.Creation.Targets.{Fits}

-- The metadata of a field has the field's key as its source.
abbrev pub NamesSource : Metadata → ExtractionFieldReview → Type 0
NamesSource metadata f =
    (ms : Members) × (metadata_of (uuid_text f.id) metadata ≡ some ms)
    × (as_text (get_item (codes "source_field_key") ms) ≡ some (codes f.field_key))

wider :
    (allowed others : List Text) (i : FieldReviewInput)
    → ((t : Text) → holds allowed t ≡ true → holds others t ≡ true)
    → Fits allowed i
    → (cs : List Text) × Fate others i.mapping_disposition i.mapped_field_key i.final_text cs
wider allowed others i include (cs, inl fate) = (cs, inl fate)
wider allowed others i include (cs, inr (code, v, d, t, inside, is_v, rest)) =
    (cs, inr (code, v, d, t, include (codes code) inside, is_v, rest))

inputs-Good :
    (allowed others : List Text) (q : ReviewRequest) (metadata : Metadata) (rs : List Reviewed)
    → ((t : Text) → holds allowed t ≡ true → holds others t ≡ true)
    → All (Fits allowed) q.fields
    → All NamesItself metadata
    → All (Own q) rs
    → All (NamesSource metadata) (rows_of rs)
    → All (Good others metadata) rs
inputs-Good allowed others q metadata [] include fits named own sources = tt
inputs-Good allowed others q metadata (r ∷ rs) include fits named own sources =
    let (ms, found, source) = sources.0 in
    let (cs, fate) = wider allowed others r.1 include (Own-Fits allowed q r fits own.0) in
    (
      record {
        ms = ms;
        cs = cs;
        found = found;
        named = metadata_of-named (uuid_text r.0.id) metadata named found;
        source = source;
        fate = fate;
      },
      inputs-Good allowed others q metadata rs include fits named own.1 sources.1,
    )

fields_apart :
    (fields : List ExtractionFieldReview) (q : ReviewRequest)
    → check_fields fields q ≡ ok tt
    → distinct (keys_of fields) ≡ true
unfolding check_fields
fields_apart fields q h =
    negated (distinct (keys_of fields))
      (raise_if-ok (not (distinct (keys_of fields))) duplicate_fields _ h).0

-- The run and the fields as a review leaves them, with what is read in them.
run-reviewed_values :
    (r : Review) (spec : Option ℕ) (entries : List Json) (version : ℕ) (allowed : List Text)
    (gs : All (Good allowed r.metadata) r.reviewed)
    → is_local r.run ≡ true
    → spec ≡ some version
    → entries ≡ objects (entry_pairs allowed r.metadata r.reviewed gs)
    → distinct (row_ids (rows_of r.reviewed)) ≡ true
    → distinct (mapped_codes true r.reviewed) ≡ true
    → reviewed_values
        (confirmed_run (is_local r.run) r.run spec entries r.reviewed)
        version
        allowed
        (confirmed_list r.reviewed)
      ≡ ok (reading r.reviewed)
unfolding reviewed_values confirmed_run
run-reviewed_values r spec entries version allowed gs is_local is_spec are apart goals_apart =
    rw is_local (
      ap
        (λ x.
          local_values (reviewed_payload r.run.candidate_payload x entries r.reviewed) version
            allowed (confirmed_list r.reviewed))
        is_spec
      ∙ ap
          (λ x.
            local_values (reviewed_payload r.run.candidate_payload (some version) x r.reviewed)
              version allowed (confirmed_list r.reviewed))
          are
      ∙ local_values-AllGood allowed r.metadata r.run.candidate_payload version r.reviewed gs apart
          goals_apart)

-- What is read from the fields that a review leaves, and which fields these are.
pub read_confirmed_list :
    (store : Store) (document i : ℕ) (q : ReviewRequest) (version fresh : ℕ) {r : Review}
    {after : Store} {run : ExtractionRun}
    → check_review store document i q version ≡ ok r
    → Written store r q fresh after run
    → is_local r.run ≡ true
    → distinct (row_ids (run_fields store r.run.id)) ≡ true
    → All (NamesSource r.metadata) (run_fields store r.run.id)
    → (spec : Candidate) × (select_spec store r.allocation ≡ ok spec)
      × (confirmed_fields (is_local r.run) r.reviewed ≡ ok (confirmed_list r.reviewed))
      × (rows_of r.reviewed ≡ run_fields store r.run.id)
      × (reviewed_values run spec.0.id
            (standard_codes (standards_of store (spec_rows store spec.0.id)))
            (confirmed_list r.reviewed)
          ≡ ok (reading r.reviewed))
read_confirmed_list store document i q version fresh {r = r} checked w local apart sources =
    let c = check_review-Checked store document i q version checked in
    let l = check_source-Local store r q (run_fields store r.run.id) c.numeric local c.source in
    let (same, own) = with_inputs-Own q (run_fields store r.run.id) c.inputs in
    let allowed = standard_codes (standards_of store (spec_rows store l.spec.0.id)) in
    let gs =
      inputs-Good (spec_codes store l.spec.0.id) allowed q r.metadata r.reviewed
        (spec_codes-standard_codes store l.spec.0.id) l.fits l.named own
        (subst (All (NamesSource r.metadata)) (sym same) sources) in
    let left = confirmed_fields-AllGood allowed r.metadata r.reviewed gs in
    let described = rw local at w.described in
    let are =
      ok-injective _ w.entries
        (sym (reviewed_entries-AllGood allowed r.metadata r.reviewed gs) ∙ described) in
    let keys = fields_apart (run_fields store r.run.id) q c.fields in
    (
      l.spec,
      l.selected,
      ap (λ b. confirmed_fields b r.reviewed) local ∙ left,
      same,
      subst
          (λ x.
            reviewed_values x l.spec.0.id allowed (confirmed_list r.reviewed)
            ≡ ok (reading r.reviewed))
          w.is_run
          (run-reviewed_values r q.spec_version_id w.entries l.spec.0.id allowed gs local l.version
            (sym are) (ap (λ fs. distinct (row_ids fs)) same ∙ apart)
            (mapped_codes-distinct q r.reviewed own (ap (λ fs. distinct (keys_of fs)) same ∙ keys)
              l.apart)),
    )

-- What a review of a local run enters is what an inspection reads: where the review is checked and
-- written, the fields it leaves and the run it leaves pass every check of create_inspection, with
-- the codes of the specification that it has selected, and give exactly the targets of the mapped
-- fields with their values, in the order of the fields. The rows' identifiers differ, and the
-- metadata of each field names the field's key as its source.
pub write_review-reviewed_values :
    (store : Store) (document i : ℕ) (q : ReviewRequest) (version fresh : ℕ) {r : Review}
    {after : Store} {run : ExtractionRun}
    → check_review store document i q version ≡ ok r
    → write_review store r q fresh ≡ ok (after, run)
    → is_local r.run ≡ true
    → distinct (row_ids (run_fields store r.run.id)) ≡ true
    → All (NamesSource r.metadata) (run_fields store r.run.id)
    → (spec : Candidate) × (fields : List ExtractionFieldReview) × (select_spec store r.allocation
        ≡ ok spec)
      × (confirmed_fields (is_local r.run) r.reviewed ≡ ok fields)
      × (rows_of r.reviewed ≡ run_fields store r.run.id)
      × (reviewed_values run spec.0.id
            (standard_codes (standards_of store (spec_rows store spec.0.id)))
            fields
          ≡ ok (reading r.reviewed))
write_review-reviewed_values store document i q version fresh {r = r} checked written local apart
      sources =
    let w = write_review-Written store r q fresh written in
    let (spec, selected, left, same, values) =
      read_confirmed_list store document i q version fresh checked w local apart sources in
    (spec, confirmed_list r.reviewed, selected, left, same, values)
