-- ===== src/Services/Review/Checked.antt =====
-- What a review of p3.py that passes its checks, and one that is written, are known for.
use hanyangchem_qc_v.Base.{
  ℕ, ◌≡◌, sym, ap, subst, ◌∙◌, arith, true, false, not, Option, none, some, List, [], any, is_empty,
  str_eq, ltb, ◌==◌, if◌then◌else◌, bind-ok, raise_if-ok, ok-injective, ok_parts, sort_by, ok, err,
}
use hanyangchem_qc_v.Snapshots.{Text, Json}
use hanyangchem_qc_v.Store.{DocumentAllocationLink, ExtractionRun, ExtractionFieldReview, Store}
use hanyangchem_qc_v.Services.{
  ServiceError, run_not_found, already_confirmed, stale_review, allocation_not_found,
  allocation_conflict,
}
use hanyangchem_qc_v.Services.Selection.{or_fail}
use hanyangchem_qc_v.Services.Evaluation.{allocation_row}
use hanyangchem_qc_v.Services.Review.{
  ReviewRequest, Review, document_run, run_fields, reviewable_run, check_fields, check_source,
  with_inputs, check_inputs, check_review, confirmed_beside, with_review, write_review, is_local,
}
use hanyangchem_qc_v.Services.Review.Links.{
  section_left, section_of, confirmed_links, links_elsewhere, with_link,
}
use hanyangchem_qc_v.Services.Review.Writes.{
  confirmed_fields, reviewed_entries, put_reviews, confirmed_run, put_run, review_audit,
}

pub or_fail-ok {ℓ} :
    {A : Type ℓ} (o : Option A) (e : ServiceError) {a : A} → or_fail o (err e) ≡ ok a → o ≡ some a
or_fail-ok none e h = cc
or_fail-ok (some b) e h = cc

-- The steps of the checks, each of which has gone through.
pub record Checked (store : Store) (document i : ℕ) (q : ReviewRequest) (version : ℕ) (r : Review)
    : Type 0 where
  pub numeric : List Text
  pub run : reviewable_run store document i version ≡ ok r.run
  pub fields : check_fields (run_fields store r.run.id) q ≡ ok tt
  pub source :
      check_source store r.run (run_fields store r.run.id) q r.allocation ≡ ok (r.metadata, numeric)
  pub inputs : with_inputs q (run_fields store r.run.id) ≡ ok r.reviewed

pub check_review-Checked :
    (store : Store) (document i : ℕ) (q : ReviewRequest) (version : ℕ) {r : Review}
    → check_review store document i q version ≡ ok r
    → Checked store document i q version r
unfolding check_review
check_review-Checked store document i q version {r = r} h =
    let (run, reviewable, h1) = bind-ok (reviewable_run store document i version) _ h in
    let (_, fields, h2) = bind-ok (check_fields (run_fields store run.id) q) _ h1 in
    let (allocation, _, h3) =
      bind-ok (or_fail (allocation_row store q.allocation_id) (err allocation_not_found)) _ h2 in
    let (source, checked, h4) =
      bind-ok (check_source store run (run_fields store run.id) q allocation) _ h3 in
    let (reviewed, inputs, h5) = bind-ok (with_inputs q (run_fields store run.id)) _ h4 in
    let (_, _, h6) = bind-ok (check_inputs (is_local run) source.1 reviewed) _ h5 in
    subst (Checked store document i q version) (ok-injective _ r h6) (record {
      numeric = source.1;
      run = reviewable;
      fields = fields;
      source = checked;
      inputs = inputs;
    })

pub reviewable_run-found :
    (store : Store) (document i version : ℕ) {run : ExtractionRun}
    → reviewable_run store document i version ≡ ok run
    → (document_run store document i ≡ some run) × (str_eq run.status "REVIEW_REQUIRED" ≡ true)
unfolding reviewable_run
reviewable_run-found store document i version {run = run} h =
    let (x, found, h1) =
      bind-ok (or_fail (document_run store document i) (err run_not_found)) _ h in
    let (waits, h2) =
      raise_if-ok (not (str_eq x.status "REVIEW_REQUIRED")) already_confirmed _ h1 in
    let (_, h3) = raise_if-ok (not (x.lock_version == version)) stale_review _ h2 in
    let same = ok-injective x run h3 in
    (
      or_fail-ok _ run_not_found found ∙ ap some same,
      subst (λ x. str_eq x.status "REVIEW_REQUIRED" ≡ true) same (ground arith),
    )

-- What is written, step by step.
pub record Written (store : Store) (r : Review) (q : ReviewRequest) (fresh : ℕ) (after : Store)
    (run : ExtractionRun) : Type 0 where
  pub fields : List ExtractionFieldReview
  pub entries : List Json
  pub reviews : List ExtractionFieldReview
  pub links : List DocumentAllocationLink
  pub here :
      links_elsewhere r.allocation.id (confirmed_links store (section_of store r.run.document_id))
      ≡ false
  pub confirmed : confirmed_fields (is_local r.run) r.reviewed ≡ ok fields
  pub described :
      (if is_local r.run then reviewed_entries r.metadata r.reviewed else ok []) ≡ ok entries
  pub put :
      put_reviews (sort_by (λ (a b : ExtractionFieldReview). ltb a.id b.id) fields) store.reviews
      ≡ ok reviews
  pub linked :
      with_link store.links
        (section_left store fresh r.run.document_id).0.id
        r.allocation.id
        (not (is_empty (confirmed_links store (section_of store r.run.document_id))))
      ≡ ok links
  pub alone : any (confirmed_beside r.run) store.runs ≡ false
  pub is_run : confirmed_run (is_local r.run) r.run q.spec_version_id entries r.reviewed ≡ run
  pub stands :
      with_review store reviews
        (section_left store fresh r.run.document_id).1
        links
        (put_run run store.runs)
        (review_audit (is_local r.run) run.id r.allocation.id r.reviewed)
      ≡ after

pub write_review-Written :
    (store : Store) (r : Review) (q : ReviewRequest) (fresh : ℕ) {after : Store}
    {run : ExtractionRun}
    → write_review store r q fresh ≡ ok (after, run)
    → Written store r q fresh after run
unfolding write_review
write_review-Written store r q fresh {after = after} {run = run} h =
    let found = section_of store r.run.document_id in
    let links = confirmed_links store found in
    let (here, h1) = raise_if-ok (links_elsewhere r.allocation.id links) allocation_conflict _ h in
    let (fields, confirmed, h2) = bind-ok (confirmed_fields (is_local r.run) r.reviewed) _ h1 in
    let (entries, described, h3) =
      bind-ok (if is_local r.run then reviewed_entries r.metadata r.reviewed else ok []) _ h2 in
    let (reviews, put, h4) =
      bind-ok
        (put_reviews (sort_by (λ (a b : ExtractionFieldReview). ltb a.id b.id) fields)
          store.reviews)
        _ h3 in
    let (section, sections) = section_left store fresh r.run.document_id in
    let (left_links, linked, h5) =
      bind-ok (with_link store.links section.id r.allocation.id (not (is_empty links))) _ h4 in
    let (alone, h6) =
      raise_if-ok (any (confirmed_beside r.run) store.runs) allocation_conflict _ h5 in
    let (left, same) = ok_parts _ after _ run h6 in
    record {
      fields = fields;
      entries = entries;
      reviews = reviews;
      links = left_links;
      here = here;
      confirmed = confirmed;
      described = described;
      put = put;
      linked = linked;
      alone = alone;
      is_run = same;
      stands =
          ap
            (λ (x : ExtractionRun).
              with_review store reviews sections left_links (put_run x store.runs)
                (review_audit (is_local r.run) x.id r.allocation.id r.reviewed))
            (sym same)
          ∙ left;
    }

pub Written-runs :
    (store : Store) (r : Review) (q : ReviewRequest) (fresh : ℕ) (after : Store)
    (run : ExtractionRun)
    → Written store r q fresh after run
    → put_run run store.runs ≡ after.runs
Written-runs store r q fresh after run w = ap (λ (s : Store). s.runs) w.stands
