-- ===== src/Services/Review/Once.antt =====
-- About reviews of p3.py that are confirmed twice.
use hanyangchem_qc_v.Base.{
  ℕ, String, eq_iff, ◌≡◌, refl, sym, ap, ◌∙◌, inl, inr, subst, Bool, true, false, ◌&&◌, Option,
  some, List, [], ◌∷◌, any, find?, find?-true, str_eq, ◌==◌, ==_iff, Bool-cases, Result-cases,
  some-injective, bind-ok, ok, err, arith,
}
use hanyangchem_qc_v.Store.{ExtractionRun, Store}
use hanyangchem_qc_v.Services.{ServiceError}
use hanyangchem_qc_v.Services.Review.{
  ReviewRequest, check_review, confirm_review, confirmed_beside, is_local,
}
use hanyangchem_qc_v.Services.Review.Writes.{confirmed_run, put_run}
use hanyangchem_qc_v.Services.Review.Checked.{
  check_review-Checked, reviewable_run-found, write_review-Written, Written-runs,
}

abbrev is_run_of : ℕ → ℕ → ExtractionRun → Bool
is_run_of document i r = r.id == i && r.document_id == document

is_run_of_parts :
    (document i : ℕ) (r : ExtractionRun)
    → is_run_of document i r ≡ true
    → (r.id ≡ i) × (r.document_id ≡ document)
is_run_of_parts document i r h = ground arith

is_run_of_self :
    (document : ℕ) (r : ExtractionRun) → r.document_id ≡ document → is_run_of document r.id r ≡ true
is_run_of_self document r h = ground arith

-- A run that is there keeps its place, and with the identifier is the one that is put.
put_run-found :
    (document : ℕ) (new : ExtractionRun) (runs : List ExtractionRun) {old : ExtractionRun}
    → is_run_of document new.id new ≡ true
    → find? (is_run_of document new.id) runs ≡ some old
    → find? (is_run_of document new.id) (put_run new runs) ≡ some new
put_run-found document new [] is_new h = cc
put_run-found document new (r ∷ rs) is_new h = elim (Bool-cases (r.id == new.id)) [
  | inl same ↦ rw same (rw is_new refl)
  | inr other ↦ rw other (rw other (put_run-found document new rs is_new (rw other at h)))
]

put_run-any :
    (p : ExtractionRun → Bool) (document : ℕ) (new : ExtractionRun) (runs : List ExtractionRun)
    {old : ExtractionRun}
    → p new ≡ true
    → find? (is_run_of document new.id) runs ≡ some old
    → any p (put_run new runs) ≡ true
put_run-any p document new [] is_new h = cc
put_run-any p document new (r ∷ rs) is_new h = elim (Bool-cases (r.id == new.id)) [
  | inl same ↦ rw same (rw is_new refl)
  | inr other ↦ rw other (ground (arith, put_run-any p document new rs is_new (rw other at h)))
]

confirmed_run-parts :
    (is_local : Bool) (run : ExtractionRun) (spec : Option ℕ) (entries : _) (rs : _)
    → let left = confirmed_run is_local run spec entries rs in
      (left.id ≡ run.id)
      × (left.document_id ≡ run.document_id)
      × (str_eq left.status "CONFIRMED" ≡ true)
unfolding confirmed_run
confirmed_run-parts is_local run spec entries rs = (refl, refl, refl)

-- A review that is confirmed leaves its run confirmed among the runs.
left_run :
    (store : Store) (document i : ℕ) (q : ReviewRequest) (version fresh : ℕ) {after : Store}
    {run : ExtractionRun}
    → confirm_review store document i q version fresh ≡ ok (after, run)
    → (run.id ≡ i)
      × (run.document_id ≡ document)
      × (str_eq run.status "CONFIRMED" ≡ true)
      × (find? (is_run_of document i) after.runs ≡ some run)
      × ((p : ExtractionRun → Bool) → p run ≡ true → any p after.runs ≡ true)
unfolding confirm_review
left_run store document i q version fresh {after = after} {run = run} h =
    let (r, checked, written) = bind-ok (check_review store document i q version) _ h in
    let c = check_review-Checked store document i q version checked in
    let w = write_review-Written store r q fresh written in
    let found = (reviewable_run-found store document i version c.run).0 in
    let (id, place) =
      is_run_of_parts document i r.run (find?-true (is_run_of document i) store.runs found) in
    let (same_id, same_place, is_confirmed) =
      subst
        (λ x.
          (x.id ≡ r.run.id)
          × (x.document_id ≡ r.run.document_id)
          × (str_eq x.status "CONFIRMED" ≡ true))
        w.is_run
        (confirmed_run-parts (is_local r.run) r.run q.spec_version_id w.entries r.reviewed) in
    let is_run : is_run_of document run.id run ≡ true =
      is_run_of_self document run (same_place ∙ place) in
    let old : find? (is_run_of document run.id) store.runs ≡ some r.run =
      subst (λ n. find? (is_run_of document n) store.runs ≡ some r.run) (sym (same_id ∙ id))
        found in
    (
      same_id ∙ id,
      same_place ∙ place,
      is_confirmed,
      subst (λ n. find? (is_run_of document n) after.runs ≡ some run) (same_id ∙ id)
          (subst (λ rs. find? (is_run_of document run.id) rs ≡ some run)
            (Written-runs store r q fresh after run w)
            (put_run-found document run store.runs is_run old)),
      λ p is_p.
          subst (λ rs. any p rs ≡ true) (Written-runs store r q fresh after run w)
            (put_run-any p document run store.runs is_p old),
    )

not_both : (s : String) → str_eq s "CONFIRMED" ≡ true → str_eq s "REVIEW_REQUIRED" ≡ true → ⊥
not_both s h k =
    let wrong : str_eq "CONFIRMED" "REVIEW_REQUIRED" ≡ true =
      subst (λ x. str_eq x "REVIEW_REQUIRED" ≡ true) ((eq_iff s "CONFIRMED").0 h) k in
    cc

second_refuted :
    (document i j : ℕ) (run other : ExtractionRun) (after : Store)
    → (run.id ≡ i)
      × (run.document_id ≡ document)
      × (str_eq run.status "CONFIRMED" ≡ true)
      × (find? (is_run_of document i) after.runs ≡ some run)
      × ((p : ExtractionRun → Bool) → p run ≡ true → any p after.runs ≡ true)
    → find? (is_run_of document j) after.runs ≡ some other
    → other.document_id ≡ document
    → str_eq other.status "REVIEW_REQUIRED" ≡ true
    → any (confirmed_beside other) after.runs ≡ false
    → ⊥
second_refuted document i j run other after (id, place, is_confirmed, there, any_run) found
      other_place waits alone =
    elim (Bool-cases (run.id == other.id)) [
      | inr apart ↦
          let beside : confirmed_beside other run ≡ true =
            rw apart (rw is_confirmed (ground (arith, place, other_place))) in
          cc (any_run (confirmed_beside other) beside)
      | inl same ↦
          let (other_id, _) =
            is_run_of_parts document j other (find?-true (is_run_of document j) after.runs found) in
          let one : i ≡ j = sym id ∙ (==_iff run.id other.id).0 same ∙ other_id in
          let twins : run ≡ other =
            some-injective _ _
              (sym there ∙ ap (λ n. find? (is_run_of document n) after.runs) one ∙ found) in
          not_both run.status is_confirmed
            (subst (λ x. str_eq x.status "REVIEW_REQUIRED" ≡ true) (sym twins) waits)
    ]

-- Once a review is confirmed, no review of the document is: a second one of the same run or of
-- another is refused, whatever it says, at whatever version and on whatever allocation.
pub confirm_review-once :
    (store : Store) (document i : ℕ) (q : ReviewRequest) (version fresh : ℕ) {after : Store}
    {run : ExtractionRun}
    → confirm_review store document i q version fresh ≡ ok (after, run)
    → (j : ℕ) (p : ReviewRequest) (other_version other_fresh : ℕ)
    → (e : ServiceError) × (confirm_review after document j p other_version other_fresh ≡ err e)
unfolding confirm_review
confirm_review-once store document i q version fresh {after = after} {run = run} h j p other_version
      other_fresh =
    elim (Result-cases (confirm_review after document j p other_version other_fresh)) [
      | inr (e, refused) ↦ (e, refused)
      | inl (left, again) ↦
          let (r, checked, written) =
            bind-ok (check_review after document j p other_version) _ again in
          let c = check_review-Checked after document j p other_version checked in
          let w = write_review-Written after r p other_fresh written in
          let (found, waits) = reviewable_run-found after document j other_version c.run in
          let (id, place) =
            is_run_of_parts document j r.run (find?-true (is_run_of document j) after.runs found) in
          let l = left_run store document i q version fresh h in
          absurd (second_refuted document i j run r.run after l found place waits w.alone)
    ]
