-- ===== src/Services/Creation/Stored.antt =====
-- The rows of the fields that a review of p3.py leaves in the table: those of the run are the fields
-- as they were confirmed, in their order.
use hanyangchem_qc_v.Base.{
  ℕ, ◌≡◌, refl, sym, ap, ◌∙◌, subst, inl, inr, Bool, true, false, List, [], ◌∷◌, map, filter, All,
  Any, All-map, All-self, filter-All, Bool-cases, ◌==◌, ==_iff, ltb, ok, sort_by, sort_by-All,
  sort_by-Any,
}
use hanyangchem_qc_v.Approval.Rows.{uuid_text}
use hanyangchem_qc_v.Services.Payload.{distinct}
use hanyangchem_qc_v.Services.Payload.Keys.{distinct-same, distinct-filter}
use hanyangchem_qc_v.Services.Review.{row_ids}
use hanyangchem_qc_v.Services.Review.Writes.{Reviewed, confirmed_field, put_reviews}
use hanyangchem_qc_v.Services.Review.Updates.{
  Field, updated, Only, put_reviews-updated, updated_hit, updated_other,
}
use hanyangchem_qc_v.Services.Creation.Reading.{reviewed_key}
use hanyangchem_qc_v.Services.Creation.Summary.{rows_of, confirmed_list, row_ids-confirmed_list}

one_row :
    (xs : List Field) (a b : Field)
    → distinct (row_ids xs) ≡ true
    → Any (λ x. x ≡ a) xs
    → Any (λ x. x ≡ b) xs
    → (a.id == b.id) ≡ true
    → a ≡ b
one_row xs a b d ha hb same =
    distinct-same (λ (f : Field). uuid_text f.id) xs a b d ha hb
      (ap uuid_text ((==_iff a.id b.id).0 same))

Any-confirmed :
    (r : Reviewed) (rs : List Reviewed)
    → Any (λ x. x ≡ r) rs
    → Any (λ n. n ≡ confirmed_field (reviewed_key r) r) (confirmed_list rs)
Any-confirmed r [] h = h
Any-confirmed r (x ∷ rs) (inl e) = inl (ap (λ (y : Reviewed). confirmed_field (reviewed_key y) y) e)
Any-confirmed r (x ∷ rs) (inr h) = inr (Any-confirmed r rs h)

filter-map :
    (p : Field → Bool) (u : Field → Field) (xs : List Field)
    → All (λ f. p (u f) ≡ p f) xs
    → filter p (map u xs) ≡ map u (filter p xs)
filter-map p u [] h = refl
filter-map p u (x ∷ xs) h = elim (Bool-cases (p x)) [
  | inl kept ↦
      let again : p (u x) ≡ true = h.0 ∙ kept in
      rw (kept, again) (ap (λ rest. u x ∷ rest) (filter-map p u xs h.1))
  | inr dropped ↦
      let again : p (u x) ≡ false = h.0 ∙ dropped in rw (dropped, again) (filter-map p u xs h.1)
]

in_filter :
    (p : Field → Bool) (f : Field) (xs : List Field)
    → p f ≡ true
    → Any (λ x. x ≡ f) xs
    → Any (λ x. x ≡ f) (filter p xs)
in_filter p f [] k h = h
in_filter p f (x ∷ xs) k (inl e) = let kept : p x ≡ true = ap p e ∙ k in rw kept (inl e)
in_filter p f (x ∷ xs) k (inr h) = elim (Bool-cases (p x)) [
  | inl kept ↦ rw kept (inr (in_filter p f xs k h))
  | inr dropped ↦ rw dropped (in_filter p f xs k h)
]

module _ (run : ℕ) (rows : List Field) (rs : List Reviewed) (apart : distinct (row_ids rows) ≡ true)
    (same : rows_of rs ≡ filter (λ (f : Field). f.extraction_run_id == run) rows) where
  abbrev of_run : Field → Bool
  of_run f = f.extraction_run_id == run

  abbrev updates : List Field
  updates = sort_by (λ (a b : Field). ltb a.id b.id) (confirmed_list rs)

  left_apart : distinct (row_ids (confirmed_list rs)) ≡ true
  left_apart =
      ap distinct (row_ids-confirmed_list rs)
      ∙ ap (λ fs. distinct (row_ids fs)) same
      ∙ distinct-filter (λ (f : Field). uuid_text f.id) of_run rows apart

  reviewed_row :
      (r : Reviewed)
      → Any (λ x. x ≡ r) rs
      → updated updates r.0 ≡ confirmed_field (reviewed_key r) r
  reviewed_row r h =
      let x = confirmed_field (reviewed_key r) r in
      let there = Any-confirmed r rs h in
      updated_hit x r.0 updates refl
        (sort_by-All _ (Only x) (confirmed_list rs) (
          All-map _ (Only x) (confirmed_list rs)
            (λ n is_n hit. sym (one_row (confirmed_list rs) x n left_apart there is_n hit))
            (All-self (confirmed_list rs))))
        (sort_by-Any _ (λ n. n ≡ x) (confirmed_list rs) there)

  of_run-rows : All (λ r. (of_run r.0 ≡ true) × Any (λ x. x ≡ r.0) rows) rs
  of_run-rows = go rs (
      subst (All (λ f. (of_run f ≡ true) × Any (λ x. x ≡ f) rows)) (sym same)
        (filter-All of_run (λ f. Any (λ x. x ≡ f) rows) rows (All-self rows)))
    where
      go :
          (xs : List Reviewed)
          → All (λ f. (of_run f ≡ true) × Any (λ x. x ≡ f) rows) (rows_of xs)
          → All (λ r. (of_run r.0 ≡ true) × Any (λ x. x ≡ r.0) rows) xs
      go [] h = tt
      go (x ∷ xs) h = (h.0, go xs h.1)

  other_row : (f : Field) → Any (λ x. x ≡ f) rows → of_run f ≡ false → updated updates f ≡ f
  other_row f there out =
      updated_other f updates
        (sort_by-All _ (λ n. (f.id == n.id) ≡ false) (confirmed_list rs) (go rs of_run-rows))
    where
      go :
          (xs : List Reviewed)
          → All (λ r. (of_run r.0 ≡ true) × Any (λ x. x ≡ r.0) rows) xs
          → All (λ n. (f.id == n.id) ≡ false) (confirmed_list xs)
      go [] h = tt
      go (r ∷ xs) h = elim (Bool-cases (f.id == r.0.id)) [
        | inr miss ↦ (miss, go xs h.1)
        | inl hit ↦
            let one : f ≡ r.0 = one_row rows f r.0 apart there h.0.1 hit in
            absurd (cc (out, ap of_run one ∙ h.0.0))
      ]

  kept_run : (f : Field) → Any (λ x. x ≡ f) rows → of_run (updated updates f) ≡ of_run f
  kept_run f there = elim (Bool-cases (of_run f)) [
    | inr out ↦ ap of_run (other_row f there out)
    | inl inside ↦
        go rs (All-map _ _ rs reviewed_row (All-self rs))
          (subst (Any (λ x. x ≡ f)) (sym same) (in_filter of_run f rows inside there))
  ]
    where
      go :
          (xs : List Reviewed)
          → All (λ r. updated updates r.0 ≡ confirmed_field (reviewed_key r) r) xs
          → Any (λ x. x ≡ f) (rows_of xs)
          → of_run (updated updates f) ≡ of_run f
      go [] h k = absurd k
      go (r ∷ xs) h (inr k) = go xs h.1 k
      go (r ∷ xs) h (inl e) =
          ap (λ (x : Field). of_run (updated updates x)) (sym e) ∙ ap of_run h.0 ∙ ap of_run e

  map-confirmed_list : map (updated updates) (rows_of rs) ≡ confirmed_list rs
  map-confirmed_list = go rs (All-map _ _ rs reviewed_row (All-self rs))
    where
      go :
          (xs : List Reviewed)
          → All (λ r. updated updates r.0 ≡ confirmed_field (reviewed_key r) r) xs
          → map (updated updates) (rows_of xs) ≡ confirmed_list xs
      go [] h = refl
      go (r ∷ xs) h =
          ap (λ f. f ∷ map (updated updates) (rows_of xs)) h.0
          ∙ ap (λ rest. confirmed_field (reviewed_key r) r ∷ rest) (go xs h.1)

  pub put_reviews-stored :
      {left : List Field}
      → put_reviews updates rows ≡ ok left
      → filter of_run left ≡ confirmed_list rs
  put_reviews-stored h =
      ap (filter of_run) (put_reviews-updated updates rows h)
      ∙ filter-map of_run (updated updates) rows (All-map _ _ rows kept_run (All-self rows))
      ∙ ap (map (updated updates)) (sym same)
      ∙ map-confirmed_list
