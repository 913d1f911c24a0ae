-- ===== src/Services/Review/Updates.antt =====
-- About the rows of the fields that a review of p3.py updates: in whatever order they are written,
-- the rows of the run are the fields as they were confirmed, and no other row changes.
use hanyangchem_qc_v.Base.{
  ◌≡◌, refl, sym, ap, ◌∙◌, inl, inr, true, false, List, [], ◌∷◌, map, any, All, Any, Bool-cases,
  ◌==◌, ==_iff, if◌then◌else◌, raise_if-ok, ok-injective, ok,
}
use hanyangchem_qc_v.Store.{ExtractionFieldReview}
use hanyangchem_qc_v.Services.{database_error}
use hanyangchem_qc_v.Services.Review.Writes.{put_review, put_reviews, takes_key}

abbrev pub Field : Type 0
Field = ExtractionFieldReview

-- A row behind the updates.
abbrev pub updated : List Field → Field → Field
updated [] r = r
updated (n ∷ ns) r = updated ns (if r.id == n.id then n else r)

put_review-updated :
    (n : Field) (rows : List Field) → put_review n rows ≡ map (updated (n ∷ [])) rows
put_review-updated n [] = refl
put_review-updated n (r ∷ rows) = elim (Bool-cases (r.id == n.id)) [
  | inl hit ↦ rw hit (ap (λ rest. n ∷ rest) (put_review-updated n rows))
  | inr miss ↦ rw miss (ap (λ rest. r ∷ rest) (put_review-updated n rows))
]

map-updated :
    (n : Field) (ns rows : List Field)
    → map (updated ns) (map (updated (n ∷ [])) rows) ≡ map (updated (n ∷ ns)) rows
map-updated n ns [] = refl
map-updated n ns (r ∷ rows) = ap (λ rest. updated (n ∷ ns) r ∷ rest) (map-updated n ns rows)

pub put_reviews-updated :
    (ns rows : List Field) {left : List Field}
    → put_reviews ns rows ≡ ok left
    → left ≡ map (updated ns) rows
unfolding put_reviews
put_reviews-updated [] rows h = sym (ok-injective _ _ h) ∙ unchanged rows
  where
    unchanged : (xs : List Field) → xs ≡ map (updated []) xs
    unchanged [] = refl
    unchanged (x ∷ xs) = ap (λ rest. x ∷ rest) (unchanged xs)
put_reviews-updated (n ∷ ns) rows h =
    let (_, h1) = raise_if-ok (any (takes_key n) rows) database_error _ h in
    put_reviews-updated ns (put_review n rows) h1
    ∙ ap (map (updated ns)) (put_review-updated n rows)
    ∙ map-updated n ns rows

-- The updates hold no row of another with the identifier.
abbrev pub Only : Field → Field → Type 0
Only x n = (x.id == n.id) ≡ true → n ≡ x

updated_same : (x : Field) (ns : List Field) → All (Only x) ns → updated ns x ≡ x
updated_same x [] h = refl
updated_same x (n ∷ ns) h = elim (Bool-cases (x.id == n.id)) [
  | inl hit ↦ rw hit (ap (updated ns) (h.0 hit) ∙ updated_same x ns h.1)
  | inr miss ↦ rw miss (updated_same x ns h.1)
]

pub updated_hit :
    (x r : Field) (ns : List Field)
    → r.id ≡ x.id
    → All (Only x) ns
    → Any (λ n. n ≡ x) ns
    → updated ns r ≡ x
updated_hit x r [] e h k = absurd k
updated_hit x r (n ∷ ns) e h k = elim (Bool-cases (r.id == n.id)) [
  | inl hit ↦
      let only = h.0 (ap (λ i. i == n.id) (sym e) ∙ hit) in
      rw hit (ap (updated ns) only ∙ updated_same x ns h.1)
  | inr miss ↦ rw miss (updated_hit x r ns e h.1 (behind miss k))
]
  where
    behind : (r.id == n.id) ≡ false → Any (λ m. m ≡ x) (n ∷ ns) → Any (λ m. m ≡ x) ns
    behind miss (inr later) = later
    behind miss (inl one) =
        let same : r.id ≡ n.id = e ∙ ap (λ (y : Field). y.id) (sym one) in
        absurd (cc (miss, (==_iff r.id n.id).1 same))

pub updated_other :
    (r : Field) (ns : List Field) → All (λ n. (r.id == n.id) ≡ false) ns → updated ns r ≡ r
updated_other r [] h = refl
updated_other r (n ∷ ns) h = rw h.0 (updated_other r ns h.1)
