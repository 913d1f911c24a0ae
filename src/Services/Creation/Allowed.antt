-- ===== src/Services/Creation/Allowed.antt =====
-- About the codes that a review and an inspection of p3.py allow.
use hanyangchem_qc_v.Base.{
  ℕ, ◌≡◌, refl, sym, ap, ◌∙◌, subst, inl, inr, Bool, true, Option, none, some, some-injective, List,
  [], ◌∷◌, find?, find?-true, filter, any, All, Any, All-map, All-self, Bool-cases, Option-cases,
  ==_iff, ◌==◌, arith,
}
use hanyangchem_qc_v.Base.Text.{codes, text_eq, text_eq_sound, text_eq_refl}
use hanyangchem_qc_v.Snapshots.{Text}
use hanyangchem_qc_v.Store.{SpecItem, StandardTestItem, Store}
use hanyangchem_qc_v.Services.Judging.{standard_row}
use hanyangchem_qc_v.Services.Payload.{holds}
use hanyangchem_qc_v.Services.Review.Mapping.{codes_of, spec_rows, spec_codes}
use hanyangchem_qc_v.Services.Creation.Rows.{standards_of, standard_codes}

-- The codes that a review allows are those that an inspection allows.
holds-standard_codes :
    (p : StandardTestItem → Bool) (n : ℕ) (rows : List StandardTestItem) {s : StandardTestItem}
    → find? (λ (x : StandardTestItem). x.id == n) rows ≡ some s
    → p s ≡ true
    → holds (standard_codes (filter p rows)) (codes s.code) ≡ true
holds-standard_codes p n [] h k = absurd (cc h)
holds-standard_codes p n (r ∷ rows) {s = s} h k = elim (Bool-cases (r.id == n)) [
  | inl hit ↦
      let same = some-injective r s (rw hit at h) in
      let kept : p r ≡ true = ap p same ∙ k in
      let heads : text_eq (codes s.code) (codes r.code) ≡ true =
        ap (λ (x : StandardTestItem). text_eq (codes s.code) (codes x.code)) same
        ∙ text_eq_refl (codes s.code) in
      rw kept (rw heads refl)
  | inr miss ↦ elim (Bool-cases (p r)) [
    | inl kept ↦
        let later = holds-standard_codes p n rows (rw miss at h) k in
        rw kept (ground (arith, later))
    | inr dropped ↦ rw dropped (holds-standard_codes p n rows (rw miss at h) k)
  ]
]

codes_of-standard_codes :
    (store : Store) (p : StandardTestItem → Bool) (xs : List SpecItem) (t : Text)
    → All
        (λ (i : SpecItem). (s : StandardTestItem) → s.id ≡ i.standard_test_item_id → p s ≡ true)
        xs
    → holds (codes_of store xs) t ≡ true
    → holds (standard_codes (filter p store.standards)) t ≡ true
codes_of-standard_codes store p [] t each h = absurd (cc h)
codes_of-standard_codes store p (i ∷ xs) t each h =
    elim (Option-cases (standard_row store i.standard_test_item_id)) [
      | inl missing ↦
          codes_of-standard_codes store p xs t each.1 (subst (λ o. listed o ≡ true) missing h)
      | inr (s, found) ↦ elim (Bool-cases (text_eq t (codes s.code))) [
        | inr miss ↦
            codes_of-standard_codes store p xs t each.1
              (rw miss at (subst (λ o. listed o ≡ true) found h))
        | inl hit ↦
            let is_id =
              find?-true (λ (x : StandardTestItem). x.id == i.standard_test_item_id) store.standards
                found in
            let kept = each.0 s ((==_iff s.id i.standard_test_item_id).0 is_id) in
            ap (holds (standard_codes (filter p store.standards)))
              (text_eq_sound t (codes s.code) hit)
            ∙ holds-standard_codes p i.standard_test_item_id store.standards found kept
      ]
    ]
  where
    listed : Option StandardTestItem → Bool
    listed o =
        holds (elim o [ none ↦ codes_of store xs | some s ↦ codes s.code ∷ codes_of store xs ]) t

pub spec_codes-standard_codes :
    (store : Store) (version : ℕ) (t : Text)
    → holds (spec_codes store version) t ≡ true
    → holds (standard_codes (standards_of store (spec_rows store version))) t ≡ true
spec_codes-standard_codes store version t h =
    codes_of-standard_codes store
      (λ (s : StandardTestItem).
        any (λ (i : SpecItem). i.standard_test_item_id == s.id) (spec_rows store version))
      (spec_rows store version) t
      (All-map _ _ (spec_rows store version)
        (λ i there s e.
          Any-any (λ (x : SpecItem). x.standard_test_item_id == s.id) i (spec_rows store version)
            there ((==_iff i.standard_test_item_id s.id).1 (sym e)))
        (All-self (spec_rows store version)))
      h
  where
    Any-any :
        (p : SpecItem → Bool) (i : SpecItem) (xs : List SpecItem)
        → Any (λ x. x ≡ i) xs
        → p i ≡ true
        → any p xs ≡ true
    Any-any p i [] h k = absurd h
    Any-any p i (x ∷ xs) (inl e) k = let hit : p x ≡ true = ap p e ∙ k in rw hit refl
    Any-any p i (x ∷ xs) (inr h) k = let later = Any-any p i xs h k in ground (arith, later)
