-- ===== src/Services/Payload/Keys.antt =====
-- About rows whose keys differ (p3.py): what a unique column says of the rows.
use hanyangchem_qc_v.Base.{
  ◌≡◌, refl, sym, ap, ◌∙◌, inl, inr, Bool, true, List, [], ◌∷◌, map, filter, Any, Bool-cases, arith,
}
use hanyangchem_qc_v.Base.Text.{text_eq, text_eq_refl}
use hanyangchem_qc_v.Snapshots.{Text}
use hanyangchem_qc_v.Services.Payload.{holds, distinct}
use hanyangchem_qc_v.Services.Payload.Items.{distinct-head}

module _ {A : Type 0} (key : A → Text) where
  holds-key : (x : A) (xs : List A) → Any (λ y. y ≡ x) xs → holds (map key xs) (key x) ≡ true
  holds-key x [] h = absurd h
  holds-key x (y ∷ ys) (inl e) =
      let hit : text_eq (key x) (key y) ≡ true =
        ap (λ z. text_eq (key x) (key z)) e ∙ text_eq_refl (key x) in
      rw hit refl
  holds-key x (y ∷ ys) (inr h) = let later = holds-key x ys h in ground (arith, later)

  -- Two rows with one key are one.
  pub distinct-same :
      (xs : List A) (a b : A)
      → distinct (map key xs) ≡ true
      → Any (λ x. x ≡ a) xs
      → Any (λ x. x ≡ b) xs
      → key a ≡ key b
      → a ≡ b
  distinct-same [] a b d ha hb e = absurd ha
  distinct-same (x ∷ xs) a b d (inl ea) (inl eb) e = sym ea ∙ eb
  distinct-same (x ∷ xs) a b d (inl ea) (inr hb) e =
      let fresh = (distinct-head (key x) (map key xs) d).0 in
      absurd (cc (fresh, ap (holds (map key xs)) (ap key ea ∙ e) ∙ holds-key b xs hb))
  distinct-same (x ∷ xs) a b d (inr ha) (inl eb) e =
      let fresh = (distinct-head (key x) (map key xs) d).0 in
      absurd (cc (fresh, ap (holds (map key xs)) (ap key eb ∙ sym e) ∙ holds-key a xs ha))
  distinct-same (x ∷ xs) a b d (inr ha) (inr hb) e =
      distinct-same xs a b (distinct-head (key x) (map key xs) d).1 ha hb e

  holds-filter :
      (p : A → Bool) (xs : List A) (t : Text)
      → holds (map key (filter p xs)) t ≡ true
      → holds (map key xs) t ≡ true
  holds-filter p [] t h = h
  holds-filter p (x ∷ xs) t h = elim (Bool-cases (text_eq t (key x))) [
    | inl hit ↦ rw hit refl
    | inr miss ↦ rw miss (elim (Bool-cases (p x)) [
      | inl kept ↦ holds-filter p xs t (rw miss at (rw kept at h))
      | inr dropped ↦ holds-filter p xs t (rw dropped at h)
    ])
  ]

  pub distinct-filter :
      (p : A → Bool) (xs : List A)
      → distinct (map key xs) ≡ true
      → distinct (map key (filter p xs)) ≡ true
  distinct-filter p [] d = refl
  distinct-filter p (x ∷ xs) d =
      let (fresh, rest) = distinct-head (key x) (map key xs) d in
      let later = distinct-filter p xs rest in
      elim (Bool-cases (p x)) [
        | inr dropped ↦ rw dropped later
        | inl kept ↦ rw kept (elim (Bool-cases (holds (map key (filter p xs)) (key x))) [
          | inr once ↦ rw once later
          | inl twice ↦ absurd (cc (fresh, holds-filter p xs (key x) twice))
        ])
      ]
