-- ===== src/Services/Creation/Targets.antt =====
-- About the checks of a review of p3.py: each of its inputs has passed them, and no two fields are
-- mapped to one code.
use hanyangchem_qc_v.Base.{
  ◌≡◌, refl, sym, ap, ◌∙◌, subst, inl, inr, Bool, true, false, not, Option, none, some, List, [],
  ◌∷◌, ◌++◌, find?, All, Any, Bool-cases, String, bind-ok, raise_if-ok, ok-injective, ok, err,
  arith, if◌then◌else◌,
}
use hanyangchem_qc_v.Base.Text.{codes, text_eq, text_eq_sound, text_eq_refl}
use hanyangchem_qc_v.Snapshots.{Text}
use hanyangchem_qc_v.Store.{ExtractionFieldReview, get_row}
use hanyangchem_qc_v.Approval.Rows.{uuid_text}
use hanyangchem_qc_v.Services.{missing_row, stale_source_ids}
use hanyangchem_qc_v.Services.Selection.{or_fail}
use hanyangchem_qc_v.Services.Payload.{
  holds, distinct, is_text, get_item, as_text, Metadata, metadata_of,
}
use hanyangchem_qc_v.Services.Payload.Items.{distinct-head}
use hanyangchem_qc_v.Services.Review.{check_mappings}
use hanyangchem_qc_v.Services.Review.Mapping.{FieldReviewInput, check_mapping}
use hanyangchem_qc_v.Services.Review.Writes.{is_mapped}
use hanyangchem_qc_v.Services.Creation.Reading.{Fate, mapped_code-Fate}

-- The input has passed the check of its mapping.
abbrev pub Fits : List Text → FieldReviewInput → Type 0
Fits allowed i =
    (cs : List Text) × Fate allowed i.mapping_disposition i.mapped_field_key i.final_text cs

check_mapping-Fate :
    (fields : List ExtractionFieldReview) (metadata : Metadata) (allowed : List Text)
    (i : FieldReviewInput) {cs : List Text}
    → check_mapping fields metadata allowed i ≡ ok cs
    → Fate allowed i.mapping_disposition i.mapped_field_key i.final_text cs
unfolding check_mapping
check_mapping-Fate fields metadata allowed i h =
    let (n, _, h1) = bind-ok (or_fail i.field_id (err stale_source_ids)) _ h in
    let (field, _, h2) =
      bind-ok
        (or_fail (get_row (λ (f : ExtractionFieldReview). f.id) n fields) (err stale_source_ids)) _
        h1 in
    let (source, _, h3) =
      bind-ok (or_fail (metadata_of (uuid_text field.id) metadata) (err missing_row)) _ h2 in
    let (_, h4) =
      raise_if-ok
        (not (is_text (as_text (get_item (codes "source_field_key") source)) (codes i.field_key)))
        stale_source_ids _ h3 in
    mapped_code-Fate allowed i.mapping_disposition i.mapped_field_key i.final_text h4

-- The codes that inputs are mapped to.
abbrev pub goal_of : FieldReviewInput → Option String
goal_of i = if is_mapped i.mapping_disposition then i.mapped_field_key else none

abbrev pub codes_with : Option String → List Text → List Text
codes_with none rest = rest
codes_with (some t) rest = codes t ∷ rest

abbrev pub targets : List FieldReviewInput → List Text
targets [] = []
targets (i ∷ is) = codes_with (goal_of i) (targets is)

Fate-codes :
    (allowed : List Text) (i : FieldReviewInput) (cs rest : List Text)
    → Fate allowed i.mapping_disposition i.mapped_field_key i.final_text cs
    → cs ++ rest ≡ codes_with (goal_of i) rest
Fate-codes allowed i cs rest (inl (d, t, none_left)) = rw (d, none_left) refl
Fate-codes allowed i cs rest (inr (code, v, d, t, _, _, one_left)) = rw (d, t, one_left) refl

pub check_mappings-Fits :
    (fields : List ExtractionFieldReview) (metadata : Metadata) (allowed : List Text)
    (is : List FieldReviewInput) {cs : List Text}
    → check_mappings fields metadata allowed is ≡ ok cs
    → All (Fits allowed) is × (cs ≡ targets is)
unfolding check_mappings
check_mappings-Fits fields metadata allowed [] {cs = cs} h = (tt, sym (ok-injective [] cs h))
check_mappings-Fits fields metadata allowed (i ∷ is) {cs = cs} h =
    let (first, checked, h1) = bind-ok (check_mapping fields metadata allowed i) _ h in
    let (others, rest, h2) = bind-ok (check_mappings fields metadata allowed is) _ h1 in
    let fate = check_mapping-Fate fields metadata allowed i checked in
    let (fits, are) = check_mappings-Fits fields metadata allowed is rest in
    (
      ((first, fate), fits),
      sym (ok-injective (first ++ others) cs h2)
          ∙ ap (λ x. first ++ x) are
          ∙ Fate-codes allowed i first (targets is) fate,
    )

-- Whether an input is mapped to the code.
abbrev pub maps : Text → FieldReviewInput → Bool
maps t i = elim (goal_of i) [ none ↦ false | some s ↦ text_eq (codes s) t ]

pub Maps-code :
    (t : Text) (i : FieldReviewInput)
    → maps t i ≡ true
    → (s : String) × (goal_of i ≡ some s) × (codes s ≡ t)
Maps-code t i h = by_goal (goal_of i) h
  where
    by_goal :
        (o : Option String)
        → (elim o [ none ↦ false | some s ↦ text_eq (codes s) t ]) ≡ true
        → (s : String) × (o ≡ some s) × (codes s ≡ t)
    by_goal none h = absurd (cc h)
    by_goal (some s) h = (s, refl, text_eq_sound (codes s) t h)

holds-with :
    (o : Option String) (t : Text) (rest : List Text)
    → holds rest t ≡ true
    → holds (codes_with o rest) t ≡ true
holds-with none t rest h = h
holds-with (some s) t rest h = ground (arith, h)

in_targets :
    (t : Text) (a : FieldReviewInput) (xs : List FieldReviewInput)
    → Any (λ x. x ≡ a) xs
    → maps t a ≡ true
    → holds (targets xs) t ≡ true
in_targets t a [] h m = absurd h
in_targets t a (x ∷ xs) (inl e) m =
    let (s, goal, is_t) = Maps-code t a m in
    let hit : text_eq t (codes s) ≡ true = ap (text_eq t) is_t ∙ text_eq_refl t in
    ap (λ o. holds (codes_with o (targets xs)) t) (ap goal_of e ∙ goal) ∙ rw hit refl
in_targets t a (x ∷ xs) (inr h) m = holds-with (goal_of x) t (targets xs) (in_targets t a xs h m)

pub distinct-with :
    (o : Option String) (rest : List Text)
    → distinct (codes_with o rest) ≡ true
    → distinct rest ≡ true
distinct-with none rest h = h
distinct-with (some s) rest h = (distinct-head (codes s) rest h).1

-- Among inputs with different targets, the one that is mapped to a code is the first that is.
pub owner :
    (t : Text) (a : FieldReviewInput) (xs : List FieldReviewInput)
    → distinct (targets xs) ≡ true
    → Any (λ x. x ≡ a) xs
    → maps t a ≡ true
    → find? (maps t) xs ≡ some a
owner t a [] d h m = absurd h
owner t a (x ∷ xs) d h m = elim (Bool-cases (maps t x)) [
  | inr miss ↦ rw miss (owner t a xs (distinct-with (goal_of x) (targets xs) d) (behind miss h) m)
  | inl hit ↦ rw hit (ap some (is_first hit h))
]
  where
    behind : maps t x ≡ false → Any (λ y. y ≡ a) (x ∷ xs) → Any (λ y. y ≡ a) xs
    behind miss (inl e) = absurd (cc (sym miss ∙ ap (maps t) e ∙ m))
    behind miss (inr later) = later

    is_first : maps t x ≡ true → Any (λ y. y ≡ a) (x ∷ xs) → x ≡ a
    is_first hit (inl e) = e
    is_first hit (inr later) =
        let (s, goal, is_t) = Maps-code t x hit in
        let apart = subst (λ o. distinct (codes_with o (targets xs)) ≡ true) goal d in
        let fresh = (distinct-head (codes s) (targets xs) apart).0 in
        absurd (cc (fresh, ap (holds (targets xs)) is_t ∙ in_targets t a xs later m))
