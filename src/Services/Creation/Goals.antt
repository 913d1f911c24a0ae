-- ===== src/Services/Creation/Goals.antt =====
-- About the codes that the fields of a review of p3.py are mapped to.
use hanyangchem_qc_v.Base.{
  ◌≡◌, refl, sym, ap, ◌∙◌, subst, inl, inr, Bool, true, false, Option, none, some, some-injective,
  List, [], ◌∷◌, find?-true, find?-Any, All, Any, Bool-cases, String, str_eq, eq_iff, bind-ok,
  ok-injective, if◌then◌else◌, ok, err, arith,
}
use hanyangchem_qc_v.Base.Text.{codes, text_eq, text_eq_sound, text_eq_refl}
use hanyangchem_qc_v.Snapshots.{Text}
use hanyangchem_qc_v.Store.{ExtractionFieldReview}
use hanyangchem_qc_v.Services.{missing_row}
use hanyangchem_qc_v.Services.Selection.{or_fail}
use hanyangchem_qc_v.Services.Payload.{holds, distinct}
use hanyangchem_qc_v.Services.Payload.Items.{distinct-head}
use hanyangchem_qc_v.Services.Review.{ReviewRequest, keys_of, input_of, with_inputs}
use hanyangchem_qc_v.Services.Review.Mapping.{FieldReviewInput}
use hanyangchem_qc_v.Services.Review.Writes.{Reviewed, is_mapped, mapped_codes}
use hanyangchem_qc_v.Services.Review.Checked.{or_fail-ok}
use hanyangchem_qc_v.Services.Creation.Summary.{rows_of}
use hanyangchem_qc_v.Services.Creation.Targets.{Fits, goal_of, codes_with, targets, maps, owner}

-- The inputs of the fields: each is among those that were submitted, under the field's key.
pub Own : ReviewRequest → Reviewed → Type 0
Own q r = Any (λ x. x ≡ r.1) q.fields × (codes r.1.field_key ≡ codes r.0.field_key)

pub with_inputs-Own :
    (q : ReviewRequest) (fs : List ExtractionFieldReview) {rs : List Reviewed}
    → with_inputs q fs ≡ ok rs
    → (rows_of rs ≡ fs) × All (Own q) rs
unfolding Own
with_inputs-Own q [] {rs = rs} h =
    subst (λ xs. (rows_of xs ≡ []) × All (Own q) xs) (ok-injective [] rs h) (refl, tt)
with_inputs-Own q (f ∷ fs) {rs = rs} h =
    let (i, found, h1) = bind-ok (or_fail (input_of q f) (err missing_row)) _ h in
    let (others, rest, h2) = bind-ok (with_inputs q fs) _ h1 in
    let (same, own) = with_inputs-Own q fs rest in
    let there = or_fail-ok (input_of q f) missing_row found in
    let p : FieldReviewInput → Bool = λ x. str_eq x.field_key f.field_key in
    let key = (eq_iff i.field_key f.field_key).0 (find?-true p q.fields there) in
    subst (λ xs. (rows_of xs ≡ f ∷ fs) × All (Own q) xs) (ok-injective ((f, i) ∷ others) rs h2)
      (ap (λ xs. f ∷ xs) same, ((find?-Any p (λ x. x ≡ i) q.fields there refl, ap codes key), own))

-- The codes that fields are mapped to.
goals : List Reviewed → List Text
goals [] = []
goals (r ∷ rs) = codes_with (goal_of r.1) (goals rs)

mapped_codes-goals : (rs : List Reviewed) → mapped_codes true rs ≡ goals rs
unfolding goals
mapped_codes-goals [] = refl
mapped_codes-goals (r ∷ rs) =
    ap (codes_or (is_mapped r.1.mapping_disposition) r.1.mapped_field_key) (mapped_codes-goals rs)
    ∙ by_case (is_mapped r.1.mapping_disposition) r.1.mapped_field_key (goals rs)
  where
    codes_or : Bool → Option String → List Text → List Text
    codes_or b t rest = if b then elim t [ none ↦ rest | some s ↦ codes s ∷ rest ] else rest

    by_case :
        (b : Bool) (t : Option String) (rest : List Text)
        → (if b then elim t [ none ↦ rest | some s ↦ codes s ∷ rest ] else rest)
          ≡ codes_with (if b then t else none) rest
    by_case true (some s) rest = refl
    by_case true none rest = refl
    by_case false t rest = refl

-- A field that is mapped to the code, if it is among the goals.
mapped_field :
    (q : ReviewRequest) (t : Text) (rs : List Reviewed)
    → All (Own q) rs
    → holds (goals rs) t ≡ true
    → (r : Reviewed) × Own q r
      × (maps t r.1 ≡ true)
      × (holds (keys_of (rows_of rs)) (codes r.0.field_key) ≡ true)
unfolding goals
mapped_field q t [] own h = absurd (cc h)
mapped_field q t (r ∷ rs) own h = elim (Bool-cases (maps t r.1)) [
  | inl hit ↦ (r, own.0, hit, rw (text_eq_refl (codes r.0.field_key)) refl)
  | inr miss ↦
      let (x, is_own, is_mapped, there) = mapped_field q t rs own.1 (later (goal_of r.1) miss h) in
      (x, is_own, is_mapped, ground (arith, there))
]
  where
    later :
        (o : Option String)
        → (elim o [ none ↦ false | some s ↦ text_eq (codes s) t ]) ≡ false
        → holds (codes_with o (goals rs)) t ≡ true
        → holds (goals rs) t ≡ true
    later none miss h = h
    later (some s) miss h = elim (Bool-cases (text_eq t (codes s))) [
      | inr other ↦ rw other at h
      | inl hit ↦ absurd (
          cc
            (miss, ap (text_eq (codes s)) (text_eq_sound t (codes s) hit) ∙ text_eq_refl (codes s)))
    ]

goals-distinct :
    (q : ReviewRequest) (rs : List Reviewed)
    → All (Own q) rs
    → distinct (keys_of (rows_of rs)) ≡ true
    → distinct (targets q.fields) ≡ true
    → distinct (goals rs) ≡ true
unfolding goals Own
goals-distinct q [] own keys apart = refl
goals-distinct q (r ∷ rs) own keys apart =
    let (fresh, rest) = distinct-head (codes r.0.field_key) (keys_of (rows_of rs)) keys in
    by_goal (goal_of r.1) refl fresh (goals-distinct q rs own.1 rest apart)
  where
    clash :
        (s : String)
        → goal_of r.1 ≡ some s
        → holds (keys_of (rows_of rs)) (codes r.0.field_key) ≡ false
        → holds (goals rs) (codes s) ≡ true
        → ⊥
    clash s goal fresh h =
        let (x, is_own, is_mapped, there) = mapped_field q (codes s) rs own.1 h in
        let mine : maps (codes s) r.1 ≡ true =
          ap (λ (o : Option String). elim o [ none ↦ false | some u ↦ text_eq (codes u) (codes s) ])
            goal
          ∙ text_eq_refl (codes s) in
        let one : r.1 ≡ x.1 = some-injective r.1 x.1 (
          sym (owner (codes s) r.1 q.fields apart own.0.0 mine)
          ∙ owner (codes s) x.1 q.fields apart is_own.0 is_mapped) in
        let key : codes x.0.field_key ≡ codes r.0.field_key =
          sym is_own.1 ∙ ap (λ (i : FieldReviewInput). codes i.field_key) (sym one) ∙ own.0.1 in
        cc (fresh, ap (holds (keys_of (rows_of rs))) (sym key) ∙ there)

    by_goal :
        (o : Option String)
        → goal_of r.1 ≡ o
        → holds (keys_of (rows_of rs)) (codes r.0.field_key) ≡ false
        → distinct (goals rs) ≡ true
        → distinct (codes_with o (goals rs)) ≡ true
    by_goal none goal fresh rest = rest
    by_goal (some s) goal fresh rest = elim (Bool-cases (holds (goals rs) (codes s))) [
      | inl twice ↦ absurd (clash s goal fresh twice)
      | inr once ↦ rw once rest
    ]

pub mapped_codes-distinct :
    (q : ReviewRequest) (rs : List Reviewed)
    → All (Own q) rs
    → distinct (keys_of (rows_of rs)) ≡ true
    → distinct (targets q.fields) ≡ true
    → distinct (mapped_codes true rs) ≡ true
mapped_codes-distinct q rs own keys apart =
    ap distinct (mapped_codes-goals rs) ∙ goals-distinct q rs own keys apart

-- What every submitted input satisfies, the input of a field does.
pub Own-Fits :
    (allowed : List Text) (q : ReviewRequest) (r : Reviewed)
    → All (Fits allowed) q.fields
    → Own q r
    → Fits allowed r.1
unfolding Own
Own-Fits allowed q r fits own = pick q.fields fits own.0
  where
    pick :
        (xs : List FieldReviewInput)
        → All (Fits allowed) xs
        → Any (λ x. x ≡ r.1) xs
        → Fits allowed r.1
    pick [] h k = absurd k
    pick (x ∷ xs) h (inl e) = subst (Fits allowed) e h.0
    pick (x ∷ xs) h (inr k) = pick xs h.1 k
