-- ===== src/Base/Sorting.antt =====
-- About sorting and what holds of all elements, or of some.
use mathlib.Core.Path.{◌≡◌, refl}
use mathlib.Core.Logic.{inl, inr}
use mathlib.Core.Bool.{Bool, ◌||◌}
use mathlib.Core.List.{List, [], ◌∷◌}
use native.Mathlib.Omega.{arith}
use hanyangchem_qc_v.Base.Tests.{Bool-cases}
use hanyangchem_qc_v.Base.Lists.{any, All, Any, insert_by, sort_by}

module _ {ℓ} {A : Type ℓ} (before : A → A → Bool) where
  insert_by-All :
      (P : A → Type 0) (x : A) (ys : List A) → P x → All P ys → All P (insert_by before x ys)
  unfolding insert_by
  insert_by-All P x [] p ps = (p, tt)
  insert_by-All P x (y ∷ ys) p ps = elim (Bool-cases (before y x)) [
    | inl above ↦ rw above (ps.0, insert_by-All P x ys p ps.1)
    | inr below ↦ rw below (p, ps)
  ]

  pub sort_by-All : (P : A → Type 0) (xs : List A) → All P xs → All P (sort_by before xs)
  unfolding sort_by
  sort_by-All P [] ps = tt
  sort_by-All P (x ∷ xs) ps = insert_by-All P x (sort_by before xs) ps.0 (sort_by-All P xs ps.1)

  any-insert_by :
      (p : A → Bool) (x : A) (ys : List A) → any p (insert_by before x ys) ≡ (p x || any p ys)
  unfolding insert_by
  any-insert_by p x [] = refl
  any-insert_by p x (y ∷ ys) = ground (arith, any-insert_by p x ys)

  pub any-sort_by : (p : A → Bool) (xs : List A) → any p (sort_by before xs) ≡ any p xs
  unfolding sort_by
  any-sort_by p [] = refl
  any-sort_by p (x ∷ xs) = ground (arith, any-insert_by p x (sort_by before xs), any-sort_by p xs)

  insert_by-head : (P : A → Type 0) (x : A) (ys : List A) → P x → Any P (insert_by before x ys)
  unfolding insert_by
  insert_by-head P x [] p = inl p
  insert_by-head P x (y ∷ ys) p = elim (Bool-cases (before y x)) [
    | inl above ↦ rw above (inr (insert_by-head P x ys p))
    | inr below ↦ rw below (inl p)
  ]

  insert_by-Any : (P : A → Type 0) (x : A) (ys : List A) → Any P ys → Any P (insert_by before x ys)
  unfolding insert_by
  insert_by-Any P x [] h = absurd h
  insert_by-Any P x (y ∷ ys) h = elim (Bool-cases (before y x)) [
    | inr below ↦ rw below (inr h)
    | inl above ↦ rw above (elim h [ inl p ↦ inl p | inr later ↦ inr (insert_by-Any P x ys later) ])
  ]

  pub sort_by-Any : (P : A → Type 0) (xs : List A) → Any P xs → Any P (sort_by before xs)
  unfolding sort_by
  sort_by-Any P [] h = absurd h
  sort_by-Any P (x ∷ xs) (inl p) = insert_by-head P x (sort_by before xs) p
  sort_by-Any P (x ∷ xs) (inr h) = insert_by-Any P x (sort_by before xs) (sort_by-Any P xs h)
