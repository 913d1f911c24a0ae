-- ===== src/Base/Lists.antt =====
-- Lists under the native numbers, and predicates on their elements.
use Prim.Native.Nat.{ℕ, suc, ◌+◌}
use mathlib.Core.Path.{◌≡◌, refl, sym, subst}
use mathlib.Core.Logic.{◌⊎◌, inl, inr}
use mathlib.Core.Bool.{Bool, true, false, ◌&&◌, ◌||◌}
use mathlib.Core.Option.{Option, none, some, some-injective}
use mathlib.Core.List.{List, [], ◌∷◌, ◌++◌}
use native.Mathlib.Omega.{arith}
use hanyangchem_qc_v.Base.Tests.{if◌then◌else◌, Bool-cases}

module _ {ℓ} {A : Type ℓ} where
  abbrev pub length : List A → ℕ
  length [] = 0
  length (x ∷ xs) = suc (length xs)

  -- `any(test(x) for x in xs)`.
  abbrev pub any : (A → Bool) → List A → Bool
  any p [] = false
  any p (x ∷ xs) = p x || any p xs

  abbrev pub all : (A → Bool) → List A → Bool
  all p [] = true
  all p (x ∷ xs) = p x && all p xs

  -- `[x for x in xs if test(x)]`.
  abbrev pub filter : (A → Bool) → List A → List A
  filter p [] = []
  filter p (x ∷ xs) = let rest = filter p xs in if p x then x ∷ rest else rest

  abbrev pub is_empty : List A → Bool
  is_empty [] = true
  is_empty (x ∷ xs) = false

  -- The first element that passes the test.
  abbrev pub find? : (A → Bool) → List A → Option A
  find? p [] = none
  find? p (x ∷ xs) = let rest = find? p xs in if p x then some x else rest

  -- Stable sorting by insertion: an element stands behind those that `before` puts before it.
  unfoldable pub insert_by : (A → A → Bool) → A → List A → List A
  insert_by before x [] = x ∷ []
  insert_by before x (y ∷ ys) =
      let rest = insert_by before x ys in if before y x then y ∷ rest else x ∷ y ∷ ys

  unfoldable pub sort_by : (A → A → Bool) → List A → List A
  unfolding insert_by
  sort_by before [] = []
  sort_by before (x ∷ xs) = insert_by before x (sort_by before xs)

  -- `xs or ys`.
  abbrev pub or_list : List A → List A → List A
  or_list [] ys = ys
  or_list (x ∷ xs) ys = x ∷ xs

  pub length-append : (xs ys : List A) → length (xs ++ ys) ≡ length xs + length ys
  length-append [] ys = omega arith
  length-append (x ∷ xs) ys = omega (arith, length-append xs ys)

-- Every element satisfies `P`; some element does.
abbrev pub All {ℓ κ} : {A : Type ℓ} → (A → Type κ) → List A → Type κ
All P [] = Unit
All P (x ∷ xs) = P x × All P xs

abbrev pub Any {ℓ} : {A : Type ℓ} → (A → Type 0) → List A → Type 0
Any P [] = ⊥
Any P (x ∷ xs) = P x ⊎ Any P xs

module _ {ℓ} {A : Type ℓ} where
  pub find?_sound :
      (p : A → Bool) (Q : A → Type 0) (xs : List A) {y : A}
      → find? p xs ≡ some y
      → All Q xs
      → (p y ≡ true) × Q y
  find?_sound p Q [] e qs = cc
  find?_sound p Q (x ∷ xs) {y = y} e qs = elim (Bool-cases (p x)) [
    | inl hit ↦ subst (λ z. (p z ≡ true) × Q z) (some-injective _ _ (rw hit at e)) (hit, qs.0)
    | inr miss ↦ find?_sound p Q xs (rw miss at e) qs.1
  ]

  pub find?-true : (p : A → Bool) (xs : List A) {y : A} → find? p xs ≡ some y → p y ≡ true
  find?-true p xs e = (find?_sound p (λ _. Unit {0}) xs e (All-trivial xs)).0
    where
      All-trivial : (xs : List A) → All (λ _. Unit {0}) xs
      All-trivial [] = tt
      All-trivial (x ∷ xs) = (tt, All-trivial xs)

  pub find?-none : (p : A → Bool) (xs : List A) → find? p xs ≡ none → All (λ x. p x ≡ false) xs
  find?-none p [] e = tt
  find?-none p (x ∷ xs) e = elim (Bool-cases (p x)) [
    | inl hit ↦ absurd (cc (rw hit at e))
    | inr miss ↦ (miss, find?-none p xs (rw miss at e))
  ]

  pub filter-All :
      (p : A → Bool) (Q : A → Type 0) (xs : List A)
      → All Q xs
      → All (λ x. (p x ≡ true) × Q x) (filter p xs)
  filter-All p Q [] qs = tt
  filter-All p Q (x ∷ xs) qs = elim (Bool-cases (p x)) [
    | inl hit ↦ rw hit ((hit, qs.0), filter-All p Q xs qs.1)
    | inr miss ↦ rw miss (filter-All p Q xs qs.1)
  ]

  pub all-All : (p : A → Bool) (xs : List A) → all p xs ≡ true → All (λ x. p x ≡ true) xs
  all-All p [] e = tt
  all-All p (x ∷ xs) e = elim (Bool-cases (p x)) [
    | inl hit ↦ (hit, all-All p xs (rw hit at e))
    | inr miss ↦ absurd (cc (rw miss at e))
  ]

  pub All-all : (p : A → Bool) (xs : List A) → All (λ x. p x ≡ true) xs → all p xs ≡ true
  All-all p [] e = refl
  All-all p (x ∷ xs) e = rw e.0 (All-all p xs e.1)

  pub any-false : (p : A → Bool) (xs : List A) → any p xs ≡ false → All (λ x. p x ≡ false) xs
  any-false p [] e = tt
  any-false p (x ∷ xs) e = elim (Bool-cases (p x)) [
    | inl hit ↦ absurd (cc (rw hit at e))
    | inr miss ↦ (miss, any-false p xs (rw miss at e))
  ]

  pub any-true : (p : A → Bool) (xs : List A) → any p xs ≡ true → Any (λ x. p x ≡ true) xs
  any-true p [] e = absurd (cc e)
  any-true p (x ∷ xs) e = elim (Bool-cases (p x)) [
    | inl hit ↦ inl hit
    | inr miss ↦ inr (any-true p xs (rw miss at e))
  ]

  pub All-map : (P Q : A → Type 0) (xs : List A) → ((x : A) → P x → Q x) → All P xs → All Q xs
  All-map P Q [] f h = tt
  All-map P Q (x ∷ xs) f h = (f x h.0, All-map P Q xs f h.1)

  pub Any-map : (P Q : A → Type 0) (xs : List A) → ((x : A) → P x → Q x) → Any P xs → Any Q xs
  Any-map P Q [] f h = h
  Any-map P Q (x ∷ xs) f (inl h) = inl (f x h)
  Any-map P Q (x ∷ xs) f (inr h) = inr (Any-map P Q xs f h)

  -- An element that satisfies `P`, with what is known of all.
  pub Any-pick : (P Q : A → Type 0) (xs : List A) → Any P xs → All Q xs → (x : A) × P x × Q x
  Any-pick P Q [] h qs = absurd h
  Any-pick P Q (x ∷ xs) (inl h) qs = (x, h, qs.0)
  Any-pick P Q (x ∷ xs) (inr h) qs = Any-pick P Q xs h qs.1

  -- What the found element satisfies, some element satisfies.
  pub find?-Any :
      (p : A → Bool) (Q : A → Type 0) (xs : List A) {y : A} → find? p xs ≡ some y → Q y → Any Q xs
  find?-Any p Q [] e q = absurd (cc e)
  find?-Any p Q (x ∷ xs) e q = elim (Bool-cases (p x)) [
    | inl hit ↦ inl (subst Q (sym (some-injective _ _ (rw hit at e))) q)
    | inr miss ↦ inr (find?-Any p Q xs (rw miss at e) q)
  ]

  pub All-filter :
      (p : A → Bool) (P : A → Type 0) (xs : List A)
      → All P (filter p xs)
      → All (λ x. p x ≡ true → P x) xs
  All-filter p P [] h = tt
  All-filter p P (x ∷ xs) h = elim (Bool-cases (p x)) [
    | inl hit ↦ let qs = rw hit at h in ((λ _. qs.0), All-filter p P xs qs.1)
    | inr miss ↦ ((λ e. absurd (cc (miss, e))), All-filter p P xs (rw miss at h))
  ]

  pub filter-none : (p : A → Bool) (xs : List A) → All (λ x. p x ≡ false) xs → filter p xs ≡ []
  filter-none p [] h = refl
  filter-none p (x ∷ xs) h = rw h.0 (filter-none p xs h.1)

-- Every element of a list is one of its elements.
pub All-self : {A : Type 0} (xs : List A) → All (λ x. Any (λ y. y ≡ x) xs) xs
All-self [] = tt
All-self (x ∷ xs) = (inl refl, All-map (λ z. Any (λ y. y ≡ z) xs) _ xs (λ z h. inr h) (All-self xs))
