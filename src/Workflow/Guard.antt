-- ===== src/Workflow/Guard.antt =====
-- About the two guards of workflow.py and their tables.
use hanyangchem_qc_v.Base.{
  ◌≡◌, refl, ◌↔◌, Bool, true, false, Option, some, List, String, eq_iff, arith, ok, Any, find?-Any,
  find?-true, Any-map, Any-pick, find?, Option-cases, Bool-cases, inl, inr, [], ◌∷◌, all-All,
  &&-true,
}
use hanyangchem_qc_v.Workflow.{
  WorkflowState, DocumentState, Transition, case_value, document_value, distinct_case_keys,
  case_transitions, has_case_key, find_case, lacks_reason, check_case, guard_transition,
}

pub case_value-injective : (a b : WorkflowState) → case_value a ≡ case_value b → a ≡ b
case_value-injective a b h = ground arith

pub document_value-injective : (a b : DocumentState) → document_value a ≡ document_value b → a ≡ b
document_value-injective a b h = ground arith

-- The entry of the table has this key, and what it requires is given.
pub record Allows (c t : WorkflowState) (r : String) (reason : Option String) (re_evaluated : Bool)
    (item : Transition) : Type 0 where
  pub from : item.current ≡ c
  pub to : item.target ≡ t
  pub by : item.role ≡ r
  pub reasoned : item.requires_reason ≡ true → lacks_reason reason ≡ false
  pub evaluated : item.requires_re_evaluation ≡ true → re_evaluated ≡ true

has_case_key_sound :
    (c t : WorkflowState) (r : String) (item : Transition)
    → has_case_key c t r item ≡ true
    → (item.current ≡ c) × (item.target ≡ t) × (item.role ≡ r)
has_case_key_sound c t r item h = ground (
  arith,
  case_value-injective item.current c,
  case_value-injective item.target t,
  eq_iff item.role r,
)

has_case_key_complete :
    (c t : WorkflowState) (r : String) (item : Transition)
    → item.current ≡ c
    → item.target ≡ t
    → item.role ≡ r
    → has_case_key c t r item ≡ true
has_case_key_complete c t r item f g h = ground (arith, eq_iff item.role r)

-- Where no key is given twice, the search finds the only entry of a key.
find_unique :
    (c t : WorkflowState) (r : String) (P : Transition → Type 0) (xs : List Transition)
    → distinct_case_keys xs ≡ true
    → Any (λ x. (has_case_key c t r x ≡ true) × P x) xs
    → (y : Transition) × (find? (has_case_key c t r) xs ≡ some y) × P y
find_unique c t r P [] d h = absurd h
find_unique c t r P (x ∷ xs) d (inl (k, p)) = (x, rw k, p)
find_unique c t r P (x ∷ xs) d (inr h) = elim (Bool-cases (has_case_key c t r x)) [
  | inl k ↦ absurd (twice k)
  | inr k ↦ rw k (find_unique c t r P xs (&&-true _ _ d).1 h)
]
  where
    twice : has_case_key c t r x ≡ true → ⊥
    twice k =
        let (y, (e, _), n) = Any-pick _ _ xs h (all-All _ xs (&&-true _ _ d).0) in
        let (a, b, f) = has_case_key_sound c t r x k in absurd (cc (rw (a, b, f, e) at n))

module _ (c t : WorkflowState) (r : String) (reason : Option String) (re_evaluated : Bool) where
  check_case_sound :
      (item : Transition)
      → has_case_key c t r item ≡ true
      → check_case (some item) reason re_evaluated ≡ ok tt
      → Allows c t r reason re_evaluated item
  unfolding check_case
  check_case_sound item k h =
      let (from, to, by) = has_case_key_sound c t r item k in
      record { from = from; to = to; by = by; reasoned = ground arith; evaluated = ground arith }

  check_case_complete :
      (item : Transition)
      → Allows c t r reason re_evaluated item
      → check_case (some item) reason re_evaluated ≡ ok tt
  unfolding check_case
  check_case_complete item a = ground (arith, a.reasoned, a.evaluated)

  find_sound :
      (xs : List Transition)
      → check_case (find? (has_case_key c t r) xs) reason re_evaluated ≡ ok tt
      → Any (Allows c t r reason re_evaluated) xs
  unfolding check_case
  find_sound xs h = elim (Option-cases (find? (has_case_key c t r) xs)) [
    | inl missing ↦ absurd (cc (rw missing at h))
    | inr (item, found) ↦
        find?-Any (has_case_key c t r) _ xs found
          (check_case_sound item (find?-true (has_case_key c t r) xs found) (rw found at h))
  ]

  find_complete :
      (xs : List Transition)
      → distinct_case_keys xs ≡ true
      → Any (Allows c t r reason re_evaluated) xs
      → check_case (find? (has_case_key c t r) xs) reason re_evaluated ≡ ok tt
  find_complete xs d h =
      let (item, found, a) =
        find_unique c t r (Allows c t r reason re_evaluated) xs d
          (Any-map _ _ xs (λ x a. (has_case_key_complete c t r x a.from a.to a.by, a)) h) in
      rw found (check_case_complete item a)

  -- The guard of a case lets a change through exactly when the table has an entry for the two
  -- states and the role, whose reason, if it wants one, is not blank, and whose re-evaluation, if
  -- it wants one, was made.
  pub guard_transition-ok_iff :
      (guard_transition c t r reason re_evaluated ≡ ok tt)
      ↔ Any (Allows c t r reason re_evaluated) case_transitions
  unfolding guard_transition find_case
  guard_transition-ok_iff = (find_sound case_transitions, find_complete case_transitions refl)
