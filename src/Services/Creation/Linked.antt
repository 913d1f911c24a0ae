-- ===== src/Services/Creation/Linked.antt =====
-- The link that a review of p3.py leaves is the one that an inspection asks for.
use hanyangchem_qc_v.Base.{
  ℕ, ◌≡◌, refl, sym, ap, ◌∙◌, inl, inr, Bool, true, false, not, ◌&&◌, Option, none, some, List, [],
  ◌∷◌, ◌++◌, any, filter, find?, is_empty, All, Bool-cases, str_eq, ◌==◌, ==_iff, ok-injective,
  raise_if-ok, &&-true, ok, arith,
}
use hanyangchem_qc_v.Store.{
  DocumentSection, DocumentAllocationLink, ExtractionRun, ExtractionFieldReview, AuditLog, Store,
}
use hanyangchem_qc_v.Services.{allocation_conflict}
use hanyangchem_qc_v.Services.Intake.{found_or_new}
use hanyangchem_qc_v.Services.Review.{with_review}
use hanyangchem_qc_v.Services.Review.Links.{
  section_of, confirmed_links, links_elsewhere, new_section, section_left, with_link,
}
use hanyangchem_qc_v.Services.Creation.{is_linked}

module _ {A : Type 0} (p : A → Bool) where
  any-last : (xs : List A) (x : A) → p x ≡ true → any p (xs ++ x ∷ []) ≡ true
  any-last [] x h = rw h refl
  any-last (y ∷ ys) x h = let later = any-last ys x h in ground (arith, later)

  find?-any : (xs : List A) {x : A} → find? p xs ≡ some x → any p xs ≡ true
  find?-any [] h = cc
  find?-any (y ∷ ys) h = elim (Bool-cases (p y)) [
    | inl hit ↦ rw hit refl
    | inr miss ↦ rw miss (find?-any ys (rw miss at h))
  ]

  -- What the first kept element passes, some element does that is kept.
  filter-any :
      (q : A → Bool) (xs : List A) {x : A} {rest : List A}
      → filter p xs ≡ x ∷ rest
      → (p x ≡ true → q x ≡ true)
      → any q xs ≡ true
  filter-any q [] h k = cc
  filter-any q (y ∷ ys) {x = x} {rest = rest} h k = elim (Bool-cases (p y)) [
    | inl hit ↦
        let first : y ≡ x = heads y x (filter p ys) rest (rw hit at h) in
        let passes : q y ≡ true = ap q first ∙ k (ap p (sym first) ∙ hit) in rw passes refl
    | inr miss ↦ let later = filter-any q ys (rw miss at h) k in ground (arith, later)
  ]
    where
      heads : (a b : A) (xs zs : List A) → a ∷ xs ≡ b ∷ zs → a ≡ b
      heads a b xs zs e = cc

-- A section of the document that is matched.
abbrev is_match : ℕ → ℕ → DocumentSection → Bool
is_match section document s =
    s.id == section && s.document_id == document && str_eq s.status "MATCHED"

match_any :
    (section document : ℕ) (xs : List DocumentSection) {s : DocumentSection}
    → find? (λ (x : DocumentSection). x.document_id == document) xs ≡ some s
    → s.id ≡ section
    → All (λ (x : DocumentSection). str_eq x.status "MATCHED" ≡ true) xs
    → any (is_match section document) xs ≡ true
match_any section document [] h e k = cc
match_any section document (x ∷ xs) {s = s} h e k = elim (Bool-cases (x.document_id == document)) [
  | inr miss ↦
      let later = match_any section document xs (rw miss at h) e k.1 in ground (arith, later)
  | inl hit ↦
      let first : x ≡ s = one x s (rw hit at h) in
      let id : (x.id == section) ≡ true =
        (==_iff x.id section).1 (ap (λ (y : DocumentSection). y.id) first ∙ e) in
      rw (id, hit, k.0) refl
]
  where
    one : (a b : DocumentSection) → some a ≡ some b → a ≡ b
    one a b e = cc

-- The section that is used is there and matched.
section_left-match :
    (store : Store) (fresh document : ℕ)
    → All (λ (x : DocumentSection). str_eq x.status "MATCHED" ≡ true) store.sections
    → any
        (is_match (section_left store fresh document).0.id document)
        (section_left store fresh document).1
      ≡ true
section_left-match store fresh document matched = by_found (section_of store document) refl
  where
    by_found :
        (o : Option DocumentSection)
        → section_of store document ≡ o
        → any
            (is_match (found_or_new o (new_section fresh document) store.sections).0.id document)
            (found_or_new o (new_section fresh document) store.sections).1
          ≡ true
    by_found none e =
        any-last (is_match fresh document) store.sections (new_section fresh document)
          (ground arith)
    by_found (some s) e = match_any s.id document store.sections e refl matched

-- The link of the allocation, behind `with_link`.
links_to :
    (store : Store) (fresh document allocation : ℕ) (q : DocumentAllocationLink → Bool)
    {links : List DocumentAllocationLink}
    → let section = (section_left store fresh document).0.id in
      let confirmed = confirmed_links store (section_of store document) in
      links_elsewhere allocation confirmed ≡ false
      → with_link store.links section allocation (not (is_empty confirmed)) ≡ ok links
      → ((l : DocumentAllocationLink)
          → l.document_section_id ≡ section
          → l.receipt_lot_allocation_id ≡ allocation
          → str_eq l.match_status "CONFIRMED" ≡ true
          → q l ≡ true)
      → any q links ≡ true
unfolding with_link
links_to store fresh document allocation q {links = links} here linked passes =
    by_links (confirmed_links store (section_of store document)) refl here linked
  where
    section : ℕ
    section = (section_left store fresh document).0.id

    negated : (b : Bool) → not b ≡ false → b ≡ true
    negated true h = refl
    negated false h = cc

    by_section :
        (l : DocumentAllocationLink)
        → (l.receipt_lot_allocation_id == allocation) ≡ true
        → (o : Option DocumentSection) → section_of store document ≡ o
        → confirmed_links store o ≡ l ∷ []
        → any q store.links ≡ true
    by_section l same none e k = cc
    by_section l same (some s) e k =
        let used : section ≡ s.id =
          ap
            (λ (o : Option DocumentSection).
              (found_or_new o (new_section fresh document) store.sections).0.id)
            e in
        filter-any
          (λ (x : DocumentAllocationLink).
            x.document_section_id == s.id && str_eq x.match_status "CONFIRMED")
          q store.links k
          (λ kept.
            let (of_section, is_confirmed) =
              &&-true (l.document_section_id == s.id) (str_eq l.match_status "CONFIRMED") kept in
            passes l ((==_iff l.document_section_id s.id).0 of_section ∙ sym used)
              ((==_iff l.receipt_lot_allocation_id allocation).0 same) is_confirmed)

    by_links :
        (ls : List DocumentAllocationLink)
        → confirmed_links store (section_of store document) ≡ ls
        → links_elsewhere allocation ls ≡ false
        → with_link store.links section allocation (not (is_empty ls)) ≡ ok links
        → any q links ≡ true
    by_links [] e h k =
        let (_, made) =
          raise_if-ok
            (any
              (λ (l : DocumentAllocationLink).
                l.document_section_id == section && l.receipt_lot_allocation_id == allocation)
              store.links)
            allocation_conflict _ k in
        ap (any q) (sym (ok-injective _ links made))
        ∙ any-last q store.links _ (passes _ refl refl refl)
    by_links (l ∷ []) e h k =
        ap (any q) (sym (ok-injective store.links links k))
        ∙ by_section l (negated (l.receipt_lot_allocation_id == allocation) h)
            (section_of store document) refl e
    by_links (l ∷ m ∷ ls) e h k = cc

-- An inspection finds the allocation linked to a matched section of the document, where all sections
-- are matched.
pub with_review-is_linked :
    (store : Store) (fresh document allocation : ℕ) (reviews : List ExtractionFieldReview)
    (runs : List ExtractionRun) (audit : AuditLog) {links : List DocumentAllocationLink}
    → All (λ (x : DocumentSection). str_eq x.status "MATCHED" ≡ true) store.sections
    → links_elsewhere allocation (confirmed_links store (section_of store document)) ≡ false
    → with_link store.links
        (section_left store fresh document).0.id
        allocation
        (not (is_empty (confirmed_links store (section_of store document))))
      ≡ ok links
    → is_linked
        (with_review store reviews (section_left store fresh document).1 links runs audit)
        document
        allocation
      ≡ true
unfolding is_linked
with_review-is_linked store fresh document allocation reviews runs audit matched here linked =
    links_to store fresh document allocation _ here linked (λ l of_section same is_confirmed.
      let there : any (is_match l.document_section_id document)
            (section_left store fresh document).1
          ≡ true =
        ap (λ i. any (is_match i document) (section_left store fresh document).1) of_section
        ∙ section_left-match store fresh document matched in
      let of_allocation : (l.receipt_lot_allocation_id == allocation) ≡ true =
        (==_iff l.receipt_lot_allocation_id allocation).1 same in
      rw (of_allocation, is_confirmed, there) refl)
