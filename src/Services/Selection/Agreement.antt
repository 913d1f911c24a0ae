-- ===== src/Services/Selection/Agreement.antt =====
-- About the selection of a specification, by `_select_spec` of p3.py and by `_effective_spec` of
-- backend/src/hyc_data/repositories.py.
use hanyangchem_qc_v.Base.{
  ℕ, ◌≤◌, ◌≡◌, refl, sym, ap, ◌∙◌, inl, inr, Bool, true, false, ◌&&◌, ◌||◌, some, List, [], ◌∷◌,
  filter, find?-true, sort_by, insert_by, arith, ltb, ◌==◌, ==_iff, Bool-cases, if◌then◌else◌, ok,
  err,
}
use hanyangchem_qc_v.Store.{
  MaterialLot, InboundReceipt, ReceiptLotAllocation, InspectionCase, Store,
}
use hanyangchem_qc_v.Approval.{
  Attempt, Candidate, joined_specs, is_effective, profile_specificity, ranks_above, most_specific,
  check_model, effective_spec, no_effective_spec, ambiguous_spec,
}
use hanyangchem_qc_v.Services
use hanyangchem_qc_v.Services.{Service}
use hanyangchem_qc_v.Services.Selection.{
  sorts_above, selected_row, select_spec, receipt_row, lot_of,
}

abbrev rank : Candidate → ℕ
rank c = profile_specificity c.1

-- The most specific candidate, whatever their order: none, one, or several as specific.
pub data Top : Type 0 where
  nothing : Top
  only : Candidate → Top
  tie : ℕ → Top

abbrev pub top_step : Candidate → Top → Top
top_step c nothing = only c
top_step c (only d) =
    if ltb (rank d) (rank c) then only c else if rank d == rank c then tie (rank c) else only d
top_step c (tie r) = if ltb r (rank c) then only c else tie r

unfoldable pub top : List Candidate → Top
top [] = nothing
top (c ∷ cs) = top_step c (top cs)

-- What the first two of a sorted list say.
abbrev head_top : List Candidate → Top
head_top [] = nothing
head_top (c ∷ []) = only c
head_top (c ∷ d ∷ rest) = if rank d == rank c then tie (rank c) else only c

abbrev Falling : List Candidate → Type 0
Falling [] = Unit
Falling (c ∷ []) = Unit
Falling (c ∷ d ∷ rest) = (rank d ≤ rank c) × Falling (d ∷ rest)

-- An order that puts the more specific first.
abbrev BySpecificity : (Candidate → Candidate → Bool) → Type 0
BySpecificity before =
    (d c : Candidate)
    → ((before d c ≡ true → rank c ≤ rank d) × (before d c ≡ false → rank d ≤ rank c))

module _ (before : Candidate → Candidate → Bool) (ordered : BySpecificity before) where
  insert_by-Falling :
      (c : Candidate) (ds : List Candidate) → Falling ds → Falling (insert_by before c ds)
  unfolding insert_by
  insert_by-Falling c [] f = tt
  insert_by-Falling c (d ∷ []) f = elim (Bool-cases (before d c)) [
    | inl first ↦ rw first ((ordered d c).0 first, tt)
    | inr second ↦ rw second ((ordered d c).1 second, tt)
  ]
  insert_by-Falling c (d ∷ e ∷ es) f = elim (Bool-cases (before d c)) [
    | inr second ↦ rw second ((ordered d c).1 second, f)
    | inl first ↦ elim (Bool-cases (before e c)) [
      | inl third ↦ rw (first, third) (f.0, rw third at (insert_by-Falling c (e ∷ es) f.1))
      | inr fourth ↦ rw (first, fourth) ((ordered d c).0 first, ((ordered e c).1 fourth, f.1))
    ]
  ]

  head_top-insert_by :
      (c : Candidate) (ds : List Candidate)
      → Falling ds
      → head_top (insert_by before c ds) ≡ top_step c (head_top ds)
  unfolding insert_by
  head_top-insert_by c [] f = refl
  head_top-insert_by c (d ∷ []) f = elim (Bool-cases (before d c)) [
    | inl first ↦ let le = (ordered d c).0 first in rw first (ground arith)
    | inr second ↦ let le = (ordered d c).1 second in rw second (ground arith)
  ]
  head_top-insert_by c (d ∷ e ∷ es) f = elim (Bool-cases (before d c)) [
    | inr second ↦ let le = (ordered d c).1 second in let lf = f.0 in rw second (ground arith)
    | inl first ↦
        let le = (ordered d c).0 first in
        elim (Bool-cases (before e c)) [
          | inl third ↦
              let lt = (ordered e c).0 third in let lf = f.0 in rw (first, third) (ground arith)
          | inr fourth ↦
              let lt = (ordered e c).1 fourth in let lf = f.0 in rw (first, fourth) (ground arith)
        ]
  ]

  sort_by-Falling : (cs : List Candidate) → Falling (sort_by before cs)
  unfolding sort_by
  sort_by-Falling [] = tt
  sort_by-Falling (c ∷ cs) = insert_by-Falling c (sort_by before cs) (sort_by-Falling cs)

  head_top-sort_by : (cs : List Candidate) → head_top (sort_by before cs) ≡ top cs
  unfolding sort_by top
  head_top-sort_by [] = refl
  head_top-sort_by (c ∷ cs) =
      head_top-insert_by c (sort_by before cs) (sort_by-Falling cs)
      ∙ ap (top_step c) (head_top-sort_by cs)

sorts_above-BySpecificity : BySpecificity sorts_above
unfolding sorts_above
sorts_above-BySpecificity (v, p) (w, q) =
    numbers (profile_specificity p) (profile_specificity q) (ltb w.version v.version)
  where
    numbers :
        (a b : ℕ) (x : Bool)
        → ((ltb b a || a == b && x) ≡ true → b ≤ a) × ((ltb b a || a == b && x) ≡ false → a ≤ b)
    numbers a b x = ((λ h. ground arith), (λ h. ground arith))

ranks_above-BySpecificity : BySpecificity ranks_above
unfolding ranks_above
ranks_above-BySpecificity (v, p) (w, q) =
    numbers (profile_specificity p) (profile_specificity q) (ltb w.version v.version)
      (w.version == v.version) (ltb w.id v.id)
  where
    numbers :
        (a b : ℕ) (x y z : Bool)
        → ((ltb b a || a == b && x || a == b && y && z) ≡ true → b ≤ a)
          × ((ltb b a || a == b && x || a == b && y && z) ≡ false → a ≤ b)
    numbers a b x y z = ((λ h. ground arith), (λ h. ground arith))

-- What the two selections make of it.
abbrev pub of_top : Top → Service Candidate
of_top nothing = err Services.no_effective_spec
of_top (only c) = ok c
of_top (tie r) = err Services.ambiguous_spec

abbrev approved_top : Top → Attempt Candidate
approved_top nothing = err no_effective_spec
approved_top (only c) = ok c
approved_top (tie r) = err ambiguous_spec

selected_row-head_top : (cs : List Candidate) → selected_row cs ≡ of_top (head_top cs)
unfolding selected_row
selected_row-head_top [] = refl
selected_row-head_top (c ∷ []) = refl
selected_row-head_top (c ∷ d ∷ rest) = elim (Bool-cases (rank d == rank c)) [
  | inl same ↦ rw same refl
  | inr other ↦ rw other refl
]

most_specific-head_top : (cs : List Candidate) → most_specific cs ≡ approved_top (head_top cs)
unfolding most_specific
most_specific-head_top [] = refl
most_specific-head_top (c ∷ []) = refl
most_specific-head_top (c ∷ d ∷ rest) = elim (Bool-cases (rank d == rank c)) [
  | inl same ↦ rw same refl
  | inr other ↦ rw other refl
]

abbrev pub candidates : Store → ReceiptLotAllocation → InboundReceipt → MaterialLot → List Candidate
candidates store allocation receipt lot =
    filter (is_effective receipt lot allocation) (joined_specs store.versions store.profiles)

module _ (store : Store) (allocation : ReceiptLotAllocation) (receipt : InboundReceipt)
    (lot : MaterialLot) (received : receipt_row store allocation.inbound_receipt_id ≡ some receipt)
    (stored : lot_of store allocation.material_lot_id ≡ some lot) where
  -- The specification that _select_spec gives for an allocation whose receipt and LOT are there is
  -- what the order-free description asks for: of the versions in effect the one that is more
  -- specific than every other, an error where there is none, and another where the most specific
  -- are several, in whatever order the rows come and whatever their version numbers.
  pub select_spec-top :
      select_spec store allocation ≡ of_top (top (candidates store allocation receipt lot))
  unfolding select_spec
  select_spec-top =
      rw (received, stored)
        (selected_row-head_top (sort_by sorts_above (candidates store allocation receipt lot))
          ∙ ap of_top (
              head_top-sort_by sorts_above sorts_above-BySpecificity
                (candidates store allocation receipt lot)))

  -- The specification that _select_spec binds a new case to is the one that _effective_spec finds
  -- when the case is settled, as long as the rows are the same and the allocation's model is one of
  -- the LOT's material.
  pub effective_spec-select_spec :
      (kase : InspectionCase) {c : Candidate}
      → select_spec store allocation ≡ ok c
      → kase.spec_version_id ≡ c.0.id
      → check_model store lot allocation.model_id ≡ ok tt
      → effective_spec store kase allocation receipt lot ≡ ok c
  unfolding effective_spec
  effective_spec-select_spec kase {c = c} h bound fits =
      let cs = candidates store allocation receipt lot in
      let found : most_specific (sort_by ranks_above cs) ≡ ok c =
        most_specific-head_top (sort_by ranks_above cs)
        ∙ ap approved_top (head_top-sort_by ranks_above ranks_above-BySpecificity cs)
        ∙ approved (top cs) (sym select_spec-top ∙ h) in
      let same_version : (c.0.id == kase.spec_version_id) ≡ true = (==_iff _ _).1 (sym bound) in
      let same_lot : (allocation.material_lot_id == lot.id) ≡ true = (==_iff _ _).1 (
        sym (
          (==_iff _ _).0 (
            find?-true (λ (l : MaterialLot). l.id == allocation.material_lot_id) store.lots
              stored))) in
      rw (fits, found, same_version, same_lot, effective_spec) refl
    where
      approved : (t : Top) {c : Candidate} → of_top t ≡ ok c → approved_top t ≡ ok c
      approved nothing e = cc
      approved (only d) e = cc
      approved (tie r) e = cc
