-- ===== src/Traceability/Affected.antt =====
-- The production lots that a material LOT affects, as the consumptions say, and the sources that
-- traceability.py reads off them.
use hanyangchem_qc_v.Base.{
  ℕ, ◌≡◌, refl, subst, ◌∙◌, inl, inr, Bool, true, false, ◌||◌, List, [], ◌∷◌, ◌++◌, any, All, Any,
  ==_iff, Bool-cases, arith, if◌then◌else◌,
}
use hanyangchem_qc_v.Traceability.{
  Consumption, ProductionLot, is_lot, set_default, set_defaults, collect,
}

-- A lot with the id consumed an allocation.
abbrev pub Consumes : List Consumption → ℕ → ℕ → Type 0
Consumes cs a i = Any (λ (c : Consumption). (c.allocation_id ≡ a) × (c.production_lot_id ≡ i)) cs

-- A lot with the id consumed an allocation of the LOT.
pub record Uses (allocations : List (ℕ × ℕ)) (consumptions : List Consumption) (from i : ℕ)
    : Type 0 where
  pub allocation : ℕ
  pub of_lot : Any (λ p. p ≡ (allocation, from)) allocations
  pub consumed : Consumes consumptions allocation i

abbrev pub Registered : List ProductionLot → ℕ → Type 0
Registered lots i = any (is_lot i) lots ≡ true

-- A registered lot that used the LOT, or a lot that the LOT affects.
pub data Affected (allocations : List (ℕ × ℕ)) (consumptions : List Consumption)
    (lots : List ProductionLot) (from : ℕ) : ℕ → Type 0 where
  uses_directly :
      (i : ℕ)
      → Uses allocations consumptions from i
      → Registered lots i
      → Affected allocations consumptions lots from i
  uses_through :
      (mid i : ℕ)
      → Affected allocations consumptions lots from mid
      → Uses allocations consumptions mid i
      → Registered lots i
      → Affected allocations consumptions lots from i

abbrev pub Member : List ProductionLot → ProductionLot → Type 0
Member lots l = Any (λ y. y ≡ l) lots

-- What holds of all that is put into a dict of lots holds of its values.
module _ (P : ProductionLot → Type 0) where
  set_default-All :
      (known : List ProductionLot) (l : ProductionLot)
      → All P known
      → P l
      → All P (set_default known l)
  set_default-All known l k p = one (any (is_lot l.production_lot_id) known)
    where
      last : (xs : List ProductionLot) → All P xs → All P (xs ++ l ∷ [])
      last [] ps = (p, tt)
      last (x ∷ xs) ps = (ps.0, last xs ps.1)

      one : (b : Bool) → All P (if b then known else known ++ l ∷ [])
      one true = k
      one false = last known k

  set_defaults-All :
      (known ls : List ProductionLot) → All P known → All P ls → All P (set_defaults known ls)
  set_defaults-All known [] k h = k
  set_defaults-All known (l ∷ ls) k h =
      set_defaults-All (set_default known l) ls (set_default-All known l k h.0) h.1

  pub collect-All :
      (consumed : ℕ → List ProductionLot) (known : List ProductionLot) (as_list : List ℕ)
      → All P known
      → All (λ a. All P (consumed a)) as_list
      → All P (collect consumed known as_list)
  collect-All consumed known [] k h = k
  collect-All consumed known (a ∷ rest) k h =
      collect-All consumed (set_defaults known (consumed a)) rest
        (set_defaults-All known (consumed a) k h.0) h.1

-- An id that is in a dict of lots stays in it, and one that is put into it is in it.
module _ (i : ℕ) where
  any-behind :
      (xs ys : List ProductionLot)
      → any (is_lot i) (xs ++ ys) ≡ (any (is_lot i) xs || any (is_lot i) ys)
  any-behind [] ys = refl
  any-behind (x ∷ xs) ys = ground (arith, any-behind xs ys)

  set_default-stays :
      (known : List ProductionLot) (l : ProductionLot)
      → any (is_lot i) known ≡ true
      → any (is_lot i) (set_default known l) ≡ true
  set_default-stays known l h = one (any (is_lot l.production_lot_id) known)
    where
      one : (b : Bool) → any (is_lot i) (if b then known else known ++ l ∷ []) ≡ true
      one true = h
      one false = any-behind known (l ∷ []) ∙ rw h refl

  set_default-put :
      (known : List ProductionLot) (l : ProductionLot)
      → is_lot i l ≡ true
      → any (is_lot i) (set_default known l) ≡ true
  set_default-put known l h =
      let same : l.production_lot_id ≡ i = (==_iff _ _).0 h in
      elim (Bool-cases (any (is_lot l.production_lot_id) known)) [
        | inl there ↦ rw there (subst (λ j. any (is_lot j) known ≡ true) same there)
        | inr absent ↦ rw absent (any-behind known (l ∷ []) ∙ ground (arith, h))
      ]

  set_defaults-stays :
      (known ls : List ProductionLot)
      → any (is_lot i) known ≡ true
      → any (is_lot i) (set_defaults known ls) ≡ true
  set_defaults-stays known [] h = h
  set_defaults-stays known (l ∷ ls) h =
      set_defaults-stays (set_default known l) ls (set_default-stays known l h)

  set_defaults-put :
      (known ls : List ProductionLot)
      → any (is_lot i) ls ≡ true
      → any (is_lot i) (set_defaults known ls) ≡ true
  set_defaults-put known [] h = cc
  set_defaults-put known (l ∷ ls) h = elim (Bool-cases (is_lot i l)) [
    | inl hit ↦ set_defaults-stays (set_default known l) ls (set_default-put known l hit)
    | inr miss ↦ set_defaults-put (set_default known l) ls (rw miss at h)
  ]

  collect-stays :
      (consumed : ℕ → List ProductionLot) (known : List ProductionLot) (as_list : List ℕ)
      → any (is_lot i) known ≡ true
      → any (is_lot i) (collect consumed known as_list) ≡ true
  collect-stays consumed known [] h = h
  collect-stays consumed known (a ∷ rest) h =
      collect-stays consumed (set_defaults known (consumed a)) rest
        (set_defaults-stays known (consumed a) h)

  pub collect-put :
      (consumed : ℕ → List ProductionLot) (known : List ProductionLot) (as_list : List ℕ)
      → Any (λ a. any (is_lot i) (consumed a) ≡ true) as_list
      → any (is_lot i) (collect consumed known as_list) ≡ true
  collect-put consumed known [] h = absurd h
  collect-put consumed known (a ∷ rest) (inl h) =
      collect-stays consumed (set_defaults known (consumed a)) rest
        (set_defaults-put known (consumed a) h)
  collect-put consumed known (a ∷ rest) (inr h) =
      collect-put consumed (set_defaults known (consumed a)) rest h
