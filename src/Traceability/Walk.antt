-- ===== src/Traceability/Walk.antt =====
-- About the loop of `impact_scope` (traceability.py), over any relation of direct consumption: its rounds,
-- and what it finds.
use hanyangchem_qc_v.Base.{
  ℕ, zero, suc, ◌+◌, ◌≤◌, ◌<◌, ◌≡◌, refl, sym, subst, ◌∙◌, ap, inl, inr, Bool, true, false, ◌||◌,
  List, [], ◌∷◌, ◌++◌, any, length, length-append, All, Any, All-map, All-self, arith, Bool-cases,
  ◌==◌, ==_iff, if◌then◌else◌,
}
use hanyangchem_qc_v.Traceability.{
  ProductionLot, WalkState, is_lot, mem, see, see_all, popped, walk,
}

pub any-append :
    {A : Type 0} (p : A → Bool) (xs ys : List A) → any p (xs ++ ys) ≡ (any p xs || any p ys)
any-append p [] ys = refl
any-append p (x ∷ xs) ys = ground (arith, any-append p xs ys)

pub mem-append : (i : ℕ) (xs ys : List ℕ) → mem i xs ≡ true → mem i (xs ++ ys) ≡ true
mem-append i xs ys h = any-append (λ j. j == i) xs ys ∙ rw h refl

pub same_id : (i : ℕ) → (i == i) ≡ true
same_id i = (==_iff i i).1 refl

pub mem-last : (i : ℕ) (xs : List ℕ) → mem i (xs ++ i ∷ []) ≡ true
mem-last i [] = rw (same_id i) refl
mem-last i (x ∷ xs) = ground (arith, mem-last i xs)

-- How many of `us` are not in `seen`.
pub unseen : List ℕ → List ℕ → ℕ
unseen seen [] = 0
unseen seen (u ∷ us) = let rest = unseen seen us in if mem u seen then rest else suc rest

unseen-cons : (i : ℕ) (seen us : List ℕ) → unseen (i ∷ seen) us ≤ unseen seen us
unfolding unseen
unseen-cons i seen [] = omega arith
unseen-cons i seen (u ∷ us) = ground (arith, unseen-cons i seen us)

unseen-drop :
    (i : ℕ) (seen us : List ℕ)
    → mem i us ≡ true
    → mem i seen ≡ false
    → unseen (i ∷ seen) us < unseen seen us
unfolding unseen
unseen-drop i seen [] h k = cc
unseen-drop i seen (u ∷ us) h k = elim (Bool-cases (u == i)) [
  | inl at ↦
      let same : u ≡ i = (==_iff u i).0 at in
      let unseen_u : mem u seen ≡ false = ap (λ x. mem x seen) same ∙ k in
      let seen_now : (i == u) ≡ true = (==_iff i u).1 (sym same) in
      rw (seen_now, unseen_u) (omega (arith, unseen-cons i seen us))
  | inr other ↦
      let drop = unseen-drop i seen us (rw other at h) k in
      let apart : (i == u) ≡ false = ground (arith, other) in rw apart (step (mem u seen) _ _ drop)
]
  where
    step : (b : Bool) (m n : ℕ) → m < n → (if b then m else suc m) < (if b then n else suc n)
    step b m n h = ground arith

pub unseen-length : (seen us : List ℕ) → unseen seen us ≤ length us
unfolding unseen
unseen-length seen [] = omega arith
unseen-length seen (u ∷ us) = ground (arith, unseen-length seen us)

module _ (direct : ℕ → List ProductionLot) (universe : List ℕ) where
  -- Each lot that is consumed directly is one of the universe.
  abbrev pub Within : List ProductionLot → Type 0
  Within ls = All (λ l. mem l.production_lot_id universe ≡ true) ls

  -- The rounds that are still due at most.
  abbrev pub due : WalkState → ℕ
  due w = length w.pending + unseen w.visited universe

  see-due :
      (w : WalkState) (l : ProductionLot)
      → mem l.production_lot_id universe ≡ true
      → due (see w l) ≤ due w
  unfolding see
  see-due w l h = elim (Bool-cases (mem l.production_lot_id w.visited)) [
    | inl known ↦ rw known (omega arith)
    | inr fresh ↦ rw fresh (
        omega (
          arith,
          length-append w.pending (l.production_lot_id ∷ []),
          unseen-drop l.production_lot_id w.visited universe h fresh,
        ))
  ]

  see_all-due : (w : WalkState) (ls : List ProductionLot) → Within ls → due (see_all w ls) ≤ due w
  unfolding see_all
  see_all-due w [] h = omega arith
  see_all-due w (l ∷ ls) h = omega (arith, see-due w l h.0, see_all-due (see w l) ls h.1)

  -- With as many rounds as are due, the walk comes to its end.
  pub walk-end :
      (n : ℕ) (w : WalkState)
      → ((i : ℕ) → Within (direct i))
      → due w ≤ n
      → (walk direct n w).pending ≡ []
  unfolding walk
  walk-end zero w within h = nothing w.pending (omega (arith, h))
    where
      nothing : (is : List ℕ) → length is ≤ 0 → is ≡ []
      nothing [] h = refl
      nothing (i ∷ is) h = absurd (omega (arith, h))
  walk-end (suc n) w within h = by_pending w.pending refl (λ x. walk-end n x within)
    where
      by_pending :
          (ps : List ℕ)
          → w.pending ≡ ps
          → ((x : WalkState) → due x ≤ n → (walk direct n x).pending ≡ [])
          → (walk direct (suc n) w).pending ≡ []
      by_pending [] e next = rw e refl
      by_pending (current ∷ rest) e next = rw e (
          next (see_all (popped w rest) (direct current)) (
            omega (
              arith,
              see_all-due (popped w rest) (direct current) (within current),
              h,
              ap length e,
            )))

-- Downstream of a LOT: what it goes into directly, or through a lot that is downstream.
pub data Downstream (direct : ℕ → List ProductionLot) (from : ℕ) : ProductionLot → Type 0 where
  directly : (l : ProductionLot) → Any (λ d. d ≡ l) (direct from) → Downstream direct from l
  through :
      (mid l : ProductionLot)
      → Downstream direct from mid
      → Any (λ d. d ≡ l) (direct mid.production_lot_id)
      → Downstream direct from l

module _ (direct : ℕ → List ProductionLot) (from : ℕ) where
  -- An id whose direct lots are downstream.
  abbrev pub Leads : ℕ → Type 0
  Leads i = All (Downstream direct from) (direct i)

  abbrev pub Sound : WalkState → Type 0
  Sound w = All (Downstream direct from) w.impacted × All Leads w.pending

  All-last :
      {A : Type 0} (P : A → Type 0) (xs : List A) (x : A) → All P xs → P x → All P (xs ++ x ∷ [])
  All-last P [] x ps p = (p, tt)
  All-last P (y ∷ ys) x ps p = (ps.0, All-last P ys x ps.1 p)

  Leads-through : (l : ProductionLot) → Downstream direct from l → Leads l.production_lot_id
  Leads-through l d =
      All-map (λ x. Any (λ y. y ≡ x) (direct l.production_lot_id)) (Downstream direct from)
        (direct l.production_lot_id) (λ x at. through l x d at)
        (All-self (direct l.production_lot_id))

  see-Sound :
      (w : WalkState) (l : ProductionLot) → Downstream direct from l → Sound w → Sound (see w l)
  unfolding see
  see-Sound w l d s = (
    grown (any (is_lot l.production_lot_id) w.impacted),
    queued (mem l.production_lot_id w.visited),
  )
    where
      grown :
          (b : Bool) → All (Downstream direct from) (if b then w.impacted else w.impacted ++ l ∷ [])
      grown true = s.0
      grown false = All-last (Downstream direct from) w.impacted l s.0 d

      queued :
          (b : Bool) → All Leads (if b then w.pending else w.pending ++ l.production_lot_id ∷ [])
      queued true = s.1
      queued false = All-last Leads w.pending l.production_lot_id s.1 (Leads-through l d)

  see_all-Sound :
      (w : WalkState) (ls : List ProductionLot)
      → All (Downstream direct from) ls
      → Sound w
      → Sound (see_all w ls)
  unfolding see_all
  see_all-Sound w [] ds s = s
  see_all-Sound w (l ∷ ls) ds s = see_all-Sound (see w l) ls ds.1 (see-Sound w l ds.0 s)

  -- Whatever the rounds, the lots that the walk has found are downstream.
  pub walk-Sound : (n : ℕ) (w : WalkState) → Sound w → Sound (walk direct n w)
  unfolding walk
  walk-Sound zero w s = s
  walk-Sound (suc n) w s = by_pending w.pending refl (λ x t. walk-Sound n x t)
    where
      by_pending :
          (ps : List ℕ)
          → w.pending ≡ ps
          → ((x : WalkState) → Sound x → Sound (walk direct n x))
          → Sound (walk direct (suc n) w)
      by_pending [] e next = rw e (s.0, tt)
      by_pending (current ∷ rest) e next =
          let leads = subst (λ ps. All Leads ps) e s.1 in
          rw e (next _ (see_all-Sound (popped w rest) (direct current) leads.0 (s.0, leads.1)))
