-- ===== src/Traceability/Complete.antt =====
-- About the loop of `impact_scope` (traceability.py): what it has visited and found.
use hanyangchem_qc_v.Base.{
  ℕ, zero, suc, ◌≡◌, refl, subst, ◌∙◌, ◌⊎◌, inl, inr, Bool, true, false, List, [], ◌∷◌, ◌++◌, any,
  All, Any, All-map, Any-pick, arith, Bool-cases, ◌==◌, ==_iff, if◌then◌else◌,
}
use hanyangchem_qc_v.Traceability.{
  ProductionLot, WalkState, is_lot, mem, see, see_all, popped, walk,
}
use hanyangchem_qc_v.Traceability.Walk.{
  any-append, mem-append, mem-last, same_id, Downstream, directly, through,
}

-- The lot with the id was found, and its id was visited.
abbrev pub Found : WalkState → ProductionLot → Type 0
Found w l =
    (mem l.production_lot_id w.visited ≡ true)
    × (any (is_lot l.production_lot_id) w.impacted ≡ true)

-- What `w` knows, `x` knows.
pub record Grows (w x : WalkState) : Type 0 where
  pub visits : (i : ℕ) → mem i w.visited ≡ true → mem i x.visited ≡ true
  pub queues : (i : ℕ) → mem i w.pending ≡ true → mem i x.pending ≡ true
  pub finds : (i : ℕ) → any (is_lot i) w.impacted ≡ true → any (is_lot i) x.impacted ≡ true
  pub fresh : (i : ℕ) → mem i x.visited ≡ true → (mem i w.visited ≡ true) ⊎ (mem i x.pending ≡ true)

Grows-self : (w : WalkState) → Grows w w
Grows-self w = record {
  visits = λ i h. h;
  queues = λ i h. h;
  finds = λ i h. h;
  fresh = λ i h. inl h;
}

Grows-trans : (w x y : WalkState) → Grows w x → Grows x y → Grows w y
Grows-trans w x y g h = record {
  visits = λ i k. h.visits i (g.visits i k);
  queues = λ i k. h.queues i (g.queues i k);
  finds = λ i k. h.finds i (g.finds i k);
  fresh = λ i k. later i (h.fresh i k);
}
  where
    later :
        (i : ℕ)
        → (mem i x.visited ≡ true) ⊎ (mem i y.pending ≡ true)
        → (mem i w.visited ≡ true) ⊎ (mem i y.pending ≡ true)
    later i (inr k) = inr k
    later i (inl k) = elim (g.fresh i k) [ inl a ↦ inl a | inr b ↦ inr (h.queues i b) ]

lot-append :
    (i : ℕ) (xs ys : List ProductionLot)
    → any (is_lot i) xs ≡ true
    → any (is_lot i) (xs ++ ys) ≡ true
lot-append i xs ys h = any-append (is_lot i) xs ys ∙ rw h refl

see-Grows : (w : WalkState) (l : ProductionLot) → Grows w (see w l)
unfolding see
see-Grows w l = record {
  visits = λ i h. visits (mem l.production_lot_id w.visited) i h;
  queues = λ i h. queues (mem l.production_lot_id w.visited) i h;
  finds = λ i h. finds (any (is_lot l.production_lot_id) w.impacted) i h;
  fresh = λ i h. fresh (mem l.production_lot_id w.visited) i h;
}
  where
    visits :
        (b : Bool) (i : ℕ)
        → mem i w.visited ≡ true
        → mem i (if b then w.visited else l.production_lot_id ∷ w.visited) ≡ true
    visits true i h = h
    visits false i h = ground (arith, h)

    queues :
        (b : Bool) (i : ℕ)
        → mem i w.pending ≡ true
        → mem i (if b then w.pending else w.pending ++ l.production_lot_id ∷ []) ≡ true
    queues true i h = h
    queues false i h = mem-append i w.pending (l.production_lot_id ∷ []) h

    finds :
        (b : Bool) (i : ℕ)
        → any (is_lot i) w.impacted ≡ true
        → any (is_lot i) (if b then w.impacted else w.impacted ++ l ∷ []) ≡ true
    finds true i h = h
    finds false i h = lot-append i w.impacted (l ∷ []) h

    fresh :
        (b : Bool) (i : ℕ)
        → mem i (if b then w.visited else l.production_lot_id ∷ w.visited) ≡ true
        → (mem i w.visited ≡ true)
          ⊎ (mem i (if b then w.pending else w.pending ++ l.production_lot_id ∷ []) ≡ true)
    fresh true i h = inl h
    fresh false i h = elim (Bool-cases (l.production_lot_id == i)) [
      | inl at ↦ inr (
          subst (λ k. mem k (w.pending ++ l.production_lot_id ∷ []) ≡ true) ((==_iff _ _).0 at)
            (mem-last l.production_lot_id w.pending))
      | inr other ↦ inl (rw other at h)
    ]

see-Found : (w : WalkState) (l : ProductionLot) → Found (see w l) l
unfolding see
see-Found w l = (
  visited (mem l.production_lot_id w.visited) refl,
  found (any (is_lot l.production_lot_id) w.impacted) refl,
)
  where
    visited :
        (b : Bool)
        → mem l.production_lot_id w.visited ≡ b
        → mem l.production_lot_id (if b then w.visited else l.production_lot_id ∷ w.visited) ≡ true
    visited true e = e
    visited false e = rw (same_id l.production_lot_id) refl

    found :
        (b : Bool)
        → any (is_lot l.production_lot_id) w.impacted ≡ b
        → any (is_lot l.production_lot_id) (if b then w.impacted else w.impacted ++ l ∷ []) ≡ true
    found true e = e
    found false e =
        any-append (is_lot l.production_lot_id) w.impacted (l ∷ [])
        ∙ rw (e, same_id l.production_lot_id) refl

Found-Grows : (w x : WalkState) (l : ProductionLot) → Grows w x → Found w l → Found x l
Found-Grows w x l g f = (g.visits l.production_lot_id f.0, g.finds l.production_lot_id f.1)

see_all-Grows : (w : WalkState) (ls : List ProductionLot) → Grows w (see_all w ls)
unfolding see_all
see_all-Grows w [] = Grows-self w
see_all-Grows w (l ∷ ls) =
    Grows-trans w (see w l) (see_all (see w l) ls) (see-Grows w l) (see_all-Grows (see w l) ls)

see_all-Found : (w : WalkState) (ls : List ProductionLot) → All (Found (see_all w ls)) ls
unfolding see_all
see_all-Found w [] = tt
see_all-Found w (l ∷ ls) = (
  Found-Grows (see w l) (see_all (see w l) ls) l (see_all-Grows (see w l) ls) (see-Found w l),
  see_all-Found (see w l) ls,
)

module _ (direct : ℕ → List ProductionLot) where
  -- What was visited is still pending, or its direct lots were all found.
  abbrev pub Covered : WalkState → Type 0
  Covered w = (i : ℕ) → mem i w.visited ≡ true → (mem i w.pending ≡ true) ⊎ All (Found w) (direct i)

  round-Covered :
      (w : WalkState) (current : ℕ) (rest : List ℕ)
      → w.pending ≡ current ∷ rest
      → Covered w
      → Covered (see_all (popped w rest) (direct current))
  round-Covered w current rest e covered i h = elim (grows.fresh i h) [
    | inr queued ↦ inl queued
    | inl seen ↦ before (covered i seen)
  ]
    where
      after : WalkState
      after = see_all (popped w rest) (direct current)

      grows : Grows (popped w rest) (see_all (popped w rest) (direct current))
      grows = see_all-Grows (popped w rest) (direct current)

      queue :
          (mem i (current ∷ rest) ≡ true)
          → (mem i (see_all (popped w rest) (direct current)).pending ≡ true)
            ⊎ All (Found (see_all (popped w rest) (direct current))) (direct i)
      queue q = elim (Bool-cases (current == i)) [
        | inl at ↦ inr (
            subst (λ k. All (Found (see_all (popped w rest) (direct current))) (direct k))
              ((==_iff _ _).0 at) (see_all-Found (popped w rest) (direct current)))
        | inr other ↦ inl (grows.queues i (rw other at q))
      ]

      before :
          (mem i w.pending ≡ true) ⊎ All (Found w) (direct i)
          → (mem i (see_all (popped w rest) (direct current)).pending ≡ true)
            ⊎ All (Found (see_all (popped w rest) (direct current))) (direct i)
      before (inl p) = queue (subst (λ ps. mem i ps ≡ true) e p)
      before (inr f) = inr (
          All-map (Found w) (Found (see_all (popped w rest) (direct current))) (direct i)
            (λ l g.
              Found-Grows (popped w rest) (see_all (popped w rest) (direct current)) l grows g)
            f)

  pub walk-Covered :
      (n : ℕ) (w : WalkState) (from : ℕ)
      → mem from w.visited ≡ true
      → Covered w
      → (mem from (walk direct n w).visited ≡ true) × Covered (walk direct n w)
  unfolding walk
  walk-Covered zero w from v c = (v, c)
  walk-Covered (suc n) w from v c = by_pending w.pending refl (λ x u d. walk-Covered n x from u d)
    where
      by_pending :
          (ps : List ℕ)
          → w.pending ≡ ps
          → ((x : WalkState)
              → mem from x.visited ≡ true
              → Covered x
              → (mem from (walk direct n x).visited ≡ true) × Covered (walk direct n x))
          → (mem from (walk direct (suc n) w).visited ≡ true) × Covered (walk direct (suc n) w)
      by_pending [] e next =
          rw e (v, λ i h. elim (c i h) [ inl p ↦ inl (rw e at p) | inr f ↦ inr f ])
      by_pending (current ∷ rest) e next = rw e (
          next _ ((see_all-Grows (popped w rest) (direct current)).visits from v)
            (round-Covered w current rest e c))

  covered-Found :
      (w : WalkState) (i : ℕ) (l : ProductionLot)
      → w.pending ≡ []
      → (mem i w.pending ≡ true) ⊎ All (Found w) (direct i)
      → Any (λ d. d ≡ l) (direct i)
      → Found w l
  covered-Found w i l e (inl p) at = absurd (nothing (subst (λ ps. mem i ps ≡ true) e p))
    where
      nothing : false ≡ true → ⊥
      nothing h = cc
  covered-Found w i l e (inr f) at =
      let (d, same, found) = Any-pick (λ d. d ≡ l) (Found w) (direct i) at f in
      subst (Found w) same found

  -- When nothing is pending, all that is downstream of a visited LOT was found.
  pub Downstream-Found :
      (w : WalkState) (from : ℕ) (l : ProductionLot)
      → w.pending ≡ []
      → mem from w.visited ≡ true
      → Covered w
      → Downstream direct from l
      → Found w l
  Downstream-Found w from l e v c (directly m at) = covered-Found w from l e (c from v) at
  Downstream-Found w from l e v c (through mid m d at) =
      let (visited, _) = Downstream-Found w from mid e v c d in
      covered-Found w mid.production_lot_id l e (c mid.production_lot_id visited) at
