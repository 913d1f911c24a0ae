-- ===== src/Traceability/Impact.antt =====
-- About `impact_scope` of traceability.py: its rounds and its result.
use hanyangchem_qc_v.Base.{
  ℕ, suc, ◌≡◌, refl, sym, subst, ◌∙◌, ap, inl, inr, true, false, ◌||◌, Option, none, some, List, [],
  ◌∷◌, any, map, find?_sound, length, All, Any, All-map, All-self, Any-pick, any-true, ==_iff,
  arith, sort_by-All, any-sort_by,
}
use hanyangchem_qc_v.Traceability.{
  Consumption, ProductionLot, WalkState, key_before, by_key, is_lot, known_lot, keep, matched,
  consumed_by, allocations_of, directly_consumed, mem, walk, start, impact_scope,
}
use hanyangchem_qc_v.Traceability.Walk.{
  Within, Downstream, directly, through, walk-Sound, walk-end, unseen-length, same_id,
}
use hanyangchem_qc_v.Traceability.Affected.{
  Uses, Registered, Affected, uses_directly, uses_through, Member, collect-All,
}
use hanyangchem_qc_v.Traceability.Sources.{directly_consumed-Uses, Uses-directly_consumed}
use hanyangchem_qc_v.Traceability.Complete.{walk-Covered, Downstream-Found}

abbrev ids : List ProductionLot → List ℕ
ids lots = map (λ l. l.production_lot_id) lots

length-ids : (lots : List ProductionLot) → length (ids lots) ≡ length lots
length-ids [] = refl
length-ids (l ∷ ls) = ap suc (length-ids ls)

module _ (allocations : List (ℕ × ℕ)) (consumptions : List Consumption)
    (lots : List ProductionLot) where
  abbrev direct : ℕ → List ProductionLot
  direct = directly_consumed allocations consumptions lots

  abbrev universe : List ℕ
  universe = ids (by_key lots)

  abbrev Known : ProductionLot → Type 0
  Known l = mem l.production_lot_id universe ≡ true

  member-Known :
      (l : ProductionLot) (ls : List ProductionLot)
      → Any (λ y. y ≡ l) ls
      → mem l.production_lot_id (ids ls) ≡ true
  member-Known l [] h = absurd h
  member-Known l (x ∷ xs) (inl e) = rw (e, same_id l.production_lot_id) refl
  member-Known l (x ∷ xs) (inr h) = ground (arith, member-Known l xs h)

  known_lot-Known : (i : ℕ) {l : ProductionLot} → known_lot lots i ≡ some l → Known l
  known_lot-Known i {l = l} found =
      let (_, at) =
        find?_sound (is_lot i) (λ x. Any (λ y. y ≡ x) (by_key lots)) (by_key lots) found
          (All-self (by_key lots)) in
      member-Known l (by_key lots) at

  keep-Known :
      (o : Option ProductionLot) (rest : List ProductionLot)
      → ((l : ProductionLot) → o ≡ some l → Known l)
      → All Known rest
      → All Known (keep o rest)
  keep-Known none rest k h = h
  keep-Known (some l) rest k h = (k l refl, h)

  matched-Known : (cs : List Consumption) → All Known (matched lots cs)
  matched-Known [] = tt
  matched-Known (c ∷ cs) =
      keep-Known (known_lot lots c.production_lot_id) (matched lots cs)
        (λ l found. known_lot-Known c.production_lot_id found) (matched-Known cs)

  consumed_by-Known : (a : ℕ) → All Known (consumed_by consumptions lots a)
  unfolding consumed_by
  consumed_by-Known a = sort_by-All key_before Known _ (matched-Known _)

  direct-Within : (i : ℕ) → Within direct universe (direct i)
  unfolding directly_consumed
  direct-Within i = sort_by-All key_before Known _ (
      collect-All Known (consumed_by consumptions lots) [] (allocations_of allocations i) tt
        (every (allocations_of allocations i)))
    where
      every : (as_list : List ℕ) → All (λ a. All Known (consumed_by consumptions lots a)) as_list
      every [] = tt
      every (a ∷ rest) = (consumed_by-Known a, every rest)

  abbrev pub last_state : ℕ → WalkState
  last_state from = walk direct (suc (length (by_key lots))) (start from)

  -- The rounds of `impact_scope` are enough: its walk comes to its end.
  last_state-end : (from : ℕ) → (last_state from).pending ≡ []
  last_state-end from =
      walk-end direct universe (suc (length (by_key lots))) (start from) direct-Within
        (omega (arith, unseen-length (from ∷ []) universe, length-ids (by_key lots)))

  Member-Registered :
      (l : ProductionLot) (ls : List ProductionLot)
      → Member ls l
      → Registered ls l.production_lot_id
  Member-Registered l [] h = absurd h
  Member-Registered l (x ∷ xs) (inl e) = rw (e, same_id l.production_lot_id) refl
  Member-Registered l (x ∷ xs) (inr h) = ground (arith, Member-Registered l xs h)

  direct-Uses :
      (from : ℕ) (l : ProductionLot)
      → Any (λ y. y ≡ l) (direct from)
      → Uses allocations consumptions from l.production_lot_id × Member lots l
  direct-Uses from l at =
      let (_, same, used) =
        Any-pick (λ y. y ≡ l) _ (direct from) at
          (directly_consumed-Uses allocations consumptions lots from) in
      subst (λ x. Uses allocations consumptions from x.production_lot_id × Member lots x) same used

  -- What the walk finds downstream is affected and registered.
  Downstream-Affected :
      (from : ℕ) (l : ProductionLot)
      → Downstream direct from l
      → Affected allocations consumptions lots from l.production_lot_id × Member lots l
  Downstream-Affected from l (directly m at) =
      let (used, there) = direct-Uses from l at in
      (uses_directly l.production_lot_id used (Member-Registered l lots there), there)
  Downstream-Affected from l (through mid m d at) =
      let (before, _) = Downstream-Affected from mid d in
      let (used, there) = direct-Uses mid.production_lot_id l at in
      (
        uses_through mid.production_lot_id l.production_lot_id before used
            (Member-Registered l lots there),
        there,
      )

  -- A registered lot that used a LOT is consumed directly.
  Uses-direct :
      (from i : ℕ)
      → Uses allocations consumptions from i
      → Registered lots i
      → (l : ProductionLot) × Any (λ y. y ≡ l) (direct from) × (l.production_lot_id ≡ i)
  Uses-direct from i u known =
      let (l, hit, at) =
        Any-pick (λ x. is_lot i x ≡ true) (λ x. Any (λ y. y ≡ x) (direct from)) (direct from)
          (any-true (is_lot i) (direct from)
            (Uses-directly_consumed allocations consumptions lots from i u known))
          (All-self (direct from)) in
      (l, at, (==_iff _ _).0 hit)

  Affected-Downstream :
      (from i : ℕ)
      → Affected allocations consumptions lots from i
      → (l : ProductionLot) × Downstream direct from l × (l.production_lot_id ≡ i)
  Affected-Downstream from i (uses_directly m u known) =
      let (l, at, same) = Uses-direct from i u known in (l, directly l at, same)
  Affected-Downstream from i (uses_through mid m before u known) =
      let (x, d, is_mid) = Affected-Downstream from mid before in
      let (l, at, same) =
        Uses-direct x.production_lot_id i
          (subst (λ j. Uses allocations consumptions j i) (sym is_mid) u) known in
      (l, through x l d at, same)

  -- Every lot that `impact_scope` returns is a registered one that the material LOT affects: it
  -- consumed an allocation of the LOT, or of a registered lot that the LOT affects.
  pub impact_scope-Affected :
      (from : ℕ)
      → All
          (λ l. Affected allocations consumptions lots from l.production_lot_id × Member lots l)
          (impact_scope allocations consumptions lots from)
  unfolding impact_scope
  impact_scope-Affected from = All-map (Downstream direct from) _ _ (Downstream-Affected from) (
      sort_by-All key_before (Downstream direct from) _
        (walk-Sound direct from (suc (length (by_key lots))) (start from)
          (tt, (starts (direct from) (All-self (direct from)), tt))).0)
    where
      starts :
          (ls : List ProductionLot)
          → All (λ l. Any (λ y. y ≡ l) (direct from)) ls
          → All (Downstream direct from) ls
      starts ls h = All-map _ (Downstream direct from) ls (λ l at. directly l at) h

  Downstream-impact_scope :
      (from : ℕ) (l : ProductionLot)
      → Downstream direct from l
      → any (is_lot l.production_lot_id) (impact_scope allocations consumptions lots from) ≡ true
  unfolding impact_scope
  Downstream-impact_scope from l d =
      let (visited, covered) =
        walk-Covered direct (suc (length (by_key lots))) (start from) from
          (ap (λ b. b || false) (same_id from)) (λ i h. inl h) in
      any-sort_by key_before (is_lot l.production_lot_id) (last_state from).impacted
      ∙ (Downstream-Found direct (last_state from) from l (last_state-end from) visited covered d).1

  -- The walk of `impact_scope` comes to its end within its rounds, also where the consumptions run
  -- in a circle, and misses nothing: of each id that the material LOT affects it returns a lot.
  pub Affected-impact_scope :
      (from i : ℕ)
      → Affected allocations consumptions lots from i
      → ((last_state from).pending ≡ [])
        × (any (is_lot i) (impact_scope allocations consumptions lots from) ≡ true)
  Affected-impact_scope from i a =
      let (l, d, same) = Affected-Downstream from i a in
      (
        last_state-end from,
        subst (λ j. any (is_lot j) (impact_scope allocations consumptions lots from) ≡ true) same
            (Downstream-impact_scope from l d),
      )
