-- ===== src/Traceability/Sources.antt =====
-- About `_sources` and `_directly_consumed_lots` of traceability.py: the lots that used a LOT.
use hanyangchem_qc_v.Base.{
  ℕ, ◌≡◌, refl, sym, ap, subst, ◌∙◌, inl, inr, Bool, true, Option, none, some, List, [], ◌∷◌, map,
  filter, any, find?, find?_sound, filter-All, All, Any, Any-map, All-map, All-self, Any-pick,
  sort_by-All, sort_by-Any, any-sort_by, ◌==◌, ==_iff, ltb, Bool-cases, arith,
}
use hanyangchem_qc_v.Traceability.{
  Consumption, ProductionLot, key_before, by_key, is_lot, known_lot, keep, matched, consumed_by,
  allocations_of, directly_consumed,
}
use hanyangchem_qc_v.Traceability.Affected.{
  Consumes, Uses, Registered, Member, collect-All, collect-put,
}

mapped-All :
    {A : Type 0} {B : Type 0} (P : B → Type 0) (f : A → B) (xs : List A)
    → All (λ x. P (f x)) xs
    → All P (map f xs)
mapped-All P f [] h = tt
mapped-All P f (x ∷ xs) h = (h.0, mapped-All P f xs h.1)

mapped-Any :
    {A : Type 0} {B : Type 0} (P : B → Type 0) (f : A → B) (xs : List A)
    → Any (λ x. P (f x)) xs
    → Any P (map f xs)
mapped-Any P f [] h = absurd h
mapped-Any P f (x ∷ xs) (inl h) = inl h
mapped-Any P f (x ∷ xs) (inr h) = inr (mapped-Any P f xs h)

filtered-Any :
    {A : Type 0} (test : A → Bool) (P : A → Type 0) (xs : List A)
    → Any (λ x. (test x ≡ true) × P x) xs
    → Any P (filter test xs)
filtered-Any test P [] h = absurd h
filtered-Any test P (x ∷ xs) (inl h) = rw h.0 (inl h.1)
filtered-Any test P (x ∷ xs) (inr h) = elim (Bool-cases (test x)) [
  | inl hit ↦ rw hit (inr (filtered-Any test P xs h))
  | inr miss ↦ rw miss (filtered-Any test P xs h)
]

find?-any :
    {A : Type 0} (test : A → Bool) (xs : List A)
    → any test xs ≡ true
    → (x : A) × (find? test xs ≡ some x) × (test x ≡ true)
find?-any test [] h = cc
find?-any test (x ∷ xs) h = elim (Bool-cases (test x)) [
  | inl hit ↦ (x, rw hit refl, hit)
  | inr miss ↦ let (y, found, holds) = find?-any test xs (rw miss at h) in (y, rw miss found, holds)
]

module _ (allocations : List (ℕ × ℕ)) (consumptions : List Consumption)
    (lots : List ProductionLot) where
  by_key-Member : (l : ProductionLot) → Member (by_key lots) l → Member lots l
  by_key-Member l at =
      let (x, same, there) =
        Any-pick (λ y. y ≡ l) (Member lots) (by_key lots) at
          (sort_by-All key_before (Member lots) lots (All-self lots)) in
      subst (Member lots) same there

  known_lot-found :
      (i : ℕ) {l : ProductionLot}
      → known_lot lots i ≡ some l
      → (l.production_lot_id ≡ i) × Member lots l
  known_lot-found i {l = l} found =
      let (at, there) =
        find?_sound (is_lot i) (Member (by_key lots)) (by_key lots) found
          (All-self (by_key lots)) in
      ((==_iff _ _).0 at, by_key-Member l there)

  -- A registered lot that consumed the allocation.
  Consumer : ℕ → ProductionLot → Type 0
  Consumer a l = Consumes consumptions a l.production_lot_id × Member lots l

  matched-Consumer :
      (a : ℕ) (cs : List Consumption)
      → All (λ (c : Consumption). Consumes consumptions a c.production_lot_id) cs
      → All (Consumer a) (matched lots cs)
  unfolding Consumer
  matched-Consumer a [] h = tt
  matched-Consumer a (c ∷ cs) h =
      kept (known_lot lots c.production_lot_id) refl (matched-Consumer a cs h.1)
    where
      kept :
          (o : Option ProductionLot)
          → known_lot lots c.production_lot_id ≡ o
          → All (Consumer a) (matched lots cs)
          → All (Consumer a) (keep o (matched lots cs))
      kept none e rest = rest
      kept (some l) e rest =
          let (same, there) = known_lot-found c.production_lot_id e in
          ((subst (Consumes consumptions a) (sym same) h.0, there), rest)

  consumed_by-Consumer : (a : ℕ) → All (Consumer a) (consumed_by consumptions lots a)
  unfolding consumed_by
  consumed_by-Consumer a = sort_by-All key_before (Consumer a) _ (
      matched-Consumer a _ (
        All-map _ _ _
          (λ c (hit, at).
            Any-map (λ d. d ≡ c) _ consumptions
              (λ d same. (
                ap (λ (x : Consumption). x.allocation_id) same ∙ (==_iff _ _).0 hit,
                ap (λ (x : Consumption). x.production_lot_id) same,
              ))
              at)
          (filter-All (λ (c : Consumption). c.allocation_id == a) _ consumptions
            (All-self consumptions))))

  allocations_of-of_lot :
      (from : ℕ) → All (λ a. Any (λ p. p ≡ (a, from)) allocations) (allocations_of allocations from)
  allocations_of-of_lot from =
      sort_by-All ltb (λ a. Any (λ p. p ≡ (a, from)) allocations) _
        (mapped-All (λ a. Any (λ p. p ≡ (a, from)) allocations) (λ p. p.0)
          (filter (λ p. p.1 == from) allocations)
          (All-map _ _ _
            (λ p (hit, at).
              Any-map (λ q. q ≡ p) (λ q. q ≡ (p.0, from)) allocations
                (λ q same. same ∙ ap (λ n. (p.0, n)) ((==_iff _ _).0 hit)) at)
            (filter-All (λ p. p.1 == from) _ allocations (All-self allocations))))

  matched-put :
      (i : ℕ) (cs : List Consumption)
      → Any (λ (c : Consumption). c.production_lot_id ≡ i) cs
      → Registered lots i
      → any (is_lot i) (matched lots cs) ≡ true
  matched-put i [] h known = absurd h
  matched-put i (c ∷ cs) (inl h) known =
      let (l, found, holds) =
        find?-any (is_lot i) (by_key lots) (any-sort_by key_before (is_lot i) lots ∙ known) in
      rw (h, found, holds) refl
  matched-put i (c ∷ cs) (inr h) known =
      kept (known_lot lots c.production_lot_id) (matched-put i cs h known)
    where
      kept :
          (o : Option ProductionLot)
          → any (is_lot i) (matched lots cs) ≡ true
          → any (is_lot i) (keep o (matched lots cs)) ≡ true
      kept none rest = rest
      kept (some l) rest = ground (arith, rest)

  consumed_by-put :
      (a i : ℕ)
      → Consumes consumptions a i
      → Registered lots i
      → any (is_lot i) (consumed_by consumptions lots a) ≡ true
  unfolding consumed_by
  consumed_by-put a i used known =
      any-sort_by key_before (is_lot i) _
      ∙ matched-put i (filter (λ (c : Consumption). c.allocation_id == a) consumptions)
          (filtered-Any (λ (c : Consumption). c.allocation_id == a) _ consumptions
            (Any-map _ _ consumptions (λ c h. ((==_iff _ _).1 h.0, h.1)) used))
          known

  -- What is consumed directly is a registered lot that used the LOT.
  pub directly_consumed-Uses :
      (from : ℕ)
      → All
          (λ l. Uses allocations consumptions from l.production_lot_id × Member lots l)
          (directly_consumed allocations consumptions lots from)
  unfolding directly_consumed Consumer
  directly_consumed-Uses from = sort_by-All key_before Used _ (
      collect-All Used (consumed_by consumptions lots) [] (allocations_of allocations from) tt (
        All-map _ _ (allocations_of allocations from)
          (λ a of_lot.
            All-map (Consumer a) Used (consumed_by consumptions lots a)
              (λ l (consumed, there).
                (record { allocation = a; of_lot = of_lot; consumed = consumed }, there))
              (consumed_by-Consumer a))
          (allocations_of-of_lot from)))
    where
      Used : ProductionLot → Type 0
      Used l = Uses allocations consumptions from l.production_lot_id × Member lots l

  -- And all of them are there, by their ids.
  pub Uses-directly_consumed :
      (from i : ℕ)
      → Uses allocations consumptions from i
      → Registered lots i
      → any (is_lot i) (directly_consumed allocations consumptions lots from) ≡ true
  unfolding directly_consumed
  Uses-directly_consumed from i u known =
      any-sort_by key_before (is_lot i) _
      ∙ collect-put i (consumed_by consumptions lots) [] (allocations_of allocations from) (
          sort_by-Any ltb (λ a. any (is_lot i) (consumed_by consumptions lots a) ≡ true) _
            (mapped-Any (λ a. any (is_lot i) (consumed_by consumptions lots a) ≡ true) (λ p. p.0)
              (filter (λ p. p.1 == from) allocations)
              (filtered-Any (λ p. p.1 == from) _ allocations
                (Any-map (λ p. p ≡ (u.allocation, from)) _ allocations
                  (λ p same. (
                    (==_iff _ _).1 (ap (λ q. q.1) same),
                    ap (λ q. any (is_lot i) (consumed_by consumptions lots q.0)) same
                        ∙ consumed_by-put u.allocation i u.consumed known,
                  ))
                  u.of_lot))))
