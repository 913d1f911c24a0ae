-- ===== src/Examples/Traceability.antt =====
-- A LOT that goes into a production lot, which comes back as material for the first: a circle.
use hanyangchem_qc_v.Base.{
  ℕ, ◌≡◌, refl, inl, inr, true, List, [], ◌∷◌, any, All, sort_by, insert_by,
}
use hanyangchem_qc_v.Traceability.{
  Consumption, ProductionLot, is_lot, key_before, consumed_by, directly_consumed, see, see_all,
  walk, impact_scope,
}
use hanyangchem_qc_v.Traceability.Affected.{Affected, uses_directly, uses_through, Member}
use hanyangchem_qc_v.Traceability.Impact.{last_state, impact_scope-Affected, Affected-impact_scope}

abbrev allocations : List (ℕ × ℕ)
allocations = (1, 100) ∷ (2, 200) ∷ []

abbrev consumptions : List Consumption
consumptions =
    record { allocation_id = 1; production_lot_id = 200 }
    ∷ record { allocation_id = 2; production_lot_id = 100 }
    ∷ []

abbrev mixed : ProductionLot
mixed = record { production_lot_id = 200; product_material_id = 7; produced_on = 20 }

abbrev recycled : ProductionLot
recycled = record { production_lot_id = 100; product_material_id = 5; produced_on = 30 }

abbrev lots : List ProductionLot
lots = recycled ∷ mixed ∷ []

scope : impact_scope allocations consumptions lots 100 ≡ mixed ∷ recycled ∷ []
unfolding impact_scope walk see_all see directly_consumed consumed_by sort_by insert_by key_before
scope = refl

into_mixed : Affected allocations consumptions lots 100 200
into_mixed =
    uses_directly 200 (record { allocation = 1; of_lot = inl refl; consumed = inl (refl, refl) })
      refl

into_recycled : Affected allocations consumptions lots 100 100
into_recycled =
    uses_through 200 100 into_mixed
      (record { allocation = 2; of_lot = inr (inl refl); consumed = inr (inl (refl, refl)) }) refl

impact_scope-Affected_example :
    All
      (λ l. Affected allocations consumptions lots 100 l.production_lot_id × Member lots l)
      (impact_scope allocations consumptions lots 100)
impact_scope-Affected_example = impact_scope-Affected allocations consumptions lots 100

Affected-impact_scope_example :
    ((last_state allocations consumptions lots 100).pending ≡ [])
    × (any (is_lot 100) (impact_scope allocations consumptions lots 100) ≡ true)
Affected-impact_scope_example =
    Affected-impact_scope allocations consumptions lots 100 100 into_recycled
