-- ===== src/Traceability.antt =====
-- From a material LOT to the production lots it went into (backend/src/hyc_domain/traceability.py).
-- An identifier is a number, ordered as its text; a date is its ordinal. The mapping from
-- allocations to LOTs is a list of pairs with distinct keys. Quantities are not read.
pub mod Walk
pub mod Complete
pub mod Affected
pub mod Sources
pub mod Impact
use hanyangchem_qc_v.Base.{
  ℕ, zero, suc, ◌+◌, Bool, true, false, not, ◌&&◌, ◌||◌, Option, none, some, List, [], ◌∷◌, ◌++◌,
  map, filter, find?, any, length, ltb, ◌==◌, if◌then◌else◌, sort_by,
}

pub record Consumption : Type 0 where
  pub allocation_id : ℕ
  pub production_lot_id : ℕ

pub record ProductionLot : Type 0 where
  pub production_lot_id : ℕ
  pub product_material_id : ℕ
  pub produced_on : ℕ

-- `_production_lot_key(a) < _production_lot_key(b)`.
unfoldable pub key_before : ProductionLot → ProductionLot → Bool
key_before a b =
    ltb a.produced_on b.produced_on
    || a.produced_on == b.produced_on && ltb a.product_material_id b.product_material_id
    || a.produced_on == b.produced_on
      && a.product_material_id == b.product_material_id
      && ltb a.production_lot_id b.production_lot_id

abbrev pub by_key : List ProductionLot → List ProductionLot
by_key lots = sort_by key_before lots

abbrev pub is_lot : ℕ → ProductionLot → Bool
is_lot i l = l.production_lot_id == i

-- `dict.setdefault` by the lot's id: the first one stays.
abbrev pub set_default : List ProductionLot → ProductionLot → List ProductionLot
set_default known l = if any (is_lot l.production_lot_id) known then known else known ++ l ∷ []

-- The sources of `_sources`: the allocations of a material LOT, the lot with an id, the first by
-- its key, and the lots that consumed an allocation.
abbrev pub allocations_of : List (ℕ × ℕ) → ℕ → List ℕ
allocations_of allocations material_lot =
    sort_by ltb (map (λ p. p.0) (filter (λ p. p.1 == material_lot) allocations))

abbrev pub known_lot : List ProductionLot → ℕ → Option ProductionLot
known_lot lots i = find? (is_lot i) (by_key lots)

abbrev pub keep : Option ProductionLot → List ProductionLot → List ProductionLot
keep none rest = rest
keep (some l) rest = l ∷ rest

abbrev pub matched : List ProductionLot → List Consumption → List ProductionLot
matched lots [] = []
matched lots (c ∷ cs) = keep (known_lot lots c.production_lot_id) (matched lots cs)

unfoldable pub consumed_by : List Consumption → List ProductionLot → ℕ → List ProductionLot
consumed_by consumptions lots allocation =
    by_key (matched lots (filter (λ (c : Consumption). c.allocation_id == allocation) consumptions))

abbrev pub set_defaults : List ProductionLot → List ProductionLot → List ProductionLot
set_defaults known [] = known
set_defaults known (l ∷ ls) = set_defaults (set_default known l) ls

-- The two loops of `_directly_consumed_lots`.
abbrev pub collect : (ℕ → List ProductionLot) → List ProductionLot → List ℕ → List ProductionLot
collect consumed known [] = known
collect consumed known (a ∷ rest) = collect consumed (set_defaults known (consumed a)) rest

-- `_directly_consumed_lots`; `trace_forward` is the same.
unfoldable pub directly_consumed :
    List (ℕ × ℕ) → List Consumption → List ProductionLot → ℕ → List ProductionLot
unfolding consumed_by
directly_consumed allocations consumptions lots material_lot =
    by_key (collect (consumed_by consumptions lots) [] (allocations_of allocations material_lot))

-- The variables of `impact_scope`. The set of visited ids is a list.
pub record WalkState : Type 0 where
  pub visited : List ℕ
  pub pending : List ℕ
  pub impacted : List ProductionLot

abbrev pub mem : ℕ → List ℕ → Bool
mem i is = any (λ j. j == i) is

-- The body of the inner loop.
unfoldable pub see : WalkState → ProductionLot → WalkState
see w l =
    let known = mem l.production_lot_id w.visited in
    record {
      visited = if known then w.visited else l.production_lot_id ∷ w.visited;
      pending = if known then w.pending else w.pending ++ l.production_lot_id ∷ [];
      impacted = set_default w.impacted l;
    }

unfoldable pub see_all : WalkState → List ProductionLot → WalkState
unfolding see
see_all w [] = w
see_all w (l ∷ ls) = see_all (see w l) ls

abbrev pub popped : WalkState → List ℕ → WalkState
popped w rest = record w { pending = rest }

-- The outer loop, for at most `n` rounds.
unfoldable pub walk : (ℕ → List ProductionLot) → ℕ → WalkState → WalkState
unfolding see_all
walk direct zero w = w
walk direct (suc n) w = elim w.pending [
  | [] ↦ w
  | current ∷ rest ↦ walk direct n (see_all (popped w rest) (direct current))
]

abbrev pub start : ℕ → WalkState
start material_lot = record {
  visited = material_lot ∷ [];
  pending = material_lot ∷ [];
  impacted = [];
}

-- `impact_scope`: one round for the LOT itself, and one for each production lot.
unfoldable pub impact_scope :
    List (ℕ × ℕ) → List Consumption → List ProductionLot → ℕ → List ProductionLot
unfolding walk directly_consumed
impact_scope allocations consumptions lots material_lot =
    by_key
      (walk (directly_consumed allocations consumptions lots) (suc (length (by_key lots)))
        (start material_lot)).impacted
