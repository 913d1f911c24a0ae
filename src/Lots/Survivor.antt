-- ===== src/Lots/Survivor.antt =====
-- About `_surviving_lot` of LotRepository: the LOT that a chain of merges leads to.
use hanyangchem_qc_v.Base.{
  ℕ, zero, suc, ◌≡◌, refl, sym, ◌∙◌, ap, ◌≢◌, inl, inr, Bool, false, not, ◌||◌, Option, none, some,
  List, [], ◌∷◌, any, str_eq, eq_iff, ◌==◌, ==_iff, is_some, arith, Bool-cases, bind-ok,
  raise_if-ok, ok,
}
use hanyangchem_qc_v.Store.{MaterialLot, Store}
use hanyangchem_qc_v.Approval.{
  or_raise, merge_cycle, no_survivor, merge_without_target, survivor_unavailable,
}
use hanyangchem_qc_v.Approval.Accepted.{negated}
use hanyangchem_qc_v.Lots.{
  max_merge_depth, lot_row, live_lot, settled_lot, follow_merges, surviving_lot, put_lot,
}

-- A LOT that resolves to itself.
abbrev pub Canonical : MaterialLot → Type 0
Canonical lot = (lot.identity_status ≡ "CANONICAL") × (lot.merged_into_id ≡ none)

pub no_value : {A : Type 0} (o : Option A) → is_some o ≡ false → o ≡ none
no_value none h = refl
no_value (some a) h = cc

or_false : (a b : Bool) → (a || b) ≡ false → (a ≡ false) × (b ≡ false)
or_false a b h = ground arith

settled_lot-Canonical : (lot : MaterialLot) {s : MaterialLot} → settled_lot lot ≡ ok s → Canonical s
settled_lot-Canonical lot {s = s} h =
    let (good, done) =
      raise_if-ok (not (str_eq lot.identity_status "CANONICAL") || is_some lot.merged_into_id)
        no_survivor _ h in
    let (status, target) = or_false _ _ good in
    let same : lot ≡ s = cc in
    (
      ap (λ (l : MaterialLot). l.identity_status) (sym same) ∙ (eq_iff _ _).0 (negated _ status),
      ap (λ (l : MaterialLot). l.merged_into_id) (sym same) ∙ no_value _ target,
    )

follow_merges-Canonical :
    (n : ℕ) (visited : List ℕ) (store : Store) (lot : MaterialLot) {s : MaterialLot}
    → follow_merges n visited store lot ≡ ok s
    → Canonical s
unfolding follow_merges
follow_merges-Canonical zero visited store lot h = cc
follow_merges-Canonical (suc n) visited store lot h =
    let (_, h1) = raise_if-ok (any (λ i. i == lot.id) visited) merge_cycle _ h in
    elim (Bool-cases (not (str_eq lot.identity_status "MERGED"))) [
      | inl settled ↦ settled_lot-Canonical lot (rw settled at h1)
      | inr merged ↦
          let h2 = rw merged at h1 in
          let (target, _, h3) = bind-ok (or_raise lot.merged_into_id merge_without_target) _ h2 in
          let (next, _, h4) =
            bind-ok (or_raise (live_lot store target) survivor_unavailable) _ h3 in
          follow_merges-Canonical n (lot.id ∷ visited) store next h4
    ]

-- Whatever chain of merges a LOT stands at, what `_surviving_lot` returns is a canonical LOT that
-- is merged into no other.
pub surviving_lot-Canonical :
    (store : Store) (lot : MaterialLot) {s : MaterialLot}
    → surviving_lot store lot ≡ ok s
    → Canonical s
unfolding surviving_lot
surviving_lot-Canonical store lot h = follow_merges-Canonical max_merge_depth [] store lot h

pub lot_row-other :
    (l : MaterialLot) (lots : List MaterialLot) (j : ℕ)
    → l.id ≢ j
    → lot_row j (put_lot l lots) ≡ lot_row j lots
lot_row-other l [] j n = refl
lot_row-other l (x ∷ xs) j n = elim (Bool-cases (x.id == l.id)) [
  | inl hit ↦
      let x_other : (x.id == j) ≡ false =
        different x.id j (λ e. n (sym ((==_iff _ _).0 hit) ∙ e)) in
      rw (hit, different l.id j n, x_other, lot_row-other l xs j n)
  | inr miss ↦ rw (miss, lot_row-other l xs j n)
]
  where
    different : (a b : ℕ) → a ≢ b → (a == b) ≡ false
    different a b n = elim (Bool-cases (a == b)) [
      | inl same ↦ absurd (n ((==_iff a b).0 same))
      | inr other ↦ other
    ]
