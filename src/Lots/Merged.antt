-- ===== src/Lots/Merged.antt =====
-- About `guarded_merge` of LotRepository: what it demands, and what it leaves.
use hanyangchem_qc_v.Base.{
  ℕ, suc, ◌≡◌, refl, sym, ap, ◌∙◌, ◌≢◌, inl, inr, true, false, Option, none, some, List, [], ◌∷◌,
  ◌++◌, String, str_eq, eq_iff, ◌==◌, ==_iff, is_none, is_some, arith, Bool-cases, ok,
}
use hanyangchem_qc_v.Base.Text.{is_blank}
use hanyangchem_qc_v.Store.{MaterialLot, Store}
use hanyangchem_qc_v.Approval.Accepted.{live-some, live-deleted, differs}
use hanyangchem_qc_v.Lots.{lot_row, live_lot, put_lot}
use hanyangchem_qc_v.Lots.Survivor.{lot_row-other}
use hanyangchem_qc_v.Lots.Changes.{
  Merger, mergeable, is_target, merged_lot, record_merge, guarded_merge,
}
use hanyangchem_qc_v.Lots.Merge.{lot_row-id, guarded_merge-Steps}

-- The LOT as it was, and the target, which a merge demands.
pub record MayMerge (m : Merger) (before target : MaterialLot) : Type 0 where
  pub expected : before.lock_version ≡ m.expected_version
  pub waiting : before.identity_status ≡ "CONFLICT_REVIEW"
  pub unmerged : before.merged_into_id ≡ none
  pub apart : m.lot_id ≢ m.merged_into_id
  pub canonical : target.identity_status ≡ "CANONICAL"
  pub named : (key : String) × (target.identity_key ≡ some key)
  pub surviving : target.merged_into_id ≡ none
  pub same_supplier : target.supplier_id ≡ before.supplier_id
  pub same_material : target.material_id ≡ before.material_id
  pub same_policy : target.identity_policy_version ≡ before.identity_policy_version
  pub two_actors : m.quality_manager_id ≢ m.quality_admin_id
  pub reasoned : is_blank m.reason ≡ false

-- The row of the LOT that a merge leaves, beside the row of another one.
pub record Merges (store : Store) (m : Merger) (other : ℕ) (after : Store)
    (before lot : MaterialLot) : Type 0 where
  pub stands : live_lot after m.lot_id ≡ some lot
  pub merged : lot.identity_status ≡ "MERGED"
  pub into : lot.merged_into_id ≡ some m.merged_into_id
  pub version : lot.lock_version ≡ suc before.lock_version
  pub evidence : lot.identity_key ≡ before.identity_key
  pub approvals :
      after.merge_approvals
      ≡ store.merge_approvals
        ++ record { material_lot_id = m.lot_id; role = "LEAD"; actor_id = m.quality_manager_id }
          ∷ record { material_lot_id = m.lot_id; role = "ADMIN"; actor_id = m.quality_admin_id }
          ∷ []
  pub others : live_lot after other ≡ live_lot store other

put_lot-same :
    (i : ℕ) (l : MaterialLot) (ls : List MaterialLot) {old : MaterialLot}
    → l.id ≡ i
    → lot_row i ls ≡ some old
    → lot_row i (put_lot l ls) ≡ some l
put_lot-same i l [] e h = cc
put_lot-same i l (x ∷ xs) e h = elim (Bool-cases (x.id == i)) [
  | inl hit ↦ rw (ap (λ n. x.id == n) e ∙ hit, (==_iff l.id i).1 e) refl
  | inr miss ↦ rw (ap (λ n. x.id == n) e ∙ miss, miss) (put_lot-same i l xs e (rw miss at h))
]

mergeable-parts :
    (m : Merger) (l : MaterialLot)
    → mergeable m l ≡ true
    → ((l.lock_version == m.expected_version) ≡ true)
      × (str_eq l.identity_status "CONFLICT_REVIEW" ≡ true)
      × (is_none l.merged_into_id ≡ true)
      × ((m.lot_id == m.merged_into_id) ≡ false)
mergeable-parts m l h = (ground (arith), ground (arith), ground (arith), ground (arith))

is_target-parts :
    (l t : MaterialLot)
    → is_target l t ≡ true
    → (str_eq t.identity_status "CANONICAL" ≡ true)
      × (is_some t.identity_key ≡ true)
      × (is_none t.merged_into_id ≡ true)
      × ((t.supplier_id == l.supplier_id) ≡ true)
      × ((t.material_id == l.material_id) ≡ true)
      × (str_eq t.identity_policy_version l.identity_policy_version ≡ true)
is_target-parts l t h =
    (ground (arith), ground (arith), ground (arith), ground (arith), ground (arith), ground (arith))

no_value : {A : Type 0} (o : Option A) → is_none o ≡ true → o ≡ none
no_value none h = refl
no_value (some a) h = cc

a_value : {A : Type 0} (o : Option A) → is_some o ≡ true → (a : A) × (o ≡ some a)
a_value none h = cc
a_value (some a) h = (a, refl)

-- A merge that goes through was asked for by two different actors with a reason that is not blank,
-- for a live LOT in conflict review, at the expected version and not merged yet, into another live
-- LOT that is canonical, has a key, is not merged, and has the supplier, the material and the policy
-- of the first. It leaves the LOT merged into the target, its version raised and its key as it was,
-- the approvals of the two actors behind the others, and every other LOT as it stood.
pub guarded_merge-Merges :
    (store : Store) (m : Merger) (other : ℕ) {after : Store} {lot : MaterialLot}
    → guarded_merge store m ≡ ok (after, lot)
    → other ≢ m.lot_id
    → (before : MaterialLot) × (target : MaterialLot) × (live_lot store m.lot_id ≡ some before)
      × (live_lot store m.merged_into_id ≡ some target)
      × MayMerge m before target
      × Merges store m other after before lot
unfolding record_merge
guarded_merge-Merges store m other {after = after} {lot = lot} h n =
    let x = guarded_merge-Steps store m h in
    let (expected, waiting, unmerged, apart) = mergeable-parts m x.before x.may_merge in
    let (canonical, named, surviving, supplier, material, policy) =
      is_target-parts x.before x.target x.may_receive in
    let number = lot_row-id store m.lot_id x.stood in
    let row = live-some (λ (l : MaterialLot). l.deleted) (lot_row m.lot_id store.lots) x.stood in
    let alive =
      live-deleted (λ (l : MaterialLot). l.deleted) (lot_row m.lot_id store.lots) x.stood in
    let new = merged_lot m x.before in
    (
      x.before,
      x.target,
      x.stood,
      x.target_stands,
      record {
        expected = (==_iff _ _).0 expected;
        waiting = (eq_iff _ _).0 waiting;
        unmerged = no_value _ unmerged;
        apart = differs _ _ apart;
        canonical = (eq_iff _ _).0 canonical;
        named = a_value _ named;
        surviving = no_value _ surviving;
        same_supplier = (==_iff _ _).0 supplier;
        same_material = (==_iff _ _).0 material;
        same_policy = (eq_iff _ _).0 policy;
        two_actors = x.two_actors;
        reasoned = x.reasoned;
      },
      record {
        stands =
            rw (x.stored, x.left)
              (rw (put_lot-same m.lot_id new store.lots number row, alive) refl);
        merged = ap (λ (l : MaterialLot). l.identity_status) x.left;
        into = ap (λ (l : MaterialLot). l.merged_into_id) x.left;
        version = ap (λ (l : MaterialLot). l.lock_version) x.left;
        evidence = ap (λ (l : MaterialLot). l.identity_key) x.left;
        approvals =
            ap (λ (s : Store). s.merge_approvals) x.stored
            ∙ ap
                (λ i.
                  store.merge_approvals
                  ++ record { material_lot_id = i; role = "LEAD"; actor_id = m.quality_manager_id }
                    ∷ record { material_lot_id = i; role = "ADMIN"; actor_id = m.quality_admin_id }
                    ∷ [])
                number;
        others = rw (x.stored, lot_row-other new store.lots other (λ e. n (sym e ∙ number))) refl;
      },
    )
