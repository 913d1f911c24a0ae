-- ===== src/Lots/Merge.antt =====
-- About `guarded_merge` of LotRepository, and where a merged LOT leads.
use hanyangchem_qc_v.Base.{
  ℕ, ◌≡◌, refl, sym, ◌∙◌, ap, ◌≢◌, inl, inr, Bool, true, false, not, ◌&&◌, Option, none, some,
  eq_iff, ◌==◌, ==_iff, is_none, find?-true, arith, Bool-cases, bind-ok, raise_if-ok, ok, err,
  &&-true, Result,
}
use hanyangchem_qc_v.Base.Text.{is_blank}
use hanyangchem_qc_v.Store.{MaterialLot, Store}
use hanyangchem_qc_v.Approval.{
  or_raise, ApprovalError, merge_actors, stale_merge, bad_merge_target, integrity_error,
}
use hanyangchem_qc_v.Approval.Accepted.{live-some, or_raise-ok, negated, differs}
use hanyangchem_qc_v.Lots.{
  conflict_review, can_merge, lot_row, live_lot, follow_merges, surviving_lot,
}
use hanyangchem_qc_v.Lots.Survivor.{Canonical, lot_row-other}
use hanyangchem_qc_v.Lots.Changes.{
  Merger, mergeable, is_target, merged_lot, record_merge, approved_before, guarded_merge,
}

-- The steps of a merge that went through.
pub record Steps (store : Store) (m : Merger) (after : Store) (lot : MaterialLot) : Type 0 where
  pub before : MaterialLot
  pub target : MaterialLot
  pub stood : live_lot store m.lot_id ≡ some before
  pub target_stands : live_lot store m.merged_into_id ≡ some target
  pub may_merge : mergeable m before ≡ true
  pub may_receive : is_target before target ≡ true
  pub unapproved : approved_before store before ≡ false
  pub two_actors : m.quality_manager_id ≢ m.quality_admin_id
  pub reasoned : is_blank m.reason ≡ false
  pub stored : after ≡ record_merge store m before target
  pub left : lot ≡ merged_lot m before

merge_test : (a b c : Bool) → (true && a && not b && not c) ≡ true → (b ≡ false) × (c ≡ false)
merge_test a b c h = ground arith

pair-injective :
    (a b : Store) (x y : MaterialLot)
    → ◌≡◌ {A = Result ApprovalError (Store × MaterialLot)} (ok (a, x)) (ok (b, y))
    → (b ≡ a) × (y ≡ x)
pair-injective a b x y h = (ap (λ r. first r) (sym h), ap (λ r. second r) (sym h))
  where
    first : Result ApprovalError (Store × MaterialLot) → Store
    first (ok (s, z)) = s
    first (err e) = a

    second : Result ApprovalError (Store × MaterialLot) → MaterialLot
    second (ok (s, z)) = z
    second (err e) = x

pub guarded_merge-Steps :
    (store : Store) (m : Merger) {after : Store} {lot : MaterialLot}
    → guarded_merge store m ≡ ok (after, lot)
    → Steps store m after lot
unfolding guarded_merge can_merge
guarded_merge-Steps store m {after = after} {lot = lot} h =
    let (allowed, h1) =
      raise_if-ok
        (not (
          can_merge conflict_review m.expected_version m.expected_version m.quality_manager_id
            m.quality_admin_id m.reason))
        merge_actors _ h in
    let (before, stood, h2) = bind-ok (or_raise (live_lot store m.lot_id) stale_merge) _ h1 in
    let (may, h3) = raise_if-ok (not (mergeable m before)) stale_merge _ h2 in
    let (target, stands, h4) =
      bind-ok (or_raise (live_lot store m.merged_into_id) bad_merge_target) _ h3 in
    let (receives, h5) = raise_if-ok (not (is_target before target)) bad_merge_target _ h4 in
    let (unapproved, h6) = raise_if-ok (approved_before store before) integrity_error _ h5 in
    let (actors, reasoned) =
      merge_test (m.expected_version == m.expected_version)
        (m.quality_manager_id == m.quality_admin_id) (is_blank m.reason) (negated _ allowed) in
    let (stored, left) =
      pair-injective (record_merge store m before target) after (merged_lot m before) lot h6 in
    record {
      before = before;
      target = target;
      stood = or_raise-ok _ stale_merge stood;
      target_stands = or_raise-ok _ bad_merge_target stands;
      may_merge = negated _ may;
      may_receive = negated _ receives;
      unapproved = unapproved;
      two_actors = differs _ _ actors;
      reasoned = reasoned;
      stored = stored;
      left = left;
    }

pub lot_row-id :
    (store : Store) (i : ℕ) {lot : MaterialLot} → live_lot store i ≡ some lot → lot.id ≡ i
lot_row-id store i h = (==_iff _ _).0 (
    find?-true (λ (l : MaterialLot). l.id == i) store.lots
      (live-some (λ (l : MaterialLot). l.deleted) (lot_row i store.lots) h))

target-Canonical : (lot target : MaterialLot) → is_target lot target ≡ true → Canonical target
target-Canonical lot target h =
    let (a, _) = &&-true _ _ h in
    let (b, _) = &&-true _ _ a in
    let (c, _) = &&-true _ _ b in
    let (d, unmerged) = &&-true _ _ c in
    let (status, _) = &&-true _ _ d in ((eq_iff _ _).0 status, is_none_none _ unmerged)
  where
    is_none_none : {A : Type 0} (o : Option A) → is_none o ≡ true → o ≡ none
    is_none_none none h = refl
    is_none_none (some a) h = cc

-- A LOT that is merged resolves to the target of the merge, which is canonical, in the store that
-- the merge leaves.
pub guarded_merge-survivor :
    (store : Store) (m : Merger) {after : Store} {lot : MaterialLot}
    → guarded_merge store m ≡ ok (after, lot)
    → (target : MaterialLot) × (live_lot store m.merged_into_id ≡ some target)
      × Canonical target
      × (surviving_lot after lot ≡ ok target)
unfolding surviving_lot follow_merges record_merge
guarded_merge-survivor store m {after = after} {lot = lot} h =
    let x = guarded_merge-Steps store m h in
    let (status, unmerged) = target-Canonical x.before x.target x.may_receive in
    let id_before = lot_row-id store m.lot_id x.stood in
    let id_target = lot_row-id store m.merged_into_id x.target_stands in
    let (_, other) = &&-true _ _ x.may_merge in
    let apart : x.before.id ≢ m.merged_into_id =
      λ e. differs m.lot_id m.merged_into_id (not_true _ other) (sym id_before ∙ e) in
    let stays : live_lot (record_merge store m x.before x.target) m.merged_into_id ≡ some x.target =
      rw (lot_row-other (merged_lot m x.before) store.lots m.merged_into_id apart)
        x.target_stands in
    let fresh : (x.before.id == x.target.id) ≡ false = unequal _ _ (λ e. apart (e ∙ id_target)) in
    (
      x.target,
      x.target_stands,
      (status, unmerged),
      rw (x.left, x.stored, stays, fresh, status, unmerged) refl,
    )
  where
    not_true : (b : Bool) → not b ≡ true → b ≡ false
    not_true false h = refl
    not_true true h = cc

    unequal : (a b : ℕ) → a ≢ b → (a == b) ≡ false
    unequal a b n = elim (Bool-cases (a == b)) [
      | inl same ↦ absurd (n ((==_iff a b).0 same))
      | inr other ↦ other
    ]
