-- ===== src/Lots/Changes.antt =====
-- `promote_provisional` and `guarded_merge` of LotRepository.
use hanyangchem_qc_v.Base.{
  ℕ, suc, Bool, not, ◌&&◌, Option, none, some, [], ◌∷◌, ◌++◌, any, find?, String, str_eq, is_none,
  is_some, ◌==◌, ok, ◌>>=◌, ◌>>◌, raise_if,
}
use hanyangchem_qc_v.Base.Text.{is_blank, strip}
use hanyangchem_qc_v.Store.{MaterialLot, LotMergeApproval, Store}
use hanyangchem_qc_v.Approval.{
  or_raise, merge_actors, stale_merge, bad_merge_target, stale_promotion, integrity_error,
}
use hanyangchem_qc_v.Approval.Rows.{object_of, uuid}
use hanyangchem_qc_v.Lots.{
  conflict_review, can_merge, live_lot, surviving_lot, put_lot, same_key, text_opt_eq, Outcome,
  with_lots,
}

pub record Promotion : Type 0 where
  pub lot_id : ℕ
  pub expected_version : ℕ
  pub supplier_lot_no_raw : String
  pub identity_key : String
  pub production_date_evidence : Option String
  pub package_mark_evidence : Option String

abbrev pub promotable : Promotion → MaterialLot → Bool
promotable p lot =
    lot.lock_version == p.expected_version
    && str_eq lot.identity_status "PROVISIONAL"
    && is_none lot.identity_key
    && not (is_blank p.supplier_lot_no_raw)
    && not (is_blank p.identity_key)

-- The LOT with the evidence of the promotion.
abbrev pub promoted : Promotion → String → Option String → MaterialLot → MaterialLot
promoted p status key lot = record lot {
  identity_status = status;
  identity_key = key;
  supplier_lot_no_raw = some p.supplier_lot_no_raw;
  production_date_evidence = p.production_date_evidence;
  package_mark_evidence = p.package_mark_evidence;
  lock_version = suc lot.lock_version;
}

-- Another LOT that is not deleted and has the key.
abbrev pub holds_key : Promotion → MaterialLot → MaterialLot → Bool
holds_key p lot other =
    not (other.id == lot.id)
    && other.supplier_id == lot.supplier_id
    && other.material_id == lot.material_id
    && str_eq other.identity_policy_version lot.identity_policy_version
    && text_opt_eq other.identity_key (some p.identity_key)
    && not other.deleted

-- A second row with the key, a deleted one too, is refused by the database.
abbrev pub clashes : MaterialLot → MaterialLot → Bool
clashes lot other = not (other.id == lot.id) && same_key lot other

unfoldable pub promote_provisional : Store → Promotion → Outcome
promote_provisional store p = do
  lot ← or_raise (live_lot store p.lot_id) stale_promotion
  raise_if (not (promotable p lot)) stale_promotion
  elim (find? (holds_key p lot) store.lots) [
    | some existing ↦
        let held = promoted p "CONFLICT_REVIEW" none lot in
        let after = with_lots store (put_lot held store.lots) in
        surviving_lot after existing >>= λ survivor. ok (after, survivor)
    | none ↦
        let named = promoted p "CANONICAL" (some p.identity_key) lot in
        raise_if (any (clashes named) store.lots) integrity_error
        >> ok (with_lots store (put_lot named store.lots), named)
  ]

pub record Merger : Type 0 where
  pub lot_id : ℕ
  pub expected_version : ℕ
  pub merged_into_id : ℕ
  pub quality_manager_id : ℕ
  pub quality_admin_id : ℕ
  pub reason : String

abbrev pub mergeable : Merger → MaterialLot → Bool
mergeable m lot =
    lot.lock_version == m.expected_version
    && str_eq lot.identity_status "CONFLICT_REVIEW"
    && is_none lot.merged_into_id
    && not (m.lot_id == m.merged_into_id)

abbrev pub is_target : MaterialLot → MaterialLot → Bool
is_target lot target =
    str_eq target.identity_status "CANONICAL"
    && is_some target.identity_key
    && is_none target.merged_into_id
    && target.supplier_id == lot.supplier_id
    && target.material_id == lot.material_id
    && str_eq target.identity_policy_version lot.identity_policy_version

abbrev merge_approval : ℕ → String → ℕ → LotMergeApproval
merge_approval lot role actor = record { material_lot_id = lot; role = role; actor_id = actor }

abbrev pub merged_lot : Merger → MaterialLot → MaterialLot
merged_lot m lot = record lot {
  identity_status = "MERGED";
  merged_into_id = some m.merged_into_id;
  lock_version = suc lot.lock_version;
}

-- The store with the merged LOT, the approvals of the two actors and the log.
unfoldable pub record_merge : Store → Merger → MaterialLot → MaterialLot → Store
record_merge store m lot target = record store {
  lots = put_lot (merged_lot m lot) store.lots;
  merge_approvals =
      store.merge_approvals
      ++ merge_approval lot.id "LEAD" m.quality_manager_id
        ∷ merge_approval lot.id "ADMIN" m.quality_admin_id
        ∷ [];
  audit_logs =
      store.audit_logs
      ++ record {
        entity_type = "material_lot";
        entity_id = lot.id;
        action = "LOT_MERGED";
        payload = object_of (("merged_into_id", uuid target.id) ∷ []);
        reason = some (strip m.reason);
      }
        ∷ [];
}

-- A LOT has one approval of each role at most.
abbrev pub approved_before : Store → MaterialLot → Bool
approved_before store lot =
    any (λ (a : LotMergeApproval). a.material_lot_id == lot.id) store.merge_approvals

unfoldable pub guarded_merge : Store → Merger → Outcome
unfolding can_merge record_merge
guarded_merge store m = do
  raise_if
      (not (
        can_merge conflict_review m.expected_version m.expected_version m.quality_manager_id
          m.quality_admin_id m.reason))
      merge_actors
  lot ← or_raise (live_lot store m.lot_id) stale_merge
  raise_if (not (mergeable m lot)) stale_merge
  target ← or_raise (live_lot store m.merged_into_id) bad_merge_target
  raise_if (not (is_target lot target)) bad_merge_target
  raise_if (approved_before store lot) integrity_error
  ok (record_merge store m lot target, merged_lot m lot)
