-- ===== src/Examples/Lots.antt =====
-- Two LOTs with conflicting evidence, one merged into the other.
use hanyangchem_qc_v.Base.{
  ℕ, arith, ◌≡◌, ◌≢◌, refl, true, false, none, some, [], ◌∷◌, is_ok, is_ok_value, ok,
}
use hanyangchem_qc_v.Base.Text.{is_blank}
use hanyangchem_qc_v.Store.{MaterialLot, Store}
use hanyangchem_qc_v.Lots.{live_lot, can_merge, surviving_lot}
use hanyangchem_qc_v.Lots.Survivor.{Canonical}
use hanyangchem_qc_v.Lots.Changes.{Merger, guarded_merge}
use hanyangchem_qc_v.Lots.Merge.{guarded_merge-survivor}
use hanyangchem_qc_v.Lots.Merged.{MayMerge, Merges, guarded_merge-Merges}

abbrev canonical_lot : MaterialLot
canonical_lot = record {
  id = 71;
  supplier_id = 2;
  material_id = 5;
  identity_policy_version = "v1";
  identity_key = some "LOT-1";
  supplier_lot_no_raw = some "LOT-1";
  production_date_evidence = none;
  package_mark_evidence = none;
  identity_status = "CANONICAL";
  merged_into_id = none;
  lock_version = 1;
  deleted = false;
}

abbrev doubtful_lot : MaterialLot
doubtful_lot = record canonical_lot {
  id = 72;
  identity_key = none;
  identity_status = "CONFLICT_REVIEW";
}

abbrev store : Store
store = record {
  models = [];
  profiles = [];
  versions = [];
  items = [];
  lots = canonical_lot ∷ doubtful_lot ∷ [];
  receipts = [];
  allocations = [];
  cases = [];
  supplier_results = [];
  internal_results = [];
  samples = [];
  documents = [];
  sections = [];
  links = [];
  snapshots = [];
  approvals = [];
  merge_approvals = [];
  standards = [];
  runs = [];
  reviews = [];
  return_reasons = [];
  keys = [];
  audit_logs = [];
  events = [];
}

abbrev merger : Merger
merger = record {
  lot_id = 72;
  expected_version = 1;
  merged_into_id = 71;
  quality_manager_id = 8;
  quality_admin_id = 9;
  reason = "same pallet";
}

merger-succeeds : is_ok (guarded_merge store merger) ≡ true
unfolding guarded_merge can_merge is_blank
merger-succeeds = refl

merge : (after : Store × MaterialLot) × (guarded_merge store merger ≡ ok after)
merge = is_ok_value (guarded_merge store merger) merger-succeeds

another : ◌≢◌ {A = ℕ} 71 72
another e = omega (arith, e)

guarded_merge-Merges_example :
    (before : MaterialLot) × (target : MaterialLot) × (live_lot store 72 ≡ some before)
    × (live_lot store 71 ≡ some target)
    × MayMerge merger before target
    × Merges store merger 71 merge.0.0 before merge.0.1
guarded_merge-Merges_example = guarded_merge-Merges store merger 71 merge.1 another

guarded_merge-survivor_example :
    (target : MaterialLot) × (live_lot store 71 ≡ some target)
    × Canonical target
    × (surviving_lot merge.0.0 merge.0.1 ≡ ok target)
guarded_merge-survivor_example = guarded_merge-survivor store merger merge.1
