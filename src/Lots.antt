-- ===== src/Lots.antt =====
-- LOT identities (backend/src/hyc_domain/lots.py) and LotRepository of
-- backend/src/hyc_data/repositories.py. NFKC normalisation is a parameter, a function on texts.
-- A method leaves a store and gives a LOT; `flush` raises the version of each row that changed.
pub mod Changes
pub mod Survivor
pub mod Merge
pub mod Merged
use hanyangchem_qc_v.Base.{
  ℕ, zero, suc, ◌+◌, ◌≡◌, Bool, true, false, not, ◌&&◌, ◌||◌, Option, none, some, List, [], ◌∷◌,
  ◌++◌, any, find?, filter, String, str_eq, is_none, is_some, opt_eq, ◌==◌, if◌then◌else◌, Result,
  ok, err, ◌>>=◌, ◌>>◌, raise_if,
}
use hanyangchem_qc_v.Base.Text.{is_blank, strip}
use hanyangchem_qc_v.Store.{MaterialLot, LotMergeApproval, AuditLog, Store, get_row}
use hanyangchem_qc_v.Approval.{
  ApprovalError, Attempt, or_raise, live, merge_actors, stale_merge, bad_merge_target,
  stale_promotion, merge_cycle, no_survivor, merge_without_target, survivor_unavailable,
  merge_too_deep, integrity_error,
}
use hanyangchem_qc_v.Approval.Rows.{object_of, uuid}

pub data LotIdentityStatus : Type 0 where
  canonical provisional conflict_review merged : LotIdentityStatus

module _ (nfkc : String → String) where
  -- `normalize_identity_component`.
  unfoldable pub normalize_identity_component : Option String → Option String
  normalize_identity_component none = none
  normalize_identity_component (some raw) =
      if is_blank (nfkc raw) then none else some (strip (nfkc raw))

  pub record LotIdentity : Type 0 where
    pub policy_version : String
    pub supplier_lot_no : Option String
    pub production_date : Option String
    pub package_mark : Option String

  -- `key_and_status`.
  unfoldable pub key_and_status : LotIdentity → Option String × LotIdentityStatus
  unfolding normalize_identity_component
  key_and_status i =
      if not (str_eq i.policy_version "v1")
      then (none, conflict_review)
      else elim (normalize_identity_component i.supplier_lot_no) [
        | none ↦ (none, provisional)
        | some number ↦ (some number, canonical)
      ]

abbrev pub in_conflict : LotIdentityStatus → Bool
in_conflict conflict_review = true
in_conflict _ = false

unfoldable pub can_merge : LotIdentityStatus → ℕ → ℕ → ℕ → ℕ → String → Bool
can_merge status expected current lead_actor admin_actor reason =
    in_conflict status
    && expected == current
    && not (lead_actor == admin_actor)
    && not (is_blank reason)

-- MAX_MERGE_DEPTH.
abbrev pub max_merge_depth : ℕ
max_merge_depth = 16

abbrev pub lot_row : ℕ → List MaterialLot → Option MaterialLot
lot_row i lots = get_row (λ (l : MaterialLot). l.id) i lots

abbrev pub live_lot : Store → ℕ → Option MaterialLot
live_lot store i = live (λ (l : MaterialLot). l.deleted) (lot_row i store.lots)

-- A LOT that is not merged is a survivor if it is canonical.
abbrev pub settled_lot : MaterialLot → Attempt MaterialLot
settled_lot lot =
    raise_if (not (str_eq lot.identity_status "CANONICAL") || is_some lot.merged_into_id)
      no_survivor
    >> ok lot

-- The loop of `_surviving_lot`, with the steps that are left and the LOTs it has visited.
unfoldable pub follow_merges : ℕ → List ℕ → Store → MaterialLot → Attempt MaterialLot
follow_merges zero visited store lot = err merge_too_deep
follow_merges (suc n) visited store lot =
    raise_if (any (λ i. i == lot.id) visited) merge_cycle
    >> (if not (str_eq lot.identity_status "MERGED")
        then settled_lot lot
        else or_raise lot.merged_into_id merge_without_target >>= λ target.
            or_raise (live_lot store target) survivor_unavailable >>= λ next.
            follow_merges n (lot.id ∷ visited) store next)

-- `_surviving_lot`.
unfoldable pub surviving_lot : Store → MaterialLot → Attempt MaterialLot
unfolding follow_merges
surviving_lot store lot = follow_merges max_merge_depth [] store lot

abbrev pub put_lot : MaterialLot → List MaterialLot → List MaterialLot
put_lot lot [] = []
put_lot lot (l ∷ ls) = let rest = put_lot lot ls in if l.id == lot.id then lot ∷ rest else l ∷ rest

-- One attribute of `_apply_conflict_evidence`: what it becomes, and whether it conflicts.
abbrev pub merged_evidence : Option String → Option String → Option String
merged_evidence none new = new
merged_evidence (some old) new = some old

abbrev pub evidence_conflicts : Option String → Option String → Bool
evidence_conflicts (some old) (some new) = not (str_eq old new)
evidence_conflicts _ _ = false

abbrev pub fills : Option String → Option String → Bool
fills none (some new) = true
fills _ _ = false

abbrev pub conflicting : MaterialLot → MaterialLot → Bool
conflicting existing candidate =
    evidence_conflicts existing.production_date_evidence candidate.production_date_evidence
    || evidence_conflicts existing.package_mark_evidence candidate.package_mark_evidence

-- Whether a column of `existing` changes.
abbrev pub evidence_changes : MaterialLot → MaterialLot → Bool
evidence_changes existing candidate =
    fills existing.production_date_evidence candidate.production_date_evidence
    || fills existing.package_mark_evidence candidate.package_mark_evidence
    || conflicting existing candidate && not (str_eq existing.identity_status "CONFLICT_REVIEW")

-- `_apply_conflict_evidence` and the `flush` behind it.
unfoldable pub apply_conflict_evidence : MaterialLot → MaterialLot → MaterialLot
apply_conflict_evidence existing candidate = record existing {
  production_date_evidence =
      merged_evidence existing.production_date_evidence candidate.production_date_evidence;
  package_mark_evidence =
      merged_evidence existing.package_mark_evidence candidate.package_mark_evidence;
  identity_status =
      if conflicting existing candidate then "CONFLICT_REVIEW" else existing.identity_status;
  lock_version =
      if evidence_changes existing candidate
      then suc existing.lock_version
      else existing.lock_version;
}

abbrev pub text_opt_eq : Option String → Option String → Bool
text_opt_eq (some a) (some b) = str_eq a b
text_opt_eq _ _ = false

-- The columns of the unique key `uq_material_lot_canonical_key`; NULL equals nothing.
abbrev pub same_key : MaterialLot → MaterialLot → Bool
same_key a b =
    a.supplier_id == b.supplier_id
    && a.material_id == b.material_id
    && str_eq a.identity_policy_version b.identity_policy_version
    && text_opt_eq a.identity_key b.identity_key

abbrev pub Outcome : Type 0
Outcome = Attempt (Store × MaterialLot)

abbrev pub with_lots : Store → List MaterialLot → Store
with_lots store lots = record store { lots = lots }

-- `get_or_create_canonical`: the candidate is a new row, with an id of its own. What the database
-- refuses of it is a second row with its key.
unfoldable pub get_or_create_canonical : Store → MaterialLot → Outcome
unfolding surviving_lot apply_conflict_evidence
get_or_create_canonical store candidate =
    if is_none candidate.identity_key || not (str_eq candidate.identity_status "CANONICAL")
    then raise_if (any (same_key candidate) store.lots) integrity_error
      >> ok (with_lots store (store.lots ++ candidate ∷ []), candidate)
    else elim (find? (same_key candidate) store.lots) [
      | none ↦ ok (with_lots store (store.lots ++ candidate ∷ []), candidate)
      | some existing ↦
          (if str_eq existing.identity_status "MERGED"
            then surviving_lot store existing
            else ok existing)
          >>= λ survivor.
              let updated = apply_conflict_evidence survivor candidate in
              ok (with_lots store (put_lot updated store.lots), updated)
    ]
