-- ===== src/Approval.antt =====
-- The final decision on an inspection case: ApprovalRepository of
-- backend/src/hyc_data/repositories.py. Here are its errors, the texts of the enumerations that the
-- rows hold, and the checks of the effective specification; the item inputs are in Inputs, the
-- snapshot's payload in Payload, and `finalize` in Finalize.
pub mod Inputs
pub mod Labels
pub mod Rows
pub mod Payload
pub mod Finalize
pub mod Success
pub mod Accepted
pub mod Decision
pub mod Once
pub mod Complete
pub mod Selected
use hanyangchem_qc_v.Base.{
  ℕ, ◌+◌, Bool, true, false, not, ◌&&◌, ◌||◌, Option, none, some, List, [], ◌∷◌, ◌++◌, map, filter,
  find?, String, str_eq, is_none, is_some, opt_eq, ltb, leb, ◌==◌, if◌then◌else◌, Result, ok, err,
  ◌>>=◌, ◌>>◌, raise_if, sort_by,
}
use hanyangchem_qc_v.Errors.{
  FailureCode, approval_precondition_failed, authorization_denied, stale_version, invalid_snapshot,
}
use hanyangchem_qc_v.Snapshots.{Day, CanonicalizationError}
use hanyangchem_qc_v.Store.{
  SpecProfile, SpecVersion, MaterialModel, MaterialLot, InboundReceipt, ReceiptLotAllocation,
  InspectionCase, Store, get_row,
}

-- The errors by their messages: those of AuthorizationDenied, of OptimisticConflict, of
-- ApprovalPrecondition and of the snapshot. The last is the database's, on a second snapshot.
pub data ApprovalError : Type 0 where
  not_lead same_actor merge_actors : ApprovalError
  stale_approval stale_merge bad_merge_target stale_promotion : ApprovalError
  not_allowed_decision case_unavailable not_awaiting submitter_missing : ApprovalError
  allocation_unavailable receipt_unavailable not_canonical_lot : ApprovalError
  foreign_model no_effective_spec ambiguous_spec other_spec other_lot : ApprovalError
  no_items bad_operator bad_rule bad_source_policy bad_mapping_status : ApprovalError
  bad_missing_policy bad_sample_policy : ApprovalError
  reason_required held_accepted transition_refused no_documents : ApprovalError
  merge_cycle no_survivor merge_without_target survivor_unavailable merge_too_deep : ApprovalError
  snapshot_refused : CanonicalizationError → ApprovalError
  integrity_error : ApprovalError

abbrev pub Attempt {ℓ} : Type ℓ → Type ℓ
Attempt A = Result ApprovalError A

abbrev pub or_raise {ℓ} : {A : Type ℓ} → Option A → ApprovalError → Attempt A
or_raise none e = err e
or_raise (some a) e = ok a

-- `Enum(value)`: the member with the value.
abbrev pub member_of {ℓ} : {A : Type ℓ} → List (A × String) → String → Option (A × String)
member_of members value = find? (λ m. str_eq m.1 value) members

abbrev pub enum {ℓ} : {A : Type ℓ} → List (A × String) → String → ApprovalError → Attempt A
enum members value e = or_raise (member_of members value) e >>= λ m. ok m.0

-- `row is None or row.deleted_at is not None`.
abbrev pub live {ℓ} : {A : Type ℓ} → (A → Bool) → Option A → Option A
live deleted none = none
live deleted (some r) = if deleted r then none else some r

abbrev pub day_ltb : Day → Day → Bool
day_ltb a b =
    ltb a.year b.year
    || a.year == b.year && ltb a.month b.month
    || a.year == b.year && a.month == b.month && ltb a.day b.day

abbrev pub ends_before : Option Day → Day → Bool
ends_before none d = false
ends_before (some e) d = day_ltb e d

abbrev pub Candidate : Type 0
Candidate = SpecVersion × SpecProfile

abbrev pub with_profiles : SpecVersion → List SpecProfile → List Candidate
with_profiles v [] = []
with_profiles v (p ∷ ps) =
    let rest = with_profiles v ps in if p.id == v.spec_profile_id then (v, p) ∷ rest else rest

-- The join of the versions with their profiles.
unfoldable pub joined_specs : List SpecVersion → List SpecProfile → List Candidate
joined_specs [] ps = []
joined_specs (v ∷ vs) ps = with_profiles v ps ++ joined_specs vs ps

-- The `where` clause.
unfoldable pub is_effective : InboundReceipt → MaterialLot → ReceiptLotAllocation → Candidate → Bool
is_effective receipt lot allocation (v, p) =
    str_eq v.status "ACTIVE"
    && not (day_ltb receipt.receipt_date v.effective_from)
    && not (ends_before v.effective_to receipt.receipt_date)
    && p.material_id == lot.material_id
    && (is_none p.supplier_id || opt_eq p.supplier_id (some lot.supplier_id))
    && (is_none p.model_id || opt_eq p.model_id allocation.model_id)

abbrev pub int : Bool → ℕ
int true = 1
int false = 0

abbrev pub profile_specificity : SpecProfile → ℕ
profile_specificity p = int (is_some p.supplier_id) + int (is_some p.model_id)

-- The sort key in descending order; the text of a UUID is ordered as its number.
unfoldable pub ranks_above : Candidate → Candidate → Bool
ranks_above (v, p) (w, q) =
    ltb (profile_specificity q) (profile_specificity p)
    || profile_specificity p == profile_specificity q && ltb w.version v.version
    || profile_specificity p == profile_specificity q && w.version == v.version && ltb w.id v.id

unfoldable pub most_specific : List Candidate → Attempt Candidate
most_specific [] = err no_effective_spec
most_specific (c ∷ []) = ok c
most_specific (c ∷ d ∷ rest) =
    raise_if (profile_specificity d.1 == profile_specificity c.1) ambiguous_spec >> ok c

abbrev belongs : MaterialLot → Option MaterialModel → Bool
belongs lot none = false
belongs lot (some m) = not m.deleted && m.material_id == lot.material_id

abbrev pub check_model : Store → MaterialLot → Option ℕ → Attempt (Unit {0})
check_model store lot none = ok tt
check_model store lot (some i) =
    raise_if (not (belongs lot (get_row (λ (m : MaterialModel). m.id) i store.models)))
      foreign_model

-- `_effective_spec`.
unfoldable pub effective_spec :
    Store → InspectionCase → ReceiptLotAllocation → InboundReceipt → MaterialLot → Attempt Candidate
unfolding joined_specs is_effective ranks_above most_specific
effective_spec store kase allocation receipt lot = do
  check_model store lot allocation.model_id
  selected ← most_specific (
      sort_by ranks_above
        (filter (is_effective receipt lot allocation) (joined_specs store.versions store.profiles)))
  raise_if (not (selected.0.id == kase.spec_version_id)) other_spec
  raise_if (not (allocation.material_lot_id == lot.id)) other_lot
  ok selected
