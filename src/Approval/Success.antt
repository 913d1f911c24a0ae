-- ===== src/Approval/Success.antt =====
-- The steps of `finalize` of ApprovalRepository, taken apart.
use hanyangchem_qc_v.Base.{◌≡◌, false, List, any, ◌==◌, Result, bind-ok, raise_if-ok, ok}
use hanyangchem_qc_v.Judgment.{ItemInput}
use hanyangchem_qc_v.Judgment.Evaluate.{evaluate_case}
use hanyangchem_qc_v.Snapshots.{Text, Fields, dict}
use hanyangchem_qc_v.Store.{InspectionCase, DecisionSnapshotRow, Store}
use hanyangchem_qc_v.Approval.{Candidate, effective_spec, integrity_error}
use hanyangchem_qc_v.Approval.Inputs.{persisted_inputs}
use hanyangchem_qc_v.Approval.Finalize.{
  Request, Origin, reviewed_case, origin_of, check_decision, evidence, snapshot_of, record_decision,
  finalize, or_refused,
}
use hanyangchem_qc_v.Snapshots.Freeze.{DecisionSnapshot, payload}

ok-injective : {E : Type 0} {A : Type 0} (a b : A) → ◌≡◌ {A = Result E A} (ok a) (ok b) → b ≡ a
ok-injective a b h = cc

-- The steps of `finalize` and what each of them gave.
pub record Steps (sha256 : Text → Text) (store : Store) (q : Request) (after : Store) : Type 0 where
  pub kase : InspectionCase
  pub origin : Origin
  pub spec : Candidate
  pub inputs : List ItemInput
  pub snapshot : DecisionSnapshot
  pub content : Fields
  pub reviewed : reviewed_case store q ≡ ok kase
  pub found : origin_of store kase ≡ ok origin
  pub selected : effective_spec store kase origin.allocation origin.receipt origin.lot ≡ ok spec
  pub read : persisted_inputs store kase.id spec.0.id ≡ ok inputs
  pub decided : check_decision q (evaluate_case inputs) ≡ ok tt
  pub frozen : snapshot_of sha256 (evidence store q kase origin spec inputs) ≡ ok snapshot
  pub loaded : or_refused (payload snapshot) ≡ ok content
  pub fresh :
      any (λ (r : DecisionSnapshotRow). r.inspection_case_id == kase.id) store.snapshots ≡ false
  pub left :
      after
      ≡ record_decision store q (evaluate_case inputs) kase (dict content) snapshot.content_hash

pub finalize-Steps :
    (sha256 : Text → Text) (store : Store) (q : Request) {after : Store}
    → finalize sha256 store q ≡ ok after
    → Steps sha256 store q after
unfolding finalize
finalize-Steps sha256 store q {after = after} h =
    let (kase, reviewed, h1) = bind-ok (reviewed_case store q) _ h in
    let (origin, found, h2) = bind-ok (origin_of store kase) _ h1 in
    let (spec, selected, h3) =
      bind-ok (effective_spec store kase origin.allocation origin.receipt origin.lot) _ h2 in
    let (inputs, read, h4) = bind-ok (persisted_inputs store kase.id spec.0.id) _ h3 in
    let (_, decided, h5) = bind-ok (check_decision q (evaluate_case inputs)) _ h4 in
    let (snapshot, frozen, h6) =
      bind-ok (snapshot_of sha256 (evidence store q kase origin spec inputs)) _ h5 in
    let (content, loaded, h7) = bind-ok (or_refused (payload snapshot)) _ h6 in
    let (fresh, last) =
      raise_if-ok
        (any (λ (r : DecisionSnapshotRow). r.inspection_case_id == kase.id) store.snapshots)
        integrity_error _ h7 in
    record {
      kase = kase;
      origin = origin;
      spec = spec;
      inputs = inputs;
      snapshot = snapshot;
      content = content;
      reviewed = reviewed;
      found = found;
      selected = selected;
      read = read;
      decided = decided;
      frozen = frozen;
      loaded = loaded;
      fresh = fresh;
      left = ok-injective _ _ last;
    }
