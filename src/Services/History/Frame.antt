-- ===== src/Services/History/Frame.antt =====
-- About the requests of p3.py that leave the cases and the snapshots of decisions, or add a case.
use hanyangchem_qc_v.Base.{
  ℕ, ◌≡◌, refl, sym, ap, subst, ◌∙◌, inl, inr, Bool, not, Option, none, some, Option-cases, List,
  [], ◌∷◌, ◌++◌, any, is_none, find?, bind-ok, raise_if-ok, ok_parts, ok, err, String,
}
use hanyangchem_qc_v.Base.Text.{text_eq}
use hanyangchem_qc_v.Snapshots.{Text, Members}
use hanyangchem_qc_v.Reservations.{IdempotencyKey, is_row}
use hanyangchem_qc_v.Store.{InspectionCase, ExtractionRun, ReceiptLotAllocation, Store}
use hanyangchem_qc_v.Services.{
  Service, Principal, request_conflict, request_pending, not_finalized, database_error,
}
use hanyangchem_qc_v.Services.Requests.{
  Call, reservation, reserve_digest, stored_body, digest_of, reserve_idempotency,
  replay_idempotency_if_present, complete_idempotency,
}
use hanyangchem_qc_v.Services.Intake
use hanyangchem_qc_v.Services.Intake.{
  IntakeRequest, intake_lot, intake_receipt, intake_allocation, record_intake, with_intake,
  intake_call, create_intake,
}
use hanyangchem_qc_v.Services.Review.{ReviewRequest, check_review, confirm_review}
use hanyangchem_qc_v.Services.Review.Checked.{write_review-Written}
use hanyangchem_qc_v.Services.Creation
use hanyangchem_qc_v.Services.Creation.{
  with_inspection, basis_of, confirmed_rows, creation_call, record_inspection, reserve_inspection,
  create_inspection,
}
use hanyangchem_qc_v.Services.Creation.Rows.{new_case, supplier_rows}
use hanyangchem_qc_v.Services.Review.Mapping.{spec_rows}
use hanyangchem_qc_v.Services.Lineage
use hanyangchem_qc_v.Services.Lineage.{cloned_case, same_place, with_clone, clone_lineage}

-- The snapshots stay, and the cases too but for some behind them.
pub record Adds (s t : Store) : Type 0 where
  pub added : List InspectionCase
  pub cases : t.cases ≡ s.cases ++ added
  pub snapshots : t.snapshots ≡ s.snapshots
  pub approvals : t.approvals ≡ s.approvals

++-nothing : (cs : List InspectionCase) → cs ≡ cs ++ []
++-nothing [] = refl
++-nothing (c ∷ cs) = ap (λ x. c ∷ x) (++-nothing cs)

record Same (s t : Store) : Type 0 where
  cases : t.cases ≡ s.cases
  snapshots : t.snapshots ≡ s.snapshots
  approvals : t.approvals ≡ s.approvals

-- A store that is equal to one with the same rows.
leaves : (s x t : Store) → x ≡ t → Same s x → Adds s t
leaves s x t e same = record {
  added = [];
  cases = ap (λ (y : Store). y.cases) (sym e) ∙ same.cases ∙ ++-nothing s.cases;
  snapshots = ap (λ (y : Store). y.snapshots) (sym e) ∙ same.snapshots;
  approvals = ap (λ (y : Store). y.approvals) (sym e) ∙ same.approvals;
}

Adds-after : (s s' t : Store) → Same s s' → Adds s' t → Adds s t
Adds-after s s' t same a = record {
  added = a.added;
  cases = a.cases ∙ ap (λ x. x ++ a.added) same.cases;
  snapshots = a.snapshots ∙ same.snapshots;
  approvals = a.approvals ∙ same.approvals;
}

reserved_parts :
    (a b : Store) (r k : IdempotencyKey) (x y : Option Members)
    → ◌≡◌ {A = Service (Store × IdempotencyKey × Option Members)} (ok (a, r, x)) (ok (b, k, y))
    → a ≡ b
reserved_parts a b r k x y h = cc

reserve_digest-leaves :
    (s : Store) (rivals : List IdempotencyKey) (c : Call) (digest : Text) {t : Store}
    {k : IdempotencyKey} {replay : Option Members}
    → reserve_digest s rivals c digest ≡ ok (t, k, replay)
    → Same s t
unfolding reserve_digest
reserve_digest-leaves s rivals c digest {t = t} h =
    let q = reservation c digest in
    elim (Option-cases (find? (is_row q) s.keys)) [
      | inr (r, found) ↦
          let (_, _, same) = bind-ok (stored_body r digest) _ (rw (found, reserve_digest) at h) in
          let left = reserved_parts _ _ _ _ _ _ same in
          subst (Same s) left (record { cases = refl; snapshots = refl; approvals = refl })
      | inl fresh ↦ elim (Option-cases (find? (is_row q) (s.keys ++ rivals))) [
        | inr (r, found) ↦
            let (_, wrong) =
              raise_if-ok (not (text_eq r.request_hash digest)) request_conflict
                (err request_pending) (rw (fresh, found, reserve_digest) at h) in
            absurd (cc)
        | inl unrivalled ↦
            let left = reserved_parts _ _ _ _ _ _ (rw (fresh, unrivalled, reserve_digest) at h) in
            subst (Same s) left (record { cases = refl; snapshots = refl; approvals = refl })
      ]
    ]

reserve_idempotency-leaves :
    (sha256 : Text → Text) (s : Store) (rivals : List IdempotencyKey) (c : Call) {t : Store}
    {k : IdempotencyKey} {replay : Option Members}
    → reserve_idempotency sha256 s rivals c ≡ ok (t, k, replay)
    → Same s t
unfolding reserve_idempotency
reserve_idempotency-leaves sha256 s rivals c h =
    let (digest, _, h1) = bind-ok (digest_of sha256 c) _ h in
    reserve_digest-leaves s rivals c digest h1

record_intake-Adds :
    (nfkc : String → String) (s : Store) (k : IdempotencyKey) (r : IntakeRequest)
    (ids : Intake.NewIds) {t : Store} {body : Members}
    → record_intake nfkc s k r ids ≡ ok (t, body)
    → Adds s t
unfolding record_intake with_intake complete_idempotency
record_intake-Adds nfkc s k r ids {t = t} {body = body} h =
    let lot = intake_lot nfkc s ids.lot r in
    let (receipt, _, h1) = bind-ok (intake_receipt s ids.receipt r) _ h in
    let (allocation, _, h2) = bind-ok (intake_allocation s ids.allocation r receipt.0 lot.0) _ h1 in
    let (left, _) = ok_parts _ t _ body h2 in
    leaves s _ t left (record { cases = refl; snapshots = refl; approvals = refl })

record_inspection-Adds :
    (s : Store) (k : IdempotencyKey) (allocation : ReceiptLotAllocation) (run : ExtractionRun)
    (ids : Creation.NewIds) {t : Store} {body : Members}
    → record_inspection s k allocation run ids ≡ ok (t, body)
    → Adds s t
unfolding record_inspection with_inspection complete_idempotency
record_inspection-Adds s k allocation run ids {t = t} {body = body} h =
    let (b, _, h1) = bind-ok (basis_of s allocation run) _ h in
    let (rows, _, h2) =
      bind-ok (supplier_rows ids.supplier ids.kase b.standards b.values (spec_rows s b.spec.0.id)) _
        h1 in
    let (left, _) = ok_parts _ t _ body h2 in
    record {
      added = new_case ids.kase allocation.id b.spec.0.id b.snapshot ∷ [];
      cases = ap (λ (x : Store). x.cases) (sym left);
      snapshots = ap (λ (x : Store). x.snapshots) (sym left);
      approvals = ap (λ (x : Store). x.approvals) (sym left);
    }

-- A replay leaves the store in which it was found; otherwise the request is recorded.
replayed-Adds :
    (s reserved : Store) (replay : Option Members) (recorded : Service (Store × Members))
    {t : Store} {body : Members}
    → Same s reserved
    → (recorded ≡ ok (t, body) → Adds reserved t)
    → (elim replay [ some b ↦ ok (reserved, b) | none ↦ recorded ]) ≡ ok (t, body)
    → Adds s t
replayed-Adds s reserved (some b) recorded {t = t} {body = body} same adds h =
    let (left, _) = ok_parts reserved t b body h in leaves s reserved t left same
replayed-Adds s reserved none recorded {t = t} same adds h = Adds-after s reserved t same (adds h)

pub create_intake-Adds :
    (sha256 : Text → Text) (nfkc : String → String) (s : Store) (rivals : List IdempotencyKey)
    (r : IntakeRequest) (principal : Principal) (key : Text) (now : ℕ) (ids : Intake.NewIds)
    {t : Store} {body : Members}
    → create_intake sha256 nfkc s rivals r principal key now ids ≡ ok (t, body)
    → Adds s t
unfolding create_intake
create_intake-Adds sha256 nfkc s rivals r principal key now ids {t = t} {body = body} h =
    let ((reserved, k, replay), held, h1) =
      bind-ok (reserve_idempotency sha256 s rivals (intake_call r principal key now)) _ h in
    let same = reserve_idempotency-leaves sha256 s rivals (intake_call r principal key now) held in
    replayed-Adds s reserved replay (record_intake nfkc reserved k r ids) same
      (record_intake-Adds nfkc reserved k r ids) h1

pub clone_lineage-Adds :
    (s : Store) (ids : Lineage.NewIds) (predecessor : InspectionCase) (principal : Principal)
    (reason : String) (retest : Bool) {t : Store} {kase : InspectionCase}
    → clone_lineage s ids predecessor principal reason retest ≡ ok (t, kase)
    → Adds s t
unfolding clone_lineage with_clone
clone_lineage-Adds s ids predecessor principal reason retest h =
    let k = cloned_case ids.kase predecessor reason retest in
    let (_, h1) = raise_if-ok (is_none predecessor.final_decision) not_finalized _ h in
    let (_, h2) = raise_if-ok (any (same_place k) s.cases) database_error _ h1 in
    let (left, _) = ok_parts _ _ _ _ h2 in
    record {
      added = k ∷ [];
      cases = ap (λ (x : Store). x.cases) (sym left);
      snapshots = ap (λ (x : Store). x.snapshots) (sym left);
      approvals = ap (λ (x : Store). x.approvals) (sym left);
    }

pub confirm_review-Adds :
    (s : Store) (document i : ℕ) (q : ReviewRequest) (version fresh : ℕ) {t : Store}
    {run : ExtractionRun}
    → confirm_review s document i q version fresh ≡ ok (t, run)
    → Adds s t
unfolding confirm_review
confirm_review-Adds s document i q version fresh {t = t} h =
    let (r, _, written) = bind-ok (check_review s document i q version) _ h in
    let w = write_review-Written s r q fresh written in
    leaves s _ t w.stands (record { cases = refl; snapshots = refl; approvals = refl })

pub create_inspection-Adds :
    (sha256 : Text → Text) (s : Store) (rivals : List IdempotencyKey) (allocation run : ℕ)
    (principal : Principal) (key : Text) (now : ℕ) (ids : Creation.NewIds) {t : Store}
    {body : Members}
    → create_inspection sha256 s rivals allocation run principal key now ids ≡ ok (t, body)
    → Adds s t
unfolding create_inspection reserve_inspection
create_inspection-Adds sha256 s rivals allocation run principal key now ids {t = t} {body = body}
      h =
    let c = creation_call allocation run principal key now in
    let (replay, _, h1) = bind-ok (replay_idempotency_if_present sha256 s c) _ h in
    elim (Option-cases replay) [
      | inr (b, answered) ↦
          let (left, _) = ok_parts s t b body (rw answered at h1) in
          leaves s _ t left (record { cases = refl; snapshots = refl; approvals = refl })
      | inl new ↦
          let ((a, x), _, h2) =
            bind-ok (confirmed_rows s allocation run) _ (rw (new, reserve_inspection) at h1) in
          let ((reserved, k, again), held, h3) =
            bind-ok (reserve_idempotency sha256 s rivals c) _ h2 in
          let same = reserve_idempotency-leaves sha256 s rivals c held in
          replayed-Adds s reserved again (record_inspection reserved k a x ids) same
            (record_inspection-Adds reserved k a x ids) h3
    ]
