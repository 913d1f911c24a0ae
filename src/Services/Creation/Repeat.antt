-- ===== src/Services/Creation/Repeat.antt =====
-- About inspections of p3.py whose creation is repeated.
use hanyangchem_qc_v.Base.{
  ℕ, ◌≡◌, refl, sym, ap, subst, ◌∙◌, inl, inr, not, Option, none, some, List, ◌++◌, find?,
  Option-cases, bind-ok, raise_if-ok, ok_parts, ok, err, arith,
}
use hanyangchem_qc_v.Base.Text.{text_eq, text_eq_refl}
use hanyangchem_qc_v.Snapshots.{Text, Members}
use hanyangchem_qc_v.Reservations.{IdempotencyKey, is_row}
use hanyangchem_qc_v.Store.{ReceiptLotAllocation, ExtractionRun, Store}
use hanyangchem_qc_v.Approval.Rows.{uuid_text}
use hanyangchem_qc_v.Services.{Service, Principal, request_conflict, request_pending}
use hanyangchem_qc_v.Services.Bodies.Values.{Plain, PlainMembers}
use hanyangchem_qc_v.Services.Requests.{
  Call, reservation, stored_body, reserve_digest, digest_of, reserve_idempotency,
  replay_idempotency_if_present, complete_idempotency,
}
use hanyangchem_qc_v.Services.Requests.Replay.{
  reserve-complete_row, reserve_idempotency-digest, reserve_idempotency-answered, answered_parts,
}
use hanyangchem_qc_v.Services.Intake.Repeat.{Completes, uuid_text-IsPlain}
use hanyangchem_qc_v.Services.Review.Mapping.{spec_rows}
use hanyangchem_qc_v.Services.Creation.{
  NewIds, confirmed_rows, basis_of, with_inspection, creation_body, creation_payload, creation_call,
  record_inspection, reserve_inspection, create_inspection,
}
use hanyangchem_qc_v.Services.Creation.Rows.{supplier_rows}

creation_body-Plain : (kase : ℕ) → PlainMembers (creation_body kase)
unfolding PlainMembers Plain
creation_body-Plain kase = (omega arith, uuid_text-IsPlain kase, tt)

record_inspection-Completes :
    (store : Store) (row : IdempotencyKey) (allocation : ReceiptLotAllocation) (run : ExtractionRun)
    (ids : NewIds) {after : Store} {body : Members}
    → record_inspection store row allocation run ids ≡ ok (after, body)
    → Completes store row after body
unfolding record_inspection with_inspection
record_inspection-Completes store row allocation run ids {after = after} {body = body} h =
    let (b, _, h1) = bind-ok (basis_of store allocation run) _ h in
    let (rows, _, h2) =
      bind-ok
        (supplier_rows ids.supplier ids.kase b.standards b.values (spec_rows store b.spec.0.id)) _
        h1 in
    let left = with_inspection store ids allocation run b rows in
    let given = creation_body ids.kase in
    let (stands, same) =
      ok_parts (complete_idempotency left row 201 given (uuid_text ids.kase)) after given body h2 in
    record {
      left = left;
      resource_ref = uuid_text ids.kase;
      keys = refl;
      stands = sym stands ∙ ap (λ x. complete_idempotency left row 201 x (uuid_text ids.kase)) same;
      plain = subst PlainMembers same (creation_body-Plain ids.kase);
    }

-- A reservation that is answered is one that was answered before.
reserve_idempotency-replay :
    (sha256 : Text → Text) (store : Store) (rivals : List IdempotencyKey) (c : Call) {after : Store}
    {row : IdempotencyKey} {body : Members}
    → reserve_idempotency sha256 store rivals c ≡ ok (after, row, some body)
    → replay_idempotency_if_present sha256 store c ≡ ok (some body)
unfolding reserve_idempotency replay_idempotency_if_present reserve_digest
reserve_idempotency-replay sha256 store rivals c {after = after} {row = row} {body = body} h =
    let (digest, digested, reserved) = bind-ok (digest_of sha256 c) _ h in
    let q = reservation c digest in
    elim (Option-cases (find? (is_row q) store.keys)) [
      | inr (r, found) ↦
          let (b, stored, same) =
            bind-ok (stored_body r digest) _ (rw (found, reserve_digest) at reserved) in
          let (_, _, given) = answered_parts store after r row b body same in
          rw (digested, found, replay_idempotency_if_present)
            (rw stored (ap (λ x. ok (some x)) given))
      | inl fresh ↦ elim (Option-cases (find? (is_row q) (store.keys ++ rivals))) [
        | inr (r, found) ↦
            let (_, wrong) =
              raise_if-ok (not (text_eq r.request_hash digest)) request_conflict
                (err request_pending) (rw (fresh, found, reserve_digest) at reserved) in
            absurd (cc)
        | inl unrivalled ↦ absurd (cc (rw (fresh, unrivalled, reserve_digest) at reserved))
      ]
    ]

module _ (sha256 : Text → Text) (allocation_id run_id : ℕ) (principal : Principal) (key : Text)
    (now again : ℕ) (other_ids : NewIds) (rivals later : List IdempotencyKey) (store : Store) where
  -- The call, when it comes again.
  abbrev repeat : Call
  repeat = creation_call allocation_id run_id principal key again

  Repeats : Store → Members → Type 0
  Repeats left given =
      create_inspection sha256 left later allocation_id run_id principal key again other_ids
      ≡ ok (left, given)

  replayed-Repeats :
      (left : Store) (given : Members)
      → replay_idempotency_if_present sha256 left repeat ≡ ok (some given)
      → Repeats left given
  unfolding create_inspection Repeats
  replayed-Repeats left given h = rw (h, create_inspection) refl

  outcome-Repeats :
      (left after : Store) (given body : Members)
      → Repeats left given
      → ◌≡◌ {A = Service (Store × Members)} (ok (left, given)) (ok (after, body))
      → Repeats after body
  outcome-Repeats left after given body r h =
      let (same_store, same_body) = ok_parts left after given body h in
      subst (λ s. Repeats s body) same_store (subst (Repeats left) same_body r)

  reserved-Repeats :
      (reserved : Store) (row : IdempotencyKey) (replay : Option Members)
      (allocation : ReceiptLotAllocation) (run : ExtractionRun) (ids : NewIds) {after : Store}
      {body : Members}
      → reserve_idempotency sha256 store rivals
          (creation_call allocation_id run_id principal key now)
        ≡ ok (reserved, row, replay)
      → (elim replay [
        | some b ↦ ok (reserved, b)
        | none ↦ record_inspection reserved row allocation run ids
      ])
        ≡ ok (after, body)
      → Repeats after body
  unfolding digest_of
  reserved-Repeats reserved row (some b) allocation run ids {after = after} {body = body} reserving
        h =
      let c = creation_call allocation_id run_id principal key now in
      let answered = reserve_idempotency-answered sha256 store rivals later c again reserving in
      outcome-Repeats reserved after b body
        (replayed-Repeats reserved b
          (reserve_idempotency-replay sha256 reserved later repeat answered))
        h
  reserved-Repeats reserved row none allocation run ids {after = after} {body = body} reserving h =
      let c = creation_call allocation_id run_id principal key now in
      let done = record_inspection-Completes reserved row allocation run ids h in
      let answered =
        reserve-complete_row sha256 store rivals later c 201 body done.resource_ref
          (creation_payload allocation_id run_id) again done.left reserving done.keys done.plain
          (reserve_idempotency-digest sha256 store rivals c reserving) in
      let given = rw (text_eq_refl row.request_hash) at answered in
      subst (λ s. Repeats s body) (sym done.stands)
        (replayed-Repeats _ body (reserve_idempotency-replay sha256 _ later repeat given))

  -- A creation of an inspection that went through is answered with its body whenever it is sent
  -- again with its key by the same principal, and leaves the store as it stands: no case, result,
  -- sample or audit row is added a second time, whatever rows are committed beside it and whatever
  -- identifiers are drawn.
  pub create_inspection-repeat :
      (ids : NewIds) {after : Store} {body : Members}
      → create_inspection sha256 store rivals allocation_id run_id principal key now ids
        ≡ ok (after, body)
      → create_inspection sha256 after later allocation_id run_id principal key again other_ids
        ≡ ok (after, body)
  unfolding create_inspection Repeats reserve_inspection replay_idempotency_if_present digest_of
  create_inspection-repeat ids {after = after} {body = body} h =
      let c = creation_call allocation_id run_id principal key now in
      let (replay, replaying, h1) = bind-ok (replay_idempotency_if_present sha256 store c) _ h in
      by_replay replay replaying h1
    where
      by_replay :
          (replay : Option Members)
          → replay_idempotency_if_present sha256 store
              (creation_call allocation_id run_id principal key now)
            ≡ ok replay
          → (elim replay [
            | some b ↦ ok (store, b)
            | none ↦
                reserve_inspection sha256 store rivals allocation_id run_id
                  (creation_call allocation_id run_id principal key now)
                  ids
          ])
            ≡ ok (after, body)
          → Repeats after body
      by_replay (some b) replaying h1 =
          outcome-Repeats store after b body (replayed-Repeats store b replaying) h1
      by_replay none replaying h1 =
          let c = creation_call allocation_id run_id principal key now in
          let (rows, _, h2) = bind-ok (confirmed_rows store allocation_id run_id) _ h1 in
          let (outcome, reserving, h3) = bind-ok (reserve_idempotency sha256 store rivals c) _ h2 in
          reserved-Repeats outcome.0 outcome.1 outcome.2 rows.0 rows.1 ids reserving h3
