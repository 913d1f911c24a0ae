-- ===== src/Services/Intake/Repeat.antt =====
-- About intakes of p3.py that are repeated.
use hanyangchem_qc_v.Base.{
  ℕ, zero, suc, ◌/◌, ◌%◌, ◌^◌, ◌<◌, ◌≡◌, refl, sym, ap, subst, ◌∙◌, Option, none, some, List, [],
  ◌∷◌, String, All, arith, bind-ok, ok,
}
use hanyangchem_qc_v.Base.Text.{text_eq_refl}
use hanyangchem_qc_v.Snapshots.{Text, Members}
use hanyangchem_qc_v.Snapshots.Dump.{hex_digit}
use hanyangchem_qc_v.Reservations.{IdempotencyKey}
use hanyangchem_qc_v.Store.{MaterialLot, InboundReceipt, ReceiptLotAllocation, AuditLog, Store}
use hanyangchem_qc_v.Approval.Rows.{uuid_text, hex_from}
use hanyangchem_qc_v.Services.{Service, Principal}
use hanyangchem_qc_v.Services.Bodies.RoundTrip.{IsPlain}
use hanyangchem_qc_v.Services.Bodies.Values.{Plain, PlainMembers}
use hanyangchem_qc_v.Services.Requests.{digest_of, reserve_idempotency, complete_idempotency}
use hanyangchem_qc_v.Services.Requests.Replay.{
  reserve-complete_row, reserve_idempotency-digest, reserve_idempotency-answered,
}
use hanyangchem_qc_v.Services.Intake.{
  IntakeRequest, NewIds, intake_lot, intake_receipt, intake_allocation, intake_body, record_intake,
  intake_call, intake_payload, create_intake, with_intake, intake_audit,
}

hex_from-IsPlain : (k n : ℕ) (rest : Text) → All IsPlain rest → All IsPlain (hex_from k n rest)
unfolding hex_from
hex_from-IsPlain zero n rest h = h
hex_from-IsPlain (suc k) n rest h =
    hex_from-IsPlain k (n / 16) (hex_digit (n % 16) ∷ rest) (low (n % 16) (omega arith), h)
  where
    low : (d : ℕ) → d < 16 → IsPlain (hex_digit d)
    low d h = ground arith

pub uuid_text-IsPlain : (n : ℕ) → All IsPlain (uuid_text n)
unfolding uuid_text
uuid_text-IsPlain n =
    let e = hex_from 12 n [] in
    let d = hex_from 4 (n / 16 ^ 12) (b'-' ∷ e) in
    let c = hex_from 4 (n / 16 ^ 16) (b'-' ∷ d) in
    let b = hex_from 4 (n / 16 ^ 20) (b'-' ∷ c) in
    let e_plain = hex_from-IsPlain 12 n [] tt in
    let d_plain = hex_from-IsPlain 4 (n / 16 ^ 12) (b'-' ∷ e) (omega arith, e_plain) in
    let c_plain = hex_from-IsPlain 4 (n / 16 ^ 16) (b'-' ∷ d) (omega arith, d_plain) in
    let b_plain = hex_from-IsPlain 4 (n / 16 ^ 20) (b'-' ∷ c) (omega arith, c_plain) in
    hex_from-IsPlain 8 (n / 16 ^ 24) (b'-' ∷ b) (omega arith, b_plain)

intake_body-Plain :
    (lot : MaterialLot) (receipt : InboundReceipt) (allocation : ReceiptLotAllocation)
    → PlainMembers (intake_body lot receipt allocation)
unfolding PlainMembers Plain
intake_body-Plain lot receipt allocation = (
  omega arith,
  uuid_text-IsPlain lot.id,
  (
    omega arith,
    uuid_text-IsPlain receipt.id,
    (omega arith, uuid_text-IsPlain allocation.id, (omega arith, tt, tt)),
  ),
)

-- What a new intake leaves is its completed row in a store with the reserved keys.
pub record Completes (store : Store) (row : IdempotencyKey) (after : Store) (body : Members)
    : Type 0 where
  pub left : Store
  pub resource_ref : Text
  pub keys : left.keys ≡ store.keys
  pub stands : after ≡ complete_idempotency left row 201 body resource_ref
  pub plain : PlainMembers body

ok_pair :
    (a b : Store) (x y : Members)
    → ◌≡◌ {A = Service (Store × Members)} (ok (a, x)) (ok (b, y))
    → (a ≡ b) × (x ≡ y)
ok_pair a b x y h = (cc, cc)

with_intake-keys :
    (store : Store) (lots : List MaterialLot) (receipts : List InboundReceipt)
    (allocations : List ReceiptLotAllocation) (audit : AuditLog)
    → (with_intake store lots receipts allocations audit).keys ≡ store.keys
unfolding with_intake
with_intake-keys store lots receipts allocations audit = refl

record_intake-Completes :
    (nfkc : String → String) (store : Store) (row : IdempotencyKey) (r : IntakeRequest)
    (ids : NewIds) {after : Store} {body : Members}
    → record_intake nfkc store row r ids ≡ ok (after, body)
    → Completes store row after body
unfolding record_intake
record_intake-Completes nfkc store row r ids {after = after} {body = body} h =
    let lot = intake_lot nfkc store ids.lot r in
    let (receipt, _, h1) = bind-ok (intake_receipt store ids.receipt r) _ h in
    let (allocation, _, h2) =
      bind-ok (intake_allocation store ids.allocation r receipt.0 lot.0) _ h1 in
    let rows =
      with_intake store lot.1 receipt.1 allocation.1 (intake_audit lot.0 receipt.0 allocation.0) in
    let (stands, same) =
      ok_pair
        (complete_idempotency rows row 201 (intake_body lot.0 receipt.0 allocation.0)
          (uuid_text receipt.0.id))
        after (intake_body lot.0 receipt.0 allocation.0) body h2 in
    record {
      left = rows;
      resource_ref = uuid_text receipt.0.id;
      keys =
          with_intake-keys store lot.1 receipt.1 allocation.1
            (intake_audit lot.0 receipt.0 allocation.0);
      stands =
          sym stands ∙ ap (λ b. complete_idempotency rows row 201 b (uuid_text receipt.0.id)) same;
      plain = subst PlainMembers same (intake_body-Plain lot.0 receipt.0 allocation.0);
    }

module _ (sha256 : Text → Text) (nfkc : String → String) (r : IntakeRequest) (principal : Principal)
    (key : Text) (now again : ℕ) (other_ids : NewIds) (rivals later : List IdempotencyKey)
    (store : Store) {after : Store} {body : Members} where
  repeat-answered :
      (reserved : Store) (row : IdempotencyKey) (replay : Members)
      → reserve_idempotency sha256 store rivals (intake_call r principal key now)
        ≡ ok (reserved, row, some replay)
      → ◌≡◌ {A = Service (Store × Members)} (ok (reserved, replay)) (ok (after, body))
      → create_intake sha256 nfkc after later r principal key again other_ids ≡ ok (after, body)
  unfolding create_intake
  repeat-answered reserved row replay reserving h =
      let (left, same) = ok_pair reserved after replay body h in
      let answered =
        reserve_idempotency-answered sha256 store rivals later (intake_call r principal key now)
          again reserving in
      subst (λ s. create_intake sha256 nfkc s later r principal key again other_ids ≡ ok (s, body))
        left (rw (answered, create_intake) (ap (λ b. ok (reserved, b)) same))

  repeat-completed :
      (reserved : Store) (row : IdempotencyKey) (ids : NewIds)
      → reserve_idempotency sha256 store rivals (intake_call r principal key now)
        ≡ ok (reserved, row, none)
      → record_intake nfkc reserved row r ids ≡ ok (after, body)
      → create_intake sha256 nfkc after later r principal key again other_ids ≡ ok (after, body)
  unfolding create_intake digest_of
  repeat-completed reserved row ids reserving h =
      let c = intake_call r principal key now in
      let done = record_intake-Completes nfkc reserved row r ids h in
      let answered =
        reserve-complete_row sha256 store rivals later c 201 body done.resource_ref
          (intake_payload r) again done.left reserving done.keys done.plain
          (reserve_idempotency-digest sha256 store rivals c reserving) in
      subst (λ s. create_intake sha256 nfkc s later r principal key again other_ids ≡ ok (s, body))
        (sym done.stands) (rw (answered, text_eq_refl row.request_hash, create_intake) refl)

  -- An intake that went through is answered with its body whenever it is sent again with its key by
  -- the same principal, and leaves the store as it stands: no LOT, receipt, allocation or audit row
  -- is added a second time, whatever rows are committed beside it.
  pub create_intake-repeat :
      (ids : NewIds)
      → create_intake sha256 nfkc store rivals r principal key now ids ≡ ok (after, body)
      → create_intake sha256 nfkc after later r principal key again other_ids ≡ ok (after, body)
  unfolding create_intake
  create_intake-repeat ids h =
      let (outcome, reserving, h1) =
        bind-ok (reserve_idempotency sha256 store rivals (intake_call r principal key now)) _ h in
      by_replay outcome.0 outcome.1 outcome.2 reserving h1
    where
      by_replay :
          (reserved : Store) (row : IdempotencyKey) (replay : Option Members)
          → reserve_idempotency sha256 store rivals (intake_call r principal key now)
            ≡ ok (reserved, row, replay)
          → (elim replay [
            | some b ↦ ok (reserved, b)
            | none ↦ record_intake nfkc reserved row r ids
          ])
            ≡ ok (after, body)
          → create_intake sha256 nfkc after later r principal key again other_ids ≡ ok (after, body)
      by_replay reserved row (some b) reserving h1 = repeat-answered reserved row b reserving h1
      by_replay reserved row none reserving h1 = repeat-completed reserved row ids reserving h1
