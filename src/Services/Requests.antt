-- ===== src/Services/Requests.antt =====
-- Idempotent requests of backend/src/hyc_api/services/p3.py: `reserve_idempotency`,
-- `replay_idempotency_if_present` and `complete_idempotency`, over the table of the reservations.
-- Times are in seconds. Between the query of a reservation and its insertion other transactions may
-- commit rows: those are an argument, `rivals`.
pub mod Replay
use hanyangchem_qc_v.Base.{
  ℕ, ◌+◌, Bool, true, false, not, ◌&&◌, Option, none, some, List, [], ◌∷◌, ◌++◌, find?, String,
  str_eq, if◌then◌else◌, Result, ok, err, ◌>>=◌, ◌>>◌, raise_if,
}
use hanyangchem_qc_v.Base.Text.{text_eq, codes}
use hanyangchem_qc_v.Snapshots.{Text, Value, Json, Members, object, Canonical}
use hanyangchem_qc_v.Snapshots.Load.{loads}
use hanyangchem_qc_v.Snapshots.Freeze.{canonical_hash}
use hanyangchem_qc_v.Reservations.{IdempotencyKey, Reservation, is_row, candidate, put_row}
use hanyangchem_qc_v.Store.{Store}
use hanyangchem_qc_v.Services.{
  Service, Principal, request_conflict, request_pending, bad_stored_response, bad_request_value,
}
use hanyangchem_qc_v.Approval.Rows.{uuid_text}
use hanyangchem_qc_v.Services.Bodies.{dumps_body}

-- The arguments of a reservation, and the time.
pub record Call : Type 0 where
  pub principal : Principal
  pub scope : Text
  pub key : Text
  pub payload : Value
  pub now : ℕ

abbrev pub or_bad_request {ℓ} : {A : Type ℓ} → Canonical A → Service A
or_bad_request (ok a) = ok a
or_bad_request (err e) = err (bad_request_value e)

-- The row that a call asks for: its key, its digest and a lease of five minutes.
abbrev pub reservation : Call → Text → Reservation
reservation c digest = record {
  principal_id = uuid_text c.principal.actor_id;
  scope = c.scope;
  key = c.key;
  request_hash = digest;
  now = c.now;
  lease_for = 300;
  lease_owner = some "p3-api";
}

abbrev as_dict : Json → Service Members
as_dict (object ms) = ok ms
as_dict _ = err bad_stored_response

abbrev pub or_bad_response : Canonical Json → Service Members
or_bad_response (ok j) = as_dict j
or_bad_response (err e) = err bad_stored_response

-- The body of a row that is there.
unfoldable pub stored_body : IdempotencyKey → Text → Service Members
stored_body r digest =
    raise_if (not (text_eq r.request_hash digest)) request_conflict
    >> (if str_eq r.state "COMPLETED"
        then elim r.response_body [
          | some body ↦ or_bad_response (loads body)
          | none ↦ err request_pending
        ]
        else err request_pending)

-- The row of another transaction that has forestalled the insertion.
abbrev pub forestalled : IdempotencyKey → Text → Service (Store × IdempotencyKey × Option Members)
forestalled r digest =
    raise_if (not (text_eq r.request_hash digest)) request_conflict >> err request_pending

abbrev with_keys : Store → List IdempotencyKey → Store
with_keys store keys = record store { keys = keys }

-- The store, the row, and the body where the request was answered before.
abbrev pub Reserved : Type 0
Reserved = Service (Store × IdempotencyKey × Option Members)

unfoldable pub reserve_digest : Store → List IdempotencyKey → Call → Text → Reserved
unfolding stored_body
reserve_digest store rivals c digest =
    let q = reservation c digest in
    elim (find? (is_row q) store.keys) [
      | some r ↦ stored_body r digest >>= λ body. ok (store, r, some body)
      | none ↦ elim (find? (is_row q) (store.keys ++ rivals)) [
        | some r ↦ forestalled r digest
        | none ↦
            ok (with_keys store ((store.keys ++ rivals) ++ candidate q ∷ []), candidate q, none)
      ]
    ]

abbrev replayed : Option IdempotencyKey → Text → Service (Option Members)
replayed none digest = ok none
replayed (some r) digest = stored_body r digest >>= λ body. ok (some body)

module _ (sha256 : Text → Text) where
  -- `request_hash(payload)`.
  unfoldable pub digest_of : Call → Service Text
  digest_of c = or_bad_request (canonical_hash sha256 c.payload)

  -- `reserve_idempotency`.
  unfoldable pub reserve_idempotency : Store → List IdempotencyKey → Call → Reserved
  unfolding digest_of reserve_digest
  reserve_idempotency store rivals c =
      digest_of c >>= λ digest. reserve_digest store rivals c digest

  -- `replay_idempotency_if_present`.
  unfoldable pub replay_idempotency_if_present : Store → Call → Service (Option Members)
  unfolding digest_of stored_body
  replay_idempotency_if_present store c =
      digest_of c >>= λ digest. replayed (find? (is_row (reservation c digest)) store.keys) digest

-- The row as `complete_idempotency` leaves it.
unfoldable pub completed : IdempotencyKey → ℕ → Members → Text → IdempotencyKey
completed r status body resource_ref = record r {
  state = "COMPLETED";
  lease_expires_at = none;
  lease_owner = none;
  response_status = some status;
  response_body = some (dumps_body body);
  resource_ref = some resource_ref;
}

-- The reservation that has the key of a row.
abbrev pub key_of : IdempotencyKey → Reservation
key_of r = record {
  principal_id = r.principal_id;
  scope = r.scope;
  key = r.key;
  request_hash = r.request_hash;
  now = 0;
  lease_for = 0;
  lease_owner = none;
}

-- `complete_idempotency`: the store with the row.
unfoldable pub complete_idempotency : Store → IdempotencyKey → ℕ → Members → Text → Store
unfolding completed
complete_idempotency store r status body resource_ref =
    with_keys store (put_row (key_of r) (completed r status body resource_ref) store.keys)
