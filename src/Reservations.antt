-- ===== src/Reservations.antt =====
-- IdempotencyRepository of backend/src/hyc_data/repositories.py: the rows of `idempotency_keys`, and
-- `reserve`. Times are numbers, all in one zone. Between the query and the insertion of `reserve`
-- other transactions may add rows: those are an argument, `rivals`.
pub mod Rows
pub mod Race
use hanyangchem_qc_v.Base.{
  ℕ, suc, ◌+◌, ◌≡◌, Bool, true, false, not, ◌&&◌, ◌||◌, Option, none, some, List, [], ◌∷◌, ◌++◌,
  find?, String, str_eq, ltb, if◌then◌else◌, Result, ok, err, ◌>>=◌, ◌>>◌, raise_if,
}
use hanyangchem_qc_v.Base.Text.{text_eq}
use hanyangchem_qc_v.Snapshots.{Text}

pub record IdempotencyKey : Type 0 where
  pub principal_id : Text
  pub scope : Text
  pub key : Text
  pub request_hash : Text
  pub state : String
  pub lease_expires_at : Option ℕ
  pub lease_owner : Option String
  pub response_status : Option ℕ
  pub response_body : Option Text
  pub resource_ref : Option Text
  pub updated_at : ℕ

-- The messages of OptimisticConflict.
pub data ReserveError : Type 0 where
  other_request other_worker : ReserveError

pub record Reservation : Type 0 where
  pub principal_id : Text
  pub scope : Text
  pub key : Text
  pub request_hash : Text
  pub now : ℕ
  pub lease_for : ℕ
  pub lease_owner : Option String

-- The `where` clause: the columns of the unique key.
abbrev pub is_row : Reservation → IdempotencyKey → Bool
is_row q r = text_eq r.principal_id q.principal_id && text_eq r.scope q.scope && text_eq r.key q.key

abbrev pub lease_runs : Option ℕ → ℕ → Bool
lease_runs none now = false
lease_runs (some t) now = ltb now t

abbrev pub other_owner : Option String → Option String → Bool
other_owner (some a) (some b) = not (str_eq a b)
other_owner _ _ = false

-- The row as it is taken over.
abbrev pub taken : Reservation → IdempotencyKey → IdempotencyKey
taken q r = record r {
  state = "PENDING";
  lease_expires_at = some (q.now + q.lease_for);
  lease_owner = q.lease_owner;
  updated_at = q.now;
}

abbrev pub candidate : Reservation → IdempotencyKey
candidate q = record {
  principal_id = q.principal_id;
  scope = q.scope;
  key = q.key;
  request_hash = q.request_hash;
  state = "PENDING";
  lease_expires_at = some (q.now + q.lease_for);
  lease_owner = q.lease_owner;
  response_status = none;
  response_body = none;
  resource_ref = none;
  updated_at = q.now;
}

abbrev pub put_row : Reservation → IdempotencyKey → List IdempotencyKey → List IdempotencyKey
put_row q new [] = []
put_row q new (r ∷ rs) = let rest = put_row q new rs in if is_row q r then new ∷ rest else r ∷ rest

abbrev pub Reserved : Type 0
Reserved = Result ReserveError (List IdempotencyKey × IdempotencyKey)

-- The branch for a row that the query finds.
unfoldable pub reserve_found : List IdempotencyKey → Reservation → IdempotencyKey → Reserved
reserve_found rows q r =
    raise_if (not (text_eq r.request_hash q.request_hash)) other_request
    >> (if str_eq r.state "COMPLETED"
        then ok (rows, r)
        else if str_eq r.state "PENDING" && lease_runs r.lease_expires_at q.now
        then raise_if (other_owner r.lease_owner q.lease_owner) other_worker >> ok (rows, r)
        else ok (put_row q (taken q r) rows, taken q r))

-- The insertion, and the second query where the unique key refuses it.
unfoldable pub insert_row : List IdempotencyKey → Reservation → Reserved
insert_row rows q = elim (find? (is_row q) rows) [
  | none ↦ ok (rows ++ candidate q ∷ [], candidate q)
  | some r ↦ raise_if (not (text_eq r.request_hash q.request_hash)) other_request >> ok (rows, r)
]

-- `reserve`, with the rows that others commit before it inserts its own.
unfoldable pub reserve : List IdempotencyKey → List IdempotencyKey → Reservation → Reserved
unfolding reserve_found insert_row
reserve rows rivals q = elim (find? (is_row q) rows) [
  | some r ↦ reserve_found rows q r
  | none ↦ insert_row (rows ++ rivals) q
]
