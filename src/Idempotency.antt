-- ===== src/Idempotency.antt =====
-- Idempotent requests (backend/src/hyc_domain/idempotency.py). Times are numbers, a lease an
-- integer of the same unit. The digest of a request (`request_hash`) and the text of a response
-- body (`canonical_json`) are those of the snapshots, or their error.
pub mod Replay
pub mod Lease
use hanyangchem_qc_v.Base.{
  ℕ, ◌+◌, ◌-◌, ◌≡◌, Bool, true, false, not, ◌&&◌, ◌||◌, Option, none, some, String, str_eq, is_none,
  leb, ltb, if◌then◌else◌, Result, ok, err, ◌>>=◌, ◌>>◌, raise_if,
}
use hanyangchem_qc_v.Base.Int.{ℤ, pos, leb_ℤ, pos_part, neg_part}
use hanyangchem_qc_v.Errors.{FailureCode, idempotency_conflict}
use hanyangchem_qc_v.Snapshots.{Text, Value, Canonical, CanonicalizationError}
use hanyangchem_qc_v.Base.Text.{text_eq}
use hanyangchem_qc_v.Snapshots.Freeze.{canonical_json, canonical_hash}

pub data IdempotencyState : Type 0 where
  pending completed failed_retryable : IdempotencyState

pub record IdempotencyRecord : Type 0 where
  pub principal_id : String
  pub scope : String
  pub key : String
  pub request_hash : Text
  pub state : IdempotencyState
  pub lease_expires_at : Option ℕ
  pub lease_owner : Option String
  pub response_status : Option ℕ
  pub response_body : Option Text
  pub resource_ref : Option String
  pub created_at : ℕ
  pub updated_at : ℕ
  pub expires_at : Option ℕ

-- The ValueError, the messages of IdempotencyConflict, and the errors of the canonical form.
pub data IdempotencyError : Type 0 where
  bad_arguments terminal other_identity expired other_worker lease_running : IdempotencyError
  not_pending : IdempotencyError
  refused : CanonicalizationError → IdempotencyError

abbrev pub Attempt : Type 0
Attempt = Result IdempotencyError IdempotencyRecord

abbrev pub or_refused : Canonical Text → Result IdempotencyError Text
or_refused (ok t) = ok t
or_refused (err e) = err (refused e)

abbrev pub is_completed : IdempotencyState → Bool
is_completed completed = true
is_completed _ = false

abbrev pub is_pending : IdempotencyState → Bool
is_pending pending = true
is_pending _ = false

-- `mark_retryable`.
unfoldable pub mark_retryable : IdempotencyRecord → ℕ → Attempt
mark_retryable r now =
    raise_if (is_completed r.state) terminal
    >> ok (record r { state = failed_retryable; updated_at = now })

-- The arguments of `resolve_idempotency` behind the record.
pub record Call : Type 0 where
  pub principal_id : String
  pub scope : String
  pub key : String
  pub request : Value
  pub now : ℕ
  pub lease_for : ℤ
  pub lease_owner : Option String
  pub expires_at : Option ℕ

abbrev pub empty_text : String → Bool
empty_text String.[] = true
empty_text _ = false

abbrev pub bad_call : Call → Bool
bad_call c =
    empty_text c.principal_id || empty_text c.scope || empty_text c.key || leb_ℤ c.lease_for (pos 0)

-- `now + lease_for`, for a positive lease.
abbrev pub lease_end : Call → ℕ
lease_end c = c.now + pos_part c.lease_for

-- `_same_identity`.
unfoldable pub same_identity : IdempotencyRecord → Call → Text → Bool
same_identity r c digest =
    str_eq r.principal_id c.principal_id
    && str_eq r.scope c.scope
    && str_eq r.key c.key
    && text_eq r.request_hash digest

abbrev pub reached : Option ℕ → ℕ → Bool
reached none now = false
reached (some t) now = leb t now

-- `lease_expires_at is None or lease_expires_at > now`.
abbrev pub running : Option ℕ → ℕ → Bool
running none now = true
running (some t) now = ltb now t

-- `lease_expires_at is not None and lease_expires_at > now`.
abbrev pub leased_until : Option ℕ → ℕ → Bool
leased_until none now = false
leased_until (some t) now = ltb now t

-- Both owners are known and differ.
abbrev pub owners_differ : Option String → Option String → Bool
owners_differ (some a) (some b) = not (str_eq a b)
owners_differ _ _ = false

abbrev pub new_record : Call → Text → IdempotencyRecord
new_record c digest = record {
  principal_id = c.principal_id;
  scope = c.scope;
  key = c.key;
  request_hash = digest;
  state = pending;
  lease_expires_at = some (lease_end c);
  lease_owner = c.lease_owner;
  response_status = none;
  response_body = none;
  resource_ref = none;
  created_at = c.now;
  updated_at = c.now;
  expires_at = c.expires_at;
}

abbrev pub leased : IdempotencyRecord → Call → IdempotencyRecord
leased r c = record r {
  state = pending;
  lease_expires_at = some (lease_end c);
  lease_owner = c.lease_owner;
  updated_at = c.now;
}

-- What becomes of a record of the same request that has not expired.
unfoldable pub resolve_state : IdempotencyState → IdempotencyRecord → Call → Attempt
resolve_state completed r c = ok r
resolve_state pending r c =
    if running r.lease_expires_at c.now
    then raise_if (owners_differ r.lease_owner c.lease_owner) other_worker >> ok r
    else ok (leased r c)
resolve_state failed_retryable r c =
    raise_if (leased_until r.lease_expires_at c.now) lease_running >> ok (leased r c)

unfoldable pub resolve_existing : IdempotencyRecord → Call → Text → Attempt
unfolding same_identity resolve_state
resolve_existing r c digest = do
  raise_if (not (same_identity r c digest)) other_identity
  raise_if (reached r.expires_at c.now) expired
  resolve_state r.state r c

module _ (sha256 : Text → Text) where
  -- `request_hash`.
  unfoldable pub request_digest : Value → Result IdempotencyError Text
  request_digest request = or_refused (canonical_hash sha256 request)

  -- `resolve_idempotency`.
  unfoldable pub resolve_idempotency : Option IdempotencyRecord → Call → Attempt
  unfolding request_digest resolve_existing
  resolve_idempotency existing c = do
    raise_if (bad_call c) bad_arguments
    digest ← request_digest c.request
    elim existing [ none ↦ ok (new_record c digest) | some r ↦ resolve_existing r c digest ]

pub record Response : Type 0 where
  pub status : ℕ
  pub body : Value
  pub resource_ref : Option String

-- `complete_idempotency`.
unfoldable pub complete_idempotency : IdempotencyRecord → Response → ℕ → Attempt
complete_idempotency r x now =
    if is_completed r.state
    then ok r
    else raise_if (not (is_pending r.state)) not_pending
      >> (or_refused (canonical_json x.body) >>= λ body. ok (record r {
        state = completed;
        lease_expires_at = none;
        lease_owner = none;
        response_status = some x.status;
        response_body = some body;
        resource_ref = x.resource_ref;
        updated_at = now;
      }))
