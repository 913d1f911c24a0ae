-- ===== src/Idempotency/Lease.antt =====
-- About the leases of idempotency.py.
use hanyangchem_qc_v.Base.{
  ℕ, ◌+◌, ◌≤◌, ◌<◌, ◌≡◌, refl, ap, ◌∙◌, sym, ◌≢◌, inl, inr, true, false, not, none, some, String,
  str_eq, eq_iff, arith, Bool-cases, Result-cases, bind-ok, raise_if-ok, ok, err, ltb,
}
use hanyangchem_qc_v.Base.Int.{pos_part}
use hanyangchem_qc_v.Snapshots.{Text}
use hanyangchem_qc_v.Base.Text.{text_eq_refl}
use hanyangchem_qc_v.Idempotency.{
  pending, IdempotencyRecord, IdempotencyError, Call, bad_call, bad_arguments, same_identity,
  leased, lease_end, new_record, resolve_state, resolve_existing, other_identity, expired, reached,
  request_digest, resolve_idempotency,
}

same_text : (s t : String) → s ≡ t → str_eq s t ≡ true
same_text s t e = (eq_iff s t).1 e

module _ (sha256 : Text → Text) where
  created :
      (c : Call) {r : IdempotencyRecord}
      → resolve_idempotency sha256 none c ≡ ok r
      → (digest : Text) × (request_digest sha256 c.request ≡ ok digest) × (r ≡ new_record c digest)
  unfolding resolve_idempotency
  created c h =
      let (_, h1) = raise_if-ok (bad_call c) bad_arguments _ h in
      let (digest, made, h2) = bind-ok (request_digest sha256 c.request) _ h1 in (digest, made, cc)

  apart : (a b : String) → a ≢ b → str_eq a b ≡ false
  apart a b n = elim (Bool-cases (str_eq a b)) [
    | inl same ↦ absurd (n ((eq_iff a b).0 same))
    | inr other ↦ other
  ]

  -- A pending record that a worker holds is refused to another.
  held-refused :
      (s : IdempotencyRecord) (c : Call) (t : ℕ) {a b : String}
      → s.state ≡ pending
      → s.lease_expires_at ≡ some t
      → s.lease_owner ≡ some a
      → c.lease_owner ≡ some b
      → a ≢ b
      → c.now < t
      → (e : IdempotencyError) × (resolve_idempotency sha256 (some s) c ≡ err e)
  unfolding resolve_idempotency resolve_existing resolve_state
  held-refused s c t {a = a} {b = b} held until owner other n early =
      elim (Result-cases (resolve_idempotency sha256 (some s) c)) [
        | inr refused ↦ refused
        | inl (x, success) ↦
            let (_, h1) = raise_if-ok (bad_call c) bad_arguments _ success in
            let (d, _, h2) = bind-ok (request_digest sha256 c.request) _ h1 in
            let (_, h3) = raise_if-ok (not (same_identity s c d)) other_identity _ h2 in
            let (_, h4) = raise_if-ok (reached s.expires_at c.now) expired _ h3 in
            let before : ltb c.now t ≡ true = ground arith in
            absurd (cc (rw (held, until, before, owner, other, apart a b n) at h4))
      ]

  -- While the worker that made a record holds its lease, a call of another worker is refused.
  pub lease-exclusive :
      (first second : Call) {r : IdempotencyRecord} {a b : String}
      → resolve_idempotency sha256 none first ≡ ok r
      → first.lease_owner ≡ some a
      → second.lease_owner ≡ some b
      → a ≢ b
      → second.now < lease_end first
      → (e : IdempotencyError) × (resolve_idempotency sha256 (some r) second ≡ err e)
  lease-exclusive first second h owner other n early =
      let (digest, _, made) = created first h in
      held-refused _ second (lease_end first) (ap (λ (x : IdempotencyRecord). x.state) made)
        (ap (λ (x : IdempotencyRecord). x.lease_expires_at) made)
        (ap (λ (x : IdempotencyRecord). x.lease_owner) made ∙ owner) other n early

  pub over-leased :
      (first second : Call) {r : IdempotencyRecord}
      → resolve_idempotency sha256 none first ≡ ok r
      → bad_call second ≡ false
      → second.principal_id ≡ first.principal_id
      → second.scope ≡ first.scope
      → second.key ≡ first.key
      → second.request ≡ first.request
      → lease_end first ≤ second.now
      → reached first.expires_at second.now ≡ false
      → resolve_idempotency sha256 (some r) second ≡ ok (leased r second)
  unfolding resolve_idempotency resolve_existing resolve_state same_identity
  over-leased first second {r = r} h good principal scope key request late fresh =
      let (digest, digested, made) = created first h in
      let over : ltb second.now (lease_end first) ≡ false = ground arith in
      rw (
        good,
        request,
        digested,
        made,
        same_text _ _ (sym principal),
        same_text _ _ (sym scope),
        same_text _ _ (sym key),
        text_eq_refl digest,
        fresh,
        over,
      )

  -- Once the lease of the call that made a record is over, a call with valid arguments that repeats
  -- its principal, scope, key and request takes the record over, if that has not expired: the record
  -- is then pending, of the same request, leased to the new worker until the end of its own lease;
  -- and until then a call of any other worker, the first one too, is refused.
  pub lease-takeover :
      (first second third : Call) {r : IdempotencyRecord} {a b : String}
      → resolve_idempotency sha256 none first ≡ ok r
      → bad_call second ≡ false
      → second.principal_id ≡ first.principal_id
      → second.scope ≡ first.scope
      → second.key ≡ first.key
      → second.request ≡ first.request
      → lease_end first ≤ second.now
      → reached first.expires_at second.now ≡ false
      → second.lease_owner ≡ some a
      → third.lease_owner ≡ some b
      → a ≢ b
      → third.now < second.now + pos_part second.lease_for
      → (s : IdempotencyRecord) × (resolve_idempotency sha256 (some r) second ≡ ok s)
        × (s.state ≡ pending)
        × (s.request_hash ≡ r.request_hash)
        × (s.lease_owner ≡ some a)
        × (s.lease_expires_at ≡ some (second.now + pos_part second.lease_for))
        × ((e : IdempotencyError) × (resolve_idempotency sha256 (some s) third ≡ err e))
  lease-takeover first second third {r = r} h good principal scope key request late fresh owner
        other n early =
      (
        leased r second,
        over-leased first second h good principal scope key request late fresh,
        refl,
        refl,
        owner,
        refl,
        held-refused (leased r second) third (second.now + pos_part second.lease_for) refl refl
            owner other n early,
      )
