-- ===== src/Idempotency/Replay.antt =====
-- About the records of idempotency.py under sequences of calls.
use hanyangchem_qc_v.Base.Text.{text_eq_sound}
use hanyangchem_qc_v.Base.{
  sym, ℕ, ◌≡◌, refl, ◌∙◌, ap, ◌⊎◌, inl, inr, Bool, true, false, not, ◌&&◌, some, List, [], ◌∷◌,
  eq_iff, arith, Bool-cases, bind-ok, raise_if-ok, ok, err,
}
use hanyangchem_qc_v.Snapshots.{Text}
use hanyangchem_qc_v.Idempotency.{
  IdempotencyState, pending, completed, failed_retryable, IdempotencyRecord, Attempt, other_worker,
  lease_running, leased_until, mark_retryable, Call, bad_call, bad_arguments, same_identity,
  owners_differ, running, leased, resolve_state, resolve_existing, other_identity, expired, reached,
  request_digest, resolve_idempotency, Response, complete_idempotency,
}

-- What may happen to a record: a call that finds it and is answered, its completion, or its
-- failure. A call of the same identity is the only way in.
pub data Event : Type 0 where
  call : Call → Event
  complete : Response → ℕ → Event
  retry : ℕ → Event

resolve_state-result :
    (t : IdempotencyState) (r : IdempotencyRecord) (c : Call) {s : IdempotencyRecord}
    → resolve_state t r c ≡ ok s
    → (s ≡ r) ⊎ (s ≡ leased r c)
unfolding resolve_state
resolve_state-result completed r c h = inl cc
resolve_state-result pending r c h = elim (Bool-cases (running r.lease_expires_at c.now)) [
  | inr over ↦ inr (cc (rw over at h))
  | inl runs ↦
      let (_, done) =
        raise_if-ok (owners_differ r.lease_owner c.lease_owner) other_worker (ok r)
          (rw runs at h) in
      inl cc
]
resolve_state-result failed_retryable r c h =
    let (_, done) =
      raise_if-ok (leased_until r.lease_expires_at c.now) lease_running (ok (leased r c)) h in
    inr cc

negated : (b : Bool) → not b ≡ false → b ≡ true
negated true h = refl
negated false h = cc

four_true :
    (a b c d : Bool) → (a && b && c && d) ≡ true → (a ≡ true) × (b ≡ true) × (c ≡ true) × (d ≡ true)
four_true a b c d h = ground arith

module _ (sha256 : Text → Text) where
  -- A record after an event; an event that raises leaves it as it was.
  abbrev pub settle : IdempotencyRecord → Attempt → IdempotencyRecord
  settle r (ok s) = s
  settle r (err e) = r

  abbrev pub react : IdempotencyRecord → Event → IdempotencyRecord
  react r (call c) = settle r (resolve_idempotency sha256 (some r) c)
  react r (complete x now) = settle r (complete_idempotency r x now)
  react r (retry now) = settle r (mark_retryable r now)

  abbrev pub run : IdempotencyRecord → List Event → IdempotencyRecord
  run r [] = r
  run r (e ∷ es) = run (react r e) es

  completed-call :
      (r : IdempotencyRecord) (c : Call)
      → r.state ≡ completed
      → settle r (resolve_idempotency sha256 (some r) c) ≡ r
  unfolding resolve_idempotency resolve_existing resolve_state
  completed-call r c h = ground arith

  completed-react : (r : IdempotencyRecord) (e : Event) → r.state ≡ completed → react r e ≡ r
  unfolding complete_idempotency mark_retryable
  completed-react r (call c) h = completed-call r c h
  completed-react r (complete x now) h = rw h
  completed-react r (retry now) h = rw h

  -- A completed record never changes: whatever calls, completions and failures come later, its
  -- response stays the one that was stored.
  pub completed-run : (r : IdempotencyRecord) (es : List Event) → r.state ≡ completed → run r es ≡ r
  completed-run r [] h = refl
  completed-run r (e ∷ es) h = ap (λ s. run s es) (completed-react r e h) ∙ completed-run r es h

  -- A call is answered from a record only before the record expires, and only if it repeats the
  -- record's principal, scope and key, and a request of the record's hash; the answer keeps the hash
  -- and the stored response.
  pub resolve_idempotency-identity :
      (r : IdempotencyRecord) (c : Call) {s : IdempotencyRecord}
      → resolve_idempotency sha256 (some r) c ≡ ok s
      → (r.principal_id ≡ c.principal_id)
        × (r.scope ≡ c.scope)
        × (r.key ≡ c.key)
        × (reached r.expires_at c.now ≡ false)
        × (request_digest sha256 c.request ≡ ok r.request_hash)
        × (s.request_hash ≡ r.request_hash)
        × (s.response_body ≡ r.response_body)
  unfolding resolve_idempotency resolve_existing same_identity
  resolve_idempotency-identity r c {s = s} h =
      let (_, h1) = raise_if-ok (bad_call c) bad_arguments _ h in
      let (digest, digested, h2) = bind-ok (request_digest sha256 c.request) _ h1 in
      let (same, h3) = raise_if-ok (not (same_identity r c digest)) other_identity _ h2 in
      let (fresh, h4) = raise_if-ok (reached r.expires_at c.now) expired _ h3 in
      let (principal, scope, key, request) = four_true _ _ _ _ (negated _ same) in
      let (hash, body) = kept s (resolve_state-result r.state r c h4) in
      (
        (eq_iff _ _).0 principal,
        (eq_iff _ _).0 scope,
        (eq_iff _ _).0 key,
        fresh,
        digested ∙ ap ok (sym (text_eq_sound _ _ request)),
        hash,
        body,
      )
    where
      kept :
          (s : IdempotencyRecord)
          → (s ≡ r) ⊎ (s ≡ leased r c)
          → (s.request_hash ≡ r.request_hash) × (s.response_body ≡ r.response_body)
      kept s (inl e) = (rw e, rw e)
      kept s (inr e) = (rw e, rw e)
