-- ===== src/Services/Requests/Replay.antt =====
-- About requests of p3.py that are repeated.
use hanyangchem_qc_v.Base.{
  ℕ, ◌≡◌, refl, sym, ap, subst, ◌∙◌, inl, inr, true, not, Option, none, some, List, [], ◌∷◌, ◌++◌,
  find?, find?-true, Bool-cases, Option-cases, if◌then◌else◌, bind-ok, ok-injective, raise_if-ok,
  ok, err,
}
use hanyangchem_qc_v.Base.Text.{text_eq, text_eq_refl, text_eq_sound}
use hanyangchem_qc_v.Snapshots.{Text, Value, Members}
use hanyangchem_qc_v.Reservations.{IdempotencyKey, Reservation, is_row, candidate, put_row}
use hanyangchem_qc_v.Store.{Store}
use hanyangchem_qc_v.Services.{Service, request_conflict, request_pending}
use hanyangchem_qc_v.Services.Bodies.{dumps_body}
use hanyangchem_qc_v.Services.Bodies.Values.{PlainMembers}
use hanyangchem_qc_v.Services.Bodies.Loads.{loads-dumps_body}
use hanyangchem_qc_v.Services.Requests.{
  Call, reservation, stored_body, reserve_digest, digest_of, reserve_idempotency, completed, key_of,
  complete_idempotency,
}

-- Two reservations with one key find the same rows.
abbrev OneKey : Reservation → Reservation → Type 0
OneKey p q = (p.principal_id ≡ q.principal_id) × (p.scope ≡ q.scope) × (p.key ≡ q.key)

candidate-is_row : (q : Reservation) → is_row q (candidate q) ≡ true
candidate-is_row q = rw (text_eq_refl q.principal_id, text_eq_refl q.scope, text_eq_refl q.key) refl

find?-append-candidate :
    (q : Reservation) (rows : List IdempotencyKey)
    → find? (is_row q) rows ≡ none
    → find? (is_row q) (rows ++ candidate q ∷ []) ≡ some (candidate q)
find?-append-candidate q [] h = rw (candidate-is_row q) refl
find?-append-candidate q (r ∷ rs) h = elim (Bool-cases (is_row q r)) [
  | inl hit ↦ absurd (cc (rw hit at h))
  | inr miss ↦ rw miss (find?-append-candidate q rs (rw miss at h))
]

find?-put_row :
    (q : Reservation) (new : IdempotencyKey) (rows : List IdempotencyKey) {r : IdempotencyKey}
    → find? (is_row q) rows ≡ some r
    → is_row q new ≡ true
    → find? (is_row q) (put_row q new rows) ≡ some new
find?-put_row q new [] h k = cc
find?-put_row q new (r ∷ rs) h k = elim (Bool-cases (is_row q r)) [
  | inl hit ↦ rw (hit, k) refl
  | inr miss ↦ rw (miss, miss) (find?-put_row q new rs (rw miss at h) k)
]

put_row-key_of :
    (q : Reservation) (new : IdempotencyKey) (rows : List IdempotencyKey)
    → put_row (key_of (candidate q)) new rows ≡ put_row q new rows
put_row-key_of q new [] = refl
put_row-key_of q new (r ∷ rs) =
    ap (λ rest. if is_row q r then new ∷ rest else r ∷ rest) (put_row-key_of q new rs)

-- A row of the key that answers for the digest gives its body again.
pub stored_body-dumped :
    (row : IdempotencyKey) (digest : Text) (body : Members)
    → row.request_hash ≡ digest
    → row.state ≡ "COMPLETED"
    → row.response_body ≡ some (dumps_body body)
    → PlainMembers body
    → stored_body row digest ≡ ok body
unfolding stored_body
stored_body-dumped row digest body hash state stored plain =
    let same : text_eq row.request_hash digest ≡ true =
      ap (text_eq row.request_hash) (sym hash) ∙ text_eq_refl row.request_hash in
    rw (same, state, stored) (rw (loads-dumps_body body plain) refl)

pub reserve_digest-replay :
    (store : Store) (rivals : List IdempotencyKey) (c : Call) (digest : Text) (row : IdempotencyKey)
    (body : Members)
    → find? (is_row (reservation c digest)) store.keys ≡ some row
    → stored_body row digest ≡ ok body
    → reserve_digest store rivals c digest ≡ ok (store, row, some body)
unfolding reserve_digest
reserve_digest-replay store rivals c digest row body found stored =
    rw (found, reserve_digest) (rw stored refl)

new_parts :
    (a b : Store) (r s : IdempotencyKey)
    → ◌≡◌ {A = Service (Store × IdempotencyKey × Option Members)}
        (ok (a, r, none))
        (ok (b, s, none))
    → (a ≡ b) × (r ≡ s)
new_parts a b r s h = (cc, cc)

pub answered_parts :
    (a b : Store) (r s : IdempotencyKey) (x y : Members)
    → ◌≡◌ {A = Service (Store × IdempotencyKey × Option Members)}
        (ok (a, r, some x))
        (ok (b, s, some y))
    → (a ≡ b) × (r ≡ s) × (x ≡ y)
answered_parts a b r s x y h = (cc, cc, cc)

module _ (store : Store) (rivals : List IdempotencyKey) (c : Call) (digest : Text) where
  -- A reservation that is new leaves its row, with the digest of the request.
  pub reserve_digest-new :
      {after : Store} {row : IdempotencyKey}
      → reserve_digest store rivals c digest ≡ ok (after, row, none)
      → (row ≡ candidate (reservation c digest))
        × (find? (is_row (reservation c digest)) after.keys ≡ some row)
        × (after ≡ record store {
          keys = (store.keys ++ rivals) ++ candidate (reservation c digest) ∷ [];
        })
  unfolding reserve_digest
  reserve_digest-new {after = after} {row = row} h =
      let q = reservation c digest in
      elim (Option-cases (find? (is_row q) store.keys)) [
        | inr (r, found) ↦
            let (body, _, wrong) =
              bind-ok (stored_body r digest) _ (rw (found, reserve_digest) at h) in
            absurd (cc)
        | inl fresh ↦ elim (Option-cases (find? (is_row q) (store.keys ++ rivals))) [
          | inr (r, found) ↦
              let (_, wrong) =
                raise_if-ok (not (text_eq r.request_hash digest)) request_conflict
                  (err request_pending) (rw (fresh, found, reserve_digest) at h) in
              absurd (cc)
          | inl unrivalled ↦
              let done = rw (fresh, unrivalled, reserve_digest) at h in
              let (left, is_new) = new_parts _ after (candidate q) row done in
              (
                sym is_new,
                rw (← left, ← is_new) (find?-append-candidate q (store.keys ++ rivals) unrivalled),
                sym left,
              )
        ]
      ]

  -- A reservation that is answered leaves the store, and is answered alike when it comes again.
  pub reserve_digest-answered :
      (later : List IdempotencyKey) (now : ℕ) {after : Store} {row : IdempotencyKey}
      {body : Members}
      → reserve_digest store rivals c digest ≡ ok (after, row, some body)
      → (after ≡ store)
        × (reserve_digest after later (record c { now = now }) digest ≡ ok (after, row, some body))
  unfolding reserve_digest
  reserve_digest-answered later now {after = after} {row = row} {body = body} h =
      let q = reservation c digest in
      elim (Option-cases (find? (is_row q) store.keys)) [
        | inr (r, found) ↦
            let (b, stored, same) =
              bind-ok (stored_body r digest) _ (rw (found, reserve_digest) at h) in
            let (left, kept, given) = answered_parts store after r row b body same in
            (
              sym left,
              subst
                  (λ s.
                    reserve_digest s later (record c { now = now }) digest ≡ ok (s, row, some body))
                  left
                  (reserve_digest-replay store later (record c { now = now }) digest row body
                    (found ∙ ap some kept)
                    (subst (λ x. stored_body x digest ≡ ok body) kept (stored ∙ ap ok given))),
            )
        | inl fresh ↦ elim (Option-cases (find? (is_row q) (store.keys ++ rivals))) [
          | inr (r, found) ↦
              let (_, wrong) =
                raise_if-ok (not (text_eq r.request_hash digest)) request_conflict
                  (err request_pending) (rw (fresh, found, reserve_digest) at h) in
              absurd (cc)
          | inl unrivalled ↦ absurd (cc (rw (fresh, unrivalled, reserve_digest) at h))
        ]
      ]

-- The call again, with a payload and at a time of its own.
abbrev pub repeated : Call → Value → ℕ → Call
repeated c payload now = record c { payload = payload; now = now }

abbrev answer :
    Store → IdempotencyKey → Members → Text → Service (Store × IdempotencyKey × Option Members)
answer store row body digest =
    if text_eq row.request_hash digest then ok (store, row, some body) else err request_conflict

found_answer :
    (store : Store) (rivals : List IdempotencyKey) (c : Call) (digest : Text) (row : IdempotencyKey)
    (body : Members)
    → find? (is_row (reservation c digest)) store.keys ≡ some row
    → row.state ≡ "COMPLETED"
    → row.response_body ≡ some (dumps_body body)
    → PlainMembers body
    → reserve_digest store rivals c digest ≡ answer store row body digest
unfolding reserve_digest stored_body
found_answer store rivals c digest row body found state stored plain =
    elim (Bool-cases (text_eq row.request_hash digest)) [
      | inl same ↦ rw same (
          reserve_digest-replay store rivals c digest row body found
            (stored_body-dumped row digest body (text_eq_sound _ _ same) state stored plain))
      | inr other ↦ rw (other, found, reserve_digest) (rw other refl)
    ]

module _ (sha256 : Text → Text) where
  -- A completed request is answered by the digest that its row holds.
  pub reserve-complete_row :
      (store : Store) (rivals later : List IdempotencyKey) (c : Call) (status : ℕ) (body : Members)
      (resource_ref : Text) (payload : Value) (now : ℕ) (worked : Store) {after : Store}
      {row : IdempotencyKey} {digest : Text}
      → reserve_idempotency sha256 store rivals c ≡ ok (after, row, none)
      → worked.keys ≡ after.keys
      → PlainMembers body
      → digest_of sha256 (repeated c payload now) ≡ ok digest
      → let left = complete_idempotency worked row status body resource_ref in
        reserve_idempotency sha256 left later (repeated c payload now) ≡ (
          if text_eq row.request_hash digest
          then ok (left, completed row status body resource_ref, some body)
          else err request_conflict)
  unfolding reserve_idempotency complete_idempotency completed
  reserve-complete_row store rivals later c status body resource_ref payload now worked
        {after = after} {row = row} {digest = digest} h kept plain digested =
      let (first, _, reserved) = bind-ok (digest_of sha256 c) _ h in
      let (fresh, there, _) = reserve_digest-new store rivals c first reserved in
      let q = reservation c first in
      let done = completed row status body resource_ref in
      let is_done : is_row q done ≡ true = find?-true (is_row q) after.keys there in
      let stands : find? (is_row q) (put_row (key_of row) done worked.keys) ≡ some done =
        ap (find? (is_row q))
          (ap (λ r. put_row (key_of r) done worked.keys) fresh ∙ put_row-key_of q done worked.keys)
        ∙ find?-put_row q done worked.keys (ap (find? (is_row q)) kept ∙ there) is_done in
      rw (digested, reserve_idempotency)
        (found_answer (record worked { keys = put_row (key_of row) done worked.keys }) later
          (repeated c payload now) digest done body stands refl refl plain)

  -- The digest of a request that is new stands in its row.
  pub reserve_idempotency-digest :
      (store : Store) (rivals : List IdempotencyKey) (c : Call) {after : Store}
      {row : IdempotencyKey}
      → reserve_idempotency sha256 store rivals c ≡ ok (after, row, none)
      → digest_of sha256 c ≡ ok row.request_hash
  unfolding reserve_idempotency
  reserve_idempotency-digest store rivals c h =
      let (first, digested, reserved) = bind-ok (digest_of sha256 c) _ h in
      let (fresh, _, _) = reserve_digest-new store rivals c first reserved in
      digested ∙ ap (λ (r : IdempotencyKey). ok r.request_hash) (sym fresh)

  pub reserve_idempotency-answered :
      (store : Store) (rivals later : List IdempotencyKey) (c : Call) (now : ℕ) {after : Store}
      {row : IdempotencyKey} {body : Members}
      → reserve_idempotency sha256 store rivals c ≡ ok (after, row, some body)
      → reserve_idempotency sha256 after later (repeated c c.payload now)
        ≡ ok (after, row, some body)
  unfolding reserve_idempotency digest_of
  reserve_idempotency-answered store rivals later c now h =
      let (first, digested, reserved) = bind-ok (digest_of sha256 c) _ h in
      rw (digested, reserve_idempotency)
        (reserve_digest-answered store rivals c first later now reserved).1

  -- A request that was reserved and, in a store with the same keys, completed is answered when its
  -- key comes again: with the very body, at the store as it stands, if the digest of the new request
  -- is that of the first, and with a conflict if it is not; whatever other rows are committed beside
  -- it. The body's texts hold no character from the surrogates on.
  pub reserve-complete_idempotency :
      (store : Store) (rivals later : List IdempotencyKey) (c : Call) (status : ℕ) (body : Members)
      (resource_ref : Text) (payload : Value) (now : ℕ) (worked : Store) {after : Store}
      {row : IdempotencyKey} {first digest : Text}
      → reserve_idempotency sha256 store rivals c ≡ ok (after, row, none)
      → worked.keys ≡ after.keys
      → PlainMembers body
      → digest_of sha256 c ≡ ok first
      → digest_of sha256 (repeated c payload now) ≡ ok digest
      → let left = complete_idempotency worked row status body resource_ref in
        reserve_idempotency sha256 left later (repeated c payload now) ≡ (
          if text_eq first digest
          then ok (left, completed row status body resource_ref, some body)
          else err request_conflict)
  reserve-complete_idempotency store rivals later c status body resource_ref payload now worked
        {row = row} {first = first} {digest = digest} h kept plain before digested =
      let left = complete_idempotency worked row status body resource_ref in
      let same : row.request_hash ≡ first =
        ok-injective _ _ (sym (reserve_idempotency-digest store rivals c h) ∙ before) in
      reserve-complete_row store rivals later c status body resource_ref payload now worked h kept
        plain digested
      ∙ ap
          (λ hash.
            if text_eq hash digest
            then ok (left, completed row status body resource_ref, some body)
            else err request_conflict)
          same
