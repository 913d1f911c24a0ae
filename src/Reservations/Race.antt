-- ===== src/Reservations/Race.antt =====
-- About `reserve` of IdempotencyRepository when another worker reserves the same key.
use hanyangchem_qc_v.Base.{
  ◌≡◌, refl, inl, inr, true, none, some, List, [], ◌∷◌, ◌++◌, find?, Bool-cases, ok, err,
}
use hanyangchem_qc_v.Base.Text.{text_eq}
use hanyangchem_qc_v.Reservations.{
  IdempotencyKey, Reservation, is_row, lease_runs, other_owner, reserve_found, insert_row, reserve,
  other_worker,
}

find?-append-last :
    (q : Reservation) (rows : List IdempotencyKey) (r : IdempotencyKey)
    → find? (is_row q) rows ≡ none
    → is_row q r ≡ true
    → find? (is_row q) (rows ++ r ∷ []) ≡ some r
find?-append-last q [] r h own = rw own refl
find?-append-last q (x ∷ xs) r h own = elim (Bool-cases (is_row q x)) [
  | inl hit ↦ absurd (cc (rw hit at h))
  | inr miss ↦ rw miss (find?-append-last q xs r (rw miss at h) own)
]

-- Another worker's row for the same request, whose lease is running, is refused to a reservation
-- that finds it, and is given to one whose own insertion it forestalls.
pub reserve-race :
    (rows : List IdempotencyKey) (q : Reservation) (rival : IdempotencyKey)
    → find? (is_row q) rows ≡ none
    → is_row q rival ≡ true
    → text_eq rival.request_hash q.request_hash ≡ true
    → rival.state ≡ "PENDING"
    → lease_runs rival.lease_expires_at q.now ≡ true
    → other_owner rival.lease_owner q.lease_owner ≡ true
    → (reserve (rows ++ rival ∷ []) [] q ≡ err other_worker)
      × (reserve rows (rival ∷ []) q ≡ ok (rows ++ rival ∷ [], rival))
unfolding reserve
reserve-race rows q rival missing own same pending runs other = (
  rw
      (
        reserve,
        find?-append-last q rows rival missing own,
        reserve_found,
        same,
        pending,
        runs,
        other,
      )
      refl,
  rw (reserve, missing, insert_row, find?-append-last q rows rival missing own, same) refl,
)
