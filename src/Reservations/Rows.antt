-- ===== src/Reservations/Rows.antt =====
-- About the rows that `reserve` of IdempotencyRepository leaves.
use hanyangchem_qc_v.Base.{
  ℕ, suc, ◌+◌, ◌≤◌, ◌≡◌, refl, sym, ◌∙◌, ap, inl, inr, true, not, ◌&&◌, none, some, List, [], ◌∷◌,
  ◌++◌, find?, str_eq, Bool-cases, Option-cases, raise_if-ok, ok, err, arith, if◌then◌else◌,
}
use hanyangchem_qc_v.Base.Text.{text_eq, text_eq_refl}
use hanyangchem_qc_v.Reservations.{
  IdempotencyKey, Reservation, is_row, taken, candidate, put_row, Reserved, lease_runs, other_owner,
  reserve_found, insert_row, reserve, other_request, other_worker,
}

-- How many rows have the key of the reservation.
abbrev pub rows_of : Reservation → List IdempotencyKey → ℕ
rows_of q [] = 0
rows_of q (r ∷ rs) = if is_row q r then suc (rows_of q rs) else rows_of q rs

rows_of-append :
    (q : Reservation) (xs ys : List IdempotencyKey)
    → rows_of q (xs ++ ys) ≡ rows_of q xs + rows_of q ys
rows_of-append q [] ys = omega arith
rows_of-append q (x ∷ xs) ys = ground (arith, rows_of-append q xs ys)

rows_of-none :
    (q : Reservation) (rows : List IdempotencyKey)
    → find? (is_row q) rows ≡ none
    → rows_of q rows ≡ 0
rows_of-none q [] h = refl
rows_of-none q (r ∷ rs) h = elim (Bool-cases (is_row q r)) [
  | inl hit ↦ absurd (cc (rw hit at h))
  | inr miss ↦ rw miss (rows_of-none q rs (rw miss at h))
]

rows_of-some :
    (q : Reservation) (rows : List IdempotencyKey) {r : IdempotencyKey}
    → find? (is_row q) rows ≡ some r
    → (1 ≤ rows_of q rows) × (is_row q r ≡ true)
rows_of-some q [] h = cc
rows_of-some q (r ∷ rs) {r = s} h = elim (Bool-cases (is_row q r)) [
  | inl hit ↦
      let same : r ≡ s = cc (rw hit at h) in (rw hit (omega arith), ap (is_row q) (sym same) ∙ hit)
  | inr miss ↦ rw miss (rows_of-some q rs (rw miss at h))
]

rows_of-put_row :
    (q : Reservation) (new : IdempotencyKey) (rows : List IdempotencyKey)
    → is_row q new ≡ true
    → rows_of q (put_row q new rows) ≡ rows_of q rows
rows_of-put_row q new [] h = refl
rows_of-put_row q new (r ∷ rs) h = elim (Bool-cases (is_row q r)) [
  | inl hit ↦ rw (hit, h, rows_of-put_row q new rs h)
  | inr miss ↦ rw (miss, miss, rows_of-put_row q new rs h)
]

candidate-is_row : (q : Reservation) → is_row q (candidate q) ≡ true
candidate-is_row q = rw (text_eq_refl q.principal_id, text_eq_refl q.scope, text_eq_refl q.key) refl

-- The rows of a result are those of its first part.
reserved-rows :
    (a b : List IdempotencyKey) (x y : IdempotencyKey)
    → ◌≡◌ {A = Reserved} (ok (a, x)) (ok (b, y))
    → (b ≡ a) × (y ≡ x)
reserved-rows a b x y h = (ap (λ r. first r) (sym h), ap (λ r. second r) (sym h))
  where
    first : Reserved → List IdempotencyKey
    first (ok (rows, z)) = rows
    first (err e) = a

    second : Reserved → IdempotencyKey
    second (ok (rows, z)) = z
    second (err e) = x

reserve_found-rows :
    (rows : List IdempotencyKey) (q : Reservation) (r : IdempotencyKey)
    {after : List IdempotencyKey} {row : IdempotencyKey}
    → is_row q r ≡ true
    → reserve_found rows q r ≡ ok (after, row)
    → rows_of q after ≡ rows_of q rows
unfolding reserve_found
reserve_found-rows rows q r {after = after} {row = row} own h =
    let (_, h1) = raise_if-ok (not (text_eq r.request_hash q.request_hash)) other_request _ h in
    elim (Bool-cases (str_eq r.state "COMPLETED")) [
      | inl done ↦ ap (rows_of q) (reserved-rows rows after r row (rw done at h1)).0
      | inr open_row ↦
          elim (Bool-cases (str_eq r.state "PENDING" && lease_runs r.lease_expires_at q.now)) [
            | inl leased ↦
                let (_, h2) =
                  raise_if-ok (other_owner r.lease_owner q.lease_owner) other_worker _
                    (rw (open_row, leased) at h1) in
                ap (rows_of q) (reserved-rows rows after r row h2).0
            | inr over ↦
                ap (rows_of q)
                  (reserved-rows (put_row q (taken q r) rows) after (taken q r) row
                    (rw (open_row, over) at h1)).0
                ∙ rows_of-put_row q (taken q r) rows own
          ]
    ]

insert_row-rows :
    (rows : List IdempotencyKey) (q : Reservation) {after : List IdempotencyKey}
    {row : IdempotencyKey}
    → rows_of q rows ≤ 1
    → insert_row rows q ≡ ok (after, row)
    → rows_of q after ≡ 1
unfolding insert_row
insert_row-rows rows q {after = after} {row = row} one h =
    elim (Option-cases (find? (is_row q) rows)) [
      | inl missing ↦
          let stored =
            (reserved-rows (rows ++ candidate q ∷ []) after (candidate q) row
              (rw (insert_row, missing) at h)).0 in
          ap (rows_of q) stored
          ∙ rows_of-append q rows (candidate q ∷ [])
          ∙ rw (rows_of-none q rows missing, candidate-is_row q) refl
      | inr (r, found) ↦
          let (_, h1) =
            raise_if-ok (not (text_eq r.request_hash q.request_hash)) other_request _
              (rw (insert_row, found) at h) in
          let (some_row, _) = rows_of-some q rows found in
          ap (rows_of q) (reserved-rows rows after r row h1).0 ∙ exactly _ one some_row
    ]
  where
    exactly : (n : ℕ) → n ≤ 1 → 1 ≤ n → n ≡ 1
    exactly n h k = omega arith

-- Whatever rows other transactions commit in between, a reservation that succeeds leaves exactly one
-- row with its principal, scope and key, where there was one at most before, in all.
pub reserve-rows :
    (rows rivals : List IdempotencyKey) (q : Reservation) {after : List IdempotencyKey}
    {row : IdempotencyKey}
    → rows_of q (rows ++ rivals) ≤ 1
    → reserve rows rivals q ≡ ok (after, row)
    → rows_of q after ≡ 1
unfolding reserve
reserve-rows rows rivals q {after = after} {row = row} one h =
    elim (Option-cases (find? (is_row q) rows)) [
      | inl missing ↦ insert_row-rows (rows ++ rivals) q one (rw (reserve, missing) at h)
      | inr (r, found) ↦
          let (some_row, own) = rows_of-some q rows found in
          reserve_found-rows rows q r own (rw (reserve, found) at h)
          ∙ exactly (rows_of q rows) (rows_of q rivals) (rw (rows_of-append q rows rivals) at one)
              some_row
    ]
  where
    exactly : (n m : ℕ) → n + m ≤ 1 → 1 ≤ n → n ≡ 1
    exactly n m h k = omega arith
