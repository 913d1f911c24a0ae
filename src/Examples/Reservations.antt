-- ===== src/Examples/Reservations.antt =====
-- Two workers that reserve one key.
use hanyangchem_qc_v.Base.{◌≤◌, ◌≡◌, refl, some, [], ◌∷◌, ◌++◌, ok, err, arith}
use hanyangchem_qc_v.Base.Text.{codes}
use hanyangchem_qc_v.Reservations.{
  IdempotencyKey, Reservation, candidate, reserve, insert_row, other_worker,
}
use hanyangchem_qc_v.Reservations.Rows.{rows_of, reserve-rows}
use hanyangchem_qc_v.Reservations.Race.{reserve-race}

abbrev reservation : Reservation
reservation = record {
  principal_id = codes "lee";
  scope = codes "inspections";
  key = codes "k-1";
  request_hash = codes "ab12";
  now = 100;
  lease_for = 30;
  lease_owner = some "one";
}

abbrev rival : IdempotencyKey
rival = record (candidate reservation) { lease_owner = some "two" }

reserve-race_example :
    (reserve ([] ++ rival ∷ []) [] reservation ≡ err other_worker)
    × (reserve [] (rival ∷ []) reservation ≡ ok ([] ++ rival ∷ [], rival))
reserve-race_example = reserve-race [] reservation rival refl refl refl refl refl refl

is_forestalled : reserve [] (rival ∷ []) reservation ≡ ok (rival ∷ [], rival)
unfolding reserve insert_row
is_forestalled = refl

one_row : rows_of reservation ([] ++ rival ∷ []) ≤ 1
one_row = omega arith

reserve-rows_example : rows_of reservation (rival ∷ []) ≡ 1
reserve-rows_example = reserve-rows [] (rival ∷ []) reservation one_row is_forestalled
