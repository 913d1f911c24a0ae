-- ===== src/Examples/Idempotency.antt =====
-- A request that is made twice.
use hanyangchem_qc_v.Base.{
  ℕ, ◌≤◌, ◌<◌, sym, ◌+◌, ◌≡◌, refl, ◌≢◌, eq_iff, true, false, none, some, String, [], ◌∷◌, ok, err,
  length, arith,
}
use hanyangchem_qc_v.Base.Int.{pos}
use hanyangchem_qc_v.Base.Text.{codes}
use hanyangchem_qc_v.PyDecimal.Digits.{digits}
use hanyangchem_qc_v.Snapshots.{Text, Value, Fields, integer, dict, field, name, normalise}
use hanyangchem_qc_v.Snapshots.Dump.{
  dumps, sort_entries, insert_entry, text_ltb, comma_joined, quoted, escape_all,
}
use hanyangchem_qc_v.Snapshots.Freeze.{canonical_json, canonical_hash}
use hanyangchem_qc_v.Idempotency.{
  pending, completed, IdempotencyRecord, IdempotencyError, Call, reached, leased, new_record,
  request_digest, resolve_idempotency,
}
use hanyangchem_qc_v.Idempotency.Replay.{
  call, complete, retry, run, completed-run, resolve_idempotency-identity,
}
use hanyangchem_qc_v.Idempotency.Lease.{lease-exclusive, over-leased, lease-takeover}

abbrev digest : Text → Text
digest t = digits (length t)

abbrev body : Value
body = dict (field (name (codes "lot")) (integer (pos 7)) Fields.end)

abbrev first_call : Call
first_call = record {
  principal_id = "lee";
  scope = "inspections";
  key = "k-1";
  request = body;
  now = 100;
  lease_for = pos 30;
  lease_owner = some "one";
  expires_at = some 1000;
}

abbrev second_call : ℕ → Call
second_call t = record first_call { now = t; lease_owner = some "two" }

abbrev made : IdempotencyRecord
made = new_record first_call (digits 9)

first_call-made : resolve_idempotency digest none first_call ≡ ok made
unfolding resolve_idempotency request_digest canonical_hash canonical_json normalise dumps
    sort_entries insert_entry text_ltb comma_joined quoted escape_all digits
first_call-made = refl

abbrev answered : IdempotencyRecord
answered = record made {
  state = completed;
  response_status = some 200;
  response_body = some (codes "{}");
}

completed-run_example :
    run digest answered (
      call (second_call 120)
      ∷ complete (record { status = 500; body = body; resource_ref = none }) 121
      ∷ retry 122
      ∷ [])
    ≡ answered
completed-run_example =
    completed-run digest answered
      (call (second_call 120)
        ∷ complete (record { status = 500; body = body; resource_ref = none }) 121
        ∷ retry 122
        ∷ [])
      refl

false-true : false ≡ true → ⊥
false-true e = cc

workers_differ : ◌≢◌ {A = String} "one" "two"
workers_differ e = false-true ((eq_iff "one" "two").1 e)

before_end : 120 < 130
before_end = omega arith

lease-exclusive_example :
    (e : IdempotencyError) × (resolve_idempotency digest (some made) (second_call 120) ≡ err e)
lease-exclusive_example =
    lease-exclusive digest first_call (second_call 120) first_call-made refl refl workers_differ
      before_end

at_end : 130 ≤ 130
at_end = omega arith

third_late : 140 < 130 + 30
third_late = omega arith

workers_apart : ◌≢◌ {A = String} "two" "one"
workers_apart e = workers_differ (sym e)

lease-takeover_example :
    (s : IdempotencyRecord) × (resolve_idempotency digest (some made) (second_call 130) ≡ ok s)
    × (s.state ≡ pending)
    × (s.request_hash ≡ made.request_hash)
    × (s.lease_owner ≡ some "two")
    × (s.lease_expires_at ≡ some (130 + 30))
    × ((e : IdempotencyError) × (resolve_idempotency digest
            (some s)
            (record first_call { now = 140 })
          ≡ err e))
lease-takeover_example =
    lease-takeover digest first_call (second_call 130) (record first_call { now = 140 })
      first_call-made refl refl refl refl refl at_end refl refl refl workers_apart third_late

taken_over :
    resolve_idempotency digest (some made) (second_call 130) ≡ ok (leased made (second_call 130))
taken_over =
    over-leased digest first_call (second_call 130) first_call-made refl refl refl refl refl at_end
      refl

resolve_idempotency-identity_example :
    (made.principal_id ≡ (second_call 130).principal_id)
    × (made.scope ≡ (second_call 130).scope)
    × (made.key ≡ (second_call 130).key)
    × (reached (some 1000) 130 ≡ false)
    × (request_digest digest (second_call 130).request ≡ ok made.request_hash)
    × ((leased made (second_call 130)).request_hash ≡ made.request_hash)
    × ((leased made (second_call 130)).response_body ≡ made.response_body)
resolve_idempotency-identity_example =
    resolve_idempotency-identity digest made (second_call 130) taken_over
