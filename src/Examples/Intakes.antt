-- ===== src/Examples/Intakes.antt =====
-- An intake and a request that are sent twice. The digest of a text is its length.
use hanyangchem_qc_v.Base.{
  ◌≡◌, refl, true, false, none, some, [], ◌∷◌, is_ok, is_ok_value, ok, arith, String,
}
use hanyangchem_qc_v.Base.Int.{pos}
use hanyangchem_qc_v.Base.Text.{codes, strip, lstrip, rstrip, is_blank}
use hanyangchem_qc_v.PyDecimal.{finite, format_f, dec_ltb}
use hanyangchem_qc_v.PyDecimal.Digits.{digits, fixed_digits}
use hanyangchem_qc_v.Snapshots.{dict, Fields, Members, member, end, number, normalise, iso_date}
use hanyangchem_qc_v.Snapshots.Dump.{
  dumps, sort_entries, insert_entry, text_ltb, comma_joined, quoted, escape_all,
}
use hanyangchem_qc_v.Snapshots.Freeze.{canonical_json, canonical_hash}
use hanyangchem_qc_v.Store.{Store}
use hanyangchem_qc_v.Lots.{key_and_status, normalize_identity_component}
use hanyangchem_qc_v.Reservations.{IdempotencyKey, candidate}
use hanyangchem_qc_v.Approval.Rows.{uuid_text}
use hanyangchem_qc_v.Services.{Principal}
use hanyangchem_qc_v.Services.Bodies.Values.{PlainMembers, Plain}
use hanyangchem_qc_v.Services.Requests.{
  Call, reservation, digest_of, reserve_idempotency, completed, complete_idempotency,
}
use hanyangchem_qc_v.Services.Requests.Replay.{repeated, reserve-complete_idempotency}
use hanyangchem_qc_v.Store.Numeric.{fits, numeric}
use hanyangchem_qc_v.Services.Intake.{
  IntakeRequest, NewIds, intake_payload, record_intake, create_intake,
}
use hanyangchem_qc_v.Services.Intake.Repeat.{create_intake-repeat}
use hanyangchem_qc_v.Examples.Approval

abbrev inspector : Principal
inspector = record { actor_id = 7; role = "INSPECTOR" }

abbrev call : Call
call = record {
  principal = inspector;
  scope = codes "p3.inspections";
  key = codes "k-1";
  payload = dict Fields.end;
  now = 100;
}

abbrev row : IdempotencyKey
row = candidate (reservation call (codes "2"))

abbrev reserved : Store
reserved = record Approval.store { keys = row ∷ [] }

digested : digest_of Approval.digest call ≡ ok (codes "2")
unfolding digest_of digits dumps sort_entries comma_joined canonical_json canonical_hash normalise
digested = refl

reserving : reserve_idempotency Approval.digest Approval.store [] call ≡ ok (reserved, row, none)
unfolding reserve_idempotency digest_of digits dumps sort_entries comma_joined canonical_json
    canonical_hash normalise
reserving = refl

abbrev answered : Members
answered = member (codes "version") (number (pos 1)) end

reserve-complete_idempotency_example :
    reserve_idempotency Approval.digest
      (complete_idempotency reserved row 200 answered (codes "r"))
      []
      (repeated call (dict Fields.end) 900)
    ≡ ok (
      complete_idempotency reserved row 200 answered (codes "r"),
      completed row 200 answered (codes "r"),
      some answered,
    )
unfolding PlainMembers Plain digest_of
reserve-complete_idempotency_example =
    reserve-complete_idempotency Approval.digest Approval.store [] [] call 200 answered (codes "r")
      (dict Fields.end) 900 reserved reserving refl (omega arith) digested digested

abbrev delivery : IntakeRequest
delivery = record {
  supplier_id = 2;
  material_id = 5;
  model_id = none;
  inbound_no = "IN-2";
  receipt_date = Approval.day 10;
  supplier_lot_no = "LOT-1";
  quantity = finite false 5 (pos 0);
  quantity_unit = "kg";
}

abbrev plain_text : String → String
plain_text s = s

abbrev numbers : NewIds
numbers = record { lot = 101; receipt = 102; allocation = 103 }

abbrev other_numbers : NewIds
other_numbers = record { lot = 201; receipt = 202; allocation = 203 }

goes_through :
    is_ok (
      create_intake Approval.digest plain_text Approval.store [] delivery inspector
        (codes "k-2")
        100
        numbers)
    ≡ true
unfolding fits numeric create_intake record_intake intake_payload reserve_idempotency digest_of
    digits dumps sort_entries insert_entry text_ltb comma_joined quoted escape_all canonical_json
    canonical_hash normalise iso_date format_f fixed_digits dec_ltb uuid_text key_and_status
    normalize_identity_component strip lstrip rstrip is_blank
goes_through = refl

intake :
    (left : Store × Members) × (create_intake Approval.digest plain_text Approval.store [] delivery
        inspector
        (codes "k-2")
        100
        numbers
      ≡ ok left)
intake = is_ok_value _ goes_through

create_intake-repeat_example :
    create_intake Approval.digest plain_text intake.0.0 [] delivery inspector
      (codes "k-2")
      900
      other_numbers
    ≡ ok (intake.0.0, intake.0.1)
create_intake-repeat_example =
    create_intake-repeat Approval.digest plain_text delivery inspector (codes "k-2") 100 900
      other_numbers [] [] Approval.store numbers intake.1
