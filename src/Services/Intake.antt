-- ===== src/Services/Intake.antt =====
-- `create_intake` of backend/src/hyc_api/services/p3.py. NFKC normalisation and SHA-256 are
-- parameters. Of what the database refuses, a quantity that is not positive or that its column
-- does not take is modelled, and the foreign keys are not.
pub mod Repeat
use hanyangchem_qc_v.Base.{
  ℕ, Bool, true, false, not, ◌&&◌, ◌||◌, Option, none, some, List, [], ◌∷◌, ◌++◌, find?, String,
  str_eq, ◌==◌, ok, err, ◌>>=◌, ◌>>◌, raise_if,
}
use hanyangchem_qc_v.Base.Int.{pos}
use hanyangchem_qc_v.Base.Text.{codes}
use hanyangchem_qc_v.PyDecimal.{Decimal, format_f, dec_ltb, finite, not_a_number}
use hanyangchem_qc_v.Snapshots.{
  Text, Day, Value, Members, member, end, string, number, iso_date, str,
}
use hanyangchem_qc_v.Reservations.{IdempotencyKey}
use hanyangchem_qc_v.Store.{MaterialLot, InboundReceipt, ReceiptLotAllocation, AuditLog, Store}
use hanyangchem_qc_v.Store.Numeric.{numeric, fits}
use hanyangchem_qc_v.Lots.{
  LotIdentity, LotIdentityStatus, canonical, provisional, conflict_review, merged, key_and_status,
}
use hanyangchem_qc_v.Approval.{day_ltb}
use hanyangchem_qc_v.Approval.Rows.{uuid_text, uuid, texts, or_null, object_of}
use hanyangchem_qc_v.Services.{Service, Principal, inbound_conflict, database_error}
use hanyangchem_qc_v.Services.Requests.{Call, reserve_idempotency, complete_idempotency}

pub record IntakeRequest : Type 0 where
  pub supplier_id : ℕ
  pub material_id : ℕ
  pub model_id : Option ℕ
  pub inbound_no : String
  pub receipt_date : Day
  pub supplier_lot_no : String
  pub quantity : Decimal
  pub quantity_unit : String

-- `request.model_dump(mode="json")`.
unfoldable pub intake_payload : IntakeRequest → Value
intake_payload r = object_of (
    ("supplier_id", uuid r.supplier_id)
    ∷ ("material_id", uuid r.material_id)
    ∷ ("model_id", or_null uuid r.model_id)
    ∷ ("inbound_no", texts r.inbound_no)
    ∷ ("receipt_date", str (iso_date r.receipt_date))
    ∷ ("supplier_lot_no", texts r.supplier_lot_no)
    ∷ ("quantity", str (format_f r.quantity))
    ∷ ("quantity_unit", texts r.quantity_unit)
    ∷ [])

-- The identifiers that `uuid4` gives the new rows.
pub record NewIds : Type 0 where
  pub lot : ℕ
  pub receipt : ℕ
  pub allocation : ℕ

abbrev pub identity_text : LotIdentityStatus → String
identity_text canonical = "CANONICAL"
identity_text provisional = "PROVISIONAL"
identity_text conflict_review = "CONFLICT_REVIEW"
identity_text merged = "MERGED"

-- `column == value`, which asks for NULL where the value is None.
abbrev pub same_column : Option String → Option String → Bool
same_column none none = true
same_column (some a) (some b) = str_eq a b
same_column _ _ = false

unfoldable pub is_intake_lot : IntakeRequest → Option String → MaterialLot → Bool
is_intake_lot r key l =
    l.supplier_id == r.supplier_id
    && l.material_id == r.material_id
    && str_eq l.identity_policy_version "v1"
    && same_column l.identity_key key

abbrev pub new_lot : ℕ → IntakeRequest → Option String × LotIdentityStatus → MaterialLot
new_lot i r (key, status) = record {
  id = i;
  supplier_id = r.supplier_id;
  material_id = r.material_id;
  identity_policy_version = "v1";
  identity_key = key;
  supplier_lot_no_raw = some r.supplier_lot_no;
  production_date_evidence = none;
  package_mark_evidence = none;
  identity_status = identity_text status;
  merged_into_id = none;
  lock_version = 1;
  deleted = false;
}

-- A row that is found, or a new one behind the others; and the rows.
abbrev pub found_or_new {ℓ} : {A : Type ℓ} → Option A → A → List A → A × List A
found_or_new none new rows = (new, rows ++ new ∷ [])
found_or_new (some r) new rows = (r, rows)

abbrev pub new_receipt : ℕ → IntakeRequest → InboundReceipt
new_receipt i r = record {
  id = i;
  inbound_no = r.inbound_no;
  supplier_id = r.supplier_id;
  status = "RECEIVED";
  receipt_date = r.receipt_date;
  deleted = false;
}

abbrev pub same_day : Day → Day → Bool
same_day a b = not (day_ltb a b) && not (day_ltb b a)

-- The receipt of the inbound number, which must be of the supplier and of the day.
unfoldable pub intake_receipt :
    Store → ℕ → IntakeRequest → Service (InboundReceipt × List InboundReceipt)
intake_receipt store i r =
    let found = find? (λ (x : InboundReceipt). str_eq x.inbound_no r.inbound_no) store.receipts in
    elim found [
      | none ↦ ok (found_or_new none (new_receipt i r) store.receipts)
      | some x ↦
          raise_if
            (not (x.supplier_id == r.supplier_id) || not (same_day x.receipt_date r.receipt_date))
            inbound_conflict
          >> ok (x, store.receipts)
    ]

abbrev pub new_allocation : ℕ → IntakeRequest → InboundReceipt → MaterialLot → ReceiptLotAllocation
new_allocation i r receipt lot = record {
  id = i;
  inbound_receipt_id = receipt.id;
  material_lot_id = lot.id;
  model_id = r.model_id;
  quantity = numeric r.quantity;
  quantity_unit = r.quantity_unit;
  lock_version = 1;
  deleted = false;
}

-- A quantity that its column refuses, or that is not positive there. NaN is above every number.
abbrev refused_quantity : Decimal → Bool
refused_quantity not_a_number = false
refused_quantity d = not (fits d) || not (dec_ltb (finite false 0 (pos 0)) (numeric d))

-- The allocation of the receipt to the LOT; a new one must have a positive quantity.
unfoldable pub intake_allocation :
    Store
    → ℕ
    → IntakeRequest
    → InboundReceipt
    → MaterialLot
    → Service (ReceiptLotAllocation × List ReceiptLotAllocation)
intake_allocation store i r receipt lot =
    let found =
      find?
        (λ (a : ReceiptLotAllocation).
          a.inbound_receipt_id == receipt.id && a.material_lot_id == lot.id)
        store.allocations in
    elim found [
      | some a ↦ ok (a, store.allocations)
      | none ↦
          raise_if (refused_quantity r.quantity) database_error
          >> ok (found_or_new none (new_allocation i r receipt lot) store.allocations)
    ]

abbrev pub intake_body : MaterialLot → InboundReceipt → ReceiptLotAllocation → Members
intake_body lot receipt allocation = member (codes "material_lot_id") (string (uuid_text lot.id)) (
    member (codes "inbound_receipt_id") (string (uuid_text receipt.id)) (
      member (codes "allocation_id") (string (uuid_text allocation.id))
        (member (codes "version") (number (pos allocation.lock_version)) end)))

abbrev pub intake_audit : MaterialLot → InboundReceipt → ReceiptLotAllocation → AuditLog
intake_audit lot receipt allocation = record {
  entity_type = "inbound_receipt";
  entity_id = receipt.id;
  action = "P3_INTAKE_CREATED";
  payload =
      object_of (("material_lot_id", uuid lot.id) ∷ ("allocation_id", uuid allocation.id) ∷ []);
  reason = none;
}

-- The store with the rows of the intake.
unfoldable pub with_intake :
    Store → List MaterialLot → List InboundReceipt → List ReceiptLotAllocation → AuditLog → Store
with_intake store lots receipts allocations audit = record store {
  lots = lots;
  receipts = receipts;
  allocations = allocations;
  audit_logs = store.audit_logs ++ audit ∷ [];
}

module _ (nfkc : String → String) where
  abbrev pub intake_identity : IntakeRequest → Option String × LotIdentityStatus
  intake_identity r = key_and_status nfkc (record {
    policy_version = "v1";
    supplier_lot_no = some r.supplier_lot_no;
    production_date = none;
    package_mark = none;
  })

  unfoldable pub intake_lot : Store → ℕ → IntakeRequest → MaterialLot × List MaterialLot
  unfolding is_intake_lot
  intake_lot store i r =
      let identity = intake_identity r in
      found_or_new (find? (is_intake_lot r identity.0) store.lots) (new_lot i r identity) store.lots

  -- What follows the reservation.
  unfoldable pub record_intake :
      Store → IdempotencyKey → IntakeRequest → NewIds → Service (Store × Members)
  unfolding intake_lot intake_receipt intake_allocation with_intake
  record_intake store row r ids = do
    let (lot, lots) = intake_lot store ids.lot r
    (receipt, receipts) ← intake_receipt store ids.receipt r
    (allocation, allocations) ← intake_allocation store ids.allocation r receipt lot
    let left = with_intake store lots receipts allocations (intake_audit lot receipt allocation)
    let body = intake_body lot receipt allocation
    ok (complete_idempotency left row 201 body (uuid_text receipt.id), body)

abbrev pub intake_call : IntakeRequest → Principal → Text → ℕ → Call
intake_call r principal key now = record {
  principal = principal;
  scope = codes "p3.intakes";
  key = key;
  payload = intake_payload r;
  now = now;
}

module _ (sha256 : Text → Text) (nfkc : String → String) where
  -- `create_intake`.
  unfoldable pub create_intake :
      Store
      → List IdempotencyKey
      → IntakeRequest
      → Principal
      → Text
      → ℕ
      → NewIds
      → Service (Store × Members)
  unfolding record_intake
  create_intake store rivals r principal key now ids =
      reserve_idempotency sha256 store rivals (intake_call r principal key now)
      >>= λ (reserved, row, replay). elim replay [
        | some body ↦ ok (reserved, body)
        | none ↦ record_intake nfkc reserved row r ids
      ]
