-- ===== src/Approval/Rows.antt =====
-- The rows as values of a snapshot (`_rule_payload` and the queries and rows of `_snapshot`).
use hanyangchem_qc_v.Base.{
  ℕ, zero, suc, ◌/◌, ◌%◌, ◌^◌, ◌&&◌, Option, none, some, List, [], ◌∷◌, ◌++◌, map, String, ◌==◌,
  if◌then◌else◌, sort_by,
}
use hanyangchem_qc_v.Base.Text.{codes}
use hanyangchem_qc_v.Snapshots.{Text, Value, Items, Fields, name, field, str, integer, dict}
use hanyangchem_qc_v.Snapshots.Dump.{hex_digit, text_ltb}
use hanyangchem_qc_v.Store.{
  SpecItem, SupplierResult, InternalResult, Document, DocumentSection, DocumentAllocationLink,
  Store,
}

-- The last `k` hexadecimal digits of `n`, in front of `rest`.
unfoldable pub hex_from : ℕ → ℕ → Text → Text
hex_from zero n rest = rest
hex_from (suc k) n rest = hex_from k (n / 16) (hex_digit (n % 16) ∷ rest)

-- `str(uuid)`.
unfoldable pub uuid_text : ℕ → Text
unfolding hex_from
uuid_text n = hex_from 8 (n / 16 ^ 24) (
    b'-'
    ∷ hex_from 4 (n / 16 ^ 20) (
        b'-'
        ∷ hex_from 4 (n / 16 ^ 16) (b'-' ∷ hex_from 4 (n / 16 ^ 12) (b'-' ∷ hex_from 12 n []))))

abbrev pub texts : String → Value
texts s = str (codes s)

abbrev pub uuid : ℕ → Value
uuid n = str (uuid_text n)

abbrev pub items : List Value → Items
items [] = Items.nil
items (v ∷ vs) = Items.cons v (items vs)

abbrev pub list_of : List Value → Value
list_of vs = Value.array (items vs)

abbrev pub fields : List (String × Value) → Fields
fields [] = Fields.end
fields ((k, v) ∷ rest) = field (name (codes k)) v (fields rest)

abbrev pub object_of : List (String × Value) → Value
object_of fs = dict (fields fs)

abbrev pub or_null {ℓ} : {A : Type ℓ} → (A → Value) → Option A → Value
or_null f none = Value.null
or_null f (some a) = f a

-- `value or default` of an optional text.
abbrev pub or_text : Option String → String → String
or_text none default = default
or_text (some String.[]) default = default
or_text (some s) default = s

abbrev pub uuid_or : Option ℕ → String → Value
uuid_or none default = texts default
uuid_or (some i) default = uuid i

-- `_rule_payload`.
unfoldable pub rule_payload : SpecItem → Value
rule_payload item = object_of (
    ("id", uuid item.id)
    ∷ ("standard_test_item_id", uuid item.standard_test_item_id)
    ∷ ("required", Value.boolean item.required)
    ∷ ("source_policy", texts item.source_policy)
    ∷ ("missing_policy", texts item.missing_policy)
    ∷ ("sample_policy", texts item.sample_policy)
    ∷ ("operator", texts item.operator)
    ∷ ("lower", or_null Value.decimal item.lower_value)
    ∷ ("upper", or_null Value.decimal item.upper_value)
    ∷ ("target", or_null Value.decimal item.target_value)
    ∷ ("tolerance", or_null Value.decimal item.tolerance)
    ∷ ("allowed", or_null (λ vs. list_of (map texts vs)) item.allowed_values)
    ∷ ("unit", or_null texts item.measure)
    ∷ ("precision", integer item.precision)
    ∷ [])

abbrev link_rows : Text → ℕ → ℕ → List DocumentAllocationLink → List Text
link_rows checksum section allocation [] = []
link_rows checksum section allocation (l ∷ ls) =
    let rest = link_rows checksum section allocation ls in
    if l.document_section_id == section && l.receipt_lot_allocation_id == allocation
    then checksum ∷ rest
    else rest

abbrev section_rows : Text → ℕ → ℕ → List DocumentAllocationLink → List DocumentSection → List Text
section_rows checksum document allocation links [] = []
section_rows checksum document allocation links (s ∷ ss) =
    let rest = section_rows checksum document allocation links ss in
    if s.document_id == document then link_rows checksum s.id allocation links ++ rest else rest

abbrev document_rows : Store → ℕ → List Document → List Text
document_rows store allocation [] = []
document_rows store allocation (d ∷ ds) =
    let rest = document_rows store allocation ds in
    if d.deleted
    then rest
    else section_rows d.checksum_sha256 d.id allocation store.links store.sections ++ rest

-- The checksums of the documents with a section that is linked to the allocation: one row for
-- each link.
unfoldable pub document_hashes : Store → ℕ → List Text
document_hashes store allocation = sort_by text_ltb (document_rows store allocation store.documents)

abbrev pub missing_row : String → List Value
missing_row status = object_of (("status", texts status) ∷ []) ∷ []

abbrev pub supplier_payload : SupplierResult → Value
supplier_payload r = object_of (
    ("id", uuid r.id)
    ∷ ("standard_test_item_id", uuid_or r.standard_test_item_id "UNMAPPED")
    ∷ ("value", or_null Value.decimal r.normalized_value)
    ∷ ("text", texts (or_text r.normalized_text ""))
    ∷ ("mapping_status", texts r.mapping_status)
    ∷ ("supplier_decision", texts (or_text r.supplier_decision "NOT_EVALUATED"))
    ∷ ("hyc_decision", texts (or_text r.hyc_decision "NOT_EVALUATED"))
    ∷ [])

abbrev pub internal_payload : InternalResult → Value
internal_payload r = object_of (
    ("id", uuid r.id)
    ∷ ("spec_item_id", uuid r.spec_item_id)
    ∷ ("value", or_null Value.decimal r.evaluated_value)
    ∷ ("text", texts (or_text r.evaluated_text ""))
    ∷ ("decision", texts (or_text r.decision "NOT_EVALUATED"))
    ∷ [])

abbrev pub mapping_payload : SupplierResult → Value
mapping_payload r = object_of (
    ("supplier_result_id", uuid r.id)
    ∷ ("status", texts r.mapping_status)
    ∷ ("standard_test_item_id", uuid_or r.standard_test_item_id "UNMAPPED")
    ∷ [])
