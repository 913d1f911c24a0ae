-- ===== src/Services/Selection.antt =====
-- `_select_spec` and `_spec_snapshot` of backend/src/hyc_api/services/p3.py.
pub mod Agreement
use hanyangchem_qc_v.Base.{
  ℕ, ◌+◌, ◌≡◌, Bool, true, false, ◌&&◌, ◌||◌, Option, none, some, List, [], ◌∷◌, map, filter,
  is_empty, String, ltb, ◌==◌, ok, err, ◌>>=◌, ◌>>◌, raise_if, sort_by,
}
use hanyangchem_qc_v.Base.Int.{pos}
use hanyangchem_qc_v.Base.Text.{codes}
use hanyangchem_qc_v.PyDecimal.{Decimal, format_f}
use hanyangchem_qc_v.Snapshots.{
  Text, Json, Jsons, Members, null, boolean, string, number, object, array, nil, cons, end, member,
  iso_date,
}
use hanyangchem_qc_v.Store.{
  SpecProfile, SpecVersion, SpecItem, MaterialLot, InboundReceipt, ReceiptLotAllocation, Store,
  get_row,
}
use hanyangchem_qc_v.Approval.{Candidate, joined_specs, is_effective, profile_specificity}
use hanyangchem_qc_v.Approval.Rows.{uuid_text}
use hanyangchem_qc_v.Services.{
  Service, incomplete_context, no_effective_spec, ambiguous_spec, no_spec_items,
}

abbrev pub or_fail {ℓ} : {A : Type ℓ} → Option A → Service A → Service A
or_fail none e = e
or_fail (some a) e = ok a

abbrev pub receipt_row : Store → ℕ → Option InboundReceipt
receipt_row store i = get_row (λ (r : InboundReceipt). r.id) i store.receipts

abbrev pub lot_of : Store → ℕ → Option MaterialLot
lot_of store i = get_row (λ (l : MaterialLot). l.id) i store.lots

-- The sort key, `(specificity, version)` in descending order.
unfoldable pub sorts_above : Candidate → Candidate → Bool
sorts_above (v, p) (w, q) =
    ltb (profile_specificity q) (profile_specificity p)
    || profile_specificity p == profile_specificity q && ltb w.version v.version

unfoldable pub selected_row : List Candidate → Service Candidate
selected_row [] = err no_effective_spec
selected_row (c ∷ []) = ok c
selected_row (c ∷ d ∷ rest) =
    raise_if (profile_specificity d.1 == profile_specificity c.1) ambiguous_spec >> ok c

-- `_select_spec`. The `where` clause is that of the approvals.
unfoldable pub select_spec : Store → ReceiptLotAllocation → Service Candidate
unfolding selected_row sorts_above
select_spec store allocation = do
  receipt ← or_fail (receipt_row store allocation.inbound_receipt_id) (err incomplete_context)
  lot ← or_fail (lot_of store allocation.material_lot_id) (err incomplete_context)
  selected_row (
      sort_by sorts_above
        (filter (is_effective receipt lot allocation) (joined_specs store.versions store.profiles)))

abbrev pub json_texts : List String → Jsons
json_texts [] = nil
json_texts (s ∷ ss) = cons (string (codes s)) (json_texts ss)

abbrev pub or_json_null {ℓ} : {A : Type ℓ} → (A → Json) → Option A → Json
or_json_null f none = null
or_json_null f (some a) = f a

-- `str(value)` of an optional UUID.
abbrev pub str_uuid : Option ℕ → Json
str_uuid none = string (codes "None")
str_uuid (some i) = string (uuid_text i)

abbrev pub decimal_json : Decimal → Json
decimal_json d = string (format_f d)

abbrev pub members : List (String × Json) → Members
members [] = end
members ((k, j) ∷ rest) = member (codes k) j (members rest)

abbrev pub snapshot_item : SpecItem → Json
snapshot_item i = object (
    members (
      ("id", string (uuid_text i.id))
      ∷ ("standard_test_item_id", string (uuid_text i.standard_test_item_id))
      ∷ ("required", boolean i.required)
      ∷ ("source_policy", string (codes i.source_policy))
      ∷ ("missing_policy", string (codes i.missing_policy))
      ∷ ("operator", string (codes i.operator))
      ∷ ("lower", or_json_null decimal_json i.lower_value)
      ∷ ("upper", or_json_null decimal_json i.upper_value)
      ∷ ("target", or_json_null decimal_json i.target_value)
      ∷ ("tolerance", or_json_null decimal_json i.tolerance)
      ∷ ("allowed", or_json_null (λ vs. array (json_texts vs)) i.allowed_values)
      ∷ ("unit", or_json_null (λ u. string (codes u)) i.measure)
      ∷ ("precision", number i.precision)
      ∷ ("sample_policy", string (codes i.sample_policy))
      ∷ []))

abbrev pub snapshot_items : List SpecItem → Jsons
snapshot_items [] = nil
snapshot_items (i ∷ is) = cons (snapshot_item i) (snapshot_items is)

-- The items of a version in the order of their identifiers; none is left out.
abbrev pub version_items : Store → ℕ → List SpecItem
version_items store version =
    sort_by (λ (a b : SpecItem). ltb a.id b.id)
      (filter (λ (i : SpecItem). i.spec_version_id == version) store.items)

-- `_spec_snapshot`.
unfoldable pub spec_snapshot : Store → Candidate → Service Members
spec_snapshot store (version, profile) =
    let items = version_items store version.id in
    raise_if (is_empty items) no_spec_items
    >> ok (
        members (
          ("spec_version_id", string (uuid_text version.id))
          ∷ ("semantic_version", number (pos version.version))
          ∷ (
            "profile",
            object (
                members (
                  ("id", string (uuid_text profile.id))
                  ∷ ("material_id", string (uuid_text profile.material_id))
                  ∷ ("supplier_id", str_uuid profile.supplier_id)
                  ∷ ("model_id", str_uuid profile.model_id)
                  ∷ [])),
          )
          ∷ ("effective_from", string (iso_date version.effective_from))
          ∷ ("effective_to", or_json_null (λ d. string (iso_date d)) version.effective_to)
          ∷ ("items", array (snapshot_items items))
          ∷ []))
