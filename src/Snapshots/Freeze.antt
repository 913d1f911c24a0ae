-- ===== src/Snapshots/Freeze.antt =====
-- Canonical JSON, its hash, and the decision snapshots. SHA-256 is a parameter: the digest of a
-- text in UTF-8, in hexadecimal.
use hanyangchem_qc_v.Base.{
  Bool, true, false, not, ◌||◌, Option, none, some, List, [], ◌∷◌, any, all, String, is_none,
  if◌then◌else◌, ok, err, ◌>>=◌, ◌>>◌, raise_if,
}
use hanyangchem_qc_v.Base.Text.{codes, is_space, text_eq}
use hanyangchem_qc_v.Snapshots.{
  Text, Value, Items, Fields, Key, name, other_key, field, str, integer, dict, tuple, Json, Jsons,
  Members, string, number, object, member, Canonical, normalise, not_mapping, incomplete,
  empty_values, not_candidate, not_object, hash_mismatch, not_canonical,
}
use hanyangchem_qc_v.Snapshots.Dump.{dumps}
use hanyangchem_qc_v.Snapshots.Load.{loads}

unfoldable pub canonical_json : Value → Canonical Text
canonical_json (dict fs) = normalise (dict fs) >>= λ j. ok (dumps j)
canonical_json _ = err not_mapping

-- APPROVAL_SNAPSHOT_REQUIRED_KEYS.
abbrev pub required_keys : List String
required_keys =
    "spec_version" ∷ "spec_items" ∷ "mapping" ∷ "supplier_results" ∷ "internal_results"
    ∷ "unit_conversions" ∷ "item_decisions" ∷ "source_policy" ∷ "missing_policy"
    ∷ "overall_decision" ∷ "document_hashes" ∷ "engine_version" ∷ "policy_version"
    ∷ "rounding_version" ∷ "conversion_version" ∷ "approver" ∷ "sample_policy" ∷ "lot_reference"
    ∷ "allocation_reference" ∷ "decision_reasons" ∷ []

abbrev is_key : Text → Key → Bool
is_key t (name k) = text_eq k t
is_key t other_key = false

-- `payload.get(key)`.
abbrev pub get : Text → Fields → Option Value
get t Fields.end = none
get t (field k v fs) = let rest = get t fs in if is_key t k then some v else rest

abbrev pub blank_text : Text → Bool
blank_text t = all is_space t

-- `_is_empty_required_value`.
unfoldable pub is_empty_required_value : Value → Bool
is_empty_required_value Value.null = true
is_empty_required_value (str t) = blank_text t
is_empty_required_value (dict Fields.end) = true
is_empty_required_value (Value.array Items.nil) = true
is_empty_required_value (tuple Items.nil) = true
is_empty_required_value _ = false

abbrev pub holds_empty : Option Value → Bool
holds_empty none = true
holds_empty (some v) = is_empty_required_value v

abbrev pub is_candidate_text : Text → Bool
is_candidate_text t =
    text_eq t (codes "ACCEPTED") || text_eq t (codes "REJECTED") || text_eq t (codes "ON_HOLD")

abbrev pub is_candidate_state : Option Value → Bool
is_candidate_state (some (str t)) = is_candidate_text t
is_candidate_state _ = false

-- A value that `json.loads` gives.
unfoldable mutual
  pub of_json : Json → Value
  of_json Json.null = Value.null
  of_json (Json.boolean b) = Value.boolean b
  of_json (string t) = str t
  of_json (number n) = integer n
  of_json (object ms) = dict (of_members ms)
  of_json (Json.array js) = Value.array (of_items js)

  pub of_items : Jsons → Items
  of_items Jsons.nil = Items.nil
  of_items (Jsons.cons j js) = Items.cons (of_json j) (of_items js)

  pub of_members : Members → Fields
  of_members Members.end = Fields.end
  of_members (member k j ms) = field (name k) (of_json j) (of_members ms)

pub record DecisionSnapshot : Type 0 where
  pub canonical_text : Text
  pub content_hash : Text

-- The checks of `freeze_for_approval` before it freezes.
unfoldable pub check_approval : Fields → Canonical (Unit {0})
unfolding is_empty_required_value
check_approval fs =
    raise_if (any (λ k. is_none (get (codes k) fs)) required_keys) incomplete
    >> raise_if (any (λ k. holds_empty (get (codes k) fs)) required_keys) empty_values
    >> raise_if (not (is_candidate_state (get (codes "overall_decision") fs))) not_candidate

-- DecisionSnapshot.payload: always an object.
unfoldable pub payload : DecisionSnapshot → Canonical Fields
unfolding of_json
payload s =
    loads s.canonical_text >>= λ j. elim j [ object ms ↦ ok (of_members ms) | _ ↦ err not_object ]

module _ (sha256 : Text → Text) where
  unfoldable pub canonical_hash : Value → Canonical Text
  canonical_hash v = canonical_json v >>= λ t. ok (sha256 t)

  unfoldable pub freeze : Fields → Canonical DecisionSnapshot
  freeze fs =
      canonical_json (dict fs) >>= λ t. ok (record { canonical_text = t; content_hash = sha256 t })

  unfoldable pub freeze_for_approval : Fields → Canonical DecisionSnapshot
  unfolding freeze
  freeze_for_approval fs = check_approval fs >> freeze fs

  unfoldable pub verify : DecisionSnapshot → Canonical (Unit {0})
  unfolding canonical_hash freeze_for_approval
  verify s = do
    fs ← payload s
    expected ← canonical_hash (dict fs)
    raise_if (not (text_eq s.content_hash expected)) hash_mismatch
    verified ← freeze_for_approval fs
    raise_if (not (text_eq verified.content_hash s.content_hash)) not_canonical
