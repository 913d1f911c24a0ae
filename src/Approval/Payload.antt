-- ===== src/Approval/Payload.antt =====
-- The payload of a decision snapshot (`_snapshot`).
use hanyangchem_qc_v.Base.{
  ℕ, Option, none, some, List, [], ◌∷◌, map, String, if◌then◌else◌, or_list,
}
use hanyangchem_qc_v.Base.Int.{pos}
use hanyangchem_qc_v.Base.Text.{strip}
use hanyangchem_qc_v.Errors.{FailureCode}
use hanyangchem_qc_v.Workflow.{lacks_reason}
use hanyangchem_qc_v.Judgment.{EngineDecision, SampleAggregation, ItemEvaluation}
use hanyangchem_qc_v.Snapshots.{Text, Day, Value, Fields, str, integer, date}
use hanyangchem_qc_v.Approval.Labels.{
  decision_text, policy_text, source_text, stage_text, failure_text,
}
use hanyangchem_qc_v.Store.{
  SpecItem, SpecVersion, SpecProfile, SupplierResult, InternalResult, MaterialLot,
  ReceiptLotAllocation,
}
use hanyangchem_qc_v.Approval.Rows.{
  texts, uuid, items, list_of, fields, object_of, or_null, or_text, uuid_or, rule_payload,
  missing_row, supplier_payload, internal_payload, mapping_payload,
}

abbrev pub decision_or_absent : Option EngineDecision → Value
decision_or_absent none = texts "NOT_AVAILABLE"
decision_or_absent (some d) = texts (decision_text d)

abbrev failure_texts : List FailureCode → List Value
failure_texts codes_of = or_list (map (λ c. texts (failure_text c)) codes_of) (texts "NONE" ∷ [])

abbrev pub aggregation_payload : SampleAggregation → Value
aggregation_payload a = object_of (
    ("source", texts (source_text a.source))
    ∷ ("policy", texts (policy_text a.policy))
    ∷ ("pre_round", or_null Value.decimal a.pre_round)
    ∷ ("result", or_null Value.decimal a.result)
    ∷ ("rounding_scale", integer a.rounding_scale)
    ∷ ("rounding_version", texts a.rounding_version)
    ∷ ("arithmetic_version", texts "P2_DECIMAL_CONTEXT_V1")
    ∷ [])

abbrev pub item_decision : SpecItem → ItemEvaluation → Value
item_decision item e = object_of (
    ("spec_item_id", uuid item.id)
    ∷ ("supplier", decision_or_absent e.supplier_decision)
    ∷ ("hyc_supplier", decision_or_absent e.hyc_supplier_decision)
    ∷ ("internal", decision_or_absent e.internal_decision)
    ∷ ("overall", texts (decision_text e.overall))
    ∷ ("completed_stages", Value.tuple (items (map (λ s. texts (stage_text s)) e.completed_stages)))
    ∷ ("failure_codes", list_of (failure_texts e.failure_codes))
    ∷ ("aggregations", list_of (map aggregation_payload e.aggregations))
    ∷ [])

-- `zip(spec_items, evaluations)`: one evaluation for each item.
unfoldable pub item_decisions : List SpecItem → List ItemEvaluation → List Value
item_decisions (i ∷ is) (e ∷ es) = item_decision i e ∷ item_decisions is es
item_decisions _ _ = []

-- `reason.strip() if reason and reason.strip() else None`.
unfoldable pub stated_reason : Option String → Option String
stated_reason none = none
stated_reason (some r) = if lacks_reason (some r) then none else some (strip r)

-- What the payload is made of.
pub record Evidence : Type 0 where
  pub actor_id : ℕ
  pub reason : Option String
  pub final_decision : String
  pub candidate : EngineDecision
  pub version : SpecVersion
  pub profile : SpecProfile
  pub allocation : ReceiptLotAllocation
  pub lot : MaterialLot
  pub spec_items : List SpecItem
  pub suppliers : List SupplierResult
  pub internals : List InternalResult
  pub evaluations : List ItemEvaluation
  pub hashes : List Text

abbrev date_or : Option Day → String → Value
date_or none default = texts default
date_or (some d) default = date d

abbrev or_engine_match : Option String → String
or_engine_match none = "ENGINE_MATCH"
or_engine_match (some r) = r

-- The payload of `_snapshot`.
unfoldable pub snapshot_payload : Evidence → Fields
unfolding rule_payload item_decisions stated_reason
snapshot_payload x = fields (
    (
      "spec_version",
      object_of (
          ("id", uuid x.version.id)
          ∷ ("profile_id", uuid x.profile.id)
          ∷ ("semantic_version", integer (pos x.version.version))
          ∷ ("status", texts x.version.status)
          ∷ ("effective_from", date x.version.effective_from)
          ∷ ("effective_to", date_or x.version.effective_to "OPEN")
          ∷ []),
    )
    ∷ ("spec_items", list_of (map rule_payload x.spec_items))
    ∷ (
      "mapping",
      list_of (
          or_list (map mapping_payload x.suppliers)
            (missing_row "NO_SUPPLIER_MAPPING_INTERNAL_ONLY")),
    )
    ∷ (
      "supplier_results",
      list_of (or_list (map supplier_payload x.suppliers) (missing_row "MISSING")),
    )
    ∷ (
      "internal_results",
      list_of (or_list (map internal_payload x.internals) (missing_row "MISSING")),
    )
    ∷ (
      "unit_conversions",
      object_of (
          ("version", texts "P2_NORMALIZED_PERSISTENCE_V1")
          ∷ ("mode", texts "persisted normalized Decimal values")
          ∷ []),
    )
    ∷ ("item_decisions", list_of (item_decisions x.spec_items x.evaluations))
    ∷ ("source_policy", list_of (map (λ (i : SpecItem). texts i.source_policy) x.spec_items))
    ∷ ("missing_policy", list_of (map (λ (i : SpecItem). texts i.missing_policy) x.spec_items))
    ∷ ("overall_decision", texts (decision_text x.candidate))
    ∷ ("document_hashes", list_of (map str x.hashes))
    ∷ ("engine_version", texts "P2_JUDGMENT_ENGINE_V1")
    ∷ ("policy_version", texts "P2_FAIL_CLOSED_POLICY_V1")
    ∷ ("rounding_version", texts "P2_HALF_EVEN_V1")
    ∷ ("conversion_version", texts "P2_NORMALIZED_PERSISTENCE_V1")
    ∷ ("approver", object_of (("actor_id", uuid x.actor_id) ∷ ("role", texts "LEAD") ∷ []))
    ∷ ("sample_policy", list_of (map (λ (i : SpecItem). texts i.sample_policy) x.spec_items))
    ∷ (
      "lot_reference",
      object_of (
          ("lot_id", uuid x.lot.id)
          ∷ ("identity_policy_version", texts x.lot.identity_policy_version)
          ∷ ("identity_key", texts (or_text x.lot.identity_key "PROVISIONAL"))
          ∷ []),
    )
    ∷ (
      "allocation_reference",
      object_of (
          ("allocation_id", uuid x.allocation.id)
          ∷ ("model_id", uuid_or x.allocation.model_id "COMMON")
          ∷ []),
    )
    ∷ (
      "decision_reasons",
      object_of (
          ("candidate", texts (decision_text x.candidate))
          ∷ ("final", texts x.final_decision)
          ∷ ("reason", texts (or_engine_match (stated_reason x.reason)))
          ∷ ("hold_precedence", texts "ON_HOLD_OVER_REJECTED_V1")
          ∷ []),
    )
    ∷ [])
