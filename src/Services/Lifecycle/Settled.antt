-- ===== src/Services/Lifecycle/Settled.antt =====
-- About cases that were settled, under the services of p3.py.
use hanyangchem_qc_v.Base.{
  ℕ, ◌≡◌, refl, sym, ap, ◌∙◌, inl, inr, true, false, Option, some, List, Any, String, is_some,
  str_eq, eq_iff, ◌==◌, Bool-cases, ok, err, if◌then◌else◌,
}
use hanyangchem_qc_v.Snapshots.{Text}
use hanyangchem_qc_v.Workflow.{lacks_reason}
use hanyangchem_qc_v.Store.{InspectionCase, Store}
use hanyangchem_qc_v.Approval.Finalize.{Request, final_decisions, finalize}
use hanyangchem_qc_v.Approval.Success.{finalize-Steps}
use hanyangchem_qc_v.Approval.Accepted.{reviewed_case-allowed, live-some}
use hanyangchem_qc_v.Approval.Once.{row, settled_row}
use hanyangchem_qc_v.Services.{
  Service, ServiceError, Principal, status_of, stale_inspection, finalized_immutable,
  reason_missing, stale_state,
}
use hanyangchem_qc_v.Services.Lifecycle.{case_row, submit_inspection, return_inspection}
use hanyangchem_qc_v.Services.Results.{InternalResultItem, put_internal_results}

-- The call is refused with the status.
abbrev pub RefusedWith : {A : Type 0} → ℕ → Service A → Type 0
RefusedWith status m = (e : ServiceError) × (m ≡ err e) × (status_of e ≡ status)

pub apart_from_review :
    (s : String) → Any (λ d. str_eq d s ≡ true) final_decisions → str_eq s "LEAD_REVIEW" ≡ false
apart_from_review s (inl h) = ap (λ x. str_eq x "LEAD_REVIEW") (sym ((eq_iff _ _).0 h))
apart_from_review s (inr (inl h)) = ap (λ x. str_eq x "LEAD_REVIEW") (sym ((eq_iff _ _).0 h))
apart_from_review s (inr (inr (inl h))) = ap (λ x. str_eq x "LEAD_REVIEW") (sym ((eq_iff _ _).0 h))
apart_from_review s (inr (inr (inr (inl h)))) =
    ap (λ x. str_eq x "LEAD_REVIEW") (sym ((eq_iff _ _).0 h))
apart_from_review s (inr (inr (inr (inr (inl h))))) =
    ap (λ x. str_eq x "LEAD_REVIEW") (sym ((eq_iff _ _).0 h))
apart_from_review s (inr (inr (inr (inr (inr h))))) = absurd h

module _ (store : Store) (kase : InspectionCase) (version : ℕ) where
  submit_inspection-final :
      (principal : Principal)
      → is_some kase.final_decision ≡ true
      → RefusedWith 409 (submit_inspection store kase version principal)
  unfolding submit_inspection
  submit_inspection-final principal settled = elim (Bool-cases (kase.lock_version == version)) [
    | inl current ↦ (finalized_immutable, rw (current, settled) refl, refl)
    | inr stale ↦ (stale_inspection, rw stale refl, refl)
  ]

  put_internal_results-final :
      (fresh : ℕ → ℕ) (request : List InternalResultItem)
      → is_some kase.final_decision ≡ true
      → RefusedWith 409 (put_internal_results store kase fresh request version)
  unfolding put_internal_results
  put_internal_results-final fresh request settled =
      elim (Bool-cases (kase.lock_version == version)) [
        | inl current ↦ (finalized_immutable, rw (current, settled) refl, refl)
        | inr stale ↦ (stale_inspection, rw stale refl, refl)
      ]

  return_inspection-reviewed :
      (principal : Principal) (reason : Option String) (target : Option ℕ)
      → str_eq kase.status "LEAD_REVIEW" ≡ false
      → RefusedWith
          (if lacks_reason reason then 422 else 409)
          (return_inspection store kase version principal reason target)
  unfolding return_inspection
  return_inspection-reviewed principal reason target elsewhere =
      elim (Bool-cases (lacks_reason reason)) [
        | inl absent ↦ rw absent (reason_missing, refl, refl)
        | inr given ↦ elim (Bool-cases (kase.lock_version == version)) [
          | inl current ↦ rw (given, current, elsewhere) (stale_state, refl, refl)
          | inr stale ↦ rw (given, stale) (stale_state, refl, refl)
        ]
      ]

-- Once a case is settled, the row that finalize leaves takes no internal results and no submission,
-- both refused with status 409, and is not returned: with status 422 where the reason is missing
-- and 409 where it is given; whatever version the requests expect and whoever sends them.
pub finalize-services :
    (sha256 : Text → Text) (store : Store) (q : Request) (version : ℕ) (principal : Principal)
    (fresh : ℕ → ℕ) (request : List InternalResultItem) (reason : Option String) (target : Option ℕ)
    {after : Store}
    → finalize sha256 store q ≡ ok after
    → (kase : InspectionCase) × (case_row after q.case_id ≡ some kase)
      × RefusedWith 409 (submit_inspection after kase version principal)
      × RefusedWith 409 (put_internal_results after kase fresh request version)
      × RefusedWith
          (if lacks_reason reason then 422 else 409)
          (return_inspection after kase version principal reason target)
finalize-services sha256 store q version principal fresh request reason target {after = after} h =
    let (kase, stands, decided, status, _) = settled_row sha256 store q h in
    let final : is_some kase.final_decision ≡ true = ap is_some decided in
    let steps = finalize-Steps sha256 store q h in
    let elsewhere : str_eq kase.status "LEAD_REVIEW" ≡ false =
      ap (λ s. str_eq s "LEAD_REVIEW") status
      ∙ apart_from_review q.final_decision (reviewed_case-allowed store q steps.reviewed) in
    (
      kase,
      live-some (λ (c : InspectionCase). c.deleted) (row q.case_id after.cases) stands,
      submit_inspection-final after kase version principal final,
      put_internal_results-final after kase version fresh request final,
      return_inspection-reviewed after kase version principal reason target elsewhere,
    )
