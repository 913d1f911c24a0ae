-- ===== src/Approval/Accepted.antt =====
-- About the checks of `finalize` of ApprovalRepository on the case and its rows.
use hanyangchem_qc_v.Base.{
  ℕ, ◌≡◌, refl, sym, ◌∙◌, ap, ◌≢◌, inl, inr, Bool, true, false, not, ◌||◌, Option, none, some, Any,
  any, filter, sort_by, any-true, find?-true, str_eq, eq_iff, ◌==◌, ==_iff, is_some, arith,
  Bool-cases, bind-ok, raise_if-ok, ok, some-injective,
}
use hanyangchem_qc_v.Store.{InspectionCase, Store}
use hanyangchem_qc_v.Approval.{
  ApprovalError, Attempt, or_raise, live, not_lead, same_actor, stale_approval,
  not_allowed_decision, case_unavailable, not_awaiting, submitter_missing, Candidate,
  effective_spec, check_model, most_specific, ranks_above, is_effective, joined_specs, other_spec,
  other_lot,
}
use hanyangchem_qc_v.Approval.Finalize.{
  Request, Origin, find_case_row, reviewed_case, final_decisions,
}

-- The case that `finalize` may settle: it stands in the store under the id of the request, at the
-- version that the request expects, waits for the lead's review, and was submitted by somebody
-- else than the one who decides; that one acts as lead.
pub record Reviewable (store : Store) (q : Request) (kase : InspectionCase) : Type 0 where
  pub by_lead : q.actor_role ≡ "LEAD"
  pub stands : find_case_row store q.case_id ≡ some kase
  pub current : kase.lock_version ≡ q.expected_version
  pub waiting : kase.status ≡ "LEAD_REVIEW"
  pub open_case : kase.final_decision ≡ none
  pub four_eyes : (s : ℕ) × (kase.submitted_by_id ≡ some s) × (s ≢ q.actor_id)

pub or_raise-ok :
    {A : Type 0} (o : Option A) (e : ApprovalError) {a : A} → or_raise o e ≡ ok a → o ≡ some a
or_raise-ok none e h = cc
or_raise-ok (some b) e h = cc

pub negated : (b : Bool) → not b ≡ false → b ≡ true
negated true h = refl
negated false h = cc

no_value : {A : Type 0} (o : Option A) → is_some o ≡ false → o ≡ none
no_value none h = refl
no_value (some a) h = cc

or_false : (a b : Bool) → (a || b) ≡ false → (a ≡ false) × (b ≡ false)
or_false a b h = ground arith

pub differs : (a b : ℕ) → (a == b) ≡ false → a ≢ b
differs a b h e = ground (arith, ==_iff a b)

pub reviewed_case-Reviewable :
    (store : Store) (q : Request) {kase : InspectionCase}
    → reviewed_case store q ≡ ok kase
    → Reviewable store q kase
unfolding reviewed_case
reviewed_case-Reviewable store q {kase = kase} h =
    let (lead, h1) = raise_if-ok (not (str_eq q.actor_role "LEAD")) not_lead _ h in
    let (allowed, h2) =
      raise_if-ok (not (any (λ d. str_eq d q.final_decision) final_decisions)) not_allowed_decision
        _ h1 in
    let (k, found, h3) = bind-ok (or_raise (find_case_row store q.case_id) case_unavailable) _ h2 in
    let (version, h4) =
      raise_if-ok (not (k.lock_version == q.expected_version)) stale_approval _ h3 in
    let (awaiting, h5) =
      raise_if-ok (is_some k.final_decision || not (str_eq k.status "LEAD_REVIEW")) not_awaiting _
        h4 in
    let (s, submitter, h6) = bind-ok (or_raise k.submitted_by_id submitter_missing) _ h5 in
    let (other, h7) = raise_if-ok (s == q.actor_id) same_actor _ h6 in
    let same : k ≡ kase = cc in
    let (undecided, status) = or_false (is_some k.final_decision) _ awaiting in
    record {
      by_lead = (eq_iff _ _).0 (negated _ lead);
      stands = or_raise-ok _ case_unavailable found ∙ ap some same;
      current =
          ap (λ (c : InspectionCase). c.lock_version) (sym same)
          ∙ (==_iff _ _).0 (negated _ version);
      waiting =
          ap (λ (c : InspectionCase). c.status) (sym same) ∙ (eq_iff _ _).0 (negated _ status);
      open_case = ap (λ (c : InspectionCase). c.final_decision) (sym same) ∙ no_value _ undecided;
      four_eyes = (
        s,
        ap (λ (c : InspectionCase). c.submitted_by_id) (sym same)
            ∙ or_raise-ok _ submitter_missing submitter,
        differs s q.actor_id other,
      );
    }

pub reviewed_case-allowed :
    (store : Store) (q : Request) {kase : InspectionCase}
    → reviewed_case store q ≡ ok kase
    → Any (λ d. str_eq d q.final_decision ≡ true) final_decisions
unfolding reviewed_case
reviewed_case-allowed store q h =
    let (_, h1) = raise_if-ok (not (str_eq q.actor_role "LEAD")) not_lead _ h in
    let (allowed, _) =
      raise_if-ok (not (any (λ d. str_eq d q.final_decision) final_decisions)) not_allowed_decision
        _ h1 in
    any-true (λ d. str_eq d q.final_decision) final_decisions (negated _ allowed)

pub live-some :
    {A : Type 0} (deleted : A → Bool) (o : Option A) {a : A} → live deleted o ≡ some a → o ≡ some a
live-some deleted none h = cc
live-some deleted (some b) h = elim (Bool-cases (deleted b)) [
  | inl gone ↦ absurd (cc (rw gone at h))
  | inr stays ↦ rw stays at h
]

pub live-deleted :
    {A : Type 0} (deleted : A → Bool) (o : Option A) {a : A}
    → live deleted o ≡ some a
    → deleted a ≡ false
live-deleted deleted none h = cc
live-deleted deleted (some b) h = elim (Bool-cases (deleted b)) [
  | inl gone ↦ absurd (cc (rw gone at h))
  | inr stays ↦ rw (← some-injective _ _ (rw stays at h)) stays
]

abbrev chosen_spec : Store → Origin → Attempt Candidate
chosen_spec store o = most_specific (
    sort_by ranks_above (
      filter (is_effective o.receipt o.lot o.allocation)
        (joined_specs store.versions store.profiles)))

-- The row that is found has the id that is sought.
pub find_case_row-id :
    (store : Store) (i : ℕ) {kase : InspectionCase}
    → find_case_row store i ≡ some kase
    → kase.id ≡ i
find_case_row-id store i h = (==_iff _ _).0 (
    find?-true (λ (c : InspectionCase). c.id == i) store.cases
      (live-some (λ (c : InspectionCase). c.deleted) _ h))

-- The specification that is found is the one that the case is bound to.
pub effective_spec-bound :
    (store : Store) (kase : InspectionCase) (o : Origin) {spec : Candidate}
    → effective_spec store kase o.allocation o.receipt o.lot ≡ ok spec
    → spec.0.id ≡ kase.spec_version_id
unfolding effective_spec
effective_spec-bound store kase o {spec = spec} h =
    let (_, _, h1) = bind-ok (check_model store o.lot o.allocation.model_id) _ h in
    let (selected, _, h2) = bind-ok (chosen_spec store o) _ h1 in
    let (bound, h3) = raise_if-ok (not (selected.0.id == kase.spec_version_id)) other_spec _ h2 in
    let (_, h4) = raise_if-ok (not (o.allocation.material_lot_id == o.lot.id)) other_lot _ h3 in
    let same : selected ≡ spec = cc in
    ap (λ (c : Candidate). c.0.id) (sym same) ∙ (==_iff _ _).0 (negated _ bound)
