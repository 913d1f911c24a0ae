-- ===== src/Approval/Complete.antt =====
-- About the requests that `finalize` of ApprovalRepository lets through: which they are.
use hanyangchem_qc_v.Base.{
  ◌≡◌, ◌≢◌, ◌↔◌, refl, sym, subst, ◌∙◌, inl, inr, Bool, true, false, not, ◌&&◌, Option, List, [],
  ◌∷◌, All, Any, Any-pick, any, String, str_eq, eq_iff, ◌==◌, ==_iff, Bool-cases, raise_if, ok, err,
  ◌>>=◌, ◌>>◌, arith,
}
use hanyangchem_qc_v.Judgment.{EngineDecision, accepted, ItemInput}
use hanyangchem_qc_v.Judgment.Evaluate.{evaluate_case}
use hanyangchem_qc_v.Workflow.{lead_review, guard_transition, lacks_reason, find_case, check_case}
use hanyangchem_qc_v.Snapshots.{Canonical, Text, Fields, dict}
use hanyangchem_qc_v.Snapshots.Freeze.{DecisionSnapshot, payload}
use hanyangchem_qc_v.Store.{InspectionCase, DecisionSnapshotRow, Store}
use hanyangchem_qc_v.Approval.{
  Attempt, ApprovalError, Candidate, enum, reason_required, held_accepted, transition_refused,
  effective_spec,
}
use hanyangchem_qc_v.Approval.Labels.{decision_text}
use hanyangchem_qc_v.Approval.Inputs.{persisted_inputs}
use hanyangchem_qc_v.Approval.Finalize.{
  Request, Origin, refused_transition, workflow_states, final_decisions, reviewed_case, origin_of,
  check_decision, evidence, snapshot_of, or_refused, record_decision, finalize,
}
use hanyangchem_qc_v.Approval.Success.{finalize-Steps}
use hanyangchem_qc_v.Approval.Accepted.{Reviewable, reviewed_case-Reviewable, reviewed_case-allowed}
use hanyangchem_qc_v.Approval.Once.{different}
use hanyangchem_qc_v.Approval.Decision.{
  check_decision-accepted, settle, settle-reason, check_decision-settle,
}

-- A decision that the workflow knows.
abbrev pub IsAllowed : String → Type 0
IsAllowed d = Any (λ x. str_eq x d ≡ true) final_decisions

any-Any : (p : String → Bool) (ds : List String) → Any (λ d. p d ≡ true) ds → any p ds ≡ true
any-Any p [] h = absurd h
any-Any p (d ∷ ds) (inl h) = rw h refl
any-Any p (d ∷ ds) (inr h) = elim (Bool-cases (p d)) [
  | inl hit ↦ rw hit refl
  | inr miss ↦ rw miss (any-Any p ds h)
]

Reviewable-reviewed_case :
    (store : Store) (q : Request) {kase : InspectionCase}
    → Reviewable store q kase
    → IsAllowed q.final_decision
    → reviewed_case store q ≡ ok kase
unfolding reviewed_case
Reviewable-reviewed_case store q {kase = kase} r allowed =
    let (s, submitter, other) = r.four_eyes in
    let known = any-Any (λ d. str_eq d q.final_decision) final_decisions allowed in
    rw
      (
        (eq_iff _ _).1 r.by_lead,
        known,
        r.stands,
        (==_iff _ _).1 r.current,
        r.open_case,
        (eq_iff _ _).1 r.waiting,
        submitter,
        different s q.actor_id other,
      )
      refl

settle-given :
    (r : Option String) → lacks_reason r ≡ false → All (λ d. settle r d ≡ ok tt) final_decisions
unfolding guard_transition find_case check_case
settle-given r given =
    (refl, (rw given refl, (rw given refl, (rw given refl, (rw given refl, tt)))))

accepted-settle : (r : Option String) → settle r "ACCEPTED" ≡ ok tt
unfolding guard_transition find_case check_case
accepted-settle r = refl

reasoned-settle :
    (r : Option String) (d : String)
    → IsAllowed d
    → (d ≢ "ACCEPTED" → lacks_reason r ≡ false)
    → settle r d ≡ ok tt
reasoned-settle r d allowed reasoned = elim (Bool-cases (str_eq d "ACCEPTED")) [
  | inl accepting ↦
      subst (λ x. settle r x ≡ ok tt) (sym ((eq_iff _ _).0 accepting)) (accepted-settle r)
  | inr apart ↦
      let given = reasoned (λ e. cc (apart, (eq_iff _ _).1 e)) in
      let (x, same, passes) =
        Any-pick (λ x. str_eq x d ≡ true) (λ x. settle r x ≡ ok tt) final_decisions allowed
          (settle-given r given) in
      subst (λ x. settle r x ≡ ok tt) ((eq_iff _ _).0 same) passes
]

-- A candidate and a reason that a decision may rest on.
pub record Justified (q : Request) (candidate : EngineDecision) : Type 0 where
  pub allowed : IsAllowed q.final_decision
  pub accepts : q.final_decision ≡ "ACCEPTED" → candidate ≡ accepted
  pub reasoned : q.final_decision ≢ "ACCEPTED" → lacks_reason q.reason ≡ false

raise_if-passes :
    {A : Type 0} (test : Bool) (e : ApprovalError) (k : Attempt A)
    → test ≡ false
    → (raise_if test e >> k) ≡ k
raise_if-passes false e k h = refl
raise_if-passes true e k h = cc

Justified-tests :
    (q : Request) (c : EngineDecision)
    → Justified q c
    → ((not (str_eq q.final_decision (decision_text c)) && lacks_reason q.reason) ≡ false)
      × ((not (str_eq (decision_text c) "ACCEPTED") && str_eq q.final_decision "ACCEPTED") ≡ false)
Justified-tests q c j = elim (Bool-cases (str_eq q.final_decision "ACCEPTED")) [
  | inl accepting ↦
      let d = (eq_iff _ _).0 accepting in (rw (d, j.accepts d) refl, rw (j.accepts d) refl)
  | inr apart ↦
      let given = j.reasoned (λ e. cc (apart, (eq_iff _ _).1 e)) in (ground (arith), ground (arith))
]

Justified-check_decision :
    (q : Request) (c : EngineDecision)
    → q.actor_role ≡ "LEAD"
    → Justified q c
    → check_decision q c ≡ ok tt
unfolding check_decision
Justified-check_decision q c lead j =
    let (stated, held) = Justified-tests q c j in
    raise_if-passes _ reason_required _ stated
    ∙ raise_if-passes _ held_accepted _ held
    ∙ subst
        (λ role.
          (enum workflow_states q.final_decision transition_refused >>= λ target.
          refused_transition (guard_transition lead_review target role q.reason true))
          ≡ ok tt)
        (sym lead) (reasoned-settle q.reason q.final_decision j.allowed j.reasoned)

-- What a decision that goes through rests on, and what it leaves.
pub record Passes (sha256 : Text → Text) (store : Store) (q : Request) (after : Store)
    : Type 0 where
  pub kase : InspectionCase
  pub origin : Origin
  pub spec : Candidate
  pub inputs : List ItemInput
  pub snapshot : DecisionSnapshot
  pub content : Fields
  pub reviewable : Reviewable store q kase
  pub found : origin_of store kase ≡ ok origin
  pub selected : effective_spec store kase origin.allocation origin.receipt origin.lot ≡ ok spec
  pub read : persisted_inputs store kase.id spec.0.id ≡ ok inputs
  pub justified : Justified q (evaluate_case inputs)
  pub frozen : snapshot_of sha256 (evidence store q kase origin spec inputs) ≡ ok snapshot
  pub loaded : payload snapshot ≡ ok content
  pub fresh :
      any (λ (r : DecisionSnapshotRow). r.inspection_case_id == kase.id) store.snapshots ≡ false
  pub left :
      after
      ≡ record_decision store q (evaluate_case inputs) kase (dict content) snapshot.content_hash

or_refused-ok : {A : Type 0} (m : Canonical A) {a : A} → or_refused m ≡ ok a → m ≡ ok a
or_refused-ok (ok b) h = cc
or_refused-ok (err e) h = cc

module _ (sha256 : Text → Text) (store : Store) (q : Request) (after : Store) where
  Passes-finalize : Passes sha256 store q after → finalize sha256 store q ≡ ok after
  unfolding finalize
  Passes-finalize p =
      let reviewed = Reviewable-reviewed_case store q p.reviewable p.justified.allowed in
      let decided =
        Justified-check_decision q (evaluate_case p.inputs) p.reviewable.by_lead p.justified in
      rw (reviewed, p.found, p.selected, p.read, decided, p.frozen, p.loaded, p.fresh, p.left) refl

  -- A decision goes through exactly when it is made by a lead at the version that the lead has
  -- seen, on a case that waits for the lead's review, is undecided and was submitted by somebody
  -- else; when it is one of the five decisions, ACCEPTED only where the engine accepts the case,
  -- and any other with a reason that is not blank, whatever the engine proposes; and when the
  -- origin of the case, its specification, its inputs and its snapshot are found and no snapshot of
  -- the case is there. What it leaves is then the store with the rows of the decision.
  pub finalize-ok_iff : finalize sha256 store q ≡ ok after ↔ Passes sha256 store q after
  finalize-ok_iff = (passes, Passes-finalize)
    where
      passes : finalize sha256 store q ≡ ok after → Passes sha256 store q after
      passes h =
          let steps = finalize-Steps sha256 store q h in
          let r = reviewed_case-Reviewable store q steps.reviewed in
          let allowed = reviewed_case-allowed store q steps.reviewed in
          record {
            kase = steps.kase;
            origin = steps.origin;
            spec = steps.spec;
            inputs = steps.inputs;
            snapshot = steps.snapshot;
            content = steps.content;
            reviewable = r;
            found = steps.found;
            selected = steps.selected;
            read = steps.read;
            justified = record {
              allowed = allowed;
              accepts = check_decision-accepted q (evaluate_case steps.inputs) steps.decided;
              reasoned = λ n.
                  settle-reason q.reason q.final_decision allowed n
                    (check_decision-settle q (evaluate_case steps.inputs) steps.decided r.by_lead);
            };
            frozen = steps.frozen;
            loaded = or_refused-ok _ steps.loaded;
            fresh = steps.fresh;
            left = steps.left;
          }
