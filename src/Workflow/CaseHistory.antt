-- ===== src/Workflow/CaseHistory.antt =====
-- About histories of a case: sequences of changes that the guard of workflow.py lets through.
use hanyangchem_qc_v.Base.{
  ◌≡◌, refl, ◌≢◌, Bool, true, false, not, ◌&&◌, ◌||◌, Option, none, some, List, [], ◌∷◌, String,
  str_eq, eq_iff, arith, ◌==◌, ok, err, Any-pick, all, all-All, if◌then◌else◌, sym, ap, ◌∙◌, ◌++◌,
  Bool-cases, inl, inr, some-injective,
}
use hanyangchem_qc_v.Workflow.{
  WorkflowState, lead_review, accepted, rejected, special_accepted, retest, closed, cancelled,
  returned, on_hold, Transition, case_value, case_transitions, lead, lacks_reason, guard_transition,
}
use hanyangchem_qc_v.Workflow.Guard.{Allows, guard_transition-ok_iff, case_value-injective}

-- One requested change of a case.
pub record Move : Type 0 where
  pub target : WorkflowState
  pub role : String
  pub reason : Option String
  pub re_evaluated : Bool

abbrev pub permitted : WorkflowState → Move → Bool
permitted s m = elim (guard_transition s m.target m.role m.reason m.re_evaluated) [
  | ok u ↦ true
  | err e ↦ false
]

-- The state after a list of changes, if every one is let through.
unfoldable pub follow : WorkflowState → List Move → Option WorkflowState
follow s [] = some s
follow s (m ∷ ms) = let rest = follow m.target ms in if permitted s m then rest else none

-- A test that every entry of the table passes holds of every change that is let through.
pub permitted-entry :
    (q : Transition → Bool) (s : WorkflowState) (m : Move)
    → all q case_transitions ≡ true
    → permitted s m ≡ true
    → (item : Transition) × Allows s m.target m.role m.reason m.re_evaluated item × (q item ≡ true)
permitted-entry q s m table h =
    Any-pick _ _ case_transitions
      ((guard_transition-ok_iff s m.target m.role m.reason m.re_evaluated).0 (ground arith))
      (all-All q case_transitions table)

abbrev pub is_decision : WorkflowState → Bool
is_decision accepted = true
is_decision rejected = true
is_decision special_accepted = true
is_decision retest = true
is_decision _ = false

abbrev is_final : WorkflowState → Bool
is_final closed = true
is_final cancelled = true
is_final _ = false

-- A decision on a case: made by the lead, on a re-evaluated case.
pub record Decides (m : Move) : Type 0 where
  pub by_lead : m.role ≡ lead
  pub evaluated : m.re_evaluated ≡ true
  pub decision : is_decision m.target ≡ true
  pub reasoned : m.target ≢ accepted → lacks_reason m.reason ≡ false

abbrev decision_entry : Transition → Bool
decision_entry item =
    not (is_decision item.target)
    || case_value item.current == 6
      && str_eq item.role lead
      && item.requires_re_evaluation
      && (case_value item.target == 8 || item.requires_reason)

decision-item :
    (s : WorkflowState) (m : Move) (item : Transition)
    → Allows s m.target m.role m.reason m.re_evaluated item
    → decision_entry item ≡ true
    → is_decision m.target ≡ true
    → (s ≡ lead_review) × Decides m
decision-item s m item a q d =
    let d' : is_decision item.target ≡ true = rw a.to d in
    let (from, by, ev, why) = split d' in
    (
      sym a.from ∙ from,
      record {
        by_lead = sym a.by ∙ by;
        evaluated = a.evaluated ev;
        decision = d;
        reasoned = λ n. a.reasoned (why (λ e. n (sym a.to ∙ e)));
      },
    )
  where
    split :
        is_decision item.target ≡ true
        → (item.current ≡ lead_review)
          × (item.role ≡ lead)
          × (item.requires_re_evaluation ≡ true)
          × (item.target ≢ accepted → item.requires_reason ≡ true)
    split e = ground (
      arith,
      case_value-injective item.current lead_review,
      case_value-injective item.target accepted,
      eq_iff item.role lead,
    )

decision-step :
    (s : WorkflowState) (m : Move)
    → permitted s m ≡ true
    → is_decision m.target ≡ true
    → (s ≡ lead_review) × Decides m
decision-step s m h d =
    let (item, a, q) = permitted-entry decision_entry s m refl h in decision-item s m item a q d

-- A decision was made, and perhaps the case was closed after it.
abbrev pub is_settled : WorkflowState → Bool
is_settled closed = true
is_settled s = is_decision s

abbrev closing_entry : Transition → Bool
closing_entry item = not (case_value item.target == 13) || is_decision item.current

closing-step :
    (s : WorkflowState) (m : Move) → permitted s m ≡ true → m.target ≡ closed → is_decision s ≡ true
closing-step s m h c =
    let (item, a, q) = permitted-entry closing_entry s m refl h in
    rw (← a.from) (unless item (a.to ∙ c) q)
  where
    unless :
        (item : Transition)
        → item.target ≡ closed
        → closing_entry item ≡ true
        → is_decision item.current ≡ true
    unless item e q = ground arith

settled-step :
    (s : WorkflowState) (m : Move)
    → permitted s m ≡ true
    → is_settled s ≡ false
    → is_settled m.target ≡ true
    → (s ≡ lead_review) × Decides m
settled-step s m h u d = elim (Bool-cases (is_decision m.target)) [
  | inl yes_decision ↦ decision-step s m h yes_decision
  | inr other ↦ absurd (undecided s u (closing-step s m h (is_closed m.target other d)))
]
  where
    is_closed : (t : WorkflowState) → is_decision t ≡ false → is_settled t ≡ true → t ≡ closed
    is_closed t n d = ground arith

    undecided : (t : WorkflowState) → is_settled t ≡ false → is_decision t ≡ true → ⊥
    undecided t n d = ground arith

-- A case that is settled at the end of a history and was not at its start went through the lead's
-- review: some change of the history starts in LEAD_REVIEW, after changes that all were let
-- through, and is a decision by the lead on a re-evaluated case, with a reason unless it accepts.
pub follow-decided :
    (s : WorkflowState) (ms : List Move) {t : WorkflowState}
    → follow s ms ≡ some t
    → is_settled s ≡ false
    → is_settled t ≡ true
    → (before : List Move) × (m : Move) × (after : List Move) × (ms ≡ before ++ m ∷ after)
      × (follow s before ≡ some lead_review)
      × Decides m
unfolding follow
follow-decided s [] h u d = absurd (cc (ap is_settled (some-injective _ _ h)))
follow-decided s (m ∷ ms) h u d = elim (Bool-cases (permitted s m)) [
  | inr refused ↦ absurd (cc (rw refused at h))
  | inl let_through ↦ elim (Bool-cases (is_settled m.target)) [
    | inl settled ↦
        let (at_review, decides) = settled-step s m let_through u settled in
        ([], m, ms, refl, ap some at_review, decides)
    | inr open_still ↦
        let (before, c, after, parts, review, decides) =
          follow-decided m.target ms (rw let_through at h) open_still d in
        (m ∷ before, c, after, ap (λ l. m ∷ l) parts, rw let_through review, decides)
  ]
]

-- A closed or cancelled case takes no further change.
pub final-refused : (s : WorkflowState) (m : Move) → is_final s ≡ true → permitted s m ≡ false
final-refused s m f = elim (Bool-cases (permitted s m)) [
  | inr refused ↦ refused
  | inl through ↦
      let (item, a, q) = permitted-entry (λ item. not (is_final item.current)) s m refl through in
      absurd (cc (rw (a.from, f) at q))
]

-- A case that is returned, on hold for a decision, or cancelled carries a reason that is not blank,
-- whoever moved it there.
abbrev pub wants_reason : WorkflowState → Bool
wants_reason rejected = true
wants_reason retest = true
wants_reason special_accepted = true
wants_reason returned = true
wants_reason on_hold = true
wants_reason cancelled = true
wants_reason _ = false

-- A change that is let through and makes a case REJECTED, ON_HOLD, RETEST, SPECIAL_ACCEPTED, RETURNED
-- or CANCELLED has a reason that is not blank.
pub reason-step :
    (s : WorkflowState) (m : Move)
    → permitted s m ≡ true
    → wants_reason m.target ≡ true
    → lacks_reason m.reason ≡ false
reason-step s m h w =
    let (item, a, q) =
      permitted-entry (λ item. not (wants_reason item.target) || item.requires_reason) s m refl h in
    a.reasoned (ground (arith, a.to))
