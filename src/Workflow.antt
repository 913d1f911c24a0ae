-- ===== src/Workflow.antt =====
-- The workflows of an inspection case and of a document
-- (backend/src/hyc_domain/workflow.py, and WorkflowState of judgment.py): the states, the
-- transition tables and the two guards. A table is a list, and the dictionary built from it a
-- search by key; roles and reasons are texts.
pub mod Guard
pub mod CaseHistory
pub mod DocumentHistory
use hanyangchem_qc_v.Base.{
  ℕ, ◌≡◌, refl, Bool, true, false, not, ◌&&◌, ◌||◌, Option, none, some, List, [], ◌∷◌, String,
  str_eq, ◌==◌, if◌then◌else◌, is_none, Result, ok, err, ◌>>=◌, ◌>>◌, raise_if, find?, all,
}
use hanyangchem_qc_v.Base.Text.{is_blank}
use hanyangchem_qc_v.Errors.{FailureCode, invalid_transition}

pub data WorkflowState : Type 0 where
  draft document_pending match_review supplier_review internal_test_pending : WorkflowState
  ready_for_review lead_review returned accepted rejected retest : WorkflowState
  special_accepted on_hold closed cancelled : WorkflowState

pub data DocumentState : Type 0 where
  received stabilizing hashed duplicate preprocessing ocr_running parsed : DocumentState
  review_required parse_confirmed match_pending matched failed archived : DocumentState

-- Members are told apart by their values; a number per member stands for the value.
abbrev pub case_value : WorkflowState → ℕ
case_value draft = 0
case_value document_pending = 1
case_value match_review = 2
case_value supplier_review = 3
case_value internal_test_pending = 4
case_value ready_for_review = 5
case_value lead_review = 6
case_value returned = 7
case_value accepted = 8
case_value rejected = 9
case_value retest = 10
case_value special_accepted = 11
case_value on_hold = 12
case_value closed = 13
case_value cancelled = 14

abbrev pub document_value : DocumentState → ℕ
document_value received = 0
document_value stabilizing = 1
document_value hashed = 2
document_value duplicate = 3
document_value preprocessing = 4
document_value ocr_running = 5
document_value parsed = 6
document_value review_required = 7
document_value parse_confirmed = 8
document_value match_pending = 9
document_value matched = 10
document_value failed = 11
document_value archived = 12

pub record Transition : Type 0 where
  pub current : WorkflowState
  pub target : WorkflowState
  pub role : String
  pub requires_reason : Bool
  pub requires_re_evaluation : Bool

pub record DocumentTransition : Type 0 where
  pub current : DocumentState
  pub target : DocumentState
  pub role : String
  pub requires_reason : Bool

abbrev pub inspector : String
inspector = "INSPECTOR"

abbrev pub lead : String
lead = "LEAD"

abbrev pub system : String
system = "SYSTEM"

abbrev pub case_edge : WorkflowState → WorkflowState → String → Bool → Bool → Transition
case_edge c t r reason evaluated = record {
  current = c;
  target = t;
  role = r;
  requires_reason = reason;
  requires_re_evaluation = evaluated;
}

abbrev pub document_edge : DocumentState → DocumentState → String → Bool → DocumentTransition
document_edge c t r reason = record { current = c; target = t; role = r; requires_reason = reason }

-- CASE_TRANSITIONS.
abbrev pub case_transitions : List Transition
case_transitions =
    case_edge draft document_pending inspector false false
    ∷ case_edge document_pending match_review inspector false false
    ∷ case_edge match_review supplier_review inspector false false
    ∷ case_edge supplier_review internal_test_pending inspector false false
    ∷ case_edge supplier_review ready_for_review inspector false true
    ∷ case_edge internal_test_pending ready_for_review inspector false true
    ∷ case_edge ready_for_review lead_review inspector false true
    ∷ case_edge returned ready_for_review inspector false true
    ∷ case_edge lead_review accepted lead false true
    ∷ case_edge lead_review rejected lead true true
    ∷ case_edge lead_review on_hold lead true true
    ∷ case_edge lead_review retest lead true true
    ∷ case_edge lead_review special_accepted lead true true
    ∷ case_edge lead_review returned lead true false
    ∷ case_edge returned document_pending inspector true false
    ∷ case_edge retest document_pending inspector true false
    ∷ case_edge draft on_hold inspector true false
    ∷ case_edge on_hold draft lead true false
    ∷ case_edge accepted closed lead false false
    ∷ case_edge rejected closed lead false false
    ∷ case_edge special_accepted closed lead false false
    ∷ case_edge draft cancelled inspector true false
    ∷ []

-- DOCUMENT_TRANSITIONS.
abbrev pub document_transitions : List DocumentTransition
document_transitions =
    document_edge received stabilizing system false
    ∷ document_edge stabilizing hashed system false
    ∷ document_edge hashed duplicate system false
    ∷ document_edge hashed preprocessing system false
    ∷ document_edge preprocessing ocr_running system false
    ∷ document_edge ocr_running parsed system false
    ∷ document_edge parsed review_required system false
    ∷ document_edge parsed parse_confirmed inspector false
    ∷ document_edge review_required parse_confirmed inspector false
    ∷ document_edge parse_confirmed match_pending inspector false
    ∷ document_edge match_pending matched inspector false
    ∷ document_edge matched archived lead false
    ∷ document_edge failed received inspector true
    ∷ []

-- The keys `(current, target, role)` of the dictionaries.
abbrev pub has_case_key : WorkflowState → WorkflowState → String → Transition → Bool
has_case_key c t r item =
    case_value item.current == case_value c
    && case_value item.target == case_value t
    && str_eq item.role r

abbrev pub has_document_key : DocumentState → DocumentState → String → DocumentTransition → Bool
has_document_key c t r item =
    document_value item.current == document_value c
    && document_value item.target == document_value t
    && str_eq item.role r

-- The checks at import: no key is given twice, so that a search finds the dictionary's entry.
abbrev distinct_case_keys : List Transition → Bool
distinct_case_keys [] = true
distinct_case_keys (x ∷ xs) =
    all (λ y. not (has_case_key x.current x.target x.role y)) xs && distinct_case_keys xs

abbrev distinct_document_keys : List DocumentTransition → Bool
distinct_document_keys [] = true
distinct_document_keys (x ∷ xs) =
    all (λ y. not (has_document_key x.current x.target x.role y)) xs && distinct_document_keys xs

-- `_CASE_TRANSITIONS_BY_KEY.get((current, target, role))`.
unfoldable pub find_case : WorkflowState → WorkflowState → String → Option Transition
find_case c t r = find? (has_case_key c t r) case_transitions

unfoldable pub find_document : DocumentState → DocumentState → String → Option DocumentTransition
find_document c t r = find? (has_document_key c t r) document_transitions

-- `not (reason and reason.strip())`.
unfoldable pub lacks_reason : Option String → Bool
lacks_reason none = true
lacks_reason (some s) = is_blank s

-- The three messages of StateTransitionError.
pub data TransitionError : Type 0 where
  not_permitted reason_required re_evaluation_required : TransitionError

abbrev pub code : TransitionError → FailureCode
code e = invalid_transition

abbrev Guarded : Type 0
Guarded = Result TransitionError (Unit {0})

unfoldable pub check_case : Option Transition → Option String → Bool → Guarded
check_case none reason re_evaluated = err not_permitted
check_case (some permitted) reason re_evaluated = do
  raise_if (permitted.requires_reason && lacks_reason reason) reason_required
  raise_if (permitted.requires_re_evaluation && not re_evaluated) re_evaluation_required

unfoldable pub guard_transition :
    WorkflowState → WorkflowState → String → Option String → Bool → Guarded
unfolding check_case
guard_transition current target role reason re_evaluated =
    check_case (find_case current target role) reason re_evaluated

unfoldable pub check_document : Option DocumentTransition → Option String → Guarded
check_document none reason = err not_permitted
check_document (some permitted) reason =
    raise_if (permitted.requires_reason && lacks_reason reason) reason_required

unfoldable pub guard_document_transition :
    DocumentState → DocumentState → String → Option String → Guarded
unfolding check_document
guard_document_transition current target role reason =
    check_document (find_document current target role) reason

case_keys_distinct : distinct_case_keys case_transitions ≡ true
case_keys_distinct = refl

document_keys_distinct : distinct_document_keys document_transitions ≡ true
document_keys_distinct = refl
