-- ===== src/Examples/Workflow.antt =====
-- A case and a document on their way through the workflows of workflow.py.
use hanyangchem_qc_v.Base.{
  ◌+◌, ◌≤◌, ◌≡◌, refl, ◌↔◌, Bool, true, false, none, some, List, [], ◌∷◌, ◌++◌, ok, Any, length,
}
use hanyangchem_qc_v.Base.Text.{is_blank}
use hanyangchem_qc_v.Workflow.{
  WorkflowState, DocumentState, draft, document_pending, match_review, supplier_review,
  ready_for_review, lead_review, rejected, parsed, parse_confirmed, match_pending, matched,
  archived, inspector, lead, case_transitions, guard_transition, find_case, check_case,
  lacks_reason, guard_document_transition, find_document, check_document,
}
use hanyangchem_qc_v.Workflow.Guard.{Allows, guard_transition-ok_iff}
use hanyangchem_qc_v.Workflow.CaseHistory.{Move, Decides, follow, follow-decided}
use hanyangchem_qc_v.Workflow.DocumentHistory.{
  DocumentMove, archived-confirmed, progress, follow-progress, failed-refused,
}
use hanyangchem_qc_v.Workflow.DocumentHistory

guard_transition-ok_iff_example :
    (guard_transition lead_review rejected lead (some "below the limit") true ≡ ok tt)
    ↔ Any (Allows lead_review rejected lead (some "below the limit") true) case_transitions
guard_transition-ok_iff_example =
    guard_transition-ok_iff lead_review rejected lead (some "below the limit") true

abbrev move : WorkflowState → Bool → Move
move t evaluated = record { target = t; role = inspector; reason = none; re_evaluated = evaluated }

abbrev rejection : Move
rejection = record {
  target = rejected;
  role = lead;
  reason = some "below the limit";
  re_evaluated = true;
}

abbrev rejected_case : List Move
rejected_case =
    move document_pending false
    ∷ move match_review false
    ∷ move supplier_review false
    ∷ move ready_for_review true
    ∷ move lead_review true
    ∷ rejection
    ∷ []

rejected_case-follow : follow draft rejected_case ≡ some rejected
unfolding follow guard_transition find_case check_case lacks_reason is_blank
rejected_case-follow = refl

follow-decided_example :
    (before : List Move) × (m : Move) × (after : List Move) × (rejected_case ≡ before ++ m ∷ after)
    × (follow draft before ≡ some lead_review)
    × Decides m
follow-decided_example = follow-decided draft rejected_case rejected_case-follow refl refl

abbrev document_move : DocumentState → DocumentMove
document_move t = record { target = t; role = inspector; reason = none }

abbrev confirmed_document : List DocumentMove
confirmed_document =
    document_move parse_confirmed
    ∷ document_move match_pending
    ∷ document_move matched
    ∷ record { target = archived; role = lead; reason = none }
    ∷ []

confirmed_document-follow : DocumentHistory.follow parsed confirmed_document ≡ some archived
unfolding DocumentHistory.follow guard_document_transition find_document check_document
confirmed_document-follow = refl

follow-progress_example : progress parsed + length confirmed_document ≤ progress archived
follow-progress_example = follow-progress parsed confirmed_document confirmed_document-follow
