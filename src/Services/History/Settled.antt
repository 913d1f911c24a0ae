-- ===== src/Services/History/Settled.antt =====
-- About the cases that are settled, whatever requests of p3.py follow.
use hanyangchem_qc_v.Base.{
  ℕ, ◌≡◌, ◌≢◌, refl, sym, ap, ◌∙◌, inl, inr, true, false, some, some-injective, [], ◌∷◌, any,
  is_some, String, str_eq, ◌==◌, ==_iff, Result-cases, ok, err,
}
use hanyangchem_qc_v.Snapshots.{Text}
use hanyangchem_qc_v.Store.{InspectionCase, DecisionSnapshotRow, Store}
use hanyangchem_qc_v.Approval.{ApprovalError}
use hanyangchem_qc_v.Approval.Finalize.{Request, record_decision, finalize}
use hanyangchem_qc_v.Approval.Success.{finalize-Steps}
use hanyangchem_qc_v.Approval.Accepted.{
  reviewed_case-Reviewable, reviewed_case-allowed, find_case_row-id, live-some,
}
use hanyangchem_qc_v.Approval.Once.{row, settled_row}
use hanyangchem_qc_v.Services.Lifecycle.{case_row}
use hanyangchem_qc_v.Services.Lifecycle.Settled.{apart_from_review}
use hanyangchem_qc_v.Services.History.{
  Step, intake, review, creation, evaluating, results, submission, correction, decision, lineage,
  Reach, here, next, snapshots_of,
}
use hanyangchem_qc_v.Services.History.Frame.{
  create_intake-Adds, confirm_review-Adds, create_inspection-Adds, clone_lineage-Adds,
}
use hanyangchem_qc_v.Services.History.Kept.{filter-first, Keeps, Adds-Keeps}
use hanyangchem_qc_v.Services.History.Changes.{
  evaluation-Keeps, results-Keeps, submission-Keeps, correction-Keeps, decision-Keeps,
}

-- A settled case: it is decided and does not wait for a review.
pub record Settled (i : ℕ) (k : InspectionCase) (s : Store) : Type 0 where
  pub stands : case_row s i ≡ some k
  pub decided : is_some k.final_decision ≡ true
  pub apart : str_eq k.status "LEAD_REVIEW" ≡ false

module _ (sha256 : Text → Text) (nfkc : String → String) (i : ℕ) (k : InspectionCase) where
  pub Step-Keeps : {s t : Store} → Settled i k s → Step sha256 nfkc s t → Keeps i k s t
  Step-Keeps {s = s} x (intake rivals r principal key now ids h) =
      Adds-Keeps i k s x.stands (create_intake-Adds sha256 nfkc s rivals r principal key now ids h)
  Step-Keeps {s = s} x (review document j q version fresh h) =
      Adds-Keeps i k s x.stands (confirm_review-Adds s document j q version fresh h)
  Step-Keeps {s = s} x (creation rivals allocation run principal key now ids h) =
      Adds-Keeps i k s x.stands
        (create_inspection-Adds sha256 s rivals allocation run principal key now ids h)
  Step-Keeps {s = s} x (evaluating kase read h) =
      evaluation-Keeps i k s x.stands x.decided kase read h
  Step-Keeps {s = s} x (results kase fresh request version read h) =
      results-Keeps i k s x.stands x.decided kase fresh request version read h
  Step-Keeps {s = s} x (submission kase version principal read h) =
      submission-Keeps i k s x.stands x.decided kase version principal read h
  Step-Keeps {s = s} x (correction kase version principal reason target read h) =
      correction-Keeps i k s x.stands x.decided kase version principal reason target x.apart read h
  Step-Keeps {s = s} x (decision principal d h) =
      decision-Keeps i k s x.stands x.decided sha256 principal d x.apart h
  Step-Keeps {s = s} x (lineage ids predecessor principal reason retest h) =
      Adds-Keeps i k s x.stands (clone_lineage-Adds s ids predecessor principal reason retest h)

  Reach-Keeps : {s t : Store} → Settled i k s → Reach sha256 nfkc s t → Keeps i k s t
  Reach-Keeps x here = (x.stands, refl)
  Reach-Keeps x (next path step) =
      let (stands, same) = Reach-Keeps x path in
      let (stands', same') =
        Step-Keeps (record { stands = stands; decided = x.decided; apart = x.apart }) step in
      (stands', same' ∙ same)

-- A case is settled with one snapshot.
pub one_snapshot :
    (sha256 : Text → Text) (s : Store) (q : Request) {t : Store}
    → finalize sha256 s q ≡ ok t
    → (d : DecisionSnapshotRow) × (snapshots_of t q.case_id ≡ d ∷ [])
unfolding record_decision
one_snapshot sha256 s q h =
    let steps = finalize-Steps sha256 s q h in
    let r = reviewed_case-Reviewable s q steps.reviewed in
    let number = find_case_row-id s q.case_id r.stands in
    (
      _,
      ap (λ t. snapshots_of t q.case_id) steps.left
          ∙ filter-first q.case_id s.snapshots _ ((==_iff _ _).1 number) (
              ap (λ n. any (λ (x : DecisionSnapshotRow). x.inspection_case_id == n) s.snapshots)
                (sym number)
              ∙ steps.fresh),
    )

settled-refused :
    (sha256 : Text → Text) (i : ℕ) (k : InspectionCase) (s : Store) (again : Request)
    → case_row s i ≡ some k
    → is_some k.final_decision ≡ true
    → again.case_id ≡ i
    → (e : ApprovalError) × (finalize sha256 s again ≡ err e)
settled-refused sha256 i k s again stands decided other =
    elim (Result-cases (finalize sha256 s again)) [
      | inr refused ↦ refused
      | inl (t, success) ↦
          let steps = finalize-Steps sha256 s again success in
          let r = reviewed_case-Reviewable s again steps.reviewed in
          let found = live-some (λ (c : InspectionCase). c.deleted) _ r.stands in
          let same : steps.kase ≡ k =
            some-injective _ _ (sym found ∙ ap (case_row s) other ∙ stands) in
          let open_case : is_some k.final_decision ≡ false =
            ap (λ (c : InspectionCase). is_some c.final_decision) (sym same)
            ∙ ap is_some r.open_case in
          absurd (cc (decided, open_case))
    ]

-- The case as finalize leaves it: settled, submitted by somebody else than who decides.
pub record SettledBy (store : Store) (q : Request) : Type 0 where
  pub kase : InspectionCase
  pub settled : Settled q.case_id kase store
  pub decision_is : kase.final_decision ≡ some q.final_decision
  pub four_eyes : (s : ℕ) × (kase.submitted_by_id ≡ some s) × (s ≢ q.actor_id)

pub finalize-SettledBy :
    (sha256 : Text → Text) (store : Store) (q : Request) {after : Store}
    → finalize sha256 store q ≡ ok after
    → SettledBy after q
finalize-SettledBy sha256 store q {after = after} h =
    let (kase, stands, decided, status, four_eyes) = settled_row sha256 store q h in
    let steps = finalize-Steps sha256 store q h in
    record {
      kase = kase;
      settled = record {
        stands = live-some (λ (c : InspectionCase). c.deleted) (row q.case_id after.cases) stands;
        decided = ap is_some decided;
        apart =
            ap (λ s. str_eq s "LEAD_REVIEW") status
            ∙ apart_from_review q.final_decision (reviewed_case-allowed store q steps.reviewed);
      };
      decision_is = decided;
      four_eyes = four_eyes;
    }

-- What a decision settles stays as it is: in every store that requests lead to from the one that
-- finalize leaves, whatever services of p3.py they are of, whoever sends them and in whatever order,
-- the row of the case is the one that finalize left, with the final decision of the request, and the
-- one snapshot that the case has is the one it had. There the case is not settled again, by whatever
-- later request.
pub finalize-Reach :
    (sha256 : Text → Text) (nfkc : String → String) (store : Store) (q again : Request)
    {after later : Store}
    → finalize sha256 store q ≡ ok after
    → Reach sha256 nfkc after later
    → again.case_id ≡ q.case_id
    → (kase : InspectionCase) × (d : DecisionSnapshotRow) × (kase.final_decision
        ≡ some q.final_decision)
      × (case_row after q.case_id ≡ some kase)
      × (case_row later q.case_id ≡ some kase)
      × (snapshots_of after q.case_id ≡ d ∷ [])
      × (snapshots_of later q.case_id ≡ d ∷ [])
      × ((e : ApprovalError) × (finalize sha256 later again ≡ err e))
finalize-Reach sha256 nfkc store q again {later = later} h path other =
    let x = finalize-SettledBy sha256 store q h in
    let (d, one) = one_snapshot sha256 store q h in
    let (kept, same) = Reach-Keeps sha256 nfkc q.case_id x.kase x.settled path in
    (
      x.kase,
      d,
      x.decision_is,
      x.settled.stands,
      kept,
      one,
      same ∙ one,
      settled-refused sha256 q.case_id x.kase later again kept x.settled.decided other,
    )
