-- ===== src/Services/History/Kept.antt =====
-- About the rows of a case and of the snapshots of its decision, under the writes of p3.py.
use hanyangchem_qc_v.Base.{
  ℕ, ◌≡◌, refl, sym, ap, ◌∙◌, ◌≢◌, inl, inr, Bool, true, false, some, some-injective, List, [], ◌∷◌,
  ◌++◌, filter, any, is_some, ◌==◌, Bool-cases, arith,
}
use hanyangchem_qc_v.Judgment.{EngineDecision}
use hanyangchem_qc_v.Judgment.Evaluate.{evaluate_case}
use hanyangchem_qc_v.Store.{InspectionCase, DecisionSnapshotRow, Store}
use hanyangchem_qc_v.Approval.Finalize.{put_case}
use hanyangchem_qc_v.Approval.Once.{row, put_case-other}
use hanyangchem_qc_v.Services.Judging.{Blocker}
use hanyangchem_qc_v.Services.Evaluation.{evaluated_case, Findings, with_judgments}
use hanyangchem_qc_v.Services.Lifecycle.{case_row}
use hanyangchem_qc_v.Services.Lifecycle.Submitted.{evaluated_case-id}
use hanyangchem_qc_v.Services.History.{snapshots_of}
use hanyangchem_qc_v.Services.History.Frame.{Adds}

row-append :
    (i : ℕ) (cs ds : List InspectionCase) {k : InspectionCase}
    → row i cs ≡ some k
    → row i (cs ++ ds) ≡ some k
row-append i [] ds h = cc
row-append i (c ∷ cs) ds h = elim (Bool-cases (c.id == i)) [
  | inl hit ↦ rw hit (rw hit at h)
  | inr miss ↦ rw miss (row-append i cs ds (rw miss at h))
]

pub filter-behind :
    (i : ℕ) (rs : List DecisionSnapshotRow) (new : DecisionSnapshotRow)
    → (new.inspection_case_id == i) ≡ false
    → filter (λ (r : DecisionSnapshotRow). r.inspection_case_id == i) (rs ++ new ∷ [])
      ≡ filter (λ (r : DecisionSnapshotRow). r.inspection_case_id == i) rs
filter-behind i [] new h = rw h refl
filter-behind i (r ∷ rs) new h = rw (filter-behind i rs new h) refl

pub filter-first :
    (i : ℕ) (rs : List DecisionSnapshotRow) (new : DecisionSnapshotRow)
    → (new.inspection_case_id == i) ≡ true
    → any (λ (r : DecisionSnapshotRow). r.inspection_case_id == i) rs ≡ false
    → filter (λ (r : DecisionSnapshotRow). r.inspection_case_id == i) (rs ++ new ∷ []) ≡ new ∷ []
filter-first i [] new h n = rw h refl
filter-first i (r ∷ rs) new h n = elim (Bool-cases (r.inspection_case_id == i)) [
  | inl hit ↦ absurd (cc (rw hit at n))
  | inr miss ↦ rw miss (filter-first i rs new h (rw miss at n))
]

pub evaluated_case-settled :
    (kase : InspectionCase) (candidate : EngineDecision) (bs : List Blocker)
    → is_some kase.final_decision ≡ true
    → evaluated_case kase candidate bs ≡ kase
unfolding evaluated_case
evaluated_case-settled kase candidate bs h = rw h refl

module _ (i : ℕ) (k : InspectionCase) (s : Store) where
  -- The row of the case and the snapshots of its decision.
  abbrev pub Keeps : Store → Type 0
  Keeps t = (case_row t i ≡ some k) × (snapshots_of t i ≡ snapshots_of s i)

  pub Adds-Keeps : {t : Store} → case_row s i ≡ some k → Adds s t → Keeps t
  Adds-Keeps stands a = (
    ap (row i) a.cases ∙ row-append i s.cases a.added stands,
    ap (λ rs. filter (λ (r : DecisionSnapshotRow). r.inspection_case_id == i) rs) a.snapshots,
  )

  module _ (stands : case_row s i ≡ some k) (kase : InspectionCase)
      (read : case_row s kase.id ≡ some kase) where
    pub same_case : kase.id ≡ i → kase ≡ k
    same_case e = some-injective _ _ (sym read ∙ ap (case_row s) e ∙ stands)

    pub another : (test : InspectionCase → Bool) → test k ≡ true → test kase ≡ false → kase.id ≢ i
    another test ours theirs e = ground (arith, ap test (same_case e))

  -- A case is written in the place of another one.
  pub put_another :
      (kase new : InspectionCase) (cs : List InspectionCase)
      → kase.id ≢ i
      → new.id ≡ kase.id
      → row i cs ≡ some k
      → row i (put_case new cs) ≡ some k
  put_another kase new cs n same h = put_case-other new cs i (λ e. n (sym same ∙ e)) ∙ h

  pub with_judgments-another :
      (s' : Store) (kase : InspectionCase) (f : Findings)
      → kase.id ≢ i
      → case_row s' i ≡ some k
      → case_row (with_judgments s' kase f) i ≡ some k
  unfolding with_judgments
  with_judgments-another s' kase f n h =
      put_another kase _ s'.cases n (evaluated_case-id kase (evaluate_case f.inputs) f.blockers) h
