-- ===== src/Approval/Once.antt =====
-- About the store that `finalize` of ApprovalRepository leaves.
use hanyangchem_qc_v.Base.{
  ℕ, ◌≡◌, refl, sym, ◌∙◌, ap, ◌≢◌, inl, inr, true, false, Option, some, List, [], ◌∷◌, ◌==◌, ==_iff,
  Bool-cases, ok,
}
use hanyangchem_qc_v.Judgment.Evaluate.{evaluate_case}
use hanyangchem_qc_v.Snapshots.{Text}
use hanyangchem_qc_v.Store.{InspectionCase, Store, get_row}
use hanyangchem_qc_v.Approval.Finalize.{
  Request, find_case_row, finalized, put_case, record_decision, finalize,
}
use hanyangchem_qc_v.Approval.Success.{finalize-Steps}
use hanyangchem_qc_v.Approval.Accepted.{
  reviewed_case-Reviewable, find_case_row-id, live-some, live-deleted,
}

abbrev pub row : ℕ → List InspectionCase → Option InspectionCase
row i cs = get_row (λ (c : InspectionCase). c.id) i cs

same_number : (a b : ℕ) → a ≡ b → (a == b) ≡ true
same_number a b e = (==_iff a b).1 e

pub put_case-same :
    (i : ℕ) (k : InspectionCase) (cs : List InspectionCase) {old : InspectionCase}
    → k.id ≡ i
    → row i cs ≡ some old
    → row i (put_case k cs) ≡ some k
put_case-same i k [] e h = cc
put_case-same i k (c ∷ cs) e h = elim (Bool-cases (c.id == i)) [
  | inl hit ↦ rw (ap (λ n. c.id == n) e ∙ hit, same_number k.id i e)
  | inr miss ↦ rw (ap (λ n. c.id == n) e ∙ miss, miss) (put_case-same i k cs e (rw miss at h))
]

pub different : (a b : ℕ) → a ≢ b → (a == b) ≡ false
different a b n = elim (Bool-cases (a == b)) [
  | inl same ↦ absurd (n ((==_iff a b).0 same))
  | inr other ↦ other
]

pub put_case-other :
    (k : InspectionCase) (cs : List InspectionCase) (j : ℕ)
    → k.id ≢ j
    → row j (put_case k cs) ≡ row j cs
put_case-other k [] j n = refl
put_case-other k (c ∷ cs) j n = elim (Bool-cases (c.id == k.id)) [
  | inl hit ↦
      let c_other : (c.id == j) ≡ false =
        different c.id j (λ e. n (sym ((==_iff _ _).0 hit) ∙ e)) in
      rw (hit, different k.id j n, c_other, put_case-other k cs j n)
  | inr miss ↦ rw (miss, put_case-other k cs j n)
]

module _ (sha256 : Text → Text) (store : Store) (q : Request) {after : Store} where
  -- The case as `finalize` leaves it.
  pub settled_row :
      finalize sha256 store q ≡ ok after
      → (kase : InspectionCase) × (find_case_row after q.case_id ≡ some kase)
        × (kase.final_decision ≡ some q.final_decision)
        × (kase.status ≡ q.final_decision)
        × ((s : ℕ) × (kase.submitted_by_id ≡ some s) × (s ≢ q.actor_id))
  unfolding record_decision
  settled_row h =
      let steps = finalize-Steps sha256 store q h in
      let r = reviewed_case-Reviewable store q steps.reviewed in
      let stands = r.stands in
      let k = finalized q (evaluate_case steps.inputs) steps.kase in
      let number = find_case_row-id store q.case_id stands in
      let live_row =
        live-some (λ (c : InspectionCase). c.deleted) (row q.case_id store.cases) stands in
      let put = put_case-same q.case_id k store.cases number live_row in
      let alive =
        live-deleted (λ (c : InspectionCase). c.deleted) (row q.case_id store.cases) stands in
      (k, rw (steps.left, put, alive), refl, refl, r.four_eyes)

  -- When a case has been settled, every other case stands as it stood.
  pub finalize-others :
      finalize sha256 store q ≡ ok after
      → (other : ℕ) → other ≢ q.case_id
      → find_case_row after other ≡ find_case_row store other
  unfolding record_decision
  finalize-others h other n =
      let steps = finalize-Steps sha256 store q h in
      let stands = (reviewed_case-Reviewable store q steps.reviewed).stands in
      let number = find_case_row-id store q.case_id stands in
      rw (
        steps.left,
        put_case-other (finalized q (evaluate_case steps.inputs) steps.kase) store.cases other
            (λ e. n (sym e ∙ number)),
      )
