-- ===== src/Workflow/DocumentHistory.antt =====
-- About histories of a document: sequences of changes that the document guard of workflow.py lets
-- through.
use hanyangchem_qc_v.Base.{
  ℕ, ◌+◌, ◌≤◌, ◌<◌, ◌≡◌, refl, sym, ◌∙◌, ap, Bool, true, false, not, ◌&&◌, ◌||◌, Option, none, some,
  some-injective, List, [], ◌∷◌, String, str_eq, eq_iff, arith, ◌==◌, ltb, ltb→lt, ◌⊎◌,
  if◌then◌else◌, ok, err, Any-pick, all, all-All, find?, find?-true, find?-Any, length,
  Option-cases, Bool-cases, inl, inr, Any,
}
use hanyangchem_qc_v.Workflow.{
  DocumentState, received, stabilizing, hashed, duplicate, preprocessing, ocr_running, parsed,
  review_required, parse_confirmed, match_pending, matched, failed, archived, DocumentTransition,
  document_value, document_transitions, inspector, has_document_key, find_document, lacks_reason,
  check_document, guard_document_transition,
}
use hanyangchem_qc_v.Workflow.Guard.{document_value-injective}

pub record DocumentMove : Type 0 where
  pub target : DocumentState
  pub role : String
  pub reason : Option String

abbrev pub permitted : DocumentState → DocumentMove → Bool
permitted s m = elim (guard_document_transition s m.target m.role m.reason) [
  | ok u ↦ true
  | err e ↦ false
]

unfoldable pub follow : DocumentState → List DocumentMove → Option DocumentState
follow s [] = some s
follow s (m ∷ ms) = let rest = follow m.target ms in if permitted s m then rest else none

record Matches (s : DocumentState) (m : DocumentMove) (item : DocumentTransition) : Type 0 where
  from : item.current ≡ s
  to : item.target ≡ m.target
  by : item.role ≡ m.role
  reasoned : item.requires_reason ≡ true → lacks_reason m.reason ≡ false

has_document_key_sound :
    (c t : DocumentState) (r : String) (item : DocumentTransition)
    → has_document_key c t r item ≡ true
    → (item.current ≡ c) × (item.target ≡ t) × (item.role ≡ r)
has_document_key_sound c t r item h = ground (
  arith,
  document_value-injective item.current c,
  document_value-injective item.target t,
  eq_iff item.role r,
)

check_document-reasoned :
    (item : DocumentTransition) (reason : Option String)
    → check_document (some item) reason ≡ ok tt
    → item.requires_reason ≡ true
    → lacks_reason reason ≡ false
unfolding check_document
check_document-reasoned item reason c = ground arith

entry-Matches :
    (s : DocumentState) (m : DocumentMove) (item : DocumentTransition)
    → has_document_key s m.target m.role item ≡ true
    → check_document (some item) m.reason ≡ ok tt
    → Matches s m item
entry-Matches s m item h c =
    let (from, to, by) = has_document_key_sound s m.target m.role item h in
    record { from = from; to = to; by = by; reasoned = check_document-reasoned item m.reason c }

find-Matches :
    (s : DocumentState) (m : DocumentMove) (xs : List DocumentTransition)
    → check_document (find? (has_document_key s m.target m.role) xs) m.reason ≡ ok tt
    → Any (Matches s m) xs
unfolding check_document
find-Matches s m xs h = elim (Option-cases (find? (has_document_key s m.target m.role) xs)) [
  | inl missing ↦ absurd (cc (rw missing at h))
  | inr (item, found) ↦ find?-Any (has_document_key s m.target m.role) _ xs found (
      entry-Matches s m item (find?-true (has_document_key s m.target m.role) xs found)
        (rw found at h))
]

-- A test that every entry of the table passes holds of every change that is let through.
permitted-entry :
    (q : DocumentTransition → Bool) (s : DocumentState) (m : DocumentMove)
    → all q document_transitions ≡ true
    → permitted s m ≡ true
    → (item : DocumentTransition) × Matches s m item × (q item ≡ true)
unfolding guard_document_transition find_document
permitted-entry q s m table h =
    Any-pick _ _ document_transitions (find-Matches s m document_transitions (ground arith))
      (all-All q document_transitions table)

-- How far a document has come.
abbrev pub progress : DocumentState → ℕ
progress failed = 0
progress received = 1
progress stabilizing = 2
progress hashed = 3
progress duplicate = 4
progress preprocessing = 4
progress ocr_running = 5
progress parsed = 6
progress review_required = 7
progress parse_confirmed = 8
progress match_pending = 9
progress matched = 10
progress archived = 11

pub progress-step :
    (s : DocumentState) (m : DocumentMove) → permitted s m ≡ true → progress s < progress m.target
progress-step s m h =
    let (item, a, q) =
      permitted-entry (λ item. ltb (progress item.current) (progress item.target)) s m refl h in
    rw (← a.from, ← a.to) (ground arith)

abbrev confirming_entry : DocumentTransition → Bool
confirming_entry item =
    not (ltb (progress item.current) 8)
    || ltb (progress item.target) 8
    || (document_value item.target == 8 && str_eq item.role inspector)

confirming-step :
    (s : DocumentState) (m : DocumentMove)
    → permitted s m ≡ true
    → progress s < 8
    → ltb (progress m.target) 8 ≡ false
    → (m.target ≡ parse_confirmed) × (m.role ≡ inspector)
confirming-step s m h lo far =
    let (item, a, q) = permitted-entry confirming_entry s m refl h in
    let (t, r) = split item (rw (← a.from) at lo) (rw (← a.to) at far) q in
    (sym a.to ∙ t, sym a.by ∙ r)
  where
    split :
        (item : DocumentTransition)
        → progress item.current < 8
        → ltb (progress item.target) 8 ≡ false
        → confirming_entry item ≡ true
        → (item.target ≡ parse_confirmed) × (item.role ≡ inspector)
    split item lo far q =
        ground
          (arith, document_value-injective item.target parse_confirmed, eq_iff item.role inspector)

-- Every change that is let through brings a document forward, so that a history of permitted
-- changes never comes back to a state, and from a new document has ten changes at most.
pub follow-progress :
    (s : DocumentState) (ms : List DocumentMove) {t : DocumentState}
    → follow s ms ≡ some t
    → progress s + length ms ≤ progress t
unfolding follow
follow-progress s [] h = omega (arith, ap progress (some-injective _ _ h))
follow-progress s (m ∷ ms) h = elim (Bool-cases (permitted s m)) [
  | inr refused ↦ absurd (cc (rw refused at h))
  | inl through ↦
      omega (arith, progress-step s m through, follow-progress m.target ms (rw through at h))
]

-- No change that the guard lets through makes a document FAILED or leads out of DUPLICATE.
pub failed-refused :
    (s : DocumentState) (m : DocumentMove)
    → (m.target ≡ failed) ⊎ (s ≡ duplicate)
    → permitted s m ≡ false
failed-refused s m f = elim (Bool-cases (permitted s m)) [
  | inr refused ↦ refused
  | inl through ↦
      let (item, a, q) =
        permitted-entry
          (λ item. not (document_value item.target == 11) && not (document_value item.current == 3))
          s m refl through in
      absurd (refute item f a.from a.to q)
]
  where
    refute :
        (item : DocumentTransition)
        → (m.target ≡ failed) ⊎ (s ≡ duplicate)
        → item.current ≡ s
        → item.target ≡ m.target
        → (not (document_value item.target == 11) && not (document_value item.current == 3)) ≡ true
        → ⊥
    refute item (inl e) a b q = cc (rw (b ∙ e) at q)
    refute item (inr e) a b q = ground (arith, a ∙ e)

-- A new document that ends up archived was confirmed on the way: some change of its history makes
-- it PARSE_CONFIRMED, and an inspector made that change.
pub archived-confirmed :
    (s : DocumentState) (ms : List DocumentMove) {t : DocumentState}
    → follow s ms ≡ some t
    → progress s < 8
    → 8 ≤ progress t
    → Any (λ m. (m.target ≡ parse_confirmed) × (m.role ≡ inspector)) ms
unfolding follow
archived-confirmed s [] h lo hi = absurd (omega (arith, ap progress (some-injective _ _ h)))
archived-confirmed s (m ∷ ms) h lo hi = elim (Bool-cases (permitted s m)) [
  | inr refused ↦ absurd (cc (rw refused at h))
  | inl through ↦ elim (Bool-cases (ltb (progress m.target) 8)) [
    | inl short ↦ inr (archived-confirmed m.target ms (rw through at h) (ltb→lt _ _ short) hi)
    | inr far ↦ inl (confirming-step s m through lo far)
  ]
]
