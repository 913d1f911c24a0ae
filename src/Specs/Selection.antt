-- ===== src/Specs/Selection.antt =====
-- About `select_effective_spec` of specs.py, and the versions that apply.
use hanyangchem_qc_v.Base.{
  ℕ, ◌≤◌, ◌<◌, ◌≡◌, refl, ◌⊎◌, ◌↔◌, inl, inr, Bool, true, false, ◌&&◌, ◌||◌, Option, List, [], ◌∷◌,
  filter, All, Any, All-map, filter-All, All-filter, filter-none, All-self, Any-pick, subst, arith,
  Bool-cases, ok, err, ltb, ◌==◌,
}
use hanyangchem_qc_v.Specs.{
  SpecVersion, specificity, ranks_before, insert_ranked, sort_ranked, is_candidate, pick_first,
  select_effective_spec, none_effective,
}

-- The rank of `t` is not above that of `s`.
abbrev pub NotAbove : SpecVersion → SpecVersion → Type 0
NotAbove s t = ranks_before t s ≡ false

module _ (P : SpecVersion → Type 0) where
  insert-All :
      (s : SpecVersion) (ts : List SpecVersion) → P s → All P ts → All P (insert_ranked s ts)
  unfolding insert_ranked
  insert-All s [] p ps = (p, tt)
  insert-All s (t ∷ ts) p ps = elim (Bool-cases (ranks_before t s)) [
    | inl above ↦ rw above (ps.0, insert-All s ts p ps.1)
    | inr below ↦ rw below (p, ps)
  ]

  All-insert :
      (s : SpecVersion) (ts : List SpecVersion) → All P (insert_ranked s ts) → P s × All P ts
  unfolding insert_ranked
  All-insert s [] ps = (ps.0, tt)
  All-insert s (t ∷ ts) ps = elim (Bool-cases (ranks_before t s)) [
    | inl above ↦
        let qs = rw above at ps in let (p, rest) = All-insert s ts qs.1 in (p, (qs.0, rest))
    | inr below ↦ let qs = rw below at ps in (qs.0, qs.1)
  ]

  sort-All : (ss : List SpecVersion) → All P ss → All P (sort_ranked ss)
  unfolding sort_ranked
  sort-All [] ps = tt
  sort-All (s ∷ ss) ps = insert-All s (sort_ranked ss) ps.0 (sort-All ss ps.1)

  All-sort : (ss : List SpecVersion) → All P (sort_ranked ss) → All P ss
  unfolding sort_ranked
  All-sort [] ps = tt
  All-sort (s ∷ ss) ps = let (p, rest) = All-insert s (sort_ranked ss) ps in (p, All-sort ss rest)

abbrev pub Ranked : List SpecVersion → Type 0
Ranked [] = Unit
Ranked (s ∷ ss) = All (NotAbove s) ss × Ranked ss

rank_trans : (s t u : SpecVersion) → NotAbove s t → NotAbove t u → NotAbove s u
unfolding ranks_before
rank_trans s t u h k = ground arith

above-NotAbove : (s t : SpecVersion) → ranks_before t s ≡ true → NotAbove t s
unfolding ranks_before
above-NotAbove s t h = ground arith

insert-Ranked : (s : SpecVersion) (ts : List SpecVersion) → Ranked ts → Ranked (insert_ranked s ts)
unfolding insert_ranked
insert-Ranked s [] r = (tt, tt)
insert-Ranked s (t ∷ ts) r = elim (Bool-cases (ranks_before t s)) [
  | inl above ↦
      rw above (insert-All (NotAbove t) s ts (above-NotAbove s t above) r.0, insert-Ranked s ts r.1)
  | inr below ↦
      rw below
        ((below, All-map (NotAbove t) (NotAbove s) ts (λ u h. rank_trans s t u below h) r.0), r)
]

sort-Ranked : (ss : List SpecVersion) → Ranked (sort_ranked ss)
unfolding sort_ranked
sort-Ranked [] = tt
sort-Ranked (s ∷ ss) = insert-Ranked s (sort_ranked ss) (sort-Ranked ss)

-- Every version of the list is the chosen one or less specific than it.
abbrev pub Tops : SpecVersion → SpecVersion → Type 0
Tops s t = (t ≡ s) ⊎ (specificity t.scope < specificity s.scope)

NotAbove-specificity :
    (s t : SpecVersion) → NotAbove s t → specificity t.scope ≤ specificity s.scope
unfolding ranks_before
NotAbove-specificity s t h =
    below (specificity s.scope) (specificity t.scope) (t.version) s.version h
  where
    below : (a b v w : ℕ) → (ltb a b || b == a && ltb w v) ≡ false → b ≤ a
    below a b v w h = ground arith

pick_first-Tops :
    (ss : List SpecVersion) {s : SpecVersion}
    → Ranked ss
    → pick_first ss ≡ ok s
    → All (Tops s) ss × Any (λ t. t ≡ s) ss
unfolding pick_first
pick_first-Tops [] r h = cc
pick_first-Tops (t ∷ []) {s = s} r h = ((inl same, tt), inl same)
  where
    same : t ≡ s
    same = cc
pick_first-Tops (t ∷ u ∷ us) {s = s} r h =
    elim (Bool-cases (specificity t.scope == specificity u.scope)) [
      | inl tie ↦ absurd (cc (rw tie at h))
      | inr strict ↦
          let same : t ≡ s = cc (rw strict at h) in
          let second : specificity u.scope < specificity t.scope =
            ground (arith, NotAbove-specificity t u r.0.0) in
          (
            (
              inl same,
              (
                inr (rw (← same) second),
                All-map (NotAbove u) (Tops s) us (λ v n. inr (rw (← same) (later v n second)))
                    r.1.0,
              ),
            ),
            inl same,
          )
    ]
  where
    later :
        (v : SpecVersion)
        → NotAbove u v
        → specificity u.scope < specificity t.scope
        → specificity v.scope < specificity t.scope
    later v n second = omega (arith, NotAbove-specificity u v n)

refuted : (b : Bool) → (b ≡ true → ⊥) → b ≡ false
refuted true n = absurd (n refl)
refuted false n = refl

none_effective-empty :
    (ss : List SpecVersion) → pick_first ss ≡ err none_effective → All (λ _. ⊥) ss
unfolding pick_first
none_effective-empty [] h = tt
none_effective-empty (s ∷ []) h = cc
none_effective-empty (s ∷ t ∷ ss) h =
    elim (Bool-cases (specificity s.scope == specificity t.scope)) [
      | inl tie ↦ absurd (cc (rw tie at h))
      | inr strict ↦ absurd (cc (rw strict at h))
    ]

module _ (material : ℕ) (supplier model : Option ℕ) (when : ℕ) where
  abbrev applies : SpecVersion → Bool
  applies = is_candidate material supplier model when

  -- A version that is selected is one of the given, it is active, of a matching scope and
  -- effective on the day, and every other one that is so is less specific than it.
  pub select-ok :
      (specs : List SpecVersion) {s : SpecVersion}
      → select_effective_spec specs material supplier model when ≡ ok s
      → Any (λ t. t ≡ s) specs
        × (is_candidate material supplier model when s ≡ true)
        × All (λ t. is_candidate material supplier model when t ≡ true → Tops s t) specs
  unfolding select_effective_spec
  select-ok specs {s} h =
      let candidates = filter applies specs in
      let (tops, found) = pick_first-Tops (sort_ranked candidates) (sort-Ranked candidates) h in
      let known =
        sort-All (λ t. (applies t ≡ true) × Any (λ u. u ≡ t) specs) candidates
          (filter-All applies (λ t. Any (λ u. u ≡ t) specs) specs (All-self specs)) in
      let (t, same, (candidate, member)) =
        Any-pick (λ t. t ≡ s) _ (sort_ranked candidates) found known in
      (
        subst (λ u. Any (λ t. t ≡ u) specs) same member,
        subst (λ u. applies u ≡ true) same candidate,
        All-filter applies (Tops s) specs (All-sort (Tops s) candidates tops),
      )

  -- The search ends without a version exactly when none is active, of a matching scope and
  -- effective on the day.
  pub select-none_iff :
      (specs : List SpecVersion)
      → (select_effective_spec specs material supplier model when ≡ err none_effective)
        ↔ All (λ s. is_candidate material supplier model when s ≡ false) specs
  unfolding select_effective_spec
  select-none_iff specs = (none_left specs, λ h. rw (filter-none applies specs h))
    where
      none_left :
          (specs : List SpecVersion)
          → select_effective_spec specs material supplier model when ≡ err none_effective
          → All (λ s. is_candidate material supplier model when s ≡ false) specs
      none_left specs h =
          All-map (λ s. applies s ≡ true → ⊥) _ specs (λ s n. refuted (applies s) n)
            (All-filter applies (λ _. ⊥) specs
              (All-sort (λ _. ⊥) (filter applies specs)
                (none_effective-empty (sort_ranked (filter applies specs)) h)))
