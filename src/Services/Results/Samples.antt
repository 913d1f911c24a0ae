-- ===== src/Services/Results/Samples.antt =====
-- About the samples that `put_internal_results` of p3.py stores.
use mathlib.Core.Option.{some-injective}
use hanyangchem_qc_v.Base.{
  ℕ, suc, ◌≡◌, refl, sym, ap, ◌∙◌, inl, inr, Bool, true, false, not, ◌&&◌, ◌||◌, none, some, List,
  [], ◌∷◌, ◌++◌, filter, find?, All, Any, All-map, All-self, &&-true, opt_eq, ◌==◌, ==_iff, arith,
  Bool-cases, Option-cases, if◌then◌else◌,
}
use hanyangchem_qc_v.PyDecimal.{Decimal}
use hanyangchem_qc_v.Store.Numeric.{numeric}
use hanyangchem_qc_v.Store.{InternalResult, SampleMeasurement, InspectionCase, Store}
use hanyangchem_qc_v.Services.Results.{
  InternalResultItem, requests_item, of_case, is_retained, is_result_for, new_result, set_value,
  existing_results, is_sample_of, numbered, Tables, put_result, put_results, cleared, with_results,
}

-- A sample of one of the rows of the case.
abbrev pub belongs_to : InspectionCase → List InternalResult → SampleMeasurement → Bool
belongs_to kase [] s = false
belongs_to kase (r ∷ rs) s =
    r.inspection_case_id == kase.id && opt_eq s.internal_result_id (some r.id)
    || belongs_to kase rs s

-- The id of the row of an item: that of the row that the case has, or a new one.
abbrev pub row_id : InspectionCase → (ℕ → ℕ) → List InternalResult → ℕ → ℕ
row_id kase fresh [] i = fresh i
row_id kase fresh (r ∷ rs) i = if is_result_for kase i r then r.id else row_id kase fresh rs i

-- The samples of a row, from a number on.
abbrev pub measured : ℕ → ℕ → List Decimal → List SampleMeasurement
measured row i [] = []
measured row i (v ∷ vs) =
    record {
      supplier_result_id = none;
      internal_result_id = some row;
      sample_index = i;
      numeric_value = some (numeric v);
      text_value = none;
    }
    ∷ measured row (suc i) vs

abbrev pub requested_samples : (ℕ → ℕ) → List InternalResultItem → List SampleMeasurement
requested_samples row [] = []
requested_samples row (x ∷ xs) =
    measured (row x.spec_item_id) 1 (x.value ∷ x.more) ++ requested_samples row xs

numbered-measured : (r i : ℕ) (vs : List Decimal) → numbered r i vs ≡ measured r i vs
numbered-measured r i [] = refl
numbered-measured r i (v ∷ vs) =
    ap
      (λ ys.
        record {
          supplier_result_id = none;
          internal_result_id = some r;
          sample_index = i;
          numeric_value = some (numeric v);
          text_value = none;
        }
        ∷ ys)
      (numbered-measured r (suc i) vs)

append_assoc : (xs ys zs : List SampleMeasurement) → (xs ++ ys) ++ zs ≡ xs ++ (ys ++ zs)
append_assoc [] ys zs = refl
append_assoc (x ∷ xs) ys zs = ap (λ us. x ∷ us) (append_assoc xs ys zs)

append-nothing : (xs : List SampleMeasurement) → xs ≡ xs ++ []
append-nothing [] = refl
append-nothing (x ∷ xs) = ap (λ us. x ∷ us) (append-nothing xs)

-- Every item of a request is requested by it.
requests_item-member :
    (x : InternalResultItem) (request : List InternalResultItem)
    → Any (λ y. y ≡ x) request
    → requests_item x.spec_item_id request ≡ true
requests_item-member x [] h = absurd h
requests_item-member x (y ∷ ys) (inl e) = rw (e, (==_iff x.spec_item_id x.spec_item_id).1 refl) refl
requests_item-member x (y ∷ ys) (inr h) = ground (arith, requests_item-member x ys h)

module _ (kase : InspectionCase) where
  is_sample_of-belongs_to :
      (rows : List InternalResult) (s : SampleMeasurement)
      → is_sample_of (filter (of_case kase) rows) s ≡ belongs_to kase rows s
  is_sample_of-belongs_to [] s = refl
  is_sample_of-belongs_to (r ∷ rs) s = elim (Bool-cases (of_case kase r)) [
    | inl own ↦ rw (own, is_sample_of-belongs_to rs s) refl
    | inr foreign ↦ rw (foreign, is_sample_of-belongs_to rs s) refl
  ]

  kept_samples :
      (rows : List InternalResult) (samples : List SampleMeasurement)
      → filter (λ s. not (is_sample_of (filter (of_case kase) rows) s)) samples
        ≡ filter (λ s. not (belongs_to kase rows s)) samples
  kept_samples rows [] = refl
  kept_samples rows (s ∷ ss) = rw (is_sample_of-belongs_to rows s, kept_samples rows ss) refl

  module _ (fresh : ℕ → ℕ) where
    row_id-found :
        (i : ℕ) (rows : List InternalResult) {r : InternalResult}
        → find? (is_result_for kase i) rows ≡ some r
        → row_id kase fresh rows i ≡ r.id
    row_id-found i [] h = absurd (cc h)
    row_id-found i (q ∷ qs) {r} h = elim (Bool-cases (is_result_for kase i q)) [
      | inl hit ↦ rw hit (ap (λ (x : InternalResult). x.id) (some-injective _ _ (rw hit at h)))
      | inr miss ↦ rw miss (row_id-found i qs (rw miss at h))
    ]

    row_id-none :
        (i : ℕ) (rows : List InternalResult)
        → find? (is_result_for kase i) rows ≡ none
        → row_id kase fresh rows i ≡ fresh i
    row_id-none i [] h = refl
    row_id-none i (q ∷ qs) h = elim (Bool-cases (is_result_for kase i q)) [
      | inl hit ↦ absurd (cc (rw hit at h))
      | inr miss ↦ rw miss (row_id-none i qs (rw miss at h))
    ]

    row_id-set_value :
        (x : InternalResultItem) (i : ℕ) (rows : List InternalResult)
        → row_id kase fresh (set_value kase x rows) i ≡ row_id kase fresh rows i
    row_id-set_value x i [] = refl
    row_id-set_value x i (r ∷ rs) = elim (Bool-cases (of_case kase r)) [
      | inr foreign ↦ rw (foreign, foreign) (row_id-set_value x i rs)
      | inl own ↦ elim (Bool-cases (r.spec_item_id == x.spec_item_id)) [
        | inl hit ↦ elim (Bool-cases (r.spec_item_id == i)) [
          | inl here ↦ rw (own, hit, own, here) refl
          | inr elsewhere ↦ rw (own, hit, own, elsewhere) (row_id-set_value x i rs)
        ]
        | inr miss ↦ elim (Bool-cases (r.spec_item_id == i)) [
          | inl here ↦ rw (own, miss, own, here) refl
          | inr elsewhere ↦ rw (own, miss, own, elsewhere) (row_id-set_value x i rs)
        ]
      ]
    ]

    row_id-append :
        (x : InternalResultItem) (i : ℕ) (rows : List InternalResult)
        → row_id kase fresh (rows ++ new_result kase (fresh x.spec_item_id) x ∷ []) i
          ≡ row_id kase fresh rows i
    row_id-append x i [] =
        let mine : (kase.id == kase.id) ≡ true = (==_iff kase.id kase.id).1 refl in
        elim (Bool-cases (x.spec_item_id == i)) [
          | inl same ↦ rw (mine, same) (ap fresh ((==_iff x.spec_item_id i).0 same))
          | inr other ↦ rw (mine, other) refl
        ]
    row_id-append x i (r ∷ rs) = elim (Bool-cases (is_result_for kase i r)) [
      | inl here ↦ rw here refl
      | inr elsewhere ↦ rw elsewhere (row_id-append x i rs)
    ]

    -- One submitted item leaves every item its row, and adds its samples under it.
    row_id-put_result :
        (x : InternalResultItem) (t : Tables) (i : ℕ)
        → row_id kase fresh (put_result kase fresh x t).results i ≡ row_id kase fresh t.results i
    unfolding put_result
    row_id-put_result x t i =
        elim (Option-cases (find? (is_result_for kase x.spec_item_id) t.results)) [
          | inr (r, found) ↦ rw (found, put_result) (row_id-set_value x i t.results)
          | inl unused ↦ rw (unused, put_result) (row_id-append x i t.results)
        ]

    put_result-samples :
        (x : InternalResultItem) (t : Tables)
        → (put_result kase fresh x t).samples
          ≡ t.samples ++ measured (row_id kase fresh t.results x.spec_item_id) 1 (x.value ∷ x.more)
    unfolding put_result
    put_result-samples x t =
        elim (Option-cases (find? (is_result_for kase x.spec_item_id) t.results)) [
          | inr (r, found) ↦
              rw (found, put_result)
                (under (numbered-measured r.id 1 (x.value ∷ x.more))
                  ∙ renamed (sym (row_id-found x.spec_item_id t.results found)))
          | inl unused ↦
              rw (unused, put_result)
                (under (numbered-measured (fresh x.spec_item_id) 1 (x.value ∷ x.more))
                  ∙ renamed (sym (row_id-none x.spec_item_id t.results unused)))
        ]
      where
        under : {xs ys : List SampleMeasurement} → xs ≡ ys → t.samples ++ xs ≡ t.samples ++ ys
        under = ap (λ us. t.samples ++ us)

        renamed :
            {a b : ℕ}
            → a ≡ b
            → t.samples ++ measured a 1 (x.value ∷ x.more)
              ≡ t.samples ++ measured b 1 (x.value ∷ x.more)
        renamed = ap (λ r. t.samples ++ measured r 1 (x.value ∷ x.more))

    -- The samples depend on the rows of the requested items alone.
    requested_samples-same :
        (row other : ℕ → ℕ) (request : List InternalResultItem)
        → All (λ (x : InternalResultItem). row x.spec_item_id ≡ other x.spec_item_id) request
        → requested_samples row request ≡ requested_samples other request
    requested_samples-same row other [] h = refl
    requested_samples-same row other (x ∷ xs) h =
        ap (λ r. measured r 1 (x.value ∷ x.more) ++ requested_samples row xs) h.0
        ∙ ap (λ ys. measured (other x.spec_item_id) 1 (x.value ∷ x.more) ++ ys)
            (requested_samples-same row other xs h.1)

    every :
        (row other : ℕ → ℕ) (request : List InternalResultItem)
        → ((i : ℕ) → row i ≡ other i)
        → All (λ (x : InternalResultItem). row x.spec_item_id ≡ other x.spec_item_id) request
    every row other [] h = tt
    every row other (x ∷ xs) h = (h x.spec_item_id, every row other xs h)

    put_results-samples :
        (request : List InternalResultItem) (t : Tables)
        → (put_results kase fresh request t).samples
          ≡ t.samples ++ requested_samples (row_id kase fresh t.results) request
    unfolding put_results
    put_results-samples [] t = append-nothing t.samples
    put_results-samples (x ∷ xs) t =
        put_results-samples xs (put_result kase fresh x t)
        ∙ ap (λ ys. (put_result kase fresh x t).samples ++ ys)
            (requested_samples-same _ _ xs (every _ _ xs (row_id-put_result x t)))
        ∙ ap (λ ys. ys ++ requested_samples (row_id kase fresh t.results) xs)
            (put_result-samples x t)
        ∙ append_assoc t.samples _ _

    row_id-retained :
        (request : List InternalResultItem) (i : ℕ) (rows : List InternalResult)
        → requests_item i request ≡ true
        → row_id kase fresh (filter (is_retained kase request) rows) i ≡ row_id kase fresh rows i
    row_id-retained request i [] h = refl
    row_id-retained request i (r ∷ rs) h = elim (Bool-cases (is_result_for kase i r)) [
      | inl here ↦ rw (retained r here, here) refl
      | inr elsewhere ↦ elim (Bool-cases (is_retained kase request r)) [
        | inl kept ↦ rw (kept, elsewhere) (row_id-retained request i rs h)
        | inr dropped ↦ rw (dropped, elsewhere) (row_id-retained request i rs h)
      ]
    ]
      where
        retained :
            (r : InternalResult) → is_result_for kase i r ≡ true → is_retained kase request r ≡ true
        retained r here =
            let asked : requests_item r.spec_item_id request ≡ true =
              ap (λ j. requests_item j request)
                ((==_iff r.spec_item_id i).0
                  (&&-true (of_case kase r) (r.spec_item_id == i) here).1)
              ∙ h in
            ground (arith, asked)

    requested_rows :
        (request asked : List InternalResultItem) (rows : List InternalResult)
        → All (λ (x : InternalResultItem). requests_item x.spec_item_id request ≡ true) asked
        → All
            (λ (x : InternalResultItem).
              row_id kase fresh (filter (is_retained kase request) rows) x.spec_item_id
              ≡ row_id kase fresh rows x.spec_item_id)
            asked
    requested_rows request [] rows h = tt
    requested_rows request (x ∷ xs) rows h =
        (row_id-retained request x.spec_item_id rows h.0, requested_rows request xs rows h.1)

    pub with_results-samples :
        (store : Store) (request : List InternalResultItem)
        → (with_results store kase fresh request).samples
          ≡ filter (λ s. not (belongs_to kase store.internal_results s)) store.samples
            ++ requested_samples (row_id kase fresh store.internal_results) request
    unfolding with_results cleared
    with_results-samples store request =
        put_results-samples request (cleared store kase request)
        ∙ ap
            (λ ys.
              filter (λ s. not (is_sample_of (existing_results store kase) s)) store.samples ++ ys)
            (requested_samples-same _ _ request (
              requested_rows request request store.internal_results (
                All-map _ _ request (λ x at. requests_item-member x request at)
                  (All-self request))))
        ∙ ap (λ ys. ys ++ requested_samples (row_id kase fresh store.internal_results) request)
            (kept_samples store.internal_results store.samples)
