-- ===== src/Services/Results/Exact.antt =====
-- About the internal results that `put_internal_results` of p3.py stores.
use hanyangchem_qc_v.Base.{
  ℕ, ◌≡◌, refl, sym, ap, ◌∙◌, inl, inr, true, false, not, Option, none, some, List, [], ◌∷◌, ◌++◌,
  filter, find?, ◌==◌, ==_iff, arith, Bool-cases, Option-cases, if◌then◌else◌,
}
use hanyangchem_qc_v.PyDecimal.{Decimal}
use hanyangchem_qc_v.Store.Numeric.{numeric}
use hanyangchem_qc_v.Store.{InternalResult, InspectionCase, Store}
use hanyangchem_qc_v.Services.Results.Samples.{
  belongs_to, row_id, requested_samples, with_results-samples,
}
use hanyangchem_qc_v.Services.Results.{
  InternalResultItem, requests_item, of_case, is_retained, is_result_for, new_result, set_value,
  Tables, put_result, put_results, cleared, with_results,
}

-- The value that is stored for an item of the case, if a row is.
abbrev pub value_at : InspectionCase → ℕ → List InternalResult → Option (Option Decimal)
value_at kase i [] = none
value_at kase i (r ∷ rs) =
    if is_result_for kase i r then some r.evaluated_value else value_at kase i rs

-- The value that a request gives an item; its items differ, and the last would count.
abbrev pub requested_value :
    ℕ → List InternalResultItem → Option (Option Decimal) → Option (Option Decimal)
requested_value i [] before = before
requested_value i (x ∷ xs) before =
    requested_value i xs (if x.spec_item_id == i then some (some (numeric x.value)) else before)

-- The rows of other cases.
abbrev pub others : InspectionCase → List InternalResult → List InternalResult
others kase = filter (λ r. not (of_case kase r))

abbrev or_else : {A : Type 0} → Option A → Option A → Option A
or_else (some a) b = some a
or_else none b = b

different : (a b c : ℕ) → (a == b) ≡ true → (b == c) ≡ false → (a == c) ≡ false
different a b c h k = ground arith

module _ (kase : InspectionCase) where
  value_at-set_value_other :
      (x : InternalResultItem) (i : ℕ) (rows : List InternalResult)
      → (x.spec_item_id == i) ≡ false
      → value_at kase i (set_value kase x rows) ≡ value_at kase i rows
  value_at-set_value_other x i [] n = refl
  value_at-set_value_other x i (r ∷ rs) n = elim (Bool-cases (of_case kase r)) [
    | inr foreign ↦ rw (foreign, foreign) (value_at-set_value_other x i rs n)
    | inl mine ↦ elim (Bool-cases (r.spec_item_id == x.spec_item_id)) [
      | inl hit ↦
          rw (mine, hit, mine, different r.spec_item_id x.spec_item_id i hit n)
            (value_at-set_value_other x i rs n)
      | inr miss ↦ elim (Bool-cases (r.spec_item_id == i)) [
        | inl here ↦ rw (mine, miss, mine, here) refl
        | inr elsewhere ↦ rw (mine, miss, mine, elsewhere) (value_at-set_value_other x i rs n)
      ]
    ]
  ]

  value_at-set_value :
      (x : InternalResultItem) (rows : List InternalResult) {r : InternalResult}
      → find? (is_result_for kase x.spec_item_id) rows ≡ some r
      → value_at kase x.spec_item_id (set_value kase x rows) ≡ some (some (numeric x.value))
  value_at-set_value x [] h = cc
  value_at-set_value x (r ∷ rs) h = elim (Bool-cases (is_result_for kase x.spec_item_id r)) [
    | inl hit ↦ rw (hit, hit) refl
    | inr miss ↦ rw (miss, miss) (value_at-set_value x rs (rw miss at h))
  ]

  value_at-none :
      (i : ℕ) (rows : List InternalResult)
      → find? (is_result_for kase i) rows ≡ none
      → value_at kase i rows ≡ none
  value_at-none i [] h = refl
  value_at-none i (r ∷ rs) h = elim (Bool-cases (is_result_for kase i r)) [
    | inl hit ↦ absurd (cc (rw hit at h))
    | inr miss ↦ rw miss (value_at-none i rs (rw miss at h))
  ]

  value_at-append :
      (i : ℕ) (rows : List InternalResult) (new : InternalResult)
      → value_at kase i (rows ++ new ∷ [])
        ≡ or_else (value_at kase i rows) (value_at kase i (new ∷ []))
  value_at-append i [] new = refl
  value_at-append i (r ∷ rs) new = elim (Bool-cases (is_result_for kase i r)) [
    | inl hit ↦ rw hit refl
    | inr miss ↦ rw miss (value_at-append i rs new)
  ]

  mine : (kase.id == kase.id) ≡ true
  mine = (==_iff kase.id kase.id).1 refl

  itself : (i : ℕ) → (i == i) ≡ true
  itself i = (==_iff i i).1 refl

  -- One submitted item sets its value, and no other.
  value_at-put_result :
      (fresh : ℕ → ℕ) (x : InternalResultItem) (t : Tables) (i : ℕ)
      → value_at kase i (put_result kase fresh x t).results
        ≡ (if x.spec_item_id == i then some (some (numeric x.value)) else value_at kase i t.results)
  unfolding put_result
  value_at-put_result fresh x t i =
      elim (Option-cases (find? (is_result_for kase x.spec_item_id) t.results)) [
        | inr (r, found) ↦ elim (Bool-cases (x.spec_item_id == i)) [
          | inl same ↦
              let e = (==_iff x.spec_item_id i).0 same in
              rw (found, same, put_result)
                (ap (λ j. value_at kase j (set_value kase x t.results)) (sym e)
                  ∙ value_at-set_value x t.results found)
          | inr other ↦ rw (found, other, put_result) (value_at-set_value_other x i t.results other)
        ]
        | inl fresh_row ↦
            let new = new_result kase (fresh x.spec_item_id) x in
            elim (Bool-cases (x.spec_item_id == i)) [
              | inl same ↦
                  let e = (==_iff x.spec_item_id i).0 same in
                  rw (fresh_row, same, put_result)
                    (value_at-append i t.results new
                      ∙ rw
                          (
                            ap (λ j. value_at kase j t.results) (sym e)
                                ∙ value_at-none x.spec_item_id t.results fresh_row,
                            mine,
                            same,
                          )
                          refl)
              | inr other ↦
                  rw (fresh_row, other, put_result)
                    (value_at-append i t.results new
                      ∙ rw (mine, other) (or_else_none (value_at kase i t.results)))
            ]
      ]
    where
      or_else_none : (o : Option (Option Decimal)) → or_else o none ≡ o
      or_else_none none = refl
      or_else_none (some a) = refl

  value_at-put_results :
      (fresh : ℕ → ℕ) (request : List InternalResultItem) (t : Tables) (i : ℕ)
      → value_at kase i (put_results kase fresh request t).results
        ≡ requested_value i request (value_at kase i t.results)
  unfolding put_results
  value_at-put_results fresh [] t i = refl
  value_at-put_results fresh (x ∷ xs) t i =
      value_at-put_results fresh xs (put_result kase fresh x t) i
      ∙ ap (requested_value i xs) (value_at-put_result fresh x t i)

  value_at-retained :
      (request : List InternalResultItem) (i : ℕ) (rows : List InternalResult)
      → requests_item i request ≡ false
      → value_at kase i (filter (is_retained kase request) rows) ≡ none
  value_at-retained request i [] h = refl
  value_at-retained request i (r ∷ rs) h = elim (Bool-cases (of_case kase r)) [
    | inr foreign ↦ rw (foreign, foreign) (value_at-retained request i rs h)
    | inl own ↦ elim (Bool-cases (requests_item r.spec_item_id request)) [
      | inr dropped ↦ rw (own, dropped) (value_at-retained request i rs h)
      | inl kept ↦ elim (Bool-cases (r.spec_item_id == i)) [
        | inl here ↦
            absurd
              (cc (ap (λ j. requests_item j request) ((==_iff r.spec_item_id i).0 here), kept, h))
        | inr elsewhere ↦ rw (own, kept, own, elsewhere) (value_at-retained request i rs h)
      ]
    ]
  ]

  -- What was stored before a requested item does not count.
  requested_value-requested :
      (i : ℕ) (request : List InternalResultItem) (a b : Option (Option Decimal))
      → requests_item i request ≡ true
      → requested_value i request a ≡ requested_value i request b
  requested_value-requested i [] a b h = cc
  requested_value-requested i (x ∷ xs) a b h = elim (Bool-cases (x.spec_item_id == i)) [
    | inl here ↦ rw here refl
    | inr elsewhere ↦ rw elsewhere (requested_value-requested i xs a b (rw elsewhere at h))
  ]

  others-set_value :
      (x : InternalResultItem) (rows : List InternalResult)
      → others kase (set_value kase x rows) ≡ others kase rows
  others-set_value x [] = refl
  others-set_value x (r ∷ rs) = elim (Bool-cases (of_case kase r)) [
    | inr foreign ↦ rw (foreign, foreign) (ap (λ ys. r ∷ ys) (others-set_value x rs))
    | inl own ↦ elim (Bool-cases (r.spec_item_id == x.spec_item_id)) [
      | inl hit ↦ rw (own, hit, own) (others-set_value x rs)
      | inr miss ↦ rw (own, miss, own) (others-set_value x rs)
    ]
  ]

  others-append :
      (rows : List InternalResult) (new : InternalResult)
      → of_case kase new ≡ true
      → others kase (rows ++ new ∷ []) ≡ others kase rows
  others-append [] new h = rw h refl
  others-append (r ∷ rs) new h = elim (Bool-cases (of_case kase r)) [
    | inl own ↦ rw own (others-append rs new h)
    | inr foreign ↦ rw foreign (ap (λ ys. r ∷ ys) (others-append rs new h))
  ]

  others-put_results :
      (fresh : ℕ → ℕ) (request : List InternalResultItem) (t : Tables)
      → others kase (put_results kase fresh request t).results ≡ others kase t.results
  unfolding put_results
  others-put_results fresh [] t = refl
  others-put_results fresh (x ∷ xs) t =
      others-put_results fresh xs (put_result kase fresh x t)
      ∙ elim (Option-cases (find? (is_result_for kase x.spec_item_id) t.results)) [
        | inr (r, found) ↦ rw (found, put_result) (others-set_value x t.results)
        | inl unused ↦
            rw (unused, put_result)
              (others-append t.results (new_result kase (fresh x.spec_item_id) x) mine)
      ]

  others-retained :
      (request : List InternalResultItem) (rows : List InternalResult)
      → others kase (filter (is_retained kase request) rows) ≡ others kase rows
  others-retained request [] = refl
  others-retained request (r ∷ rs) = elim (Bool-cases (of_case kase r)) [
    | inr foreign ↦ rw (foreign, foreign) (ap (λ ys. r ∷ ys) (others-retained request rs))
    | inl own ↦ elim (Bool-cases (requests_item r.spec_item_id request)) [
      | inl kept ↦ rw (own, kept, own) (others-retained request rs)
      | inr dropped ↦ rw (own, dropped) (others-retained request rs)
    ]
  ]

  -- The tables that put_internal_results evaluates hold for every item of the case the first value
  -- that was requested, as its column holds it, and no row for an item that was not requested,
  -- whatever rows were there before. The samples are those that belong to no row that the case had,
  -- and behind them, in the order of the request, every value that was requested, as its column
  -- holds it, numbered from one, under the row of its item: the row that the case had, or a new one.
  -- The rows of other cases are left as they were and in their order.
  pub with_results-exact :
      (store : Store) (fresh : ℕ → ℕ) (request : List InternalResultItem) (i : ℕ)
      → (value_at kase i (with_results store kase fresh request).internal_results
          ≡ requested_value i request none)
        × ((with_results store kase fresh request).samples
            ≡ filter (λ s. not (belongs_to kase store.internal_results s)) store.samples
              ++ requested_samples (row_id kase fresh store.internal_results) request)
        × (others kase (with_results store kase fresh request).internal_results
            ≡ others kase store.internal_results)
  unfolding with_results cleared
  with_results-exact store fresh request i =
      let kept = filter (is_retained kase request) store.internal_results in
      (
        value_at-put_results fresh request (cleared store kase request) i
            ∙ elim (Bool-cases (requests_item i request)) [
              | inl asked ↦ requested_value-requested i request (value_at kase i kept) none asked
              | inr unasked ↦
                  ap (requested_value i request)
                    (value_at-retained request i store.internal_results unasked)
            ],
        with_results-samples kase fresh store request,
        others-put_results fresh request (cleared store kase request)
            ∙ others-retained request store.internal_results,
      )
