-- ===== src/Services/Bodies/Values.antt =====
-- About the values in response bodies, written and read again (`json.dumps` and `json.loads` in
-- backend/src/hyc_api/services/p3.py).
use mathlib.Core.List.{append_assoc}
use hanyangchem_qc_v.Base.{
  ℕ, zero, suc, ◌+◌, ◌≤◌, ◌≡◌, refl, ap, inl, inr, Bool, true, false, not, none, List, [], ◌∷◌,
  ◌++◌, all, All, arith, ◌==◌, Bool-cases, ==_iff, &&-true, ok,
}
use hanyangchem_qc_v.Base.Int.{pos, negsuc, sub_ℕ}
use hanyangchem_qc_v.PyDecimal.Digits.{digits, is_digit, digits_value}
use hanyangchem_qc_v.PyDecimal.Digits.Value.{digits_value-digits, all-digits, leads-digits, leads}
use hanyangchem_qc_v.Decimals.{span_digits}
use hanyangchem_qc_v.Snapshots.{
  Text, Json, Jsons, Members, null, boolean, string, number, object, array, nil, cons, end, member,
}
use hanyangchem_qc_v.Snapshots.Dump.{comma_joined}
use hanyangchem_qc_v.Snapshots.Load.{
  load_digits, load_key, load_value, load_items, load_members, token, opens_with, a_number,
}
use hanyangchem_qc_v.Services.Bodies.{
  body_string, body_value, body_items, body_members, escape_body,
}
use hanyangchem_qc_v.Services.Bodies.RoundTrip.{IsPlain, load_string-body}

-- What follows a number must not be read as one of its digits.
abbrev pub ends : Text → Bool
ends [] = true
ends (c ∷ cs) = not (is_digit c)

span-ends :
    (xs rest : Text)
    → all is_digit xs ≡ true
    → ends rest ≡ true
    → span_digits (xs ++ rest) ≡ (xs, rest)
unfolding span_digits
span-ends [] [] h e = refl
span-ends [] (c ∷ cs) h e = ground arith
span-ends (x ∷ xs) rest h e =
    let (d, ds) = &&-true (is_digit x) (all is_digit xs) h in rw (d, span-ends xs rest ds e)

load_digits-parts :
    (xs rest : Text) (n : ℕ)
    → all is_digit xs ≡ true
    → leads xs ≡ true
    → digits_value xs ≡ n
    → ends rest ≡ true
    → load_digits (xs ++ rest) ≡ ok (n, rest)
unfolding load_digits digits_value
load_digits-parts [] rest n h l v e = cc
load_digits-parts (x ∷ []) rest n h l v e = elim (Bool-cases (x == b'0')) [
  | inl z ↦
      rw (span-ends (x ∷ []) rest h e, z)
        (ap (λ (k : ℕ). ok (k, rest)) (omega (arith, (==_iff x b'0').0 z)))
  | inr p ↦ rw (span-ends (x ∷ []) rest h e, p) (ap (λ (k : ℕ). ok (k, rest)) v)
]
load_digits-parts (x ∷ y ∷ ys) rest n h l v e = elim (Bool-cases (x == b'0')) [
  | inl z ↦ absurd (cc (rw z at l))
  | inr p ↦ rw (span-ends (x ∷ y ∷ ys) rest h e, p) (ap (λ (k : ℕ). ok (k, rest)) v)
]

load_digits-digits :
    (n : ℕ) (rest : Text) → ends rest ≡ true → load_digits (digits n ++ rest) ≡ ok (n, rest)
load_digits-digits n rest e =
    load_digits-parts (digits n) rest n (all-digits n) (leads-digits n) (digits_value-digits n) e

digit-differs : (x k : ℕ) → is_digit x ≡ true → is_digit k ≡ false → (x == k) ≡ false
digit-differs x k h n = elim (Bool-cases (x == k)) [
  | inr other ↦ other
  | inl same ↦ absurd (cc (ap is_digit ((==_iff x k).0 same), h, n))
]

number-token :
    (xs rest : Text)
    → all is_digit xs ≡ true
    → leads xs ≡ true
    → token (xs ++ rest) ≡ a_number (xs ++ rest)
unfolding token
number-token [] rest h l = cc
number-token (x ∷ xs) rest h l =
    let (d, _) = &&-true (is_digit x) (all is_digit xs) h in
    rw
      (
        digit-differs x b'n' d refl,
        digit-differs x b't' d refl,
        digit-differs x b'f' d refl,
        digit-differs x b'"' d refl,
        digit-differs x b'[' d refl,
        digit-differs x b'{' d refl,
        digit-differs x b'-' d refl,
        d,
      )
      refl

-- The text of a value begins with a character that closes no bracket.
begins : (j : Json) → (c : ℕ) × (t : Text) × (body_value j ≡ c ∷ t) × ((c == b']') ≡ false)
unfolding body_value body_string
begins null = (b'n', _, refl, refl)
begins (boolean true) = (b't', _, refl, refl)
begins (boolean false) = (b'f', _, refl, refl)
begins (string t) = (b'"', _, refl, refl)
begins (number (negsuc n)) = (b'-', _, refl, refl)
begins (number (pos n)) = first (digits n) (all-digits n) (leads-digits n)
  where
    first :
        (xs : Text)
        → all is_digit xs ≡ true
        → leads xs ≡ true
        → (c : ℕ) × (t : Text) × (xs ≡ c ∷ t) × ((c == b']') ≡ false)
    first [] h l = cc
    first (x ∷ xs) h l =
        (x, xs, refl, digit-differs x b']' (&&-true (is_digit x) (all is_digit xs) h).0 refl)
begins (object ms) = (b'{', _, refl, refl)
begins (array js) = (b'[', _, refl, refl)

-- The texts of the value are below the surrogates.
unfoldable mutual
  pub Plain : Json → Type 0
  Plain null = Unit
  Plain (boolean b) = Unit
  Plain (string t) = All IsPlain t
  Plain (number n) = Unit
  Plain (object ms) = PlainMembers ms
  Plain (array js) = PlainItems js

  pub PlainItems : Jsons → Type 0
  PlainItems nil = Unit
  PlainItems (cons j js) = Plain j × PlainItems js

  pub PlainMembers : Members → Type 0
  PlainMembers end = Unit
  PlainMembers (member k j ms) = All IsPlain k × Plain j × PlainMembers ms

-- The depth to which reading a value calls itself, at most.
unfoldable mutual
  pub need : Json → ℕ
  need null = 1
  need (boolean b) = 1
  need (string t) = 1
  need (number n) = 1
  need (object ms) = suc (need_members ms)
  need (array js) = suc (need_items js)

  pub need_items : Jsons → ℕ
  need_items nil = 0
  need_items (cons j js) = suc (need j + need_items js)

  pub need_members : Members → ℕ
  need_members end = 0
  need_members (member k j ms) = suc (need j + need_members ms)

load_key-body : (k t : Text) → All IsPlain k → load_key (body_string k ++ b':' ∷ t) ≡ ok (k, t)
unfolding load_key body_string
load_key-body k t h =
    rw
      (
        append_assoc (escape_body k) (b'"' ∷ []) (b':' ∷ t),
        load_string-body k (b':' ∷ t) h,
        load_key,
      )
      refl

read_string :
    (t rest : Text) (n : ℕ)
    → All IsPlain t
    → load_value (suc n) (body_string t ++ rest) ≡ ok (string t, rest)
unfolding load_value body_string token
read_string t rest n h =
    rw (append_assoc (escape_body t) (b'"' ∷ []) rest, load_string-body t rest h, load_value) refl

read_number :
    (m : ℕ) (rest : Text) (n : ℕ)
    → ends rest ≡ true
    → load_value (suc n) (digits m ++ rest) ≡ ok (number (pos m), rest)
unfolding load_value
read_number m rest n e =
    rw (number-token (digits m) rest (all-digits m) (leads-digits m), load_value)
      (rw (load_digits-digits m rest e, load_value) refl)

read_negative :
    (m : ℕ) (rest : Text) (n : ℕ)
    → ends rest ≡ true
    → load_value (suc n) (b'-' ∷ (digits (suc m) ++ rest)) ≡ ok (number (negsuc m), rest)
unfolding load_value token
read_negative m rest n e =
    rw (load_digits-digits (suc m) rest e, load_value) (ap (λ z. ok (number z, rest)) negative)
  where
    negative : sub_ℕ 0 (suc m) ≡ negsuc m
    negative = ground arith

abbrev after_first : List Text → Text → Text
after_first [] close = close
after_first (v ∷ vs) close = b',' ∷ (comma_joined (v ∷ vs) ++ close)

-- A value stands in front of a bracket or a comma, in a list of values.
behind_first :
    (v : Text) (vs : List Text) (close : Text)
    → comma_joined (v ∷ vs) ++ close ≡ v ++ after_first vs close
unfolding comma_joined
behind_first v [] close = refl
behind_first v (w ∷ ws) close = append_assoc v (b',' ∷ comma_joined (w ∷ ws)) close

empty_object :
    (n : ℕ) (rest : Text)
    → load_value (suc n) (body_value (object end) ++ rest) ≡ ok (object end, rest)
unfolding load_value body_value body_members comma_joined token
empty_object n rest = refl

empty_array :
    (n : ℕ) (rest : Text)
    → load_value (suc n) (body_value (array nil) ++ rest) ≡ ok (array nil, rest)
unfolding load_value body_value body_items comma_joined token
empty_array n rest = refl

opens_no_item :
    (j : Json) (js : Jsons) (close : Text)
    → opens_with b']' (comma_joined (body_items (cons j js)) ++ close) ≡ none
unfolding body_items
opens_no_item j js close =
    let (c, t, shape, other) = begins j in
    rw (behind_first (body_value j) (body_items js) close, shape, other) refl

abbrev member_text : Text → Json → Text
member_text k j = body_string k ++ b':' ∷ body_value j

opens_no_member :
    (k : Text) (j : Json) (ms : Members) (close : Text)
    → opens_with b'}' (comma_joined (body_members (member k j ms)) ++ close) ≡ none
unfolding body_members body_string
opens_no_member k j ms close = rw (behind_first (member_text k j) (body_members ms) close) refl

mutual
  unfolding load_value load_items load_members body_value body_items body_members Plain PlainItems
      PlainMembers need need_items need_members token

  pub read_value :
      (n : ℕ) (j : Json) (rest : Text)
      → Plain j
      → ends rest ≡ true
      → need j ≤ n
      → load_value n (body_value j ++ rest) ≡ ok (j, rest)
  read_value zero null rest p e h = absurd (omega arith)
  read_value zero (boolean b) rest p e h = absurd (omega arith)
  read_value zero (string t) rest p e h = absurd (omega arith)
  read_value zero (number m) rest p e h = absurd (omega arith)
  read_value zero (object ms) rest p e h = absurd (omega arith)
  read_value zero (array js) rest p e h = absurd (omega arith)
  read_value (suc n) null rest p e h = refl
  read_value (suc n) (boolean true) rest p e h = refl
  read_value (suc n) (boolean false) rest p e h = refl
  read_value (suc n) (string t) rest p e h = read_string t rest n p
  read_value (suc n) (number (pos m)) rest p e h = read_number m rest n e
  read_value (suc n) (number (negsuc m)) rest p e h = read_negative m rest n e
  read_value (suc n) (object end) rest p e h = empty_object n rest
  read_value (suc n) (object (member k j ms)) rest p e h =
      rw
        (
          append_assoc (comma_joined (body_members (member k j ms))) (b'}' ∷ []) rest,
          opens_no_member k j ms (b'}' ∷ rest),
          load_value,
        )
        (rw
          (
            append_assoc (comma_joined (body_members (member k j ms))) (b'}' ∷ []) rest,
            read_members n k j ms rest p.0 p.1 p.2 (omega arith),
          )
          refl)
  read_value (suc n) (array nil) rest p e h = empty_array n rest
  read_value (suc n) (array (cons j js)) rest p e h =
      rw
        (
          append_assoc (comma_joined (body_items (cons j js))) (b']' ∷ []) rest,
          opens_no_item j js (b']' ∷ rest),
          load_value,
        )
        (rw
          (
            append_assoc (comma_joined (body_items (cons j js))) (b']' ∷ []) rest,
            read_items n j js rest p.0 p.1 (omega arith),
          )
          refl)

  pub read_items :
      (n : ℕ) (j : Json) (js : Jsons) (rest : Text)
      → Plain j
      → PlainItems js
      → need_items (cons j js) ≤ n
      → load_items n (comma_joined (body_items (cons j js)) ++ b']' ∷ rest) ≡ ok (cons j js, rest)
  read_items zero j js rest p ps h = absurd (omega arith)
  read_items (suc n) j nil rest p ps h =
      rw
        (
          behind_first (body_value j) [] (b']' ∷ rest),
          read_value n j (b']' ∷ rest) p refl (omega arith),
          load_items,
        )
        refl
  read_items (suc n) j (cons i is) rest p ps h =
      rw
        (
          behind_first (body_value j) (body_items (cons i is)) (b']' ∷ rest),
          read_value n j (b',' ∷ (comma_joined (body_items (cons i is)) ++ b']' ∷ rest)) p refl
              (omega arith),
          load_items,
        )
        (rw (read_items n i is rest ps.0 ps.1 (omega arith)) refl)

  pub read_members :
      (n : ℕ) (k : Text) (j : Json) (ms : Members) (rest : Text)
      → All IsPlain k
      → Plain j
      → PlainMembers ms
      → need_members (member k j ms) ≤ n
      → load_members n (comma_joined (body_members (member k j ms)) ++ b'}' ∷ rest)
        ≡ ok (member k j ms, rest)
  read_members zero k j ms rest q p ps h = absurd (omega arith)
  read_members (suc n) k j end rest q p ps h =
      rw
        (
          behind_first (member_text k j) [] (b'}' ∷ rest),
          append_assoc (body_string k) (b':' ∷ body_value j) (b'}' ∷ rest),
          load_key-body k (body_value j ++ b'}' ∷ rest) q,
          load_members,
        )
        (rw (read_value n j (b'}' ∷ rest) p refl (omega arith)) refl)
  read_members (suc n) k j (member l i ms) rest q p ps h =
      let tail = comma_joined (body_members (member l i ms)) ++ b'}' ∷ rest in
      rw
        (
          behind_first (member_text k j) (body_members (member l i ms)) (b'}' ∷ rest),
          append_assoc (body_string k) (b':' ∷ body_value j) (b',' ∷ tail),
          load_key-body k (body_value j ++ b',' ∷ tail) q,
          load_members,
        )
        (rw (read_value n j (b',' ∷ tail) p refl (omega arith))
          (rw (read_members n l i ms rest ps.0 ps.1 ps.2 (omega arith)) refl))
