-- ===== src/Snapshots/Load.antt =====
-- `json.loads` of the texts that `canonical_json` writes: no white space and no fractions. A key
-- that stands twice, and escapes of surrogates, are not among them.
use hanyangchem_qc_v.Base.{
  ℕ, zero, suc, ◌+◌, ◌-◌, ◌*◌, true, false, ◌&&◌, ◌||◌, Option, none, some, [], ◌∷◌, length, ltb,
  leb, ◌==◌, if◌then◌else◌, ok, err, ◌>>=◌,
}
use hanyangchem_qc_v.Base.Int.{ℤ, pos, sub_ℕ}
use hanyangchem_qc_v.PyDecimal.Digits.{is_digit, digits_value}
use hanyangchem_qc_v.Base.Text.{codes}
use hanyangchem_qc_v.Decimals.{span_digits}
use hanyangchem_qc_v.Snapshots.{
  Text, Canonical, not_json, Json, Jsons, Members, null, boolean, string, number, object, array,
  nil, cons, end, member,
}

-- Inside a string: plain, behind a backslash, or with hexadecimal digits still to come.
pub data Mode : Type 0 where
  plain behind_backslash : Mode
  hex_digits : ℕ → ℕ → Mode

-- One character of a string ends it, brings a character or none, or is refused.
pub data Turn : Type 0 where
  finish refuse : Turn
  take : ℕ → Turn
  skip : Mode → Turn

abbrev pub hex_value : ℕ → Option ℕ
hex_value c =
    if is_digit c
    then some (c - b'0')
    else if leb b'a' c && leb c b'f'
    then some (10 + (c - b'a'))
    else if leb b'A' c && leb c b'F'
    then some (10 + (c - b'A'))
    else none

abbrev pub unescape : ℕ → Turn
unescape c =
    if c == b'"' || c == b'\\' || c == b'/'
    then take c
    else if c == b'n'
    then take 10
    else if c == b'r'
    then take 13
    else if c == b't'
    then take 9
    else if c == b'f'
    then take 12
    else if c == b'b'
    then take 8
    else if c == b'u'
    then skip (hex_digits 3 0)
    else refuse

abbrev pub next_hex : ℕ → ℕ → Option ℕ → Turn
next_hex left acc none = refuse
next_hex zero acc (some v) = take (acc * 16 + v)
next_hex (suc left) acc (some v) = skip (hex_digits left (acc * 16 + v))

abbrev pub turn : Mode → ℕ → Turn
turn plain c =
    if c == b'"'
    then finish
    else if c == b'\\'
    then skip behind_backslash
    else if ltb c 32
    then refuse
    else take c
turn behind_backslash c = unescape c
turn (hex_digits left acc) c = next_hex left acc (hex_value c)

abbrev push : ℕ → Canonical (Text × Text) → Canonical (Text × Text)
push c (ok (t, rest)) = ok (c ∷ t, rest)
push c (err e) = err e

-- The string behind its opening quote, and what follows its closing one.
unfoldable pub load_string : Mode → Text → Canonical (Text × Text)
load_string mode [] = err not_json
load_string mode (c ∷ cs) = elim (turn mode c) [
  | finish ↦ ok ([], cs)
  | refuse ↦ err not_json
  | take d ↦ push d (load_string plain cs)
  | skip m ↦ load_string m cs
]

abbrev without_head : Text → Text
without_head [] = []
without_head (c ∷ cs) = cs

-- A number whose first digit is zero ends behind it.
abbrev number_of : Text → Text × Text → Canonical (ℕ × Text)
number_of t ([], rest) = err not_json
number_of t (d ∷ ds, rest) =
    if d == b'0' then ok (0, without_head t) else ok (digits_value (d ∷ ds), rest)

unfoldable pub load_digits : Text → Canonical (ℕ × Text)
load_digits t = number_of t (span_digits t)

-- What a text begins with.
pub data Token : Type 0 where
  a_value : Json → Text → Token
  a_string an_array an_object a_number a_negative : Text → Token
  no_token : Token

-- What stands behind a prefix.
unfoldable pub behind : Text → Text → Option Text
behind [] t = some t
behind (c ∷ cs) [] = none
behind (c ∷ cs) (d ∷ ds) = if d == c then behind cs ds else none

abbrev word : Json → Option Text → Token
word j none = no_token
word j (some rest) = a_value j rest

unfoldable pub token : Text → Token
unfolding behind
token [] = no_token
token (c ∷ rest) =
    if c == b'n'
    then word null (behind (codes "ull") rest)
    else if c == b't'
    then word (boolean true) (behind (codes "rue") rest)
    else if c == b'f'
    then word (boolean false) (behind (codes "alse") rest)
    else if c == b'"'
    then a_string rest
    else if c == b'['
    then an_array rest
    else if c == b'{'
    then an_object rest
    else if c == b'-'
    then a_negative rest
    else if is_digit c
    then a_number (c ∷ rest)
    else no_token

-- What follows an element: the closing bracket, or a comma.
pub data After : Type 0 where
  closed more : Text → After
  neither : After

abbrev pub after : ℕ → Text → After
after close [] = neither
after close (c ∷ cs) = if c == close then closed cs else if c == b',' then more cs else neither

abbrev pub opens_with : ℕ → Text → Option Text
opens_with c [] = none
opens_with c (d ∷ ds) = if d == c then some ds else none

abbrev then_string : Canonical (Text × Text) → Canonical (Json × Text)
then_string (ok (t, rest)) = ok (string t, rest)
then_string (err e) = err e

abbrev then_number : (ℕ → ℤ) → Canonical (ℕ × Text) → Canonical (Json × Text)
then_number sign (ok (n, rest)) = ok (number (sign n), rest)
then_number sign (err e) = err e

abbrev then_colon : Canonical (Text × Text) → Canonical (Text × Text)
then_colon (err e) = err e
then_colon (ok (k, t)) = elim (opens_with b':' t) [ none ↦ err not_json | some rest ↦ ok (k, rest) ]

-- A key and its colon.
unfoldable pub load_key : Text → Canonical (Text × Text)
unfolding load_string
load_key t = elim (opens_with b'"' t) [
  | none ↦ err not_json
  | some rest ↦ then_colon (load_string plain rest)
]

-- A value and what follows it. Each character of the text is at most two steps deep.
unfoldable mutual
  pub load_value : ℕ → Text → Canonical (Json × Text)
  load_value zero t = err not_json
  load_value (suc n) t = elim (token t) [
    | a_value j rest ↦ ok (j, rest)
    | a_string rest ↦ then_string (load_string plain rest)
    | a_number rest ↦ then_number pos (load_digits rest)
    | a_negative rest ↦ then_number (λ m. sub_ℕ 0 m) (load_digits rest)
    | an_array rest ↦ elim (opens_with b']' rest) [
      | some end_of ↦ ok (array nil, end_of)
      | none ↦ load_items n rest >>= λ (js, end_of). ok (array js, end_of)
    ]
    | an_object rest ↦ elim (opens_with b'}' rest) [
      | some end_of ↦ ok (object end, end_of)
      | none ↦ load_members n rest >>= λ (ms, end_of). ok (object ms, end_of)
    ]
    | no_token ↦ err not_json
  ]

  pub load_items : ℕ → Text → Canonical (Jsons × Text)
  load_items zero t = err not_json
  load_items (suc n) t = load_value n t >>= λ (j, rest). elim (after b']' rest) [
    | closed end_of ↦ ok (cons j nil, end_of)
    | more next ↦ load_items n next >>= λ (js, end_of). ok (cons j js, end_of)
    | neither ↦ err not_json
  ]

  pub load_members : ℕ → Text → Canonical (Members × Text)
  load_members zero t = err not_json
  load_members (suc n) t = load_key t >>= λ (k, at). load_value n at >>= λ (j, rest).
      elim (after b'}' rest) [
        | closed end_of ↦ ok (member k j end, end_of)
        | more next ↦ load_members n next >>= λ (ms, end_of). ok (member k j ms, end_of)
        | neither ↦ err not_json
      ]

-- Twice the length of the text is fuel enough.
unfoldable pub loads : Text → Canonical Json
unfolding load_value
loads t =
    load_value (2 * length t + 2) t >>= λ (j, rest). elim rest [ [] ↦ ok j | c ∷ cs ↦ err not_json ]
