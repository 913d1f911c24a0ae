-- ===== src/Services/Bodies.antt =====
-- `json.dumps(body, separators=(",", ":"))` of backend/src/hyc_api/services/p3.py: the keys in the
-- order of the dict, and no character outside ASCII.
pub mod RoundTrip
pub mod Values
pub mod Loads
use hanyangchem_qc_v.Base.{
  ℕ, ◌+◌, ◌-◌, ◌/◌, ◌%◌, true, false, ◌&&◌, List, [], ◌∷◌, ◌++◌, ltb, leb, ◌==◌, if◌then◌else◌,
}
use hanyangchem_qc_v.Snapshots.{
  Text, Json, Jsons, Members, null, boolean, string, number, object, array, nil, cons, end, member,
}
use hanyangchem_qc_v.Snapshots.Dump.{hex_digit, integer_text, comma_joined}

-- `\uXXXX`.
abbrev pub unicode_escape : ℕ → Text
unicode_escape n =
    b'\\'
    ∷ b'u'
    ∷ hex_digit (n / 4096)
    ∷ hex_digit (n / 256 % 16)
    ∷ hex_digit (n / 16 % 16)
    ∷ hex_digit (n % 16)
    ∷ []

-- The escapes of `json.encoder` when `ensure_ascii` is on; the last is a surrogate pair.
unfoldable pub escape_ascii : ℕ → Text
escape_ascii c =
    if c == b'"'
    then b'\\' ∷ b'"' ∷ []
    else if c == b'\\'
    then b'\\' ∷ b'\\' ∷ []
    else if c == 10
    then b'\\' ∷ b'n' ∷ []
    else if c == 13
    then b'\\' ∷ b'r' ∷ []
    else if c == 9
    then b'\\' ∷ b't' ∷ []
    else if c == 12
    then b'\\' ∷ b'f' ∷ []
    else if c == 8
    then b'\\' ∷ b'b' ∷ []
    else if leb 32 c && leb c 126
    then c ∷ []
    else if ltb c 0x10000
    then unicode_escape c
    else unicode_escape (0xd800 + (c - 0x10000) / 1024 % 1024)
      ++ unicode_escape (0xdc00 + (c - 0x10000) % 1024)

unfoldable pub escape_body : Text → Text
unfolding escape_ascii
escape_body [] = []
escape_body (c ∷ cs) = escape_ascii c ++ escape_body cs

unfoldable pub body_string : Text → Text
unfolding escape_body
body_string t = b'"' ∷ (escape_body t ++ b'"' ∷ [])

unfoldable mutual
  pub body_value : Json → Text
  body_value null = b'n' ∷ b'u' ∷ b'l' ∷ b'l' ∷ []
  body_value (boolean true) = b't' ∷ b'r' ∷ b'u' ∷ b'e' ∷ []
  body_value (boolean false) = b'f' ∷ b'a' ∷ b'l' ∷ b's' ∷ b'e' ∷ []
  body_value (string t) = body_string t
  body_value (number n) = integer_text n
  body_value (object ms) = b'{' ∷ (comma_joined (body_members ms) ++ b'}' ∷ [])
  body_value (array js) = b'[' ∷ (comma_joined (body_items js) ++ b']' ∷ [])

  pub body_items : Jsons → List Text
  body_items nil = []
  body_items (cons j js) = body_value j ∷ body_items js

  pub body_members : Members → List Text
  body_members end = []
  body_members (member k j ms) = (body_string k ++ b':' ∷ body_value j) ∷ body_members ms

-- The text of a response body.
unfoldable pub dumps_body : Members → Text
unfolding body_value body_items body_members body_string
dumps_body ms = body_value (object ms)
