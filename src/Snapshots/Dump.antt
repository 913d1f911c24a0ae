-- ===== src/Snapshots/Dump.antt =====
-- `json.dumps` with the options of `canonical_json`: keys in order, no white space, and no escapes
-- but those that JSON asks for.
use hanyangchem_qc_v.Base.{
  ℕ, suc, ◌+◌, ◌-◌, ◌/◌, ◌%◌, Bool, true, false, ◌&&◌, ◌||◌, List, [], ◌∷◌, ◌++◌, map, ltb, ◌==◌,
  if◌then◌else◌,
}
use hanyangchem_qc_v.Base.Int.{ℤ, pos, negsuc}
use hanyangchem_qc_v.PyDecimal.Digits.{digits}
use hanyangchem_qc_v.Snapshots.{
  Text, Json, Jsons, Members, null, boolean, string, number, object, array, nil, cons, end, member,
}

abbrev pub hex_digit : ℕ → ℕ
hex_digit n = if ltb n 10 then b'0' + n else b'a' + (n - 10)

-- The escapes of `json.encoder` when `ensure_ascii` is off.
abbrev pub escape : ℕ → Text
escape c =
    if c == b'"'
    then b'\\' ∷ b'"' ∷ []
    else if c == b'\\'
    then b'\\' ∷ b'\\' ∷ []
    else if c == 10
    then b'\\' ∷ b'n' ∷ []
    else if c == 13
    then b'\\' ∷ b'r' ∷ []
    else if c == 9
    then b'\\' ∷ b't' ∷ []
    else if c == 12
    then b'\\' ∷ b'f' ∷ []
    else if c == 8
    then b'\\' ∷ b'b' ∷ []
    else if ltb c 32
    then b'\\' ∷ b'u' ∷ b'0' ∷ b'0' ∷ hex_digit (c / 16) ∷ hex_digit (c % 16) ∷ []
    else c ∷ []

unfoldable pub escape_all : Text → Text
escape_all [] = []
escape_all (c ∷ cs) = escape c ++ escape_all cs

unfoldable pub quoted : Text → Text
unfolding escape_all
quoted t = b'"' ∷ (escape_all t ++ b'"' ∷ [])

abbrev pub integer_text : ℤ → Text
integer_text (pos n) = digits n
integer_text (negsuc n) = b'-' ∷ digits (suc n)

-- `a < b` of strings, by code points.
unfoldable pub text_ltb : Text → Text → Bool
text_ltb [] [] = false
text_ltb [] (d ∷ ds) = true
text_ltb (c ∷ cs) [] = false
text_ltb (c ∷ cs) (d ∷ ds) = ltb c d || c == d && text_ltb cs ds

abbrev pub Entry : Type 0
Entry = Text × Text

-- `sorted(dct.items())`: the keys of a dict differ, so they alone decide. Each entry stands with
-- the text of its value.
unfoldable pub insert_entry : Entry → List Entry → List Entry
unfolding text_ltb
insert_entry e [] = e ∷ []
insert_entry e (f ∷ fs) =
    let rest = insert_entry e fs in if text_ltb f.0 e.0 then f ∷ rest else e ∷ f ∷ fs

unfoldable pub sort_entries : List Entry → List Entry
unfolding insert_entry
sort_entries [] = []
sort_entries (e ∷ es) = insert_entry e (sort_entries es)

unfoldable pub comma_joined : List Text → Text
comma_joined [] = []
comma_joined (t ∷ []) = t
comma_joined (t ∷ u ∷ us) = t ++ b',' ∷ comma_joined (u ∷ us)

abbrev pub entry_text : Entry → Text
entry_text (k, t) = quoted k ++ b':' ∷ t

abbrev pub braced : List Entry → Text
braced es = b'{' ∷ (comma_joined (map entry_text (sort_entries es)) ++ b'}' ∷ [])

unfoldable mutual
  pub dumps : Json → Text
  dumps null = b'n' ∷ b'u' ∷ b'l' ∷ b'l' ∷ []
  dumps (boolean true) = b't' ∷ b'r' ∷ b'u' ∷ b'e' ∷ []
  dumps (boolean false) = b'f' ∷ b'a' ∷ b'l' ∷ b's' ∷ b'e' ∷ []
  dumps (string t) = quoted t
  dumps (number n) = integer_text n
  dumps (object ms) = braced (dump_members ms)
  dumps (array js) = b'[' ∷ (comma_joined (dump_items js) ++ b']' ∷ [])

  pub dump_items : Jsons → List Text
  dump_items nil = []
  dump_items (cons j js) = dumps j ∷ dump_items js

  pub dump_members : Members → List Entry
  dump_members end = []
  dump_members (member k j ms) = (k, dumps j) ∷ dump_members ms
