-- ===== src/Examples/Snapshots.antt =====
-- A payload with its keys in two orders, and its text read back.
use hanyangchem_qc_v.Base.{ℕ, ◌≡◌, refl, ap, ◌≢◌, true, false, [], ◌∷◌, ◌==◌, ==_iff, ok}
use hanyangchem_qc_v.Base.Int.{pos}
use hanyangchem_qc_v.Base.Text.{codes}
use hanyangchem_qc_v.PyDecimal.Digits.{digits, digits_value}
use hanyangchem_qc_v.Decimals.{span_digits}
use hanyangchem_qc_v.Snapshots.{
  Text, Fields, Members, name, field, integer, str, dict, number, string, object, member, normalise,
}
use hanyangchem_qc_v.Snapshots.Dump.{
  dumps, sort_entries, insert_entry, text_ltb, comma_joined, quoted, escape_all,
}
use hanyangchem_qc_v.Snapshots.Load.{
  loads, load_value, load_key, load_string, load_digits, token, behind,
}
use hanyangchem_qc_v.Snapshots.Freeze.{canonical_json}
use hanyangchem_qc_v.Snapshots.KeyOrder.{swap, canonical_json-Reordered}

abbrev lot_first : Fields
lot_first =
    field (name (codes "lot")) (integer (pos 7))
      (field (name (codes "case")) (str (codes "A\"1")) Fields.end)

abbrev case_first : Fields
case_first =
    field (name (codes "case")) (str (codes "A\"1"))
      (field (name (codes "lot")) (integer (pos 7)) Fields.end)

abbrev sorted_text : Text
sorted_text = codes "{\"case\":\"A\\\"1\",\"lot\":7}"

lot_first-text : canonical_json (dict lot_first) ≡ ok sorted_text
unfolding canonical_json normalise dumps sort_entries insert_entry text_ltb comma_joined quoted
    escape_all digits
lot_first-text = refl

false-true : false ≡ true → ⊥
false-true e = cc

keys_differ : codes "lot" ≢ codes "case"
keys_differ e = first_differs (heads_agree e)
  where
    head_of : Text → ℕ
    head_of [] = 0
    head_of (c ∷ cs) = c

    heads_agree : codes "lot" ≡ codes "case" → (108 == 99) ≡ true
    heads_agree e = (==_iff 108 99).1 (ap head_of e)

    first_differs : (108 == 99) ≡ true → ⊥
    first_differs h = false-true h

canonical_json-Reordered_example : canonical_json (dict case_first) ≡ ok sorted_text
canonical_json-Reordered_example =
    canonical_json-Reordered
      (swap (codes "lot") (codes "case") (integer (pos 7)) (str (codes "A\"1")) Fields.end
        keys_differ)
      lot_first-text

-- The text is read back with its keys in order.
loads-sorted :
    loads sorted_text
    ≡ ok (
        object (
          member
            (codes "case")
            (string (codes "A\"1"))
            (member (codes "lot") (number (pos 7)) Members.end)))
unfolding loads load_value load_key load_string load_digits token behind span_digits digits_value
loads-sorted = refl
