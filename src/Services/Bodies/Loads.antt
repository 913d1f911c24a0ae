-- ===== src/Services/Bodies/Loads.antt =====
-- About the response bodies that the services of backend/src/hyc_api/services/p3.py store and load.
use mathlib.Core.List.{append-nil}
use hanyangchem_qc_v.Base.{
  suc, ◌+◌, ◌*◌, ◌≤◌, ◌≡◌, refl, sym, ap, ◌∙◌, true, false, List, [], ◌∷◌, ◌++◌, length,
  length-append, arith, ok,
}
use hanyangchem_qc_v.Base.Int.{pos, negsuc}
use hanyangchem_qc_v.PyDecimal.Digits.{digits}
use hanyangchem_qc_v.PyDecimal.Digits.Value.{leads, leads-digits}
use hanyangchem_qc_v.Snapshots.{
  Text, Json, Jsons, Members, null, boolean, string, number, object, array, nil, cons, end, member,
}
use hanyangchem_qc_v.Snapshots.Dump.{comma_joined}
use hanyangchem_qc_v.Snapshots.Load.{loads, load_value}
use hanyangchem_qc_v.Services.Bodies.{
  body_string, body_value, body_items, body_members, dumps_body, escape_body,
}
use hanyangchem_qc_v.Services.Bodies.Values.{
  Plain, PlainMembers, need, need_items, need_members, read_value,
}

some_digit : (t : Text) → leads t ≡ true → 1 ≤ length t
some_digit [] h = cc
some_digit (c ∷ cs) h = omega arith

length-comma_joined :
    (v w : Text) (vs : List Text)
    → length (comma_joined (v ∷ w ∷ vs)) ≡ length v + suc (length (comma_joined (w ∷ vs)))
unfolding comma_joined
length-comma_joined v w vs = length-append v (b',' ∷ comma_joined (w ∷ vs))

mutual
  unfolding body_value body_items body_members body_string comma_joined need need_items need_members

  need-le : (j : Json) → suc (need j) ≤ 2 * length (body_value j)
  need-le null = omega arith
  need-le (boolean true) = omega arith
  need-le (boolean false) = omega arith
  need-le (string t) = omega (arith, length-append (escape_body t) (b'"' ∷ []))
  need-le (number (pos n)) = omega (arith, some_digit (digits n) (leads-digits n))
  need-le (number (negsuc n)) = omega arith
  need-le (object ms) =
      omega (arith, need_members-le ms, length-append (comma_joined (body_members ms)) (b'}' ∷ []))
  need-le (array js) =
      omega (arith, need_items-le js, length-append (comma_joined (body_items js)) (b']' ∷ []))

  need_items-le : (js : Jsons) → need_items js ≤ 2 * length (comma_joined (body_items js))
  need_items-le nil = omega arith
  need_items-le (cons j nil) = omega (arith, need-le j)
  need_items-le (cons j (cons i is)) = omega (
    arith,
    need-le j,
    need_items-le (cons i is),
    length-comma_joined (body_value j) (body_value i) (body_items is),
  )

  need_members-le : (ms : Members) → need_members ms ≤ 2 * length (comma_joined (body_members ms))
  need_members-le end = omega arith
  need_members-le (member k j end) =
      omega (arith, need-le j, length-append (body_string k) (b':' ∷ body_value j))
  need_members-le (member k j (member l i ms)) = omega (
    arith,
    need-le j,
    need_members-le (member l i ms),
    length-append (body_string k) (b':' ∷ body_value j),
    length-comma_joined (body_string k ++ b':' ∷ body_value j)
        (body_string l ++ b':' ∷ body_value i) (body_members ms),
  )

-- A body whose texts hold no surrogate and nothing above them is loaded as it was dumped, keys in
-- their order, however deep it is and whatever must be escaped in it.
pub loads-dumps_body :
    (body : Members) → PlainMembers body → loads (dumps_body body) ≡ ok (object body)
unfolding loads dumps_body Plain
loads-dumps_body body p =
    let text = body_value (object body) in
    let fuel : need (object body) ≤ 2 * length text + 2 = omega (arith, need-le (object body)) in
    rw
      (
        ap (λ t. load_value (2 * length text + 2) t) (sym (append-nil text))
            ∙ read_value (2 * length text + 2) (object body) [] p refl fuel,
        loads,
      )
      refl
