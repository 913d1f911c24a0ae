-- ===== src/Snapshots/KeyOrder.antt =====
-- About `canonical_json` of snapshots.py and the order in which a payload's keys are set.
use hanyangchem_qc_v.Base.{
  ℕ, ◌≡◌, refl, sym, subst, ◌∙◌, ap, ◌≢◌, ◌⊎◌, inl, inr, Bool, true, false, not, ◌&&◌, ◌||◌, List,
  [], ◌∷◌, ◌++◌, map, ltb, ◌==◌, arith, Bool-cases, bind-ok, raise_if-ok, ok,
}
use hanyangchem_qc_v.Snapshots.{
  Text, Value, Fields, Key, name, other_key, field, dict, Json, Members, member, object, Canonical,
  key_not_text, keys_are_text, text_key, normalise, normalise_fields,
}
use hanyangchem_qc_v.Snapshots.Dump.{
  Entry, entry_text, comma_joined, text_ltb, insert_entry, sort_entries, dumps, dump_members,
}
use hanyangchem_qc_v.Snapshots.Freeze.{canonical_json}

-- A dict whose keys stand in another order, at whatever depth of dicts.
pub data Reordered : Fields → Fields → Type 0 where
  same : (fs : Fields) → Reordered fs fs
  swap :
      (k l : Text) (v w : Value) (fs : Fields)
      → k ≢ l
      → Reordered (field (name k) v (field (name l) w fs)) (field (name l) w (field (name k) v fs))
  below :
      (k : Key) (v : Value) (fs gs : Fields)
      → Reordered fs gs
      → Reordered (field k v fs) (field k v gs)
  inside :
      (k : Key) (fs gs hs : Fields)
      → Reordered fs gs
      → Reordered (field k (dict fs) hs) (field k (dict gs) hs)
  chain : (fs gs hs : Fields) → Reordered fs gs → Reordered gs hs → Reordered fs hs

-- Code point order is a strict total order.
text_asym : (s t : Text) → text_ltb s t ≡ true → text_ltb t s ≡ false
unfolding text_ltb
text_asym [] [] h = cc
text_asym [] (d ∷ ds) h = refl
text_asym (c ∷ cs) [] h = cc
text_asym (c ∷ cs) (d ∷ ds) h = ground (arith, text_asym cs ds)

text_trans : (s t u : Text) → text_ltb s t ≡ true → text_ltb t u ≡ true → text_ltb s u ≡ true
unfolding text_ltb
text_trans [] [] u h k = cc
text_trans [] (d ∷ ds) [] h k = cc
text_trans [] (d ∷ ds) (e ∷ es) h k = refl
text_trans (c ∷ cs) [] u h k = cc
text_trans (c ∷ cs) (d ∷ ds) [] h k = cc
text_trans (c ∷ cs) (d ∷ ds) (e ∷ es) h k = ground (arith, text_trans cs ds es)

heads :
    (a b : ℕ) (p q : Bool)
    → (ltb a b || a == b && p) ≡ false
    → (ltb b a || b == a && q) ≡ false
    → (a ≡ b) × (p ≡ false) × (q ≡ false)
heads a b p q h k = ground arith

text_total : (s t : Text) → text_ltb s t ≡ false → text_ltb t s ≡ false → s ≡ t
unfolding text_ltb
text_total [] [] h k = refl
text_total [] (d ∷ ds) h k = cc
text_total (c ∷ cs) [] h k = cc
text_total (c ∷ cs) (d ∷ ds) h k =
    let (first, left, right) = heads c d (text_ltb cs ds) (text_ltb ds cs) h k in
    cc (first, text_total cs ds left right)

order :
    (s t : Text)
    → s ≢ t
    → ((text_ltb t s ≡ true) × (text_ltb s t ≡ false))
      ⊎ ((text_ltb t s ≡ false) × (text_ltb s t ≡ true))
order s t n = elim (Bool-cases (text_ltb t s)) [
  | inl above ↦ inl (above, text_asym t s above)
  | inr not_above ↦ elim (Bool-cases (text_ltb s t)) [
    | inl lower ↦ inr (not_above, lower)
    | inr not_lower ↦ absurd (n (text_total s t not_lower not_above))
  ]
]

-- What is not below `s` is not below what is above it.
between : (g s t : Text) → s ≢ t → text_ltb g s ≡ false → text_ltb g t ≡ true → text_ltb s t ≡ true
between g s t n low high = elim (order s t n) [
  | inr (_, above) ↦ above
  | inl (above, _) ↦ absurd (cc (low, text_trans g t s high above))
]

insert_entry_comm :
    (e f : Entry) (es : List Entry)
    → e.0 ≢ f.0
    → insert_entry e (insert_entry f es) ≡ insert_entry f (insert_entry e es)
unfolding insert_entry
insert_entry_comm e f [] n = elim (order e.0 f.0 n) [
  | inl (a, b) ↦ rw (a, b)
  | inr (a, b) ↦ rw (a, b)
]
insert_entry_comm e f (g ∷ gs) n = elim (Bool-cases (text_ltb g.0 f.0)) [
  | inl gf ↦ elim (Bool-cases (text_ltb g.0 e.0)) [
    | inl ge ↦ rw (gf, ge, gf, insert_entry_comm e f gs n)
    | inr ge ↦ rw (gf, ge, between g.0 e.0 f.0 n ge gf, gf)
  ]
  | inr gf ↦ elim (Bool-cases (text_ltb g.0 e.0)) [
    | inl ge ↦ rw (gf, ge, between g.0 f.0 e.0 (λ x. n (sym x)) gf ge, gf)
    | inr ge ↦ elim (order e.0 f.0 n) [
      | inl (a, b) ↦ rw (gf, ge, a, b)
      | inr (a, b) ↦ rw (gf, ge, a, b, gf)
    ]
  ]
]

text_keys : {fs gs : Fields} → Reordered fs gs → keys_are_text fs ≡ keys_are_text gs
text_keys (same fs) = refl
text_keys (swap k l v w fs n) = refl
text_keys (below (name k) v fs gs r) = text_keys r
text_keys (below other_key v fs gs r) = refl
text_keys (inside (name k) fs gs hs r) = refl
text_keys (inside other_key fs gs hs r) = refl
text_keys (chain fs gs hs r s) = text_keys r ∙ text_keys s

-- What the first field gives, and the others.
fields-ok :
    (k : Key) (v : Value) (fs : Fields) {ms : Members}
    → normalise_fields (field k v fs) ≡ ok ms
    → (j : Json) × (rest : Members) × (t : Text) × (normalise v ≡ ok j)
      × (normalise_fields fs ≡ ok rest)
      × (text_key k ≡ ok t)
      × (ms ≡ member t j rest)
unfolding normalise_fields
fields-ok k v fs h =
    let (j, first, h1) = bind-ok (normalise v) _ h in
    let (rest, others, h2) = bind-ok (normalise_fields fs) _ h1 in
    let (t, key, h3) = bind-ok (text_key k) _ h2 in
    (j, rest, t, first, others, key, members-injective _ _ h3)
  where
    members-injective : (a b : Members) → ◌≡◌ {A = Canonical Members} (ok a) (ok b) → b ≡ a
    members-injective a b h = cc

-- Two lists of members give the same entries once they are sorted.
abbrev Alike : Members → Members → Type 0
Alike ms ns = sort_entries (dump_members ms) ≡ sort_entries (dump_members ns)

Alike-swap :
    (k l : Text) (j i : Json) (rest : Members)
    → k ≢ l
    → Alike (member k j (member l i rest)) (member l i (member k j rest))
unfolding dumps sort_entries
Alike-swap k l j i rest n =
    insert_entry_comm (k, dumps j) (l, dumps i) (sort_entries (dump_members rest)) n

Alike-below :
    (t : Text) (j : Json) (ms ns : Members) → Alike ms ns → Alike (member t j ms) (member t j ns)
unfolding dumps sort_entries
Alike-below t j ms ns alike = ap (insert_entry (t, dumps j)) alike

Alike-inside :
    (t : Text) (ms ns rest : Members)
    → Alike ms ns
    → Alike (member t (object ms) rest) (member t (object ns) rest)
unfolding dumps sort_entries
Alike-inside t ms ns rest alike =
    ap
      (λ es.
        insert_entry (t, b'{' ∷ (comma_joined (map entry_text es) ++ b'}' ∷ []))
          (sort_entries (dump_members rest)))
      alike

name-key : (k : Text) {t : Text} → text_key (name k) ≡ ok t → t ≡ k
name-key k h = cc

dict-ok :
    (fs : Fields) {j : Json}
    → normalise (dict fs) ≡ ok j
    → (ms : Members) × (normalise_fields fs ≡ ok ms) × (keys_are_text fs ≡ true) × (j ≡ object ms)
unfolding normalise
dict-ok fs h =
    let (keys, h1) = raise_if-ok (not (keys_are_text fs)) key_not_text _ h in
    let (ms, members, h2) = bind-ok (normalise_fields fs) _ h1 in
    (ms, members, negated _ keys, objects-injective ms _ h2)
  where
    negated : (b : Bool) → not b ≡ false → b ≡ true
    negated true h = refl
    negated false h = cc

    objects-injective :
        (a : Members) (b : Json) → ◌≡◌ {A = Canonical Json} (ok (object a)) (ok b) → b ≡ object a
    objects-injective a b h = cc

normalise_fields-Reordered :
    {fs gs : Fields} {ms : Members}
    → Reordered fs gs
    → normalise_fields fs ≡ ok ms
    → (ns : Members) × (normalise_fields gs ≡ ok ns) × Alike ms ns
unfolding normalise normalise_fields dumps sort_entries
normalise_fields-Reordered {ms = ms} (same fs) h = (ms, h, refl)
normalise_fields-Reordered {ms = whole} (swap k l v w fs n) h =
    let (j, rest, t, first, others, key, e) = fields-ok (name k) v (field (name l) w fs) h in
    let (i, last, u, second, tail, other, f) = fields-ok (name l) w fs others in
    let shape : whole ≡ member k j (member l i last) =
      cc (e, f, name-key k key, name-key l other) in
    (
      member l i (member k j last),
      rw (second, first, tail) refl,
      subst (λ m. Alike m (member l i (member k j last))) (sym shape) (Alike-swap k l j i last n),
    )
normalise_fields-Reordered (below k v fs gs r) h =
    let (j, rest, t, first, others, key, e) = fields-ok k v fs h in
    let (ns, found, alike) = normalise_fields-Reordered r others in
    (
      member t j ns,
      rw (first, found, key) refl,
      subst (λ m. Alike m (member t j ns)) (sym e) (Alike-below t j rest ns alike),
    )
normalise_fields-Reordered {ms = whole} (inside k fs gs hs r) h =
    let (j, rest, t, first, others, key, e) = fields-ok k (dict fs) hs h in
    let (ms, members, keys, shape) = dict-ok fs first in
    let (ns, found, alike) = normalise_fields-Reordered r members in
    let whole_shape : whole ≡ member t (object ms) rest = cc (e, shape) in
    (
      member t (object ns) rest,
      rw (← text_keys r, keys, found, others, key) refl,
      subst (λ m. Alike m (member t (object ns) rest)) (sym whole_shape)
          (Alike-inside t ms ns rest alike),
    )
normalise_fields-Reordered (chain fs gs hs r s) h =
    let (ns, found, alike) = normalise_fields-Reordered r h in
    let (os, last, again) = normalise_fields-Reordered s found in (os, last, alike ∙ again)

-- A payload that has a canonical JSON text has the same one if its keys, or those of a dict within
-- dicts, are set in another order.
pub canonical_json-Reordered :
    {fs gs : Fields} {t : Text}
    → Reordered fs gs
    → canonical_json (dict fs) ≡ ok t
    → canonical_json (dict gs) ≡ ok t
unfolding canonical_json normalise dumps
canonical_json-Reordered {fs = fs} {gs = gs} {t = t} r h =
    let (j, normal, h1) = bind-ok (normalise (dict fs)) _ h in
    let (ms, members, keys, shape) = dict-ok fs normal in
    let (ns, found, alike) = normalise_fields-Reordered r members in
    let text : dumps (object ms) ≡ t = same_text _ _ (rw shape at h1) in
    let other : dumps (object ns) ≡ t = sym (ap closed alike) ∙ text in
    rw (← text_keys r, keys, found, other) refl
  where
    same_text : (a b : Text) → ◌≡◌ {A = Canonical Text} (ok a) (ok b) → a ≡ b
    same_text a b h = cc

    closed : List Entry → Text
    closed es = b'{' ∷ (comma_joined (map entry_text es) ++ b'}' ∷ [])
