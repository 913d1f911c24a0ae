-- ===== src/Services/Payload/Items.antt =====
-- About the dicts and lists of a candidate payload (p3.py).
use hanyangchem_qc_v.Base.{
  ◌≡◌, refl, sym, ap, ◌∙◌, inl, inr, Bool, true, false, Option, none, some, List, [], ◌∷◌, ◌++◌,
  all, All, Any, All-all, All-map, All-self, any-true, Any-map, Bool-cases, ok, err, ◌>>=◌, ◌>>◌,
  raise_if, arith,
}
use hanyangchem_qc_v.Base.Text.{codes, text_eq, text_eq_refl, text_eq_sound}
use hanyangchem_qc_v.Snapshots.{Text, Json, Members, member, end, object}
use hanyangchem_qc_v.Services.{Service, ServiceError}
use hanyangchem_qc_v.Services.Payload.{
  holds, distinct, same_set, get_item, set_item, as_text, json_items, json_array, Metadata, ids_of,
  metadata_of, metadata_by_id,
}

pub get_item-set_item : (k : Text) (v : Json) (ms : Members) → get_item k (set_item k v ms) ≡ some v
get_item-set_item k v end = rw (text_eq_refl k) refl
get_item-set_item k v (member n w ms) = elim (Bool-cases (text_eq n k)) [
  | inl hit ↦ rw hit (rw hit refl)
  | inr miss ↦ rw miss (rw miss (get_item-set_item k v ms))
]

pub get_item-set_other :
    (j k : Text) (v : Json) (ms : Members)
    → text_eq k j ≡ false
    → get_item j (set_item k v ms) ≡ get_item j ms
get_item-set_other j k v end h = rw h refl
get_item-set_other j k v (member n w ms) h = elim (Bool-cases (text_eq n k)) [
  | inl hit ↦
      let miss : text_eq n j ≡ false = ap (λ x. text_eq x j) (text_eq_sound n k hit) ∙ h in
      rw hit (rw miss refl)
  | inr miss ↦
      rw miss (ap (λ later. if_hit (text_eq n j) (some w) later) (get_item-set_other j k v ms h))
]
  where
    if_hit : Bool → Option Json → Option Json → Option Json
    if_hit true a b = a
    if_hit false a b = b

pub json_items-json_array : (js : List Json) → json_items (json_array js) ≡ js
json_items-json_array [] = refl
json_items-json_array (j ∷ js) = ap (λ rest. j ∷ rest) (json_items-json_array js)

pub holds-Any : (xs : List Text) (t : Text) → holds xs t ≡ true → Any (λ x. x ≡ t) xs
holds-Any xs t h = Any-map _ _ xs (λ x e. sym (text_eq_sound t x e)) (any-true (text_eq t) xs h)

pub Any-holds : (xs : List Text) (t : Text) → Any (λ x. x ≡ t) xs → holds xs t ≡ true
Any-holds [] t h = absurd h
Any-holds (x ∷ xs) t (inl e) =
    let hit : text_eq t x ≡ true = ap (text_eq t) e ∙ text_eq_refl t in rw hit refl
Any-holds (x ∷ xs) t (inr h) = let later = Any-holds xs t h in ground (arith, later)

pub same_set_refl : (xs : List Text) → same_set xs xs ≡ true
same_set_refl xs =
    let each : all (holds xs) xs ≡ true =
      All-all (holds xs) xs (All-map _ _ xs (Any-holds xs) (All-self xs)) in
    rw each refl

text_eq-false : (s t : Text) → text_eq s t ≡ false → text_eq t s ≡ false
text_eq-false s t h = elim (Bool-cases (text_eq t s)) [
  | inr miss ↦ miss
  | inl hit ↦ absurd (cc (ap (text_eq s) (text_eq_sound t s hit) ∙ text_eq_refl s, h))
]

-- What a distinct head says of the tail, and what it is not among.
pub distinct-head :
    (x : Text) (xs : List Text)
    → distinct (x ∷ xs) ≡ true
    → (holds xs x ≡ false) × (distinct xs ≡ true)
distinct-head x xs h = ground (arith)

abbrev pub objects : Metadata → List Json
objects [] = []
objects (m ∷ ms) = object m.1 ∷ objects ms

holds-append :
    (seen : Metadata) (i t : Text) (ms : Members)
    → holds (ids_of seen) t ≡ false
    → text_eq t i ≡ false
    → holds (ids_of (seen ++ (i, ms) ∷ [])) t ≡ false
holds-append [] i t ms h k = rw k refl
holds-append (s ∷ ss) i t ms h k = elim (Bool-cases (text_eq t s.0)) [
  | inl hit ↦ absurd (cc (rw hit at h))
  | inr miss ↦ rw miss (holds-append ss i t ms (rw miss at h) k)
]

abbrev pub NamesItself : Text × Members → Type 0
NamesItself m = as_text (get_item (codes "field_id") m.1) ≡ some m.0

append_assoc :
    (xs : Metadata) (m : Text × Members) (ys : Metadata) → (xs ++ m ∷ []) ++ ys ≡ xs ++ m ∷ ys
append_assoc [] m ys = refl
append_assoc (x ∷ xs) m ys = ap (λ rest. x ∷ rest) (append_assoc xs m ys)

apart :
    (seen : Metadata) (i : Text) (ms : Members) (ps : Metadata)
    → All (λ p. holds (ids_of seen) p.0 ≡ false) ps
    → holds (ids_of ps) i ≡ false
    → All (λ p. holds (ids_of (seen ++ (i, ms) ∷ [])) p.0 ≡ false) ps
apart seen i ms [] h k = tt
apart seen i ms (p ∷ ps) h k = elim (Bool-cases (text_eq i p.0)) [
  | inl hit ↦ absurd (cc (rw hit at k))
  | inr miss ↦ (
    holds-append seen i p.0 ms h.0 (text_eq-false i p.0 miss),
    apart seen i ms ps h.1 (rw miss at k),
  )
]

-- The objects of metadata with different identifiers give them back.
pub metadata_by_id-objects :
    (invalid duplicate : ServiceError) (ps seen : Metadata)
    → All NamesItself ps
    → distinct (ids_of ps) ≡ true
    → All (λ p. holds (ids_of seen) p.0 ≡ false) ps
    → metadata_by_id invalid duplicate (objects ps) seen ≡ ok (seen ++ ps)
unfolding metadata_by_id
metadata_by_id-objects invalid duplicate [] seen names d h = ap ok (nothing seen)
  where
    nothing : (xs : Metadata) → xs ≡ xs ++ []
    nothing [] = refl
    nothing (x ∷ xs) = ap (λ rest. x ∷ rest) (nothing xs)
metadata_by_id-objects invalid duplicate ((i, ms) ∷ ps) seen names d h =
    let (fresh, rest) = distinct-head i (ids_of ps) d in
    let entered : Option Text → Service Metadata = λ o.
      (elim o [ some j ↦ ok (j, ms) | none ↦ err invalid ]) >>= λ (j, x).
      raise_if (holds (ids_of seen) j) duplicate
      >> metadata_by_id invalid duplicate (objects ps) (seen ++ (j, x) ∷ []) in
    ap entered names.0
    ∙ rw h.0 (
        metadata_by_id-objects invalid duplicate ps (seen ++ (i, ms) ∷ []) names.1 rest
          (apart seen i ms ps h.1 fresh)
        ∙ ap ok (append_assoc seen (i, ms) ps))

-- Under different identifiers each entry is found.
pub metadata_of-each :
    (ps : Metadata) → distinct (ids_of ps) ≡ true → All (λ p. metadata_of p.0 ps ≡ some p.1) ps
metadata_of-each [] d = tt
metadata_of-each (m ∷ ps) d =
    let (fresh, rest) = distinct-head m.0 (ids_of ps) d in
    (rw (text_eq_refl m.0) refl, later ps fresh (metadata_of-each ps rest))
  where
    later :
        (qs : Metadata)
        → holds (ids_of qs) m.0 ≡ false
        → All (λ p. metadata_of p.0 ps ≡ some p.1) qs
        → All (λ p. metadata_of p.0 (m ∷ ps) ≡ some p.1) qs
    later [] f h = tt
    later (p ∷ qs) f h = elim (Bool-cases (text_eq m.0 p.0)) [
      | inl hit ↦ absurd (cc (rw hit at f))
      | inr miss ↦ (rw miss h.0, later qs (rw miss at f) h.1)
    ]
