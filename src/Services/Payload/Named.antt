-- ===== src/Services/Payload/Named.antt =====
-- About the metadata of a candidate payload (p3.py): each entry stands under its identifier.
use hanyangchem_qc_v.Base.{
  ◌≡◌, refl, sym, ap, ◌∙◌, subst, inl, inr, Option, none, some, some-injective, List, [], ◌∷◌, ◌++◌,
  All, Bool-cases, bind-ok, raise_if-ok, ok-injective, ok_parts, ok, err,
}
use hanyangchem_qc_v.Base.Text.{codes, text_eq, text_eq_sound}
use hanyangchem_qc_v.Snapshots.{Text, Json, Members, object}
use hanyangchem_qc_v.Services.{Service, ServiceError}
use hanyangchem_qc_v.Services.Payload.{
  holds, get_item, as_text, Metadata, metadata_of, metadata_by_id, entry_of, ids_of,
}
use hanyangchem_qc_v.Services.Payload.Items.{NamesItself}

-- Every entry of the metadata stands under its own identifier.
entry_of-named :
    (invalid : ServiceError) (j : Json) {m : Text × Members}
    → entry_of invalid j ≡ ok m
    → NamesItself m
entry_of-named invalid (object ms) {m = m} h =
    by_id (as_text (get_item (codes "field_id") ms)) refl h
  where
    by_id :
        (o : Option Text)
        → as_text (get_item (codes "field_id") ms) ≡ o
        → ◌≡◌ {A = Service (Text × Members)}
            (elim o [ some i ↦ ok (i, ms) | none ↦ err invalid ])
            (ok m)
        → NamesItself m
    by_id none e h = absurd (cc h)
    by_id (some i) e h =
        let (same_id, same_ms) = ok_parts i m.0 ms m.1 h in
        ap (λ x. as_text (get_item (codes "field_id") x)) (sym same_ms) ∙ e ∙ ap some same_id
entry_of-named invalid j h = absurd (cc h)

All-append-one :
    (P : Text × Members → Type 0) (xs : Metadata) (m : Text × Members)
    → All P xs
    → P m
    → All P (xs ++ m ∷ [])
All-append-one P [] m h p = (p, tt)
All-append-one P (x ∷ xs) m h p = (h.0, All-append-one P xs m h.1 p)

pub metadata_by_id-named :
    (invalid duplicate : ServiceError) (js : List Json) (seen : Metadata) {m : Metadata}
    → metadata_by_id invalid duplicate js seen ≡ ok m
    → All NamesItself seen
    → All NamesItself m
unfolding metadata_by_id
metadata_by_id-named invalid duplicate [] seen {m = m} h names =
    subst (All NamesItself) (ok-injective seen m h) names
metadata_by_id-named invalid duplicate (j ∷ js) seen h names =
    let (entry, entered, h1) = bind-ok (entry_of invalid j) _ h in
    let (_, h2) = raise_if-ok (holds (ids_of seen) entry.0) duplicate _ h1 in
    metadata_by_id-named invalid duplicate js (seen ++ entry ∷ []) h2
      (All-append-one NamesItself seen entry names (entry_of-named invalid j entered))

pub metadata_of-named :
    (i : Text) (metadata : Metadata) {ms : Members}
    → All NamesItself metadata
    → metadata_of i metadata ≡ some ms
    → as_text (get_item (codes "field_id") ms) ≡ some i
metadata_of-named i [] names h = absurd (cc h)
metadata_of-named i (m ∷ metadata) {ms = ms} names h = elim (Bool-cases (text_eq m.0 i)) [
  | inr miss ↦ metadata_of-named i metadata names.1 (rw miss at h)
  | inl hit ↦
      let same = some-injective m.1 ms (rw hit at h) in
      ap (λ x. as_text (get_item (codes "field_id") x)) (sym same)
      ∙ names.0
      ∙ ap some (text_eq_sound m.0 i hit)
]
