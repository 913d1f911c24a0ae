-- ===== src/Services/Creation/Summary.antt =====
-- About the payload that a confirmed review of p3.py leaves, and what an inspection reads in it.
use hanyangchem_qc_v.Base.{
  ℕ, ◌+◌, ◌-◌, ◌≡◌, refl, sym, ap, ◌∙◌, inl, inr, true, false, Option, none, some, List, [], ◌∷◌,
  ◌++◌, length, All, arith, ◌==◌, String, ok,
}
use hanyangchem_qc_v.Base.Int.{pos}
use hanyangchem_qc_v.Base.Text.{codes, text_eq_refl}
use hanyangchem_qc_v.PyDecimal.{Decimal}
use hanyangchem_qc_v.Snapshots.{Text, Json, Members, object, array, number}
use hanyangchem_qc_v.Store.{ExtractionFieldReview}
use hanyangchem_qc_v.Approval.Rows.{uuid_text}
use hanyangchem_qc_v.Services.{mapping_identity_invalid, duplicate_mapping_identity}
use hanyangchem_qc_v.Services.Selection.{str_uuid, members}
use hanyangchem_qc_v.Services.Payload.{
  holds, distinct, same_set, get_item, set_item, as_text, json_items, json_array, Metadata, ids_of,
  metadata_of, canonical_finite_decimal,
}
use hanyangchem_qc_v.Services.Payload.Items.{
  get_item-set_item, get_item-set_other, json_items-json_array, same_set_refl, objects, NamesItself,
  metadata_by_id-objects, metadata_of-each,
}
use hanyangchem_qc_v.Services.Review.{row_ids}
use hanyangchem_qc_v.Services.Review.Writes.{
  Reviewed, confirmed_field, confirmed_fields, reviewed_entry, reviewed_entries, mapped_codes,
  unmapped_count, sorted_codes, json_texts, reviewed_payload,
}
use hanyangchem_qc_v.Services.Creation.Values.{
  ItemValues, codes_in, all_values, are_texts, check_summary, local_values, payload_values,
}
use hanyangchem_qc_v.Services.Creation.Reading.{
  Good, with_value, reading, reviewed_key, target_of, new_key-Good, field_values-Good,
  reviewed_entry-field_id,
}

abbrev pub rows_of : List Reviewed → List ExtractionFieldReview
rows_of [] = []
rows_of (r ∷ rs) = r.0 ∷ rows_of rs

-- The fields as a review leaves them.
abbrev pub confirmed_list : List Reviewed → List ExtractionFieldReview
confirmed_list [] = []
confirmed_list (r ∷ rs) = confirmed_field (reviewed_key r) r ∷ confirmed_list rs

pub row_ids-confirmed_list :
    (rs : List Reviewed) → row_ids (confirmed_list rs) ≡ row_ids (rows_of rs)
row_ids-confirmed_list [] = refl
row_ids-confirmed_list (r ∷ rs) = ap (λ rest. uuid_text r.0.id ∷ rest) (row_ids-confirmed_list rs)

are_texts_refl : (ts : List Text) → are_texts (json_texts ts) ts ≡ true
are_texts_refl [] = refl
are_texts_refl (t ∷ ts) = rw (text_eq_refl t) (are_texts_refl ts)

with_value-append :
    (t : Option String) (v : Option Decimal) (rest : ItemValues)
    → with_value t v [] ++ rest ≡ with_value t v rest
with_value-append (some t) (some v) rest = refl
with_value-append (some t) none rest = refl
with_value-append none v rest = refl

module _ (allowed : List Text) (metadata : Metadata) where
  abbrev pub AllGood : List Reviewed → Type 0
  AllGood = All (Good allowed metadata)

  abbrev pub entry_pairs : (rs : List Reviewed) → AllGood rs → Metadata
  entry_pairs [] gs = []
  entry_pairs (r ∷ rs) gs = (uuid_text r.0.id, reviewed_entry gs.0.ms r.1) ∷ entry_pairs rs gs.1

  pub confirmed_fields-AllGood :
      (rs : List Reviewed) → AllGood rs → confirmed_fields true rs ≡ ok (confirmed_list rs)
  unfolding confirmed_fields
  confirmed_fields-AllGood [] gs = refl
  confirmed_fields-AllGood (r ∷ rs) gs =
      rw (new_key-Good allowed metadata r gs.0) (rw (confirmed_fields-AllGood rs gs.1) refl)

  pub reviewed_entries-AllGood :
      (rs : List Reviewed) (gs : AllGood rs)
      → reviewed_entries metadata rs ≡ ok (objects (entry_pairs rs gs))
  unfolding reviewed_entries
  reviewed_entries-AllGood [] gs = refl
  reviewed_entries-AllGood (r ∷ rs) gs = rw gs.0.found (rw (reviewed_entries-AllGood rs gs.1) refl)

  entry_pairs-named : (rs : List Reviewed) (gs : AllGood rs) → All NamesItself (entry_pairs rs gs)
  entry_pairs-named [] gs = tt
  entry_pairs-named (r ∷ rs) gs =
      (ap as_text (reviewed_entry-field_id gs.0.ms r) ∙ gs.0.named, entry_pairs-named rs gs.1)

  entry_pairs-ids :
      (rs : List Reviewed) (gs : AllGood rs) → ids_of (entry_pairs rs gs) ≡ row_ids (rows_of rs)
  entry_pairs-ids [] gs = refl
  entry_pairs-ids (r ∷ rs) gs = ap (λ rest. uuid_text r.0.id ∷ rest) (entry_pairs-ids rs gs.1)

  -- Every field is read from its own entry, in whatever metadata has the entries.
  all_values-AllGood :
      (found : Metadata) (rs : List Reviewed) (gs : AllGood rs)
      → All (λ p. metadata_of p.0 found ≡ some p.1) (entry_pairs rs gs)
      → all_values allowed found (confirmed_list rs) ≡ ok (reading rs)
  unfolding all_values
  all_values-AllGood found [] gs each = refl
  all_values-AllGood found (r ∷ rs) gs each = rw each.0 (
      rw (field_values-Good allowed metadata r gs.0) (
        rw (all_values-AllGood found rs gs.1 each.1) (
          ap ok (
            with_value-append (target_of r) (canonical_finite_decimal (some r.1.final_text))
              (reading rs)))))

  codes_in-reading :
      (rs : List Reviewed) → AllGood rs → codes_in (reading rs) ≡ mapped_codes true rs
  codes_in-reading [] gs = refl
  codes_in-reading (r ∷ rs) gs = elim gs.0.fate [
    | inl (d, t, _) ↦ rw d (codes_in-reading rs gs.1)
    | inr (code, v, d, t, _, is_v, _) ↦
        rw (d, t, is_v) (ap (λ rest. codes code ∷ rest) (codes_in-reading rs gs.1))
  ]

  counts :
      (rs : List Reviewed)
      → AllGood rs
      → length (mapped_codes true rs) + unmapped_count true rs ≡ length (confirmed_list rs)
  counts [] gs = refl
  counts (r ∷ rs) gs = elim gs.0.fate [
    | inl (d, t, _) ↦ rw d (omega (arith, counts rs gs.1))
    | inr (code, v, d, t, _, is_v, _) ↦ rw (d, t) (omega (arith, counts rs gs.1))
  ]

  -- The summary that a review leaves of its fields.
  abbrev summary_of : ℕ → List Reviewed → Members
  summary_of version rs =
      let targets = mapped_codes true rs in
      members (
        ("spec_version_id", str_uuid (some version))
        ∷ ("mapped_count", number (pos (length targets)))
        ∷ ("unmapped_count", number (pos (unmapped_count true rs)))
        ∷ ("target_codes", array (json_array (json_texts (sorted_codes targets))))
        ∷ [])

  check_summary-AllGood :
      (version : ℕ) (rs : List Reviewed)
      → AllGood rs
      → check_summary (summary_of version rs) (confirmed_list rs) (mapped_codes true rs) ≡ ok tt
  unfolding check_summary
  check_summary-AllGood version rs gs =
      let targets = mapped_codes true rs in
      let mapped : (length targets == length targets) ≡ true = ground arith in
      let others : (unmapped_count true rs == length (confirmed_list rs) - length targets) ≡ true =
        ground (arith, counts rs gs) in
      let listed : are_texts (json_items (json_array (json_texts (sorted_codes targets))))
            (sorted_codes targets)
          ≡ true =
        ap (λ js. are_texts js (sorted_codes targets))
          (json_items-json_array (json_texts (sorted_codes targets)))
        ∙ are_texts_refl (sorted_codes targets) in
      rw mapped (rw others (rw listed refl))

  payload_values-AllGood :
      (version : ℕ) (rs : List Reviewed) (gs : AllGood rs)
      → distinct (row_ids (rows_of rs)) ≡ true
      → distinct (mapped_codes true rs) ≡ true
      → payload_values
          (some (object (summary_of version rs)))
          (some (array (json_array (objects (entry_pairs rs gs)))))
          version
          allowed
          (confirmed_list rs)
        ≡ ok (reading rs)
  unfolding payload_values
  payload_values-AllGood version rs gs apart targets =
      let ps = entry_pairs rs gs in
      let different : distinct (ids_of ps) ≡ true = ap distinct (entry_pairs-ids rs gs) ∙ apart in
      let same : same_set (ids_of ps) (row_ids (confirmed_list rs)) ≡ true =
        ap (same_set (ids_of ps)) (row_ids-confirmed_list rs ∙ sym (entry_pairs-ids rs gs))
        ∙ same_set_refl (ids_of ps) in
      let dict =
        metadata_by_id-objects mapping_identity_invalid duplicate_mapping_identity ps []
          (entry_pairs-named rs gs) different (none_seen ps) in
      let values = all_values-AllGood ps rs gs (metadata_of-each ps different) in
      rw (text_eq_refl (uuid_text version)) (
        rw (json_items-json_array (objects ps)) (
          rw dict (
            rw same (
              rw values (
                rw (codes_in-reading rs gs)
                  (rw targets (rw (check_summary-AllGood version rs gs) refl)))))))
    where
      none_seen : (qs : Metadata) → All (λ (p : Text × Members). holds [] p.0 ≡ false) qs
      none_seen [] = tt
      none_seen (p ∷ qs) = (refl, none_seen qs)

  -- What a review leaves is read as it was entered, as long as the fields' identifiers differ and no
  -- two are mapped to one code.
  pub local_values-AllGood :
      (payload : Members) (version : ℕ) (rs : List Reviewed) (gs : AllGood rs)
      → distinct (row_ids (rows_of rs)) ≡ true
      → distinct (mapped_codes true rs) ≡ true
      → local_values
          (reviewed_payload payload (some version) (objects (entry_pairs rs gs)) rs)
          version
          allowed
          (confirmed_list rs)
        ≡ ok (reading rs)
  unfolding local_values
  local_values-AllGood payload version rs gs apart targets =
      let summary : Json = object (summary_of version rs) in
      let listed : Json = array (json_array (objects (entry_pairs rs gs))) in
      let inner = set_item (codes "fields") listed payload in
      let fs = confirmed_list rs in
      ap
        (λ x.
          payload_values x (get_item (codes "fields") (set_item (codes "review") summary inner))
            version allowed fs)
        (get_item-set_item (codes "review") summary inner)
      ∙ ap (λ x. payload_values (some summary) x version allowed fs)
          (get_item-set_other (codes "fields") (codes "review") summary inner refl
            ∙ get_item-set_item (codes "fields") listed payload)
      ∙ payload_values-AllGood version rs gs apart targets
