-- ===== src/Services/Creation/Reading.antt =====
-- About the fields of a confirmed review of p3.py, one by one: what their metadata says and which
-- value an inspection takes from them.
use hanyangchem_qc_v.Base.{
  ◌≡◌, refl, sym, ap, ◌∙◌, ◌⊎◌, inl, inr, Bool, true, false, Option, none, some, List, [], ◌∷◌,
  is_none, not, String, if◌then◌else◌, raise_if-ok, ok-injective, ok,
}
use hanyangchem_qc_v.Base.Text.{codes, text_eq_refl}
use hanyangchem_qc_v.PyDecimal.{Decimal}
use hanyangchem_qc_v.Snapshots.{Text, Json, Members, string}
use hanyangchem_qc_v.Store.{ExtractionFieldReview}
use hanyangchem_qc_v.Approval.Rows.{uuid_text}
use hanyangchem_qc_v.Services.{target_outside_spec, mapped_not_canonical}
use hanyangchem_qc_v.Services.Selection.{or_json_null}
use hanyangchem_qc_v.Services.Payload.{
  holds, get_item, set_item, as_text, Metadata, metadata_of, canonical_finite_decimal,
}
use hanyangchem_qc_v.Services.Payload.Items.{get_item-set_item, get_item-set_other}
use hanyangchem_qc_v.Services.Review.Mapping.{
  Disposition, mapped, unmapped, disposition_json, mapped_code,
}
use hanyangchem_qc_v.Services.Review.Writes.{
  Reviewed, is_mapped, new_key, confirmed_field, reviewed_entry,
}
use hanyangchem_qc_v.Services.Creation.Values.{ItemValues, item_values, field_values}

-- What a field is mapped to, its key behind the review, and the value that is read.
abbrev pub target_of : Reviewed → Option String
target_of (f, i) = if is_mapped i.mapping_disposition then i.mapped_field_key else none

abbrev pub reviewed_key : Reviewed → String
reviewed_key r = elim (target_of r) [ none ↦ r.0.field_key | some t ↦ t ]

abbrev pub with_value : Option String → Option Decimal → ItemValues → ItemValues
with_value (some t) (some v) rest = (codes t, v) ∷ rest
with_value _ _ rest = rest

abbrev pub reading : List Reviewed → ItemValues
reading [] = []
reading (r ∷ rs) =
    let rest = reading rs in
    with_value (target_of r) (canonical_finite_decimal (some r.1.final_text)) rest

-- A field is left unmapped, or is mapped to a code that is allowed and has a value.
abbrev pub Fate : List Text → Option Disposition → Option String → String → List Text → Type 0
Fate allowed d t final cs =
    ((d ≡ some unmapped) × (t ≡ none) × (cs ≡ []))
    ⊎ ((code : String) × (v : Decimal) × (d ≡ some mapped)
        × (t ≡ some code)
        × (holds allowed (codes code) ≡ true)
        × (canonical_finite_decimal (some final) ≡ some v)
        × (cs ≡ codes code ∷ []))

pub mapped_code-Fate :
    (allowed : List Text) (d : Option Disposition) (t : Option String) (final : String)
    {cs : List Text}
    → mapped_code allowed d t final ≡ ok cs
    → Fate allowed d t final cs
unfolding mapped_code
mapped_code-Fate allowed none t final h = absurd (cc h)
mapped_code-Fate allowed (some unmapped) (some t) final h = absurd (cc h)
mapped_code-Fate allowed (some unmapped) none final {cs = cs} h =
    inl (refl, refl, sym (ok-injective [] cs h))
mapped_code-Fate allowed (some mapped) none final h = absurd (cc h)
mapped_code-Fate allowed (some mapped) (some t) final {cs = cs} h =
    let (inside, h1) = raise_if-ok (not (holds allowed (codes t))) target_outside_spec _ h in
    let (number, h2) =
      raise_if-ok (is_none (canonical_finite_decimal (some final))) mapped_not_canonical _ h1 in
    let (v, is_v) = has_value (canonical_finite_decimal (some final)) number in
    inr
      (t, v, refl, refl, negated (holds allowed (codes t)) inside, is_v, sym (ok-injective _ cs h2))
  where
    negated : (b : Bool) → not b ≡ false → b ≡ true
    negated true h = refl
    negated false h = cc

    has_value : (o : Option Decimal) → is_none o ≡ false → (v : Decimal) × (o ≡ some v)
    has_value none h = absurd (cc h)
    has_value (some v) h = (v, refl)

-- A field whose metadata names it and its key, and whose mapping has passed the checks.
pub record Good (allowed : List Text) (metadata : Metadata) (r : Reviewed) : Type 0 where
  pub ms : Members
  pub cs : List Text
  pub found : metadata_of (uuid_text r.0.id) metadata ≡ some ms
  pub named : as_text (get_item (codes "field_id") ms) ≡ some (uuid_text r.0.id)
  pub source : as_text (get_item (codes "source_field_key") ms) ≡ some (codes r.0.field_key)
  pub fate : Fate allowed r.1.mapping_disposition r.1.mapped_field_key r.1.final_text cs

module _ (ms : Members) (r : Reviewed) where
  abbrev left : Members
  left = reviewed_entry ms r.1

  abbrev disposed : Json
  disposed = disposition_json r.1.mapping_disposition

  abbrev aimed : Json
  aimed = or_json_null (λ t. string (codes t)) r.1.mapped_field_key

  abbrev inner : Members
  inner = set_item (codes "mapping_disposition") disposed ms

  pub reviewed_entry-field_id : get_item (codes "field_id") left ≡ get_item (codes "field_id") ms
  reviewed_entry-field_id =
      get_item-set_other (codes "field_id") (codes "mapped_field_key") aimed inner refl
      ∙ get_item-set_other (codes "field_id") (codes "mapping_disposition") disposed ms refl

  reviewed_entry-source :
      get_item (codes "source_field_key") left ≡ get_item (codes "source_field_key") ms
  reviewed_entry-source =
      get_item-set_other (codes "source_field_key") (codes "mapped_field_key") aimed inner refl
      ∙ get_item-set_other (codes "source_field_key") (codes "mapping_disposition") disposed ms refl

  reviewed_entry-disposition :
      get_item (codes "mapping_disposition") left ≡ some (disposition_json r.1.mapping_disposition)
  reviewed_entry-disposition =
      get_item-set_other (codes "mapping_disposition") (codes "mapped_field_key") aimed inner refl
      ∙ get_item-set_item (codes "mapping_disposition") disposed ms

  reviewed_entry-target :
      get_item (codes "mapped_field_key") left
      ≡ some (or_json_null (λ t. string (codes t)) r.1.mapped_field_key)
  reviewed_entry-target = get_item-set_item (codes "mapped_field_key") aimed inner

module _ (allowed : List Text) (metadata : Metadata) (r : Reviewed)
    (g : Good allowed metadata r) where
  pub new_key-Good : new_key true r ≡ ok (reviewed_key r)
  new_key-Good = elim g.fate [
    | inl (d, t, _) ↦ rw (d) refl
    | inr (code, v, d, t, _, _, _) ↦ rw (d, t) refl
  ]

  -- An inspection reads from the field that a review leaves what the review has entered.
  pub field_values-Good :
      field_values allowed (reviewed_entry g.ms r.1) (confirmed_field (reviewed_key r) r)
      ≡ ok (reading (r ∷ []))
  unfolding field_values
  field_values-Good =
      ap (λ s. item_values allowed f s d t) (ap as_text (reviewed_entry-source g.ms r) ∙ g.source)
      ∙ ap (λ x. item_values allowed f (some (codes r.0.field_key)) x t)
          (ap as_text (reviewed_entry-disposition g.ms r))
      ∙ ap
          (item_values allowed f (some (codes r.0.field_key))
            (as_text (some (disposition_json r.1.mapping_disposition))))
          (reviewed_entry-target g.ms r)
      ∙ by_fate g.fate
    where
      f : ExtractionFieldReview
      f = confirmed_field (reviewed_key r) r

      d : Option Text
      d = as_text (get_item (codes "mapping_disposition") (reviewed_entry g.ms r.1))

      t : Option Json
      t = get_item (codes "mapped_field_key") (reviewed_entry g.ms r.1)

      by_fate :
          Fate allowed r.1.mapping_disposition r.1.mapped_field_key r.1.final_text g.cs
          → item_values allowed
              (confirmed_field (reviewed_key r) r)
              (some (codes r.0.field_key))
              (as_text (some (disposition_json r.1.mapping_disposition)))
              (some (or_json_null (λ t. string (codes t)) r.1.mapped_field_key))
            ≡ ok (reading (r ∷ []))
      by_fate (inl (d, t, _)) = rw (d, t) (rw (text_eq_refl (codes r.0.field_key)) refl)
      by_fate (inr (code, v, d, t, inside, is_v, _)) =
          rw (d, t) (rw inside (rw (text_eq_refl (codes code)) (rw is_v refl)))
