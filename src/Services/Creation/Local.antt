-- ===== src/Services/Creation/Local.antt =====
-- What a review of a local run of p3.py that passes its checks is known for.
use hanyangchem_qc_v.Base.{
  ℕ, ◌≡◌, refl, sym, ap, ◌∙◌, subst, Bool, true, false, not, ◌||◌, Option, none, some, List, [],
  All, opt_eq, length, ==_iff, ◌==◌, bind-ok, raise_if-ok, ok-injective, ok_parts, ok, err,
}
use hanyangchem_qc_v.Snapshots.{Text}
use hanyangchem_qc_v.Store.{ExtractionFieldReview, Store}
use hanyangchem_qc_v.Approval.{Candidate}
use hanyangchem_qc_v.Services.{
  source_identity_invalid, duplicate_source_ids, stale_source_ids, stale_specification,
  duplicate_targets,
}
use hanyangchem_qc_v.Services.Selection.{or_fail, select_spec}
use hanyangchem_qc_v.Services.Payload.{distinct, same_set, as_list, metadata_by_id, ids_of}
use hanyangchem_qc_v.Services.Payload.Items.{NamesItself}
use hanyangchem_qc_v.Services.Payload.Named.{metadata_by_id-named}
use hanyangchem_qc_v.Services.Review.{
  ReviewRequest, Review, row_ids, submitted_ids, is_local, payload_fields, check_mappings,
  check_local, check_source,
}
use hanyangchem_qc_v.Services.Review.Mapping.{spec_codes}
use hanyangchem_qc_v.Services.Creation.Targets.{Fits, targets, check_mappings-Fits}

-- The checks of a local run, each of which has gone through.
pub record Local (store : Store) (r : Review) (q : ReviewRequest) : Type 0 where
  pub spec : Candidate
  pub selected : select_spec store r.allocation ≡ ok spec
  pub version : q.spec_version_id ≡ some spec.0.id
  pub fits : All (Fits (spec_codes store spec.0.id)) q.fields
  pub apart : distinct (targets q.fields) ≡ true
  pub named : All NamesItself r.metadata

pub negated : (b : Bool) → not b ≡ false → b ≡ true
negated true h = refl
negated false h = cc

opt_eq-some : (o : Option ℕ) (n : ℕ) → opt_eq o (some n) ≡ true → o ≡ some n
opt_eq-some none n h = cc
opt_eq-some (some m) n h = ap some ((==_iff m n).0 h)

check_local-Local :
    (store : Store) (r : Review) (q : ReviewRequest) (fields : List ExtractionFieldReview)
    → check_local store r.run fields q r.allocation ≡ ok r.metadata
    → Local store r q
unfolding check_local
check_local-Local store r q fields h =
    let (entries, _, h1) =
      bind-ok (or_fail (as_list (some (payload_fields r.run))) (err source_identity_invalid)) _ h in
    let (metadata, dict, h2) =
      bind-ok (metadata_by_id source_identity_invalid duplicate_source_ids entries []) _ h1 in
    let (_, h3) =
      raise_if-ok (not (same_set (ids_of metadata) (row_ids fields))) source_identity_invalid _
        h2 in
    let ids = submitted_ids q.fields in
    let (_, h4) =
      raise_if-ok (not (length ids == length q.fields) || not (distinct ids)) stale_source_ids _
        h3 in
    let (_, h5) = raise_if-ok (not (same_set ids (row_ids fields))) stale_source_ids _ h4 in
    let (spec, selected, h6) = bind-ok (select_spec store r.allocation) _ h5 in
    let (version, h7) =
      raise_if-ok (not (opt_eq q.spec_version_id (some spec.0.id))) stale_specification _ h6 in
    let (cs, mapped, h8) =
      bind-ok (check_mappings fields metadata (spec_codes store spec.0.id) q.fields) _ h7 in
    let (apart, h9) = raise_if-ok (not (distinct cs)) duplicate_targets _ h8 in
    let (fits, are) =
      check_mappings-Fits fields metadata (spec_codes store spec.0.id) q.fields mapped in
    record {
      spec = spec;
      selected = selected;
      version = opt_eq-some q.spec_version_id spec.0.id (negated _ version);
      fits = fits;
      apart = ap distinct (sym are) ∙ negated (distinct cs) apart;
      named =
          subst (All NamesItself) (ok-injective metadata r.metadata h9)
            (metadata_by_id-named source_identity_invalid duplicate_source_ids entries [] dict tt);
    }

pub check_source-Local :
    (store : Store) (r : Review) (q : ReviewRequest) (fields : List ExtractionFieldReview)
    (numeric : List Text)
    → is_local r.run ≡ true
    → check_source store r.run fields q r.allocation ≡ ok (r.metadata, numeric)
    → Local store r q
unfolding check_source
check_source-Local store r q fields numeric is_local h =
    let (metadata, checked, h1) =
      bind-ok (check_local store r.run fields q r.allocation) _ (rw is_local at h) in
    check_local-Local store r q fields
      (checked ∙ ap ok (ok_parts metadata r.metadata [] numeric h1).0)
