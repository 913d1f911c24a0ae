-- ===== src/Examples/Specs.antt =====
-- The versions of a specification that specs.py selects from.
use hanyangchem_qc_v.Base.{◌≡◌, refl, ◌↔◌, true, none, some, List, [], ◌∷◌, All, Any, filter, ok}
use hanyangchem_qc_v.Specs.{
  SpecVersion, active, is_active, check_version, validate_no_active_overlap, select_effective_spec,
  is_candidate, effective_on, pick_first, sort_ranked, insert_ranked, ranks_before,
}
use hanyangchem_qc_v.Specs.Selection.{Tops, select-ok}
use hanyangchem_qc_v.Specs.Overlap.{Pairs, Disjoint, validate_no_active_overlap-ok_iff}

-- For every supplier of material 1, and for its supplier 2.
abbrev general : SpecVersion
general = record {
  id = 10;
  scope = record { material_id = 1; supplier_id = none; model_id = none };
  version = 3;
  status = active;
  effective_from = 100;
  effective_to = none;
}

abbrev special : SpecVersion
special = record {
  id = 11;
  scope = record { material_id = 1; supplier_id = some 2; model_id = none };
  version = 1;
  status = active;
  effective_from = 150;
  effective_to = some 200;
}

abbrev versions : List SpecVersion
versions = general ∷ special ∷ []

versions-special : select_effective_spec versions 1 (some 2) none 160 ≡ ok special
unfolding select_effective_spec pick_first sort_ranked insert_ranked ranks_before is_candidate
    effective_on
versions-special = refl

select-ok_example :
    Any (λ t. t ≡ special) versions
    × (is_candidate 1 (some 2) none 160 special ≡ true)
    × All (λ t. is_candidate 1 (some 2) none 160 t ≡ true → Tops special t) versions
select-ok_example = select-ok 1 (some 2) none 160 versions versions-special

versions-valid : All (λ s. check_version s ≡ ok tt) versions
unfolding check_version
versions-valid = (refl, (refl, tt))

validate_no_active_overlap-ok_iff_example :
    (validate_no_active_overlap versions ≡ ok tt)
    ↔ Pairs Disjoint (filter (λ s. is_active s.status) versions)
validate_no_active_overlap-ok_iff_example =
    validate_no_active_overlap-ok_iff versions versions-valid
