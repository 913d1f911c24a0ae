-- ===== src/Specs.antt =====
-- Specification versions, their scopes and effective ranges (backend/src/hyc_domain/specs.py).
-- Identifiers are numbers, a date is its ordinal. The rules of the same file are in Rules.
pub mod Selection
pub mod Overlap
use hanyangchem_qc_v.Base.{
  ℕ, suc, ◌+◌, ◌≡◌, Bool, true, false, not, ◌&&◌, ◌||◌, Option, none, some, List, [], ◌∷◌, filter,
  any, ltb, leb, ◌==◌, if◌then◌else◌, is_none, opt_eq, Result, ok, err, ◌>>◌, raise_if,
}

pub data SpecStatus : Type 0 where
  draft active retired : SpecStatus

abbrev pub is_active : SpecStatus → Bool
is_active active = true
is_active _ = false

pub record SpecScope : Type 0 where
  pub material_id : ℕ
  pub supplier_id : Option ℕ
  pub model_id : Option ℕ

abbrev pub int : Bool → ℕ
int true = 1
int false = 0

abbrev pub specificity : SpecScope → ℕ
specificity s = int (not (is_none s.supplier_id)) + int (not (is_none s.model_id))

abbrev pub scope_matches : SpecScope → ℕ → Option ℕ → Option ℕ → Bool
scope_matches s material supplier model =
    s.material_id == material
    && (is_none s.supplier_id || opt_eq s.supplier_id supplier)
    && (is_none s.model_id || opt_eq s.model_id model)

abbrev pub same_scope : SpecScope → SpecScope → Bool
same_scope s t =
    s.material_id == t.material_id
    && opt_eq s.supplier_id t.supplier_id
    && opt_eq s.model_id t.model_id

pub record SpecVersion : Type 0 where
  pub id : ℕ
  pub scope : SpecScope
  pub version : ℕ
  pub status : SpecStatus
  pub effective_from : ℕ
  pub effective_to : Option ℕ

-- The messages of the errors that specs.py raises.
pub data SpecError : Type 0 where
  bad_version range_reversed ranges_overlap none_effective ambiguous : SpecError

abbrev pub before : Option ℕ → ℕ → Bool
before none d = false
before (some e) d = ltb e d

-- `__post_init__`.
unfoldable pub check_version : SpecVersion → Result SpecError (Unit {0})
check_version s =
    raise_if (s.version == 0) bad_version
    >> raise_if (before s.effective_to s.effective_from) range_reversed

unfoldable pub effective_on : SpecVersion → ℕ → Bool
effective_on s when = leb s.effective_from when && not (before s.effective_to when)

-- `left.effective_from <= (right.effective_to or date.max)`; a date is never after the last one.
abbrev pub starts_by_end_of : SpecVersion → SpecVersion → Bool
starts_by_end_of left right = not (before right.effective_to left.effective_from)

unfoldable pub ranges_meet : SpecVersion → SpecVersion → Bool
ranges_meet left right =
    same_scope left.scope right.scope && starts_by_end_of left right && starts_by_end_of right left

-- The two loops over the active versions.
unfoldable pub check_overlaps : List SpecVersion → Result SpecError (Unit {0})
unfolding ranges_meet
check_overlaps [] = ok tt
check_overlaps (left ∷ rest) =
    let later = check_overlaps rest in
    raise_if (any (ranges_meet left) rest) ranges_overlap >> later

unfoldable pub validate_no_active_overlap : List SpecVersion → Result SpecError (Unit {0})
unfolding check_overlaps
validate_no_active_overlap specs = check_overlaps (filter (λ s. is_active s.status) specs)

-- The sort key `(specificity, version)`, in descending order; the sort is stable.
unfoldable pub ranks_before : SpecVersion → SpecVersion → Bool
ranks_before s t =
    ltb (specificity t.scope) (specificity s.scope)
    || specificity s.scope == specificity t.scope && ltb t.version s.version

-- Stable sorting by insertion: behind every version that does not rank below it.
unfoldable pub insert_ranked : SpecVersion → List SpecVersion → List SpecVersion
unfolding ranks_before
insert_ranked s [] = s ∷ []
insert_ranked s (t ∷ ts) =
    let rest = insert_ranked s ts in if ranks_before t s then t ∷ rest else s ∷ t ∷ ts

unfoldable pub sort_ranked : List SpecVersion → List SpecVersion
unfolding insert_ranked
sort_ranked [] = []
sort_ranked (s ∷ ss) = insert_ranked s (sort_ranked ss)

unfoldable pub is_candidate : ℕ → Option ℕ → Option ℕ → ℕ → SpecVersion → Bool
unfolding effective_on
is_candidate material supplier model when s =
    is_active s.status && scope_matches s.scope material supplier model && effective_on s when

unfoldable pub pick_first : List SpecVersion → Result SpecError SpecVersion
pick_first [] = err none_effective
pick_first (s ∷ []) = ok s
pick_first (s ∷ t ∷ rest) =
    if specificity s.scope == specificity t.scope then err ambiguous else ok s

unfoldable pub select_effective_spec :
    List SpecVersion → ℕ → Option ℕ → Option ℕ → ℕ → Result SpecError SpecVersion
unfolding pick_first sort_ranked is_candidate
select_effective_spec specs material supplier model when =
    pick_first (sort_ranked (filter (is_candidate material supplier model when) specs))
