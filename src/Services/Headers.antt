-- ===== src/Services/Headers.antt =====
-- The headers that the services of backend/src/hyc_api/services/p3.py read. A header is the code
-- points of its text, each below 256, as HTTP has it.
pub mod Bounds
use hanyangchem_qc_v.Base.{
  ℕ, ◌+◌, true, false, not, ◌&&◌, ◌||◌, Bool, Option, none, some, List, [], ◌∷◌, length, all,
  is_empty, ltb, ◌==◌, if◌then◌else◌, ok, err, ◌>>=◌, ◌>>◌, raise_if,
}
use hanyangchem_qc_v.Base.Text.{is_space}
use hanyangchem_qc_v.PyDecimal.Digits.{is_digit, digits_value}
use hanyangchem_qc_v.Snapshots.{Text}
use hanyangchem_qc_v.Services.{
  Service, if_match_required, if_match_not_positive, key_required, bad_integer,
}

-- `text.lstrip`, `text.rstrip` and `text.strip`, of the characters that pass a test.
unfoldable pub lstrip_by : (ℕ → Bool) → Text → Text
lstrip_by test [] = []
lstrip_by test (c ∷ cs) = let rest = lstrip_by test cs in if test c then rest else c ∷ cs

unfoldable pub rstrip_by : (ℕ → Bool) → Text → Text
rstrip_by test [] = []
rstrip_by test (c ∷ cs) =
    let rest = rstrip_by test cs in if test c && is_empty rest then [] else c ∷ rest

unfoldable pub strip_by : (ℕ → Bool) → Text → Text
unfolding lstrip_by rstrip_by
strip_by test t = rstrip_by test (lstrip_by test t)

abbrev pub is_quote : ℕ → Bool
is_quote c = c == b'"'

-- `str.isdigit` of one of these characters: `int` takes no superscript.
abbrev pub is_superscript : ℕ → Bool
is_superscript c = c == 178 || c == 179 || c == 185

abbrev pub counts_as_digit : ℕ → Bool
counts_as_digit c = is_digit c || is_superscript c

abbrev pub isdigit : Text → Bool
isdigit t = not (is_empty t) && all counts_as_digit t

-- `int(text)` of a text of digits.
unfoldable pub int_of : Text → Service ℕ
int_of t = raise_if (not (all is_digit t)) bad_integer >> ok (digits_value t)

-- `require_if_match`.
unfoldable pub require_if_match : Option Text → Service ℕ
unfolding strip_by int_of
require_if_match none = err if_match_required
require_if_match (some raw) = do
  let version_text = strip_by is_quote (strip_by is_space raw)
  raise_if (not (isdigit version_text)) if_match_not_positive
  version ← int_of version_text
  raise_if (ltb version 1) if_match_not_positive
  ok version

-- `require_idempotency_key`.
unfoldable pub require_idempotency_key : Option Text → Service Text
unfolding strip_by
require_idempotency_key none = err key_required
require_idempotency_key (some raw) =
    raise_if (is_empty (strip_by is_space raw) || ltb 256 (length raw)) key_required
    >> ok (strip_by is_space raw)
