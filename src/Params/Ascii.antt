-- ===== src/Params/Ascii.antt =====
-- What the sources use of Go's `strings` and of the pattern `[^a-z0-9]+`, on ASCII texts.
--
-- `ToLower` and `TrimSpace` know all of Unicode; these know the ASCII letters and white space, so
-- the model speaks of texts whose other bytes they leave alone.
use fusion_wizard.Prelude.{
  ℕ, suc, ◌+◌, Bool, true, false, not, ◌&&◌, ◌||◌, Option, none, some, List, [], ◌∷◌, ◌++◌, Text,
  leb, ◌==◌, if◌then◌else◌, is_empty, map,
}
use mathlib.Core.Option

abbrev is_upper : ℕ → Bool
is_upper c = leb b'A' c && leb c b'Z'

-- `strings.Join`
unfoldable pub join_with : Text → List Text → Text
join_with separator [] = []
join_with separator (p ∷ []) = p
join_with separator (p ∷ q ∷ ps) = p ++ separator ++ join_with separator (q ∷ ps)

unfoldable pub to_lower_byte : ℕ → ℕ
to_lower_byte c = if is_upper c then c + 32 else c

unfoldable pub to_lower : Text → Text
to_lower s = map to_lower_byte s

-- `[a-z0-9]`
abbrev pub is_alnum : ℕ → Bool
is_alnum c = leb b'a' c && leb c b'z' || leb b'0' c && leb c b'9'

-- `ReplaceAllString(s, "-")` for `[^a-z0-9]+`; the flag is set inside a run
unfoldable pub collapse : Bool → Text → Text
collapse inside [] = []
collapse inside (c ∷ cs) =
    let rest = collapse (not (is_alnum c)) cs in
    if is_alnum c then c ∷ rest else if inside then rest else b'-' ∷ rest

-- `strings.TrimLeft(s, "-")`, `strings.TrimRight(s, "-")` and `strings.Trim(s, "-")`
unfoldable pub trim_left : Text → Text
trim_left [] = []
trim_left (c ∷ cs) = if c == b'-' then trim_left cs else c ∷ cs

unfoldable pub trim_right : Text → Text
trim_right [] = []
trim_right (c ∷ cs) =
    let rest = trim_right cs in if c == b'-' && is_empty rest then [] else c ∷ rest

unfoldable pub trim : Text → Text
unfolding trim_left trim_right
trim s = trim_right (trim_left s)

abbrev is_space : ℕ → Bool
is_space c = c == 32 || leb 9 c && leb c 13

space_left : Text → Text
space_left [] = []
space_left (c ∷ cs) = if is_space c then space_left cs else c ∷ cs

space_right : Text → Text
space_right [] = []
space_right (c ∷ cs) =
    let rest = space_right cs in if is_space c && is_empty rest then [] else c ∷ rest

-- `strings.TrimSpace`
unfoldable pub trim_space : Text → Text
unfolding space_left space_right
trim_space s = space_right (space_left s)

-- `strings.IndexByte`
unfoldable pub index_byte : ℕ → Text → Option ℕ
index_byte b [] = none
index_byte b (c ∷ cs) = if c == b then some 0 else Option.map suc (index_byte b cs)

later_index : Option ℕ → Bool → Option ℕ
later_index (some i) here = some (suc i)
later_index none here = if here then some 0 else none

-- `strings.LastIndex` of a one-byte text
unfoldable pub last_index : ℕ → Text → Option ℕ
unfolding later_index
last_index b [] = none
last_index b (c ∷ cs) = later_index (last_index b cs) (c == b)

unfoldable pub has_byte : ℕ → Text → Bool
has_byte b [] = false
has_byte b (c ∷ cs) = c == b || has_byte b cs

unfoldable pub has_prefix : Text → Text → Bool
has_prefix [] s = true
has_prefix (p ∷ ps) [] = false
has_prefix (p ∷ ps) (c ∷ cs) = p == c && has_prefix ps cs

unfoldable pub add_to_first : ℕ → List Text → List Text
add_to_first c [] = (c ∷ []) ∷ []
add_to_first c (p ∷ ps) = (c ∷ p) ∷ ps

-- `strings.Split` by one byte
unfoldable pub split : ℕ → Text → List Text
unfolding add_to_first
split b [] = [] ∷ []
split b (c ∷ cs) = let rest = split b cs in if c == b then [] ∷ rest else add_to_first c rest
