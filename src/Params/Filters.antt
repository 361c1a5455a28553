-- ===== src/Params/Filters.antt =====
-- internal/params/filters.go: the pipe filters of a placeholder.
pub mod Labels
use fusion_wizard.Prelude.{
  ℕ, zero, suc, Bool, false, Option, none, some, [], ◌∷◌, ◌≡◌, refl, Text, codes, ltb, length, take,
  drop, is_empty, if◌then◌else◌,
}
use fusion_wizard.Params.Ascii.{
  to_lower, to_lower_byte, collapse, trim, trim_right, last_index, has_byte,
}

abbrev pub max_k8s_name : ℕ
max_k8s_name = 63

-- the name once trimmed
pub bound_name : Text → Text
bound_name name =
    if is_empty name
    then codes "x"
    else if ltb max_k8s_name (length name)
    then trim_right (take max_k8s_name name)
    else name

unfoldable pub k8s_name : Text → Text
unfolding bound_name to_lower collapse trim trim_right
k8s_name s = bound_name (trim (collapse false (to_lower s)))

cut_at : Text → Option ℕ → Text
cut_at s none = s
cut_at s (some zero) = s
cut_at s (some (suc i)) = if has_byte b'/' (drop (suc i) s) then s else take (suc i) s

unfoldable pub stem : Text → Text
unfolding cut_at last_index has_byte
stem s = cut_at s (last_index b'.' s)

-- the filters, by their names in `filters`
pub data Filter : Type 0 where
  lower_filter stem_filter k8s_name_filter : Filter

unfoldable pub apply_filter : Filter → Text → Text
unfolding to_lower stem k8s_name
apply_filter lower_filter s = to_lower s
apply_filter stem_filter s = stem s
apply_filter k8s_name_filter s = k8s_name s

k8s_name_test : k8s_name (codes "--My App_v1.0!") ≡ codes "my-app-v1-0"
unfolding k8s_name to_lower_byte
k8s_name_test = refl

stem_test : stem (codes "a/main.py") ≡ codes "a/main"
unfolding stem
stem_test = refl
