-- ===== src/Params/Template.antt =====
-- internal/params/template.go: parsing a text with placeholders.
--
-- The loop of `Parse` walks the bytes; `i += n` is a count of bytes to skip. What is read so far is
-- passed along: the literal text `lit` and the segments.
pub mod Escape
use fusion_wizard.Prelude.{
  ℕ, zero, suc, ◌+◌, Bool, true, false, not, ◌&&◌, ◌||◌, Option, none, some, List, [], ◌∷◌, ◌++◌,
  Text, codes, text_eq, is_empty, take, drop, length, if◌then◌else◌, ◌≡◌, refl,
}
use fusion_wizard.Errors.{Message, format, end, text_arg, Error, plain}
use fusion_wizard.Action.{Result, ok, err}
use fusion_wizard.Params.Ascii.{trim_space, index_byte, has_prefix, split}
use fusion_wizard.Params.Filters.{Filter, lower_filter, stem_filter, k8s_name_filter}

pub data RefKind : Type 0 where
  ref_params ref_config ref_steps ref_item : RefKind

-- `filters` holds the filters themselves, which the source looks up again by name to apply them.
pub record Ref : Type 0 where
  pub kind : RefKind
  pub name : Text
  pub key : Text
  pub filters : List Filter
  pub raw : Text

pub data Segment : Type 0 where
  literal : Text → Segment
  placeholder : Ref → Segment

abbrev pub Template : Type 0
Template = List Segment

-- the map `filters`
unfoldable pub find_filter : Text → Option Filter
find_filter f =
    if text_eq f (codes "lower")
    then some lower_filter
    else if text_eq f (codes "stem")
    then some stem_filter
    else if text_eq f (codes "k8sName")
    then some k8s_name_filter
    else none

-- the loop over `parts[1:]`
parse_filters : Text → List Text → Result (List Filter)
parse_filters raw [] = ok []
parse_filters raw (f ∷ fs) = elim (find_filter (trim_space f)) [
  | none ↦ err (
      plain (
        format "invalid reference ${%s}: unknown filter %q (known: k8sName, lower, stem)"
          (text_arg raw (text_arg (trim_space f) end))))
  | some g ↦ elim (parse_filters raw fs) [ ok gs ↦ ok (g ∷ gs) | err x ↦ err x ]
]

-- the `switch` on the path; `none` is its default
abbrev path_kind : List Text → Option (RefKind × Text × Text)
path_kind (a ∷ []) = if text_eq a (codes "item") then some (ref_item, [], []) else none
path_kind (a ∷ b ∷ []) =
    if text_eq a (codes "item") && not (is_empty b)
    then some (ref_item, b, [])
    else if text_eq a (codes "params") && not (is_empty b)
    then some (ref_params, b, [])
    else if text_eq a (codes "config") && not (is_empty b)
    then some (ref_config, b, [])
    else none
path_kind (a ∷ b ∷ c ∷ d ∷ []) =
    if text_eq a (codes "steps")
      && text_eq c (codes "outputs")
      && not (is_empty b)
      && not (is_empty d)
    then some (ref_steps, b, d)
    else none
path_kind _ = none

parse_path : Text → List Text → Result Ref
unfolding parse_filters
parse_path expr [] = err (plain (format "unreachable: a split has a first part" end))
parse_path expr (first ∷ rest) = elim (path_kind (split b'.' (trim_space first))) [
  | none ↦ err (
      plain (
        format
          "invalid reference ${%s}: want params.<name>, config.<key>, steps.<step>.outputs.<key>, item or item.<field>"
          (text_arg (trim_space expr) end)))
  | some (kind, name, key) ↦ elim (parse_filters (trim_space expr) rest) [
    | err x ↦ err x
    | ok fs ↦
        ok (record { kind = kind; name = name; key = key; filters = fs; raw = trim_space expr })
  ]
]

unfoldable pub parse_ref : Text → Result Ref
unfolding parse_path split trim_space find_filter
parse_ref expr = parse_path expr (split b'|' expr)

-- what stands at the current position
pub data Piece : Type 0 where
  escaped : Piece
  reference : Ref → ℕ → Piece
  byte : Piece
  refused : Error → Piece

pub reference_piece : Text → Option ℕ → Text → Piece
unfolding parse_ref
reference_piece whole none after =
    refused (plain (format "unterminated placeholder in %q" (text_arg whole end)))
reference_piece whole (some stop) after = elim (parse_ref (take stop after)) [
  | ok r ↦ reference r stop
  | err x ↦ refused x
]

unfoldable pub piece_at : Text → Text → Piece
unfolding reference_piece has_prefix index_byte
piece_at whole s =
    if has_prefix (codes "$${") s
    then escaped
    else if has_prefix (codes "${") s
    then reference_piece whole (index_byte b'}' (drop 2 s)) (drop 2 s)
    else byte

-- the closure `flush`
abbrev pub flush : Text → Template → Template
flush [] t = t
flush (c ∷ cs) t = t ++ literal (c ∷ cs) ∷ []

pub parse_loop : Text → Text → ℕ → Text → Template → Result Template
parse_loop whole [] skip lit t = ok (flush lit t)
parse_loop whole (c ∷ cs) (suc skip) lit t = parse_loop whole cs skip lit t
parse_loop whole (c ∷ cs) zero lit t = elim (piece_at whole (c ∷ cs)) [
  | escaped ↦ parse_loop whole cs 2 (lit ++ codes "${") t
  | reference r stop ↦ parse_loop whole cs (stop + 2) [] (flush lit t ++ placeholder r ∷ [])
  | byte ↦ parse_loop whole cs 0 (lit ++ c ∷ []) t
  | refused x ↦ err x
]

unfoldable pub parse : Text → Result Template
unfolding parse_loop piece_at
parse s = parse_loop s s 0 [] []

unfoldable pub refs : Template → List Ref
refs [] = []
refs (literal s ∷ rest) = refs rest
refs (placeholder r ∷ rest) = r ∷ refs rest

parse_test :
    parse (codes "a-${ params.name | lower}$${x}")
    ≡ ok (
        literal (codes "a-")
        ∷ placeholder (record {
          kind = ref_params;
          name = codes "name";
          key = [];
          filters = lower_filter ∷ [];
          raw = codes "params.name | lower";
        })
        ∷ literal (codes "${x}")
        ∷ [])
unfolding parse text_eq
parse_test = refl
