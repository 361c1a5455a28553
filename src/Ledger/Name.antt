-- ===== src/Ledger/Name.antt =====
-- internal/ledger/ledger.go: the names of the entries and the hashes of their specs. SHA-256 is a
-- parameter, `sum`.
pub mod Labels
use Prim.Native.Nat.{◌/◌, ◌%◌}
use fusion_wizard.Prelude.{
  ℕ, ◌+◌, false, List, [], ◌∷◌, ◌++◌, Text, codes, ltb, length, take, if◌then◌else◌, ◌≡◌, refl,
}
use fusion_wizard.Params.Ascii.{to_lower, collapse, trim, trim_right}
use fusion_wizard.Ledger.{Key}

abbrev pub max_base_len : ℕ
max_base_len = 54

abbrev pub hex_digit : ℕ → ℕ
hex_digit n = if ltb n 10 then 48 + n else 87 + n

-- `hex.EncodeToString`
pub hex : Text → Text
hex [] = []
hex (b ∷ bs) = hex_digit (b / 16) ∷ hex_digit (b % 16) ∷ hex bs

-- the readable prefix, cut to length
pub bound_base : Text → Text
bound_base base =
    if ltb max_base_len (length base) then trim_right (take max_base_len base) else base

-- the key's parts with a separator between them
abbrev pub key_text : Text → Key → Text
key_text separator k = k.service ++ separator ++ k.kind ++ separator ++ k.name

-- `strings.Join(parts, "\x00")`
joined_parts : List Text → Text
joined_parts [] = []
joined_parts (p ∷ []) = p
joined_parts (p ∷ q ∷ ps) = p ++ 0 ∷ joined_parts (q ∷ ps)

module _ (sum : Text → Text) where
  unfoldable pub object_name : Key → Text
  unfolding bound_base hex
  object_name k =
      bound_base (trim (collapse false (to_lower (key_text (codes "-") k))))
      ++ b'-' ∷ hex (take 4 (sum (key_text (codes "/") k)))

  unfoldable pub hash : List Text → Text
  unfolding hex joined_parts
  hash parts = hex (take 8 (sum (joined_parts parts)))

hex_test : hex (0 ∷ 171 ∷ []) ≡ codes "00ab"
unfolding hex
hex_test = refl
