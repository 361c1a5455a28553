-- ===== src/Ledger/Name/Labels.antt =====
-- The name of an entry is a DNS label, so that Kubernetes takes it as a name and as a label value.
use Prim.Native.Nat.{◌/◌, ◌%◌}
use fusion_wizard.Prelude.{
  ℕ, zero, suc, ◌*◌, ◌≤◌, ◌<◌, true, false, [], ◌∷◌, ◌++◌, ◌≡◌, refl, ◌∙◌, Text, codes, ltb, length,
  take, is_empty, All, All-append, ◌==◌, arith, length-append, length-take-le, Bool-cases, inl, inr,
}
use fusion_wizard.Params.Ascii.{is_alnum, to_lower, to_lower_byte, collapse, trim, trim_left}
use fusion_wizard.Params.Filters.Labels.{
  IsLabelByte, ends_with_dash, starts_with_dash, IsLabel, IsTrimmed, collapse_bytes, trim-IsTrimmed,
  trim_right-ne-nil, take_first, take_bytes, trim_right_bytes, starts-trim_right,
  length-trim_right-le,
}
use fusion_wizard.Ledger.{Key}
use fusion_wizard.Ledger.Name.{max_base_len, hex_digit, hex, bound_base, key_text, object_name}

-- what SHA-256 is relied on for: bytes, at least four of them
pub record IsDigest (s : Text) : Type 0 where
  pub bytes : All (λ b. b < 256) s
  pub long : 4 ≤ length s

hex_digit_alnum : (n : ℕ) → n < 16 → is_alnum (hex_digit n) ≡ true
hex_digit_alnum n h = ground arith

high_digit : (b : ℕ) → b < 256 → b / 16 < 16
high_digit b h = omega arith

low_digit : (b : ℕ) → b % 16 < 16
low_digit b = omega arith

hex_bytes : (s : Text) → All (λ b. b < 256) s → All (λ c. is_alnum c ≡ true) (hex s)
unfolding hex
hex_bytes [] h = tt
hex_bytes (b ∷ bs) (h, hs) = (
  hex_digit_alnum (b / 16) (high_digit b h),
  (hex_digit_alnum (b % 16) (low_digit b), hex_bytes bs hs),
)

length-hex : (s : Text) → length (hex s) ≡ 2 * length s
unfolding hex
length-hex [] = refl
length-hex (b ∷ bs) = omega (arith, length-hex bs)

alnum_label : (c : ℕ) → is_alnum c ≡ true → IsLabelByte c
alnum_label c h = ground arith

alnum-ne-dash : (c : ℕ) → is_alnum c ≡ true → (c == b'-') ≡ false
alnum-ne-dash c h = ground arith

alnum_bytes : (s : Text) → All (λ c. is_alnum c ≡ true) s → All IsLabelByte s
alnum_bytes [] h = tt
alnum_bytes (c ∷ cs) (h, hs) = (alnum_label c h, alnum_bytes cs hs)

ends-alnum : (s : Text) → All (λ c. is_alnum c ≡ true) s → ends_with_dash s ≡ false
ends-alnum [] h = refl
ends-alnum (c ∷ []) (h, _) = alnum-ne-dash c h
ends-alnum (c ∷ d ∷ r) (_, hs) = ends-alnum (d ∷ r) hs

ends-append : (s t : Text) → is_empty t ≡ false → ends_with_dash (s ++ t) ≡ ends_with_dash t
ends-append [] t h = refl
ends-append (c ∷ []) [] h = cc
ends-append (c ∷ []) (d ∷ t) h = refl
ends-append (c ∷ d ∷ s) t h = ends-append (d ∷ s) t h

starts-append : (s t : Text) → is_empty s ≡ false → starts_with_dash (s ++ t) ≡ starts_with_dash s
starts-append [] t h = cc
starts-append (c ∷ s) t h = refl

empty-append : (s t : Text) → is_empty s ≡ false → is_empty (s ++ t) ≡ false
empty-append [] t h = cc
empty-append (c ∷ s) t h = refl

take_digest : (n : ℕ) (s : Text) → All (λ b. b < 256) s → All (λ b. b < 256) (take n s)
take_digest zero s h = tt
take_digest (suc n) [] h = tt
take_digest (suc n) (b ∷ bs) (h, hs) = (h, take_digest n bs hs)

not-four : ¬ (4 ≤ 0)
not-four = omega arith

take_four : (s : Text) → 4 ≤ length s → is_empty (hex (take 4 s)) ≡ false
unfolding hex
take_four [] h = absurd (not-four h)
take_four (b ∷ bs) h = refl

record IsBase (s : Text) : Type 0 where
  not_empty : is_empty s ≡ false
  short : length s ≤ 54
  bytes : All IsLabelByte s
  first : starts_with_dash s ≡ false

bound_base-IsBase : (s : Text) → is_empty s ≡ false → IsTrimmed s → IsBase (bound_base s)
unfolding bound_base
bound_base-IsBase s ne h = elim (Bool-cases (ltb max_base_len (length s))) [
  | inl long ↦
      rw (long, bound_base)
        (record {
          not_empty =
              trim_right-ne-nil (take 54 s) ((take_first 53 s).1 ne) ((take_first 54 s).0 h.first);
          short = omega (arith, length-trim_right-le (take 54 s), length-take-le {0} 54 s);
          bytes = trim_right_bytes (take 54 s) (take_bytes 54 s h.bytes);
          first = starts-trim_right (take 54 s) ((take_first 54 s).0 h.first);
        })
  | inr fits ↦
      rw (fits, bound_base)
        (record { not_empty = ne; short = ground arith; bytes = h.bytes; first = h.first })
]

-- A text that starts with a letter or a digit keeps it.
trim-collapse-ne-nil :
    (c : ℕ) (cs : Text) → is_alnum c ≡ true → is_empty (trim (collapse false (c ∷ cs))) ≡ false
unfolding trim collapse trim_left
trim-collapse-ne-nil c cs h =
    rw (h, alnum-ne-dash c h) (trim_right-ne-nil (c ∷ collapse _ cs) refl (alnum-ne-dash c h))

base_and_hex :
    (base digest : Text)
    → IsBase base
    → IsDigest digest
    → IsLabel (base ++ b'-' ∷ hex (take 4 digest))
base_and_hex base digest b d =
    let alnum = hex_bytes (take 4 digest) (take_digest 4 digest d.bytes) in
    record {
      not_empty = empty-append base _ b.not_empty;
      short = omega (
        arith,
        b.short,
        length-append base (b'-' ∷ hex (take 4 digest)),
        length-hex (take 4 digest),
        length-take-le {0} 4 digest,
      );
      bytes = All-append IsLabelByte base _ b.bytes (refl, alnum_bytes _ alnum);
      first = rw (starts-append base (b'-' ∷ hex (take 4 digest)) b.not_empty) b.first;
      last =
          ends-append base (b'-' ∷ hex (take 4 digest)) refl
          ∙ ends-append (b'-' ∷ []) (hex (take 4 digest)) (take_four digest d.long)
          ∙ ends-alnum (hex (take 4 digest)) alnum;
    }

-- The name of an entry is a DNS label of at most 63 bytes if its service starts with an ASCII
-- letter or digit and the digest of the key is made of at least four bytes.
pub object_name-IsLabel :
    (sum : Text → Text) (k : Key) (c : ℕ) (rest : Text)
    → k.service ≡ c ∷ rest
    → is_alnum (to_lower_byte c) ≡ true
    → IsDigest (sum (key_text (codes "/") k))
    → IsLabel (object_name sum k)
unfolding object_name to_lower
object_name-IsLabel sum k c rest s h d =
    base_and_hex _ _
      (bound_base-IsBase _ (rw s (trim-collapse-ne-nil (to_lower_byte c) _ h))
        (trim-IsTrimmed _ (collapse_bytes false _)))
      d
