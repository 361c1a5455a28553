-- ===== src/Params/Filters/Labels.antt =====
-- A name made by `k8sName` is a DNS label.
use fusion_wizard.Prelude.{
  ℕ, zero, suc, ◌≤◌, Bool, true, false, ◌||◌, [], ◌∷◌, ◌≡◌, refl, Text, codes, ltb, length, take,
  is_empty, All, ◌==◌, arith, length-take-le, Bool-cases, inl, inr,
}
use fusion_wizard.Params.Ascii.{is_alnum, to_lower, collapse, trim, trim_left, trim_right}
use fusion_wizard.Params.Filters.{k8s_name, max_k8s_name, bound_name}

-- a lower case letter, a digit or a dash
abbrev pub IsLabelByte : ℕ → Type 0
IsLabelByte c = (is_alnum c || c == b'-') ≡ true

abbrev pub ends_with_dash : Text → Bool
ends_with_dash [] = false
ends_with_dash (c ∷ []) = c == b'-'
ends_with_dash (c ∷ d ∷ r) = ends_with_dash (d ∷ r)

abbrev pub starts_with_dash : Text → Bool
starts_with_dash [] = false
starts_with_dash (c ∷ cs) = c == b'-'

pub record IsLabel (s : Text) : Type 0 where
  pub not_empty : is_empty s ≡ false
  pub short : length s ≤ max_k8s_name
  pub bytes : All IsLabelByte s
  pub first : starts_with_dash s ≡ false
  pub last : ends_with_dash s ≡ false

pub collapse_bytes : (inside : Bool) (s : Text) → All IsLabelByte (collapse inside s)
unfolding collapse
collapse_bytes true [] = tt
collapse_bytes false [] = tt
collapse_bytes true (c ∷ cs) = ground (arith, collapse_bytes true cs, collapse_bytes false cs)
collapse_bytes false (c ∷ cs) = ground (arith, collapse_bytes true cs, collapse_bytes false cs)

trim_left_bytes : (s : Text) → All IsLabelByte s → All IsLabelByte (trim_left s)
unfolding trim_left
trim_left_bytes [] h = tt
trim_left_bytes (c ∷ cs) h = ground (arith, trim_left_bytes cs h.1)

pub trim_right_bytes : (s : Text) → All IsLabelByte s → All IsLabelByte (trim_right s)
unfolding trim_right
trim_right_bytes [] h = tt
trim_right_bytes (c ∷ cs) h = ground (arith, trim_right_bytes cs h.1)

pub take_bytes : (n : ℕ) (s : Text) → All IsLabelByte s → All IsLabelByte (take n s)
take_bytes zero s h = tt
take_bytes (suc n) [] h = tt
take_bytes (suc n) (c ∷ cs) h = (h.0, take_bytes n cs h.1)

starts-trim_left : (s : Text) → starts_with_dash (trim_left s) ≡ false
unfolding trim_left
starts-trim_left [] = refl
starts-trim_left (c ∷ cs) = ground (arith, starts-trim_left cs)

pub starts-trim_right :
    (s : Text) → starts_with_dash s ≡ false → starts_with_dash (trim_right s) ≡ false
unfolding trim_right
starts-trim_right [] h = refl
starts-trim_right (c ∷ cs) h = ground arith

ends-cons : (c : ℕ) (s : Text) → is_empty s ≡ false → ends_with_dash (c ∷ s) ≡ ends_with_dash s
ends-cons c [] h = cc
ends-cons c (d ∷ r) h = refl

ends-trim_right : (s : Text) → ends_with_dash (trim_right s) ≡ false
unfolding trim_right
ends-trim_right [] = refl
ends-trim_right (c ∷ cs) = ground (arith, ends-trim_right cs, ends-cons c (trim_right cs))

pub length-trim_right-le : (s : Text) → length (trim_right s) ≤ length s
unfolding trim_right
length-trim_right-le [] = omega arith
length-trim_right-le (c ∷ cs) = ground (arith, length-trim_right-le cs)

-- what does not start with a dash is not trimmed away
pub trim_right-ne-nil :
    (s : Text) → is_empty s ≡ false → starts_with_dash s ≡ false → is_empty (trim_right s) ≡ false
unfolding trim_right
trim_right-ne-nil [] h k = cc
trim_right-ne-nil (c ∷ cs) h k = ground arith

pub take_first :
    (n : ℕ) (s : Text)
    → (starts_with_dash s ≡ false → starts_with_dash (take n s) ≡ false)
      × (is_empty s ≡ false → is_empty (take (suc n) s) ≡ false)
take_first zero [] = (λ h. refl, λ h. h)
take_first zero (c ∷ cs) = (λ h. refl, λ h. h)
take_first (suc n) [] = (λ h. h, λ h. h)
take_first (suc n) (c ∷ cs) = (λ h. h, λ h. refl)

-- the state of the name before it is cut to length
pub record IsTrimmed (s : Text) : Type 0 where
  pub bytes : All IsLabelByte s
  pub first : starts_with_dash s ≡ false
  pub last : ends_with_dash s ≡ false

pub trim-IsTrimmed : (s : Text) → All IsLabelByte s → IsTrimmed (trim s)
unfolding trim
trim-IsTrimmed s h = record {
  bytes = trim_right_bytes (trim_left s) (trim_left_bytes s h);
  first = starts-trim_right (trim_left s) (starts-trim_left s);
  last = ends-trim_right (trim_left s);
}

cut-IsLabel : (s : Text) → is_empty s ≡ false → IsTrimmed s → IsLabel (trim_right (take 63 s))
cut-IsLabel s ne h = record {
  not_empty = trim_right-ne-nil (take 63 s) ((take_first 62 s).1 ne) ((take_first 63 s).0 h.first);
  short = omega (arith, length-trim_right-le (take 63 s), length-take-le {0} 63 s);
  bytes = trim_right_bytes (take 63 s) (take_bytes 63 s h.bytes);
  first = starts-trim_right (take 63 s) ((take_first 63 s).0 h.first);
  last = ends-trim_right (take 63 s);
}

x-IsLabel : IsLabel (codes "x")
x-IsLabel = record {
  not_empty = refl;
  short = omega arith;
  bytes = (refl, tt);
  first = refl;
  last = refl;
}

bound_name-IsLabel : (s : Text) → IsTrimmed s → IsLabel (bound_name s)
unfolding bound_name
bound_name-IsLabel s h = elim (Bool-cases (is_empty s)) [
  | inl e ↦ rw (e, bound_name) x-IsLabel
  | inr e ↦ elim (Bool-cases (ltb max_k8s_name (length s))) [
    | inl long ↦ rw (e, long, bound_name) (cut-IsLabel s e h)
    | inr fits ↦
        rw (e, fits, bound_name)
          (record {
            not_empty = e;
            short = ground arith;
            bytes = h.bytes;
            first = h.first;
            last = h.last;
          })
  ]
]

-- Whatever the text, `k8sName` makes a DNS label of it: it is not empty, has at most 63 bytes,
-- all of them lower case letters, digits or dashes, and neither starts nor ends with a dash.
pub k8s_name-IsLabel : (s : Text) → IsLabel (k8s_name s)
unfolding k8s_name
k8s_name-IsLabel s = bound_name-IsLabel _ (trim-IsTrimmed _ (collapse_bytes false (to_lower s)))
