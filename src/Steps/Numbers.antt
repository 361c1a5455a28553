-- ===== src/Steps/Numbers.antt =====
-- Whole numbers as texts: `strconv.ParseInt` and `strconv.FormatInt`, as the steps of
-- internal/steps use them on IDs.
use Prim.Native.Nat.{◌%◌, ◌/◌, ◌^◌}
use native.Mathlib.Nat.{pow-suc}
use fusion_wizard.Prelude.{
  ℕ, zero, suc, ◌+◌, ◌-◌, ◌*◌, ◌<◌, Bool, ◌&&◌, Option, none, some, [], ◌∷◌, Text, codes, leb, ltb,
  if◌then◌else◌, ◌≡◌, refl, ap, ◌∙◌, false, inl, inr, true, Bool-cases, arith,
}
use fusion_wizard.Prelude.Int.{ℤ, pos, negsuc}

abbrev is_digit : ℕ → Bool
is_digit c = leb b'0' c && leb c b'9'

digits_from : ℕ → Text → Option ℕ
digits_from acc [] = some acc
digits_from acc (c ∷ cs) =
    let rest = digits_from (acc * 10 + (c - 48)) cs in if is_digit c then rest else none

unsigned : Text → Option ℕ
unfolding digits_from
unsigned [] = none
unsigned (c ∷ cs) = digits_from 0 (c ∷ cs)

abbrev to_negative : ℕ → ℤ
to_negative zero = pos 0
to_negative (suc n) = negsuc n

positive_in_range : Option ℕ → Option ℤ
positive_in_range none = none
positive_in_range (some n) = if ltb n 9223372036854775808 then some (pos n) else none

negative_in_range : Option ℕ → Option ℤ
negative_in_range none = none
negative_in_range (some n) = if leb n 9223372036854775808 then some (to_negative n) else none

signed : ℕ → Text → Option ℤ
unfolding unsigned positive_in_range negative_in_range
signed c cs =
    if leb c b'-' && leb b'-' c
    then negative_in_range (unsigned cs)
    else if leb c b'+' && leb b'+' c
    then positive_in_range (unsigned cs)
    else positive_in_range (unsigned (c ∷ cs))

-- `strconv.ParseInt(s, 10, 64)`; `none` is its error
unfoldable pub parse_int : Text → Option ℤ
unfolding signed
parse_int [] = none
parse_int (c ∷ cs) = signed c cs

-- the digits of a number, in front of others, over the digits it may still have
decimal : ℕ → ℕ → Text → Text
decimal zero n rest = rest
decimal (suc fuel) n rest =
    let last = 48 + n % 10 in
    let more = decimal fuel (n / 10) (last ∷ rest) in if ltb n 10 then last ∷ rest else more

-- `strconv.FormatInt(n, 10)`: 64 bits have at most 19 digits
unfoldable pub format_int : ℤ → Text
unfolding decimal
format_int (pos n) = decimal 19 n []
format_int (negsuc n) = b'-' ∷ decimal 19 (suc n) []

parse_int_test : parse_int (codes "-42") ≡ some (negsuc 41)
unfolding parse_int
parse_int_test = refl

format_int_test : format_int (negsuc 41) ≡ codes "-42"
unfolding format_int
format_int_test = refl

is_digit-last : (n : ℕ) → is_digit (48 + n % 10) ≡ true
is_digit-last n = ground arith

if_same {ℓ} : {A : Type ℓ} (b : Bool) (x : A) → (if b then x else x) ≡ x
if_same true x = refl
if_same false x = refl

digits_from-last :
    (acc n : ℕ) (rest : Text)
    → digits_from acc ((48 + n % 10) ∷ rest) ≡ digits_from (acc * 10 + n % 10) rest
unfolding digits_from
digits_from-last acc n rest =
    rw is_digit-last (ap (λ d. digits_from (acc * 10 + d) rest) (omega arith))

tenth : (fuel n : ℕ) → n < 10 ^ suc fuel → n / 10 < 10 ^ fuel
tenth fuel n h = omega (arith, pow-suc 10 fuel)

digits_from-decimal :
    (fuel n : ℕ) (rest : Text)
    → n < 10 ^ fuel
    → digits_from 0 (decimal fuel n rest) ≡ digits_from n rest
unfolding decimal
digits_from-decimal zero n rest h = ap (λ k. digits_from k rest) (omega arith)
digits_from-decimal (suc fuel) n rest h = elim (Bool-cases (ltb n 10)) [
  | inl small ↦ rw (small, digits_from-last) (ap (λ k. digits_from k rest) (ground arith))
  | inr large ↦
      rw (large, digits_from-decimal fuel (n / 10) _ (tenth fuel n h), digits_from-last)
        (ap (λ k. digits_from k rest) (omega arith))
]

-- The text starts with a digit.
abbrev StartsWithDigit : Text → Type 0
StartsWithDigit t = (d : ℕ) × (cs : Text) × (t ≡ (48 + d) ∷ cs)

decimal-StartsWithDigit : (fuel n : ℕ) (rest : Text) → StartsWithDigit (decimal (suc fuel) n rest)
unfolding decimal
decimal-StartsWithDigit zero n rest = (n % 10, rest, if_same (ltb n 10) _)
decimal-StartsWithDigit (suc fuel) n rest = elim (Bool-cases (ltb n 10)) [
  | inl small ↦ (n % 10, rest, rw small refl)
  | inr large ↦
      let (d, cs, e) = decimal-StartsWithDigit fuel (n / 10) ((48 + n % 10) ∷ rest) in
      (d, cs, rw large e)
]

not_sign : (d k : ℕ) → k < 48 → (leb (48 + d) k && leb k (48 + d)) ≡ false
not_sign d k h = ground arith

parse_int-digits :
    (t : Text) → StartsWithDigit t → parse_int t ≡ positive_in_range (digits_from 0 t)
unfolding parse_int signed unsigned
parse_int-digits t (d, cs, e) =
    rw (e, not_sign d b'-' (omega arith), not_sign d b'+' (omega arith)) refl

fits : (n : ℕ) → n < 9223372036854775808 → n < 10 ^ 19
fits n h = omega arith

unsigned-digits : (t : Text) → StartsWithDigit t → unsigned t ≡ digits_from 0 t
unfolding unsigned
unsigned-digits t (d, cs, e) = rw e refl

-- It fits in 64 bits.
abbrev pub InRange : ℤ → Type 0
InRange (pos n) = n < 9223372036854775808
InRange (negsuc n) = n < 9223372036854775808

ltb-true : (n k : ℕ) → n < k → ltb n k ≡ true
ltb-true n k h = ground arith

leb-true : (n k : ℕ) → n < k → leb (suc n) k ≡ true
leb-true n k h = ground arith

positive-fits : (n : ℕ) → InRange (pos n) → positive_in_range (digits_from n []) ≡ some (pos n)
unfolding positive_in_range digits_from
positive-fits n h = rw (ltb-true n _ h) refl

negative-fits :
    (n : ℕ) → InRange (negsuc n) → negative_in_range (digits_from (suc n) []) ≡ some (negsuc n)
unfolding negative_in_range digits_from
negative-fits n h = rw (leb-true n _ h) refl

parse_positive :
    (fuel n : ℕ)
    → n < 10 ^ suc fuel
    → InRange (pos n)
    → parse_int (decimal (suc fuel) n []) ≡ some (pos n)
parse_positive fuel n h k =
    parse_int-digits _ (decimal-StartsWithDigit fuel n [])
    ∙ ap positive_in_range (digits_from-decimal (suc fuel) n [] h)
    ∙ positive-fits n k

parse_int-negative : (t : Text) → parse_int (b'-' ∷ t) ≡ negative_in_range (unsigned t)
unfolding parse_int signed
parse_int-negative t = refl

parse_negative :
    (fuel n : ℕ)
    → suc n < 10 ^ suc fuel
    → InRange (negsuc n)
    → parse_int (b'-' ∷ decimal (suc fuel) (suc n) []) ≡ some (negsuc n)
parse_negative fuel n h k =
    parse_int-negative _
    ∙ ap negative_in_range (
        unsigned-digits _ (decimal-StartsWithDigit fuel (suc n) [])
        ∙ digits_from-decimal (suc fuel) (suc n) [] h)
    ∙ negative-fits n k

fits_suc : (n : ℕ) → n < 9223372036854775808 → suc n < 10 ^ 19
fits_suc n h = omega arith

pub parse_int-format_int : (z : ℤ) → InRange z → parse_int (format_int z) ≡ some z
unfolding format_int
parse_int-format_int (pos n) h = parse_positive 18 n (fits n h) h
parse_int-format_int (negsuc n) h = parse_negative 18 n (fits_suc n h) h
