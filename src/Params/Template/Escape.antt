-- ===== src/Params/Template/Escape.antt =====
-- `$${` is the escape of `${`: every text can be written in a template.
use mathlib.Core.List.{append_assoc, append-nil}
use fusion_wizard.Prelude.{
  ℕ, ◌≡◌, refl, ◌∙◌, true, false, [], ◌∷◌, ◌++◌, Text, codes, arith, if◌then◌else◌, Bool-cases, inl,
  inr,
}
use fusion_wizard.Action.{ok}
use fusion_wizard.Params.Ascii.{has_prefix}
use fusion_wizard.Params.Template.{Template, byte, piece_at, parse_loop, parse, flush}

-- A dollar in front of every `${`.
unfoldable pub escape : Text → Text
escape [] = []
escape (c ∷ cs) =
    let rest = escape cs in if has_prefix (codes "${") (c ∷ cs) then b'$' ∷ c ∷ rest else c ∷ rest

brace-escape : (s : Text) → has_prefix (codes "{") (escape s) ≡ has_prefix (codes "{") s
unfolding escape has_prefix
brace-escape [] = refl
brace-escape (c ∷ cs) = ground arith

no_placeholder : (s : Text) → has_prefix (codes "${") (escape s) ≡ false
unfolding escape has_prefix
no_placeholder [] = refl
no_placeholder (c ∷ cs) = ground (arith, brace-escape cs)

piece_byte :
    (whole : Text) (c : ℕ) (cs : Text)
    → has_prefix (codes "${") (c ∷ cs) ≡ false
    → piece_at whole (c ∷ escape cs) ≡ byte
unfolding piece_at has_prefix
piece_byte whole c cs h = ground (arith, brace-escape cs, no_placeholder cs)

escape_placeholder : (r : Text) → escape (b'$' ∷ b'{' ∷ r) ≡ b'$' ∷ b'$' ∷ b'{' ∷ escape r
unfolding escape has_prefix
escape_placeholder r = refl

escape_byte :
    (c : ℕ) (cs : Text) → has_prefix (codes "${") (c ∷ cs) ≡ false → escape (c ∷ cs) ≡ c ∷ escape cs
unfolding escape
escape_byte c cs h = rw h

opens_placeholder :
    (c : ℕ) (cs : Text)
    → has_prefix (codes "${") (c ∷ cs) ≡ true
    → (c ≡ b'$') × (has_prefix (codes "{") cs ≡ true)
unfolding has_prefix
opens_placeholder c cs h = ground arith

opens_brace : (d : ℕ) (r : Text) → has_prefix (codes "{") (d ∷ r) ≡ true → d ≡ b'{'
unfolding has_prefix
opens_brace d r h = ground arith

step_byte :
    (whole : Text) (c : ℕ) (cs lit : Text) (t : Template)
    → has_prefix (codes "${") (c ∷ cs) ≡ false
    → parse_loop whole (escape (c ∷ cs)) 0 lit t ≡ parse_loop whole (escape cs) 0 (lit ++ c ∷ []) t
unfolding parse_loop
step_byte whole c cs lit t h = rw (escape_byte c cs h, parse_loop, piece_byte whole c cs h)

step_escaped :
    (whole r lit : Text) (t : Template)
    → parse_loop whole (escape (b'$' ∷ b'{' ∷ r)) 0 lit t
      ≡ parse_loop whole (escape r) 0 (lit ++ codes "${") t
step_escaped whole r lit t =
    rw (escape_placeholder r) (unfold parse_loop piece_at has_prefix in refl)

parse_loop-escape :
    (whole s lit : Text) (t : Template)
    → parse_loop whole (escape s) 0 lit t ≡ ok (flush (lit ++ s) t)
parse_loop-escape whole [] lit t = rw append-nil (unfold parse_loop escape in refl)
parse_loop-escape whole (c ∷ []) lit t =
    step_byte whole c [] lit t (unfold has_prefix in ground arith)
    ∙ parse_loop-escape whole [] (lit ++ c ∷ []) t
    ∙ rw append-nil
parse_loop-escape whole (c ∷ d ∷ r) lit t =
    elim (Bool-cases (has_prefix (codes "${") (c ∷ d ∷ r))) [
      | inr h ↦
          step_byte whole c (d ∷ r) lit t h
          ∙ parse_loop-escape whole (d ∷ r) (lit ++ c ∷ []) t
          ∙ rw append_assoc
      | inl h ↦
          let (dollar, rest) = opens_placeholder c (d ∷ r) h in
          rw (dollar, opens_brace d r rest)
            (step_escaped whole r lit t
              ∙ parse_loop-escape whole r (lit ++ codes "${") t
              ∙ rw append_assoc)
    ]

-- Parsing a text in which every `${` is escaped gives back that text, as the one literal of a
-- template without placeholders (and no segment for the empty text).
pub parse-escape : (s : Text) → parse (escape s) ≡ ok (flush s [])
unfolding parse
parse-escape s = parse_loop-escape (escape s) s [] []
