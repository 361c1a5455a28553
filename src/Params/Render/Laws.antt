-- ===== src/Params/Render/Laws.antt =====
-- When a template renders, and to what.
use fusion_wizard.Prelude.{◌≡◌, refl, ◌↔◌, inl, inr, [], ◌∷◌, ◌++◌, Text, All}
use fusion_wizard.Action.{Result, Result-cases, ok, err}
use fusion_wizard.Params.Values.{Codec}
use fusion_wizard.Params.Template.{literal, placeholder, Template, flush, refs}
use fusion_wizard.Params.Template.Escape.{escape, parse-escape}
use fusion_wizard.Params.Render.{Context, render_ref, render_from, render, resolve}

module _ (codec : Codec) where
  render_literal : (c : Context) (s : Text) → render codec (flush s []) c ≡ ok s
  unfolding render
  render_literal c [] = refl
  render_literal c (x ∷ xs) = refl

  -- Every text can be had as the value of a step's parameter: with each `${` escaped it resolves
  -- to itself, in every context.
  pub resolve-escape : (s : Text) (c : Context) → resolve codec (escape s) c ≡ ok s
  unfolding resolve
  resolve-escape s c = rw (resolve, parse-escape s) (render_literal c s)

  abbrev pub IsOk : Result Text → Type 0
  IsOk (ok s) = Unit
  IsOk (err x) = ⊥

  render_from_iff :
      (c : Context) (b : Text) (t : Template)
      → IsOk (render_from codec c b t) ↔ All (λ r. IsOk (render_ref codec r c)) (refs t)
  unfolding render_from refs
  render_from_iff c b [] = (λ h. h, λ h. h)
  render_from_iff c b (literal s ∷ rest) = render_from_iff c (b ++ s) rest
  render_from_iff c b (placeholder r ∷ rest) = elim (Result-cases (render_ref codec r c)) [
    | inr (x, e) ↦ rw (e, render_from) (λ h. absurd h, λ h. h.0)
    | inl (s, e) ↦
        let (to, from) = render_from_iff c (b ++ s) rest in
        rw (e, render_from) (λ h. (tt, to h), λ h. from h.1)
  ]

  -- A template renders exactly when every one of its references does on its own.
  pub render-IsOk_iff :
      (c : Context) (t : Template)
      → IsOk (render codec t c) ↔ All (λ r. IsOk (render_ref codec r c)) (refs t)
  unfolding render
  render-IsOk_iff c t = render_from_iff c [] t
