-- ===== src/Steps/App/Examples.antt =====
-- The early check of an app whose image is not known yet.
use fusion_wizard.Prelude.{
  ◌≡◌, refl, inl, inr, Bool-cases, List, none, [], ◌∷◌, Text, codes, Assoc, text_eq, lookup,
}
use fusion_wizard.Errors.{plain, format, end}
use fusion_wizard.Action.{Result, err}
use fusion_wizard.Api.Definition.{app}
use fusion_wizard.Steps.App.{
  value, pending_value, AppEntrypoint, validate_immutable_image, validate_app_params,
}
use fusion_wizard.Steps.App.Early.{Hides, validate_app_params_hidden}

no_entrypoints : Text → Result (List AppEntrypoint)
no_entrypoints t = err (plain (format "no list" end))

abbrev image_app : Text → Assoc Text
image_app image = (codes "type", codes "job") ∷ (codes "image", image) ∷ []

abbrev some_image : Text
some_image = codes "host:5000/app:1.2"

image_hidden :
    (k : Text) → Hides (value (image_app some_image) k) (value (image_app pending_value) k)
unfolding value lookup
image_hidden k = elim (Bool-cases (text_eq (codes "type") k)) [
  | inl e ↦ inl (rw (lookup, e) refl)
  | inr e ↦ elim (Bool-cases (text_eq (codes "image") k)) [
    | inl f ↦ inr (rw (lookup, e, f) refl)
    | inr f ↦ inl (rw (lookup, e, f) refl)
  ]
]

image_accepted : validate_app_params no_entrypoints app (image_app some_image) ≡ none
unfolding validate_app_params value lookup text_eq validate_immutable_image
image_accepted = refl

validate_app_params_hidden_example :
    validate_app_params no_entrypoints app (image_app pending_value) ≡ none
validate_app_params_hidden_example =
    validate_app_params_hidden no_entrypoints app (image_app some_image) (image_app pending_value)
      image_hidden image_accepted
