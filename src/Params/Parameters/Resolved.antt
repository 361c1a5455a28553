-- ===== src/Params/Parameters/Resolved.antt =====
-- What it means that the resolution of a run's parameters finds no error.
use fusion_wizard.Prelude.{
  ◌≡◌, ◌≢◌, refl, inl, inr, true, Option, none, some, List, [], ◌∷◌, ◌++◌, map, Text, Assoc, lookup,
  insert, lookup-insert, contains, text_eq, text_eq_refl, text_lt, All, Bool-cases,
}
use fusion_wizard.Errors.{Error}
use fusion_wizard.Action.{Result, Result-cases, ok, err}
use fusion_wizard.Api.Definition.{WizardParameter}
use fusion_wizard.Params.Values.{Value, Codec}
use fusion_wizard.Params.Render.{by_key, insert_key}
use fusion_wizard.Params.Parameters.{
  decode, take_value, noted_value, resolve_params_loop, raw_value, unknown_names, unknown_errors,
  resolve_parameters,
}

append-ne-nil : (es : List Error) (x : Error) → es ++ x ∷ [] ≢ []
append-ne-nil [] x h = cc
append-ne-nil (e ∷ es) x h = cc

cons-ne-nil : {n : Text} {ns : List Text} → n ∷ ns ≢ []
cons-ne-nil h = cc

module _ (codec : Codec) (supplied : Assoc Text) where
  noted_value-errors :
      (d : WizardParameter) (r : Result (Option Value)) (acc : Assoc Value × List Error)
      → (noted_value codec d r acc).1 ≡ []
      → acc.1 ≡ []
  noted_value-errors d (err x) acc h = absurd (append-ne-nil acc.1 x h)
  noted_value-errors d (ok none) acc h = h
  noted_value-errors d (ok (some v)) acc h = h

  loop-errors :
      (ds : List WizardParameter) (acc : Assoc Value × List Error)
      → (resolve_params_loop codec ds supplied acc).1 ≡ []
      → acc.1 ≡ []
  unfolding resolve_params_loop
  loop-errors [] acc h = h
  loop-errors (d ∷ ds) acc h = noted_value-errors d _ acc (loop-errors ds _ h)

  some-ne-none : {v : Value} → some v ≢ none
  some-ne-none h = cc

  insert-keeps :
      (k j : Text) (v : Value) (out : Assoc Value)
      → lookup j out ≢ none
      → lookup j (insert k v out) ≢ none
  insert-keeps k j v out h = elim (Bool-cases (text_eq k j)) [
    | inl e ↦ rw (lookup-insert k j v out, e) (λ n. some-ne-none n)
    | inr e ↦ rw (lookup-insert k j v out, e) h
  ]

  noted_value-keeps :
      (d : WizardParameter) (r : Result (Option Value)) (acc : Assoc Value × List Error) (j : Text)
      → lookup j acc.0 ≢ none
      → lookup j (noted_value codec d r acc).0 ≢ none
  noted_value-keeps d (err x) acc j h = h
  noted_value-keeps d (ok none) acc j h = h
  noted_value-keeps d (ok (some v)) acc j h = insert-keeps d.name j v acc.0 h

  loop-keeps :
      (ds : List WizardParameter) (acc : Assoc Value × List Error) (j : Text)
      → lookup j acc.0 ≢ none
      → lookup j (resolve_params_loop codec ds supplied acc).0 ≢ none
  unfolding resolve_params_loop
  loop-keeps [] acc j h = h
  loop-keeps (d ∷ ds) acc j h = loop-keeps ds _ j (noted_value-keeps d _ acc j h)

  -- A parameter that is required and gives no error gets a value.
  take_value-noted_value :
      (d : WizardParameter) (o : Option Text) (acc : Assoc Value × List Error)
      → (noted_value codec d (take_value codec d o) acc).1 ≡ []
      → d.required ≡ true
      → lookup d.name (noted_value codec d (take_value codec d o) acc).0 ≢ none
  unfolding take_value
  take_value-noted_value d none acc h r = absurd (append-ne-nil acc.1 _ (rw (r, take_value) at h))
  take_value-noted_value d (some raw) acc h r = elim (Result-cases (decode codec d raw)) [
    | inl (v, e) ↦
        rw (e, take_value, lookup-insert d.name d.name v acc.0, text_eq_refl d.name)
          (λ n. some-ne-none n)
    | inr (x, e) ↦ absurd (append-ne-nil acc.1 _ (rw (e, take_value) at h))
  ]

  loop-required :
      (ds : List WizardParameter) (acc : Assoc Value × List Error)
      → (resolve_params_loop codec ds supplied acc).1 ≡ []
      → All
          (λ d.
            d.required ≡ true → lookup d.name (resolve_params_loop codec ds supplied acc).0 ≢ none)
          ds
  unfolding resolve_params_loop
  loop-required [] acc h = tt
  loop-required (d ∷ ds) acc h = (
    λ r.
        loop-keeps ds _ d.name
          (take_value-noted_value d (raw_value codec d supplied) acc (loop-errors ds _ h) r),
    loop-required ds _ h,
  )

  -- the parameters of a definition know the key of an input
  abbrev pub Known : List WizardParameter → Text × Text → Type 0
  Known ds p = contains (map (λ d. d.name) ds) p.0 ≡ true

  unknown_errors_nil : (ns : List Text) → unknown_errors codec ns ≡ [] → ns ≡ []
  unknown_errors_nil [] h = refl
  unknown_errors_nil (n ∷ ns) h = cc

  unknown_names_nil :
      (ds : List WizardParameter) (m : Assoc Text)
      → unknown_names codec ds m ≡ []
      → All (Known ds) m
  unfolding unknown_names
  unknown_names_nil ds [] h = tt
  unknown_names_nil ds ((k, raw) ∷ rest) h = elim (Bool-cases (contains (map (λ d. d.name) ds) k)) [
    | inl e ↦ (e, unknown_names_nil ds rest (rw e at h))
    | inr e ↦ absurd (cons-ne-nil (rw e at h))
  ]

  module _ (P : Text × Text → Type 0) where
    All-insert_key :
        (p : Text × Text) (m : Assoc Text) → All P (insert_key codec p m) → P p × All P m
    unfolding insert_key
    All-insert_key p [] h = h
    All-insert_key p (q ∷ qs) h = elim (Bool-cases (text_lt q.0 p.0)) [
      | inl e ↦
          let (first, rest) : All P (q ∷ insert_key codec p qs) = rw e at h in
          let (own, others) = All-insert_key p qs rest in (own, (first, others))
      | inr e ↦ rw e at h
    ]

    All-by_key : (m : Assoc Text) → All P (by_key codec m) → All P m
    unfolding by_key
    All-by_key [] h = h
    All-by_key (p ∷ ps) h =
        let (own, others) = All-insert_key p (by_key codec ps) h in (own, All-by_key ps others)

  -- If the resolution finds no error, then every supplied value is of a parameter of the
  -- definition, and every required parameter has a value.
  pub resolve_parameters_lem :
      (ds : List WizardParameter)
      → (resolve_parameters codec ds supplied).1 ≡ []
      → All (Known ds) supplied
        × All
            (λ d. d.required ≡ true → lookup d.name (resolve_parameters codec ds supplied).0 ≢ none)
            ds
  unfolding resolve_parameters
  resolve_parameters_lem ds h = (
    All-by_key (Known ds) supplied
        (unknown_names_nil ds _ (unknown_errors_nil _ (loop-errors ds _ h))),
    loop-required ds _ h,
  )
