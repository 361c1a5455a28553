-- ===== src/Steps/Validate.antt =====
-- internal/steps/catalog.go, `ValidateDefinition`: the static check of a definition.
pub mod Laws
pub mod Renders
pub mod Examples
use fusion_wizard.Prelude.{
  ℕ, suc, ◌+◌, Bool, true, false, not, ◌&&◌, ◌||◌, Option, none, some, List, [], ◌∷◌, ◌++◌, map,
  Text, codes, Assoc, lookup, insert, contains, text_eq, is_empty, ltb, if◌then◌else◌,
}
use fusion_wizard.Errors.{
  Message, format, colon, end, text_arg, message_arg, Error, plain, wrap, error_message, Joined,
  fine, problems, join_all,
}
use fusion_wizard.Action.{Result, ok, err}
use fusion_wizard.Api.Definition.{
  StepType, git_watcher, wait_build, tag, app, job_template, service_template, chain, trigger,
  batch_trigger, type_name, ParameterType, WizardParameter, WizardStep, WizardDefinitionSpec,
}
use fusion_wizard.Params.Ascii.{join_with}
use fusion_wizard.Params.Values.{Codec}
use fusion_wizard.Params.Template.{
  RefKind, ref_params, ref_config, ref_steps, ref_item, Ref, parse, refs,
}
use fusion_wizard.Params.Render.{by_key, list_ref}
use fusion_wizard.Params.Parameters.{resolve_parameters}
use fusion_wizard.Steps.Step.{ParamSpec, allows}
use fusion_wizard.Steps.Catalog.{params_of, order_index, is_before, catalogue_order}
use fusion_wizard.Steps.References.{
  EarlierStep, Declared, Earlier, fail, check_refs, check_for_each,
}

module _ (codec : Codec) where
  check_pattern : WizardParameter → List Error
  check_pattern p = if is_empty p.pattern then [] else elim (codec.compile p.pattern) [
    | ok m ↦ []
    | err x ↦ fail (
        format "parameter %q has an invalid pattern: %v"
          (text_arg p.name (message_arg (error_message x) end)))
  ]

  abbrev check_twice : WizardParameter → Option WizardParameter → List Error
  check_twice p none = []
  check_twice p (some q) = fail (format "parameter %q is declared twice" (text_arg p.name end))

  -- the loop over the parameters: what is declared, and the problems
  pub check_parameters : List WizardParameter → Declared → Declared × List Error
  unfolding check_pattern
  check_parameters [] declared = (declared, [])
  check_parameters (p ∷ ps) declared =
      let (all, errs) = check_parameters ps (insert p.name p declared) in
      (all, check_twice p (lookup p.name declared) ++ check_pattern p ++ errs)

  abbrev relax : WizardParameter → WizardParameter
  relax p = record p { required = false }

  defaults_of : List WizardParameter → Assoc Text → Assoc Text
  defaults_of [] supplied = supplied
  defaults_of (p ∷ ps) supplied = elim p.default [
    | none ↦ defaults_of ps supplied
    | some raw ↦ defaults_of ps (insert p.name raw supplied)
  ]

  abbrev default_errors : Joined → List Error
  default_errors fine = []
  default_errors (problems x) = wrap (format "invalid parameter default" end) x ∷ []

  pub check_defaults : List WizardParameter → List Error
  unfolding defaults_of resolve_parameters join_all
  check_defaults ps =
      default_errors (join_all (resolve_parameters codec (map relax ps) (defaults_of ps [])).1)

  -- the required params that a step lacks
  pub check_required : WizardStep → List Text → List Error
  unfolding lookup
  check_required st [] = []
  check_required st (q ∷ qs) = elim (lookup q st.params) [
    | some v ↦ check_required st qs
    | none ↦
        fail (
          format "step %q (%s) is missing required param %q"
            (text_arg st.name (text_arg (type_name st.type) (text_arg q end))))
        ++ check_required st qs
  ]

  -- one round of the loop over the sorted params
  abbrev pub check_param : WizardStep → ParamSpec → Declared → Earlier → Text → Text → List Error
  check_param st ps declared earlier k v =
      if not (allows ps k)
      then fail (
          format "step %q (%s) has unknown param %q"
            (text_arg st.name (text_arg (type_name st.type) (text_arg k end))))
      else check_refs v (format "step %q param %q" (text_arg st.name (text_arg k end)))
          (not (is_empty st.for_each)) declared earlier

  pub check_params : WizardStep → ParamSpec → Declared → Earlier → Assoc Text → List Error
  unfolding check_refs allows
  check_params st ps declared earlier [] = []
  check_params st ps declared earlier ((k, v) ∷ rest) =
      check_param st ps declared earlier k v ++ check_params st ps declared earlier rest

  abbrev pub check_name : WizardStep → Option EarlierStep → List Error
  check_name st none = []
  check_name st (some s) = fail (format "step name %q is used twice" (text_arg st.name end))

  abbrev order_text : Text
  order_text = join_with (codes " -> ") (map type_name catalogue_order)

  -- the problem of a step that stands out of order, and the new `lastOrder`
  abbrev pub check_order : WizardStep → Option ℕ → List Error × Option ℕ
  check_order st last =
      if is_before (order_index st.type) last
      then (
        fail (
            format "step %q (%s) is out of order; steps must follow %s"
              (text_arg st.name (text_arg (type_name st.type) (text_arg order_text end)))),
        last,
      )
      else ([], order_index st.type)

  abbrev pub check_source : WizardStep → Declared → List Error
  check_source st declared = if is_empty st.for_each then [] else check_for_each st declared

  -- the body of the loop over the steps, once the step's type is known
  pub check_step : WizardStep → ParamSpec → Declared → Earlier → Option ℕ → List Error
  unfolding check_required check_params check_for_each by_key order_index
  check_step st ps declared earlier last =
      check_name st (lookup st.name earlier)
      ++ (check_order st last).0
      ++ check_required st ps.required
      ++ check_params st ps declared earlier (by_key codec st.params)
      ++ check_source st declared

  abbrev pub earlier_step : WizardStep → EarlierStep
  earlier_step st = record { type = st.type; for_each = not (is_empty st.for_each) }

  pub check_steps : List WizardStep → Declared → Earlier → Option ℕ → List Error
  unfolding check_step params_of order_index
  check_steps [] declared earlier last = []
  check_steps (st ∷ sts) declared earlier last = elim (params_of st.type) [
    | none ↦
        fail (
          format "step %q has unknown type %q"
            (text_arg st.name (text_arg (type_name st.type) end)))
        ++ check_steps sts declared earlier last
    | some ps ↦
        check_step st ps declared earlier last
        ++ check_steps sts declared (insert st.name (earlier_step st) earlier)
            (check_order st last).1
  ]

  -- `ValidateDefinition`: the errors that it joins
  unfoldable pub validate_definition : WizardDefinitionSpec → List Error
  unfolding check_parameters check_defaults check_steps
  validate_definition spec =
      let (declared, errs) = check_parameters spec.parameters [] in
      errs ++ check_defaults spec.parameters ++ check_steps spec.steps declared [] none
