-- ===== src/Server/Create/Runnable.antt =====
-- What `createRun` creates, and what the reconciler does with it.
use fusion_wizard.Prelude.{◌≡◌, refl, sym, ap, List, [], ◌∷◌, Text, Assoc, is_empty, if-same}
use fusion_wizard.Errors.{Message, join, Error, Joined, fine, problems, join_all}
use fusion_wizard.Action.{Result, ok, err, Action}
use fusion_wizard.Api.Definition.{WizardDefinitionSpec}
use fusion_wizard.Api.Run.{desired_applied, WizardRun}
use fusion_wizard.Params.Values.{Value, Codec}
use fusion_wizard.Params.Parameters.{resolve_parameters}
use fusion_wizard.Plan.{Instance, expand}
use fusion_wizard.Steps.App.{AppEntrypoint}
use fusion_wizard.Steps.Validate.{validate_definition}
use fusion_wizard.Controller.Reconcile.Runnable.{IsRunnable}
use fusion_wizard.Server.Auth.{Caller}
use fusion_wizard.Server.Create.{
  CreateRunRequest, NewRun, Definition, check_plan, after_values, check_values, created, new_run,
  with_parameters, with_valid, with_definition, find_definition, with_name, create_run,
}

problems-ne-fine : {x : Error} → problems x ≡ fine → ⊥
problems-ne-fine h = cc

joined :
    (x : Error) (j : Joined)
    → elim j as (λ _. Joined) [ fine ↦ problems x | problems rest ↦ problems (join x rest) ] ≡ fine
    → ⊥
joined x fine h = cc
joined x (problems y) h = cc

join_all_fine : (errs : List Error) → join_all errs ≡ fine → errs ≡ []
unfolding join_all
join_all_fine [] h = refl
join_all_fine (x ∷ xs) h = absurd (joined x (join_all xs) h)

module _ (codec : Codec) (decode_entrypoints : Text → Result (List AppEntrypoint)) where
  check_plan_fine :
      (r : Result (List Instance)) (values : Assoc Value)
      → check_plan codec decode_entrypoints r values ≡ fine
      → (insts : List Instance) × (r ≡ ok insts)
  unfolding check_plan
  check_plan_fine (err x) values h = absurd (problems-ne-fine h)
  check_plan_fine (ok insts) values h = (insts, refl)

  after_values_fine :
      (def : WizardDefinitionSpec) (values : Assoc Value) (j : Joined)
      → after_values codec decode_entrypoints def values j ≡ fine
      → (j ≡ fine) × ((insts : List Instance) × (expand def values ≡ ok insts))
  unfolding after_values
  after_values_fine def values (problems x) h = absurd (problems-ne-fine h)
  after_values_fine def values fine h = (refl, check_plan_fine (expand def values) values h)

  -- what passing the checks of the parameters says
  check_values_fine :
      (def : WizardDefinitionSpec) (r : Assoc Value × List Error)
      → check_values codec decode_entrypoints def r ≡ fine
      → (r ≡ (r.0, [])) × ((insts : List Instance) × (expand def r.0 ≡ ok insts))
  unfolding check_values
  check_values_fine def (values, errs) h =
      let (j, planned) = after_values_fine def values (join_all errs) h in
      (ap (λ es. (values, es)) (join_all_fine errs j), planned)

  module _ {W : Type 0} (dns_problems : Text → List Message)
      (get_definition : Text → Action W Definition) (create other : NewRun → Action W WizardRun)
      (req : CreateRunRequest) (caller : Caller)
      (careful : (n : NewRun) (w : W)
        → IsRunnable codec n.spec
        → n.spec.desired_state ≡ desired_applied
        → n.spec.created_by ≡ caller.user_id
        → create n w ≡ other n w) where
    parameters_same :
        (def : Definition) (j : Joined) (w : W)
        → (j ≡ fine → IsRunnable codec (new_run req caller def).spec)
        → with_parameters codec decode_entrypoints dns_problems get_definition other req caller def
            j w
          ≡ with_parameters codec decode_entrypoints dns_problems get_definition create req caller
              def j w
    unfolding with_parameters
    parameters_same def (problems x) w h = refl
    parameters_same def fine w h =
        ap (λ (r : Result WizardRun × W). (created r.0, r.1))
          (sym (careful (new_run req caller def) w (h refl) refl refl))

    valid_same :
        (def : Definition) (j : Joined) (w : W)
        → (j ≡ fine → validate_definition codec def.spec ≡ [])
        → with_valid codec decode_entrypoints dns_problems get_definition other req caller def j w
          ≡ with_valid codec decode_entrypoints dns_problems get_definition create req caller def j
              w
    unfolding with_valid
    valid_same def (problems x) w h = refl
    valid_same def fine w h =
        let r = resolve_parameters codec def.spec.parameters req.parameters in
        parameters_same def (check_values codec decode_entrypoints def.spec r) w (λ e.
          let (clean, (insts, planned)) = check_values_fine def.spec r e in
          (def.spec, r.0, insts, h refl, (refl, clean, planned)))

    definition_same :
        (r : Result Definition) (w : W)
        → with_definition codec decode_entrypoints dns_problems get_definition other req caller r w
          ≡ with_definition codec decode_entrypoints dns_problems get_definition create req caller r
              w
    unfolding with_definition
    definition_same (err x) w = refl
    definition_same (ok def) w =
        valid_same def (join_all (validate_definition codec def.spec)) w
          (join_all_fine (validate_definition codec def.spec))

    name_same :
        (ms : List Message) (w : W)
        → with_name codec decode_entrypoints dns_problems get_definition other req caller ms w
          ≡ with_name codec decode_entrypoints dns_problems get_definition create req caller ms w
    unfolding with_name find_definition
    name_same (m ∷ ms) w = refl
    name_same [] w =
        definition_same (get_definition req.definition w).0 (get_definition req.definition w).1

    -- The API creates only runs with a snapshot of a valid definition, whose parameters resolve and
    -- whose steps expand, that are to be applied and carry the caller's user ID: `createRun` does the
    -- same with any other `Create` that does the same to such runs.
    pub create_run-IsRunnable :
        (w : W)
        → create_run codec decode_entrypoints dns_problems get_definition other req caller w
          ≡ create_run codec decode_entrypoints dns_problems get_definition create req caller w
    unfolding create_run
    create_run-IsRunnable w = if-same (is_empty req.definition) (λ e. refl) (λ e. name_same _ w)
