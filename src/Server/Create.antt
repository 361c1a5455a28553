-- ===== src/Server/Create.antt =====
-- internal/apiserver/runs.go, `createRun`: checking and creating a run.
--
-- `create_object` and `get_definition` are controller-runtime's client in the wizard's namespace,
-- `dns_problems` is `validation.IsDNS1123Subdomain`.
pub mod Runnable
pub mod Examples
use fusion_wizard.Prelude.{
  ℕ, suc, Bool, true, false, not, Option, none, some, List, [], ◌∷◌, ◌++◌, Text, Assoc, codes,
  insert, is_empty, length, ltb, if◌then◌else◌,
}
use fusion_wizard.Errors.{
  Message, Error, object_exists, format, text, end, text_arg, wrap, error_message, join, Joined,
  fine, problems, join_all,
}
use fusion_wizard.Action.{Result, ok, err, Action}
use fusion_wizard.Api.Definition.{StepType, app, WizardDefinitionSpec}
use fusion_wizard.Api.Run.{desired_applied, WizardRunSpec, WizardRun}
use fusion_wizard.Params.Values.{Value, Codec}
use fusion_wizard.Params.Parameters.{resolve_parameters}
use fusion_wizard.Params.Render.{Context, resolve}
use fusion_wizard.Plan.{Instance, expand}
use fusion_wizard.Steps.App.{
  AppEntrypoint, pending_value, validates_early, validate_external_auth_params, validate_app_params,
}
use fusion_wizard.Steps.Validate.{validate_definition}
use fusion_wizard.Server.Reply.{
  ErrorReply, write_error, internal_error, not_found_or_internal, Answer, refused, passed,
}
use fusion_wizard.Server.Auth.{Caller}
use fusion_wizard.Server.Runs.{RunView, view_run}

-- the fields of the JSON body that `decodeJSON` fills; a parameter's value is its bytes
pub record CreateRunRequest : Type 0 where
  pub definition : Text
  pub name : Text
  pub parameters : Assoc Text

-- the object that is to be created; an empty name is generated from `generate_name`
pub record NewRun : Type 0 where
  pub name : Text
  pub generate_name : Text
  pub spec : WizardRunSpec

pub record Definition : Type 0 where
  pub name : Text
  pub generation : ℕ
  pub spec : WizardDefinitionSpec

-- `errorDetails`
unfoldable pub error_details : Error → List Message
unfolding error_message
error_details (join e f) = error_details e ++ error_details f
error_details e = error_message e ∷ []

-- the status, the header `Location` and the body
abbrev pub Reply : Type 0
Reply = Answer (ℕ × Text × RunView)

abbrev pub new_run : CreateRunRequest → Caller → Definition → NewRun
new_run req caller def = record {
  name = req.name;
  generate_name = if is_empty req.name then def.name ++ codes "-" else [];
  spec = record {
    definition_ref = def.name;
    definition_snapshot = some def.spec;
    definition_generation = def.generation;
    parameters = req.parameters;
    created_by = caller.user_id;
    created_by_email = caller.user_email;
    desired_state = desired_applied;
  };
}

created : Result WizardRun → Reply
unfolding view_run
created (err (object_exists t)) =
    refused (write_error 409 (format "a run with this name already exists" end))
created (err x) = refused internal_error
created (ok run) = passed (201, codes "/api/v1/runs/" ++ run.name, view_run run)

abbrev with_details : ℕ → Message → List Message → ErrorReply
with_details status message details = record (write_error status message) { details = details }

module _ (codec : Codec) (decode_entrypoints : Text → Result (List AppEntrypoint)) where
  abbrev is_app : StepType → Bool
  is_app app = true
  is_app _ = false

  -- what the early check knows of one param's value
  abbrev early_value : StepType → Text → Result Text → Assoc Text → Assoc Text
  early_value type k (ok v) resolved = insert k v resolved
  early_value type k (err x) resolved =
      if is_app type then insert k pending_value resolved else resolved

  -- the loop over a step's params: `resolved` and `declared`
  early_params : StepType → Context → Assoc Text → Assoc Text × ℕ → Assoc Text × ℕ
  unfolding validates_early resolve insert
  early_params type ctx [] acc = acc
  early_params type ctx ((k, v) ∷ rest) (resolved, declared) =
      if not (validates_early type k)
      then early_params type ctx rest (resolved, declared)
      else early_params type ctx rest
          (early_value type k (resolve codec v ctx) resolved, suc declared)

  abbrev keyed : Text → Option Error → List Error
  keyed key none = []
  keyed key (some x) = wrap (format "step %q" (text_arg key end)) x ∷ []

  abbrev instance_context : Instance → Assoc Value → Context
  instance_context inst values = record {
    params = values;
    config = [];
    steps = [];
    item = inst.item;
    item_fields = inst.item_fields;
  }

  check_instance : Instance → Assoc Text × ℕ → List Error
  unfolding validate_external_auth_params validate_app_params
  check_instance inst (resolved, declared) =
      if ltb (length resolved) declared
      then []
      else keyed inst.key (validate_external_auth_params inst.step.type resolved)
        ++ keyed inst.key (validate_app_params decode_entrypoints inst.step.type resolved)

  -- the errors that `validateStepParams` joins
  unfoldable pub validate_step_params : List Instance → Assoc Value → List Error
  unfolding check_instance early_params
  validate_step_params [] values = []
  validate_step_params (inst ∷ insts) values =
      check_instance inst
        (early_params inst.step.type (instance_context inst values) inst.step.params ([], 0))
      ++ validate_step_params insts values

  check_plan : Result (List Instance) → Assoc Value → Joined
  unfolding validate_step_params join_all
  check_plan (err x) values = problems x
  check_plan (ok insts) values = join_all (validate_step_params insts values)

  after_values : WizardDefinitionSpec → Assoc Value → Joined → Joined
  unfolding check_plan expand
  after_values def values (problems x) = problems x
  after_values def values fine = check_plan (expand def values) values

  -- the problems of the parameters, given what `ResolveParameters` returns
  unfoldable pub check_values : WizardDefinitionSpec → Assoc Value × List Error → Joined
  unfolding after_values join_all
  check_values def (values, errs) = after_values def values (join_all errs)

  module _ {W : Type 0} (dns_problems : Text → List Message)
      (get_definition : Text → Action W Definition)
      (create_object : NewRun → Action W WizardRun) where
    with_parameters : CreateRunRequest → Caller → Definition → Joined → W → Reply × W
    unfolding created error_details
    with_parameters req caller def (problems x) w =
        (refused (with_details 422 (format "invalid parameters" end) (error_details x)), w)
    with_parameters req caller def fine w =
        let (r, w') = create_object (new_run req caller def) w in (created r, w')

    with_valid : CreateRunRequest → Caller → Definition → Joined → W → Reply × W
    unfolding with_parameters error_details check_values resolve_parameters
    with_valid req caller def (problems x) w =
        (refused (with_details 422 (format "the definition is invalid" end) (error_details x)), w)
    with_valid req caller def fine w =
        with_parameters req caller def
          (check_values def.spec (resolve_parameters codec def.spec.parameters req.parameters)) w

    with_definition : CreateRunRequest → Caller → Result Definition → W → Reply × W
    unfolding with_valid not_found_or_internal validate_definition join_all
    with_definition req caller (err x) w =
        (refused (not_found_or_internal x (codes "definition")), w)
    with_definition req caller (ok def) w =
        with_valid req caller def (join_all (validate_definition codec def.spec)) w

    find_definition : CreateRunRequest → Caller → W → Reply × W
    unfolding with_definition
    find_definition req caller w =
        let (r, w') = get_definition req.definition w in with_definition req caller r w'

    -- what is wrong with the name, if one is given
    abbrev name_problems : Text → List Message
    name_problems name = if is_empty name then [] else dns_problems name

    with_name : CreateRunRequest → Caller → List Message → W → Reply × W
    unfolding find_definition
    with_name req caller [] w = find_definition req caller w
    with_name req caller (m ∷ ms) w =
        (refused (with_details 400 (format "invalid run name" end) (m ∷ ms)), w)

    unfoldable pub create_run : CreateRunRequest → Caller → W → Reply × W
    unfolding with_name
    create_run req caller w =
        if is_empty req.definition
        then (refused (write_error 400 (format "definition is required" end)), w)
        else with_name req caller (name_problems req.name) w
