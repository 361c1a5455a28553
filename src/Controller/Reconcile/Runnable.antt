-- ===== src/Controller/Reconcile/Runnable.antt =====
-- The runs that the reconciler can plan.
use fusion_wizard.Prelude.{◌≡◌, some, List, [], Assoc}
use fusion_wizard.Action.{ok}
use fusion_wizard.Api.Definition.{WizardDefinitionSpec}
use fusion_wizard.Api.Run.{WizardRunSpec}
use fusion_wizard.Params.Values.{Value, Codec}
use fusion_wizard.Params.Parameters.{resolve_parameters}
use fusion_wizard.Plan.{Instance, expand}
use fusion_wizard.Steps.Validate.{validate_definition}

-- The parameters of the definition resolve to the values, and its steps expand to the instances.
abbrev pub Plans :
    Codec → WizardRunSpec → WizardDefinitionSpec → Assoc Value → List Instance → Type 0
Plans codec spec def values insts =
    (spec.definition_snapshot ≡ some def)
    × (resolve_parameters codec def.parameters spec.parameters ≡ (values, []))
    × (expand def values ≡ ok insts)

-- The spec has a valid definition that makes a plan.
abbrev pub IsRunnable : Codec → WizardRunSpec → Type 0
IsRunnable codec spec =
    (def : WizardDefinitionSpec) × (values : Assoc Value) × (insts : List Instance)
    × (validate_definition codec def ≡ [])
    × Plans codec spec def values insts
