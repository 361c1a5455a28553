-- ===== src/Plan/Examples.antt =====
-- A plan of two steps, the second of them for each of two files.
use fusion_wizard.Prelude.{
  ◌≡◌, refl, none, some, List, [], ◌∷◌, ◌++◌, Text, codes, Assoc, All, text_eq, contains,
}
use fusion_wizard.Action.{ok}
use fusion_wizard.Api.Definition.{WizardStep, WizardDefinitionSpec, app, trigger}
use fusion_wizard.Params.Values.{Value, list_value}
use fusion_wizard.Params.Render.{resolve_list}
use fusion_wizard.Plan.{Instance, values_only, expand}
use fusion_wizard.Plan.Keys.{Planned, DistinctKeys, HasItem, expand-Planned}

abbrev pub app_step : WizardStep
app_step = record { name = codes "app"; type = app; for_each = []; params = [] }

abbrev pub trigger_step : WizardStep
trigger_step = record {
  name = codes "runs";
  type = trigger;
  for_each = codes "${params.files}";
  params = [];
}

abbrev pub two_steps : WizardDefinitionSpec
two_steps = record { description = []; parameters = []; steps = app_step ∷ trigger_step ∷ [] }

abbrev two_files : Assoc Value
two_files = (codes "files", list_value (codes "a.py" ∷ codes "b.py" ∷ [])) ∷ []

abbrev pub app_instance : Instance
app_instance = record { key = codes "app"; step = app_step; item = none; item_fields = none }

abbrev pub file_instance : Text → Instance
file_instance file = record {
  key = codes "runs/" ++ file;
  step = trigger_step;
  item = some file;
  item_fields = none;
}

abbrev plan_of_two : List Instance
plan_of_two = app_instance ∷ file_instance (codes "a.py") ∷ file_instance (codes "b.py") ∷ []

expand_two : expand two_steps two_files ≡ ok plan_of_two
unfolding expand contains resolve_list text_eq
expand_two = refl

expand-Planned_example :
    Planned (values_only two_files) two_steps.steps plan_of_two
    × DistinctKeys plan_of_two
    × All (λ i. HasItem i.item) plan_of_two
expand-Planned_example = expand-Planned two_steps two_files plan_of_two expand_two
