-- ===== src/Steps/Validate/Examples.antt =====
-- The theorems on valid definitions at a definition of two steps.
use fusion_wizard.Prelude.{
  ◌≡◌, refl, subst, ◌∙◌, ap, true, false, none, some, List, [], ◌∷◌, map, Text, codes, Assoc,
  text_eq, text_lt, lookup, insert, contains, All, arith,
}
use fusion_wizard.Action.{ok-injective}
use fusion_wizard.Errors.{join_all}
use fusion_wizard.Api.Definition.{
  ParameterType, WizardParameter, WizardStep, WizardDefinitionSpec, git_watcher, wait_build,
  type_name,
}
use fusion_wizard.Params.Examples.{no_codec}
use fusion_wizard.Params.Values.{text_value}
use fusion_wizard.Params.Template.{RefKind, parse, refs}
use fusion_wizard.Params.Render.{Context, by_key, resolve_map}
use fusion_wizard.Params.Parameters.{resolve_parameters}
use fusion_wizard.Steps.Step.{allows}
use fusion_wizard.Steps.Catalog.{config_keys, outputs_of, params_of, order_index}
use fusion_wizard.Steps.References.{check_refs, check_for_each}
use fusion_wizard.Steps.Validate.{check_parameters, validate_definition}
use fusion_wizard.Steps.Validate.Laws.{InOrder, validate_definition-InOrder}
use fusion_wizard.Steps.Validate.Renders.{
  Supplies, HasField, HasFields, earlier_after, validate_definition-resolve_map,
}

abbrev name_parameter : WizardParameter
name_parameter = record {
  name = codes "name";
  type = ParameterType.string;
  description = [];
  required = false;
  default = none;
  pattern = [];
}

abbrev pub watch_step : WizardStep
watch_step = record {
  name = codes "watch";
  type = git_watcher;
  for_each = [];
  params =
      (codes "name", codes "${params.name}") ∷ (codes "repoUrl", codes "${config.forgeURL}") ∷ [];
}

abbrev pub build_step : WizardStep
build_step = record {
  name = codes "build";
  type = wait_build;
  for_each = [];
  params = (codes "watcher", codes "${steps.watch.outputs.name}") ∷ [];
}

abbrev pub built : WizardDefinitionSpec
built = record {
  description = [];
  parameters = name_parameter ∷ [];
  steps = watch_step ∷ build_step ∷ [];
}

built_valid : validate_definition no_codec built ≡ []
unfolding validate_definition text_eq contains lookup insert params_of order_index type_name
    outputs_of check_refs check_for_each allows by_key resolve_parameters join_all parse refs
    text_lt
built_valid = refl

validate_definition-InOrder_example : InOrder (watch_step ∷ build_step ∷ [])
validate_definition-InOrder_example = validate_definition-InOrder no_codec built built_valid

one_lem :
    {V : Type 0} (k : Text) (v : V) (n : Text) (x : V)
    → lookup n ((k, v) ∷ []) ≡ some x
    → (text_eq k n ≡ true) × (v ≡ x)
unfolding lookup
one_lem k v n x h = ground arith

abbrev marked : List Text → Assoc Text
marked ks = map (λ k. (k, codes "x")) ks

marked_lem :
    (ks : List Text) (k : Text) → contains ks k ≡ true → lookup k (marked ks) ≡ some (codes "x")
unfolding lookup contains
marked_lem [] k h = cc
marked_lem (j ∷ ks) k h = ground (arith, marked_lem ks k)

abbrev build_context : Context
build_context = record {
  params = (codes "name", text_value (codes "x")) ∷ [];
  config = marked config_keys;
  steps = (codes "watch", marked (outputs_of git_watcher)) ∷ [];
  item = none;
  item_fields = none;
}

false-ne-true : false ≡ true → ⊥
false-ne-true h = cc

build_supplied :
    Supplies build_context
      (check_parameters no_codec (name_parameter ∷ []) []).0
      (earlier_after no_codec (watch_step ∷ []) [])
      false
unfolding check_parameters earlier_after insert lookup
build_supplied = record {
  params = λ n p found plain. (
    text_value (codes "x"),
    rw (lookup, (one_lem (codes "name") name_parameter n p found).0) refl,
    tt,
  );
  config = λ k known. (codes "x", marked_lem config_keys k known);
  steps = λ n k s found once out.
      let (same, e) = one_lem (codes "watch") _ n s found in
      (
        marked (outputs_of git_watcher),
        codes "x",
        rw (lookup, same) refl,
        marked_lem (outputs_of git_watcher) k (ap (λ s. contains (outputs_of s.type) k) e ∙ out),
      );
  item = λ h. absurd (false-ne-true h);
}

steps-ne-item : RefKind.ref_steps ≡ RefKind.ref_item → ⊥
steps-ne-item h = cc

build_fields : All (λ p. HasFields no_codec build_context p.1) (by_key no_codec build_step.params)
unfolding by_key parse refs text_eq
build_fields = (
  λ t h.
      subst (λ t. All (λ r. HasField build_context r.kind r) (refs t)) (ok-injective h)
        (λ e. absurd (steps-ne-item e), tt),
  tt,
)

validate_definition-resolve_map_example :
    (resolve_map no_codec build_step.params build_context).1 ≡ []
validate_definition-resolve_map_example =
    validate_definition-resolve_map no_codec built (watch_step ∷ []) build_step [] build_context
      built_valid refl build_supplied build_fields
