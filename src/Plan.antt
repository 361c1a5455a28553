-- ===== src/Plan.antt =====
-- internal/plan/plan.go: a definition's ordered step instances.
pub mod Keys
pub mod Examples
use fusion_wizard.Prelude.{
  Bool, true, false, Option, none, some, List, [], ◌∷◌, ◌++◌, Text, codes, Assoc, is_empty,
  contains, if◌then◌else◌,
}
use fusion_wizard.Errors.{Error, plain, wrap, format, end, text_arg}
use fusion_wizard.Action.{Result, ok, err}
use fusion_wizard.Api.Definition.{WizardStep, WizardDefinitionSpec}
use fusion_wizard.Params.Values.{Value}
use fusion_wizard.Params.Render.{Context, ForEachItem, resolve_list}

pub record Instance : Type 0 where
  pub key : Text
  pub step : WizardStep
  pub item : Option Text
  pub item_fields : Option (Assoc Text)

-- the set `seen` and the slice `out`
pub record Expansion : Type 0 where
  pub seen : List Text
  pub out : List Instance

-- the closure `add`
unfoldable pub add : Instance → Expansion → Result Expansion
add inst x =
    if contains x.seen inst.key
    then err (
        plain (
          format "step instance %q occurs twice (forEach items must be unique)"
            (text_arg inst.key end)))
    else ok (record { seen = inst.key ∷ x.seen; out = x.out ++ inst ∷ [] })

abbrev pub item_instance : WizardStep → ForEachItem → Instance
item_instance st it = record {
  key = st.name ++ codes "/" ++ it.key;
  step = st;
  item = some it.key;
  item_fields = it.fields;
}

abbrev pub step_instance : WizardStep → Instance
step_instance st = record { key = st.name; step = st; item = none; item_fields = none }

-- the loop over the items of a forEach
pub add_items : WizardStep → List ForEachItem → Expansion → Result Expansion
add_items st [] x = ok x
add_items st (it ∷ its) x =
    if is_empty it.key
    then err (plain (format "step %q: forEach items must not be empty" (text_arg st.name end)))
    else elim (add (item_instance st it) x) [ err e ↦ err e | ok x' ↦ add_items st its x' ]

pub add_step : Context → WizardStep → Expansion → Result Expansion
unfolding add_items add
add_step ctx st x =
    if is_empty st.for_each then add (step_instance st) x else elim (resolve_list st.for_each ctx) [
      | err e ↦ err (wrap (format "step %q" (text_arg st.name end)) e)
      | ok its ↦ add_items st its x
    ]

pub add_steps : Context → List WizardStep → Expansion → Result Expansion
unfolding add_step
add_steps ctx [] x = ok x
add_steps ctx (st ∷ sts) x = elim (add_step ctx st x) [
  | err e ↦ err e
  | ok x' ↦ add_steps ctx sts x'
]

abbrev pub values_only : Assoc Value → Context
values_only values = record {
  params = values;
  config = [];
  steps = [];
  item = none;
  item_fields = none;
}

abbrev out_of : Result Expansion → Result (List Instance)
out_of (err e) = err e
out_of (ok x) = ok x.out

unfoldable pub expand : WizardDefinitionSpec → Assoc Value → Result (List Instance)
unfolding add_steps
expand def values =
    out_of (add_steps (values_only values) def.steps (record { seen = []; out = [] }))
