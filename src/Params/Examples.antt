-- ===== src/Params/Examples.antt =====
-- The theorems on templates and filters at concrete texts.
use fusion_wizard.Prelude.{
  Assoc, Text, true, ◌≢◌, refl, contains, lookup, insert, text_eq, ◌≡◌, ◌↔◌, none, some, [], ◌∷◌,
  codes, All,
}
use fusion_wizard.Errors.{plain, format, end}
use fusion_wizard.Action.{ok, err}
use fusion_wizard.Api.Definition.{ParameterType, WizardParameter}
use fusion_wizard.Params.Parameters.{
  Pattern, decode, check_objects, match_text, is_null, resolve_parameters,
}
use fusion_wizard.Params.Parameters.Accepted.{IsValue, HasPattern, decode-IsValue}
use fusion_wizard.Params.Parameters.Resolved.{Known, resolve_parameters_lem}
use fusion_wizard.Params.Values.{Value, objects_value, Codec}
use fusion_wizard.Params.Filters.{k8s_name}
use fusion_wizard.Params.Filters.Labels.{IsLabel, k8s_name-IsLabel}
use fusion_wizard.Params.Template.{RefKind, literal, placeholder, Template, flush, parse, refs}
use fusion_wizard.Params.Template.Escape.{escape, parse-escape}
use fusion_wizard.Params.Render.{Context, render, render_ref, resolve}
use fusion_wizard.Params.Render.Laws.{IsOk, resolve-escape, render-IsOk_iff}

-- no value decodes, and no pattern compiles
abbrev pub no_codec : Codec
no_codec = record {
  unmarshal_text = λ t. none;
  unmarshal_number = λ t. none;
  unmarshal_bool = λ t. none;
  unmarshal_list = λ t. none;
  unmarshal_objects = λ t. none;
  marshal_objects = λ l. [];
  compile = λ t. err (plain (format "no pattern" end));
}

abbrev pub item_context : Context
item_context = record {
  params = [];
  config = [];
  steps = [];
  item = some (codes "main.py");
  item_fields = none;
}

k8s_name-IsLabel_example : IsLabel (k8s_name (codes "--My App_v1.0!"))
k8s_name-IsLabel_example = k8s_name-IsLabel (codes "--My App_v1.0!")

parse-escape_example :
    parse (escape (codes "run-${ item }")) ≡ ok (flush (codes "run-${ item }") [])
parse-escape_example = parse-escape (codes "run-${ item }")

resolve-escape_example :
    resolve no_codec (escape (codes "run-${ item }")) item_context ≡ ok (codes "run-${ item }")
resolve-escape_example = resolve-escape no_codec (codes "run-${ item }") item_context

abbrev two_refs : Template
two_refs =
    literal (codes "run ")
    ∷ placeholder (record {
      kind = RefKind.ref_item;
      name = [];
      key = [];
      filters = [];
      raw = codes "${item}";
    })
    ∷ placeholder (record {
      kind = RefKind.ref_config;
      name = [];
      key = codes "zone";
      filters = [];
      raw = codes "${config.zone}";
    })
    ∷ []

render-IsOk_iff_example :
    IsOk no_codec (render no_codec two_refs item_context)
    ↔ All (λ r. IsOk no_codec (render_ref no_codec r item_context)) (refs two_refs)
render-IsOk_iff_example = render-IsOk_iff no_codec item_context two_refs

-- Reads a text, a list of a given text, and an object with that text as its key.
abbrev raw_codec : Codec
raw_codec = record no_codec {
  unmarshal_text = λ t. some t;
  unmarshal_list = λ t. some (t ∷ []);
  unmarshal_objects = λ t. some (((codes "key", t) ∷ []) ∷ []);
}

abbrev files_parameter : WizardParameter
files_parameter = record {
  name = codes "files";
  type = ParameterType.object_list;
  description = [];
  required = true;
  default = none;
  pattern = [];
}

abbrev one_file : Value
one_file = objects_value (((codes "key", codes "a.py") ∷ []) ∷ [])

decode_lem : decode raw_codec files_parameter (codes "a.py") ≡ ok one_file
unfolding decode check_objects match_text contains lookup text_eq
decode_lem = refl

decode-IsValue_example :
    (p : Pattern) × HasPattern raw_codec files_parameter p
    × IsValue true p ParameterType.object_list one_file
decode-IsValue_example = decode-IsValue raw_codec files_parameter (codes "a.py") one_file decode_lem

abbrev one_supplied : Assoc Text
one_supplied = (codes "files", codes "a.py") ∷ []

resolved_lem : (resolve_parameters raw_codec (files_parameter ∷ []) one_supplied).1 ≡ []
unfolding resolve_parameters decode check_objects match_text contains lookup text_eq insert is_null
resolved_lem = refl

resolve_parameters_lem_example :
    All (Known raw_codec one_supplied (files_parameter ∷ [])) one_supplied
    × All
        (λ d.
          d.required ≡ true
          → lookup d.name (resolve_parameters raw_codec (files_parameter ∷ []) one_supplied).0
            ≢ none)
        (files_parameter ∷ [])
resolve_parameters_lem_example =
    resolve_parameters_lem raw_codec one_supplied (files_parameter ∷ []) resolved_lem
