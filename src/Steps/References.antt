-- ===== src/Steps/References.antt =====
-- internal/steps/catalog.go: the references of a definition's params and forEach sources.
use fusion_wizard.Prelude.{
  Bool, true, false, not, ◌&&◌, Option, none, some, List, [], ◌∷◌, ◌++◌, Text, codes, Assoc, lookup,
  contains, is_empty, if◌then◌else◌,
}
use fusion_wizard.Errors.{
  Message, format, colon, end, text_arg, message_arg, Error, plain, error_message,
}
use fusion_wizard.Action.{ok, err}
use fusion_wizard.Api.Definition.{StepType, type_name, ParameterType, WizardParameter, WizardStep}
use fusion_wizard.Params.Ascii.{join_with}
use fusion_wizard.Params.Template.{
  RefKind, ref_params, ref_config, ref_steps, ref_item, Ref, parse, refs,
}
use fusion_wizard.Params.Render.{list_ref}
use fusion_wizard.Steps.Catalog.{outputs_of, config_keys}

-- `earlierStep`, with the step's type for the step
pub record EarlierStep : Type 0 where
  pub type : StepType
  pub for_each : Bool

abbrev pub fail : Message → List Error
fail m = plain m ∷ []

abbrev about : Message → Message → List Error
about place m = fail (format "%s %s" (message_arg place (message_arg m end)))

-- a problem after a colon
abbrev within : Message → Message → List Error
within place m = fail (colon place m)

abbrev pub is_string_list : ParameterType → Bool
is_string_list ParameterType.string_list = true
is_string_list _ = false

abbrev is_object_list : ParameterType → Bool
is_object_list ParameterType.object_list = true
is_object_list _ = false

abbrev pub Declared : Type 0
Declared = Assoc WizardParameter

abbrev pub Earlier : Type 0
Earlier = Assoc EarlierStep

unfoldable pub check_param_ref : Message → Ref → Option WizardParameter → List Error
check_param_ref place r none =
    about place (format "refers to undeclared parameter %q" (text_arg r.name end))
check_param_ref place r (some p) =
    if is_string_list p.type
    then within place (format "list parameter %q can only be used as forEach" (text_arg r.name end))
    else if is_object_list p.type && not (is_empty r.filters)
    then within place (
        format "objectList parameter %q renders as JSON and takes no filters" (text_arg r.name end))
    else []

unfoldable pub check_step_ref : Message → Ref → Option EarlierStep → List Error
unfolding outputs_of
check_step_ref place r none = about place (
    format "refers to step %q, which does not exist or does not run before it"
      (text_arg r.name end))
check_step_ref place r (some s) =
    if s.for_each
    then about place (
        format
          "refers to step %q, which has forEach: it runs several times, so its outputs are ambiguous"
          (text_arg r.name end))
    else if not (contains (outputs_of s.type) r.key)
    then about place (
        format "refers to output %q, which step %q (%s) does not provide (has: %s)" (
          text_arg r.key (
            text_arg r.name (
              text_arg (type_name s.type)
                (text_arg (join_with (codes ", ") (outputs_of s.type)) end)))))
    else []

unfoldable pub check_kind : Message → Bool → Declared → Earlier → RefKind → Ref → List Error
unfolding check_param_ref check_step_ref
check_kind place in_for_each declared earlier ref_params r =
    check_param_ref place r (lookup r.name declared)
check_kind place in_for_each declared earlier ref_config r =
    if contains config_keys r.name
    then []
    else about place (format "refers to unknown config key %q" (text_arg r.name end))
check_kind place in_for_each declared earlier ref_steps r =
    check_step_ref place r (lookup r.name earlier)
check_kind place in_for_each declared earlier ref_item r =
    if in_for_each then [] else about place (format "uses ${item} but the step has no forEach" end)

-- the loop over `t.Refs()`
unfoldable pub check_ref_list : Message → Bool → Declared → Earlier → List Ref → List Error
unfolding check_kind
check_ref_list place in_for_each declared earlier [] = []
check_ref_list place in_for_each declared earlier (r ∷ rs) =
    check_kind place in_for_each declared earlier r.kind r
    ++ check_ref_list place in_for_each declared earlier rs

unfoldable pub check_refs : Text → Message → Bool → Declared → Earlier → List Error
unfolding check_ref_list parse refs
check_refs value place in_for_each declared earlier = elim (parse value) [
  | err x ↦ within place (error_message x)
  | ok t ↦ check_ref_list place in_for_each declared earlier (refs t)
]

check_list_param : Text → Text → Option WizardParameter → List Error
check_list_param step name none =
    fail (
      format "step %q forEach refers to undeclared parameter %q"
        (text_arg step (text_arg name end)))
check_list_param step name (some p) =
    if not (is_string_list p.type) && not (is_object_list p.type)
    then fail (
        format "step %q forEach parameter %q must be of type stringList or objectList"
          (text_arg step (text_arg name end)))
    else []

unfoldable pub check_for_each : WizardStep → Declared → List Error
unfolding check_list_param list_ref
check_for_each st declared = elim (list_ref st.for_each) [
  | err x ↦ fail (format "step %q: %v" (text_arg st.name (message_arg (error_message x) end)))
  | ok name ↦ check_list_param st.name name (lookup name declared)
]
