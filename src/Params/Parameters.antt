-- ===== src/Params/Parameters.antt =====
-- internal/params/parameters.go: typed parameter values from a run's raw input.
pub mod Accepted
pub mod Resolved
use fusion_wizard.Prelude.{
  ℕ, ◌+◌, Bool, true, false, ◌&&◌, ◌||◌, Option, none, some, List, [], ◌∷◌, ◌++◌, map, Text, codes,
  Assoc, lookup, insert, contains, text_eq, is_empty, if◌then◌else◌,
}
use fusion_wizard.Errors.{Error, plain, wrap, format, end, text_arg, number_arg}
use fusion_wizard.Action.{Result, ok, err}
use fusion_wizard.Api.Definition.{ParameterType, WizardParameter}
use fusion_wizard.Params.Ascii.{trim_space}
use fusion_wizard.Params.Values.{
  Value, text_value, number_value, bool_value, list_value, objects_value, Codec,
}
use fusion_wizard.Params.Render.{by_key}

unfoldable pub is_null : Text → Bool
unfolding trim_space
is_null raw = is_empty (trim_space raw) || text_eq (trim_space raw) (codes "null")

-- the compiled pattern; nil matches everything
abbrev pub Pattern : Type 0
Pattern = Option (Text → Bool)

abbrev pub matches : Pattern → Text → Bool
matches none s = true
matches (some m) s = m s

-- the closure `match`
unfoldable pub match_text : Pattern → Text → Text → Result (Unit {0})
match_text p source s =
    if matches p s
    then ok tt
    else err (plain (format "%q does not match pattern %s" (text_arg s (text_arg source end))))

unfoldable pub match_list : Pattern → Text → List Text → Result (Unit {0})
unfolding match_text
match_list p source [] = ok tt
match_list p source (s ∷ ss) = elim (match_text p source s) [
  | err x ↦ err x
  | ok u ↦ match_list p source ss
]

abbrev or_empty : Option Text → Text
or_empty none = []
or_empty (some t) = t

-- `obj["key"]`
abbrev pub key_field : Assoc Text → Text
key_field obj = or_empty (lookup (codes "key") obj)

-- the loop over the entries of an objectList, from the entry `i` on
unfoldable pub check_objects :
    Pattern → Text → List Text → ℕ → List (Assoc Text) → Result (Unit {0})
unfolding match_text
check_objects p source seen i [] = ok tt
check_objects p source seen i (obj ∷ objs) =
    if is_empty (key_field obj)
    then err (
        plain (
          format "entry %d: must have a non-empty %q field"
            (number_arg i (text_arg (codes "key") end))))
    else if contains seen (key_field obj)
    then err (
        plain
          (format "entry %d: key %q is used twice" (number_arg i (text_arg (key_field obj) end))))
    else elim (match_text p source (key_field obj)) [
      | err x ↦ err x
      | ok u ↦ check_objects p source (key_field obj ∷ seen) (i + 1) objs
    ]

abbrev must_not_be_empty : Error
must_not_be_empty = plain (format "must not be empty" end)

-- a value once its checks have gone through
abbrev pub checked : Result (Unit {0}) → Value → Result Value
checked (err x) v = err x
checked (ok u) v = ok v

decode_number : Option Text → Result Value
decode_number none = err (plain (format "expected a number" end))
decode_number (some n) = ok (number_value n)

decode_bool : Option Bool → Result Value
decode_bool none = err (plain (format "expected a boolean" end))
decode_bool (some b) = ok (bool_value b)

decode_list : WizardParameter → Pattern → Option (List Text) → Result Value
unfolding match_list
decode_list d p none = err (plain (format "expected a list of strings" end))
decode_list d p (some l) =
    if d.required && is_empty l
    then err must_not_be_empty
    else checked (match_list p d.pattern l) (list_value l)

decode_objects : WizardParameter → Pattern → Option (List (Assoc Text)) → Result Value
unfolding check_objects
decode_objects d p none = err (plain (format "expected a list of objects with string values" end))
decode_objects d p (some l) =
    if d.required && is_empty l
    then err must_not_be_empty
    else checked (check_objects p d.pattern [] 0 l) (objects_value l)

decode_text : WizardParameter → Pattern → Option Text → Result Value
unfolding match_text
decode_text d p none = err (plain (format "expected a string" end))
decode_text d p (some s) =
    if d.required && is_empty s
    then err must_not_be_empty
    else checked (match_text p d.pattern s) (text_value s)

module _ (codec : Codec) where
  -- the `switch` on the type
  decode_type : WizardParameter → Pattern → ParameterType → Text → Result Value
  unfolding decode_number decode_bool decode_list decode_objects decode_text
  decode_type d p ParameterType.number raw = decode_number (codec.unmarshal_number raw)
  decode_type d p ParameterType.boolean raw = decode_bool (codec.unmarshal_bool raw)
  decode_type d p ParameterType.string_list raw = decode_list d p (codec.unmarshal_list raw)
  decode_type d p ParameterType.object_list raw = decode_objects d p (codec.unmarshal_objects raw)
  decode_type d p _ raw = decode_text d p (codec.unmarshal_text raw)

  with_pattern : WizardParameter → Text → Result (Text → Bool) → Result Value
  unfolding decode_type
  with_pattern d raw (err x) = err (wrap (format "definition has an invalid pattern" end) x)
  with_pattern d raw (ok m) = decode_type d (some m) d.type raw

  unfoldable pub decode : WizardParameter → Text → Result Value
  unfolding with_pattern decode_type
  decode d raw =
      if is_empty d.pattern
      then decode_type d none d.type raw
      else with_pattern d raw (codec.compile d.pattern)

  -- the raw value that counts: the one supplied, or else the default
  abbrev not_null : Option Text → Option Text
  not_null none = none
  not_null (some raw) = if is_null raw then none else some raw

  abbrev or_default : Option Text → Option Text → Option Text
  or_default none default = default
  or_default (some raw) default = some raw

  unfoldable pub raw_value : WizardParameter → Assoc Text → Option Text
  unfolding is_null
  raw_value d supplied = or_default (not_null (lookup d.name supplied)) (not_null d.default)

  -- the value of one parameter, `none` where it has none
  take_value : WizardParameter → Option Text → Result (Option Value)
  unfolding decode
  take_value d none =
      if d.required
      then err (plain (format "parameter %q is required" (text_arg d.name end)))
      else ok none
  take_value d (some raw) = elim (decode d raw) [
    | err x ↦ err (wrap (format "parameter %q" (text_arg d.name end)) x)
    | ok v ↦ ok (some v)
  ]

  abbrev noted_value :
      WizardParameter → Result (Option Value) → Assoc Value × List Error → Assoc Value × List Error
  noted_value d (err x) (out, errs) = (out, errs ++ x ∷ [])
  noted_value d (ok none) (out, errs) = (out, errs)
  noted_value d (ok (some v)) (out, errs) = (insert d.name v out, errs)

  resolve_params_loop :
      List WizardParameter → Assoc Text → Assoc Value × List Error → Assoc Value × List Error
  unfolding take_value raw_value
  resolve_params_loop [] supplied acc = acc
  resolve_params_loop (d ∷ ds) supplied acc =
      resolve_params_loop ds supplied (noted_value d (take_value d (raw_value d supplied)) acc)

  unknown_names : List WizardParameter → Assoc Text → List Text
  unknown_names ds [] = []
  unknown_names ds ((k, raw) ∷ rest) =
      let others = unknown_names ds rest in
      if contains (map (λ d. d.name) ds) k then others else k ∷ others

  -- `strings.Join(names, ", ")`
  abbrev joined : List Text → Text
  joined [] = []
  joined (n ∷ []) = n
  joined (n ∷ m ∷ ns) = n ++ codes ", " ++ joined (m ∷ ns)

  abbrev unknown_errors : List Text → List Error
  unknown_errors [] = []
  unknown_errors (n ∷ ns) =
      plain (format "unknown parameter(s): %s" (text_arg (joined (n ∷ ns)) end)) ∷ []

  -- `ResolveParameters`: the values and the errors that it joins
  unfoldable pub resolve_parameters : List WizardParameter → Assoc Text → Assoc Value × List Error
  unfolding resolve_params_loop unknown_names by_key
  resolve_parameters ds supplied =
      resolve_params_loop ds supplied
        ([], unknown_errors (unknown_names ds (by_key codec supplied)))
