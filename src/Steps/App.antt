-- ===== src/Steps/App.antt =====
-- internal/steps/appstep.go and weavesteps.go: the checks on the params of app, chain and trigger
-- steps, which the API makes when a run is created and the steps make when they run.
--
-- JSON is the parameter `decode_entrypoints`.
pub mod Early
pub mod Examples
use fusion_wizard.Prelude.{
  ℕ, suc, Bool, true, false, not, ◌&&◌, ◌||◌, Option, none, some, List, [], ◌∷◌, ◌++◌, Text, codes,
  Assoc, lookup, insert, text_eq, is_empty, length, take, drop, leb, ltb, ◌==◌, if◌then◌else◌,
  String,
}
use fusion_wizard.Prelude.Int.{ℤ, pos, negsuc}
use fusion_wizard.Errors.{
  Message, format, end, text_arg, message_arg, Error, error_message, permanent, plain,
}
use fusion_wizard.Action.{Result, ok, err}
use fusion_wizard.Api.Definition.{StepType, app, chain, trigger}
use fusion_wizard.Params.Ascii.{has_byte, has_prefix, last_index, trim_right}
use fusion_wizard.Params.Filters.{k8s_name, stem}
use fusion_wizard.Steps.Numbers.{parse_int}

-- `p[k]`: a missing key reads as empty
abbrev or_empty : Option Text → Text
or_empty none = []
or_empty (some v) = v

unfoldable pub value : Assoc Text → Text → Text
unfolding lookup
value p k = or_empty (lookup k p)

-- `Pending`
abbrev pub pending_value : Text
pending_value = 0 ∷ codes "pending"

abbrev pub is_known : Text → Bool
is_known v = not (text_eq v pending_value)

-- `permanentf`; a nil error is `none`
abbrev pub permanentf : Message → Error
permanentf m = permanent (plain m)

abbrev pub first : Option Error → Option Error → Option Error
first none next = next
first (some x) next = some x

-- `strings.ContainsAny(image, " \t\n")`
abbrev has_space : Text → Bool
has_space image = has_byte 32 image || has_byte 9 image || has_byte 10 image

-- `strings.Contains`
abbrev contains_text : Text → Text → Bool
contains_text part [] = is_empty part
contains_text part (c ∷ cs) = has_prefix part (c ∷ cs) || contains_text part cs

after_index : Option ℕ → Text → Text
after_index none s = s
after_index (some i) s = drop (suc i) s

tag_of : Option ℕ → Text → Bool
unfolding text_eq
tag_of none name = false
tag_of (some i) name =
    let tag = drop (suc i) name in not (is_empty tag) && not (text_eq tag (codes "latest"))

unfoldable pub has_immutable_ref : Text → Bool
unfolding after_index tag_of last_index has_prefix
has_immutable_ref image =
    if contains_text (codes "@sha256:") image
    then true
    else let name = after_index (last_index b'/' image) image in tag_of (last_index b':' name) name

unfoldable pub validate_immutable_image : Text → Option Error
unfolding has_byte has_immutable_ref
validate_immutable_image image =
    if is_empty image || has_space image
    then some (permanentf (format "image %q is empty or contains whitespace" (text_arg image end)))
    else if not (has_immutable_ref image)
    then some (
        permanentf (
          format "image %q must have an explicit tag (not \":latest\") or a digest"
            (text_arg image end)))
    else none

-- an externalAuthRef: its mode and name; a nil map is `none`
abbrev pub AuthRef : Type 0
AuthRef = Option (Text × Text)

unfoldable pub external_auth : Text → Text → Text → Text → Result AuthRef
unfolding text_eq
external_auth mode_key name_key mode name =
    if is_empty mode && is_empty name
    then ok none
    else if is_empty mode || is_empty name
    then err (
        permanentf
          (format "%s and %s must be set together" (text_arg mode_key (text_arg name_key end))))
    else if not (text_eq mode (codes "serviceAccount")) && not (text_eq mode (codes "oidc"))
    then err (
        permanentf (
          format "%s %q is not supported (use serviceAccount or oidc)"
            (text_arg mode_key (text_arg mode end))))
    else ok (some (mode, name))

-- `externalAuthFromParams`
unfoldable pub external_auth_of : Assoc Text → Text → Text → Result AuthRef
unfolding external_auth value
external_auth_of p mode_key name_key =
    external_auth mode_key name_key (value p mode_key) (value p name_key)

abbrev pub error_of_ref : Result AuthRef → Option Error
error_of_ref (ok ref) = none
error_of_ref (err x) = some x

unfoldable pub validate_external_auth_params : StepType → Assoc Text → Option Error
unfolding external_auth_of
validate_external_auth_params chain p =
    error_of_ref (external_auth_of p (codes "externalAuthMode") (codes "externalAuthName"))
validate_external_auth_params trigger p =
    error_of_ref
      (external_auth_of p (codes "externalAuthOverrideMode") (codes "externalAuthOverrideName"))
validate_external_auth_params _ p = none

pub record AppEntrypoint : Type 0 where
  pub key : Text
  pub type : Text
  pub schedule : Text

abbrev pub max_entrypoint_name : ℕ
max_entrypoint_name = 40

-- `(appEntrypoint).name`
unfoldable pub entrypoint_name : Text → Text
unfolding k8s_name stem trim_right
entrypoint_name key =
    let n = k8s_name (stem key) in
    if ltb max_entrypoint_name (length n) then trim_right (take max_entrypoint_name n) else n

-- `strconv.Atoi` and the bounds
abbrev in_port_range : Option ℤ → Bool
in_port_range none = false
in_port_range (some (pos n)) = leb 1 n && leb n 65535
in_port_range (some (negsuc n)) = false

check_port : Text → Option Error
unfolding parse_int text_eq
check_port port =
    if is_known port && not (is_empty port)
    then if in_port_range (parse_int port)
      then none
      else some (permanentf (format "port %q is not a valid port number" (text_arg port end)))
    else none

-- a param that is only valid for the other kind of app
check_absent : String → Text → Text → Option Error
unfolding text_eq
check_absent only key v =
    if is_known v && not (is_empty v)
    then some (permanentf (format only (text_arg key end)))
    else none

check_code : Text → Text → Text → Option Error
unfolding text_eq validate_immutable_image
check_code artifact tag image =
    if is_known artifact && is_known tag
    then if (is_empty artifact && not (is_empty tag)) || (not (is_empty artifact) && is_empty tag)
      then some (
          permanentf
            (format "app needs artifactName and tag together, or neither (image only)" end))
      else if is_empty artifact && is_known image
      then validate_immutable_image image
      else none
    else none

check_ref : Bool → Result AuthRef → Option Error
check_ref service (err x) = some x
check_ref service (ok none) = none
check_ref service (ok (some ref)) =
    if service
    then some (
        permanentf (
          format
            "externalAuth is not supported for a service app (its token would expire under a long-running deployment)"
            end))
    else none

check_auth : Bool → Text → Text → Option Error
unfolding check_ref external_auth text_eq
check_auth service mode name =
    if is_known mode && is_known name
    then check_ref service
        (external_auth (codes "externalAuthMode") (codes "externalAuthName") mode name)
    else none

-- the `switch` on one entrypoint
check_type : AppEntrypoint → Option Error
unfolding text_eq
check_type e =
    if not (is_empty e.type)
      && not (text_eq e.type (codes "OnDemand"))
      && not (text_eq e.type (codes "Cron"))
    then some (
        permanentf (
          format "entrypoint %q: type %q is not supported (use OnDemand or Cron)"
            (text_arg e.key (text_arg e.type end))))
    else if text_eq e.type (codes "Cron") && is_empty e.schedule
    then some (
        permanentf
          (format "entrypoint %q: a Cron entrypoint needs a schedule" (text_arg e.key end)))
    else if not (text_eq e.type (codes "Cron")) && not (is_empty e.schedule)
    then some (
        permanentf (
          format "entrypoint %q: schedule is only valid for a Cron entrypoint"
            (text_arg e.key end)))
    else none

check_seen : AppEntrypoint → Option Text → Option Error
unfolding entrypoint_name
check_seen e none = none
check_seen e (some other) = some (
    permanentf (
      format "entrypoints %q and %q both map to the name %q"
        (text_arg other (text_arg e.key (text_arg (entrypoint_name e.key) end)))))

-- the loop over the entrypoints; `seen` has their keys by their names
check_list : List AppEntrypoint → Assoc Text → Option Error
unfolding check_type check_seen entrypoint_name lookup insert
check_list [] seen = none
check_list (e ∷ es) seen = first (check_type e) (
    first (check_seen e (lookup (entrypoint_name e.key) seen))
      (check_list es (insert (entrypoint_name e.key) e.key seen)))

module _ (decode_entrypoints : Text → Result (List AppEntrypoint)) where
  check_decoded : Result (List AppEntrypoint) → Option Error
  unfolding check_list
  check_decoded (err x) = some (
      permanentf (
        format "entrypoints is not a JSON list of objects: %v" (message_arg (error_message x) end)))
  check_decoded (ok []) = some (permanentf (format "entrypoints must not be empty" end))
  check_decoded (ok (e ∷ es)) = check_list (e ∷ es) []

  check_entrypoints : Text → Text → Text → Option Error
  unfolding check_decoded text_eq
  check_entrypoints entrypoints schedule fire =
      if not (is_known entrypoints) || not (is_known schedule) || not (is_known fire)
      then none
      else if is_empty entrypoints
      then none
      else if not (is_empty schedule) || text_eq fire (codes "true")
      then some (
          permanentf
            (format "schedule and fireOnCreate are only valid without an entrypoints list" end))
      else check_decoded (decode_entrypoints entrypoints)

  -- the part that is only for services, or only for jobs
  check_kind_params : Bool → Assoc Text → Option Error
  unfolding check_absent check_port check_entrypoints value
  check_kind_params true p =
      first
        (check_absent "%s is only valid for a job app" (codes "entrypoints")
          (value p (codes "entrypoints")))
        (first
          (check_absent "%s is only valid for a job app" (codes "schedule")
            (value p (codes "schedule")))
          (first
            (check_absent "%s is only valid for a job app" (codes "fireOnCreate")
              (value p (codes "fireOnCreate")))
            (check_port (value p (codes "port")))))
  check_kind_params false p =
      first
        (check_absent "%s is only valid for a service app" (codes "port") (value p (codes "port")))
        (first
          (check_absent "%s is only valid for a service app" (codes "ingressName")
            (value p (codes "ingressName")))
          (check_entrypoints (value p (codes "entrypoints")) (value p (codes "schedule"))
            (value p (codes "fireOnCreate"))))

  -- the checks once the app's type is known
  check_parts : Bool → Assoc Text → Option Error
  unfolding check_code check_auth check_kind_params value
  check_parts service p =
      first
        (check_code (value p (codes "artifactName")) (value p (codes "tag"))
          (value p (codes "image")))
        (first
          (check_auth service (value p (codes "externalAuthMode"))
            (value p (codes "externalAuthName")))
          (check_kind_params service p))

  check_app : Text → Assoc Text → Option Error
  unfolding check_parts text_eq
  check_app type p =
      if not (is_known type)
      then none
      else if not (text_eq type (codes "service")) && not (text_eq type (codes "job"))
      then some (
          permanentf
            (format "app type %q is not supported (use service or job)" (text_arg type end)))
      else check_parts (text_eq type (codes "service")) p

  unfoldable pub validate_app_params : StepType → Assoc Text → Option Error
  unfolding check_app value
  validate_app_params app p = check_app (value p (codes "type")) p
  validate_app_params _ p = none

-- `ValidatesEarly`
unfoldable pub validates_early : StepType → Text → Bool
unfolding has_prefix text_eq
validates_early chain key = has_prefix (codes "externalAuth") key
validates_early trigger key = has_prefix (codes "externalAuth") key
validates_early app key = not (text_eq key (codes "name"))
validates_early _ key = false
