-- ===== src/Steps/Catalog.antt =====
-- internal/steps/catalog.go: the step catalogue. The params and outputs of the single steps are
-- those that their `Params` and `Outputs` methods return.
use fusion_wizard.Prelude.{
  ℕ, suc, Bool, true, false, Option, none, some, List, [], ◌∷◌, Text, codes, text_eq, ltb,
  if◌then◌else◌,
}
use fusion_wizard.Api.Definition.{
  StepType, git_watcher, wait_build, tag, app, job_template, service_template, chain, trigger,
  batch_trigger, type_name,
}
use fusion_wizard.Steps.Step.{ParamSpec}

abbrev pub catalogue_order : List StepType
catalogue_order =
    git_watcher ∷ wait_build ∷ tag ∷ app ∷ job_template ∷ service_template ∷ chain ∷ trigger
    ∷ batch_trigger ∷ []

abbrev specified : List Text → List Text → List Text → ParamSpec
specified required optional prefixes = record {
  required = required;
  optional = optional;
  prefixes = prefixes;
}

-- `Params` of the step that `Lookup` finds; `none` where it finds none
unfoldable pub params_of : StepType → Option ParamSpec
params_of git_watcher = some (
    specified (codes "name" ∷ codes "repoUrl" ∷ [])
      (codes "repoRef" ∷ codes "projectDir" ∷ codes "autoPromote" ∷ codes "tag" ∷ []) [])
params_of wait_build = some (specified (codes "watcher" ∷ []) [] [])
params_of tag = some (
    specified (codes "artifactId" ∷ codes "artifactName" ∷ codes "version" ∷ []) (codes "tag" ∷ [])
      [])
params_of app = some (
    specified (codes "name" ∷ codes "type" ∷ [])
      (codes "image"
        ∷ codes "artifactName"
        ∷ codes "tag"
        ∷ codes "port"
        ∷ codes "ingressName"
        ∷ codes "schedule"
        ∷ codes "entrypoints"
        ∷ codes "fireOnCreate"
        ∷ codes "externalAuthMode"
        ∷ codes "externalAuthName"
        ∷ [])
      [])
params_of job_template =
    some
      (specified (codes "name" ∷ []) (codes "artifactName" ∷ codes "tag" ∷ codes "image" ∷ []) [])
params_of service_template = some (
    specified (codes "name" ∷ codes "port" ∷ [])
      (codes "artifactName" ∷ codes "tag" ∷ codes "image" ∷ codes "ingressName" ∷ []) [])
params_of chain = some (
    specified (codes "name" ∷ [])
      (codes "jobTemplate"
        ∷ codes "serviceTemplate"
        ∷ codes "stepName"
        ∷ codes "externalAuthMode"
        ∷ codes "externalAuthName"
        ∷ [])
      [])
params_of trigger = some (
    specified (codes "name" ∷ codes "chain" ∷ [])
      (codes "type"
        ∷ codes "schedule"
        ∷ codes "fireOnCreate"
        ∷ codes "externalAuthOverrideMode"
        ∷ codes "externalAuthOverrideName"
        ∷ [])
      (codes "override." ∷ []))
params_of batch_trigger = some (specified (codes "name" ∷ codes "chain" ∷ codes "jobs" ∷ []) [] [])
params_of _ = none

-- `Outputs` of that step
unfoldable pub outputs_of : StepType → List Text
outputs_of wait_build =
    codes "buildId"
    ∷ codes "name"
    ∷ codes "artifactName"
    ∷ codes "artifactId"
    ∷ codes "version"
    ∷ []
outputs_of tag = codes "tag" ∷ codes "version" ∷ []
outputs_of _ = codes "name" ∷ []

-- `orderIndex`; `none` is -1
abbrev index_in : ℕ → List StepType → StepType → Option ℕ
index_in i [] t = none
index_in i (o ∷ os) t =
    if text_eq (type_name o) (type_name t) then some i else index_in (suc i) os t

unfoldable pub order_index : StepType → Option ℕ
unfolding type_name
order_index t = index_in 0 catalogue_order t

-- `o < lastOrder`, where `none` is -1
abbrev pub is_before : Option ℕ → Option ℕ → Bool
is_before o none = false
is_before none (some l) = true
is_before (some o) (some l) = ltb o l

-- the keys of `configKeys`
abbrev pub config_keys : List Text
config_keys =
    codes "runnerImage"
    ∷ codes "tagName"
    ∷ codes "artifactPrefix"
    ∷ codes "chainStepName"
    ∷ codes "pollInterval"
    ∷ codes "buildTimeout"
    ∷ codes "forgeURL"
    ∷ codes "indexURL"
    ∷ codes "weaveURL"
    ∷ []
