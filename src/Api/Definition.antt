-- ===== src/Api/Definition.antt =====
-- api/v1alpha1/wizarddefinition_types.go: what a wizard consists of.
use fusion_wizard.Prelude.{Bool, List, Option, Text, Assoc, codes}

-- A string type with nine constants; `unknown_type` is any other string.
pub data StepType : Type 0 where
  git_watcher wait_build tag app job_template service_template chain trigger batch_trigger :
      StepType
  unknown_type : Text → StepType

-- the constants' texts
unfoldable pub type_name : StepType → Text
type_name git_watcher = codes "gitWatcher"
type_name wait_build = codes "waitBuild"
type_name tag = codes "tag"
type_name app = codes "app"
type_name job_template = codes "jobTemplate"
type_name service_template = codes "serviceTemplate"
type_name chain = codes "chain"
type_name trigger = codes "trigger"
type_name batch_trigger = codes "batchTrigger"
type_name (unknown_type t) = t

-- `other_type` is any other string, the empty one included.
pub data ParameterType : Type 0 where
  string number boolean string_list object_list : ParameterType
  other_type : Text → ParameterType

-- `default` holds the bytes of a JSON value.
pub record WizardParameter : Type 0 where
  pub name : Text
  pub type : ParameterType
  pub description : Text
  pub required : Bool
  pub default : Option Text
  pub pattern : Text

pub record WizardStep : Type 0 where
  pub name : Text
  pub type : StepType
  pub for_each : Text
  pub params : Assoc Text

pub record WizardDefinitionSpec : Type 0 where
  pub description : Text
  pub parameters : List WizardParameter
  pub steps : List WizardStep
