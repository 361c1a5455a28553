-- ===== src/Api/Run.antt =====
-- api/v1alpha1/wizardrun_types.go: one execution of a definition and its observed state.
use fusion_wizard.Prelude.{ℕ, Bool, List, Option, Text, Assoc}
use fusion_wizard.Errors.{Message}
use fusion_wizard.Api.Definition.{StepType, WizardDefinitionSpec}

pub data RunDesiredState : Type 0 where
  desired_applied desired_rolled_back desired_unset : RunDesiredState

-- `unset` is the empty string, before the first reconcile.
pub data RunPhase : Type 0 where
  unset pending running ready failed rolling_back rolled_back rollback_failed : RunPhase

pub data StepPhase : Type 0 where
  unset pending running succeeded failed rolled_back rollback_failed : StepPhase

pub data Disposition : Type 0 where
  created adopted found_unowned : Disposition

pub record ManagedResourceRef : Type 0 where
  pub service : Text
  pub kind : Text
  pub name : Text
  pub external_id : Text
  pub disposition : Disposition

-- Times are whole numbers of a clock's units; `none` is a nil `*metav1.Time`.
pub record WizardRunStepStatus : Type 0 where
  pub key : Text
  pub name : Text
  pub type : StepType
  pub item : Text
  pub phase : StepPhase
  pub message : Message
  pub failures : ℕ
  pub outputs : Assoc Text
  pub resources : List ManagedResourceRef
  pub started_at : Option ℕ
  pub completed_at : Option ℕ

-- The only condition used is Ready.
pub record Condition : Type 0 where
  pub status : Bool
  pub reason : RunPhase
  pub message : Message
  pub observed_generation : ℕ

pub record WizardRunStatus : Type 0 where
  pub phase : RunPhase
  pub message : Message
  pub observed_generation : ℕ
  pub steps : List WizardRunStepStatus
  pub ready_condition : Option Condition
  pub started_at : Option ℕ
  pub completed_at : Option ℕ

-- `desired_unset` is the empty string. A `raw` parameter value is the bytes of its JSON.
pub record WizardRunSpec : Type 0 where
  pub definition_ref : Text
  pub definition_snapshot : Option WizardDefinitionSpec
  pub definition_generation : ℕ
  pub parameters : Assoc Text
  pub created_by : Text
  pub created_by_email : Text
  pub desired_state : RunDesiredState

-- Of the object's metadata what the code reads; `deleting` is a set deletion timestamp.
pub record WizardRun : Type 0 where
  pub name : Text
  pub generation : ℕ
  pub deleting : Bool
  pub finalizers : List Text
  pub annotations : Assoc Text
  pub spec : WizardRunSpec
  pub status : WizardRunStatus
