-- ===== src/Steps/Step.antt =====
-- internal/steps/step.go: what every catalogue step shares.
use fusion_wizard.Prelude.{
  ℕ, Bool, false, ◌&&◌, ◌||◌, Option, List, [], ◌∷◌, Text, codes, Assoc, contains, length, ltb,
}
use fusion_wizard.Errors.{Message}
use fusion_wizard.Api.Run.{ManagedResourceRef}
use fusion_wizard.Params.Ascii.{has_prefix}

abbrev pub kind_git_watcher : Text
kind_git_watcher = codes "gitwatcher"

abbrev pub kind_artifact : Text
kind_artifact = codes "artifact"

abbrev pub kind_tag : Text
kind_tag = codes "tag"

abbrev pub kind_app : Text
kind_app = codes "app"

abbrev pub kind_job_template : Text
kind_job_template = codes "jobtemplate"

abbrev pub kind_service_template : Text
kind_service_template = codes "servicetemplate"

abbrev pub kind_chain : Text
kind_chain = codes "chain"

abbrev pub kind_trigger : Text
kind_trigger = codes "trigger"

abbrev pub kind_batch_trigger : Text
kind_batch_trigger = codes "batchtrigger"

-- two seconds, in seconds
abbrev pub retry_terminating : ℕ
retry_terminating = 2

-- Times and durations are whole seconds; a nil or zero time is `none`.
pub record Input : Type 0 where
  pub run : Text
  pub key : Text
  pub params : Assoc Text
  pub prior : Assoc Text
  pub started_at : Option ℕ

-- Nil `Outputs` are `none`.
pub record StepResult : Type 0 where
  pub done : Bool
  pub requeue : ℕ
  pub message : Message
  pub outputs : Option (Assoc Text)
  pub resources : List ManagedResourceRef

pub record ParamSpec : Type 0 where
  pub required : List Text
  pub optional : List Text
  pub prefixes : List Text

allowed_prefix : List Text → Text → Bool
allowed_prefix [] name = false
allowed_prefix (pre ∷ rest) name =
    (has_prefix pre name && ltb (length pre) (length name)) || allowed_prefix rest name

unfoldable pub allows : ParamSpec → Text → Bool
unfolding allowed_prefix contains has_prefix
allows p name =
    contains p.required name || contains p.optional name || allowed_prefix p.prefixes name
