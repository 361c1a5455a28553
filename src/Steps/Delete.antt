-- ===== src/Steps/Delete.antt =====
-- internal/steps/ensure.go, `deleteUpstream`: deleting a resource by what its entry records.
use fusion_wizard.Prelude.{
  ℕ, suc, Bool, ◌&&◌, ◌||◌, Option, none, some, Text, codes, text_eq, drop, if◌then◌else◌,
}
use fusion_wizard.Prelude.Int.{ℤ}
use fusion_wizard.Errors.{permanent, plain, format, end, text_arg}
use fusion_wizard.Api.Resource.{WizardResourceSpec}
use fusion_wizard.Action.{Action, raise}
use fusion_wizard.Params.Ascii.{last_index}
use fusion_wizard.Steps.Numbers.{parse_int}
use fusion_wizard.Steps.Step.{
  kind_git_watcher, kind_artifact, kind_tag, kind_app, kind_job_template, kind_service_template,
  kind_chain, kind_trigger, kind_batch_trigger,
}

-- The deleting calls of the clients of internal/upstream.
pub record Deleters (W : Type 0) : Type 0 where
  pub delete_git_watcher : Text → Action W (Unit {0})
  pub delete_artifact : ℤ → Action W (Unit {0})
  pub delete_tag : ℤ → Text → Action W (Unit {0})
  -- collection and name
  pub delete_weave : Text → Text → Action W (Unit {0})
  pub delete_batch_trigger : Text → Action W (Unit {0})

-- `weaveCollection`
unfoldable pub weave_collection : Text → Text
weave_collection kind =
    if text_eq kind kind_job_template
    then codes "jobtemplates"
    else if text_eq kind kind_service_template
    then codes "servicetemplates"
    else if text_eq kind kind_chain
    then codes "chains"
    else if text_eq kind kind_app
    then codes "apps"
    else codes "triggers"

abbrev pub forge : Text
forge = codes "forge"

abbrev pub index : Text
index = codes "index"

abbrev pub weave : Text
weave = codes "weave"

abbrev is_weave_kind : Text → Bool
is_weave_kind kind =
    text_eq kind kind_job_template
    || text_eq kind kind_service_template
    || text_eq kind kind_chain
    || text_eq kind kind_trigger
    || text_eq kind kind_app

module _ {W : Type 0} (up : Deleters W) where
  delete_artifact_of : Text → Option ℤ → Action W (Unit {0})
  delete_artifact_of name (some id) = up.delete_artifact id
  delete_artifact_of name none =
      raise (
        permanent (plain (format "artifact %q has no valid index ID recorded" (text_arg name end))))

  delete_tag_of : Text → Option ℤ → Option ℕ → Action W (Unit {0})
  delete_tag_of name (some id) (some i) = up.delete_tag id (drop (suc i) name)
  delete_tag_of name _ _ =
      raise
        (permanent (plain (format "tag %q has no valid artifact ID recorded" (text_arg name end))))

  unfoldable pub delete_upstream : WizardResourceSpec → Action W (Unit {0})
  unfolding delete_artifact_of delete_tag_of parse_int weave_collection last_index
  delete_upstream s =
      if text_eq s.service forge && text_eq s.kind kind_git_watcher
      then up.delete_git_watcher s.name
      else if text_eq s.service index && text_eq s.kind kind_artifact
      then delete_artifact_of s.name (parse_int s.external_id)
      else if text_eq s.service index && text_eq s.kind kind_tag
      then delete_tag_of s.name (parse_int s.external_id) (last_index b':' s.name)
      else if text_eq s.service weave && is_weave_kind s.kind
      then up.delete_weave (weave_collection s.kind) s.name
      else if text_eq s.service weave && text_eq s.kind kind_batch_trigger
      then up.delete_batch_trigger s.name
      else raise (
          permanent (
            plain (
              format "no delete implemented for %s %s" (text_arg s.service (text_arg s.kind end)))))
