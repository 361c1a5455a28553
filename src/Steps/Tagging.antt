-- ===== src/Steps/Tagging.antt =====
-- internal/steps/tagstep.go: the tag step, which points a tag of an artifact at a version.
pub mod Deleted
pub mod Examples
use fusion_wizard.Prelude.{
  Bool, true, false, ◌||◌, Option, none, some, List, [], ◌∷◌, ◌++◌, Text, codes, text_eq,
  if◌then◌else◌,
}
use fusion_wizard.Prelude.Int.{ℤ}
use fusion_wizard.Errors.{text, format, end, text_arg}
use fusion_wizard.Action.{Action, pure, raise, ◌>>=◌, ◌>>◌}
use fusion_wizard.Cluster.{Cluster}
use fusion_wizard.Ledger.Name.{object_name}
use fusion_wizard.Steps.Step.{Input, StepResult, kind_tag}
use fusion_wizard.Steps.Numbers.{parse_int, format_int}
use fusion_wizard.Steps.Ensure.{Existing, Managed, ensure_step}
use fusion_wizard.Steps.Delete.{index}
use fusion_wizard.Steps.App.{value, permanentf}
use fusion_wizard.Steps.Forge.{Config, first_non_empty}

-- The fields that no step reads are left out.
pub record Tag : Type 0 where
  pub tag_text : Text

pub record Version : Type 0 where
  pub version : Text
  pub tags : List Tag

-- the calls of the interface `Index` of internal/steps/step.go that the step makes
pub record TagClient (W : Type 0) : Type 0 where
  pub list_versions : ℤ → Action W (List Version)
  -- artifact, tag and version
  pub set_tag : ℤ → Text → Text → Action W (Unit {0})

unfoldable pub any_tag : Text → List Tag → Bool
any_tag name [] = false
any_tag name (t ∷ ts) = text_eq t.tag_text name || any_tag name ts

unfoldable pub is_tagged : Text → List Version → Bool
unfolding any_tag
is_tagged name [] = false
is_tagged name (v ∷ vs) = any_tag name v.tags || is_tagged name vs

module _ {W : Type 0} (cluster : Cluster W) (sum : Text → Text) (client : TagClient W)
    (cfg : Config) where
  point_tag : Text → Text → ℤ → Action W Text
  unfolding format_int
  point_tag name version id = do client.set_tag id name version; pure (format_int id)

  pub find_tag : Text → ℤ → Action W (Option Existing)
  unfolding is_tagged format_int
  find_tag name id = do
    versions ← client.list_versions id
    pure (
        if is_tagged name versions
        then some (record { external_id = format_int id; matches = true; detail = text [] })
        else none)

  unfoldable pub managed_tag : Text → Text → Text → ℤ → Managed W
  unfolding find_tag point_tag
  managed_tag artifact_name name version id = record {
    key = record { service = index; kind = kind_tag; name = artifact_name ++ b':' ∷ name };
    hash = [];
    claim = false;
    find = find_tag name id;
    create = point_tag name version id;
    update = some (λ ex. client.set_tag id name version);
  }

  ensure_tag : Input → Text → Option ℤ → Action W StepResult
  unfolding managed_tag ensure_step object_name value
  ensure_tag input name none = raise (
      permanentf (
        format "artifactId %q is not a number"
          (text_arg (value input.params (codes "artifactId")) end)))
  ensure_tag input name (some id) =
      ensure_step cluster (object_name sum) input
        (managed_tag (value input.params (codes "artifactName")) name
          (value input.params (codes "version")) id)
        ((codes "tag", name) ∷ (codes "version", value input.params (codes "version")) ∷ [])

  -- `tagStep.Ensure`
  unfoldable pub tag_step : Input → Action W StepResult
  unfolding ensure_tag parse_int value first_non_empty
  tag_step input =
      ensure_tag input (first_non_empty (value input.params (codes "tag") ∷ cfg.tag_name ∷ []))
        (parse_int (value input.params (codes "artifactId")))
