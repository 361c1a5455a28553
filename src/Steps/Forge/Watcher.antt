-- ===== src/Steps/Forge/Watcher.antt =====
-- internal/steps/forgesteps.go: the gitWatcher step.
use fusion_wizard.Prelude.{
  Bool, not, ◌&&◌, Option, none, some, List, [], ◌∷◌, ◌++◌, Text, codes, Assoc, text_eq, is_empty,
  if◌then◌else◌,
}
use fusion_wizard.Errors.{text, format, end, text_arg}
use fusion_wizard.Action.{Action, pure, ◌>>=◌}
use fusion_wizard.Cluster.{Cluster}
use fusion_wizard.Ledger.Name.{object_name, hash}
use fusion_wizard.Steps.Step.{Input, StepResult, kind_git_watcher}
use fusion_wizard.Steps.Ensure.{Existing, Managed, ensure_step}
use fusion_wizard.Steps.Delete.{forge}
use fusion_wizard.Steps.App.{value}
use fusion_wizard.Steps.Forge.{
  GitWatcherSpec, GitWatcher, CreateGitWatcherRequest, ForgeClient, Config, first_non_empty,
  not_found_as_nil,
}

abbrev pub label_managed_by : Text
label_managed_by = codes "fusion-platform.io/managed-by"

abbrev pub managed_by_wizard : Text
managed_by_wizard = codes "wizard"

abbrev pub label_run : Text
label_run = codes "wizard.fusion-platform.io/run"

unfoldable pub auto_tag_of : Config → Assoc Text → Text
unfolding value first_non_empty
auto_tag_of cfg p =
    if text_eq (value p (codes "autoPromote")) (codes "true")
    then first_non_empty (value p (codes "tag") ∷ cfg.tag_name ∷ [])
    else []

unfoldable pub hash_parts : Text → Assoc Text → List Text
unfolding value
hash_parts auto_tag p =
    (kind_git_watcher
      ∷ value p (codes "repoUrl")
      ∷ value p (codes "repoRef")
      ∷ value p (codes "projectDir")
      ∷ [])
    ++ (if is_empty auto_tag then [] else (codes "autoTag=" ++ auto_tag) ∷ [])

-- whether it watches the app in the subfolder of the repository
unfoldable pub watches_app : GitWatcherSpec → Assoc Text → Bool
unfolding value
watches_app s p =
    text_eq s.build_type (codes "app")
    && text_eq s.repo_url (value p (codes "repoUrl"))
    && text_eq s.project_dir (value p (codes "projectDir"))

-- the end of `Get`
unfoldable pub compare_watcher : Text → Assoc Text → Option GitWatcher → Option Existing
unfolding watches_app
compare_watcher auto_tag p none = none
compare_watcher auto_tag p (some gw) =
    if not (watches_app gw.spec p)
    then some (record {
      external_id = [];
      matches = Bool.false;
      detail = text (codes "it watches a different repository or subfolder");
    })
    else some (record {
      external_id = [];
      matches = text_eq gw.spec.auto_tag auto_tag;
      detail =
          format
            "its auto-tag is %q, this run wants %q; set auto_tag on the watcher in forge or change autoPromote"
            (text_arg gw.spec.auto_tag (text_arg auto_tag end));
    })

unfoldable pub watcher_request : Text → Input → CreateGitWatcherRequest
unfolding value
watcher_request auto_tag input = record {
  name = value input.params (codes "name");
  repo_url = value input.params (codes "repoUrl");
  repo_ref = value input.params (codes "repoRef");
  build_type = codes "app";
  project_dir = value input.params (codes "projectDir");
  auto_tag = auto_tag;
  labels = (label_managed_by, managed_by_wizard) ∷ (label_run, input.run) ∷ [];
}

module _ {W : Type 0} (cluster : Cluster W) (sum : Text → Text) (client : ForgeClient W)
    (cfg : Config) where
  pub find_watcher : Text → Assoc Text → Action W (Option Existing)
  unfolding not_found_as_nil compare_watcher value
  find_watcher auto_tag p = do
    gw ← not_found_as_nil (client.get_git_watcher (value p (codes "name")))
    pure (compare_watcher auto_tag p gw)

  create_watcher : Text → Input → Action W Text
  unfolding watcher_request
  create_watcher auto_tag input = do
    gw ← client.create_git_watcher (watcher_request auto_tag input)
    pure []

  pub managed_watcher : Input → Managed W
  unfolding find_watcher create_watcher auto_tag_of hash_parts hash value
  managed_watcher input = record {
    key = record {
      service = forge;
      kind = kind_git_watcher;
      name = value input.params (codes "name");
    };
    hash = hash sum (hash_parts (auto_tag_of cfg input.params) input.params);
    claim = Bool.false;
    find = find_watcher (auto_tag_of cfg input.params) input.params;
    create = create_watcher (auto_tag_of cfg input.params) input;
    update = none;
  }

  -- `gitWatcherStep.Ensure`
  unfoldable pub watcher_step : Input → Action W StepResult
  unfolding managed_watcher ensure_step object_name value
  watcher_step input =
      ensure_step cluster (object_name sum) input (managed_watcher input)
        ((codes "name", value input.params (codes "name")) ∷ [])
