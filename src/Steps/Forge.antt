-- ===== src/Steps/Forge.antt =====
-- internal/steps/forgesteps.go: what the gitWatcher and waitBuild steps know of forge, and the
-- search for the build to wait for.
--
-- The client is the interface of internal/steps/step.go, with the calls these steps make. Durations
-- are whole seconds.
pub mod WaitBuild
pub mod Watcher
use fusion_wizard.Prelude.{
  ℕ, Bool, false, ◌&&◌, Option, none, some, List, [], ◌∷◌, Text, codes, Assoc, text_eq, is_empty,
  if◌then◌else◌,
}
use fusion_wizard.Prelude.Int.{ℤ}
use fusion_wizard.Errors.{is_status}
use fusion_wizard.Action.{Result, ok, err, Action, pure, raise, attempt, ◌>>=◌}
use fusion_wizard.Steps.Numbers.{parse_int}

pub record GitWatcherSpec : Type 0 where
  pub repo_url : Text
  pub repo_ref : Text
  pub build_type : Text
  pub project_dir : Text
  pub auto_tag : Text

pub record GitWatcherStatus : Type 0 where
  pub phase : Text
  pub consecutive_failures : ℤ
  pub last_error : Text
  pub message : Text

pub record GitWatcher : Type 0 where
  pub name : Text
  pub spec : GitWatcherSpec
  pub status : GitWatcherStatus

pub record CreateGitWatcherRequest : Type 0 where
  pub name : Text
  pub repo_url : Text
  pub repo_ref : Text
  pub build_type : Text
  pub project_dir : Text
  pub auto_tag : Text
  pub labels : Assoc Text

-- A nil pointer is `none`. Here and below the fields that no step reads are left out.
pub record Build : Type 0 where
  pub id : ℤ
  pub name : Text
  pub version : Text
  pub status : Text
  pub build_type : Text
  pub index_artifact_id : Option ℤ
  pub index_artifact_version : Option Text
  pub repo_url : Option Text
  pub project_dir : Option Text

pub record Artifact : Type 0 where
  pub id : ℤ
  pub full_name : Text

pub record ForgeClient (W : Type 0) : Type 0 where
  pub get_git_watcher : Text → Action W GitWatcher
  pub create_git_watcher : CreateGitWatcherRequest → Action W GitWatcher
  -- name and page size
  pub list_app_builds : Text → ℕ → Action W (List Build)
  pub get_app_build : ℤ → Action W Build

-- What these steps read of `instancecfg.Config`.
pub record Config : Type 0 where
  pub tag_name : Text
  pub artifact_prefix : Text
  pub build_timeout : ℕ
  pub poll_interval : ℕ

abbrev build_list_size : ℕ
build_list_size = 100

unfoldable pub first_non_empty : List Text → Text
first_non_empty [] = []
first_non_empty (v ∷ vs) = let rest = first_non_empty vs in if is_empty v then rest else v

abbrev same_project_dir : Option Text → Text → Bool
same_project_dir none watcher = is_empty watcher
same_project_dir (some dir) watcher = text_eq dir watcher

abbrev is_repo : Option Text → Text → Bool
is_repo none url = false
is_repo (some u) url = text_eq u url

-- the condition of the loop of `findBuild`
unfoldable pub builds_watched : GitWatcherSpec → Build → Bool
builds_watched s b =
    is_repo b.repo_url s.repo_url
    && text_eq b.build_type (codes "app")
    && same_project_dir b.project_dir s.project_dir

module _ {W A : Type 0} where
  missing_as_nil : Result A → Action W (Option A)
  missing_as_nil (ok a) = pure (some a)
  missing_as_nil (err x) = if is_status 404 x then pure none else raise x

  unfoldable pub not_found_as_nil : Action W A → Action W (Option A)
  unfolding missing_as_nil
  not_found_as_nil m = do r ← attempt m; missing_as_nil r

module _ {W : Type 0} (client : ForgeClient W) where
  pub newest_build : GitWatcherSpec → List Build → Action W (Option Build)
  newest_build s [] = pure none
  newest_build s (b ∷ bs) =
      let rest = newest_build s bs in
      if builds_watched s b then not_found_as_nil (client.get_app_build b.id) else rest

  listed_build : GitWatcherSpec → Action W (Option Build)
  unfolding newest_build
  listed_build s = do builds ← client.list_app_builds [] build_list_size; newest_build s builds

  or_listed : GitWatcherSpec → Option Build → Action W (Option Build)
  unfolding listed_build
  or_listed s (some b) = pure (some b)
  or_listed s none = listed_build s

  remembered_build : GitWatcherSpec → Option ℤ → Action W (Option Build)
  unfolding or_listed listed_build not_found_as_nil
  remembered_build s none = listed_build s
  remembered_build s (some id) = do b ← not_found_as_nil (client.get_app_build id); or_listed s b

  unfoldable pub find_build : GitWatcher → Text → Action W (Option Build)
  unfolding remembered_build parse_int
  find_build gw remembered = remembered_build gw.spec (parse_int remembered)
