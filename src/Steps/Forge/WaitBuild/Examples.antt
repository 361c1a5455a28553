-- ===== src/Steps/Forge/WaitBuild/Examples.antt =====
-- waitBuild on a repository with one build.
use fusion_wizard.Prelude.{
  ℕ, ◌≡◌, ◌≤◌, ◌+◌, refl, none, some, [], ◌∷◌, Text, codes, arith, lookup, text_eq,
}
use fusion_wizard.Prelude.Int.{pos}
use fusion_wizard.Errors.{format, text_arg, end, err_not_found, err_exists}
use fusion_wizard.Action.{ok, err, Action, pure}
use fusion_wizard.Api.Run.{created}
use fusion_wizard.Cluster.{Cluster}
use fusion_wizard.Ledger.Memory.{Memory}
use fusion_wizard.Steps.Step.{Input, StepResult, kind_artifact}
use fusion_wizard.Steps.Numbers.{format_int, parse_int}
use fusion_wizard.Steps.Delete.{index}
use fusion_wizard.Steps.Ensure.Answers.{ensured}
use fusion_wizard.Steps.App.{value}
use fusion_wizard.Steps.Forge.{
  GitWatcher, Build, Artifact, ForgeClient, Config, find_build, builds_watched, not_found_as_nil,
}
use fusion_wizard.Steps.Forge.WaitBuild.{waiting, progress, build_outputs, wait_build_step, is_late}
use fusion_wizard.Steps.Forge.WaitBuild.Polls.{Polls, stop, poll, Polls-bound}

abbrev config : Config
config = record {
  tag_name = codes "stable";
  artifact_prefix = codes "app.";
  build_timeout = 10;
  poll_interval = 1;
}

abbrev watcher : GitWatcher
watcher = record {
  name = codes "shop";
  spec = record {
    repo_url = codes "git/shop";
    repo_ref = [];
    build_type = codes "app";
    project_dir = [];
    auto_tag = [];
  };
  status = record { phase = []; consecutive_failures = pos 0; last_error = []; message = [] };
}

abbrev build_in : Text → Build
build_in status = record {
  id = pos 42;
  name = codes "shop";
  version = codes "1";
  status = status;
  build_type = codes "app";
  index_artifact_id = some (pos 7);
  index_artifact_version = none;
  repo_url = some (codes "git/shop");
  project_dir = none;
}

abbrev shop_artifact : Artifact
shop_artifact = record { id = pos 7; full_name = codes "app.shop" }

module _ {W : Type 0} where
  abbrev client_of : Text → ForgeClient W
  client_of status = record {
    get_git_watcher = λ name. pure watcher;
    create_git_watcher = λ request. pure watcher;
    list_app_builds = λ name size. pure (build_in status ∷ []);
    get_app_build = λ id. pure (build_in status);
  }

  abbrev indexed : Text → Action W Artifact
  indexed name = pure shop_artifact

abbrev shop_input : Input
shop_input = record {
  run = codes "blue";
  key = codes "build";
  params = (codes "watcher", codes "shop") ∷ [];
  prior = [];
  started_at = some 0;
}

-- The world is the clock; the cluster does not answer.
abbrev silent_cluster : Cluster ℕ
silent_cluster = record {
  get_object = λ name w. (err err_not_found, w);
  create_object = λ e w. (err err_exists, w);
  update_object = λ e w. (err err_not_found, w);
  delete_object = λ name w. (err err_not_found, w);
  list_objects = pure [];
  retry_on_conflict = λ m. m;
}

abbrev same_sum : Text → Text
same_sum t = t

abbrev building : Text
building = codes "BUILDING"

abbrev building_result : StepResult
building_result =
    waiting 1 (format "build %d is %s" (text_arg (codes "42") (text_arg building end)))
      (some ((codes "buildId", codes "42") ∷ []))

first_waits :
    (wait_build_step silent_cluster same_sum
      (client_of building)
      indexed
      (λ t. t)
      config
      shop_input
      5).0
    ≡ ok building_result
unfolding wait_build_step value lookup text_eq is_late find_build builds_watched not_found_as_nil
    progress format_int parse_int
first_waits = refl

abbrev next_input : Input
next_input = record shop_input { prior = (codes "buildId", codes "42") ∷ [] }

second_waits :
    (wait_build_step silent_cluster same_sum
      (client_of building)
      indexed
      (λ t. t)
      config
      next_input
      6).0
    ≡ ok building_result
unfolding wait_build_step value lookup text_eq is_late find_build builds_watched not_found_as_nil
    progress format_int parse_int
second_waits = refl

two-Polls :
    Polls silent_cluster same_sum (client_of building) indexed (λ t. t) config shop_input 2 5
two-Polls =
    poll shop_input 1 5 6 building_result first_waits refl (omega arith)
      (poll next_input 0 6 7 building_result second_waits refl (omega arith) (stop next_input 7))

Polls-bound_example : 5 + 1 ≤ 0 + 10
Polls-bound_example =
    Polls-bound silent_cluster same_sum (client_of building) indexed (λ t. t) config 0
      (λ name w. omega arith) shop_input 1 5 refl two-Polls

abbrev success : Text
success = codes "SUCCESS"

abbrev fresh : Memory
fresh = record { objects = []; remote = [] }

abbrev claimed_result : StepResult
claimed_result = ensured (build_outputs (codes "app.") (build_in success) shop_artifact) (record {
  service = index;
  kind = kind_artifact;
  name = codes "app.shop";
  external_id = codes "7";
  disposition = created;
})
