-- ===== src/Steps/Forge/WaitBuild.antt =====
-- internal/steps/forgesteps.go: the waitBuild step, which polls forge for a build and claims its
-- artifact. `now` reads the clock, in whole seconds.
pub mod Polls
pub mod Found
pub mod Answers
pub mod Remembered
pub mod Examples
use fusion_wizard.Prelude.{
  ℕ, ◌-◌, Bool, true, false, ◌&&◌, Option, none, some, List, [], ◌∷◌, ◌++◌, Text, codes, Assoc,
  text_eq, ltb, if◌then◌else◌,
}
use fusion_wizard.Prelude.Int.{ℤ}
use fusion_wizard.Errors.{Message, text, format, end, text_arg, number_arg, is_status}
use fusion_wizard.Action.{Result, ok, err, Action, pure, raise, attempt, ◌>>=◌}
use fusion_wizard.Cluster.{Cluster}
use fusion_wizard.Ledger.Name.{object_name}
use fusion_wizard.Steps.Step.{Input, StepResult, kind_artifact}
use fusion_wizard.Steps.Numbers.{format_int}
use fusion_wizard.Steps.Ensure.{Managed, ensure_step}
use fusion_wizard.Steps.Delete.{index}
use fusion_wizard.Steps.App.{value, permanentf}
use fusion_wizard.Steps.Forge.{
  GitWatcher, Build, Artifact, ForgeClient, Config, first_non_empty, find_build,
}

-- a result that asks for another poll
abbrev pub waiting : ℕ → Message → Option (Assoc Text) → StepResult
waiting interval message outputs = record {
  done = false;
  requeue = interval;
  message = message;
  outputs = outputs;
  resources = [];
}

unfoldable pub progress : Build → Assoc Text
unfolding format_int
progress b = (codes "buildId", format_int b.id) ∷ []

abbrev pub version_of : Build → Option Text → Text
version_of b none = b.version
version_of b (some v) = v

unfoldable pub build_outputs : Text → Build → Artifact → Assoc Text
unfolding format_int
build_outputs prefix b art =
    (codes "buildId", format_int b.id)
    ∷ (codes "name", b.name)
    ∷ (codes "artifactName", prefix ++ b.name)
    ∷ (codes "artifactId", format_int art.id)
    ∷ (codes "version", version_of b b.index_artifact_version)
    ∷ []

-- the wait has a start, and it is longer ago than the timeout
unfoldable pub is_late : Option ℕ → ℕ → ℕ → Bool
is_late none timeout now = false
is_late (some s) timeout now = ltb timeout (now - s)

module _ {W : Type 0} (cluster : Cluster W) (sum : Text → Text) (client : ForgeClient W)
    (find_artifact : Text → Action W Artifact) (now : W → ℕ) (cfg : Config) where
  unfoldable pub managed_artifact : Build → Artifact → Managed W
  unfolding format_int
  managed_artifact b art = record {
    key = record { service = index; kind = kind_artifact; name = cfg.artifact_prefix ++ b.name };
    hash = [];
    claim = true;
    find =
        pure (some (record { external_id = format_int art.id; matches = true; detail = text [] }));
    create = raise (
        permanentf (
          format "artifact %q vanished while it was being claimed"
            (text_arg (cfg.artifact_prefix ++ b.name) end)));
    update = none;
  }

  pub claim_artifact : Input → Build → Result Artifact → Action W StepResult
  unfolding progress build_outputs managed_artifact ensure_step object_name
  claim_artifact input b (err x) =
      if is_status 404 x
      then pure (
          waiting cfg.poll_interval
            (format
              "build %d succeeded but artifact %q is missing from the index; waiting for forge to notice and rebuild"
              (text_arg (format_int b.id) (text_arg (cfg.artifact_prefix ++ b.name) end)))
            (some (progress b)))
      else raise x
  claim_artifact input b (ok art) =
      ensure_step cluster (object_name sum) input (managed_artifact b art)
        (build_outputs cfg.artifact_prefix b art)

  pub after_success : Input → Build → Option ℤ → Action W StepResult
  unfolding claim_artifact
  after_success input b none = raise (
      permanentf (
        format "build %d succeeded but reported no index artifact"
          (text_arg (format_int b.id) end)))
  after_success input b (some id) = do
    art ← attempt (find_artifact (cfg.artifact_prefix ++ b.name))
    claim_artifact input b art

  pub by_status : Input → Option Build → Action W StepResult
  unfolding after_success progress value
  by_status input none =
      pure (waiting cfg.poll_interval (text (codes "waiting for forge to start a build")) none)
  by_status input (some b) =
      if text_eq b.status (codes "SUCCESS")
      then after_success input b b.index_artifact_id
      else if text_eq b.status (codes "FAILED")
      then raise (
          permanentf (
            format "build %d of watcher %q failed; see the forge build logs"
              (text_arg (format_int b.id) (text_arg (value input.params (codes "watcher")) end))))
      else pure (
          waiting cfg.poll_interval
            (format "build %d is %s" (text_arg (format_int b.id) (text_arg b.status end)))
            (some (progress b)))

  pub poll_build : Input → GitWatcher → Action W StepResult
  unfolding by_status find_build value
  poll_build input gw = do
    b ← find_build client gw (value input.prior (codes "buildId"))
    by_status input b

  pub in_time : Input → GitWatcher → Bool → Action W StepResult
  unfolding poll_build value
  in_time input gw true = raise (
      permanentf (
        format "timed out after %s waiting for the build of watcher %q"
          (number_arg cfg.build_timeout (text_arg (value input.params (codes "watcher")) end))))
  in_time input gw false = poll_build input gw

  pub watched : Input → GitWatcher → Action W StepResult
  unfolding in_time is_late value first_non_empty
  watched input gw w =
      if text_eq gw.status.phase (codes "Disabled")
      then raise
          (permanentf (
            format "forge disabled watcher %q after %d failed build attempts: %s" (
              text_arg (value input.params (codes "watcher")) (
                text_arg (format_int gw.status.consecutive_failures) (
                  text_arg
                    (first_non_empty
                      (gw.status.last_error ∷ gw.status.message ∷ codes "no error reported" ∷ []))
                    end)))))
          w
      else in_time input gw (is_late input.started_at cfg.build_timeout (now w)) w

  -- `waitBuildStep.Ensure`
  unfoldable pub wait_build_step : Input → Action W StepResult
  unfolding watched value
  wait_build_step input = do
    gw ← client.get_git_watcher (value input.params (codes "watcher"))
    watched input gw
