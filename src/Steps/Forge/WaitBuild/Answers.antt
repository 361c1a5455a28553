-- ===== src/Steps/Forge/WaitBuild/Answers.antt =====
-- What waitBuild answers.
use fusion_wizard.Prelude.{ℕ, ◌≡◌, true, false, none, some, [], ◌∷◌, ◌++◌, Text, codes, text_eq}
use fusion_wizard.Prelude.Int.{ℤ}
use fusion_wizard.Errors.{Message, Error, is_status}
use fusion_wizard.Action.{ok, err, Action}
use fusion_wizard.Api.Run.{ManagedResourceRef}
use fusion_wizard.Cluster.{Cluster}
use fusion_wizard.Ledger.Name.{object_name}
use fusion_wizard.Steps.Step.{Input, StepResult}
use fusion_wizard.Steps.Ensure.{ensure}
use fusion_wizard.Steps.Ensure.Answers.{ensured, held_back}
use fusion_wizard.Steps.App.{value}
use fusion_wizard.Steps.Forge.{GitWatcher, Build, Artifact, ForgeClient, Config}
use fusion_wizard.Steps.Forge.WaitBuild.Found.{Found}
use fusion_wizard.Steps.Numbers.{format_int}
use fusion_wizard.Steps.Forge.WaitBuild.{waiting, version_of, managed_artifact}

module _ {W : Type 0} (cluster : Cluster W) (sum : Text → Text) (client : ForgeClient W)
    (find_artifact : Text → Action W Artifact) (now : W → ℕ) (cfg : Config) where
  -- The answers to a poll of the watcher `gw`: there is no build yet; a build that has neither
  -- succeeded nor failed goes on; the artifact of a build that succeeded is not in the index; the
  -- ledger's entry is being deleted; or the artifact is in the index and was claimed. The build is
  -- the one that was found by the ID among the prior outputs or in forge's list.
  pub data Answer (input : Input) (gw : GitWatcher) : StepResult → Type 0 where
    no_build : (m : Message) → Answer input gw (waiting cfg.poll_interval m none)
    in_progress :
        (m : Message) (b : Build)
        → Found client gw (value input.prior (codes "buildId")) b
        → text_eq b.status (codes "SUCCESS") ≡ false
        → text_eq b.status (codes "FAILED") ≡ false
        → Answer input gw
            (waiting cfg.poll_interval m (some ((codes "buildId", format_int b.id) ∷ [])))
    vanished :
        (m : Message) (b : Build) (id : ℤ) (x : Error) (w : W)
        → Found client gw (value input.prior (codes "buildId")) b
        → text_eq b.status (codes "SUCCESS") ≡ true
        → b.index_artifact_id ≡ some id
        → (find_artifact (cfg.artifact_prefix ++ b.name) w).0 ≡ err x
        → is_status 404 x ≡ true
        → Answer input gw
            (waiting cfg.poll_interval m (some ((codes "buildId", format_int b.id) ∷ [])))
    held : (m : Message) → Answer input gw (held_back input m)
    claimed :
        (b : Build) (id : ℤ) (art : Artifact) (ref : ManagedResourceRef) (w w' : W)
        → Found client gw (value input.prior (codes "buildId")) b
        → text_eq b.status (codes "SUCCESS") ≡ true
        → b.index_artifact_id ≡ some id
        → (find_artifact (cfg.artifact_prefix ++ b.name) w).0 ≡ ok art
        → (ensure cluster
            (object_name sum)
            input
            (managed_artifact cluster sum client find_artifact now cfg b art)
            w').0
          ≡ ok ref
        → Answer input gw (
            ensured
              ((codes "buildId", format_int b.id)
                ∷ (codes "name", b.name)
                ∷ (codes "artifactName", cfg.artifact_prefix ++ b.name)
                ∷ (codes "artifactId", format_int art.id)
                ∷ (codes "version", version_of b b.index_artifact_version)
                ∷ [])
              ref)
