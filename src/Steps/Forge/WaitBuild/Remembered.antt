-- ===== src/Steps/Forge/WaitBuild/Remembered.antt =====
-- The build that a waitBuild step remembers.
use fusion_wizard.Prelude.{ℕ, ◌≡◌, List, Text}
use fusion_wizard.Action.{ok, Action}
use fusion_wizard.Cluster.{Cluster}
use fusion_wizard.Steps.Step.{Input}
use fusion_wizard.Steps.Numbers.{InRange}
use fusion_wizard.Steps.Forge.{Build, Artifact, ForgeClient, Config}
use fusion_wizard.Steps.Forge.WaitBuild.{progress}

module _ {W : Type 0} (cluster : Cluster W) (sum : Text → Text) (client : ForgeClient W)
    (find_artifact : Text → Action W Artifact) (now : W → ℕ) (cfg : Config)
    (builds' : Text → ℕ → Action W (List Build)) where
  abbrev other : ForgeClient W
  other = record client { list_app_builds = builds' }

  module _ (input : Input) (b b' : Build) (range : InRange b.id) (w w' : W)
      (got : client.get_app_build b.id w ≡ (ok b', w')) where
    abbrev next : Input
    next = record input { prior = progress b }
