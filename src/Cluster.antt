-- ===== src/Cluster.antt =====
-- The Kubernetes API server as the ledger sees it: controller-runtime's `client.Client` on the
-- WizardResources of one namespace, and client-go's `retry.RetryOnConflict`. Neither is code of
-- this repository, so both are parameters. `W` is the world: the server's objects, the upstream
-- services, the clock and whatever other clients do.
use fusion_wizard.Prelude.{List, Text}
use fusion_wizard.Api.Resource.{WizardResource}
use fusion_wizard.Action.{Action}

pub record Cluster (W : Type 0) : Type 1 where
  pub get_object : Text → Action W WizardResource
  pub create_object : WizardResource → Action W WizardResource
  -- refused with a conflict unless the stored resourceVersion is the one given
  pub update_object : WizardResource → Action W WizardResource
  pub delete_object : Text → Action W (Unit {0})
  pub list_objects : Action W (List WizardResource)
  pub retry_on_conflict : {A : Type 0} → Action W A → Action W A
