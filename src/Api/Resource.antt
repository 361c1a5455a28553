-- ===== src/Api/Resource.antt =====
-- api/v1alpha1/wizardresource_types.go: a ledger entry.
use fusion_wizard.Prelude.{ℕ, Bool, List, Text, Assoc}

pub record ResourceReference : Type 0 where
  pub run : Text
  pub step : Text

pub record WizardResourceSpec : Type 0 where
  pub service : Text
  pub kind : Text
  pub name : Text
  pub external_id : Text
  pub spec_hash : Text
  pub managed : Bool
  pub terminating : Bool
  pub refs : List ResourceReference

-- Of the object's metadata: its name, its labels, and its resourceVersion, which stands for the
-- opaque text that the API server compares. The namespace is the ledger's own throughout.
pub record WizardResource : Type 0 where
  pub object_name : Text
  pub labels : Assoc Text
  pub resource_version : ℕ
  pub spec : WizardResourceSpec
