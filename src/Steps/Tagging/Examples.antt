-- ===== src/Steps/Tagging/Examples.antt =====
-- A tag set and deleted.
use fusion_wizard.Prelude.{
  Bool, ◌≡◌, refl, Option, none, some, [], Text, codes, arith, text_eq, text_eq_refl, if◌then◌else◌,
}
use fusion_wizard.Prelude.Int.{ℤ, pos}
use fusion_wizard.Api.Resource.{WizardResourceSpec}
use fusion_wizard.Action.{ok, err, pure}
use fusion_wizard.Errors.{err_not_found, err_exists}
use fusion_wizard.Cluster.{Cluster}
use fusion_wizard.Params.Ascii.{has_byte}
use fusion_wizard.Steps.Numbers.{format_int}
use fusion_wizard.Steps.Step.{kind_tag}
use fusion_wizard.Steps.Delete.{Deleters, delete_upstream, index}
use fusion_wizard.Steps.Forge.{Config}
use fusion_wizard.Steps.Tagging.{TagClient, managed_tag}
use fusion_wizard.Steps.Tagging.Deleted.{managed_tag-delete_upstream}

-- The tags of the one artifact there is.
abbrev Tags : Type 0
Tags = Text → Option Text

abbrev set_at : Text → Text → Tags → Tags
set_at tag version w t = if text_eq tag t then some version else w t

abbrev blue_client : TagClient Tags
blue_client = record {
  list_versions = λ id. pure [];
  set_tag = λ id tag version w. (ok tt, set_at tag version w);
}

abbrev tag_of : Tags → ℤ → Text → Option Text
tag_of w id tag = w tag

set_tag_lem :
    (id : ℤ) (tag version : Text) (w : Tags)
    → (blue_client.set_tag id tag version w).0 ≡ ok tt
    → tag_of (blue_client.set_tag id tag version w).1 id tag ≡ some version
set_tag_lem id tag version w h = rw text_eq_refl refl

abbrev clearing : Deleters Tags
clearing = record {
  delete_git_watcher = λ name. pure tt;
  delete_artifact = λ id. pure tt;
  delete_tag = λ id tag w. (ok tt, λ t. if text_eq tag t then none else w t);
  delete_weave = λ collection name. pure tt;
  delete_batch_trigger = λ name. pure tt;
}

abbrev no_tags : Tags
no_tags t = none

abbrev tag_config : Config
tag_config = record {
  tag_name = codes "stable";
  artifact_prefix = codes "app.";
  build_timeout = 600;
  poll_interval = 5;
}

-- It does not answer.
abbrev no_cluster : Cluster Tags
no_cluster = record {
  get_object = λ name w. (err err_not_found, w);
  create_object = λ e w. (err err_exists, w);
  update_object = λ e w. (err err_not_found, w);
  delete_object = λ name w. (err err_not_found, w);
  list_objects = pure [];
  retry_on_conflict = λ m. m;
}

abbrev tag_entry : WizardResourceSpec
tag_entry = record {
  service = index;
  kind = kind_tag;
  name = codes "app.a:b:stable";
  external_id = codes "7";
  spec_hash = [];
  managed = Bool.true;
  refs = [];
  terminating = Bool.true;
}

no_colon : has_byte b':' (codes "stable") ≡ Bool.false
unfolding has_byte
no_colon = refl

named :
    codes "app.a:b:stable"
    ≡ (managed_tag no_cluster
        (λ t. t)
        blue_client
        tag_config
        (codes "app.a:b")
        (codes "stable")
        (codes "1.0")
        (pos 7)).key.name
unfolding managed_tag
named = refl

serviced :
    index
    ≡ (managed_tag no_cluster
        (λ t. t)
        blue_client
        tag_config
        (codes "app.a:b")
        (codes "stable")
        (codes "1.0")
        (pos 7)).key.service
unfolding managed_tag
serviced = refl

kinded :
    kind_tag
    ≡ (managed_tag no_cluster
        (λ t. t)
        blue_client
        tag_config
        (codes "app.a:b")
        (codes "stable")
        (codes "1.0")
        (pos 7)).key.kind
unfolding managed_tag
kinded = refl

made :
    ((managed_tag no_cluster
        (λ t. t)
        blue_client
        tag_config
        (codes "app.a:b")
        (codes "stable")
        (codes "1.0")
        (pos 7)).create
      no_tags).0
    ≡ ok (codes "7")
unfolding managed_tag format_int
made = refl

managed_tag-delete_upstream_example :
    (tag_of
        ((managed_tag no_cluster
            (λ t. t)
            blue_client
            tag_config
            (codes "app.a:b")
            (codes "stable")
            (codes "1.0")
            (pos 7)).create
          no_tags).1
        (pos 7)
        (codes "stable")
      ≡ some (codes "1.0"))
    × (delete_upstream clearing tag_entry ≡ clearing.delete_tag (pos 7) (codes "stable"))
managed_tag-delete_upstream_example =
    managed_tag-delete_upstream no_cluster (λ t. t) blue_client tag_config clearing tag_of
      set_tag_lem (codes "app.a:b") (codes "stable") (codes "1.0") (pos 7) tag_entry no_tags
      (omega arith) no_colon serviced kinded named made
