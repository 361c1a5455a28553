-- ===== src/Steps/Examples.antt =====
-- The theorems on ensuring and rolling back at concrete entries.
use fusion_wizard.Prelude.{
  ◌≡◌, refl, true, false, Option, none, some, List, [], ◌∷◌, Text, codes, is_empty, if◌then◌else◌,
}
use fusion_wizard.Errors.{err_exists}
use fusion_wizard.Api.Resource.{WizardResourceSpec, WizardResource}
use fusion_wizard.Action.{ok, err, Action}
use fusion_wizard.Ledger.Memory.{Memory, memory_cluster, stored, memory_laws, memory_held}
use fusion_wizard.Ledger.Examples.{name_of, tag_key, first_ref, entry_with, world_with}
use fusion_wizard.Steps.Step.{Input, kind_git_watcher, kind_artifact}
use fusion_wizard.Steps.Ensure.{Managed, ensure}
use fusion_wizard.Steps.Ensure.WriteAhead.{IsRecorded, ensure_write_ahead}
use fusion_wizard.Steps.Rollback.{release_and_delete}
use fusion_wizard.Steps.Rollback.Deletes.{release_and_delete_guarded}

abbrev tag_input : Input
tag_input = record {
  run = codes "blue";
  key = codes "tag";
  params = [];
  prior = [];
  started_at = none;
}

create_tag : Action Memory Text
create_tag w = (ok (codes "7"), record w { remote = tag_key ∷ w.remote })

abbrev tag_managed : Managed Memory
tag_managed = record {
  key = tag_key;
  hash = [];
  claim = false;
  find = λ w. (ok none, w);
  create = create_tag;
  update = none;
}

create_if : Option WizardResource → Action Memory Text
create_if none w = (err err_exists, w)
create_if (some e) w = create_tag w

-- A `Create` that refuses where there is no entry.
abbrev careful_create : Action Memory Text
careful_create w = create_if (stored w (name_of tag_key)) w

careful_agree :
    (w : Memory)
    → IsRecorded memory_cluster stored memory_laws name_of tag_input tag_managed careful_create w
    → create_tag w ≡ careful_create w
unfolding create_if
careful_agree w (e, past, named, _, _, _) = rw (← named, memory_held w e past) refl

ensure_write_ahead_example :
    ensure memory_cluster name_of tag_input tag_managed
    ≡ ensure memory_cluster name_of tag_input (record tag_managed { create = careful_create })
ensure_write_ahead_example =
    ensure_write_ahead memory_cluster stored memory_laws name_of tag_input tag_managed
      careful_create careful_agree

forget : WizardResourceSpec → Action Memory (Unit {0})
forget s w = (ok tt, record w { remote = [] })

-- Deletes only what is marked as being deleted and has no references.
careful_forget : WizardResourceSpec → Action Memory (Unit {0})
careful_forget s w =
    if s.terminating
    then if is_empty s.refs then forget s w else (err err_exists, w)
    else (err err_exists, w)

careful_forget_agree :
    (w : Memory) (e : WizardResource)
    → memory_laws.held w e
    → e.object_name ≡ name_of tag_key
    → e.spec.refs ≡ []
    → e.spec.terminating ≡ true
    → e.spec.managed ≡ true
    → forget e.spec w ≡ careful_forget e.spec w
unfolding careful_forget
careful_forget_agree w e there named empty doomed managed = rw (doomed, empty) refl

release_and_delete_guarded_example :
    release_and_delete memory_cluster name_of forget tag_key first_ref
      (world_with (first_ref ∷ []) false)
    ≡ release_and_delete memory_cluster name_of careful_forget tag_key first_ref
        (world_with (first_ref ∷ []) false)
release_and_delete_guarded_example =
    release_and_delete_guarded memory_cluster stored memory_laws name_of forget careful_forget
      tag_key careful_forget_agree first_ref (world_with (first_ref ∷ []) false)

abbrev of_kind : Text → WizardResource
of_kind kind = record (entry_with (first_ref ∷ []) false) {
  spec = record (entry_with (first_ref ∷ []) false).spec { kind = kind };
}

abbrev two_entries : List WizardResource
two_entries = of_kind kind_artifact ∷ of_kind kind_git_watcher ∷ []

abbrev two_world : Memory
two_world = record { objects = two_entries; remote = [] }
