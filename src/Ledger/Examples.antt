-- ===== src/Ledger/Examples.antt =====
-- The ledger's theorems at concrete entries, in the memory of `Ledger.Memory`.
use fusion_wizard.Prelude.{
  arith, ◌≡◌, refl, Bool, true, false, List, [], ◌∷◌, ◌++◌, Text, codes, text_eq,
}
use fusion_wizard.Api.Resource.{ResourceReference, WizardResourceSpec, WizardResource}
use fusion_wizard.Ledger.{
  Key, has_ref, index_of_ref, ref_eq, add_ref_spec, release_spec, add_ref_change,
}
use fusion_wizard.Ledger.Entry.{IsSound}
use fusion_wizard.Ledger.Protocol.{
  IsSoundEntry, Lifetime, unchanged, then, referenced, released, Lifetime-terminating,
}
use fusion_wizard.Ledger.Holders.{Turns, holders_of, Lifetime-Turns}
use fusion_wizard.Ledger.Name.{object_name}
use fusion_wizard.Ledger.Name.Labels.{object_name-IsLabel}
use fusion_wizard.Params.Ascii.{to_lower_byte}
use fusion_wizard.Params.Filters.Labels.{IsLabel}
use fusion_wizard.Ledger.Laws.{spec_at}
use fusion_wizard.Ledger.Guarantee.{
  Call, call_register, call_add_ref, call_release, call_finish, call_all, call_all-IsSound,
}
use fusion_wizard.Ledger.Memory.{Memory, memory_cluster, stored, memory_laws}

abbrev pub name_of : Key → Text
name_of k = k.service ++ codes "-" ++ k.kind ++ codes "-" ++ k.name

abbrev pub tag_key : Key
tag_key = record { service = codes "index"; kind = codes "tag"; name = codes "app:v1" }

abbrev pub first_ref : ResourceReference
first_ref = record { run = codes "blue"; step = codes "tag" }

abbrev pub second_ref : ResourceReference
second_ref = record { run = codes "green"; step = codes "tag" }

abbrev pub spec_with : List ResourceReference → Bool → WizardResourceSpec
spec_with refs doomed = record {
  service = tag_key.service;
  kind = tag_key.kind;
  name = tag_key.name;
  external_id = codes "7";
  spec_hash = [];
  managed = true;
  terminating = doomed;
  refs = refs;
}

abbrev pub entry_with : List ResourceReference → Bool → WizardResource
entry_with refs doomed = record {
  object_name = name_of tag_key;
  labels = [];
  resource_version = 3;
  spec = spec_with refs doomed;
}

abbrev pub world_with : List ResourceReference → Bool → Memory
world_with refs doomed = record { objects = entry_with refs doomed ∷ []; remote = [] }

abbrev bumped : List ResourceReference → Bool → WizardResource
bumped refs doomed = record (entry_with refs doomed) { resource_version = 4 }

one-IsSound : IsSound (spec_with (first_ref ∷ []) false)
unfolding has_ref
one-IsSound = record { distinct = (refl, tt); marked = refl }

two-IsSound : IsSound (spec_with (first_ref ∷ second_ref ∷ []) false)
unfolding has_ref index_of_ref ref_eq text_eq
two-IsSound = record { distinct = (refl, (refl, tt)); marked = refl }

doomed-IsSound : IsSound (spec_with [] true)
doomed-IsSound = record { distinct = tt; marked = refl }

empty_sound : (n : Text) → IsSoundEntry (spec_at stored (record { objects = []; remote = [] }) n)
unfolding stored
empty_sound n = tt

two_sound :
    IsSoundEntry (spec_at stored (world_with (first_ref ∷ second_ref ∷ []) false) (name_of tag_key))
unfolding stored text_eq
two_sound = two-IsSound

pub one_sound : IsSoundEntry (spec_at stored (world_with (first_ref ∷ []) false) (name_of tag_key))
unfolding stored text_eq
one_sound = one-IsSound

abbrev calls : List Call
calls =
    call_register tag_key first_ref
      (record { managed = true; spec_hash = []; external_id = codes "7" })
    ∷ call_add_ref tag_key second_ref (record { manage = false; external_id = [] })
    ∷ call_release tag_key first_ref
    ∷ call_release tag_key second_ref
    ∷ call_finish tag_key
    ∷ []

call_all-IsSound_example : IsSoundEntry (
    spec_at stored
      (call_all memory_cluster stored memory_laws name_of calls
        (record { objects = []; remote = [] }))
      (name_of tag_key))
call_all-IsSound_example =
    call_all-IsSound memory_cluster stored memory_laws name_of calls
      (record { objects = []; remote = [] }) empty_sound (name_of tag_key)

doomed_life : Lifetime (spec_with [] true) (release_spec first_ref (spec_with [] true)).0
doomed_life = then unchanged (released first_ref refl)

Lifetime-terminating_example :
    ((release_spec first_ref (spec_with [] true)).0.terminating ≡ true)
    × ((release_spec first_ref (spec_with [] true)).0.refs ≡ [])
Lifetime-terminating_example = Lifetime-terminating doomed-IsSound refl doomed_life

abbrev handed_over : WizardResourceSpec
handed_over =
    (release_spec first_ref
      (add_ref_spec second_ref (record { manage = true; external_id = [] })
        (spec_with (first_ref ∷ []) false)).0).0

handed_life : Lifetime (spec_with (first_ref ∷ []) false) handed_over
unfolding add_ref_change
handed_life =
    then
      (then unchanged
        (referenced second_ref (record { manage = true; external_id = [] }) refl refl))
      (released first_ref refl)

Lifetime-Turns_example :
    Turns (holders_of (spec_with (first_ref ∷ []) false)) (holders_of handed_over)
Lifetime-Turns_example =
    Lifetime-Turns (spec_with (first_ref ∷ []) false) handed_over one-IsSound handed_life

object_name-IsLabel_example : IsLabel (object_name (λ s. 171 ∷ 205 ∷ 1 ∷ 255 ∷ []) tag_key)
object_name-IsLabel_example =
    object_name-IsLabel (λ s. 171 ∷ 205 ∷ 1 ∷ 255 ∷ []) tag_key b'i' (codes "ndex") refl
      (unfold to_lower_byte in refl)
      (record {
        bytes = (omega arith, (omega arith, (omega arith, (omega arith, tt))));
        long = omega arith;
      })
