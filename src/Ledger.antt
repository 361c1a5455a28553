-- ===== src/Ledger.antt =====
-- internal/ledger/ledger.go: which run step uses which upstream resource.
--
-- The closures that `AddRef` and `Release` hand to `RetryOnConflict` are functions of their own
-- (`add_ref_attempt`, `release_attempt`), and the changes that they make to the entry in memory
-- are pure functions on its spec. `Hash` and `ObjectName` take the hash function as a parameter.
pub mod Name
pub mod Entry
pub mod Protocol
pub mod Holders
pub mod Laws
pub mod Guarantee
pub mod Outcomes
pub mod Memory
pub mod Examples
use mathlib.Core.Option
use fusion_wizard.Prelude.{
  ℕ, zero, suc, ◌+◌, Bool, true, false, ◌&&◌, ◌||◌, not, Option, none, some, List, [], ◌∷◌, ◌++◌,
  Text, codes, text_eq, is_empty, take, drop, if◌then◌else◌,
}
use fusion_wizard.Errors.{
  Error, err_terminating, err_not_found, err_exists, no_object, object_exists,
}
use fusion_wizard.Api.Resource.{ResourceReference, WizardResourceSpec, WizardResource}
use fusion_wizard.Action.{Result, ok, err, Action, pure, raise, attempt, ◌>>=◌, ◌>>◌}
use fusion_wizard.Cluster.{Cluster}

pub record Key : Type 0 where
  pub service : Text
  pub kind : Text
  pub name : Text

pub data Outcome : Type 0 where
  outcome_gone outcome_shared outcome_released outcome_delete : Outcome

pub record NewEntry : Type 0 where
  pub managed : Bool
  pub spec_hash : Text
  pub external_id : Text

pub record AddOptions : Type 0 where
  pub manage : Bool
  pub external_id : Text

abbrev pub label_service : Text
label_service = codes "wizard.fusion-platform.io/service"

abbrev pub label_kind : Text
label_kind = codes "wizard.fusion-platform.io/kind"

-- `r == ref` on the struct
unfoldable pub ref_eq : ResourceReference → ResourceReference → Bool
ref_eq r s = text_eq r.run s.run && text_eq r.step s.step

-- `none` is the -1 of the source.
unfoldable pub index_of_ref : List ResourceReference → ResourceReference → Option ℕ
unfolding ref_eq
index_of_ref [] ref = none
index_of_ref (r ∷ rs) ref = if ref_eq r ref then some 0 else Option.map suc (index_of_ref rs ref)

abbrev is_found : Option ℕ → Bool
is_found none = false
is_found (some i) = true

unfoldable pub has_ref : List ResourceReference → ResourceReference → Bool
unfolding index_of_ref
has_ref refs ref = is_found (index_of_ref refs ref)

-- The spec of the entry that `Register` creates.
unfoldable pub new_spec : Key → ResourceReference → NewEntry → WizardResourceSpec
new_spec k ref n = record {
  service = k.service;
  kind = k.kind;
  name = k.name;
  external_id = n.external_id;
  spec_hash = n.spec_hash;
  managed = n.managed;
  terminating = false;
  refs = ref ∷ [];
}

-- The three changes of `AddRef`, each with the flag `changed`.
append_ref : ResourceReference → WizardResourceSpec × Bool → WizardResourceSpec × Bool
append_ref ref (s, changed) =
    if has_ref s.refs ref then (s, changed) else (record s { refs = s.refs ++ ref ∷ [] }, true)

take_over : AddOptions → WizardResourceSpec × Bool → WizardResourceSpec × Bool
take_over opts (s, changed) =
    if opts.manage && not s.managed then (record s { managed = true }, true) else (s, changed)

renew_id : AddOptions → WizardResourceSpec × Bool → WizardResourceSpec × Bool
renew_id opts (s, changed) =
    if not (is_empty opts.external_id) && not (text_eq s.external_id opts.external_id)
    then (record s { external_id = opts.external_id }, true)
    else (s, changed)

unfoldable pub add_ref_spec :
    ResourceReference → AddOptions → WizardResourceSpec → WizardResourceSpec × Bool
unfolding append_ref take_over renew_id has_ref
add_ref_spec ref opts s = renew_id opts (take_over opts (append_ref ref (s, false)))

-- what `AddRef` makes of the entry that it has read: nothing of one that is being deleted
unfoldable pub add_ref_change :
    ResourceReference → AddOptions → WizardResourceSpec → Result (WizardResourceSpec × Bool)
unfolding add_ref_spec
add_ref_change ref opts s =
    if s.terminating then err err_terminating else ok (add_ref_spec ref opts s)

-- `append(refs[:i], refs[i+1:]...)` where the reference is found
drop_ref : Option ℕ → WizardResourceSpec → WizardResourceSpec × Bool
drop_ref none s = (s, false)
drop_ref (some i) s = (record s { refs = take i s.refs ++ drop (suc i) s.refs }, true)

-- Once the last reference is gone the entry is marked, whether or not it was the one removed.
mark_terminating : WizardResourceSpec × Bool → WizardResourceSpec × Bool
mark_terminating (s, changed) =
    if not (is_empty s.refs)
    then (s, changed)
    else if s.terminating
    then (s, changed)
    else (record s { terminating = true }, true)

unfoldable pub release_spec : ResourceReference → WizardResourceSpec → WizardResourceSpec × Bool
unfolding drop_ref mark_terminating index_of_ref
release_spec ref s = mark_terminating (drop_ref (index_of_ref s.refs ref) s)

module _ {W : Type 0} (cluster : Cluster W) (object_name : Key → Text) where
  open cluster use {
    get_object, create_object, update_object, delete_object, list_objects, retry_on_conflict,
  }

  -- `IsNotFound` on the error of the read
  pub absent_if_missing : Result WizardResource → Action W (Option WizardResource)
  absent_if_missing (ok e) = pure (some e)
  absent_if_missing (err (no_object t)) = pure none
  absent_if_missing (err x) = raise x

  unfoldable pub get : Key → Action W (Option WizardResource)
  unfolding absent_if_missing
  get k = do found ← attempt (get_object (object_name k)); absent_if_missing found

  pub exists_if_taken : Result WizardResource → Action W WizardResource
  exists_if_taken (ok e) = pure e
  exists_if_taken (err (object_exists t)) = raise err_exists
  exists_if_taken (err x) = raise x

  unfoldable pub new_object : Key → ResourceReference → NewEntry → WizardResource
  unfolding new_spec
  new_object k ref n = record {
    object_name = object_name k;
    labels = (label_service, k.service) ∷ (label_kind, k.kind) ∷ [];
    resource_version = 0;
    spec = new_spec k ref n;
  }

  unfoldable pub register : Key → ResourceReference → NewEntry → Action W WizardResource
  unfolding exists_if_taken new_object
  register k ref n = do
    created ← attempt (create_object (new_object k ref n))
    exists_if_taken created

  -- `Update` only if something changed; it fills the entry in with what the server stored
  pub write_back : WizardResource → WizardResourceSpec × Bool → Action W WizardResource
  write_back e (s, changed) =
      if changed then update_object (record e { spec = s }) else pure (record e { spec = s })

  pub write_added : WizardResource → Result (WizardResourceSpec × Bool) → Action W WizardResource
  unfolding write_back
  write_added e (err x) = raise x
  write_added e (ok p) = write_back e p

  pub add_ref_to : ResourceReference → AddOptions → Option WizardResource → Action W WizardResource
  unfolding write_added add_ref_change
  add_ref_to ref opts none = raise err_not_found
  add_ref_to ref opts (some e) = write_added e (add_ref_change ref opts e.spec)

  unfoldable pub add_ref_attempt : Key → ResourceReference → AddOptions → Action W WizardResource
  unfolding get add_ref_to write_back
  add_ref_attempt k ref opts = do e ← get k; add_ref_to ref opts e

  unfoldable pub add_ref : Key → ResourceReference → AddOptions → Action W WizardResource
  unfolding add_ref_attempt
  add_ref k ref opts = retry_on_conflict (add_ref_attempt k ref opts)

  -- `err != nil && !IsNotFound(err)`
  pub ignore_missing : Result (Unit {0}) → Action W (Unit {0})
  ignore_missing (err (no_object t)) = pure tt
  ignore_missing (err x) = raise x
  ignore_missing (ok u) = pure u

  pub delete_if_there : Text → Action W (Unit {0})
  unfolding ignore_missing
  delete_if_there n = do gone ← attempt (delete_object n); ignore_missing gone

  -- what `Release` does once the entry is written back; `shared` is the test on the references
  pub settle : Bool → WizardResource → Action W (Outcome × Option WizardResource)
  unfolding delete_if_there
  settle shared e =
      if shared
      then pure (outcome_shared, some e)
      else if e.spec.managed
      then pure (outcome_delete, some e)
      else do delete_if_there e.object_name; pure (outcome_released, some e)

  pub release_from :
      ResourceReference → Option WizardResource → Action W (Outcome × Option WizardResource)
  release_from ref none = pure (outcome_gone, none)
  release_from ref (some e) = do
    written ← write_back e (release_spec ref e.spec)
    settle (not (is_empty (release_spec ref e.spec).0.refs)) written

  unfoldable pub release_attempt :
      Key → ResourceReference → Action W (Outcome × Option WizardResource)
  unfolding get release_from write_back settle
  release_attempt k ref = do e ← get k; release_from ref e

  unfoldable pub release : Key → ResourceReference → Action W (Outcome × Option WizardResource)
  unfolding release_attempt
  release k ref = retry_on_conflict (release_attempt k ref)

  pub finish_entry : Option WizardResource → Action W (Unit {0})
  unfolding delete_if_there
  finish_entry none = pure tt
  finish_entry (some e) = delete_if_there e.object_name

  unfoldable pub finish : Key → Action W (Unit {0})
  unfolding get finish_entry
  finish k = do e ← get k; finish_entry e

  unfoldable pub list : Action W (List WizardResource)
  list = list_objects
