-- ===== src/Steps/Rollback.antt =====
-- internal/steps/rollback.go: releasing what a run holds, by the ledger.
--
-- `del` is `deleteUpstream` with the services' clients.
pub mod Order
pub mod Deletes
use fusion_wizard.Prelude.{
  ℕ, Bool, true, false, not, ◌||◌, ◌&&◌, Option, none, some, List, [], ◌∷◌, ◌++◌, Text, Assoc,
  lookup, text_eq, text_lt, ltb, ◌==◌, is_empty, String, if◌then◌else◌,
}
use fusion_wizard.Errors.{Error, wrap, format, end, text_arg, Joined, join_all}
use fusion_wizard.Api.Resource.{ResourceReference, WizardResourceSpec, WizardResource}
use fusion_wizard.Action.{Result, ok, err, Action, pure, raise, attempt, ◌>>=◌, ◌>>◌}
use fusion_wizard.Cluster.{Cluster}
use fusion_wizard.Ledger.{Key, Outcome, outcome_delete, release, finish, list}
use fusion_wizard.Steps.Step.{
  kind_git_watcher, kind_artifact, kind_tag, kind_app, kind_job_template, kind_service_template,
  kind_chain, kind_trigger, kind_batch_trigger,
}

abbrev undo_rank : Assoc ℕ
undo_rank =
    (kind_app, 5)
    ∷ (kind_trigger, 10)
    ∷ (kind_batch_trigger, 10)
    ∷ (kind_chain, 20)
    ∷ (kind_job_template, 30)
    ∷ (kind_service_template, 30)
    ∷ (kind_git_watcher, 40)
    ∷ (kind_tag, 50)
    ∷ (kind_artifact, 60)
    ∷ []

abbrev or_last : Option ℕ → ℕ
or_last none = 100
or_last (some r) = r

unfoldable pub rank_of : Text → ℕ
unfolding lookup
rank_of kind = or_last (lookup kind undo_rank)

-- `refsOf`
unfoldable pub refs_of : List ResourceReference → Text → List ResourceReference
refs_of [] run = []
refs_of (r ∷ rs) run = let rest = refs_of rs run in if text_eq r.run run then r ∷ rest else rest

-- the comparison that the entries are sorted by
unfoldable pub before : WizardResource → WizardResource → Bool
unfolding rank_of
before a b =
    if not (rank_of a.spec.kind == rank_of b.spec.kind)
    then ltb (rank_of a.spec.kind) (rank_of b.spec.kind)
    else text_lt a.spec.name b.spec.name

unfoldable pub mine : Text → List WizardResource → List WizardResource
unfolding refs_of
mine run [] = []
mine run (e ∷ es) =
    let rest = mine run es in if is_empty (refs_of e.spec.refs run) then rest else e ∷ rest

-- `sort.SliceStable`
pub insert_entry : WizardResource → List WizardResource → List WizardResource
insert_entry e [] = e ∷ []
insert_entry e (x ∷ xs) = if before x e then x ∷ insert_entry e xs else e ∷ x ∷ xs

unfoldable pub sort_entries : List WizardResource → List WizardResource
unfolding insert_entry
sort_entries [] = []
sort_entries (e ∷ es) = insert_entry e (sort_entries es)

abbrev pub key_of : WizardResource → Key
key_of e = record { service = e.spec.service; kind = e.spec.kind; name = e.spec.name }

-- `fmt.Errorf("delete %s %q: %w", key.Kind, key.Name, err)` and the like
abbrev failing : String → Key → Error → Error
failing verb key x = wrap (format verb (text_arg key.kind (text_arg key.name end))) x

module _ {W : Type 0} (cluster : Cluster W) (object_name : Key → Text)
    (del : WizardResourceSpec → Action W (Unit {0})) where
  named : String → Key → Result (Unit {0}) → Action W (Unit {0})
  named verb key (ok u) = pure tt
  named verb key (err x) = raise (failing verb key x)

  after_delete : Key → Result (Unit {0}) → Action W (Unit {0})
  unfolding named
  after_delete key (err x) = raise (failing "delete %s %q" key x)
  after_delete key (ok u) = do
    r ← attempt (finish cluster object_name key)
    named "finish %s %q" key r

  pub after_release : Key → Result (Outcome × Option WizardResource) → Action W (Unit {0})
  unfolding after_delete
  after_release key (err x) = raise (failing "release %s %q" key x)
  after_release key (ok (outcome_delete, some e)) = do r ← attempt (del e.spec); after_delete key r
  after_release key (ok (_, _)) = pure tt

  unfoldable pub release_and_delete : Key → ResourceReference → Action W (Unit {0})
  unfolding after_release
  release_and_delete key ref = do
    r ← attempt (release cluster object_name key ref)
    after_release key r

  -- the errors of a loop's rounds
  abbrev noted : Result (Unit {0}) → List Error → List Error
  noted (ok u) errs = errs
  noted (err x) errs = errs ++ x ∷ []

  release_refs : Key → List ResourceReference → List Error → Action W (List Error)
  unfolding release_and_delete
  release_refs key [] errs = pure errs
  release_refs key (ref ∷ refs) errs = do
    r ← attempt (release_and_delete key ref)
    release_refs key refs (noted r errs)

  pub release_entries : Text → List WizardResource → List Error → Action W (List Error)
  unfolding release_refs
  release_entries run [] errs = pure errs
  release_entries run (e ∷ es) errs = do
    errs' ← release_refs (key_of e) (refs_of e.spec.refs run) errs
    release_entries run es errs'

  -- the body of the loop of `SweepTerminating`
  sweep_entry : WizardResource → Action W (Unit {0})
  unfolding after_delete
  sweep_entry e =
      if not e.spec.terminating || not (is_empty e.spec.refs)
      then pure tt
      else if e.spec.managed
      then (do r ← attempt (del e.spec); after_delete (key_of e) r)
      else after_delete (key_of e) (ok tt)

  sweep_entries : List WizardResource → List Error → Action W (List Error)
  unfolding sweep_entry
  sweep_entries [] errs = pure errs
  sweep_entries (e ∷ es) errs = do r ← attempt (sweep_entry e); sweep_entries es (noted r errs)

  sweep_listed : Result (List WizardResource) → Action W (List Error)
  unfolding sweep_entries
  sweep_listed (err x) = pure (wrap (format "list ledger" end) x ∷ [])
  sweep_listed (ok es) = sweep_entries es []

  -- the errors that `SweepTerminating` joins
  unfoldable pub sweep_terminating : Action W (List Error)
  unfolding sweep_listed
  sweep_terminating = do listed ← attempt (list cluster object_name); sweep_listed listed

  pub rollback_listed : Text → List Error → Result (List WizardResource) → Action W (List Error)
  unfolding release_entries
  rollback_listed run errs (err x) = pure (errs ++ wrap (format "list ledger" end) x ∷ [])
  rollback_listed run errs (ok es) = release_entries run (sort_entries (mine run es)) errs

  -- the errors that `Rollback` joins; the error of the sweep is one of them
  unfoldable pub rollback : Text → Action W (List Error)
  unfolding rollback_listed sweep_terminating
  rollback run = do
    errs ← sweep_terminating
    listed ← attempt (list cluster object_name)
    rollback_listed run errs listed
