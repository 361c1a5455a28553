-- ===== src/Steps/Rollback/Deletes.antt =====
-- What a rollback deletes upstream.
use fusion_wizard.Prelude.{◌≡◌, refl, inl, inr, true, Option, none, some, [], Text}
use fusion_wizard.Api.Resource.{ResourceReference, WizardResourceSpec, WizardResource}
use fusion_wizard.Action.{Result-cases, ok, Action}
use fusion_wizard.Cluster.{Cluster}
use fusion_wizard.Ledger.{
  Key, Outcome, outcome_gone, outcome_shared, outcome_released, outcome_delete, release,
}
use fusion_wizard.Ledger.Laws.{ClusterLaws}
use fusion_wizard.Ledger.Outcomes.{Settled, release-Settled, Known-held}
use fusion_wizard.Steps.Rollback.{after_release, release_and_delete}

module _ {W : Type 0} (c : Cluster W) (entries : W → Text → Option WizardResource)
    (laws : ClusterLaws c entries) (object_name : Key → Text)
    (del del' : WizardResourceSpec → Action W (Unit {0})) (key : Key) where
  module _
      (agree : (w : W) (e : WizardResource)
        → laws.held w e
        → e.object_name ≡ object_name key
        → e.spec.refs ≡ []
        → e.spec.terminating ≡ true
        → e.spec.managed ≡ true
        → del e.spec w ≡ del' e.spec w) where
    after_release-agree :
        (ref : ResourceReference) (q : Outcome × Option WizardResource) (w : W)
        → Settled c entries laws object_name key ref q w
        → after_release c object_name del key (ok q) w
          ≡ after_release c object_name del' key (ok q) w
    unfolding after_release
    after_release-agree ref (outcome_delete, some e) w
          (named, less, empty, doomed, managed, known) =
        rw
          (agree w e (Known-held c entries laws object_name _ e w known) named empty doomed managed)
    after_release-agree ref (outcome_delete, none) w s = refl
    after_release-agree ref (outcome_gone, none) w s = refl
    after_release-agree ref (outcome_gone, some e) w s = refl
    after_release-agree ref (outcome_shared, none) w s = refl
    after_release-agree ref (outcome_shared, some e) w s = refl
    after_release-agree ref (outcome_released, none) w s = refl
    after_release-agree ref (outcome_released, some e) w s = refl

    -- Releasing a reference deletes upstream only what the ledger holds, or has held, as managed,
    -- without references and marked as being deleted: a deletion that differs anywhere else makes
    -- no difference.
    pub release_and_delete_guarded :
        (ref : ResourceReference) (w : W)
        → release_and_delete c object_name del key ref w
          ≡ release_and_delete c object_name del' key ref w
    unfolding release_and_delete
    release_and_delete_guarded ref w = elim (Result-cases (release c object_name key ref w).0) [
      | inl (q, r) ↦ rw r (
          after_release-agree ref q (release c object_name key ref w).1
            (release-Settled c entries laws object_name key ref w q r))
      | inr (x, r) ↦ rw r (unfold after_release in refl)
    ]
