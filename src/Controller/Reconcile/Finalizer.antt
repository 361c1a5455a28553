-- ===== src/Controller/Reconcile/Finalizer.antt =====
-- When the finalizer comes off a run that is being deleted.
use fusion_wizard.Prelude.{
  ℕ, ◌≡◌, refl, ap, if-same, ◌∙◌, true, false, not, Option, none, some, [], Text,
}
use fusion_wizard.Errors.{text, Error}
use fusion_wizard.Action.{Result, ok, err, Action}
use fusion_wizard.Api.Definition.{StepType}
use fusion_wizard.Api.Run.{RunPhase, WizardRunStatus, WizardRun}
use fusion_wizard.Params.Values.{Codec}
use fusion_wizard.Steps.Step.{Input, StepResult}
use fusion_wizard.Controller.Status.{set_run}
use fusion_wizard.Controller.Instance.{Operator}
use fusion_wizard.Controller.Reconcile.{
  Kube, Rolled, is_rolled_back, is_rolling_back, finalizer_rollback, update_status, released,
  release_held, after_started, rollback, drop_finalizer, after_rollback, reconcile_delete,
}
use fusion_wizard.Controller.Reconcile.Rollback.{StatusLaws, rollback-IsRolledBack}

-- The other way to take finalizers off does the same to runs that are rolled back.
abbrev pub IsCareful : {W : Type 0} → Kube W → (WizardRun → Text → WizardRun) → Type 0
IsCareful kube remove =
    (run : WizardRun) (name : Text)
    → run.status.phase ≡ RunPhase.rolled_back
    → kube.remove_finalizer run name ≡ remove run name

module _ {W : Type 0} (kube : Kube W) (op : Operator W) (codec : Codec)
    (remove : WizardRun → Text → WizardRun)
    (find : StepType → Option (op.Env → Input → Action W StepResult)) where
  -- another way to take finalizers off, and another catalogue
  abbrev pub other_kube : Kube W
  other_kube = record kube { remove_finalizer = remove }

  abbrev pub other_op : Operator W
  other_op = record op { lookup_step = find }

  pub update_same :
      (run : WizardRun) (f : ℕ → WizardRunStatus → WizardRunStatus) (w : W)
      → update_status other_kube other_op codec run f w ≡ update_status kube op codec run f w
  unfolding update_status
  update_same run f w = refl

  released_same :
      (gen : ℕ) (run : WizardRun) (r : Result (Unit {0})) (w : W)
      → released other_kube other_op codec gen run r w ≡ released kube op codec gen run r w
  unfolding released update_status
  released_same gen run (err x) w = refl
  released_same gen run (ok u) w = refl

  held_same :
      (gen : ℕ) (run : WizardRun) (r : Result op.Env) (w : W)
      → release_held other_kube other_op codec gen run r w ≡ release_held kube op codec gen run r w
  unfolding release_held
  held_same gen run (err x) w = released_same gen run (err x) w
  held_same gen run (ok env) w =
      released_same gen run (op.rollback env run.name w).0 (op.rollback env run.name w).1

  started_same :
      (gen : ℕ) (run : WizardRun) (e : Option Error) (w : W)
      → after_started other_kube other_op codec gen run e w
        ≡ after_started kube op codec gen run e w
  unfolding after_started
  started_same gen run (some x) w = refl
  started_same gen run none w = held_same gen run (op.env w).0 (op.env w).1

  -- A rollback uses neither.
  pub rollback_same :
      (run : WizardRun) (w : W)
      → rollback other_kube other_op codec run w ≡ rollback kube op codec run w
  unfolding rollback
  rollback_same run w =
      if-same (is_rolling_back run.status.phase)
        (λ _. held_same run.generation run (op.env w).0 (op.env w).1)
        (λ _.
          started_same run.generation
            (update_status kube op codec run
              (λ now. set_run now RunPhase.rolling_back (text []) run.generation) w).0.0
            (update_status kube op codec run
              (λ now. set_run now RunPhase.rolling_back (text []) run.generation) w).0.1
            (update_status kube op codec run
              (λ now. set_run now RunPhase.rolling_back (text []) run.generation) w).1)

  module _ (laws : StatusLaws kube) (careful : IsCareful kube remove) where
    drop_same :
        (run : WizardRun) (w : W)
        → run.status.phase ≡ RunPhase.rolled_back
        → drop_finalizer other_kube other_op codec run w ≡ drop_finalizer kube op codec run w
    unfolding drop_finalizer
    drop_same run w h = rw (careful run finalizer_rollback h) refl

    after_same :
        (r : Rolled) (w : W)
        → (r.2 ≡ true → r.3 ≡ none → r.0.status.phase ≡ RunPhase.rolled_back)
        → after_rollback other_kube other_op codec r w ≡ after_rollback kube op codec r w
    unfolding after_rollback
    after_same (run, res, done, some x) w h = refl
    after_same (run, res, false, none) w h = refl
    after_same (run, res, true, none) w h = drop_same run w (h refl refl)

    is_rolled_back_lem : (p : RunPhase) → is_rolled_back p ≡ true → p ≡ RunPhase.rolled_back
    is_rolled_back_lem RunPhase.rolled_back h = refl
    is_rolled_back_lem RunPhase.unset h = cc
    is_rolled_back_lem RunPhase.pending h = cc
    is_rolled_back_lem RunPhase.running h = cc
    is_rolled_back_lem RunPhase.ready h = cc
    is_rolled_back_lem RunPhase.failed h = cc
    is_rolled_back_lem RunPhase.rolling_back h = cc
    is_rolled_back_lem RunPhase.rollback_failed h = cc

    -- Deleting a run uses no step of the catalogue, and takes its finalizer off only where the run is
    -- rolled back.
    pub reconcile_delete_same :
        (run : WizardRun) (w : W)
        → reconcile_delete other_kube other_op codec run w ≡ reconcile_delete kube op codec run w
    unfolding reconcile_delete
    reconcile_delete_same run w =
        if-same (not (kube.contains_finalizer run finalizer_rollback)) (λ _. refl)
          (λ _.
            if-same (is_rolled_back run.status.phase)
              (λ e. drop_same run w (is_rolled_back_lem run.status.phase e))
              (λ e.
                ap (λ (r : Rolled × W). after_rollback other_kube other_op codec r.0 r.1)
                  (rollback_same run w)
                ∙ after_same (rollback kube op codec run w).0 (rollback kube op codec run w).1
                    (λ done fine. (rollback-IsRolledBack kube laws op codec run w done fine).0.0)))
