-- ===== src/Controller/Reconcile/Teardown.antt =====
-- What a run that is being torn down never does.
use fusion_wizard.Prelude.{
  ◌≡◌, refl, sym, ap, if-same, ◌∙◌, ◌⊎◌, inl, inr, true, false, ◌||◌, Option, Text,
}
use fusion_wizard.Action.{ok, Action}
use fusion_wizard.Api.Definition.{StepType}
use fusion_wizard.Api.Run.{WizardRun}
use fusion_wizard.Params.Values.{Codec}
use fusion_wizard.Steps.Step.{Input, StepResult}
use fusion_wizard.Controller.Instance.{Operator}
use fusion_wizard.Controller.Reconcile.{
  Kube, Rolled, is_rolled_back, is_rolling_back, wants_rollback, finalizer_rollback, refuse_run,
  roll_back_run, reconcile_apply, reconcile_live, guard_run, reconcile_got, reconcile,
}
use fusion_wizard.Controller.Reconcile.Rollback.{StatusLaws}
use fusion_wizard.Controller.Reconcile.Finalizer.{
  other_kube, other_op, rollback_same, IsCareful, reconcile_delete_same,
}

-- The run is being deleted, or it has its finalizer and is to be rolled back or was.
abbrev pub IsTornDown : {W : Type 0} → Kube W → WizardRun → Type 0
IsTornDown kube run =
    (run.deleting ≡ true)
    ⊎ ((kube.contains_finalizer run finalizer_rollback ≡ true)
        × ((wants_rollback run.spec.desired_state ≡ true)
            ⊎ ((is_rolled_back run.status.phase || is_rolling_back run.status.phase) ≡ true)))

true-ne-false : true ≡ false → ⊥
true-ne-false h = cc

module _ {W : Type 0} (kube : Kube W) (laws : StatusLaws kube) (op : Operator W) (codec : Codec)
    (remove : WizardRun → Text → WizardRun) (careful : IsCareful kube remove)
    (find : StepType → Option (op.Env → Input → Action W StepResult)) where
  abbrev other : Kube W
  other = other_kube kube op codec remove find

  abbrev op' : Operator W
  op' = other_op kube op codec remove find

  roll_back_same :
      (run : WizardRun) (w : W)
      → roll_back_run other op' codec run w ≡ roll_back_run kube op codec run w
  unfolding roll_back_run
  roll_back_same run w =
      if-same (is_rolled_back run.status.phase) (λ _. refl)
        (λ _.
          ap (λ (r : Rolled × W). ((r.0.1, r.0.3), r.1))
            (rollback_same kube op codec remove find run w))

  refuse_same :
      (run : WizardRun) (w : W) → refuse_run other op' codec run w ≡ refuse_run kube op codec run w
  unfolding refuse_run
  refuse_same run w = refl

  apply_same :
      (run : WizardRun) (w : W)
      → (is_rolled_back run.status.phase || is_rolling_back run.status.phase) ≡ true
      → reconcile_apply other op' codec run w ≡ reconcile_apply kube op codec run w
  unfolding reconcile_apply
  apply_same run w h = rw h (refuse_same run w)

  live_same :
      (run : WizardRun) (w : W)
      → (wants_rollback run.spec.desired_state ≡ true)
        ⊎ ((is_rolled_back run.status.phase || is_rolling_back run.status.phase) ≡ true)
      → reconcile_live other op' codec run w ≡ reconcile_live kube op codec run w
  unfolding reconcile_live
  live_same run w (inl h) = rw h (roll_back_same run w)
  live_same run w (inr h) =
      if-same (wants_rollback run.spec.desired_state) (λ _. roll_back_same run w)
        (λ _. apply_same run w h)

  got_same :
      (run : WizardRun) (w : W)
      → IsTornDown kube run
      → reconcile_got other op' codec (ok run) w ≡ reconcile_got kube op codec (ok run) w
  unfolding reconcile_got guard_run
  got_same run w (inl h) =
      if-same run.deleting (λ _. reconcile_delete_same kube op codec remove find laws careful run w)
        (λ e. absurd (true-ne-false (sym h ∙ e)))
  got_same run w (inr (guarded, h)) =
      if-same run.deleting (λ _. reconcile_delete_same kube op codec remove find laws careful run w)
        (λ _. rw guarded (live_same run w h))

  -- A run that is being deleted, or that has its finalizer and is to be rolled back or was, uses no
  -- step of the catalogue, and loses its finalizer only where it is RolledBack: `Reconcile` does the
  -- same with any other `Lookup`, and with any `RemoveFinalizer` that does the same to runs that are
  -- RolledBack.
  pub reconcile_torn_down :
      (name : Text) (run : WizardRun) (w : W)
      → (kube.get_run name w).0 ≡ ok run
      → IsTornDown kube run
      → reconcile other op' codec name w ≡ reconcile kube op codec name w
  unfolding reconcile
  reconcile_torn_down name run w h t = rw h (got_same run (kube.get_run name w).1 t)
