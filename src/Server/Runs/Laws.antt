-- ===== src/Server/Runs/Laws.antt =====
-- What the handlers on one run change.
use fusion_wizard.Prelude.{◌≡◌, refl, sym, ◌∙◌, ap, Bool, true, false, not, Text, if-same, if-rule}
use fusion_wizard.Action.{Result, ok, err, ok-injective, Action}
use fusion_wizard.Api.Run.{WizardRun}
use fusion_wizard.Controller.Reconcile.{wants_rollback}
use fusion_wizard.Server.Runs.{
  RunStore, with_run, with_retry, with_desired, is_failed_run, request_rollback, patched_reply,
  retry_found, retry_run,
}

-- The server answers a patch with the desired state that it was given.
abbrev pub KeepsDesired : {W : Type 0} → RunStore W → Type 0
KeepsDesired {W = W} store =
    (base new run : WizardRun) (w : W)
    → (store.patch_run base new w).0 ≡ ok run
    → run.spec.desired_state ≡ new.spec.desired_state

not-false : (b : Bool) → not b ≡ false → b ≡ true
not-false true h = refl
not-false false h = cc

module _ {W : Type 0} (store : RunStore W) where
  request_rollback_wants :
      (run run' : WizardRun) (w : W)
      → KeepsDesired store
      → (request_rollback store run w).0 ≡ ok run'
      → wants_rollback run'.spec.desired_state ≡ true
  unfolding request_rollback
  request_rollback_wants run run' w keeps =
      if-rule
        (λ (r : Result WizardRun × W).
          r.0 ≡ ok run' → wants_rollback run'.spec.desired_state ≡ true)
        (wants_rollback run.spec.desired_state) _ _
        (λ e h. ap (λ r. wants_rollback r.spec.desired_state) (sym (ok-injective h)) ∙ e)
        (λ e h. ap wants_rollback (keeps run (with_desired run) run' w h))

  -- Asking for a rollback is idempotent: the run that a request leaves has the rollback as its
  -- desired state, and a second request does not touch the server.
  pub request_rollback_idempotent :
      (run run' : WizardRun) (v w : W)
      → KeepsDesired store
      → (request_rollback store run v).0 ≡ ok run'
      → request_rollback store run' w ≡ (ok run', w)
  unfolding request_rollback
  request_rollback_idempotent run run' v w keeps h =
      rw (request_rollback_wants run run' v keeps h) refl

  module _ (patch : WizardRun → WizardRun → Action W WizardRun)
      (careful : (run : WizardRun) (w : W)
        → is_failed_run run.status.phase ≡ true
        → store.patch_run run (with_retry run) w ≡ patch run (with_retry run) w) where
    abbrev other : RunStore W
    other = record store { patch_run = patch }

    retry_found_same : (run : WizardRun) (w : W) → retry_found other run w ≡ retry_found store run w
    unfolding retry_found
    retry_found_same run w =
        if-same (not (is_failed_run run.status.phase)) (λ e. refl)
          (λ e.
            ap (λ (r : Result WizardRun × W). (patched_reply 202 r.0, r.1))
              (sym (careful run w (not-false (is_failed_run run.status.phase) e))))

    retry_got_same :
        (r : Result WizardRun) (w : W)
        → with_run other (retry_found other) r w ≡ with_run store (retry_found store) r w
    retry_got_same (ok run) w = retry_found_same run w
    retry_got_same (err x) w = refl

    -- A retry changes only a run that has failed, and nothing of it but the retry annotation: it does
    -- the same with any other `Patch` that does the same to failed runs and that change.
    pub retry_run_guarded : (name : Text) (w : W) → retry_run other name w ≡ retry_run store name w
    unfolding retry_run
    retry_run_guarded name w = retry_got_same (store.get_run name w).0 (store.get_run name w).1
