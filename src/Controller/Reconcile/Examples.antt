-- ===== src/Controller/Reconcile/Examples.antt =====
-- The theorems on reconciling at a run of two steps.
use fusion_wizard.Prelude.{◌≡◌, refl, sym, ap, inl, true, false, none, [], ◌∷◌, codes, contains}
use fusion_wizard.Api.Run.{desired_applied, RunPhase, StepPhase, WizardRun}
use fusion_wizard.Action.{ok, ok-injective}
use fusion_wizard.Params.Examples.{no_codec}
use fusion_wizard.Plan.Examples.{app_instance, file_instance}
use fusion_wizard.Controller.Instance.{Operator}
use fusion_wizard.Controller.Examples.{run_status, step_at}
use fusion_wizard.Controller.Reconcile.{Kube, finalizer_rollback, rollback, reconcile}
use fusion_wizard.Controller.Reconcile.Rollback.{
  StatusLaws, IsRolledBack, WasReleased, rollback-IsRolledBack,
}
use fusion_wizard.Controller.Reconcile.Finalizer.{IsCareful, other_kube, other_op}
use fusion_wizard.Controller.Reconcile.Teardown.{reconcile_torn_down}

-- The world is the one run that the server holds.
abbrev pub one_run : Kube WizardRun
one_run = record {
  get_run = λ name w. (ok w, w);
  get_definition = λ name w. (ok (record { description = []; parameters = []; steps = [] }, 1), w);
  patch_run = λ base new w. (ok new, new);
  patch_status = λ base new w. (ok new, new);
  contains_finalizer = λ run name. contains run.finalizers name;
  add_finalizer = λ run name. record run { finalizers = name ∷ run.finalizers };
  remove_finalizer = λ run name. record run { finalizers = [] };
  same_status = λ a b. false;
}

one_run_laws : StatusLaws one_run
one_run_laws = record {
  patched_status = λ base new run w h. sym (ap (λ r. r.status) (ok-injective h));
  patched_name = λ base new run w h. sym (ap (λ r. r.name) (ok-injective h));
}

abbrev pub stopped_clock : Operator WizardRun
stopped_clock = record {
  Env = Unit {0};
  env = λ w. (ok tt, w);
  config_values = λ e. [];
  lookup_step = λ t. none;
  rollback = λ e run w. (ok tt, w);
  now = λ w. 5;
}

abbrev pub doomed_run : WizardRun
doomed_run = record {
  name = codes "blue";
  generation = 1;
  deleting = true;
  finalizers = finalizer_rollback ∷ [];
  annotations = [];
  spec = record {
    definition_ref = codes "web";
    definition_snapshot = none;
    definition_generation = 0;
    parameters = [];
    created_by = [];
    created_by_email = [];
    desired_state = desired_applied;
  };
  status = run_status (
      step_at app_instance StepPhase.succeeded
      ∷ step_at (file_instance (codes "a.py")) StepPhase.pending
      ∷ []);
}

released_lem : (rollback one_run stopped_clock no_codec doomed_run doomed_run).0.2 ≡ true
unfolding rollback
released_lem = refl

fine_lem : (rollback one_run stopped_clock no_codec doomed_run doomed_run).0.3 ≡ none
unfolding rollback
fine_lem = refl

rollback-IsRolledBack_example :
    IsRolledBack (rollback one_run stopped_clock no_codec doomed_run doomed_run).0.0.status
    × WasReleased one_run one_run_laws stopped_clock no_codec (codes "blue")
rollback-IsRolledBack_example =
    rollback-IsRolledBack one_run one_run_laws stopped_clock no_codec doomed_run doomed_run
      released_lem fine_lem

-- Takes the finalizers of a run off only if it is rolled back.
careful_remove : WizardRun → RunPhase → WizardRun
careful_remove run RunPhase.rolled_back = record run { finalizers = [] }
careful_remove run _ = run

careful_remove_lem : IsCareful one_run (λ run name. careful_remove run run.status.phase)
unfolding careful_remove
careful_remove_lem run name h = sym (ap (careful_remove run) h)

reconcile_torn_down_example :
    reconcile
      (other_kube one_run stopped_clock no_codec
        (λ run name. careful_remove run run.status.phase)
        (λ t. none))
      (other_op one_run stopped_clock no_codec
        (λ run name. careful_remove run run.status.phase)
        (λ t. none))
      no_codec
      (codes "blue")
      doomed_run
    ≡ reconcile one_run stopped_clock no_codec (codes "blue") doomed_run
reconcile_torn_down_example =
    reconcile_torn_down one_run one_run_laws stopped_clock no_codec
      (λ run name. careful_remove run run.status.phase) careful_remove_lem (λ t. none)
      (codes "blue") doomed_run doomed_run refl (inl refl)
