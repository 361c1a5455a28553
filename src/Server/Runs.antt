-- ===== src/Server/Runs.antt =====
-- internal/apiserver/runs.go: the handlers that act on one run.
--
-- The world holds the API server's runs; `RunStore` is controller-runtime's client on them, in the
-- wizard's namespace. A patch gives the run as it is stored then.
pub mod Laws
use fusion_wizard.Prelude.{
  ℕ, Bool, true, false, not, Option, none, some, List, [], ◌∷◌, Text, Assoc, codes, insert,
  if◌then◌else◌,
}
use fusion_wizard.Errors.{Message, Error, no_object, format, end, text_arg}
use fusion_wizard.Action.{Result, ok, err, Action}
use fusion_wizard.Api.Run.{
  RunDesiredState, desired_applied, desired_rolled_back, desired_unset, RunPhase, WizardRunStatus,
  WizardRunSpec, WizardRun,
}
use fusion_wizard.Controller.Reconcile.{annotation_retry, wants_rollback}
use fusion_wizard.Server.Reply.{
  ErrorReply, write_error, internal_error, not_found_or_internal, Answer, refused, passed,
}

pub record RunStore (W : Type 0) : Type 0 where
  pub get_run : Text → Action W WizardRun
  pub list_runs : Action W (List WizardRun)
  pub patch_run : WizardRun → WizardRun → Action W WizardRun
  pub delete_run : WizardRun → Action W (Unit {0})

-- `runView`, less the creation time
pub record RunView : Type 0 where
  pub name : Text
  pub definition : Text
  pub desired_state : RunDesiredState
  pub parameters : Assoc Text
  pub created_by : Text
  pub created_by_email : Text
  pub deleting : Bool
  pub status : WizardRunStatus

-- a run that nobody reconciled yet reads as Pending
unfoldable pub run_phase : RunPhase → RunPhase
run_phase RunPhase.unset = RunPhase.pending
run_phase p = p

abbrev or_applied : RunDesiredState → RunDesiredState
or_applied desired_unset = desired_applied
or_applied d = d

unfoldable pub view_run : WizardRun → RunView
unfolding run_phase
view_run run = record {
  name = run.name;
  definition = run.spec.definition_ref;
  desired_state = or_applied run.spec.desired_state;
  parameters = run.spec.parameters;
  created_by = run.spec.created_by;
  created_by_email = run.spec.created_by_email;
  deleting = run.deleting;
  status = record run.status { phase = run_phase run.status.phase };
}

-- a status with the run that is shown; a bare `WriteHeader` shows none
abbrev pub Reply : Type 0
Reply = Answer (ℕ × Option RunView)

abbrev pub show : ℕ → WizardRun → Reply
show status run = passed (status, some (view_run run))

-- the constants' texts
unfoldable pub phase_name : RunPhase → Text
phase_name RunPhase.unset = []
phase_name RunPhase.pending = codes "Pending"
phase_name RunPhase.running = codes "Running"
phase_name RunPhase.ready = codes "Ready"
phase_name RunPhase.failed = codes "Failed"
phase_name RunPhase.rolling_back = codes "RollingBack"
phase_name RunPhase.rolled_back = codes "RolledBack"
phase_name RunPhase.rollback_failed = codes "RollbackFailed"

abbrev pub is_failed_run : RunPhase → Bool
is_failed_run RunPhase.failed = true
is_failed_run _ = false

-- a nil map of annotations is an empty one
abbrev pub with_retry : WizardRun → WizardRun
with_retry run = record run { annotations = insert annotation_retry (codes "true") run.annotations }

abbrev pub with_desired : WizardRun → WizardRun
with_desired run = record run { spec = record run.spec { desired_state = desired_rolled_back } }

patched_reply : ℕ → Result WizardRun → Reply
unfolding view_run not_found_or_internal
patched_reply status (ok run) = show status run
patched_reply status (err x) = refused (not_found_or_internal x (codes "run"))

module _ {W : Type 0} (store : RunStore W) where
  -- `(*Server).run` and what comes after it
  abbrev pub with_run : (WizardRun → W → Reply × W) → Result WizardRun → W → Reply × W
  with_run next (ok run) w = next run w
  with_run next (err x) w = (refused (not_found_or_internal x (codes "run")), w)

  abbrev pub run_of : Text → (WizardRun → W → Reply × W) → W → Reply × W
  run_of name next w = let (r, w') = store.get_run name w in with_run next r w'

  unfoldable pub get_run : Text → W → Reply × W
  unfolding view_run not_found_or_internal
  get_run name = run_of name (λ run w. (show 200 run, w))

  unfoldable pub retry_found : WizardRun → W → Reply × W
  unfolding patched_reply view_run phase_name insert
  retry_found run w =
      if not (is_failed_run run.status.phase)
      then (
        refused (
            write_error 409 (
              format "only a failed run can be retried; this run is %s"
                (text_arg (phase_name (view_run run).status.phase) end))),
        w,
      )
      else let (r, w') = store.patch_run run (with_retry run) w in (patched_reply 202 r, w')

  unfoldable pub retry_run : Text → W → Reply × W
  unfolding retry_found not_found_or_internal
  retry_run name = run_of name retry_found

  -- `requestRollback`, with the run that it leaves
  unfoldable pub request_rollback : WizardRun → Action W WizardRun
  request_rollback run w =
      if wants_rollback run.spec.desired_state
      then (ok run, w)
      else store.patch_run run (with_desired run) w

  rollback_found : WizardRun → W → Reply × W
  unfolding request_rollback patched_reply
  rollback_found run w =
      let (r, w') = request_rollback run w in
      (patched_reply (if wants_rollback run.spec.desired_state then 200 else 202) r, w')

  unfoldable pub rollback_run : Text → W → Reply × W
  unfolding rollback_found not_found_or_internal
  rollback_run name = run_of name rollback_found

  -- what the run reads as after the deletion was asked for
  reread : Result WizardRun → Reply
  unfolding view_run
  reread (err (no_object t)) = passed (204, none)
  reread (err x) = refused internal_error
  reread (ok run) = show 202 run

  after_delete : Text → Result (Unit {0}) → W → Reply × W
  unfolding reread
  after_delete name (err (no_object t)) w = let (r, w') = store.get_run name w in (reread r, w')
  after_delete name (err x) w = (refused internal_error, w)
  after_delete name (ok u) w = let (r, w') = store.get_run name w in (reread r, w')

  delete_found : WizardRun → W → Reply × W
  unfolding after_delete
  delete_found run w = let (r, w') = store.delete_run run w in after_delete run.name r w'

  unfoldable pub delete_run : Text → W → Reply × W
  unfolding delete_found not_found_or_internal
  delete_run name = run_of name delete_found
