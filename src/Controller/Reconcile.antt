-- ===== src/Controller/Reconcile.antt =====
-- internal/controller/run_controller.go, `Reconcile`: one call of the reconciler on a run.
--
-- The API server is the parameter `Kube`. A patch returns the run as the server then holds it, which
-- the code goes on with; after an error it goes on with nothing but the error.
pub mod Rollback
pub mod Teardown
pub mod Finalizer
pub mod Runnable
pub mod Examples
use fusion_wizard.Prelude.{
  ℕ, Bool, true, false, not, ◌||◌, Option, none, some, List, [], ◌∷◌, map, Text, Assoc, String,
  codes, lookup, text_eq, if◌then◌else◌,
}
use fusion_wizard.Errors.{
  Message, text, format, end, text_arg, message_arg, Error, no_object, plain, error_message, colon,
  is_blank, join_all, fine, problems,
}
use fusion_wizard.Action.{Result, ok, err, Action}
use fusion_wizard.Api.Definition.{WizardDefinitionSpec}
use fusion_wizard.Api.Run.{
  RunDesiredState, desired_applied, desired_rolled_back, desired_unset, RunPhase, StepPhase,
  WizardRunStepStatus, WizardRunStatus, WizardRunSpec, WizardRun,
}
use fusion_wizard.Params.Values.{Value, Codec}
use fusion_wizard.Params.Parameters.{resolve_parameters}
use fusion_wizard.Plan.{Instance, expand}
use fusion_wizard.Steps.Validate.{validate_definition}
use fusion_wizard.Controller.Status.{set_run}
use fusion_wizard.Controller.Instance.{Operator}
use fusion_wizard.Controller.Advance.{Requeue, advance}

-- controller-runtime's client on the runs and definitions of the run's namespace,
-- `controllerutil` and `equality.Semantic`
pub record Kube (W : Type 0) : Type 0 where
  pub get_run : Text → Action W WizardRun
  -- the definition and its generation
  pub get_definition : Text → Action W (WizardDefinitionSpec × ℕ)
  -- `Patch` with the run before and after the change: the run as it is stored then
  pub patch_run : WizardRun → WizardRun → Action W WizardRun
  pub patch_status : WizardRun → WizardRun → Action W WizardRun
  pub contains_finalizer : WizardRun → Text → Bool
  pub add_finalizer : WizardRun → Text → WizardRun
  pub remove_finalizer : WizardRun → Text → WizardRun
  pub same_status : WizardRunStatus → WizardRunStatus → Bool

abbrev pub finalizer_rollback : Text
finalizer_rollback = codes "wizard.fusion-platform.io/rollback"

abbrev pub annotation_retry : Text
annotation_retry = codes "wizard.fusion-platform.io/retry"

-- thirty seconds, in seconds
abbrev pub rollback_retry_interval : ℕ
rollback_retry_interval = 30

-- the result of `Reconcile`; a nil error is `none`
abbrev pub Reconciled : Type 0
Reconciled = Requeue × Option Error

abbrev pub is_rolled_back : RunPhase → Bool
is_rolled_back RunPhase.rolled_back = true
is_rolled_back _ = false

abbrev pub is_rolling_back : RunPhase → Bool
is_rolling_back RunPhase.rolling_back = true
is_rolling_back RunPhase.rollback_failed = true
is_rolling_back _ = false

abbrev pub wants_rollback : RunDesiredState → Bool
wants_rollback desired_rolled_back = true
wants_rollback _ = false

abbrev pub is_pending : StepPhase → Bool
is_pending StepPhase.pending = true
is_pending _ = false

-- `delete(m, k)`
remove_key {ℓ} : {V : Type ℓ} → Text → Assoc V → Assoc V
remove_key k [] = []
remove_key k ((j, v) ∷ m) = let rest = remove_key k m in if text_eq j k then rest else (j, v) ∷ rest

abbrev pub is_some {ℓ} : {V : Type ℓ} → Option V → Bool
is_some none = false
is_some (some v) = true

abbrev error_of {ℓ} : {A : Type ℓ} → Result A → Option Error
error_of (ok a) = none
error_of (err x) = some x

-- one round of the loop over the steps of a run that was rolled back
unfoldable pub roll_step : ℕ → WizardRunStepStatus → WizardRunStepStatus
roll_step now s =
    if is_pending s.phase
    then s
    else record s { phase = StepPhase.rolled_back; message = text []; completed_at = some now }

unfoldable pub mark_rolled_back : ℕ → ℕ → WizardRunStatus → WizardRunStatus
unfolding roll_step
mark_rolled_back gen now st =
    set_run now RunPhase.rolled_back (text []) gen
      (record st { steps = map (roll_step now) st.steps })

abbrev pub updated : WizardRun → Result WizardRun → WizardRun × Option Error
updated new (ok run) = (run, none)
updated new (err x) = (new, some x)

-- the run, when to come back, whether everything was released, and the error
abbrev pub Rolled : Type 0
Rolled = WizardRun × Requeue × Bool × Option Error

-- the run, the failure message and the error of `takeSnapshot`
abbrev Snapshot : Type 0
Snapshot = WizardRun × Message × Option Error

abbrev patched : WizardRun → Result WizardRun → Snapshot
patched new (ok run) = (run, text [], none)
patched new (err x) = (new, text [], some x)

module _ {W : Type 0} (kube : Kube W) (op : Operator W) (codec : Codec) where
  -- `mutate` gets the time that it reads from the clock
  unfoldable pub update_status :
      WizardRun → (ℕ → WizardRunStatus → WizardRunStatus) → W → (WizardRun × Option Error) × W
  update_status run mutate w =
      let new = record run { status = mutate (op.now w) run.status } in
      if kube.same_status run.status new.status
      then ((new, none), w)
      else let (r, w') = kube.patch_status run new w in (updated new r, w')

  released : ℕ → WizardRun → Result (Unit {0}) → W → Rolled × W
  unfolding update_status mark_rolled_back
  released gen run (err x) w =
      let ((run', e), w') =
        update_status run
          (λ now.
            set_run now RunPhase.rollback_failed
              (colon (format "rollback failed, will retry" end) (error_message x)) gen)
          w in
      ((run', some rollback_retry_interval, false, e), w')
  released gen run (ok u) w =
      let ((run', e), w') = update_status run (mark_rolled_back gen) w in
      ((run', none, true, e), w')

  -- from `r.Envs.Env(ctx)` on
  release_held : ℕ → WizardRun → Result op.Env → W → Rolled × W
  unfolding released
  release_held gen run (err x) w = released gen run (err x) w
  release_held gen run (ok env) w =
      let (r, w') = op.rollback env run.name w in released gen run r w'

  after_started : ℕ → WizardRun → Option Error → W → Rolled × W
  unfolding release_held
  after_started gen run (some x) w = ((run, none, false, some x), w)
  after_started gen run none w = let (e, w') = op.env w in release_held gen run e w'

  unfoldable pub rollback : WizardRun → W → Rolled × W
  unfolding after_started update_status
  rollback run w =
      if is_rolling_back run.status.phase
      then after_started run.generation run none w
      else let ((run', e), w') =
          update_status run (λ now. set_run now RunPhase.rolling_back (text []) run.generation) w in
        after_started run.generation run' e w'

  unfoldable pub drop_finalizer : WizardRun → W → Reconciled × W
  drop_finalizer run w =
      let (r, w') = kube.patch_run run (kube.remove_finalizer run finalizer_rollback) w in
      ((none, error_of r), w')

  after_rollback : Rolled → W → Reconciled × W
  unfolding drop_finalizer
  after_rollback (run, res, done, some x) w = ((res, some x), w)
  after_rollback (run, res, false, none) w = ((res, none), w)
  after_rollback (run, res, true, none) w = drop_finalizer run w

  unfoldable pub reconcile_delete : WizardRun → W → Reconciled × W
  unfolding rollback after_rollback drop_finalizer
  reconcile_delete run w =
      if not (kube.contains_finalizer run finalizer_rollback)
      then ((none, none), w)
      else if is_rolled_back run.status.phase
      then drop_finalizer run w
      else let (rolled, w') = rollback run w in after_rollback rolled w'

  -- a run that no retry can mend
  fail_run : WizardRun → Message → W → Reconciled × W
  unfolding update_status
  fail_run run msg w =
      let ((run', e), w') =
        update_status run (λ now. set_run now RunPhase.failed msg run.generation) w in
      ((none, e), w')

  copy_definition : WizardRun → WizardDefinitionSpec → ℕ → W → Snapshot × W
  copy_definition run def gen w =
      let new = record run {
        spec = record run.spec { definition_snapshot = some def; definition_generation = gen };
      } in
      let (r, w') = kube.patch_run run new w in (patched new r, w')

  snapshot_of : WizardRun → Result (WizardDefinitionSpec × ℕ) → W → Snapshot × W
  unfolding copy_definition validate_definition join_all
  snapshot_of run (err (no_object t)) w =
      ((run, format "definition %q not found" (text_arg run.spec.definition_ref end), none), w)
  snapshot_of run (err x) w = ((run, text [], some x), w)
  snapshot_of run (ok (def, gen)) w = elim (join_all (validate_definition codec def)) [
    | problems x ↦ (
      (
        run,
        format "definition %q is invalid: %v"
            (text_arg run.spec.definition_ref (message_arg (error_message x) end)),
        none,
      ),
      w,
    )
    | fine ↦ copy_definition run def gen w
  ]

  take_snapshot : WizardRun → W → Snapshot × W
  unfolding snapshot_of
  take_snapshot run w =
      let (r, w') = kube.get_definition run.spec.definition_ref w in snapshot_of run r w'

  -- the end of `reconcileApply`: the retry request goes once its reset is written
  finish_retry : Bool → Requeue → WizardRun → W → Reconciled × W
  unfolding remove_key
  finish_retry false res run w = ((res, none), w)
  finish_retry true res run w =
      let new = record run { annotations = remove_key annotation_retry run.annotations } in
      let (r, w') = kube.patch_run run new w in
      elim r [ ok run' ↦ ((res, none), w') | err x ↦ ((none, some x), w') ]

  write_status : Bool → Requeue → WizardRun → WizardRun → W → Reconciled × W
  unfolding finish_retry
  write_status retry res run new w =
      if kube.same_status run.status new.status
      then finish_retry retry res new w
      else let (r, w') = kube.patch_status run new w in
        elim r [ err x ↦ ((none, some x), w') | ok run' ↦ finish_retry retry res run' w' ]

  pub apply_plan : WizardRun → Assoc Value → List Instance → W → Reconciled × W
  unfolding write_status advance lookup
  apply_plan run values insts w =
      let retry = is_some (lookup annotation_retry run.annotations) in
      let ((res, st), w') =
        advance op codec run.name run.generation values retry insts run.status w in
      write_status retry res run (record run { status = st }) w'

  apply_values : WizardRun → WizardDefinitionSpec → Assoc Value × List Error → W → Reconciled × W
  unfolding apply_plan fail_run expand join_all
  apply_values run def (values, errs) w = elim (join_all errs) [
    | problems x ↦ fail_run run (colon (format "invalid parameters" end) (error_message x)) w
    | fine ↦ elim (expand def values) [
      | err x ↦ fail_run run (error_message x) w
      | ok insts ↦ apply_plan run values insts w
    ]
  ]

  -- `none` is the nil pointer that reading the snapshot's parameters panics on: the server answered
  -- the patch with a run that has none. controller-runtime makes an error of it.
  apply_definition : WizardRun → Option WizardDefinitionSpec → W → Reconciled × W
  unfolding apply_values resolve_parameters
  apply_definition run none w = ((none, some (plain (format "nil pointer dereference" end))), w)
  apply_definition run (some def) w =
      apply_values run def (resolve_parameters codec def.parameters run.spec.parameters) w

  apply_snapshot : Snapshot → W → Reconciled × W
  unfolding apply_definition fail_run
  apply_snapshot (run, msg, some x) w = ((none, some x), w)
  apply_snapshot (run, msg, none) w =
      if not (is_blank msg)
      then fail_run run msg w
      else apply_definition run run.spec.definition_snapshot w

  apply_spec : WizardRun → Option WizardDefinitionSpec → W → Reconciled × W
  unfolding take_snapshot apply_snapshot apply_definition
  apply_spec run none w = let (s, w') = take_snapshot run w in apply_snapshot s w'
  apply_spec run (some def) w = apply_definition run (some def) w

  -- provisioning again means creating a new run
  refuse_run : WizardRun → W → Reconciled × W
  unfolding update_status
  refuse_run run w =
      let ((run', e), w') =
        update_status run
          (λ now st. record st {
            message = format "this run was rolled back; create a new run to provision again" end;
          })
          w in
      ((none, e), w')

  unfoldable pub reconcile_apply : WizardRun → W → Reconciled × W
  unfolding apply_spec refuse_run
  reconcile_apply run w =
      if is_rolled_back run.status.phase || is_rolling_back run.status.phase
      then refuse_run run w
      else apply_spec run run.spec.definition_snapshot w

  roll_back_run : WizardRun → W → Reconciled × W
  unfolding rollback
  roll_back_run run w =
      if is_rolled_back run.status.phase
      then ((none, none), w)
      else let ((run', res, done, e), w') = rollback run w in ((res, e), w')

  unfoldable pub reconcile_live : WizardRun → W → Reconciled × W
  unfolding roll_back_run reconcile_apply
  reconcile_live run w =
      if wants_rollback run.spec.desired_state then roll_back_run run w else reconcile_apply run w

  -- the finalizer goes on first
  guard_run : WizardRun → W → Reconciled × W
  unfolding reconcile_live
  guard_run run w =
      if kube.contains_finalizer run finalizer_rollback
      then reconcile_live run w
      else let (r, w') = kube.patch_run run (kube.add_finalizer run finalizer_rollback) w in
        elim r [ err x ↦ ((none, some x), w') | ok run' ↦ reconcile_live run' w' ]

  reconcile_got : Result WizardRun → W → Reconciled × W
  unfolding guard_run reconcile_delete
  reconcile_got (err (no_object t)) w = ((none, none), w)
  reconcile_got (err x) w = ((none, some x), w)
  reconcile_got (ok run) w = if run.deleting then reconcile_delete run w else guard_run run w

  unfoldable pub reconcile : Text → W → Reconciled × W
  unfolding reconcile_got
  reconcile name w = let (r, w') = kube.get_run name w in reconcile_got r w'
