-- ===== src/Controller/Advance.antt =====
-- internal/controller/run_controller.go, `advance`: a run's steps in order, for as long as they
-- complete.
pub mod Laws
pub mod Order
use fusion_wizard.Prelude.{
  ℕ, Bool, true, false, Option, none, some, List, [], ◌∷◌, Text, Assoc, insert, if◌then◌else◌,
}
use fusion_wizard.Errors.{
  Message, text, format, end, text_arg, message_arg, Error, error_message, is_blank, colon,
}
use fusion_wizard.Api.Run.{RunPhase, StepPhase, WizardRunStepStatus, WizardRunStatus}
use fusion_wizard.Action.{Result, ok, err, Action}
use fusion_wizard.Params.Values.{Value, Codec}
use fusion_wizard.Plan.{Instance}
use fusion_wizard.Controller.Status.{
  set_run, sync_steps, find_step, update_step, reset_failed, or_now,
}
use fusion_wizard.Controller.Instance.{
  Operator, StepOutcome, outcome_done, outcome_wait, outcome_failed, Turn, run_instance,
}

-- thirty seconds, in seconds
abbrev pub env_retry_interval : ℕ
env_retry_interval = 30

-- `ctrl.Result`: when to come back
abbrev pub Requeue : Type 0
Requeue = Option ℕ

-- the outputs of completed steps outside a forEach, by step name
abbrev with_outputs :
    Option Text → Instance → WizardRunStepStatus → Assoc (Assoc Text) → Assoc (Assoc Text)
with_outputs none inst s outputs = insert inst.step.name s.outputs outputs
with_outputs (some item) inst s outputs = outputs

abbrev failed_message : Text → Message → Message
failed_message key msg = format "step %q failed: %s" (text_arg key (message_arg msg end))

abbrev wait_message : Text → Message → Message
wait_message key msg =
    if is_blank msg then text [] else format "step %q: %s" (text_arg key (message_arg msg end))

module _ {W : Type 0} (op : Operator W) (codec : Codec) (run : Text) (gen : ℕ)
    (values : Assoc Value) where
  -- the rest of the loop, given the environment if it is made already, and the outputs
  abbrev pub Rest : Type 0
  Rest = Option op.Env → WizardRunStatus → Assoc (Assoc Text) → W → (Requeue × WizardRunStatus) × W

  -- the `switch` on the outcome of `runInstance`
  after_turn :
      Rest
      → op.Env
      → Instance
      → WizardRunStatus
      → Assoc (Assoc Text)
      → Turn
      → W
      → (Requeue × WizardRunStatus) × W
  after_turn rest env inst st outputs (outcome_failed, s) w = (
    (
      none,
      set_run (op.now w) RunPhase.failed (failed_message inst.key s.message) gen
          (record st { steps = update_step s st.steps }),
    ),
    w,
  )
  after_turn rest env inst st outputs (outcome_wait wait, s) w = (
    (
      some wait,
      set_run (op.now w) RunPhase.running (wait_message inst.key s.message) gen
          (record st { steps = update_step s st.steps }),
    ),
    w,
  )
  after_turn rest env inst st outputs (outcome_done, s) w =
      rest (some env) (record st { steps = update_step s st.steps })
        (with_outputs inst.item inst s outputs) w

  with_env :
      Rest
      → Instance
      → WizardRunStepStatus
      → WizardRunStatus
      → Assoc (Assoc Text)
      → Result op.Env
      → W
      → (Requeue × WizardRunStatus) × W
  unfolding after_turn
  with_env rest inst s st outputs (err x) w = (
    (
      some env_retry_interval,
      set_run (op.now w) RunPhase.running
          (colon (format "waiting for a valid instance config" end) (error_message x)) gen st,
    ),
    w,
  )
  with_env rest inst s st outputs (ok env) w =
      let (turn, w') = run_instance op codec run env inst s values outputs w in
      after_turn rest env inst st outputs turn w'

  get_env : Option op.Env → W → Result op.Env × W
  get_env (some env) w = (ok env, w)
  get_env none w = op.env w

  by_phase :
      Rest
      → StepPhase
      → Option op.Env
      → Instance
      → WizardRunStepStatus
      → WizardRunStatus
      → Assoc (Assoc Text)
      → W
      → (Requeue × WizardRunStatus) × W
  unfolding with_env get_env
  by_phase rest StepPhase.succeeded env inst s st outputs w =
      rest env st (with_outputs inst.item inst s outputs) w
  by_phase rest StepPhase.failed env inst s st outputs w =
      ((none, set_run (op.now w) RunPhase.failed (failed_message inst.key s.message) gen st), w)
  by_phase rest _ env inst s st outputs w =
      let (e, w') = get_env env w in with_env rest inst s st outputs e w'

  -- `none` is the nil pointer that `findStep` calls unreachable.
  with_step :
      Rest
      → Option WizardRunStepStatus
      → Option op.Env
      → Instance
      → WizardRunStatus
      → Assoc (Assoc Text)
      → W
      → (Requeue × WizardRunStatus) × W
  unfolding by_phase
  with_step rest none env inst st outputs w = ((none, st), w)
  with_step rest (some s) env inst st outputs w = by_phase rest s.phase env inst s st outputs w

  -- the loop over the instances
  pub advance_loop : List Instance → Rest
  unfolding with_step
  advance_loop [] env st outputs w = ((none, set_run (op.now w) RunPhase.ready (text []) gen st), w)
  advance_loop (inst ∷ insts) env st outputs w =
      with_step (advance_loop insts) (find_step st.steps inst.key) env inst st outputs w

  -- what `advance` does to the status before the loop
  unfoldable pub prepare : Bool → List Instance → ℕ → WizardRunStatus → WizardRunStatus
  prepare retry insts now st =
      let synced = sync_steps (record st { observed_generation = gen }) insts in
      let reset = if retry then reset_failed synced else synced in
      record reset { started_at = or_now now reset.started_at }

  unfoldable pub advance :
      Bool → List Instance → WizardRunStatus → W → (Requeue × WizardRunStatus) × W
  unfolding advance_loop prepare
  advance retry insts st w = advance_loop insts none (prepare retry insts (op.now w) st) [] w
