-- ===== src/Controller/Instance.antt =====
-- internal/controller/run_controller.go, `runInstance`: one step instance's turn.
--
-- A status value is passed along instead of mutated through its pointer. `Operator` holds what the
-- controller is wired to: the step environment, the catalogue, the clock and rollback.
pub mod Turns
pub mod Retries
pub mod Examples
use fusion_wizard.Prelude.{
  ℕ, suc, ◌+◌, Bool, true, false, Option, none, some, List, [], ◌∷◌, Text, Assoc, leb, is_empty,
  if◌then◌else◌, ltb,
}
use fusion_wizard.Errors.{
  Message, text, format, colon, end, text_arg, number_arg, message_arg, Error, error_message,
  is_permanent, join, plain,
}
use fusion_wizard.Api.Definition.{StepType, type_name}
use fusion_wizard.Api.Run.{StepPhase, WizardRunStepStatus}
use fusion_wizard.Action.{Result, ok, err, Action}
use fusion_wizard.Params.Values.{Value, Codec}
use fusion_wizard.Params.Render.{Context, resolve_map}
use fusion_wizard.Plan.{Instance}
use fusion_wizard.Steps.Step.{Input, StepResult}
use fusion_wizard.Controller.Status.{or_now}
use fusion_wizard.Controller.Backoff.{retry_delay}

pub record Operator (W : Type 0) : Type 1 where
  pub Env : Type 0
  pub env : Action W Env
  -- `env.Cfg.Values()`
  pub config_values : Env → Assoc Text
  -- `steps.Lookup`, and the `Ensure` of the step that it finds
  pub lookup_step : StepType → Option (Env → Input → Action W StepResult)
  pub rollback : Env → Text → Action W (Unit {0})
  -- `r.now()`, in seconds
  pub now : W → ℕ

abbrev pub max_step_failures : ℕ
max_step_failures = 10

-- five seconds, in seconds
abbrev pub default_poll : ℕ
default_poll = 5

-- `outcome` with the wait that goes with it
pub data StepOutcome : Type 0 where
  outcome_done : StepOutcome
  outcome_wait : ℕ → StepOutcome
  outcome_failed : StepOutcome

abbrev pub Turn : Type 0
Turn = StepOutcome × WizardRunStepStatus

-- the closure `fail`
unfoldable pub fail_step : ℕ → WizardRunStepStatus → Message → Turn
fail_step now s msg = (
  outcome_failed,
  record s { phase = StepPhase.failed; message = msg; failures = 0; completed_at = some now },
)

-- a failure that may pass; `s.Failures` stays below the maximum, so its int32 does not wrap
transient_failure : ℕ → WizardRunStepStatus → Error → Turn
transient_failure now s x =
    let n = s.failures + 1 in
    if leb max_step_failures n
    then fail_step now s (
        format "giving up after %d attempts: %v" (number_arg n (message_arg (error_message x) end)))
    else (
      outcome_wait (retry_delay n),
      record s {
        message =
            format "attempt %d failed, will retry: %v"
              (number_arg n (message_arg (error_message x) end));
        failures = n;
      },
    )

abbrev pub or_outputs : Option (Assoc Text) → Assoc Text → Assoc Text
or_outputs none old = old
or_outputs (some new) old = new

abbrev or_none : Option (Assoc Text) → Assoc Text
or_none none = []
or_none (some new) = new

abbrev or_default : ℕ → ℕ
or_default wait = if ltb 0 wait then wait else default_poll

finished_call : ℕ → WizardRunStepStatus → StepResult → Turn
finished_call now s res =
    if res.done
    then (
      outcome_done,
      record s {
        phase = StepPhase.succeeded;
        message = text [];
        failures = 0;
        outputs = or_none res.outputs;
        resources = res.resources;
        completed_at = some now;
      },
    )
    else (
      outcome_wait (or_default res.requeue),
      record s { message = res.message; failures = 0; outputs = or_outputs res.outputs s.outputs },
    )

-- the `switch` on what `Ensure` returned
unfoldable pub after_ensure : ℕ → WizardRunStepStatus → Result StepResult → Turn
unfolding fail_step transient_failure finished_call
after_ensure now s (err x) =
    if is_permanent x then fail_step now s (error_message x) else transient_failure now s x
after_ensure now s (ok res) = finished_call now s res

module _ {W : Type 0} (op : Operator W) (codec : Codec) (run : Text) where
  abbrev start_step : ℕ → Instance → WizardRunStepStatus → WizardRunStepStatus
  start_step now inst s = record s {
    started_at = or_now now s.started_at;
    phase = StepPhase.running;
    type = inst.step.type;
  }

  -- the message of joined errors
  abbrev joined_message : Error → List Error → Message
  joined_message x [] = error_message x
  joined_message x (y ∷ ys) = error_message (join x y)

  call_step :
      ℕ
      → Instance
      → (Input → Action W StepResult)
      → WizardRunStepStatus
      → Assoc Text × List Error
      → W
      → Turn × W
  call_step now inst ensure s (resolved, x ∷ xs) w =
      (fail_step now s (colon (format "resolving params" end) (joined_message x xs)), w)
  call_step now inst ensure s (resolved, []) w =
      let s' = start_step now inst s in
      let (r, w') =
        ensure
          (record {
            run = run;
            key = inst.key;
            params = resolved;
            prior = s'.outputs;
            started_at = s'.started_at;
          })
          w in
      (after_ensure now s' r, w')

  -- `pctx`
  abbrev pub step_context : op.Env → Instance → Assoc Value → Assoc (Assoc Text) → Context
  step_context env inst values outputs = record {
    params = values;
    config = op.config_values env;
    steps = outputs;
    item = inst.item;
    item_fields = inst.item_fields;
  }

  by_type :
      op.Env
      → Instance
      → WizardRunStepStatus
      → Assoc Value
      → Assoc (Assoc Text)
      → Option (op.Env → Input → Action W StepResult)
      → W
      → Turn × W
  unfolding call_step
  by_type env inst s values outputs none w = (
    fail_step (op.now w) s
        (format "unknown step type %q" (text_arg (type_name inst.step.type) end)),
    w,
  )
  by_type env inst s values outputs (some ensure) w =
      call_step (op.now w) inst (ensure env) s
        (resolve_map codec inst.step.params (step_context env inst values outputs)) w

  unfoldable pub run_instance :
      op.Env → Instance → WizardRunStepStatus → Assoc Value → Assoc (Assoc Text) → W → Turn × W
  unfolding by_type after_ensure fail_step
  run_instance env inst s values outputs w =
      by_type env inst s values outputs (op.lookup_step inst.step.type) w
