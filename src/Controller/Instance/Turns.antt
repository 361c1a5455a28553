-- ===== src/Controller/Instance/Turns.antt =====
-- What the turn of a step instance does to its status.
use fusion_wizard.Prelude.{
  ℕ, ◌+◌, ◌<◌, ◌≡◌, refl, Bool, true, false, Option, none, some, List, [], ◌∷◌, Text, Assoc,
  if-rule, leb, arith,
}
use fusion_wizard.Errors.{Error, is_permanent}
use fusion_wizard.Api.Run.{StepPhase, WizardRunStepStatus}
use fusion_wizard.Action.{Result, ok, err, Action}
use fusion_wizard.Params.Values.{Value, Codec}
use fusion_wizard.Params.Render.{resolve_map}
use fusion_wizard.Plan.{Instance}
use fusion_wizard.Steps.Step.{Input, StepResult}
use fusion_wizard.Controller.Backoff.{retry_delay-pos}
use fusion_wizard.Controller.Instance.{
  Operator, outcome_done, outcome_wait, outcome_failed, Turn, fail_step, transient_failure,
  finished_call, after_ensure, call_step, by_type, run_instance, max_step_failures, step_context,
}

abbrev pub is_succeeded : StepPhase → Bool
is_succeeded StepPhase.succeeded = true
is_succeeded _ = false

-- The key stays, the failures stay below the maximum, and the outcome fits the phase.
abbrev pub Fits : Text → Turn → Type 0
Fits k (outcome_done, s) =
    (s.key ≡ k) × (s.failures < max_step_failures) × (is_succeeded s.phase ≡ true)
Fits k (outcome_wait t, s) =
    (s.key ≡ k) × (s.failures < max_step_failures) × (s.phase ≡ StepPhase.running) × (0 < t)
Fits k (outcome_failed, s) =
    (s.key ≡ k) × (s.failures < max_step_failures) × (s.phase ≡ StepPhase.failed)

finished_call-Fits :
    (now : ℕ) (s : WizardRunStepStatus) (res : StepResult)
    → s.phase ≡ StepPhase.running
    → Fits s.key (finished_call now s res)
unfolding finished_call
finished_call-Fits now s res p =
    if-rule (Fits s.key) res.done _ _ (λ e. (refl, omega arith, refl))
      (λ e. (refl, omega arith, p, ground arith))

transient_failure-Fits :
    (now : ℕ) (s : WizardRunStepStatus) (x : Error)
    → s.phase ≡ StepPhase.running
    → Fits s.key (transient_failure now s x)
unfolding transient_failure fail_step
transient_failure-Fits now s x p =
    if-rule (Fits s.key) (leb max_step_failures (s.failures + 1)) _ _
      (λ e. (refl, omega arith, refl)) (λ e. (refl, ground arith, p, retry_delay-pos s.failures))

after_ensure-Fits :
    (now : ℕ) (s : WizardRunStepStatus) (r : Result StepResult)
    → s.phase ≡ StepPhase.running
    → Fits s.key (after_ensure now s r)
unfolding after_ensure
after_ensure-Fits now s (ok res) p = finished_call-Fits now s res p
after_ensure-Fits now s (err x) p =
    if-rule (Fits s.key) (is_permanent x) _ _ (λ e. (refl, omega arith, refl))
      (λ e. transient_failure-Fits now s x p)

module _ {W : Type 0} (op : Operator W) (codec : Codec) (run : Text) where
  call_step-Fits :
      (now : ℕ) (inst : Instance) (ensure : Input → Action W StepResult) (s : WizardRunStepStatus)
      (p : Assoc Text × List Error) (w : W)
      → Fits s.key (call_step op codec run now inst ensure s p w).0
  unfolding call_step
  call_step-Fits now inst ensure s (resolved, x ∷ xs) w =
      unfold fail_step in (refl, omega arith, refl)
  call_step-Fits now inst ensure s (resolved, []) w = after_ensure-Fits now _ _ refl

  by_type-Fits :
      (env : op.Env) (inst : Instance) (s : WizardRunStepStatus) (values : Assoc Value)
      (outputs : Assoc (Assoc Text)) (o : Option (op.Env → Input → Action W StepResult)) (w : W)
      → Fits s.key (by_type op codec run env inst s values outputs o w).0
  unfolding by_type
  by_type-Fits env inst s values outputs none w = unfold fail_step in (refl, omega arith, refl)
  by_type-Fits env inst s values outputs (some ensure) w =
      call_step-Fits (op.now w) inst (ensure env) s
        (resolve_map codec inst.step.params (step_context op codec run env inst values outputs)) w

  -- A turn keeps the step's key and leaves fewer failures than the maximum; a step that is done
  -- has succeeded, one that waits is running and waits for a positive time, and one that failed
  -- is failed.
  pub run_instance-Fits :
      (env : op.Env) (inst : Instance) (s : WizardRunStepStatus) (values : Assoc Value)
      (outputs : Assoc (Assoc Text)) (w : W)
      → Fits s.key (run_instance op codec run env inst s values outputs w).0
  unfolding run_instance
  run_instance-Fits env inst s values outputs w =
      by_type-Fits env inst s values outputs (op.lookup_step inst.step.type) w
