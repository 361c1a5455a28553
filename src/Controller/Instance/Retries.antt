-- ===== src/Controller/Instance/Retries.antt =====
-- How long a step goes on whose `Ensure` keeps failing.
use fusion_wizard.Prelude.{
  ℕ, zero, suc, ◌+◌, ◌<◌, ◌≡◌, refl, sym, ap, subst, Bool, true, false, Option, none, some, List,
  [], ◌∷◌, Text, Assoc, leb, if-rule, Bool-cases, inl, inr, arith,
}
use fusion_wizard.Errors.{Error, is_permanent}
use fusion_wizard.Api.Run.{WizardRunStepStatus}
use fusion_wizard.Action.{err, Action}
use fusion_wizard.Params.Values.{Value, Codec}
use fusion_wizard.Params.Render.{resolve_map}
use fusion_wizard.Plan.{Instance}
use fusion_wizard.Steps.Step.{Input, StepResult}
use fusion_wizard.Controller.Backoff.{retry_delay}
use fusion_wizard.Controller.Instance.{
  Operator, outcome_wait, outcome_failed, Turn, fail_step, transient_failure, after_ensure,
  call_step, start_step, by_type, run_instance, max_step_failures, step_context,
}

-- The outcome after one more failure, and the failures counted then.
abbrev pub Counts : ℕ → Turn → Type 0
Counts n (o, s) =
    (suc n < max_step_failures → (o ≡ outcome_wait (retry_delay (suc n))) × (s.failures ≡ suc n))
    × (suc n ≡ max_step_failures → o ≡ outcome_failed)

transient_failure-Counts :
    (now : ℕ) (s : WizardRunStepStatus) (x : Error) → Counts s.failures (transient_failure now s x)
unfolding transient_failure fail_step
transient_failure-Counts now s x = elim (Bool-cases (leb max_step_failures (s.failures + 1))) [
  | inl e ↦ rw e (λ h. absurd (ground arith), λ h. refl)
  | inr e ↦
      let one : s.failures + 1 ≡ suc s.failures = omega arith in
      rw e (λ h. (ap (λ n. outcome_wait (retry_delay n)) one, one), λ h. absurd (ground arith))
]

none-ne-some : {A : Type 0} {a : A} → none ≡ some a → ⊥
none-ne-some h = cc

cons-ne-nil : {x : Error} {xs : List Error} → x ∷ xs ≡ [] → ⊥
cons-ne-nil h = cc

ne-both : {b : Bool} → b ≡ true → b ≡ false → ⊥
ne-both p q = cc

after_ensure-Counts :
    (now : ℕ) (s : WizardRunStepStatus) (x : Error)
    → is_permanent x ≡ false
    → Counts s.failures (after_ensure now s (err x))
unfolding after_ensure
after_ensure-Counts now s x p =
    if-rule (Counts s.failures) (is_permanent x) _ _ (λ e. absurd (ne-both e p))
      (λ e. transient_failure-Counts now s x)

module _ {W : Type 0} (op : Operator W) (codec : Codec) (run : Text) (env : op.Env)
    (inst : Instance) (values : Assoc Value) (outputs : Assoc (Assoc Text))
    (ensure : op.Env → Input → Action W StepResult) where
  -- Every call fails, in a way that may pass.
  abbrev pub IsFlaky : Type 0
  IsFlaky =
      (input : Input) (w : W)
      → (x : Error) × ((ensure env input w).0 ≡ err x) × (is_permanent x ≡ false)

  -- The turns of the instance, one after the other.
  abbrev pub turns : ℕ → WizardRunStepStatus → W → Turn × W
  turns zero s w = run_instance op codec run env inst s values outputs w
  turns (suc n) s w =
      let (turn, w') = turns n s w in run_instance op codec run env inst turn.1 values outputs w'

  module _ (known : op.lookup_step inst.step.type ≡ some ensure) (flaky : IsFlaky)
      (resolves : (resolve_map codec inst.step.params
          (step_context op codec run env inst values outputs)).1
        ≡ []) where
    call_step-Counts :
        (now : ℕ) (s : WizardRunStepStatus) (p : Assoc Text × List Error) (w : W)
        → p.1 ≡ []
        → Counts s.failures (call_step op codec run now inst (ensure env) s p w).0
    unfolding call_step
    call_step-Counts now s (resolved, x ∷ xs) w h = absurd (cons-ne-nil h)
    call_step-Counts now s (resolved, []) w h =
        let begun = start_step op codec run now inst s in
        let input : Input = record {
          run = run;
          key = inst.key;
          params = resolved;
          prior = begun.outputs;
          started_at = begun.started_at;
        } in
        let (x, e, p) = flaky input w in
        subst (λ r. Counts s.failures (after_ensure now begun r)) (sym e)
          (after_ensure-Counts now begun x p)

    by_type-Counts :
        (s : WizardRunStepStatus) (o : Option (op.Env → Input → Action W StepResult)) (w : W)
        → o ≡ some ensure
        → Counts s.failures (by_type op codec run env inst s values outputs o w).0
    unfolding by_type
    by_type-Counts s none w h = absurd (none-ne-some h)
    by_type-Counts s (some f) w h =
        subst (λ o. Counts s.failures (by_type op codec run env inst s values outputs o w).0)
          (sym h)
          (call_step-Counts (op.now w) s
            (resolve_map codec inst.step.params (step_context op codec run env inst values outputs))
            w resolves)

    run_instance-Counts :
        (s : WizardRunStepStatus) (w : W)
        → Counts s.failures (run_instance op codec run env inst s values outputs w).0
    unfolding run_instance
    run_instance-Counts s w = by_type-Counts s (op.lookup_step inst.step.type) w known

    -- the outcome and the count of the turn after `n` others
    turns-Counts :
        (n : ℕ) (s : WizardRunStepStatus) (w : W)
        → s.failures ≡ 0
        → n < max_step_failures
        → Counts n (turns n s w).0
    turns-Counts zero s w h k = subst (λ f. Counts f (turns zero s w).0) h (run_instance-Counts s w)
    turns-Counts (suc n) s w h k =
        let before = (turns-Counts n s w h (omega arith)).0 k in
        subst (λ f. Counts f (turns (suc n) s w).0) before.1
          (run_instance-Counts (turns n s w).0.1 (turns n s w).1)

    -- A step whose `Ensure` fails at every call, in a way that may pass, is not retried for ever:
    -- from no failures on, each of the first nine turns waits for its retry delay, and the tenth
    -- fails the step. The step's type is in the catalogue, and its params resolve.
    pub turns_give_up :
        (s : WizardRunStepStatus) (w : W)
        → s.failures ≡ 0
        → ((n : ℕ)
            → suc n < max_step_failures
            → (turns n s w).0.0 ≡ outcome_wait (retry_delay (suc n)))
          × ((turns 9 s w).0.0 ≡ outcome_failed)
    turns_give_up s w h = (
      λ n k. ((turns-Counts n s w h (omega arith)).0 k).0,
      (turns-Counts 9 s w h (omega arith)).1 refl,
    )
