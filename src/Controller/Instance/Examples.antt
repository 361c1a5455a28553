-- ===== src/Controller/Instance/Examples.antt =====
-- The theorem on retries at a step that always fails.
use fusion_wizard.Prelude.{ℕ, suc, ◌<◌, ◌≡◌, refl, false, none, some, [], codes}
use fusion_wizard.Errors.{text, is_permanent, plain, format, end}
use fusion_wizard.Api.Run.{StepPhase, WizardRunStepStatus}
use fusion_wizard.Action.{ok, err, Action}
use fusion_wizard.Params.Examples.{no_codec}
use fusion_wizard.Params.Render.{resolve_map}
use fusion_wizard.Plan.Examples.{app_instance}
use fusion_wizard.Steps.Step.{Input, StepResult}
use fusion_wizard.Controller.Backoff.{retry_delay}
use fusion_wizard.Controller.Instance.{Operator, outcome_wait, outcome_failed, max_step_failures}
use fusion_wizard.Controller.Instance.Retries.{turns, turns_give_up}

abbrev always_fails : Unit {0} → Input → Action ℕ StepResult
always_fails env input w = (err (plain (format "no connection" end)), suc w)

abbrev flaky : Operator ℕ
flaky = record {
  Env = Unit {0};
  env = λ w. (ok tt, w);
  config_values = λ e. [];
  lookup_step = λ t. some always_fails;
  rollback = λ e run w. (ok tt, w);
  now = λ w. w;
}

abbrev fresh_step : WizardRunStepStatus
fresh_step = record {
  key = codes "app";
  name = codes "app";
  type = app_instance.step.type;
  item = [];
  phase = StepPhase.pending;
  message = text [];
  failures = 0;
  outputs = [];
  resources = [];
  started_at = none;
  completed_at = none;
}

not_permanent : is_permanent (plain (format "no connection" end)) ≡ false
unfolding is_permanent
not_permanent = refl

no_params :
    (resolve_map no_codec []
      (record { params = []; config = []; steps = []; item = none; item_fields = none })).1
    ≡ []
unfolding resolve_map
no_params = refl

turns_give_up_example :
    ((n : ℕ)
      → suc n < max_step_failures
      → (turns flaky no_codec (codes "blue") tt app_instance [] [] always_fails n fresh_step 0).0.0
        ≡ outcome_wait (retry_delay (suc n)))
    × ((turns flaky no_codec (codes "blue") tt app_instance [] [] always_fails 9 fresh_step 0).0.0
        ≡ outcome_failed)
turns_give_up_example =
    turns_give_up flaky no_codec (codes "blue") tt app_instance [] [] always_fails refl
      (λ input w. (plain (format "no connection" end), refl, not_permanent)) no_params fresh_step 0
      refl
