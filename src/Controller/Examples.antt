-- ===== src/Controller/Examples.antt =====
-- The controller's theorems at a run of two steps.
use fusion_wizard.Prelude.{
  ℕ, suc, ◌≡◌, ◌≢◌, refl, sym, ◌∙◌, Bool, true, false, Option, none, some, List, [], ◌∷◌, map, Text,
  codes, All, text_eq, contains,
}
use Prim.Native.Nat.{◌^◌, min}
use fusion_wizard.Errors.{text, permanent, is_permanent, plain, format, end}
use fusion_wizard.Api.Run.{RunPhase, StepPhase, WizardRunStepStatus, WizardRunStatus}
use fusion_wizard.Api.Definition.{StepType, app}
use fusion_wizard.Action.{ok, err, Action}
use fusion_wizard.Params.Examples.{no_codec}
use fusion_wizard.Params.Render.{resolve_map}
use fusion_wizard.Plan.{Instance}
use fusion_wizard.Plan.Examples.{app_instance, file_instance}
use fusion_wizard.Steps.Step.{Input, StepResult}
use fusion_wizard.Controller.Status.{
  is_ready, known_step, find_step, reset_failed, sync_steps, update_step, set_run,
}
use fusion_wizard.Controller.Backoff.{retry_delay, max_retry_delay, retry_delay_lem}
use fusion_wizard.Controller.Instance.{Operator, run_instance}
use fusion_wizard.Controller.Instance.Turns.{Fits, is_succeeded, run_instance-Fits}
use fusion_wizard.Controller.Advance.{advance}
use fusion_wizard.Controller.Advance.Laws.{Succeeded}
use fusion_wizard.Controller.Advance.Order.{
  started, advance-ready, advance-order, advance-succeeded,
}

-- Every step of the type `app` fails for good, and every other one is done at once; the world
-- counts the calls.
ensure_by_type : StepType → Unit {0} → Input → Action ℕ StepResult
ensure_by_type app env input w = (err (permanent (plain (format "no" end))), suc w)
ensure_by_type _ env input w = (
  ok (record { done = true; requeue = 0; message = text []; outputs = none; resources = [] }),
  suc w,
)

abbrev counting : Operator ℕ
counting = record {
  Env = Unit {0};
  env = λ w. (ok tt, w);
  config_values = λ e. [];
  lookup_step = λ t. some (ensure_by_type t);
  rollback = λ e run w. (ok tt, w);
  now = λ w. w;
}

abbrev pub run_status : List WizardRunStepStatus → WizardRunStatus
run_status steps = record {
  phase = RunPhase.running;
  message = text [];
  observed_generation = 1;
  steps = steps;
  ready_condition = none;
  started_at = none;
  completed_at = none;
}

abbrev pub step_at : Instance → StepPhase → WizardRunStepStatus
step_at i phase = record {
  key = i.key;
  name = i.step.name;
  type = i.step.type;
  item = [];
  phase = phase;
  message = text [];
  failures = 0;
  outputs = [];
  resources = [];
  started_at = none;
  completed_at = none;
}

abbrev first : Instance
first = file_instance (codes "a.py")

abbrev second : Instance
second = file_instance (codes "b.py")

retry_delay_lem_example : retry_delay 10 ≡ min (2 ^ 10) max_retry_delay
retry_delay_lem_example = retry_delay_lem 9

run_instance-Fits_example :
    Fits first.key
      (run_instance counting no_codec
        (codes "blue")
        tt
        first
        (step_at first StepPhase.pending)
        []
        []
        3).0
run_instance-Fits_example =
    run_instance-Fits counting no_codec (codes "blue") tt first (step_at first StepPhase.pending) []
      [] 3

abbrev both : List Instance
both = first ∷ second ∷ []

abbrev advanced : List Instance → List WizardRunStepStatus → (Option ℕ × WizardRunStatus) × ℕ
advanced insts steps = advance counting no_codec (codes "blue") 1 [] true insts (run_status steps) 0

ready_lem : is_ready (advanced both []).0.1.phase ≡ true
unfolding advance ensure_by_type find_step text_eq reset_failed sync_steps run_instance resolve_map
    update_step set_run
ready_lem = refl

advance-ready_example : All (λ i. Succeeded (advanced both []).0.1.steps i.key) both
advance-ready_example =
    advance-ready counting no_codec (codes "blue") 1 [] true both (run_status []) 0 ready_lem

abbrev is_done : Option WizardRunStepStatus → Bool
is_done none = false
is_done (some s) = is_succeeded s.phase

done_lem :
    (ss : List WizardRunStepStatus) (k : Text) → Succeeded ss k → is_done (find_step ss k) ≡ true
done_lem ss k (s, f, p) = rw f p

failed_lem :
    is_done (find_step (advanced (first ∷ app_instance ∷ second ∷ []) []).0.1.steps (codes "app"))
    ≡ false
unfolding advance ensure_by_type find_step text_eq reset_failed sync_steps run_instance resolve_map
    update_step is_permanent set_run
failed_lem = refl

true-ne-false : true ≢ false
true-ne-false h = cc

advance-order_example :
    find_step (advanced (first ∷ app_instance ∷ second ∷ []) []).0.1.steps second.key
    ≡ find_step
        (started counting no_codec
          (codes "blue")
          1
          []
          true
          (first ∷ app_instance ∷ second ∷ [])
          0
          (run_status []))
        second.key
unfolding text_eq
advance-order_example =
    advance-order counting no_codec (codes "blue") 1 [] true (first ∷ []) app_instance (second ∷ [])
      (run_status []) 0 second.key (refl, (refl, tt))
      (λ h. true-ne-false (sym (done_lem _ _ h) ∙ failed_lem))

known_lem :
    known_step (step_at first StepPhase.succeeded ∷ []) first.key
    ≡ some (step_at first StepPhase.succeeded)
unfolding known_step text_eq
known_lem = refl

in_plan : contains (map (λ i. i.key) both) first.key ≡ true
unfolding contains text_eq
in_plan = refl

advance-succeeded_example :
    find_step (advanced both (step_at first StepPhase.succeeded ∷ [])).0.1.steps first.key
    ≡ some (step_at first StepPhase.succeeded)
advance-succeeded_example =
    advance-succeeded counting no_codec (codes "blue") 1 [] true both
      (run_status (step_at first StepPhase.succeeded ∷ [])) 0 first.key
      (step_at first StepPhase.succeeded) known_lem refl in_plan
