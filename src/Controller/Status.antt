-- ===== src/Controller/Status.antt =====
-- internal/controller/run_controller.go: the helpers on a run's status.
pub mod Laws
use fusion_wizard.Prelude.{
  ℕ, Bool, true, false, Option, none, some, List, [], ◌∷◌, map, Text, text_eq, if◌then◌else◌,
}
use fusion_wizard.Errors.{Message, text}
use fusion_wizard.Api.Run.{RunPhase, StepPhase, Condition, WizardRunStepStatus, WizardRunStatus}
use fusion_wizard.Plan.{Instance}

-- `case wizardv1.RunReady, …`: the phases in which a run has come to an end
abbrev pub is_terminal : RunPhase → Bool
is_terminal RunPhase.ready = true
is_terminal RunPhase.failed = true
is_terminal RunPhase.rolled_back = true
is_terminal RunPhase.rollback_failed = true
is_terminal _ = false

abbrev pub is_ready : RunPhase → Bool
is_ready RunPhase.ready = true
is_ready _ = false

abbrev pub or_now : ℕ → Option ℕ → Option ℕ
or_now now none = some now
or_now now (some t) = some t

-- `meta.SetStatusCondition` on the one condition; the time of its last transition is left out.
unfoldable pub set_run : ℕ → RunPhase → Message → ℕ → WizardRunStatus → WizardRunStatus
set_run now phase msg gen st = record st {
  phase = phase;
  message = msg;
  observed_generation = gen;
  completed_at = if is_terminal phase then or_now now st.completed_at else none;
  ready_condition = some (record {
    status = is_ready phase;
    reason = phase;
    message = msg;
    observed_generation = gen;
  });
}

-- the map `known`: of steps with one key the last one counts
unfoldable pub known_step : List WizardRunStepStatus → Text → Option WizardRunStepStatus
known_step [] key = none
known_step (s ∷ ss) key = elim (known_step ss key) [
  | some later ↦ some later
  | none ↦ if text_eq s.key key then some s else none
]

abbrev item_text : Option Text → Text
item_text none = []
item_text (some t) = t

unfoldable pub new_step : Instance → WizardRunStepStatus
new_step i = record {
  key = i.key;
  name = i.step.name;
  type = i.step.type;
  item = item_text i.item;
  phase = StepPhase.pending;
  message = text [];
  failures = 0;
  outputs = [];
  resources = [];
  started_at = none;
  completed_at = none;
}

keep_or_new : Option WizardRunStepStatus → Instance → WizardRunStepStatus
keep_or_new none i = new_step i
keep_or_new (some s) i = s

unfoldable pub sync_list : List WizardRunStepStatus → List Instance → List WizardRunStepStatus
unfolding known_step keep_or_new new_step
sync_list old [] = []
sync_list old (i ∷ is) = keep_or_new (known_step old i.key) i ∷ sync_list old is

unfoldable pub sync_steps : WizardRunStatus → List Instance → WizardRunStatus
unfolding sync_list
sync_steps st insts = record st { steps = sync_list st.steps insts }

unfoldable pub find_step : List WizardRunStepStatus → Text → Option WizardRunStepStatus
find_step [] key = none
find_step (s ∷ ss) key = if text_eq s.key key then some s else find_step ss key

-- writing through the pointer that `findStep` returns
unfoldable pub update_step :
    WizardRunStepStatus → List WizardRunStepStatus → List WizardRunStepStatus
update_step t [] = []
update_step t (s ∷ ss) = if text_eq s.key t.key then t ∷ ss else s ∷ update_step t ss

abbrev pub is_failed : StepPhase → Bool
is_failed StepPhase.failed = true
is_failed _ = false

unfoldable pub reset_step : WizardRunStepStatus → WizardRunStepStatus
reset_step s =
    if is_failed s.phase
    then record s {
      phase = StepPhase.pending;
      message = text [];
      failures = 0;
      started_at = none;
      completed_at = none;
    }
    else s

unfoldable pub reset_failed : WizardRunStatus → WizardRunStatus
unfolding reset_step
reset_failed st = record st { steps = map reset_step st.steps }
