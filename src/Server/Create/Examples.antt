-- ===== src/Server/Create/Examples.antt =====
-- The theorems on creating runs at a definition of two steps.
use fusion_wizard.Prelude.{
  ◌≡◌, refl, ap, Bool, true, false, ◌&&◌, some, List, [], ◌∷◌, Text, codes, text_eq, text_eq_iff,
  lookup, contains, if◌then◌else◌,
}
use fusion_wizard.Errors.{err_exists, plain, format, end}
use fusion_wizard.Action.{Result, ok, err, Action}
use fusion_wizard.Api.Run.{RunDesiredState, desired_applied, WizardRunSpec, WizardRun}
use fusion_wizard.Params.Examples.{no_codec}
use fusion_wizard.Params.Parameters.{resolve_parameters}
use fusion_wizard.Plan.{Instance, expand, step_instance}
use fusion_wizard.Steps.App.{AppEntrypoint}
use fusion_wizard.Steps.Validate.Examples.{built, watch_step, build_step}
use fusion_wizard.Controller.Reconcile.Examples.{doomed_run}
use fusion_wizard.Controller.Reconcile.Runnable.{Plans, IsRunnable}
use fusion_wizard.Server.Auth.{Caller}
use fusion_wizard.Server.Create.{CreateRunRequest, NewRun, Definition, create_run}
use fusion_wizard.Server.Create.Runnable.{create_run-IsRunnable}

no_entrypoints : Text → Result (List AppEntrypoint)
no_entrypoints t = err (plain (format "no list" end))

abbrev run_from : WizardRunSpec → WizardRun
run_from spec = record doomed_run { spec = spec; deleting = false }

-- The world is the last run created.
abbrev store_run : NewRun → Action WizardRun WizardRun
store_run n w = (ok (run_from n.spec), run_from n.spec)

abbrev is_applied : RunDesiredState → Bool
is_applied desired_applied = true
is_applied _ = false

-- Creates only runs that are to be applied, for one caller.
abbrev store_applied : NewRun → Action WizardRun WizardRun
store_applied n w =
    if is_applied n.spec.desired_state && text_eq n.spec.created_by (codes "ann")
    then (ok (run_from n.spec), run_from n.spec)
    else (err err_exists, w)

abbrev built_definition : WizardRun → Result Definition × WizardRun
built_definition w = (ok (record { name = codes "web"; generation = 1; spec = built }), w)

abbrev ann : Caller
ann = record { principal = codes "web/portal"; user_id = codes "ann"; user_email = [] }

abbrev web_request : CreateRunRequest
web_request = record { definition = codes "web"; name = codes "blue"; parameters = [] }

store_applied_lem :
    (n : NewRun) (w : WizardRun)
    → IsRunnable no_codec n.spec
    → n.spec.desired_state ≡ desired_applied
    → n.spec.created_by ≡ codes "ann"
    → store_run n w ≡ store_applied n w
store_applied_lem n w runnable applied by =
    rw (ap is_applied applied, (text_eq_iff n.spec.created_by (codes "ann")).1 by) refl

create_run-IsRunnable_example :
    create_run no_codec no_entrypoints
      (λ name. [])
      (λ name. built_definition)
      store_applied
      web_request
      ann
      doomed_run
    ≡ create_run no_codec no_entrypoints
        (λ name. [])
        (λ name. built_definition)
        store_run
        web_request
        ann
        doomed_run
create_run-IsRunnable_example =
    create_run-IsRunnable no_codec no_entrypoints (λ name. []) (λ name. built_definition) store_run
      store_applied web_request ann store_applied_lem doomed_run

abbrev built_run : WizardRun
built_run = run_from (record doomed_run.spec { definition_snapshot = some built })

abbrev plan_of_built : List Instance
plan_of_built = step_instance watch_step ∷ step_instance build_step ∷ []

built-Plans : Plans no_codec built_run.spec built [] plan_of_built
unfolding resolve_parameters expand lookup contains text_eq
built-Plans = (refl, refl, refl)
