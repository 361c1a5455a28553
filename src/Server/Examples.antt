-- ===== src/Server/Examples.antt =====
-- The theorems on the API's handlers at a server with one run.
use fusion_wizard.Prelude.{
  ℕ, ◌≡◌, ◌↔◌, ◌⊎◌, refl, sym, ap, true, false, ◌||◌, ◌&&◌, Option, some, [], ◌∷◌, Text, codes,
  contains, text_eq, is_empty, if◌then◌else◌,
}
use fusion_wizard.Errors.{err_exists, format, end}
use fusion_wizard.Action.{ok, err, ok-injective, Action}
use fusion_wizard.Api.Run.{RunPhase, WizardRun}
use fusion_wizard.Params.Ascii.{to_lower_byte}
use fusion_wizard.Controller.Reconcile.Examples.{doomed_run}
use fusion_wizard.Server.Reply.{passed}
use fusion_wizard.Server.Auth.{
  Principal, principal_of, Caller, Headers, AuthConfig, header_user_id, header_user_email,
  auth_middleware,
}
use fusion_wizard.Server.Auth.Laws.{IsVouched, IsStated, auth_middleware-IsVouched}
use fusion_wizard.Server.Auth.Accounts.{IsAccount, principal_of-IsAccount_iff}
use fusion_wizard.Server.Runs.{
  RunStore, with_desired, with_retry, is_failed_run, request_rollback, retry_run,
}
use fusion_wizard.Server.Runs.Laws.{KeepsDesired, request_rollback_idempotent, retry_run_guarded}
use fusion_wizard.Server.Bulk.{BulkRollbackRequest, BulkRollbackResponse, bulk_rollback}
use fusion_wizard.Server.Bulk.Targets.{is_reported, bulk_rollback_reports}
use fusion_wizard.Server.Bulk.Chosen.{IsChosen, bulk_rollback_chosen}

-- The world is the one run.
abbrev one_run : RunStore WizardRun
one_run = record {
  get_run = λ name w. (ok w, w);
  list_runs = λ w. (ok (w ∷ []), w);
  patch_run = λ base new w. (ok new, new);
  delete_run = λ run w. (ok tt, w);
}

abbrev two_names : BulkRollbackRequest
two_names = record { names = codes "blue" ∷ codes "red" ∷ codes "blue" ∷ []; definition = [] }

abbrev one_accepted : BulkRollbackResponse
one_accepted = record {
  accepted = codes "blue" ∷ [];
  failed = record { name = codes "red"; error = format "run not found" end } ∷ [];
}

answered_lem : (bulk_rollback one_run two_names doomed_run).0 ≡ passed (202, one_accepted)
unfolding bulk_rollback
answered_lem = refl

bulk_rollback_reports_example :
    is_reported one_accepted (codes "red") ≡ contains two_names.names (codes "red")
bulk_rollback_reports_example =
    bulk_rollback_reports one_run two_names doomed_run 202 one_accepted refl answered_lem
      (codes "red")

-- Patches only the runs that the request chooses.
abbrev chosen_patch : WizardRun → WizardRun → Action WizardRun WizardRun
chosen_patch base new w =
    if (is_empty two_names.names || contains two_names.names base.name)
      && (is_empty two_names.definition || text_eq base.spec.definition_ref two_names.definition)
    then (ok new, new)
    else (err err_exists, w)

chosen_patch_lem :
    (run : WizardRun) (w : WizardRun)
    → IsChosen two_names run
    → one_run.patch_run run (with_desired run) w ≡ chosen_patch run (with_desired run) w
chosen_patch_lem run w (h, k) = rw h refl

bulk_rollback_chosen_example :
    bulk_rollback (record one_run { patch_run = chosen_patch }) two_names doomed_run
    ≡ bulk_rollback one_run two_names doomed_run
bulk_rollback_chosen_example =
    bulk_rollback_chosen one_run chosen_patch two_names chosen_patch_lem doomed_run

one_run_keeps : KeepsDesired one_run
one_run_keeps base new run w h = sym (ap (λ r. r.spec.desired_state) (ok-injective h))

requested_lem : (request_rollback one_run doomed_run doomed_run).0 ≡ ok (with_desired doomed_run)
unfolding request_rollback
requested_lem = refl

request_rollback_idempotent_example :
    request_rollback one_run (with_desired doomed_run) doomed_run
    ≡ (ok (with_desired doomed_run), doomed_run)
request_rollback_idempotent_example =
    request_rollback_idempotent one_run doomed_run (with_desired doomed_run) doomed_run doomed_run
      one_run_keeps requested_lem

abbrev failed_run : WizardRun
failed_run = record doomed_run { status = record doomed_run.status { phase = RunPhase.failed } }

-- Patches only failed runs.
abbrev failed_patch : WizardRun → WizardRun → Action WizardRun WizardRun
failed_patch base new w =
    if is_failed_run base.status.phase then (ok new, new) else (err err_exists, w)

failed_patch_lem :
    (run : WizardRun) (w : WizardRun)
    → is_failed_run run.status.phase ≡ true
    → one_run.patch_run run (with_retry run) w ≡ failed_patch run (with_retry run) w
failed_patch_lem run w h = rw h refl

retry_run_guarded_example :
    retry_run (record one_run { patch_run = failed_patch }) (codes "blue") failed_run
    ≡ retry_run one_run (codes "blue") failed_run
retry_run_guarded_example =
    retry_run_guarded one_run failed_patch failed_patch_lem (codes "blue") failed_run

abbrev portal : Principal
portal = record { namespace = codes "web"; name = codes "portal" }

abbrev known_token : Text → Action ℕ (Option Principal)
known_token token w = (ok (some portal), w)

abbrev only_portal : AuthConfig
only_portal = record { allow_unauthenticated = false; allowed = codes "web/portal" ∷ [] }

abbrev portal_headers : Headers
portal_headers name =
    if text_eq name (codes "Authorization")
    then codes "bearer  abc "
    else if text_eq name header_user_id
    then codes " ann "
    else []

abbrev portal_caller : Caller
portal_caller = record { principal = codes "web/portal"; user_id = codes "ann"; user_email = [] }

vouched_lem : (auth_middleware known_token only_portal portal_headers 0).0 ≡ passed portal_caller
unfolding auth_middleware to_lower_byte
vouched_lem = refl

auth_middleware-IsVouched_example :
    (((only_portal.allow_unauthenticated ≡ true) × (portal_caller.principal ≡ codes "anonymous"))
      ⊎ IsVouched known_token only_portal portal_headers 0 portal_caller.principal)
    × IsStated portal_headers header_user_id portal_caller.user_id
    × IsStated portal_headers header_user_email portal_caller.user_email
auth_middleware-IsVouched_example =
    auth_middleware-IsVouched known_token only_portal portal_headers 0 portal_caller vouched_lem

principal_of-IsAccount_iff_example :
    (principal_of (codes "system:serviceaccount:web:portal") ≡ some portal)
    ↔ IsAccount (codes "system:serviceaccount:web:portal") portal
principal_of-IsAccount_iff_example =
    principal_of-IsAccount_iff (codes "system:serviceaccount:web:portal") portal
