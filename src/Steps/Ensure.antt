-- ===== src/Steps/Ensure.antt =====
-- internal/steps/ensure.go: making one upstream resource exist, with a reference in the ledger.
--
-- A `continue` of the loop is the action `again`, the rounds that are left.
pub mod WriteAhead
pub mod Answers
use fusion_wizard.Prelude.{
  ℕ, zero, suc, Bool, true, false, not, ◌&&◌, ◌==◌, Option, none, some, List, [], ◌∷◌, Text, Assoc,
  text_eq, is_empty, String, if◌then◌else◌,
}
use fusion_wizard.Errors.{
  Message, text, format, end, text_arg, number_arg, message_arg, Args, Error, err_terminating,
  permanent, plain, is_terminating, is_err_not_found, is_err_exists, is_status,
}
use fusion_wizard.Api.Resource.{ResourceReference, WizardResourceSpec, WizardResource}
use fusion_wizard.Api.Run.{Disposition, created, adopted, found_unowned, ManagedResourceRef}
use fusion_wizard.Action.{Result, ok, err, Action, pure, raise, attempt, ◌>>=◌, ◌>>◌}
use fusion_wizard.Cluster.{Cluster}
use fusion_wizard.Ledger.{Key, get, register, add_ref, ref_eq}
use fusion_wizard.Steps.Step.{Input, StepResult, retry_terminating}

abbrev pub max_ensure_attempts : ℕ
max_ensure_attempts = 5

pub record Existing : Type 0 where
  pub external_id : Text
  pub matches : Bool
  pub detail : Message

-- The recipe; `Update` may be nil.
pub record Managed (W : Type 0) : Type 0 where
  pub key : Key
  pub hash : Text
  pub claim : Bool
  pub find : Action W (Option Existing)
  pub create : Action W Text
  pub update : Option (Existing → Action W (Unit {0}))

abbrev only_ref : List ResourceReference → ResourceReference → Bool
only_ref (r ∷ []) ref = ref_eq r ref
only_ref _ ref = false

unfoldable pub disposition_of : WizardResource → ResourceReference → Disposition
disposition_of entry ref =
    if not entry.spec.managed
    then found_unowned
    else if only_ref entry.spec.refs ref
    then created
    else adopted

-- the entry's hash and the wanted one are both set and differ
abbrev pub hash_conflict : Option WizardResource → Text → Bool
hash_conflict none hash = false
hash_conflict (some e) hash =
    not (is_empty e.spec.spec_hash) && not (is_empty hash) && not (text_eq e.spec.spec_hash hash)

abbrev pub is_doomed : Option WizardResource → Bool
is_doomed none = false
is_doomed (some e) = e.spec.terminating

abbrev pub own_ref : Input → ResourceReference
own_ref input = record { run = input.run; step = input.key }

abbrev pub result_ref : Key → Text → Disposition → ManagedResourceRef
result_ref k id d = record {
  service = k.service;
  kind = k.kind;
  name = k.name;
  external_id = id;
  disposition = d;
}

-- `fmt.Sprintf("%s %s %q", …)` in front of a format's other arguments
abbrev about_key : String → Key → Args → Error
about_key f k rest = plain (format f (text_arg k.service (text_arg k.kind (text_arg k.name rest))))

module _ {W : Type 0} (cluster : Cluster W) (object_name : Key → Text) (input : Input)
    (m : Managed W) where
  run_update : Option (Existing → Action W (Unit {0})) → Existing → Action W (Unit {0})
  run_update none ex = pure tt
  run_update (some f) ex = f ex

  -- the end of the branch in which the resource was found
  settle_found : Existing → Disposition → Action W ManagedResourceRef
  unfolding run_update
  settle_found ex d = do run_update m.update ex; pure (result_ref m.key ex.external_id d)

  registered_found :
      Action W ManagedResourceRef → Existing → Result WizardResource → Action W ManagedResourceRef
  registered_found again ex (err x) = if is_err_exists x then again else raise x
  registered_found again ex (ok e) = settle_found ex (if m.claim then created else found_unowned)

  added_found :
      Action W ManagedResourceRef → Existing → Result WizardResource → Action W ManagedResourceRef
  added_found again ex (err x) = if is_err_not_found x then again else raise x
  added_found again ex (ok e) = settle_found ex (disposition_of e (own_ref input))

  own_found :
      Action W ManagedResourceRef → Existing → Option WizardResource → Action W ManagedResourceRef
  unfolding registered_found added_found settle_found
  own_found again ex none = do
    r ← attempt (
        register cluster object_name m.key (own_ref input)
          (record { managed = m.claim; spec_hash = m.hash; external_id = ex.external_id }))
    registered_found again ex r
  own_found again ex (some e) = do
    r ← attempt (
        add_ref cluster object_name m.key (own_ref input)
          (record { manage = false; external_id = [] }))
    added_found again ex r

  pub found :
      Action W ManagedResourceRef → Existing → Option WizardResource → Action W ManagedResourceRef
  unfolding own_found
  found again ex entry =
      if not ex.matches
      then raise (
          permanent (
            about_key "%s %s %q already exists with different settings (%s)" m.key
              (message_arg ex.detail end)))
      else if hash_conflict entry m.hash
      then raise (
          permanent (
            about_key "%s %s %q is in use by another wizard run with different settings" m.key end))
      else own_found again ex entry

  -- the ID, if the service gave one, is recorded
  record_id : WizardResource → Text → Action W ManagedResourceRef
  record_id e id =
      if is_empty id then pure (result_ref m.key [] (disposition_of e (own_ref input))) else do
        e' ←
            add_ref cluster object_name m.key (own_ref input)
              (record { manage = false; external_id = id })
        pure (result_ref m.key id (disposition_of e' (own_ref input)))

  created_new :
      Action W ManagedResourceRef → WizardResource → Result Text → Action W ManagedResourceRef
  unfolding record_id
  created_new again e (err x) = if is_status 409 x then again else raise x
  created_new again e (ok id) = record_id e id

  -- the reference is recorded, and only then is the resource created
  pub create_recorded :
      Action W ManagedResourceRef
      → (Error → Bool)
      → Result WizardResource
      → Action W ManagedResourceRef
  unfolding created_new
  create_recorded again lost (err x) = if lost x then again else raise x
  create_recorded again lost (ok e) = do id ← attempt m.create; created_new again e id

  pub missing : Action W ManagedResourceRef → Option WizardResource → Action W ManagedResourceRef
  unfolding create_recorded
  missing again none = do
    r ← attempt (
        register cluster object_name m.key (own_ref input)
          (record { managed = true; spec_hash = m.hash; external_id = [] }))
    create_recorded again is_err_exists r
  missing again (some e) = do
    r ← attempt (
        add_ref cluster object_name m.key (own_ref input)
          (record { manage = true; external_id = [] }))
    create_recorded again is_err_not_found r

  pub by_presence :
      Action W ManagedResourceRef
      → Option WizardResource
      → Option Existing
      → Action W ManagedResourceRef
  unfolding found missing
  by_presence again entry (some ex) = found again ex entry
  by_presence again entry none = missing again entry

  pub round : Action W ManagedResourceRef → Option WizardResource → Action W ManagedResourceRef
  unfolding by_presence
  round again entry =
      if is_doomed entry then raise err_terminating else do ex ← m.find; by_presence again entry ex

  pub ensure_loop : ℕ → Action W ManagedResourceRef
  unfolding round
  ensure_loop zero = raise (
      plain (
        format "could not settle ownership of %s %s %q after %d attempts: concurrent changes" (
          text_arg m.key.service
            (text_arg m.key.kind (text_arg m.key.name (number_arg max_ensure_attempts end))))))
  ensure_loop (suc n) = do entry ← get cluster object_name m.key; round (ensure_loop n) entry

  unfoldable pub ensure : Action W ManagedResourceRef
  unfolding ensure_loop
  ensure = ensure_loop max_ensure_attempts

  step_result : Assoc Text → Result ManagedResourceRef → Action W StepResult
  step_result outputs (ok ref) = pure (record {
    done = true;
    requeue = 0;
    message = text [];
    outputs = some outputs;
    resources = ref ∷ [];
  })
  step_result outputs (err x) =
      if is_terminating x
      then pure (record {
        done = false;
        requeue = retry_terminating;
        message =
            format "waiting for a previous owner to finish deleting %s %q"
              (text_arg m.key.kind (text_arg m.key.name end));
        outputs = some input.prior;
        resources = [];
      })
      else raise x

  unfoldable pub ensure_step : Assoc Text → Action W StepResult
  unfolding ensure step_result
  ensure_step outputs = do r ← attempt ensure; step_result outputs r
