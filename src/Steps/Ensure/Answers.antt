-- ===== src/Steps/Ensure/Answers.antt =====
-- What `ensureStep` answers.
use fusion_wizard.Prelude.{
  ◌≡◌, refl, sym, ◌⊎◌, inl, inr, Bool, true, false, some, [], ◌∷◌, Text, Assoc, if◌then◌else◌,
}
use fusion_wizard.Errors.{Error, Message, text, is_terminating}
use fusion_wizard.Api.Run.{ManagedResourceRef}
use fusion_wizard.Action.{Result, ok, err, ok-injective, raise, pure}
use fusion_wizard.Cluster.{Cluster}
use fusion_wizard.Ledger.{Key}
use fusion_wizard.Steps.Step.{Input, StepResult, retry_terminating}
use fusion_wizard.Steps.Ensure.{Managed, ensure, ensure_step, step_result}

abbrev pub ensured : Assoc Text → ManagedResourceRef → StepResult
ensured outputs ref = record {
  done = true;
  requeue = 0;
  message = text [];
  outputs = some outputs;
  resources = ref ∷ [];
}

abbrev pub held_back : Input → Message → StepResult
held_back input m = record {
  done = false;
  requeue = retry_terminating;
  message = m;
  outputs = some input.prior;
  resources = [];
}

module _ {W : Type 0} where
  -- An answer under an `if` that fails otherwise.
  pub or_raise :
      {A : Type 0} (b : Bool) (a : A) (x : Error) (w : W) {res : A}
      → ((if b then pure a else raise x) w).0 ≡ ok res
      → (b ≡ true) × (a ≡ res)
  or_raise true a x w h = (refl, ok-injective h)
  or_raise false a x w h = cc

  module _ (cluster : Cluster W) (object_name : Key → Text) (input : Input) (m : Managed W) where
    step_result-cases :
        (outputs : Assoc Text) (r : Result ManagedResourceRef) (w : W) {res : StepResult}
        → (step_result cluster object_name input m outputs r w).0 ≡ ok res
        → ((ref : ManagedResourceRef) × (r ≡ ok ref) × (res ≡ ensured outputs ref))
          ⊎ ((t : Message) × (res ≡ held_back input t))
    unfolding step_result
    step_result-cases outputs (ok ref) w h = inl (ref, refl, sym (ok-injective h))
    step_result-cases outputs (err x) w h = inr (_, sym (or_raise (is_terminating x) _ x w h).1)

    -- A step's answer is that of its resource, or that a previous owner still deletes it.
    pub ensure_step-cases :
        (outputs : Assoc Text) (w : W) {res : StepResult}
        → (ensure_step cluster object_name input m outputs w).0 ≡ ok res
        → ((ref : ManagedResourceRef) × ((ensure cluster object_name input m w).0 ≡ ok ref)
            × (res ≡ ensured outputs ref))
          ⊎ ((t : Message) × (res ≡ held_back input t))
    unfolding ensure_step
    ensure_step-cases outputs w h =
        step_result-cases outputs (ensure cluster object_name input m w).0
          (ensure cluster object_name input m w).1 h
