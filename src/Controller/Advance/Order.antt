-- ===== src/Controller/Advance/Order.antt =====
-- What one call of `advance` promises: the steps run in their order, the run is ready only when all
-- of them have succeeded, and a step that has succeeded is left alone.
use mathlib.Core.Option
use fusion_wizard.Prelude.{
  ℕ, ◌≡◌, ◌≢◌, refl, ap, Bool, true, false, Option, none, some, List, [], ◌∷◌, ◌++◌, map, Text,
  text_eq, text_eq_refl, contains, All, Assoc, arith,
}
use fusion_wizard.Api.Run.{StepPhase, WizardRunStepStatus, WizardRunStatus}
use fusion_wizard.Params.Values.{Value, Codec}
use fusion_wizard.Plan.{Instance}
use fusion_wizard.Controller.Status.{
  is_ready, known_step, sync_steps, find_step, is_failed, reset_step,
}
use fusion_wizard.Controller.Status.Laws.{
  sync_list-present, find_step-sync_list, find_step-reset_failed, reset_step-same,
}
use fusion_wizard.Controller.Instance.{Operator}
use fusion_wizard.Controller.Instance.Turns.{is_succeeded}
use fusion_wizard.Controller.Advance.{prepare, advance}
use fusion_wizard.Controller.Advance.Laws.{
  Rounds-succeeded, Rounds-ready, Rounds-order, Succeeded, Went, advance_loop-Went,
}

map-ne-none :
    (f : WizardRunStepStatus → WizardRunStepStatus) (o : Option WizardRunStepStatus)
    → o ≢ none
    → Option.map f o ≢ none
map-ne-none f none h = h
map-ne-none f (some s) h = λ e. cc

not-failed : (p : StepPhase) → is_succeeded p ≡ true → is_failed p ≡ false
not-failed StepPhase.succeeded h = refl
not-failed StepPhase.unset h = cc
not-failed StepPhase.pending h = cc
not-failed StepPhase.running h = cc
not-failed StepPhase.failed h = cc
not-failed StepPhase.rolled_back h = cc
not-failed StepPhase.rollback_failed h = cc

module _ {W : Type 0} (op : Operator W) (codec : Codec) (run : Text) (gen : ℕ)
    (values : Assoc Value) where
  -- the run's steps when its loop starts
  abbrev pub started : Bool → List Instance → ℕ → WizardRunStatus → List WizardRunStepStatus
  started retry insts now st = (prepare op codec run gen values retry insts now st).steps

  prepare-present :
      (retry : Bool) (insts : List Instance) (now : ℕ) (st : WizardRunStatus) (k : Text)
      → contains (map (λ i. i.key) insts) k ≡ true
      → find_step (started retry insts now st) k ≢ none
  unfolding prepare sync_steps
  prepare-present false insts now st k h = sync_list-present st.steps insts k h
  prepare-present true insts now st k h =
      rw (find_step-reset_failed (sync_steps (record st { observed_generation = gen }) insts) k)
        (map-ne-none reset_step _ (sync_list-present st.steps insts k h))

  present-All :
      (ss : List WizardRunStepStatus) (insts : List Instance)
      → ((k : Text) → contains (map (λ i. i.key) insts) k ≡ true → find_step ss k ≢ none)
      → All (λ i. find_step ss i.key ≢ none) insts
  unfolding contains
  present-All ss [] h = tt
  present-All ss (i ∷ is) h =
      (h i.key (rw (text_eq_refl i.key) refl), present-All ss is (λ k m. h k (rw m (ground arith))))

  advance-Rounds :
      (retry : Bool) (insts : List Instance) (st : WizardRunStatus) (w : W)
      → Went insts
          (started retry insts (op.now w) st)
          (advance op codec run gen values retry insts st w)
  unfolding advance
  advance-Rounds retry insts st w =
      advance_loop-Went op codec run gen values insts none _ [] w
        (present-All _ insts (prepare-present retry insts (op.now w) st))

  -- If a run is ready after a call of `advance`, then the step of every instance of its plan has
  -- succeeded.
  pub advance-ready :
      (retry : Bool) (insts : List Instance) (st : WizardRunStatus) (w : W)
      → is_ready (advance op codec run gen values retry insts st w).0.1.phase ≡ true
      → All
          (λ i. Succeeded (advance op codec run gen values retry insts st w).0.1.steps i.key)
          insts
  advance-ready retry insts st w = Rounds-ready (advance-Rounds retry insts st w)

  -- The steps run in order: if after a call of `advance` the step of an instance `i` has not
  -- succeeded, then any step whose key is neither that of `i` nor of an instance before it is as
  -- the call found it, once the steps were brought up to date with the plan.
  pub advance-order :
      (retry : Bool) (front : List Instance) (i : Instance) (back : List Instance)
      (st : WizardRunStatus) (w : W) (j : Text)
      → All (λ x. text_eq x.key j ≡ false) (front ++ i ∷ [])
      → ¬ Succeeded (advance op codec run gen values retry (front ++ i ∷ back) st w).0.1.steps i.key
      → find_step (advance op codec run gen values retry (front ++ i ∷ back) st w).0.1.steps j
        ≡ find_step (started retry (front ++ i ∷ back) (op.now w) st) j
  advance-order retry front i back st w j =
      Rounds-order front i back j (advance-Rounds retry (front ++ i ∷ back) st w)

  prepare-succeeded :
      (retry : Bool) (insts : List Instance) (now : ℕ) (st : WizardRunStatus) (k : Text)
      (s : WizardRunStepStatus)
      → known_step st.steps k ≡ some s
      → is_succeeded s.phase ≡ true
      → contains (map (λ i. i.key) insts) k ≡ true
      → find_step (started retry insts now st) k ≡ some s
  unfolding prepare sync_steps
  prepare-succeeded false insts now st k s h p m = find_step-sync_list st.steps insts k s h m
  prepare-succeeded true insts now st k s h p m =
      rw
        (
          find_step-reset_failed (sync_steps (record st { observed_generation = gen }) insts) k,
          find_step-sync_list st.steps insts k s h m,
        )
        (ap some (reset_step-same s (not-failed s.phase p)))

  -- A step that has succeeded and is still in the plan stays exactly as it was recorded, also when
  -- the failed steps are retried.
  pub advance-succeeded :
      (retry : Bool) (insts : List Instance) (st : WizardRunStatus) (w : W) (k : Text)
      (s : WizardRunStepStatus)
      → known_step st.steps k ≡ some s
      → is_succeeded s.phase ≡ true
      → contains (map (λ i. i.key) insts) k ≡ true
      → find_step (advance op codec run gen values retry insts st w).0.1.steps k ≡ some s
  advance-succeeded retry insts st w k s h p m =
      Rounds-succeeded k s (advance-Rounds retry insts st w)
        (prepare-succeeded retry insts (op.now w) st k s h p m) p
