-- ===== src/Controller/Status/Laws.antt =====
-- What bringing the steps up to date with the plan, and a retry, do to the steps.
use mathlib.Core.Option
use fusion_wizard.Prelude.{
  ◌≡◌, ◌≢◌, refl, ◌∙◌, ap, inl, inr, true, false, Option, none, some, List, [], ◌∷◌, map, Text,
  text_eq, text_eq_iff, Bool-cases, arith, contains,
}
use fusion_wizard.Api.Run.{WizardRunStepStatus, WizardRunStatus}
use fusion_wizard.Plan.{Instance}
use fusion_wizard.Controller.Status.{
  known_step, new_step, keep_or_new, sync_list, find_step, is_failed, reset_step, reset_failed,
}

known_step-key :
    (old : List WizardRunStepStatus) (k : Text) (s : WizardRunStepStatus)
    → known_step old k ≡ some s
    → s.key ≡ k
unfolding known_step
known_step-key [] k s h = cc
known_step-key (x ∷ xs) k s h = ground (arith, text_eq_iff x.key k, known_step-key xs k s)

keep_or_new-key :
    (old : List WizardRunStepStatus) (i : Instance) (o : Option WizardRunStepStatus)
    → known_step old i.key ≡ o
    → (keep_or_new o i).key ≡ i.key
unfolding keep_or_new new_step
keep_or_new-key old i none h = refl
keep_or_new-key old i (some s) h = known_step-key old i.key s h

-- The steps of the plan, in its order.
sync_list-keys :
    (old : List WizardRunStepStatus) (insts : List Instance)
    → map (λ s. s.key) (sync_list old insts) ≡ map (λ i. i.key) insts
unfolding sync_list
sync_list-keys old [] = refl
sync_list-keys old (i ∷ is) =
    rw (keep_or_new-key old i (known_step old i.key) refl, sync_list-keys old is) refl

find_step-present :
    (ss : List WizardRunStepStatus) (k : Text)
    → contains (map (λ s. s.key) ss) k ≡ true
    → find_step ss k ≢ none
unfolding find_step contains
find_step-present [] k h = cc
find_step-present (s ∷ ss) k h = ground (arith, find_step-present ss k)

-- A step that the status knows stays as it was if the plan still has it.
pub find_step-sync_list :
    (old : List WizardRunStepStatus) (insts : List Instance) (k : Text) (s : WizardRunStepStatus)
    → known_step old k ≡ some s
    → contains (map (λ i. i.key) insts) k ≡ true
    → find_step (sync_list old insts) k ≡ some s
unfolding sync_list find_step contains
find_step-sync_list old [] k s h m = cc
find_step-sync_list old (i ∷ is) k s h m = elim (Bool-cases (text_eq i.key k)) [
  | inl own ↦
      let same : i.key ≡ k = (text_eq_iff i.key k).0 own in
      let known : known_step old i.key ≡ some s = ap (known_step old) same ∙ h in
      rw (keep_or_new-key old i (known_step old i.key) refl, own, known)
        (unfold keep_or_new in refl)
  | inr other ↦
      rw (keep_or_new-key old i (known_step old i.key) refl, other)
        (find_step-sync_list old is k s h (rw other at m))
]

find_step-map :
    (f : WizardRunStepStatus → WizardRunStepStatus)
    → ((s : WizardRunStepStatus) → (f s).key ≡ s.key)
    → (ss : List WizardRunStepStatus) (k : Text)
    → find_step (map f ss) k ≡ Option.map f (find_step ss k)
unfolding find_step
find_step-map f h [] k = refl
find_step-map f h (s ∷ ss) k = ground (arith, h s, find_step-map f h ss k)

reset_step-key : (s : WizardRunStepStatus) → (reset_step s).key ≡ s.key
unfolding reset_step
reset_step-key s = ground arith

-- A step that has not failed.
pub reset_step-same : (s : WizardRunStepStatus) → is_failed s.phase ≡ false → reset_step s ≡ s
unfolding reset_step
reset_step-same s h = rw h refl

pub find_step-reset_failed :
    (st : WizardRunStatus) (k : Text)
    → find_step (reset_failed st).steps k ≡ Option.map reset_step (find_step st.steps k)
unfolding reset_failed
find_step-reset_failed st k = find_step-map reset_step reset_step-key st.steps k

-- Every instance of the plan has a step.
pub sync_list-present :
    (old : List WizardRunStepStatus) (insts : List Instance) (k : Text)
    → contains (map (λ i. i.key) insts) k ≡ true
    → find_step (sync_list old insts) k ≢ none
sync_list-present old insts k h =
    find_step-present (sync_list old insts) k
      (ap (λ ks. contains ks k) (sync_list-keys old insts) ∙ h)
