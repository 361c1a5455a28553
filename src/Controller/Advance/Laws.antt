-- ===== src/Controller/Advance/Laws.antt =====
-- How far one call of `advance` gets, and what it leaves alone.
use fusion_wizard.Prelude.{
  ℕ, ◌≡◌, ◌≢◌, refl, sym, ◌∙◌, ap, subst, inl, inr, Bool, true, false, Option, none, some, List, [],
  ◌∷◌, ◌++◌, Text, Assoc, text_eq, text_eq_iff, All, Bool-cases, arith,
}
use fusion_wizard.Api.Run.{RunPhase, StepPhase, WizardRunStepStatus, WizardRunStatus}
use fusion_wizard.Action.{Result, ok, err}
use fusion_wizard.Params.Values.{Value, Codec}
use fusion_wizard.Plan.{Instance}
use fusion_wizard.Controller.Status.{set_run, is_ready, find_step, update_step}
use fusion_wizard.Controller.Instance.{
  Operator, outcome_done, outcome_wait, outcome_failed, Turn, run_instance,
}
use fusion_wizard.Controller.Instance.Turns.{Fits, run_instance-Fits, is_succeeded}
use fusion_wizard.Controller.Advance.{
  Requeue, Rest, with_env, by_phase, with_step, after_turn, advance_loop,
}

find-key :
    (ss : List WizardRunStepStatus) (k : Text) (s : WizardRunStepStatus)
    → find_step ss k ≡ some s
    → s.key ≡ k
unfolding find_step
find-key [] k s h = cc
find-key (x ∷ xs) k s h = ground (arith, text_eq_iff x.key k, find-key xs k s)

find-update_other :
    (ss : List WizardRunStepStatus) (s : WizardRunStepStatus) (k : Text)
    → text_eq s.key k ≡ false
    → find_step (update_step s ss) k ≡ find_step ss k
unfolding find_step update_step
find-update_other [] s k h = refl
find-update_other (x ∷ xs) s k h = ground (
  arith,
  text_eq_iff x.key k,
  text_eq_iff x.key s.key,
  text_eq_iff s.key k,
  find-update_other xs s k h,
)

find-update_self :
    (ss : List WizardRunStepStatus) (s : WizardRunStepStatus)
    → find_step ss s.key ≢ none
    → find_step (update_step s ss) s.key ≡ some s
unfolding find_step update_step
find-update_self [] s h = absurd (h refl)
find-update_self (x ∷ xs) s h =
    ground (arith, text_eq_iff x.key s.key, text_eq_iff s.key s.key, find-update_self xs s)

some-ne-none : {s : WizardRunStepStatus} → some s ≢ none
some-ne-none h = cc

some-injective : {s t : WizardRunStepStatus} → some s ≡ some t → s ≡ t
some-injective h = cc

ne-both : {b : Bool} → b ≡ true → b ≡ false → ⊥
ne-both p q = cc

-- How a round may change the steps: not at all, or by writing the step of its own key, which had
-- not succeeded.
pub data Touch (k : Text) (ss ss' : List WizardRunStepStatus) : Type 0 where
  kept : ss' ≡ ss → Touch k ss ss'
  written :
      (old s : WizardRunStepStatus)
      → find_step ss k ≡ some old
      → is_succeeded old.phase ≡ false
      → s.key ≡ k
      → ss' ≡ update_step s ss
      → Touch k ss ss'

-- The step of the key is recorded as succeeded.
abbrev pub Succeeded : List WizardRunStepStatus → Text → Type 0
Succeeded ss k =
    (s : WizardRunStepStatus) × (find_step ss k ≡ some s) × (is_succeeded s.phase ≡ true)

Touch-other :
    (k : Text) (ss ss' : List WizardRunStepStatus) (j : Text)
    → Touch k ss ss'
    → text_eq k j ≡ false
    → find_step ss' j ≡ find_step ss j
Touch-other k ss ss' j (kept e) ne = rw e
Touch-other k ss ss' j (written old s f p q e) ne =
    rw e (find-update_other ss s j (ap (λ x. text_eq x j) q ∙ ne))

Touch-present :
    (k : Text) (ss ss' : List WizardRunStepStatus) (j : Text)
    → Touch k ss ss'
    → find_step ss j ≢ none
    → find_step ss' j ≢ none
Touch-present k ss ss' j (kept e) ne = rw e ne
Touch-present k ss ss' j (written old s f p q e) ne = elim (Bool-cases (text_eq s.key j)) [
  | inr other ↦ rw (e, find-update_other ss s j other) ne
  | inl own ↦ λ gone.
      let same : s.key ≡ j = (text_eq_iff s.key j).0 own in
      absurd (
        some-ne-none (
          sym (find-update_self ss s (λ n. some-ne-none (sym f ∙ ap (find_step ss) (sym q) ∙ n)))
          ∙ ap (find_step (update_step s ss)) same
          ∙ ap (λ x. find_step x j) (sym e)
          ∙ gone))
]

-- a succeeded step stays as it is
Touch-succeeded :
    (k : Text) (ss ss' : List WizardRunStepStatus) (j : Text) (s : WizardRunStepStatus)
    → Touch k ss ss'
    → find_step ss j ≡ some s
    → is_succeeded s.phase ≡ true
    → find_step ss' j ≡ some s
Touch-succeeded k ss ss' j s (kept e) f p = rw e f
Touch-succeeded k ss ss' j s (written old t g q r e) f p = elim (Bool-cases (text_eq k j)) [
  | inr other ↦ Touch-other k ss ss' j (written old t g q r e) other ∙ f
  | inl own ↦ absurd (
      ne-both p (
        ap (λ x. is_succeeded x.phase)
          (some-injective (sym f ∙ ap (find_step ss) (sym ((text_eq_iff k j).0 own)) ∙ g))
        ∙ q))
]

-- The steps that a call of `advance` went through, and where it halted. `phase` is the run's.
pub data Rounds (phase : RunPhase)
    : List Instance → List WizardRunStepStatus → List WizardRunStepStatus → Type 0 where
  finished : (ss : List WizardRunStepStatus) → Rounds phase [] ss ss
  halted :
      (i : Instance) (is : List Instance) (ss ss' : List WizardRunStepStatus)
      → is_ready phase ≡ false
      → Touch i.key ss ss'
      → Rounds phase (i ∷ is) ss ss'
  passed :
      (i : Instance) (is : List Instance) (ss mid ss' : List WizardRunStepStatus)
      → Touch i.key ss mid
      → Succeeded mid i.key
      → Rounds phase is mid ss'
      → Rounds phase (i ∷ is) ss ss'

-- A step that has succeeded stays as it is through the rounds.
pub Rounds-succeeded :
    {phase : RunPhase} {insts : List Instance} {ss ss' : List WizardRunStepStatus} (j : Text)
    (s : WizardRunStepStatus)
    → Rounds phase insts ss ss'
    → find_step ss j ≡ some s
    → is_succeeded s.phase ≡ true
    → find_step ss' j ≡ some s
Rounds-succeeded j s (finished ss) f p = f
Rounds-succeeded j s (halted i is ss ss' _ t) f p = Touch-succeeded i.key ss ss' j s t f p
Rounds-succeeded j s (passed i is ss mid ss' t _ rest) f p =
    Rounds-succeeded j s rest (Touch-succeeded i.key ss mid j s t f p) p

-- If the run is ready afterwards, then every instance has succeeded.
pub Rounds-ready :
    {phase : RunPhase} {insts : List Instance} {ss ss' : List WizardRunStepStatus}
    → Rounds phase insts ss ss'
    → is_ready phase ≡ true
    → All (λ i. Succeeded ss' i.key) insts
Rounds-ready (finished ss) r = tt
Rounds-ready (halted i is ss ss' n t) r = absurd (ne-both r n)
Rounds-ready (passed i is ss mid ss' t (s, f, p) rest) r =
    ((s, Rounds-succeeded i.key s rest f p, p), Rounds-ready rest r)

pub Rounds-order :
    {phase : RunPhase} (front : List Instance) (i : Instance) (back : List Instance)
    {ss ss' : List WizardRunStepStatus} (j : Text)
    → Rounds phase (front ++ i ∷ back) ss ss'
    → All (λ x. text_eq x.key j ≡ false) (front ++ i ∷ [])
    → ¬ Succeeded ss' i.key
    → find_step ss' j ≡ find_step ss j
Rounds-order [] i back j (halted _ _ ss ss' _ t) (ne, _) n = Touch-other i.key ss ss' j t ne
Rounds-order [] i back j (passed _ _ ss mid ss' t (s, f, p) rest) (ne, _) n =
    absurd (n (s, Rounds-succeeded i.key s rest f p, p))
Rounds-order (x ∷ front) i back j (halted _ _ ss ss' _ t) (ne, _) n =
    Touch-other x.key ss ss' j t ne
Rounds-order (x ∷ front) i back j (passed _ _ ss mid ss' t _ rest) (ne, nes) n =
    Rounds-order front i back j rest nes n ∙ Touch-other x.key ss mid j t ne

find-written :
    (ss : List WizardRunStepStatus) (s t : WizardRunStepStatus) (k : Text)
    → find_step ss k ≡ some s
    → t.key ≡ k
    → find_step (update_step t ss) k ≡ some t
find-written ss s t k f q =
    subst (λ x. find_step ss x ≢ none → find_step (update_step t ss) x ≡ some t) q
      (find-update_self ss t) (λ n. some-ne-none (sym f ∙ n))

present-after :
    (k : Text) (insts : List Instance) (ss ss' : List WizardRunStepStatus)
    → Touch k ss ss'
    → All (λ i. find_step ss i.key ≢ none) insts
    → All (λ i. find_step ss' i.key ≢ none) insts
present-after k [] ss ss' t h = tt
present-after k (i ∷ is) ss ss' t (n, h) =
    (Touch-present k ss ss' i.key t n, present-after k is ss ss' t h)

abbrev pub Went :
    {W : Type 0}
    → List Instance
    → List WizardRunStepStatus
    → (Requeue × WizardRunStatus) × W
    → Type 0
Went insts ss p = Rounds p.0.1.phase insts ss p.0.1.steps

module _ {W : Type 0} (op : Operator W) (codec : Codec) (run : Text) (gen : ℕ)
    (values : Assoc Value) where
  -- Where the rest of the loop goes through its instances, so does the loop.
  abbrev pub Continues : List Instance → Rest op codec run gen values → Type 0
  Continues is rest =
      (env : Option op.Env) (st : WizardRunStatus) (outputs : Assoc (Assoc Text)) (w : W)
      → All (λ i. find_step st.steps i.key ≢ none) is
      → Went is st.steps (rest env st outputs w)

  after_turn-Went :
      (i : Instance) (is : List Instance) (rest : Rest op codec run gen values) (env : op.Env)
      (st : WizardRunStatus) (outputs : Assoc (Assoc Text)) (turn : Turn) (w : W)
      (s : WizardRunStepStatus)
      → Continues is rest
      → All (λ i. find_step st.steps i.key ≢ none) is
      → find_step st.steps i.key ≡ some s
      → is_succeeded s.phase ≡ false
      → Fits i.key turn
      → Went (i ∷ is) st.steps (after_turn op codec run gen values rest env i st outputs turn w)
  unfolding after_turn set_run
  after_turn-Went i is rest env st outputs (outcome_failed, t) w s go h f q (k, _, _) =
      halted i is st.steps _ refl (written s t f q k refl)
  after_turn-Went i is rest env st outputs (outcome_wait d, t) w s go h f q (k, _, _, _) =
      halted i is st.steps _ refl (written s t f q k refl)
  after_turn-Went i is rest env st outputs (outcome_done, t) w s go h f q (k, _, p) =
      let touched : Touch i.key st.steps (update_step t st.steps) = written s t f q k refl in
      passed i is st.steps _ _ touched (t, find-written st.steps s t i.key f k, p)
        (go _ _ _ _ (present-after i.key is _ _ touched h))

  with_env-Went :
      (i : Instance) (is : List Instance) (rest : Rest op codec run gen values)
      (s : WizardRunStepStatus) (st : WizardRunStatus) (outputs : Assoc (Assoc Text))
      (e : Result op.Env) (w : W)
      → Continues is rest
      → All (λ x. find_step st.steps x.key ≢ none) is
      → find_step st.steps i.key ≡ some s
      → is_succeeded s.phase ≡ false
      → Went (i ∷ is) st.steps (with_env op codec run gen values rest i s st outputs e w)
  unfolding with_env set_run
  with_env-Went i is rest s st outputs (err x) w go h f q = halted i is st.steps _ refl (kept refl)
  with_env-Went i is rest s st outputs (ok env) w go h f q =
      after_turn-Went i is rest env st outputs _ _ s go h f q (
        subst (λ k. Fits k (run_instance op codec run env i s values outputs w).0)
          (find-key st.steps i.key s f) (run_instance-Fits op codec run env i s values outputs w))

  by_phase-Went :
      (i : Instance) (is : List Instance) (rest : Rest op codec run gen values)
      (s : WizardRunStepStatus) (p : StepPhase) (env : Option op.Env) (st : WizardRunStatus)
      (outputs : Assoc (Assoc Text)) (w : W)
      → Continues is rest
      → All (λ x. find_step st.steps x.key ≢ none) is
      → find_step st.steps i.key ≡ some s
      → s.phase ≡ p
      → Went (i ∷ is) st.steps (by_phase op codec run gen values rest p env i s st outputs w)
  unfolding by_phase set_run
  by_phase-Went i is rest s StepPhase.succeeded env st outputs w go h f q =
      passed i is st.steps _ _ (kept refl) (s, f, ap is_succeeded q) (go _ _ _ _ h)
  by_phase-Went i is rest s StepPhase.failed env st outputs w go h f q =
      halted i is st.steps _ refl (kept refl)
  by_phase-Went i is rest s StepPhase.pending env st outputs w go h f q =
      with_env-Went i is rest s st outputs _ _ go h f (ap is_succeeded q)
  by_phase-Went i is rest s StepPhase.unset env st outputs w go h f q =
      with_env-Went i is rest s st outputs _ _ go h f (ap is_succeeded q)
  by_phase-Went i is rest s StepPhase.rolled_back env st outputs w go h f q =
      with_env-Went i is rest s st outputs _ _ go h f (ap is_succeeded q)
  by_phase-Went i is rest s StepPhase.rollback_failed env st outputs w go h f q =
      with_env-Went i is rest s st outputs _ _ go h f (ap is_succeeded q)
  by_phase-Went i is rest s StepPhase.running env st outputs w go h f q =
      with_env-Went i is rest s st outputs _ _ go h f (ap is_succeeded q)

  with_step-Went :
      (i : Instance) (is : List Instance) (rest : Rest op codec run gen values)
      (o : Option WizardRunStepStatus) (env : Option op.Env) (st : WizardRunStatus)
      (outputs : Assoc (Assoc Text)) (w : W)
      → Continues is rest
      → All (λ x. find_step st.steps x.key ≢ none) (i ∷ is)
      → find_step st.steps i.key ≡ o
      → Went (i ∷ is) st.steps (with_step op codec run gen values rest o env i st outputs w)
  unfolding with_step
  with_step-Went i is rest none env st outputs w go (n, h) f = absurd (n f)
  with_step-Went i is rest (some s) env st outputs w go (n, h) f =
      by_phase-Went i is rest s s.phase env st outputs w go h f refl

  -- Where every instance has a step, the loop goes through them in order.
  pub advance_loop-Went :
      (insts : List Instance) → Continues insts (advance_loop op codec run gen values insts)
  unfolding advance_loop
  advance_loop-Went [] env st outputs w h = unfold set_run in finished st.steps
  advance_loop-Went (i ∷ is) env st outputs w h =
      with_step-Went i is (advance_loop op codec run gen values is) _ env st outputs w
        (advance_loop-Went is) h refl
