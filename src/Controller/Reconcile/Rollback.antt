-- ===== src/Controller/Reconcile/Rollback.antt =====
-- What a rollback that released everything leaves in the run's status.
use fusion_wizard.Prelude.{
  ℕ, ◌≡◌, refl, sym, subst, if-rule, ◌⊎◌, inl, inr, true, false, Option, none, some, List, [], ◌∷◌,
  map, Text, All, Bool-cases,
}
use fusion_wizard.Errors.{text, Error}
use fusion_wizard.Action.{Result, Result-cases, ok, err, ok-ne-err}
use fusion_wizard.Api.Run.{RunPhase, StepPhase, WizardRunStepStatus, WizardRunStatus, WizardRun}
use fusion_wizard.Params.Values.{Codec}
use fusion_wizard.Controller.Status.{set_run, or_now}
use fusion_wizard.Controller.Instance.{Operator}
use fusion_wizard.Controller.Reconcile.{
  Kube, is_pending, is_rolling_back, roll_step, mark_rolled_back, update_status, updated, released,
  release_held, after_started, rollback, Rolled,
}

-- The run is rolled back with an end time, and each of its steps is still pending or rolled back.
abbrev pub IsRolledBack : WizardRunStatus → Type 0
IsRolledBack st =
    (st.phase ≡ RunPhase.rolled_back)
    × ((t : ℕ) × (st.completed_at ≡ some t))
    × All (λ s. (s.phase ≡ StepPhase.pending) ⊎ (s.phase ≡ StepPhase.rolled_back)) st.steps

is_pending_lem : (p : StepPhase) → is_pending p ≡ true → p ≡ StepPhase.pending
is_pending_lem StepPhase.unset h = cc
is_pending_lem StepPhase.pending h = refl
is_pending_lem StepPhase.running h = cc
is_pending_lem StepPhase.succeeded h = cc
is_pending_lem StepPhase.failed h = cc
is_pending_lem StepPhase.rolled_back h = cc
is_pending_lem StepPhase.rollback_failed h = cc

roll_step_phase :
    (now : ℕ) (s : WizardRunStepStatus)
    → ((roll_step now s).phase ≡ StepPhase.pending)
      ⊎ ((roll_step now s).phase ≡ StepPhase.rolled_back)
unfolding roll_step
roll_step_phase now s = elim (Bool-cases (is_pending s.phase)) [
  | inl e ↦ inl (rw (roll_step, e) (is_pending_lem s.phase e))
  | inr e ↦ inr (rw (roll_step, e) refl)
]

rolled_steps :
    (now : ℕ) (ss : List WizardRunStepStatus)
    → All
        (λ s. (s.phase ≡ StepPhase.pending) ⊎ (s.phase ≡ StepPhase.rolled_back))
        (map (roll_step now) ss)
rolled_steps now [] = tt
rolled_steps now (s ∷ ss) = (roll_step_phase now s, rolled_steps now ss)

some_time : (now : ℕ) (o : Option ℕ) → (t : ℕ) × (or_now now o ≡ some t)
some_time now none = (now, refl)
some_time now (some t) = (t, refl)

mark_rolled_back-IsRolledBack :
    (gen now : ℕ) (st : WizardRunStatus) → IsRolledBack (mark_rolled_back gen now st)
unfolding mark_rolled_back set_run
mark_rolled_back-IsRolledBack gen now st =
    (refl, some_time now st.completed_at, rolled_steps now st.steps)

some-ne-none : {x : Error} → some x ≡ none → ⊥
some-ne-none h = cc

ne-false : false ≡ true → ⊥
ne-false h = cc

-- The reconciler is the only writer of a run's status, so the server answers a patch of it with the
-- status that it was given.
pub record StatusLaws {W : Type 0} (kube : Kube W) : Type 0 where
  pub patched_status :
      (base new run : WizardRun) (w : W)
      → (kube.patch_status base new w).0 ≡ ok run
      → run.status ≡ new.status
  pub patched_name :
      (base new run : WizardRun) (w : W)
      → (kube.patch_status base new w).0 ≡ ok run
      → run.name ≡ new.name

module _ {W : Type 0} (kube : Kube W) (laws : StatusLaws kube) (op : Operator W)
    (codec : Codec) where
  -- Some step environment rolled the run's name back without error.
  abbrev pub WasReleased : Text → Type 0
  WasReleased name =
      (env : op.Env) × (v w : W) × ((op.env v).0 ≡ ok env) × ((op.rollback env name w).0 ≡ ok tt)

  -- what `rollback` says of the status and of the release
  abbrev pub Says : Text → Rolled → Type 0
  Says name (run, res, done, e) =
      done ≡ true → e ≡ none → IsRolledBack run.status × WasReleased name

  -- After a successful update the status is the mutated one, and the name is kept.
  abbrev Updates : WizardRun → WizardRunStatus → WizardRun × Option Error → Type 0
  Updates run st (run', e) = e ≡ none → (run'.status ≡ st) × (run'.name ≡ run.name)

  updated_lem :
      (base new : WizardRun) (w : W)
      → Updates new new.status (updated new (kube.patch_status base new w).0)
  updated_lem base new w = elim (Result-cases (kube.patch_status base new w).0) [
    | inl (run, e) ↦
        rw e (λ h. (laws.patched_status base new run w e, laws.patched_name base new run w e))
    | inr (x, e) ↦ rw e (λ h. absurd (some-ne-none h))
  ]

  update_status_lem :
      (run : WizardRun) (f : ℕ → WizardRunStatus → WizardRunStatus) (w : W)
      → Updates run (f (op.now w) run.status) (update_status kube op codec run f w).0
  unfolding update_status
  update_status_lem run f w =
      let new = record run { status = f (op.now w) run.status } in
      if-rule (λ (r : (WizardRun × Option Error) × W). Updates run new.status r.0)
        (kube.same_status run.status new.status) _ _ (λ e h. (refl, refl))
        (λ e. updated_lem run new w)

  released_lem :
      (gen : ℕ) (run : WizardRun) (r : Result (Unit {0})) (w : W)
      → (r ≡ ok tt → WasReleased run.name)
      → Says run.name (released kube op codec gen run r w).0
  unfolding released
  released_lem gen run (err x) w h d e = absurd (ne-false d)
  released_lem gen run (ok u) w h d e =
      let (st, n) = update_status_lem run (mark_rolled_back gen) w e in
      (
        subst IsRolledBack (sym st) (mark_rolled_back-IsRolledBack gen (op.now w) run.status),
        h refl,
      )

  release_held_lem :
      (gen : ℕ) (run : WizardRun) (r : Result op.Env) (v w : W)
      → (op.env v).0 ≡ r
      → Says run.name (release_held kube op codec gen run r w).0
  unfolding release_held
  release_held_lem gen run (err x) v w h =
      released_lem gen run (err x) w (λ e. absurd (ok-ne-err (sym e)))
  release_held_lem gen run (ok env) v w h =
      released_lem gen run (op.rollback env run.name w).0 (op.rollback env run.name w).1
        (λ e. (env, v, w, h, e))

  after_started_lem :
      (gen : ℕ) (run : WizardRun) (e : Option Error) (w : W)
      → Says run.name (after_started kube op codec gen run e w).0
  unfolding after_started
  after_started_lem gen run (some x) w = λ d e. absurd (ne-false d)
  after_started_lem gen run none w = release_held_lem gen run (op.env w).0 w (op.env w).1 refl

  after_update_lem :
      (name : Text) (run : WizardRun) (gen : ℕ) (r : WizardRun × Option Error)
      (st : WizardRunStatus) (w : W)
      → Updates run st r
      → Says run.name (after_started kube op codec gen r.0 r.1 w).0
  unfolding after_started
  after_update_lem name run gen (run', some x) st w u = λ d e. absurd (ne-false d)
  after_update_lem name run gen (run', none) st w u =
      subst (λ n. Says n (after_started kube op codec gen run' none w).0) (u refl).1
        (after_started_lem gen run' none w)

  rollback-Says : (run : WizardRun) (w : W) → Says run.name (rollback kube op codec run w).0
  unfolding rollback
  rollback-Says run w =
      if-rule (λ (r : Rolled × W). Says run.name r.0) (is_rolling_back run.status.phase) _ _
        (λ e. after_started_lem run.generation run none w)
        (λ e.
          after_update_lem run.name run run.generation
            (update_status kube op codec run
              (λ now. set_run now RunPhase.rolling_back (text []) run.generation) w).0
            _
            (update_status kube op codec run
              (λ now. set_run now RunPhase.rolling_back (text []) run.generation) w).1
            (update_status_lem run
              (λ now. set_run now RunPhase.rolling_back (text []) run.generation) w))

  -- If `rollback` reports that everything is released, and no error, then a step environment rolled
  -- the run back without an error, and the run's status says so: its phase is RolledBack, its end is
  -- recorded, and each of its steps is Pending or RolledBack.
  pub rollback-IsRolledBack :
      (run : WizardRun) (w : W)
      → (rollback kube op codec run w).0.2 ≡ true
      → (rollback kube op codec run w).0.3 ≡ none
      → IsRolledBack (rollback kube op codec run w).0.0.status × WasReleased run.name
  rollback-IsRolledBack run w done fine = rollback-Says run w done fine
