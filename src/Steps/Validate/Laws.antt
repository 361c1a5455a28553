-- ===== src/Steps/Validate/Laws.antt =====
-- What the steps of a definition without problems are like: known, in catalogue order, and under
-- distinct names.
use fusion_wizard.Prelude.{
  ℕ, ◌≡◌, ◌≢◌, refl, sym, ◌∙◌, ap, inl, inr, false, Option, none, some, List, [], ◌∷◌, ◌++◌, Text,
  lookup, insert, lookup-insert, text_eq, All, Bool-cases, Option-cases, arith,
}
use fusion_wizard.Errors.{Error}
use fusion_wizard.Api.Definition.{
  git_watcher, wait_build, tag, app, job_template, service_template, chain, trigger, batch_trigger,
  unknown_type, type_name, StepType, WizardStep, WizardDefinitionSpec,
}
use fusion_wizard.Params.Values.{Codec}
use fusion_wizard.Params.Render.{by_key}
use fusion_wizard.Steps.Step.{ParamSpec}
use fusion_wizard.Steps.Catalog.{params_of, order_index, is_before}
use fusion_wizard.Steps.References.{EarlierStep, Declared, Earlier}
use fusion_wizard.Steps.Validate.{
  check_parameters, check_defaults, check_required, check_params, check_name, check_order,
  check_source, check_step, check_steps, earlier_step, validate_definition,
}

pub append-eq-nil : (xs ys : List Error) → xs ++ ys ≡ [] → (xs ≡ []) × (ys ≡ [])
append-eq-nil [] ys h = (refl, h)
append-eq-nil (x ∷ xs) ys h = cc

pub cons-ne-nil : {x : Error} {xs : List Error} → x ∷ xs ≢ []
cons-ne-nil h = cc

-- The step's type is in the catalogue.
abbrev pub IsKnown : WizardStep → Type 0
IsKnown st = (ps : ParamSpec) × (params_of st.type ≡ some ps)

-- `b` may stand after `a` in catalogue order.
abbrev pub Follows : WizardStep → WizardStep → Type 0
Follows a b = is_before (order_index b.type) (order_index a.type) ≡ false

-- Every step is known, and of any two the later one may follow the earlier one and has another name.
abbrev pub InOrder : List WizardStep → Type 0
InOrder [] = Unit
InOrder (st ∷ sts) =
    IsKnown st × All (λ b. Follows st b × (text_eq st.name b.name ≡ false)) sts × InOrder sts

known_index :
    (t : StepType) (ps : ParamSpec) → params_of t ≡ some ps → (i : ℕ) × (order_index t ≡ some i)
unfolding params_of order_index type_name text_eq
known_index git_watcher ps h = (0, refl)
known_index wait_build ps h = (1, refl)
known_index tag ps h = (2, refl)
known_index app ps h = (3, refl)
known_index job_template ps h = (4, refl)
known_index service_template ps h = (5, refl)
known_index chain ps h = (6, refl)
known_index trigger ps h = (7, refl)
known_index batch_trigger ps h = (8, refl)
known_index (unknown_type t) ps h = cc

is_before_trans :
    (b last : Option ℕ) (i : ℕ)
    → is_before b (some i) ≡ false
    → is_before (some i) last ≡ false
    → is_before b last ≡ false
is_before_trans b none i h k = refl
is_before_trans none (some l) i h k = cc
is_before_trans (some o) (some l) i h k = ground arith

-- The name of the step is new, and it does not stand before the last one.
abbrev IsLater : Earlier → Option ℕ → WizardStep → Type 0
IsLater earlier last b =
    (lookup b.name earlier ≡ none) × (is_before (order_index b.type) last ≡ false)

insert-none :
    (k j : Text) (e : EarlierStep) (earlier : Earlier)
    → lookup j (insert k e earlier) ≡ none
    → (lookup j earlier ≡ none) × (text_eq k j ≡ false)
insert-none k j e earlier h = ground (arith, lookup-insert k j e earlier)

-- What is later than a step is later than what it is later than, and may follow it.
IsLater-back :
    (st : WizardStep) (earlier : Earlier) (last : Option ℕ) (e : EarlierStep)
    → IsKnown st
    → is_before (order_index st.type) last ≡ false
    → (sts : List WizardStep) → All (IsLater (insert st.name e earlier) (order_index st.type)) sts
    → All (IsLater earlier last) sts
      × All (λ b. Follows st b × (text_eq st.name b.name ≡ false)) sts
IsLater-back st earlier last e known after [] h = (tt, tt)
IsLater-back st earlier last e (ps, known) after (b ∷ sts) ((new, follows), h) =
    let (older, fresh) = IsLater-back st earlier last e (ps, known) after sts h in
    let (absent, other) = insert-none st.name b.name e earlier new in
    let (i, index) = known_index st.type ps known in
    (
      (
        (
          absent,
          is_before_trans (order_index b.type) last i (rw index at follows) (rw index at after),
        ),
        older,
      ),
      ((follows, other), fresh),
    )

module _ (codec : Codec) where
  -- what `check_steps` finds without problem
  pub data Passed (declared : Declared) : Earlier → Option ℕ → List WizardStep → Type 0 where
    done : (earlier : Earlier) (last : Option ℕ) → Passed declared earlier last []
    next :
        (earlier : Earlier) (last : Option ℕ) (st : WizardStep) (sts : List WizardStep)
        (ps : ParamSpec)
        → params_of st.type ≡ some ps
        → lookup st.name earlier ≡ none
        → is_before (order_index st.type) last ≡ false
        → check_required codec st ps.required ≡ []
        → check_params codec st ps declared earlier (by_key codec st.params) ≡ []
        → check_source codec st declared ≡ []
        → Passed declared (insert st.name (earlier_step codec st) earlier) (order_index st.type) sts
        → Passed declared earlier last (st ∷ sts)

  check_name_nil :
      (st : WizardStep) (o : Option EarlierStep) → check_name codec st o ≡ [] → o ≡ none
  check_name_nil st none h = refl
  check_name_nil st (some s) h = cc

  check_order_nil :
      (st : WizardStep) (last : Option ℕ)
      → (check_order codec st last).0 ≡ []
      → (is_before (order_index st.type) last ≡ false)
        × ((check_order codec st last).1 ≡ order_index st.type)
  check_order_nil st last h = elim (Bool-cases (is_before (order_index st.type) last)) [
    | inl e ↦ absurd (cons-ne-nil (rw e at h))
    | inr e ↦ (e, rw e)
  ]

  check_step_nil :
      (st : WizardStep) (ps : ParamSpec) (declared : Declared) (earlier : Earlier) (last : Option ℕ)
      → check_step codec st ps declared earlier last ≡ []
      → (check_name codec st (lookup st.name earlier) ≡ [])
        × ((check_order codec st last).0 ≡ [])
        × (check_required codec st ps.required ≡ [])
        × (check_params codec st ps declared earlier (by_key codec st.params) ≡ [])
        × (check_source codec st declared ≡ [])
  unfolding check_step
  check_step_nil st ps declared earlier last h =
      let (front, source) = append-eq-nil _ _ h in
      let (front', params) = append-eq-nil _ _ front in
      let (front'', required) = append-eq-nil _ _ front' in
      let (named, ordered) = append-eq-nil _ _ front'' in (named, ordered, required, params, source)

  pub check_steps-Passed :
      (sts : List WizardStep) (declared : Declared) (earlier : Earlier) (last : Option ℕ)
      → check_steps codec sts declared earlier last ≡ []
      → Passed declared earlier last sts
  unfolding check_steps
  check_steps-Passed [] declared earlier last h = done earlier last
  check_steps-Passed (st ∷ sts) declared earlier last h = elim (Option-cases (params_of st.type)) [
    | inl e ↦ absurd (cons-ne-nil (rw (e, check_steps) at h))
    | inr (ps, e) ↦
        let (here, later) = append-eq-nil _ _ (rw (e, check_steps) at h) in
        let (named, ordered, required, params, source) =
          check_step_nil st ps declared earlier last here in
        let (o, same) = check_order_nil st last ordered in
        next earlier last st sts ps e (check_name_nil st _ named) o required params source (
          check_steps-Passed sts declared (insert st.name (earlier_step codec st) earlier)
            (order_index st.type) (ap (check_steps codec sts declared _) (sym same) ∙ later))
  ]

  -- what stays true of a later step: its name is new, and it follows the last one
  Passed-IsLater :
      (declared : Declared) (earlier : Earlier) (last : Option ℕ) (sts : List WizardStep)
      → Passed declared earlier last sts
      → All (IsLater earlier last) sts
  Passed-IsLater declared earlier last [] h = tt
  Passed-IsLater declared earlier last (st ∷ sts) (next _ _ _ _ ps known new after _ _ _ rest) = (
    (new, after),
    (IsLater-back st earlier last (earlier_step codec st) (ps, known) after sts
        (Passed-IsLater declared (insert st.name (earlier_step codec st) earlier)
          (order_index st.type) sts rest)).0,
  )

  pub Passed-InOrder :
      (declared : Declared) (earlier : Earlier) (last : Option ℕ) (sts : List WizardStep)
      → Passed declared earlier last sts
      → InOrder sts
  Passed-InOrder declared earlier last [] h = tt
  Passed-InOrder declared earlier last (st ∷ sts) (next _ _ _ _ ps known new after _ _ _ rest) = (
    (ps, known),
    (IsLater-back st earlier last (earlier_step codec st) (ps, known) after sts
        (Passed-IsLater declared (insert st.name (earlier_step codec st) earlier)
          (order_index st.type) sts rest)).1,
    Passed-InOrder declared (insert st.name (earlier_step codec st) earlier) (order_index st.type)
        sts rest,
  )

  pub validate-Passed :
      (spec : WizardDefinitionSpec)
      → validate_definition codec spec ≡ []
      → Passed (check_parameters codec spec.parameters []).0 [] none spec.steps
  unfolding validate_definition
  validate-Passed spec h =
      check_steps-Passed spec.steps _ [] none
        (append-eq-nil
          ((check_parameters codec spec.parameters []).1 ++ check_defaults codec spec.parameters) _
          h).1

  -- A definition that passes `ValidateDefinition` has only steps of the catalogue, in the
  -- catalogue's order, and no two of them have the same name.
  pub validate_definition-InOrder :
      (spec : WizardDefinitionSpec) → validate_definition codec spec ≡ [] → InOrder spec.steps
  validate_definition-InOrder spec h = Passed-InOrder _ [] none spec.steps (validate-Passed spec h)
