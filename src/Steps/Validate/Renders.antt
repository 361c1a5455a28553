-- ===== src/Steps/Validate/Renders.antt =====
-- The params of a definition's steps resolve where the definition passes validation: validation
-- and rendering fit together.
use fusion_wizard.Prelude.{
  ℕ, ◌≡◌, refl, subst, ◌⊎◌, inl, inr, Bool, true, false, not, Option, none, some, List, [], ◌∷◌,
  ◌++◌, Text, Assoc, lookup, insert, contains, is_empty, All, Bool-cases, Option-cases,
}
use fusion_wizard.Errors.{Message}
use fusion_wizard.Action.{Result-cases, ok}
use fusion_wizard.Api.Definition.{WizardParameter, WizardStep, WizardDefinitionSpec}
use fusion_wizard.Params.Values.{
  Value, text_value, number_value, bool_value, list_value, objects_value, Codec,
}
use fusion_wizard.Params.Template.{
  RefKind, ref_params, ref_config, ref_steps, ref_item, Ref, Template, parse, refs,
}
use fusion_wizard.Params.Render.{
  Context, lookup_kind, lookup_item, lookup_output, lookup_ref, or_error, field_of, resolve_loop,
  resolve_map, by_key, stringify, render_ref, resolve,
}
use fusion_wizard.Params.Render.Laws.{IsOk, render-IsOk_iff}
use fusion_wizard.Steps.Step.{ParamSpec, allows}
use fusion_wizard.Steps.Catalog.{config_keys, outputs_of, order_index}
use fusion_wizard.Steps.References.{
  EarlierStep, Declared, Earlier, is_string_list, check_param_ref, check_step_ref, check_kind,
  check_ref_list, check_refs,
}
use fusion_wizard.Steps.Validate.{
  check_param, check_params, check_parameters, validate_definition, earlier_step,
}
use fusion_wizard.Steps.Validate.Laws.{append-eq-nil, cons-ne-nil, Passed, next, validate-Passed}

-- The value renders to a text.
abbrev pub IsPlain : Value → Type 0
IsPlain (list_value l) = ⊥
IsPlain _ = Unit

-- The context has what validation counts on: a value for each declared parameter but the lists, the
-- config keys, the outputs of the earlier steps that run once, and the item under a forEach.
pub record Supplies (c : Context) (declared : Declared) (earlier : Earlier) (in_for_each : Bool)
    : Type 0 where
  pub params :
      (n : Text) (p : WizardParameter)
      → lookup n declared ≡ some p
      → is_string_list p.type ≡ false
      → (v : Value) × (lookup n c.params ≡ some v) × IsPlain v
  pub config :
      (k : Text) → contains config_keys k ≡ true → (v : Text) × (lookup k c.config ≡ some v)
  pub steps :
      (n k : Text) (s : EarlierStep)
      → lookup n earlier ≡ some s
      → s.for_each ≡ false
      → contains (outputs_of s.type) k ≡ true
      → (outs : Assoc Text) × (v : Text) × (lookup n c.steps ≡ some outs) × (lookup k outs ≡ some v)
  pub item : in_for_each ≡ true → (i : Text) × (c.item ≡ some i)

-- An `${item.field}` names a field of the current item.
abbrev pub HasField : Context → RefKind → Ref → Type 0
HasField c k r =
    k ≡ ref_item
    → (is_empty r.name ≡ true)
      ⊎ ((fs : Assoc Text) × (v : Text) × (c.item_fields ≡ some fs) × (lookup r.name fs ≡ some v))

param_ok :
    (c : Context) (declared : Declared) (earlier : Earlier) (b : Bool) (place : Message) (r : Ref)
    → Supplies c declared earlier b
    → check_param_ref place r (lookup r.name declared) ≡ []
    → (v : Value) × (lookup_kind ref_params r c ≡ ok v) × IsPlain v
unfolding check_param_ref lookup_kind or_error
param_ok c declared earlier b place r s h = elim (Option-cases (lookup r.name declared)) [
  | inl e ↦ absurd (cons-ne-nil (rw (e, check_param_ref) at h))
  | inr (p, e) ↦ elim (Bool-cases (is_string_list p.type)) [
    | inl l ↦ absurd (cons-ne-nil (rw (e, check_param_ref, l) at h))
    | inr l ↦
        let (v, found, plain) = s.params r.name p e l in (v, rw (lookup_kind, found) refl, plain)
  ]
]

config_ok :
    (c : Context) (declared : Declared) (earlier : Earlier) (b : Bool) (place : Message) (r : Ref)
    → Supplies c declared earlier b
    → check_kind place b declared earlier ref_config r ≡ []
    → (v : Value) × (lookup_kind ref_config r c ≡ ok v) × IsPlain v
unfolding check_kind lookup_kind
config_ok c declared earlier b place r s h = elim (Bool-cases (contains config_keys r.name)) [
  | inr e ↦ absurd (cons-ne-nil (rw (check_kind, e) at h))
  | inl e ↦ let (v, found) = s.config r.name e in (text_value v, rw (lookup_kind, found) refl, tt)
]

step_ok :
    (c : Context) (declared : Declared) (earlier : Earlier) (b : Bool) (place : Message) (r : Ref)
    → Supplies c declared earlier b
    → check_step_ref place r (lookup r.name earlier) ≡ []
    → (v : Value) × (lookup_kind ref_steps r c ≡ ok v) × IsPlain v
unfolding check_step_ref lookup_kind lookup_output
step_ok c declared earlier b place r s h = elim (Option-cases (lookup r.name earlier)) [
  | inl e ↦ absurd (cons-ne-nil (rw (e, check_step_ref) at h))
  | inr (st, e) ↦ elim (Bool-cases st.for_each) [
    | inl l ↦ absurd (cons-ne-nil (rw (e, check_step_ref, l) at h))
    | inr l ↦ elim (Bool-cases (contains (outputs_of st.type) r.key)) [
      | inr n ↦ absurd (cons-ne-nil (rw (e, check_step_ref, l, n) at h))
      | inl n ↦
          let (outs, v, found, has) = s.steps r.name r.key st e l n in
          (text_value v, rw (lookup_kind, found, lookup_output, has) refl, tt)
    ]
  ]
]

item_ok :
    (c : Context) (declared : Declared) (earlier : Earlier) (b : Bool) (place : Message) (r : Ref)
    → Supplies c declared earlier b
    → HasField c ref_item r
    → check_kind place b declared earlier ref_item r ≡ []
    → (v : Value) × (lookup_kind ref_item r c ≡ ok v) × IsPlain v
unfolding check_kind lookup_kind lookup_item field_of
item_ok c declared earlier b place r s f h = elim (Bool-cases b) [
  | inr e ↦ absurd (cons-ne-nil (rw (check_kind, e) at h))
  | inl e ↦
      let (i, item) = s.item e in
      elim (f refl) [
        | inl bare ↦ (text_value i, rw (lookup_kind, item, lookup_item, bare) refl, tt)
        | inr (fs, v, fields, has) ↦ elim (Bool-cases (is_empty r.name)) [
          | inl bare ↦ (text_value i, rw (lookup_kind, item, lookup_item, bare) refl, tt)
          | inr named ↦ (
            text_value v,
            rw (lookup_kind, item, lookup_item, named, fields, field_of, has) refl,
            tt,
          )
        ]
      ]
]

kind_ok :
    (c : Context) (declared : Declared) (earlier : Earlier) (b : Bool) (place : Message)
    (k : RefKind) (r : Ref)
    → Supplies c declared earlier b
    → HasField c k r
    → check_kind place b declared earlier k r ≡ []
    → (v : Value) × (lookup_kind k r c ≡ ok v) × IsPlain v
unfolding check_kind
kind_ok c declared earlier b place ref_params r s f h = param_ok c declared earlier b place r s h
kind_ok c declared earlier b place ref_config r s f h = config_ok c declared earlier b place r s h
kind_ok c declared earlier b place ref_steps r s f h = step_ok c declared earlier b place r s h
kind_ok c declared earlier b place ref_item r s f h = item_ok c declared earlier b place r s f h

module _ (codec : Codec) where
  plain_ok : (r : Ref) (v : Value) → IsPlain v → (s : Text) × (stringify codec r v ≡ ok s)
  unfolding stringify
  plain_ok r (text_value x) h = (_, refl)
  plain_ok r (number_value x) h = (_, refl)
  plain_ok r (bool_value x) h = (_, refl)
  plain_ok r (objects_value x) h = (_, refl)
  plain_ok r (list_value x) h = elim h [ ]

  looked_up :
      (r : Ref) (c : Context) (v : Value)
      → lookup_ref r c ≡ ok v
      → IsPlain v
      → IsOk codec (render_ref codec r c)
  unfolding render_ref
  looked_up r c v e p = let (s, q) = plain_ok r v p in rw (render_ref, e, q) tt

  refs-IsOk :
      (c : Context) (declared : Declared) (earlier : Earlier) (b : Bool) (place : Message)
      (rs : List Ref)
      → Supplies c declared earlier b
      → All (λ r. HasField c r.kind r) rs
      → check_ref_list place b declared earlier rs ≡ []
      → All (λ r. IsOk codec (render_ref codec r c)) rs
  unfolding check_ref_list lookup_ref
  refs-IsOk c declared earlier b place [] s f h = tt
  refs-IsOk c declared earlier b place (r ∷ rs) s (f, fs) h =
      let (here, later) = append-eq-nil _ _ h in
      let (v, found, plain) = kind_ok c declared earlier b place r.kind r s f here in
      (looked_up r c v found plain, refs-IsOk c declared earlier b place rs s fs later)

  -- Every `${item.field}` of a param's template names a field of the current item.
  abbrev pub HasFields : Context → Text → Type 0
  HasFields c value = (t : Template) → parse value ≡ ok t → All (λ r. HasField c r.kind r) (refs t)

  resolve-IsOk :
      (c : Context) (declared : Declared) (earlier : Earlier) (b : Bool) (place : Message)
      (value : Text)
      → Supplies c declared earlier b
      → HasFields c value
      → check_refs value place b declared earlier ≡ []
      → IsOk codec (resolve codec value c)
  unfolding check_refs resolve
  resolve-IsOk c declared earlier b place value s f h = elim (Result-cases (parse value)) [
    | inr (x, e) ↦ absurd (cons-ne-nil (rw (check_refs, e) at h))
    | inl (t, e) ↦
        rw (resolve, e)
          ((render-IsOk_iff codec c t).1
            (refs-IsOk c declared earlier b place (refs t) s (f t e) (rw (check_refs, e) at h)))
  ]

  resolve_loop_ok :
      (c : Context) (st : WizardStep) (ps : ParamSpec) (declared : Declared) (earlier : Earlier)
      (ps' : Assoc Text) (out : Assoc Text)
      → Supplies c declared earlier (not (is_empty st.for_each))
      → All (λ p. HasFields c p.1) ps'
      → check_params codec st ps declared earlier ps' ≡ []
      → (resolve_loop codec ps' c (out, [])).1 ≡ []
  unfolding check_params resolve_loop
  resolve_loop_ok c st ps declared earlier [] out s f h = refl
  resolve_loop_ok c st ps declared earlier ((k, v) ∷ rest) out s (f, fs) h =
      let (here, later) = append-eq-nil (check_param codec st ps declared earlier k v) _ h in
      elim (Bool-cases (allows ps k)) [
        | inr bad ↦ absurd (cons-ne-nil (rw bad at here))
        | inl known ↦ elim (Result-cases (resolve codec v c)) [
          | inl (x, e) ↦
              rw (resolve_loop, e)
                (resolve_loop_ok c st ps declared earlier rest (insert k x out) s fs later)
          | inr (x, e) ↦ absurd (
              rw e at (
                resolve-IsOk c declared earlier (not (is_empty st.for_each)) _ v s f
                  (rw known at here)))
        ]
      ]

  -- what `earlier` holds when the loop over the steps has passed these
  unfoldable pub earlier_after : List WizardStep → Earlier → Earlier
  earlier_after [] earlier = earlier
  earlier_after (st ∷ sts) earlier =
      earlier_after sts (insert st.name (earlier_step codec st) earlier)

  Passed-resolve_map :
      (c : Context) (declared : Declared) (earlier : Earlier) (last : Option ℕ)
      (front : List WizardStep) (st : WizardStep) (back : List WizardStep)
      → Passed codec declared earlier last (front ++ st ∷ back)
      → Supplies c declared (earlier_after front earlier) (not (is_empty st.for_each))
      → All (λ p. HasFields c p.1) (by_key codec st.params)
      → (resolve_map codec st.params c).1 ≡ []
  unfolding earlier_after resolve_map
  Passed-resolve_map c declared earlier last [] st back
        (next _ _ _ _ ps known new after required params source rest) s f =
      resolve_loop_ok c st ps declared earlier (by_key codec st.params) [] s f params
  Passed-resolve_map c declared earlier last (a ∷ front) st back
        (next _ _ _ _ ps known new after required params source rest) s f =
      Passed-resolve_map c declared (insert a.name (earlier_step codec a) earlier)
        (order_index a.type) front st back rest s f

  -- In a definition that passes `ValidateDefinition`, the params of every step resolve without
  -- error, in any context that has a value that renders for each declared parameter but the string
  -- lists, the config keys, the outputs of the steps before it that have no forEach, the item if the
  -- step has a forEach, and the fields that its `${item.field}` name.
  pub validate_definition-resolve_map :
      (spec : WizardDefinitionSpec) (front : List WizardStep) (st : WizardStep)
      (back : List WizardStep) (c : Context)
      → validate_definition codec spec ≡ []
      → spec.steps ≡ front ++ st ∷ back
      → Supplies c
          (check_parameters codec spec.parameters []).0
          (earlier_after front [])
          (not (is_empty st.for_each))
      → All (λ p. HasFields c p.1) (by_key codec st.params)
      → (resolve_map codec st.params c).1 ≡ []
  validate_definition-resolve_map spec front st back c h e =
      Passed-resolve_map c _ [] none front st back (
        subst (Passed codec (check_parameters codec spec.parameters []).0 [] none) e
          (validate-Passed codec spec h))
