-- ===== src/Plan/Keys.antt =====
-- What the instances of a plan are: those of the steps in order, under distinct keys.
use mathlib.Core.List.{append_assoc, append-nil}
use fusion_wizard.Prelude.{
  ◌≡◌, refl, sym, ◌∙◌, ap, subst, inl, inr, false, Option, none, some, List, [], ◌∷◌, ◌++◌, Assoc,
  map, Text, text_eq, is_empty, contains, All, Bool-cases, arith, if◌then◌else◌,
}
use fusion_wizard.Action.{Result, Result-cases, ok, err, ok-injective, ok-ne-err}
use fusion_wizard.Api.Definition.{WizardStep, WizardDefinitionSpec}
use fusion_wizard.Params.Values.{Value}
use fusion_wizard.Params.Render.{Context, ForEachItem, resolve_list}
use fusion_wizard.Plan.{
  Instance, Expansion, add, item_instance, step_instance, add_items, add_step, add_steps,
  values_only, expand,
}

-- The instances of one step, and of all steps in order, without the checks on keys.
abbrev pub step_instances : Context → WizardStep → Result (List Instance)
step_instances ctx st =
    if is_empty st.for_each
    then ok (step_instance st ∷ [])
    else elim (resolve_list st.for_each ctx) [
      | err e ↦ err e
      | ok its ↦ ok (map (item_instance st) its)
    ]

pub data Planned (ctx : Context) : List WizardStep → List Instance → Type 0 where
  none_left : Planned ctx [] []
  planned :
      {st : WizardStep} {sts : List WizardStep} {is all rest : List Instance}
      → step_instances ctx st ≡ ok is
      → Planned ctx sts rest
      → all ≡ is ++ rest
      → Planned ctx (st ∷ sts) all

-- No two instances have the same key.
abbrev pub DistinctKeys : List Instance → Type 0
DistinctKeys [] = Unit
DistinctKeys (i ∷ is) = All (λ j. text_eq i.key j.key ≡ false) is × DistinctKeys is

-- The item of an expanded forEach is not the empty text.
abbrev pub HasItem : Option Text → Type 0
HasItem none = Unit
HasItem (some t) = is_empty t ≡ false

abbrev push : Instance → Expansion → Expansion
push i x = record { seen = i.key ∷ x.seen; out = x.out ++ i ∷ [] }

-- The run of `add` over some instances.
abbrev Accepts : List Instance → Expansion → Expansion → Type 0
Accepts [] x x' = x ≡ x'
Accepts (i ∷ is) x x' = (contains x.seen i.key ≡ false) × HasItem i.item × Accepts is (push i x) x'

Accepts-append :
    (is js : List Instance) (x y z : Expansion)
    → Accepts is x y
    → Accepts js y z
    → Accepts (is ++ js) x z
Accepts-append [] js x y z h k = subst (λ v. Accepts js v z) (sym h) k
Accepts-append (i ∷ is) js x y z (f, n, h) k = (f, n, Accepts-append is js (push i x) y z h k)

out-Accepts : (is : List Instance) (x y : Expansion) → Accepts is x y → y.out ≡ x.out ++ is
out-Accepts [] x y h = ap (λ v. v.out) (sym h) ∙ rw append-nil
out-Accepts (i ∷ is) x y (f, n, h) = out-Accepts is (push i x) y h ∙ rw append_assoc

contains_cons :
    (k : Text) (seen : List Text) (a : Text)
    → contains (k ∷ seen) a ≡ false
    → (text_eq k a ≡ false) × (contains seen a ≡ false)
unfolding contains
contains_cons k seen a h = ground arith

split_unseen :
    (k : Text) (seen : List Text) (js : List Instance)
    → All (λ j. contains (k ∷ seen) j.key ≡ false) js
    → All (λ j. text_eq k j.key ≡ false) js × All (λ j. contains seen j.key ≡ false) js
split_unseen k seen [] h = (tt, tt)
split_unseen k seen (j ∷ js) (h, hs) =
    let (one, other) = contains_cons k seen j.key h in
    let (ones, others) = split_unseen k seen js hs in ((one, ones), (other, others))

-- what is accepted later was not seen before
Accepts-unseen :
    (is : List Instance) (x y : Expansion)
    → Accepts is x y
    → All (λ j. contains x.seen j.key ≡ false) is
Accepts-unseen [] x y h = tt
Accepts-unseen (i ∷ is) x y (f, n, h) =
    (f, (split_unseen i.key x.seen is (Accepts-unseen is (push i x) y h)).1)

Accepts-DistinctKeys : (is : List Instance) (x y : Expansion) → Accepts is x y → DistinctKeys is
Accepts-DistinctKeys [] x y h = tt
Accepts-DistinctKeys (i ∷ is) x y (f, n, h) = (
  (split_unseen i.key x.seen is (Accepts-unseen is (push i x) y h)).0,
  Accepts-DistinctKeys is (push i x) y h,
)

Accepts-HasItem :
    (is : List Instance) (x y : Expansion) → Accepts is x y → All (λ j. HasItem j.item) is
Accepts-HasItem [] x y h = tt
Accepts-HasItem (i ∷ is) x y (f, n, h) = (n, Accepts-HasItem is (push i x) y h)

add_ok :
    (i : Instance) (x y : Expansion)
    → add i x ≡ ok y
    → (contains x.seen i.key ≡ false) × (push i x ≡ y)
unfolding add
add_ok i x y h = elim (Bool-cases (contains x.seen i.key)) [
  | inl e ↦ absurd (ok-ne-err (sym (rw e at h)))
  | inr e ↦ (e, ok-injective (rw e at h))
]

add_items-Accepts :
    (st : WizardStep) (its : List ForEachItem) (x y : Expansion)
    → add_items st its x ≡ ok y
    → Accepts (map (item_instance st) its) x y
unfolding add_items
add_items-Accepts st [] x y h = ok-injective h
add_items-Accepts st (it ∷ its) x y h = elim (Bool-cases (is_empty it.key)) [
  | inl e ↦ absurd (ok-ne-err (sym (rw e at h)))
  | inr e ↦ elim (Result-cases (add (item_instance st it) x)) [
    | inr (z, a) ↦ absurd (ok-ne-err (sym (rw (e, a) at h)))
    | inl (x', a) ↦
        let (fresh, pushed) = add_ok (item_instance st it) x x' a in
        let rest : add_items st its x' ≡ ok y = rw (e, a) at h in
        (
          fresh,
          e,
          subst (λ v. Accepts (map (item_instance st) its) v y) (sym pushed)
              (add_items-Accepts st its x' y rest),
        )
  ]
]

add_step-Accepts :
    (ctx : Context) (st : WizardStep) (x y : Expansion)
    → add_step ctx st x ≡ ok y
    → (is : List Instance) × (step_instances ctx st ≡ ok is) × Accepts is x y
unfolding add_step
add_step-Accepts ctx st x y h = elim (Bool-cases (is_empty st.for_each)) [
  | inl e ↦
      let (fresh, pushed) = add_ok (step_instance st) x y (rw e at h) in
      (step_instance st ∷ [], rw e, (fresh, tt, pushed))
  | inr e ↦ elim (Result-cases (resolve_list st.for_each ctx)) [
    | inr (z, a) ↦ absurd (ok-ne-err (sym (rw (e, a) at h)))
    | inl (its, a) ↦
        (map (item_instance st) its, rw (e, a), add_items-Accepts st its x y (rw (e, a) at h))
  ]
]

add_steps-Accepts :
    (ctx : Context) (sts : List WizardStep) (x y : Expansion)
    → add_steps ctx sts x ≡ ok y
    → (is : List Instance) × Planned ctx sts is × Accepts is x y
unfolding add_steps
add_steps-Accepts ctx [] x y h = ([], none_left, ok-injective h)
add_steps-Accepts ctx (st ∷ sts) x y h = elim (Result-cases (add_step ctx st x)) [
  | inr (z, a) ↦ absurd (ok-ne-err (sym (rw (a, add_steps) at h)))
  | inl (x', a) ↦
      let (is, made, accepted) = add_step-Accepts ctx st x x' a in
      let (rest, plan, later) = add_steps-Accepts ctx sts x' y (rw (a, add_steps) at h) in
      (is ++ rest, planned made plan refl, Accepts-append is rest x x' y accepted later)
]

-- A plan that `Expand` makes holds the instances of the definition's steps in order, those of a
-- forEach in the order of its items; no two of them have the same key, and no item is empty.
pub expand-Planned :
    (def : WizardDefinitionSpec) (values : Assoc Value) (is : List Instance)
    → expand def values ≡ ok is
    → Planned (values_only values) def.steps is × DistinctKeys is × All (λ i. HasItem i.item) is
unfolding expand
expand-Planned def values is h =
    elim (Result-cases
      (add_steps (values_only values) def.steps (record { seen = []; out = [] }))) [
        | inr (z, a) ↦ absurd (ok-ne-err (sym (rw a at h)))
        | inl (y, a) ↦
            let (js, plan, accepted) = add_steps-Accepts (values_only values) def.steps _ y a in
            let same : js ≡ is = sym (out-Accepts js _ y accepted) ∙ ok-injective (rw a at h) in
            subst
              (λ l.
                Planned (values_only values) def.steps l
                × DistinctKeys l
                × All (λ i. HasItem i.item) l)
              same (plan, Accepts-DistinctKeys js _ y accepted, Accepts-HasItem js _ y accepted)
      ]
