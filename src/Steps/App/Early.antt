-- ===== src/Steps/App/Early.antt =====
-- Checking an app's params before all of them are known.
use fusion_wizard.Prelude.{
  ◌≡◌, refl, ◌∙◌, ap, ◌⊎◌, inl, inr, Bool, true, false, not, ◌&&◌, ◌||◌, Option, none, some, List,
  Text, codes, Assoc, text_eq, is_empty, arith, String, if◌then◌else◌,
}
use fusion_wizard.Errors.{Error, format, end, text_arg}
use fusion_wizard.Action.{Result}
use fusion_wizard.Api.Definition.{
  StepType, git_watcher, wait_build, tag, app, job_template, service_template, chain, trigger,
  batch_trigger, unknown_type,
}
use fusion_wizard.Steps.App.{
  value, pending_value, is_known, first, AppEntrypoint, check_port, check_absent, check_code,
  check_auth, check_entrypoints, check_kind_params, check_parts, permanentf, check_app,
  validate_app_params,
}

-- The second value is the first, or not known yet.
abbrev pub Hides : Text → Text → Type 0
Hides v v' = (v' ≡ v) ⊎ (v' ≡ pending_value)

-- A check that passes a value also passes when the value is not known, where it passes then.
hide :
    (check : Text → Option Error) (v v' : Text)
    → (check v ≡ none → check pending_value ≡ none)
    → Hides v v'
    → check v ≡ none
    → check v' ≡ none
hide check v v' h (inl e) c = ap check e ∙ c
hide check v v' h (inr e) c = ap check e ∙ h c

first_none : (a b : Option Error) → first a b ≡ none → (a ≡ none) × (b ≡ none)
first_none none b h = (refl, h)
first_none (some x) b h = cc

first_both : (a b : Option Error) → a ≡ none → b ≡ none → first a b ≡ none
first_both a b h k = rw h k

absent_hidden : (only : String) (k : Text) → check_absent only k pending_value ≡ none
unfolding check_absent text_eq
absent_hidden only k = refl

port_hidden : check_port pending_value ≡ none
unfolding check_port text_eq
port_hidden = refl

code_hidden_artifact : (t i : Text) → check_code pending_value t i ≡ none
unfolding check_code text_eq
code_hidden_artifact t i = refl

code_hidden_tag : (a i : Text) → check_code a pending_value i ≡ none
unfolding check_code text_eq
code_hidden_tag a i = ground arith

without_image :
    (known differ bare image : Bool) (y : Error) (v v' : Option Error)
    → (if known then (if differ then some y else if bare && image then v else none) else none)
      ≡ none
    → (if known then (if differ then some y else if bare && false then v' else none) else none)
      ≡ none
without_image false d b i y v v' h = refl
without_image true true b i y v v' h = cc
without_image true false true i y v v' h = refl
without_image true false false i y v v' h = refl

code_hidden_image : (a t i : Text) → check_code a t i ≡ none → check_code a t pending_value ≡ none
unfolding check_code text_eq
code_hidden_image a t i h = without_image _ _ (is_empty a) (is_known i) _ _ _ h

auth_hidden_mode : (b : Bool) (n : Text) → check_auth b pending_value n ≡ none
unfolding check_auth text_eq
auth_hidden_mode b n = refl

auth_hidden_name : (b : Bool) (m : Text) → check_auth b m pending_value ≡ none
unfolding check_auth text_eq
auth_hidden_name b m = ground arith

under_ifs :
    (a b : Bool) (y : Error) (v v' : Option Error)
    → (v ≡ none → v' ≡ none)
    → (if a then none else if b then some y else v) ≡ none
    → (if a then none else if b then some y else v') ≡ none
under_ifs true b y v v' h c = refl
under_ifs false true y v v' h c = cc
under_ifs false false y v v' h c = h c

or_true : (a : Bool) → a || true ≡ true
or_true true = refl
or_true false = refl

absent_same :
    (p p' : Assoc Text) (only : String) (k : Text)
    → ((k : Text) → Hides (value p k) (value p' k))
    → check_absent only k (value p k) ≡ none
    → check_absent only k (value p' k) ≡ none
absent_same p p' only k h c =
    hide (check_absent only k) (value p k) (value p' k) (λ _. absent_hidden only k) (h k) c

-- Either value of a pair may become unknown.
module _ (check : Text → Text → Option Error) (left : (b : Text) → check pending_value b ≡ none)
    (right : (a : Text) → check a pending_value ≡ none) where
  hide_both : (a b a' b' : Text) → Hides a a' → Hides b b' → check a b ≡ none → check a' b' ≡ none
  hide_both a b a' b' h k c =
      hide (check a') b b' (λ _. right a') k (hide (λ v. check v b) a a' (λ _. left b) h c)

code_hidden :
    (a t i a' t' i' : Text)
    → Hides a a'
    → Hides t t'
    → Hides i i'
    → check_code a t i ≡ none
    → check_code a' t' i' ≡ none
code_hidden a t i a' t' i' h k l c = hide (check_code a' t') i i' (code_hidden_image a' t' i) l (
    hide_both (λ a t. check_code a t i) (λ t. code_hidden_artifact t i) (λ a. code_hidden_tag a i) a
      t a' t' h k c)

module _ (decode_entrypoints : Text → Result (List AppEntrypoint)) where
  list_hidden : (s f : Text) → check_entrypoints decode_entrypoints pending_value s f ≡ none
  unfolding check_entrypoints text_eq
  list_hidden s f = refl

  schedule_hidden : (e f : Text) → check_entrypoints decode_entrypoints e pending_value f ≡ none
  unfolding check_entrypoints text_eq
  schedule_hidden e f = rw (or_true (not (is_known e))) refl

  fire_hidden : (e s : Text) → check_entrypoints decode_entrypoints e s pending_value ≡ none
  unfolding check_entrypoints text_eq
  fire_hidden e s = rw (or_true (not (is_known e) || not (is_known s))) refl

  entrypoints_hidden :
      (e s f e' s' f' : Text)
      → Hides e e'
      → Hides s s'
      → Hides f f'
      → check_entrypoints decode_entrypoints e s f ≡ none
      → check_entrypoints decode_entrypoints e' s' f' ≡ none
  entrypoints_hidden e s f e' s' f' h k l c =
      hide (check_entrypoints decode_entrypoints e' s') f f' (λ _. fire_hidden e' s') l
        (hide_both (λ e s. check_entrypoints decode_entrypoints e s f) (λ s. list_hidden s f)
          (λ e. schedule_hidden e f) e s e' s' h k c)

  kind_hidden :
      (service : Bool) (p p' : Assoc Text)
      → ((k : Text) → Hides (value p k) (value p' k))
      → check_kind_params decode_entrypoints service p ≡ none
      → check_kind_params decode_entrypoints service p' ≡ none
  unfolding check_kind_params
  kind_hidden true p p' h c =
      let (e, c1) = first_none _ _ c in
      let (s, c2) = first_none _ _ c1 in
      let (f, port) = first_none _ _ c2 in
      first_both _ _ (absent_same p p' _ (codes "entrypoints") h e) (
        first_both _ _ (absent_same p p' _ (codes "schedule") h s) (
          first_both _ _ (absent_same p p' _ (codes "fireOnCreate") h f)
            (hide check_port _ _ (λ _. port_hidden) (h (codes "port")) port)))
  kind_hidden false p p' h c =
      let (port, c1) = first_none _ _ c in
      let (ingress, rest) = first_none _ _ c1 in
      first_both _ _ (absent_same p p' _ (codes "port") h port) (
        first_both _ _ (absent_same p p' _ (codes "ingressName") h ingress) (
          entrypoints_hidden _ _ _ _ _ _ (h (codes "entrypoints")) (h (codes "schedule"))
            (h (codes "fireOnCreate")) rest))

  auth_hidden :
      (service : Bool) (m n m' n' : Text)
      → Hides m m'
      → Hides n n'
      → check_auth service m n ≡ none
      → check_auth service m' n' ≡ none
  auth_hidden service m n m' n' h k c =
      hide_both (check_auth service) (auth_hidden_mode service) (auth_hidden_name service) m n m' n'
        h k c

  parts_hidden :
      (service : Bool) (p p' : Assoc Text)
      → ((k : Text) → Hides (value p k) (value p' k))
      → check_parts decode_entrypoints service p ≡ none
      → check_parts decode_entrypoints service p' ≡ none
  unfolding check_parts
  parts_hidden service p p' h c =
      let (code, c1) = first_none _ _ c in
      let (auth, kind) = first_none _ _ c1 in
      first_both _ _
        (code_hidden _ _ _ _ _ _ (h (codes "artifactName")) (h (codes "tag")) (h (codes "image"))
          code)
        (first_both _ _
          (auth_hidden service _ _ _ _ (h (codes "externalAuthMode")) (h (codes "externalAuthName"))
            auth)
          (kind_hidden service p p' h kind))

  app_hidden :
      (type : Text) (p p' : Assoc Text)
      → ((k : Text) → Hides (value p k) (value p' k))
      → check_app decode_entrypoints type p ≡ none
      → check_app decode_entrypoints type p' ≡ none
  unfolding check_app
  app_hidden type p p' h c =
      let service = text_eq type (codes "service") in
      under_ifs (not (is_known type)) (not service && not (text_eq type (codes "job")))
        (permanentf
          (format "app type %q is not supported (use service or job)" (text_arg type end)))
        (check_parts decode_entrypoints service p) (check_parts decode_entrypoints service p')
        (parts_hidden service p p' h) c

  type_hidden : (p : Assoc Text) → check_app decode_entrypoints pending_value p ≡ none
  unfolding check_app text_eq
  type_hidden p = refl

  -- The early check never refuses what the later one accepts: params that `ValidateAppParams`
  -- accepts are also accepted when any of their values are not known yet.
  pub validate_app_params_hidden :
      (type : StepType) (p p' : Assoc Text)
      → ((k : Text) → Hides (value p k) (value p' k))
      → validate_app_params decode_entrypoints type p ≡ none
      → validate_app_params decode_entrypoints type p' ≡ none
  unfolding validate_app_params
  validate_app_params_hidden app p p' h c =
      hide (λ type. check_app decode_entrypoints type p') (value p (codes "type"))
        (value p' (codes "type")) (λ _. type_hidden p') (h (codes "type"))
        (app_hidden (value p (codes "type")) p p' h c)
  validate_app_params_hidden git_watcher p p' h c = refl
  validate_app_params_hidden wait_build p p' h c = refl
  validate_app_params_hidden tag p p' h c = refl
  validate_app_params_hidden job_template p p' h c = refl
  validate_app_params_hidden service_template p p' h c = refl
  validate_app_params_hidden chain p p' h c = refl
  validate_app_params_hidden trigger p p' h c = refl
  validate_app_params_hidden batch_trigger p p' h c = refl
  validate_app_params_hidden (unknown_type t) p p' h c = refl
