-- ===== src/Steps/Ensure/WriteAhead.antt =====
-- The ledger is written before the resource is created.
use fusion_wizard.Prelude.{
  ℕ, zero, suc, ◌≡◌, refl, ◌∙◌, ap, inl, inr, Bool, true, false, Option, none, some, Text, fun_ext,
  Bool-cases,
}
use fusion_wizard.Errors.{Error, is_err_exists, is_err_not_found}
use fusion_wizard.Api.Resource.{WizardResource}
use fusion_wizard.Api.Run.{ManagedResourceRef}
use fusion_wizard.Action.{Result, ok, err, Action, continue}
use fusion_wizard.Cluster.{Cluster}
use fusion_wizard.Ledger.{Key, get, has_ref}
use fusion_wizard.Ledger.Entry.{new_spec_lem}
use fusion_wizard.Ledger.Laws.{ClusterLaws}
use fusion_wizard.Ledger.Outcomes.{register_ok, add_ref-Added, Known-held}
use fusion_wizard.Steps.Step.{Input}
use fusion_wizard.Steps.Ensure.{
  Managed, Existing, own_ref, ensure, ensure_loop, round, by_presence, missing, create_recorded,
  is_doomed,
}

module _ {W : Type 0} (c : Cluster W) (entries : W → Text → Option WizardResource)
    (laws : ClusterLaws c entries) (object_name : Key → Text) (input : Input) (m : Managed W)
    (create' : Action W Text) where
  -- The ledger holds or has held a managed entry of the resource, not being deleted, with the
  -- step's reference.
  abbrev pub IsRecorded : W → Type 0
  IsRecorded w =
      (e : WizardResource) × laws.held w e
      × (e.object_name ≡ object_name m.key)
      × (has_ref e.spec.refs (own_ref input) ≡ true)
      × (e.spec.managed ≡ true)
      × (e.spec.terminating ≡ false)

  abbrev other : Managed W
  other = record m { create = create' }

  module _ (agree : (w : W) → IsRecorded w → m.create w ≡ create' w) where
    create_recorded-agree :
        (again : Action W ManagedResourceRef) (lost : Error → Bool) (r : Result WizardResource)
        (w : W)
        → ((e : WizardResource) → r ≡ ok e → IsRecorded w)
        → create_recorded c object_name input m again lost r w
          ≡ create_recorded c object_name input other again lost r w
    unfolding create_recorded
    create_recorded-agree again lost (err x) w h = refl
    create_recorded-agree again lost (ok e) w h = rw (agree w (h e refl))

    missing-agree :
        (again : Action W ManagedResourceRef) (entry : Option WizardResource) (w : W)
        → missing c object_name input m again entry w
          ≡ missing c object_name input other again entry w
    unfolding missing
    missing-agree again none w = create_recorded-agree again is_err_exists _ _ (λ e h.
        let (past, named, spec) =
          register_ok c entries laws object_name m.key (own_ref input) _ w e h in
        let (has, managed, live) = new_spec_lem m.key (own_ref input) _ in
        (
          e,
          past,
          named,
          ap (λ s. has_ref s.refs (own_ref input)) spec ∙ has,
          ap (λ s. s.managed) spec ∙ managed,
          ap (λ s. s.terminating) spec ∙ live,
        ))
    missing-agree again (some e) w = create_recorded-agree again is_err_not_found _ _ (λ e' h.
        let a = add_ref-Added c entries laws object_name m.key (own_ref input) _ w e' h in
        (
          a.entry,
          Known-held c entries laws object_name _ a.entry _ a.known,
          a.named,
          a.has,
          a.managed refl,
          a.live,
        ))

    by_presence-agree :
        (again : Action W ManagedResourceRef) (entry : Option WizardResource) (ex : Option Existing)
        (w : W)
        → by_presence c object_name input m again entry ex w
          ≡ by_presence c object_name input other again entry ex w
    unfolding by_presence
    by_presence-agree again entry (some ex) w = refl
    by_presence-agree again entry none w = missing-agree again entry w

    continue-agree :
        {A B : Type 0} (r : Result A) (f g : A → Action W B) (w : W)
        → ((a : A) → f a w ≡ g a w)
        → continue r f w ≡ continue r g w
    continue-agree (ok a) f g w h = h a
    continue-agree (err x) f g w h = refl

    round-agree :
        (again : Action W ManagedResourceRef) (entry : Option WizardResource) (w : W)
        → round c object_name input m again entry w ≡ round c object_name input other again entry w
    unfolding round
    round-agree again entry w = elim (Bool-cases (is_doomed entry)) [
      | inl e ↦ rw e
      | inr e ↦ rw e (
          continue-agree (m.find w).0 _ _ (m.find w).1
            (λ ex. by_presence-agree again entry ex (m.find w).1))
    ]

    ensure_loop-agree :
        (n : ℕ) → ensure_loop c object_name input m n ≡ ensure_loop c object_name input other n
    unfolding ensure_loop
    ensure_loop-agree zero = refl
    ensure_loop-agree (suc n) = fun_ext λ w.
        continue-agree (get c object_name m.key w).0 _ _ (get c object_name m.key w).1 (λ entry.
          round-agree (ensure_loop c object_name input m n) entry (get c object_name m.key w).1
          ∙ ap (λ again. round c object_name input other again entry (get c object_name m.key w).1)
              (ensure_loop-agree n))

    -- `ensure` creates the resource only after the ledger was written: in a world in which it holds
    -- or has held a managed entry of the resource with the step's own reference, not being deleted.
    -- A `Create` that differs in any other world makes no difference to it.
    pub ensure_write_ahead :
        ensure c object_name input m ≡ ensure c object_name input (record m { create = create' })
    unfolding ensure
    ensure_write_ahead = ensure_loop-agree 5
