-- ===== src/Ledger/Outcomes.antt =====
-- What a successful call of the ledger leaves behind.
use fusion_wizard.Prelude.{
  ◌≡◌, ◌≢◌, refl, sym, ◌∙◌, ap, subst, ◌⊎◌, inl, inr, Bool, true, false, not, Option, none, some,
  List, [], ◌∷◌, Text, is_empty, arith, if-rule,
}
use fusion_wizard.Api.Resource.{ResourceReference, WizardResourceSpec, WizardResource}
use fusion_wizard.Action.{Result, ok, err, Action, bind-ok, ok-injective}
use fusion_wizard.Cluster.{Cluster}
use fusion_wizard.Ledger.{
  Key, AddOptions, NewEntry, new_spec, new_object, register, Outcome, outcome_gone, outcome_shared,
  outcome_released, outcome_delete, has_ref, add_ref_spec, add_ref_change, release_spec, get,
  write_back, write_added, add_ref_to, add_ref_attempt, add_ref, delete_if_there, settle,
  release_from, release_attempt, release,
}
use fusion_wizard.Ledger.Entry.{
  has_ref-add_ref_spec, release_spec_marks, without, refs-release_spec, managed-release_spec,
  terminating-add_ref_spec, managed-add_ref_spec, eq-nil, add_ref_change_ok,
}
use fusion_wizard.Ledger.Laws.{Attempts, last, again, ClusterLaws}
use fusion_wizard.Ledger.Guarantee.{
  get-some, exists_if_taken_ok, exists_if_taken_world, ignore_missing_world, ignore_missing_ok,
}

-- a change that reports that nothing changed left the entry as it was
add_ref_spec_unchanged :
    (ref : ResourceReference) (opts : AddOptions) (s : WizardResourceSpec)
    → (add_ref_spec ref opts s).1 ≡ false
    → (add_ref_spec ref opts s).0 ≡ s
unfolding add_ref_spec
add_ref_spec_unchanged ref opts s h = ground arith

release_spec_unchanged :
    (ref : ResourceReference) (s : WizardResourceSpec)
    → (release_spec ref s).1 ≡ false
    → (release_spec ref s).0 ≡ s
unfolding release_spec
release_spec_unchanged ref s h = ground arith

module _ {W : Type 0} (c : Cluster W) (entries : W → Text → Option WizardResource)
    (laws : ClusterLaws c entries) (object_name : Key → Text) where
  -- The server holds the entry; or nothing was written, and it holds it or has held it.
  abbrev pub Known : Bool → WizardResource → W → Type 0
  Known changed e w = (entries w e.object_name ≡ some e) ⊎ ((changed ≡ false) × laws.held w e)

  pub Known-held : (changed : Bool) (e : WizardResource) (w : W) → Known changed e w → laws.held w e
  Known-held changed e w (inl there) = laws.held_now w e there
  Known-held changed e w (inr (same, past)) = past

  write_back_ok :
      (e e' : WizardResource) (p : WizardResourceSpec × Bool) (w : W)
      → laws.held w e
      → (p.1 ≡ false → p.0 ≡ e.spec)
      → (write_back c object_name e p w).0 ≡ ok e'
      → Known p.1 e' (write_back c object_name e p w).1
        × (e'.spec ≡ p.0)
        × (e'.object_name ≡ e.object_name)
  unfolding write_back
  write_back_ok e e' (s, false) w h same r =
      let kept : record e { spec = s } ≡ e = ap (λ t. record e { spec = t }) (same refl) in
      let found : record e { spec = s } ≡ e' = ok-injective r in
      let known : e ≡ e' = sym kept ∙ found in
      (
        inr (refl, subst (laws.held w) known h),
        ap (λ x. x.spec) (sym found),
        ap (λ x. x.object_name) (sym known),
      )
  write_back_ok e e' (s, true) w h same r =
      let (put, spec, named) = laws.update_ok e e' s w h r in
      (inl (ap (entries _) named ∙ put.after), spec, named)

  -- The state in which `AddRef` ends well: the entry that it returns has the reference and is not
  -- being deleted, and is managed if the options ask for it; it is what the server holds, or it was
  -- read from the cache as it is, there being nothing to change, and the server holds it or has
  -- held it.
  pub record Added (k : Key) (ref : ResourceReference) (opts : AddOptions)
      (p : Result WizardResource × W) : Type 0 where
    pub entry : WizardResource
    pub returned : p.0 ≡ ok entry
    pub named : entry.object_name ≡ object_name k
    pub known : Known (add_ref_spec ref opts entry.spec).1 entry p.1
    pub live : entry.spec.terminating ≡ false
    pub has : has_ref entry.spec.refs ref ≡ true
    pub managed : opts.manage ≡ true → entry.spec.managed ≡ true

  -- A change that changes nothing changes nothing again.
  Known-again :
      (change : WizardResourceSpec → WizardResourceSpec × Bool)
      → ((s : WizardResourceSpec) → (change s).1 ≡ false → (change s).0 ≡ s)
      → (s : WizardResourceSpec) (e : WizardResource) (w : W) → e.spec ≡ (change s).0
      → Known (change s).1 e w
      → Known (change e.spec).1 e w
  Known-again change same s e w h (inl there) = inl there
  Known-again change same s e w h (inr (kept, past)) =
      inr (ap (λ t. (change t).1) (h ∙ same s kept) ∙ kept, past)

  write_added-Added :
      (k : Key) (ref : ResourceReference) (opts : AddOptions) (e : WizardResource) (w : W)
      (e' : WizardResource) (r : Result (WizardResourceSpec × Bool))
      → add_ref_change ref opts e.spec ≡ r
      → laws.held w e
      → e.object_name ≡ object_name k
      → (write_added c object_name e r w).0 ≡ ok e'
      → Added k ref opts (write_added c object_name e r w)
  unfolding write_added
  write_added-Added k ref opts e w e' (err x) q h named r = cc
  write_added-Added k ref opts e w e' (ok p) q h named r =
      let (t, is) = add_ref_change_ok ref opts e.spec p q in
      let done = ap (λ p. (write_back c object_name e p w).0) (sym is) ∙ r in
      let (known, spec, named') =
        write_back_ok e e' (add_ref_spec ref opts e.spec) w h
          (add_ref_spec_unchanged ref opts e.spec) done in
      rw is (record {
        entry = e';
        returned = done;
        named = named' ∙ named;
        known =
            Known-again (add_ref_spec ref opts) (add_ref_spec_unchanged ref opts) e.spec e' _ spec
              known;
        live = ap (λ x. x.terminating) spec ∙ terminating-add_ref_spec ref opts e.spec ∙ t;
        has = ap (λ x. has_ref x.refs ref) spec ∙ has_ref-add_ref_spec ref opts e.spec;
        managed = λ q. ap (λ x. x.managed) spec ∙ managed-add_ref_spec ref opts e.spec ∙ rw q;
      })

  add_ref_to-Added :
      (k : Key) (ref : ResourceReference) (opts : AddOptions) (o : Option WizardResource) (w : W)
      (e' : WizardResource)
      → ((e : WizardResource) → o ≡ some e → laws.held w e × (e.object_name ≡ object_name k))
      → (add_ref_to c object_name ref opts o w).0 ≡ ok e'
      → Added k ref opts (add_ref_to c object_name ref opts o w)
  unfolding add_ref_to
  add_ref_to-Added k ref opts none w e' h = λ r. cc
  add_ref_to-Added k ref opts (some e) w e' h = λ r.
      let (past, named) = h e refl in
      write_added-Added k ref opts e w e' (add_ref_change ref opts e.spec) refl past named r

  add_ref_attempt-Added :
      (k : Key) (ref : ResourceReference) (opts : AddOptions) (w : W) (e : WizardResource)
      → (add_ref_attempt c object_name k ref opts w).0 ≡ ok e
      → Added k ref opts (add_ref_attempt c object_name k ref opts w)
  unfolding add_ref_attempt
  add_ref_attempt-Added k ref opts w e h =
      let (o, got, rest) = bind-ok (get c object_name k) _ w h in
      rw rest (
        add_ref_to-Added k ref opts o _ e
          (λ e' q. get-some c entries laws object_name k w e' (got ∙ ap ok q))
          (ap (λ p. p.0) (sym rest) ∙ h))

  -- The rule of `RetryOnConflict`: `I` holds before every attempt, and `P` after the last.
  Attempts-rule :
      {A : Type 0} (I : W → Type 0) (P : Result A × W → Type 0) (f : Action W A)
      → ((v : W) → I v → I (f v).1)
      → ((v : W) (a : A) → I v → (f v).0 ≡ ok a → P (f v))
      → (w : W) (p : Result A × W) (a : A) → Attempts f w p
      → I w
      → p.0 ≡ ok a
      → P p
  Attempts-rule I P f keep h w p a (last e) i r = rw e (h w a i (ap (λ q. q.0) (sym e) ∙ r))
  Attempts-rule I P f keep h w p a (again t _ rest) i r =
      Attempts-rule I P f keep h (f w).1 p a rest (keep w i) r

  pub add_ref-Added :
      (k : Key) (ref : ResourceReference) (opts : AddOptions) (w : W) (e : WizardResource)
      → (add_ref c object_name k ref opts w).0 ≡ ok e
      → Added k ref opts (add_ref c object_name k ref opts w)
  unfolding add_ref
  add_ref-Added k ref opts w e = λ r.
      Attempts-rule (λ v. Unit {0}) (Added k ref opts) _ (λ v i. tt)
        (λ v a i. add_ref_attempt-Added k ref opts v a) w _ e
        (laws.retried (add_ref_attempt c object_name k ref opts) w) tt r

  -- A registered entry is held as it was made, under the name of its key.
  pub register_ok :
      (k : Key) (ref : ResourceReference) (n : NewEntry) (w : W) (e : WizardResource)
      → (register c object_name k ref n w).0 ≡ ok e
      → laws.held (register c object_name k ref n w).1 e
        × (e.object_name ≡ object_name k)
        × (e.spec ≡ new_spec k ref n)
  unfolding register
  register_ok k ref n w e h =
      let (put, spec, named) =
        laws.create_ok (new_object c object_name k ref n) e w
          (exists_if_taken_ok c object_name _ _ e h) in
      rw (exists_if_taken_world c object_name _ _)
        (laws.held_now _ e (ap (entries _) named ∙ put.after), named, spec)

  -- The entry is one that the server held, less the reference.
  abbrev pub LessRef : Key → ResourceReference → WizardResource → Type 0
  LessRef k ref e =
      (s : WizardResource) × (v : W) × laws.held v s
      × (s.object_name ≡ object_name k)
      × (e.spec.refs ≡ without s.spec.refs ref)
      × (e.spec.managed ≡ s.spec.managed)

  -- What each outcome of `Release` says of the entry that it returns: of a shared one that another
  -- reference is left; of a released one that it is gone from the server, and was marked, unmanaged
  -- and without references; of one to be deleted that it is marked, managed and without
  -- references. It is one that the server held, less the reference. A shared entry or one to be
  -- deleted the server holds, or it was read as it is and the server holds it or has held it.
  abbrev pub Settled : Key → ResourceReference → Outcome × Option WizardResource → W → Type 0
  Settled k ref (outcome_gone, none) w = Unit
  Settled k ref (outcome_shared, some e) w =
      (e.object_name ≡ object_name k)
      × LessRef k ref e
      × (e.spec.refs ≢ [])
      × Known (release_spec ref e.spec).1 e w
  Settled k ref (outcome_released, some e) w =
      (entries w (object_name k) ≡ none)
      × LessRef k ref e
      × (e.spec.refs ≡ [])
      × (e.spec.terminating ≡ true)
      × (e.spec.managed ≡ false)
  Settled k ref (outcome_delete, some e) w =
      (e.object_name ≡ object_name k)
      × LessRef k ref e
      × (e.spec.refs ≡ [])
      × (e.spec.terminating ≡ true)
      × (e.spec.managed ≡ true)
      × Known (release_spec ref e.spec).1 e w
  Settled k ref (_, _) w = ⊥

  returned-rule :
      {A : Type 0} (P : A → W → Type 0) {p : Result A × W} {a b : A} {w : W}
      → p ≡ (ok a, w)
      → p.0 ≡ ok b
      → P a w
      → P b p.1
  returned-rule P {p} {a} e r h =
      subst (λ x. P x p.1) (ok-injective (ap (λ x. x.0) (sym e) ∙ r))
        (subst (λ x. P a x) (ap (λ x. x.1) (sym e)) h)

  ne-nil : (refs : List ResourceReference) → true ≡ not (is_empty refs) → refs ≢ []
  ne-nil [] h = λ e. cc
  ne-nil (x ∷ xs) h = λ e. cc

  pub delete_if_there_ok :
      (n : Text) (w : W) (u : Unit {0})
      → (delete_if_there c object_name n w).0 ≡ ok u
      → entries (delete_if_there c object_name n w).1 n ≡ none
  unfolding delete_if_there
  delete_if_there_ok n w u h =
      rw (ignore_missing_world c object_name (c.delete_object n w).0 (c.delete_object n w).1)
        (elim (ignore_missing_ok c object_name _ _ u h) [
          | inl r ↦ laws.delete_ok n w tt r
          | inr (t, r) ↦ laws.delete_missing n w t r
        ])

  settle-Settled :
      (k : Key) (ref : ResourceReference) (shared : Bool) (e : WizardResource) (w : W)
      (q : Outcome × Option WizardResource)
      → e.object_name ≡ object_name k
      → LessRef k ref e
      → Known (release_spec ref e.spec).1 e w
      → (is_empty e.spec.refs ≡ true → e.spec.terminating ≡ true)
      → shared ≡ not (is_empty e.spec.refs)
      → (settle c object_name shared e w).0 ≡ ok q
      → Settled k ref q (settle c object_name shared e w).1
  unfolding settle
  settle-Settled k ref true e w q named less known marks sh = λ r.
      subst (λ x. Settled k ref x w) (ok-injective r) (named, less, ne-nil e.spec.refs sh, known)
  settle-Settled k ref false e w q named less known marks sh =
      let empty : is_empty e.spec.refs ≡ true = ground arith in
      if-rule
        (λ (m : Action W (Outcome × Option WizardResource)).
          (m w).0 ≡ ok q → Settled k ref q (m w).1)
        e.spec.managed _ _
        (λ m r.
          subst (λ x. Settled k ref x w) (ok-injective r)
            (named, less, eq-nil e.spec.refs empty, marks empty, m, known))
        (λ m r.
          let (u, done, rest) = bind-ok (delete_if_there c object_name e.object_name) _ w r in
          returned-rule (Settled k ref) rest r (
            ap (entries _) (sym named) ∙ delete_if_there_ok e.object_name w u done,
            less,
            eq-nil e.spec.refs empty,
            marks empty,
            m,
          ))

  release_from-Settled :
      (k : Key) (ref : ResourceReference) (o : Option WizardResource) (w : W)
      (q : Outcome × Option WizardResource)
      → ((e : WizardResource) → o ≡ some e → laws.held w e × (e.object_name ≡ object_name k))
      → (release_from c object_name ref o w).0 ≡ ok q
      → Settled k ref q (release_from c object_name ref o w).1
  unfolding release_from
  release_from-Settled k ref none w q h r = subst (λ x. Settled k ref x w) (ok-injective r) tt
  release_from-Settled k ref (some e) w q h r =
      let (past, named) = h e refl in
      let (e', written, rest) =
        bind-ok (write_back c object_name e (release_spec ref e.spec)) _ w r in
      let (known, spec, named') =
        write_back_ok e e' (release_spec ref e.spec) w past (release_spec_unchanged ref e.spec)
          written in
      subst (λ x. Settled k ref q x.1) (sym rest)
        (settle-Settled k ref _ e' _ q (named' ∙ named)
          (
            e,
            w,
            past,
            named,
            ap (λ x. x.refs) spec ∙ refs-release_spec ref e.spec,
            ap (λ x. x.managed) spec ∙ managed-release_spec ref e.spec,
          )
          (Known-again (release_spec ref) (release_spec_unchanged ref) e.spec e' _ spec known)
          (λ empty.
            ap (λ x. x.terminating) spec
            ∙ release_spec_marks ref e.spec (ap (λ x. is_empty x.refs) (sym spec) ∙ empty))
          (ap (λ x. not (is_empty x.refs)) (sym spec)) (ap (λ x. x.0) (sym rest) ∙ r))

  release_attempt-Settled :
      (k : Key) (ref : ResourceReference) (w : W) (q : Outcome × Option WizardResource)
      → (release_attempt c object_name k ref w).0 ≡ ok q
      → Settled k ref q (release_attempt c object_name k ref w).1
  unfolding release_attempt
  release_attempt-Settled k ref w q r =
      let (o, got, rest) = bind-ok (get c object_name k) _ w r in
      subst (λ x. Settled k ref q x.1) (sym rest)
        (release_from-Settled k ref o _ q
          (λ e h. get-some c entries laws object_name k w e (got ∙ ap ok h))
          (ap (λ x. x.0) (sym rest) ∙ r))

  pub release-Settled :
      (k : Key) (ref : ResourceReference) (w : W) (q : Outcome × Option WizardResource)
      → (release c object_name k ref w).0 ≡ ok q
      → Settled k ref q (release c object_name k ref w).1
  unfolding release
  release-Settled k ref w q r =
      Attempts-rule (λ v. Unit {0}) (λ p. p.0 ≡ ok q → Settled k ref q p.1) _ (λ v i. tt)
        (λ v a i _ e. release_attempt-Settled k ref v q e) w _ q
        (laws.retried (release_attempt c object_name k ref) w) tt r r
