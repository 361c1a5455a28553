-- ===== src/Ledger/Guarantee.antt =====
-- Every operation of the ledger changes entries by the protocol's changes only, also where it
-- fails, is retried or runs among other clients.
use mathlib.Core.Option
use fusion_wizard.Prelude.{
  ◌≡◌, refl, ◌∙◌, ap, ◌⊎◌, inl, inr, Bool, true, false, not, Option, none, some, List, [], ◌∷◌,
  Text, text_eq, text_eq_iff, is_empty, Bool-cases, if-rule,
}
use fusion_wizard.Errors.{no_object, object_exists}
use fusion_wizard.Api.Resource.{ResourceReference, WizardResourceSpec, WizardResource}
use fusion_wizard.Action.{Result, Result-cases, ok, err, Action, continue, ◌>>=◌}
use fusion_wizard.Cluster.{Cluster}
use fusion_wizard.Ledger.{
  Key, NewEntry, AddOptions, Outcome, add_ref_change, release_spec, get, new_object, register,
  write_back, write_added, add_ref_to, add_ref_attempt, add_ref, delete_if_there, settle,
  release_from, release_attempt, release, finish_entry, finish, absent_if_missing, exists_if_taken,
  ignore_missing,
}
use fusion_wizard.Ledger.Protocol.{
  Live, Change, registered, changed, deleted, referenced, released, same, next, History-trans,
  IsSoundEntry, History-IsSound,
}
use fusion_wizard.Ledger.Laws.{spec_at, Moved, Put, Attempts, last, again, ClusterLaws}

-- A call of the ledger by some run.
pub data Call : Type 0 where
  call_register : Key → ResourceReference → NewEntry → Call
  call_add_ref : Key → ResourceReference → AddOptions → Call
  call_release : Key → ResourceReference → Call
  call_finish : Key → Call

module _ {W : Type 0} (entries : W → Text → Option WizardResource) where
  pub Moved-refl : (w : W) → Moved entries w w
  Moved-refl w n = same

  pub Moved-trans : (u v w : W) → Moved entries u v → Moved entries v w → Moved entries u w
  Moved-trans u v w h k n = History-trans (h n) (k n)

  Put-Moved :
      (w w' : W) (n : Text) (old new : Option WizardResource)
      → Put entries w w' n old new
      → Change (Option.map (λ e. e.spec) old) (Option.map (λ e. e.spec) new)
      → Moved entries w w'
  Put-Moved w w' n old new p c m = elim (Bool-cases (text_eq n m)) [
    | inl e ↦
        let same_name : n ≡ m = (text_eq_iff n m).0 e in
        rw (← same_name) (next (p.moved n) (rw (p.before, p.after) c))
    | inr e ↦ rw (p.others m e) (p.moved m)
  ]

module _ {W : Type 0} (entries : W → Text → Option WizardResource) {A B : Type 0} where
  continue-Moved :
      (r : Result A) (f : A → Action W B) (w : W)
      → ((a : A) → r ≡ ok a → Moved entries w (f a w).1)
      → Moved entries w (continue r f w).1
  continue-Moved (ok a) f w h = h a refl
  continue-Moved (err x) f w h = Moved-refl entries w

  pub bind-Moved :
      (m : Action W A) (f : A → Action W B) (w : W)
      → Moved entries w (m w).1
      → ((a : A) → (m w).0 ≡ ok a → Moved entries (m w).1 (f a (m w).1).1)
      → Moved entries w ((m >>= f) w).1
  bind-Moved m f w h k = Moved-trans entries w (m w).1 _ h (continue-Moved (m w).0 f (m w).1 k)

-- The helpers that look at an error change nothing, and what they pass on.
module _ {W : Type 0} (c : Cluster W) (object_name : Key → Text) where
  pub absent_if_missing_world :
      (r : Result WizardResource) (w : W) → (absent_if_missing c object_name r w).1 ≡ w
  unfolding absent_if_missing
  absent_if_missing_world (ok e) w = refl
  absent_if_missing_world (err (no_object t)) w = refl
  absent_if_missing_world (err _) w = refl

  absent_if_missing-some :
      (r : Result WizardResource) (w : W) (e : WizardResource)
      → (absent_if_missing c object_name r w).0 ≡ ok (some e)
      → r ≡ ok e
  unfolding absent_if_missing
  absent_if_missing-some (ok e') w e h = cc
  absent_if_missing-some (err (no_object t)) w e h = cc
  absent_if_missing-some (err _) w e h = cc

  pub exists_if_taken_world :
      (r : Result WizardResource) (w : W) → (exists_if_taken c object_name r w).1 ≡ w
  unfolding exists_if_taken
  exists_if_taken_world (ok e) w = refl
  exists_if_taken_world (err (object_exists t)) w = refl
  exists_if_taken_world (err _) w = refl

  pub exists_if_taken_ok :
      (r : Result WizardResource) (w : W) (e : WizardResource)
      → (exists_if_taken c object_name r w).0 ≡ ok e
      → r ≡ ok e
  unfolding exists_if_taken
  exists_if_taken_ok (ok e') w e h = h
  exists_if_taken_ok (err (object_exists t)) w e h = cc
  exists_if_taken_ok (err _) w e h = cc

  pub ignore_missing_world :
      (r : Result (Unit {0})) (w : W) → (ignore_missing c object_name r w).1 ≡ w
  unfolding ignore_missing
  ignore_missing_world (ok e) w = refl
  ignore_missing_world (err (no_object t)) w = refl
  ignore_missing_world (err _) w = refl

  pub ignore_missing_ok :
      (r : Result (Unit {0})) (w : W) (u : Unit {0})
      → (ignore_missing c object_name r w).0 ≡ ok u
      → (r ≡ ok tt) ⊎ ((t : Text) × (r ≡ err (no_object t)))
  unfolding ignore_missing
  ignore_missing_ok (ok tt) w u h = inl refl
  ignore_missing_ok (err (no_object t)) w u h = inr (t, refl)
  ignore_missing_ok (err _) w u h = cc

module _ {W : Type 0} (c : Cluster W) (entries : W → Text → Option WizardResource)
    (laws : ClusterLaws c entries) (object_name : Key → Text) where
  pub get-Moved : (k : Key) (w : W) → Moved entries w (get c object_name k w).1
  unfolding get
  get-Moved k w =
      rw
        (absent_if_missing_world c object_name (c.get_object (object_name k) w).0
          (c.get_object (object_name k) w).1)
        (laws.get_moved (object_name k) w)

  -- What `Get` answers the server holds or has held.
  pub get-some :
      (k : Key) (w : W) (e : WizardResource)
      → (get c object_name k w).0 ≡ ok (some e)
      → laws.held (get c object_name k w).1 e × (e.object_name ≡ object_name k)
  unfolding get
  get-some k w e h =
      rw
        (absent_if_missing_world c object_name (c.get_object (object_name k) w).0
          (c.get_object (object_name k) w).1)
        (laws.get_ok (object_name k) w e (absent_if_missing-some c object_name _ _ e h))

  write_back-Moved :
      (e : WizardResource) (p : WizardResourceSpec × Bool) (w : W)
      → laws.held w e
      → Live e.spec p.0
      → Moved entries w (write_back c object_name e p w).1
  unfolding write_back
  write_back-Moved e (s, false) w h l = Moved-refl entries w
  write_back-Moved e (s, true) w h l =
      elim (Result-cases (c.update_object (record e { spec = s }) w).0) [
        | inl (e', r) ↦
            let (put, spec, _) = laws.update_ok e e' s w h r in
            Put-Moved entries w _ e.object_name _ _ put (changed refl (ap some spec) l)
        | inr (x, r) ↦ elim (laws.update_err e s w x h r) [
          | inl moved ↦ moved
          | inr (e', put, spec) ↦
              Put-Moved entries w _ e.object_name _ _ put (changed refl (ap some spec) l)
        ]
      ]

  write_added-Moved :
      (ref : ResourceReference) (opts : AddOptions) (e : WizardResource) (w : W)
      (r : Result (WizardResourceSpec × Bool))
      → add_ref_change ref opts e.spec ≡ r
      → laws.held w e
      → Moved entries w (write_added c object_name e r w).1
  unfolding write_added
  write_added-Moved ref opts e w (err x) r h = Moved-refl entries w
  write_added-Moved ref opts e w (ok p) r h = write_back-Moved e p w h (referenced ref opts r refl)

  add_ref_to-Moved :
      (ref : ResourceReference) (opts : AddOptions) (o : Option WizardResource) (w : W)
      → ((e : WizardResource) → o ≡ some e → laws.held w e)
      → Moved entries w (add_ref_to c object_name ref opts o w).1
  unfolding add_ref_to
  add_ref_to-Moved ref opts none w h = Moved-refl entries w
  add_ref_to-Moved ref opts (some e) w h =
      write_added-Moved ref opts e w (add_ref_change ref opts e.spec) refl (h e refl)

  delete_if_there-Moved : (n : Text) (w : W) → Moved entries w (delete_if_there c object_name n w).1
  unfolding delete_if_there
  delete_if_there-Moved n w =
      rw (ignore_missing_world c object_name (c.delete_object n w).0 (c.delete_object n w).1)
        (elim (laws.delete_any n w) [
          | inl moved ↦ moved
          | inr (old, put) ↦ Put-Moved entries w _ n _ _ put (deleted refl)
        ])

  settle-Moved :
      (shared : Bool) (e : WizardResource) (w : W)
      → Moved entries w (settle c object_name shared e w).1
  unfolding settle
  settle-Moved true e w = Moved-refl entries w
  settle-Moved false e w =
      if-rule (λ (m : Action W (Outcome × Option WizardResource)). Moved entries w (m w).1)
        e.spec.managed _ _ (λ t. Moved-refl entries w)
        (λ t.
          bind-Moved entries (delete_if_there c object_name e.object_name) _ w
            (delete_if_there-Moved e.object_name w) (λ u r. Moved-refl entries _))

  release_from-Moved :
      (ref : ResourceReference) (o : Option WizardResource) (w : W)
      → ((e : WizardResource) → o ≡ some e → laws.held w e)
      → Moved entries w (release_from c object_name ref o w).1
  unfolding release_from
  release_from-Moved ref none w h = Moved-refl entries w
  release_from-Moved ref (some e) w h =
      bind-Moved entries (write_back c object_name e (release_spec ref e.spec)) _ w
        (write_back-Moved e (release_spec ref e.spec) w (h e refl) (released ref refl))
        (λ e' r. settle-Moved (not (is_empty (release_spec ref e.spec).0.refs)) e' _)

  pub read :
      (k : Key) (w : W) (o : Option WizardResource)
      → (get c object_name k w).0 ≡ ok o
      → (e : WizardResource) → o ≡ some e
      → laws.held (get c object_name k w).1 e
  read k w o r e h = (get-some k w e (r ∙ ap ok h)).0

  add_ref_attempt-Moved :
      (k : Key) (ref : ResourceReference) (opts : AddOptions) (w : W)
      → Moved entries w (add_ref_attempt c object_name k ref opts w).1
  unfolding add_ref_attempt
  add_ref_attempt-Moved k ref opts w =
      bind-Moved entries (get c object_name k) _ w (get-Moved k w)
        (λ o r. add_ref_to-Moved ref opts o _ (read k w o r))

  pub release_attempt-Moved :
      (k : Key) (ref : ResourceReference) (w : W)
      → Moved entries w (release_attempt c object_name k ref w).1
  unfolding release_attempt
  release_attempt-Moved k ref w =
      bind-Moved entries (get c object_name k) _ w (get-Moved k w)
        (λ o r. release_from-Moved ref o _ (read k w o r))

  Attempts-Moved :
      {A : Type 0} (f : Action W A) (w : W) (p : Result A × W)
      → ((v : W) → Moved entries v (f v).1)
      → Attempts f w p
      → Moved entries w p.1
  Attempts-Moved f w p h (last e) = rw e (h w)
  Attempts-Moved f w p h (again t _ rest) =
      Moved-trans entries w (f w).1 p.1 (h w) (Attempts-Moved f (f w).1 p h rest)

  pub add_ref-Moved :
      (k : Key) (ref : ResourceReference) (opts : AddOptions) (w : W)
      → Moved entries w (add_ref c object_name k ref opts w).1
  unfolding add_ref
  add_ref-Moved k ref opts w =
      Attempts-Moved _ w _ (add_ref_attempt-Moved k ref opts)
        (laws.retried (add_ref_attempt c object_name k ref opts) w)

  pub release-Moved :
      (k : Key) (ref : ResourceReference) (w : W)
      → Moved entries w (release c object_name k ref w).1
  unfolding release
  release-Moved k ref w =
      Attempts-Moved _ w _ (release_attempt-Moved k ref)
        (laws.retried (release_attempt c object_name k ref) w)

  finish_entry-Moved :
      (o : Option WizardResource) (w : W) → Moved entries w (finish_entry c object_name o w).1
  unfolding finish_entry
  finish_entry-Moved none w = Moved-refl entries w
  finish_entry-Moved (some e) w = delete_if_there-Moved e.object_name w

  pub finish-Moved : (k : Key) (w : W) → Moved entries w (finish c object_name k w).1
  unfolding finish
  finish-Moved k w =
      bind-Moved entries (get c object_name k) _ w (get-Moved k w) (λ o r. finish_entry-Moved o _)

  pub register-Moved :
      (k : Key) (ref : ResourceReference) (n : NewEntry) (w : W)
      → Moved entries w (register c object_name k ref n w).1
  unfolding register
  register-Moved k ref n w =
      rw (exists_if_taken_world c object_name _ _)
        (elim (Result-cases (c.create_object (new_object c object_name k ref n) w).0) [
          | inl (e', r) ↦
              let (put, spec, _) = laws.create_ok _ e' w r in
              Put-Moved entries w _ _ _ _ put (registered k ref n refl (ap some spec))
          | inr (x, r) ↦ elim (laws.create_err _ w x r) [
            | inl moved ↦ moved
            | inr (e', put, spec) ↦
                Put-Moved entries w _ _ _ _ put (registered k ref n refl (ap some spec))
          ]
        ])

  pub call : Call → W → W
  call (call_register k ref n) w = (register c object_name k ref n w).1
  call (call_add_ref k ref opts) w = (add_ref c object_name k ref opts w).1
  call (call_release k ref) w = (release c object_name k ref w).1
  call (call_finish k) w = (finish c object_name k w).1

  pub call_all : List Call → W → W
  call_all [] w = w
  call_all (x ∷ xs) w = call_all xs (call x w)

  call-Moved : (x : Call) (w : W) → Moved entries w (call x w)
  unfolding call
  call-Moved (call_register k ref n) w = register-Moved k ref n w
  call-Moved (call_add_ref k ref opts) w = add_ref-Moved k ref opts w
  call-Moved (call_release k ref) w = release-Moved k ref w
  call-Moved (call_finish k) w = finish-Moved k w

  call_all-Moved : (xs : List Call) (w : W) → Moved entries w (call_all xs w)
  unfolding call_all
  call_all-Moved [] w = Moved-refl entries w
  call_all-Moved (x ∷ xs) w =
      Moved-trans entries w (call x w) _ (call-Moved x w) (call_all-Moved xs (call x w))

  -- If every entry is sound, then it is after any calls of `Register`, `AddRef`, `Release` and
  -- `Finish`, failed ones included, whatever other clients of the ledger do meanwhile: no
  -- reference stands twice in it, and it is marked as being deleted exactly when it has none.
  pub call_all-IsSound :
      (xs : List Call) (w : W)
      → ((n : Text) → IsSoundEntry (spec_at entries w n))
      → (n : Text) → IsSoundEntry (spec_at entries (call_all xs w) n)
  call_all-IsSound xs w h n = History-IsSound (call_all-Moved xs w n) (h n)
