-- ===== src/Ledger/Entry.antt =====
-- What adding and releasing a reference do to one entry, and what holds of every entry.
use mathlib.Core.Option
use fusion_wizard.Prelude.{
  ℕ, suc, ◌≡◌, refl, sym, ◌↔◌, Bool, true, false, ◌&&◌, ◌||◌, not, Option, none, some, List, [],
  ◌∷◌, ◌++◌, ◌∙◌, text_eq_iff, is_empty, take, drop, arith, ap, if◌then◌else◌, Bool-cases, inl, inr,
}
use fusion_wizard.Api.Resource.{ResourceReference, WizardResourceSpec}
use fusion_wizard.Ledger.{
  Key, NewEntry, AddOptions, ref_eq, index_of_ref, has_ref, new_spec, add_ref_spec, release_spec,
  drop_ref, mark_terminating, add_ref_change,
}
use fusion_wizard.Errors.{err_terminating}
use fusion_wizard.Action.{ok, err, ok-injective}

pub ref_eq_iff : (r s : ResourceReference) → (ref_eq r s ≡ true) ↔ (r ≡ s)
unfolding ref_eq
ref_eq_iff r s = ground (arith, text_eq_iff r.run s.run, text_eq_iff r.step s.step)

pub ref_eq_refl : (r : ResourceReference) → ref_eq r r ≡ true
ref_eq_refl r = (ref_eq_iff r r).1 refl

pub has_ref-cons :
    (r ref : ResourceReference) (rs : List ResourceReference)
    → has_ref (r ∷ rs) ref ≡ (ref_eq r ref || has_ref rs ref)
unfolding has_ref
has_ref-cons r ref rs = ground arith

pub has_ref_nil : (ref : ResourceReference) → has_ref [] ref ≡ false
unfolding has_ref index_of_ref
has_ref_nil ref = refl

pub has_ref-append :
    (xs ys : List ResourceReference) (ref : ResourceReference)
    → has_ref (xs ++ ys) ref ≡ (has_ref xs ref || has_ref ys ref)
has_ref-append [] ys ref = unfold has_ref index_of_ref in refl
has_ref-append (x ∷ xs) ys ref =
    ground (arith, has_ref-cons x ref (xs ++ ys), has_ref-cons x ref xs, has_ref-append xs ys ref)

-- No reference stands twice.
abbrev pub Distinct : List ResourceReference → Type 0
Distinct [] = Unit
Distinct (r ∷ rs) = (has_ref rs r ≡ false) × Distinct rs

-- The list without the first occurrence of a reference.
removed : Option ℕ → List ResourceReference → List ResourceReference
removed none refs = refs
removed (some i) refs = take i refs ++ drop (suc i) refs

removed-suc :
    (o : Option ℕ) (r : ResourceReference) (rs : List ResourceReference)
    → removed (Option.map suc o) (r ∷ rs) ≡ r ∷ removed o rs
unfolding removed
removed-suc none r rs = refl
removed-suc (some i) r rs = refl

abbrev pub without : List ResourceReference → ResourceReference → List ResourceReference
without [] ref = []
without (r ∷ rs) ref = if ref_eq r ref then rs else r ∷ without rs ref

removed-index_of_ref :
    (refs : List ResourceReference) (ref : ResourceReference)
    → removed (index_of_ref refs ref) refs ≡ without refs ref
unfolding index_of_ref
removed-index_of_ref [] ref = unfold removed in refl
removed-index_of_ref (r ∷ rs) ref = elim (Bool-cases (ref_eq r ref)) [
  | inl e ↦ rw (e, index_of_ref) (unfold removed in refl)
  | inr e ↦
      rw (e, index_of_ref)
        (removed-suc (index_of_ref rs ref) r rs ∙ ap (λ l. r ∷ l) (removed-index_of_ref rs ref))
]

has_ref-without :
    (refs : List ResourceReference) (ref r : ResourceReference)
    → has_ref refs r ≡ false
    → has_ref (without refs ref) r ≡ false
has_ref-without [] ref r h = h
has_ref-without (x ∷ xs) ref r h =
    ground (arith, has_ref-cons x r xs, has_ref-cons x r (without xs ref), has_ref-without xs ref r)

Distinct-without :
    (refs : List ResourceReference) (ref : ResourceReference)
    → Distinct refs
    → Distinct (without refs ref)
Distinct-without [] ref h = h
Distinct-without (r ∷ rs) ref h = elim (Bool-cases (ref_eq r ref)) [
  | inl e ↦ rw e h.1
  | inr e ↦ rw e (has_ref-without rs ref r h.0, Distinct-without rs ref h.1)
]

-- From distinct references the released one is gone, and every other one stays.
pub has_ref-without_eq :
    (refs : List ResourceReference) (ref r : ResourceReference)
    → Distinct refs
    → has_ref (without refs ref) r ≡ (not (ref_eq ref r) && has_ref refs r)
has_ref-without_eq [] ref r h = unfold has_ref index_of_ref in ground arith
has_ref-without_eq (x ∷ xs) ref r h = ground (
  arith,
  has_ref-cons x r xs,
  has_ref-cons x r (without xs ref),
  has_ref-without_eq xs ref r h.1,
  ref_eq_iff x ref,
  ref_eq_iff x r,
  ref_eq_iff ref r,
)

Distinct-append :
    (refs : List ResourceReference) (ref : ResourceReference)
    → Distinct refs
    → has_ref refs ref ≡ false
    → Distinct (refs ++ ref ∷ [])
Distinct-append [] ref h n = (unfold has_ref index_of_ref in refl, tt)
Distinct-append (x ∷ xs) ref h n = (
  ground (
    arith,
    has_ref-append xs (ref ∷ []) x,
    has_ref-cons ref x [],
    has_ref-cons x ref xs,
    ref_eq_iff x ref,
    ref_eq_iff ref x,
    has_ref_nil x,
  ),
  Distinct-append xs ref h.1 (ground (arith, has_ref-cons x ref xs)),
)

-- the references that `AddRef` leaves
pub refs-add_ref_spec :
    (ref : ResourceReference) (opts : AddOptions) (s : WizardResourceSpec)
    → (add_ref_spec ref opts s).0.refs ≡ (if has_ref s.refs ref then s.refs else s.refs ++ ref ∷ [])
unfolding add_ref_spec
refs-add_ref_spec ref opts s = ground arith

-- After `AddRef` the reference is there.
pub has_ref-add_ref_spec :
    (ref : ResourceReference) (opts : AddOptions) (s : WizardResourceSpec)
    → has_ref (add_ref_spec ref opts s).0.refs ref ≡ true
has_ref-add_ref_spec ref opts s = elim (Bool-cases (has_ref s.refs ref)) [
  | inl old ↦ rw (refs-add_ref_spec ref opts s, old) old
  | inr new ↦
      rw (refs-add_ref_spec ref opts s, new)
        (ground
          (arith, has_ref-append s.refs (ref ∷ []) ref, has_ref-cons ref ref [], ref_eq_refl ref))
]

-- The entry of a resource: its references are distinct, and it is marked as being deleted
-- exactly when none is left.
pub record IsSound (s : WizardResourceSpec) : Type 0 where
  pub distinct : Distinct s.refs
  pub marked : s.terminating ≡ is_empty s.refs

pub new_spec-IsSound :
    (k : Key) (ref : ResourceReference) (n : NewEntry) → IsSound (new_spec k ref n)
unfolding new_spec
new_spec-IsSound k ref n = record {
  distinct = (unfold has_ref index_of_ref in refl, tt);
  marked = refl;
}

pub terminating-add_ref_spec :
    (ref : ResourceReference) (opts : AddOptions) (s : WizardResourceSpec)
    → (add_ref_spec ref opts s).0.terminating ≡ s.terminating
unfolding add_ref_spec
terminating-add_ref_spec ref opts s = ground arith

refs-drop_ref : (o : Option ℕ) (s : WizardResourceSpec) → (drop_ref o s).0.refs ≡ removed o s.refs
unfolding drop_ref removed
refs-drop_ref none s = refl
refs-drop_ref (some i) s = refl

drop_ref_terminating :
    (o : Option ℕ) (s : WizardResourceSpec) → (drop_ref o s).0.terminating ≡ s.terminating
unfolding drop_ref
drop_ref_terminating none s = refl
drop_ref_terminating (some i) s = refl

mark_terminating_lem :
    (p : WizardResourceSpec × Bool)
    → ((mark_terminating p).0.refs ≡ p.0.refs)
      × ((mark_terminating p).0.terminating ≡ (is_empty p.0.refs || p.0.terminating))
unfolding mark_terminating
mark_terminating_lem p = ground arith

pub refs-release_spec :
    (ref : ResourceReference) (s : WizardResourceSpec)
    → (release_spec ref s).0.refs ≡ without s.refs ref
unfolding release_spec
refs-release_spec ref s =
    (mark_terminating_lem (drop_ref (index_of_ref s.refs ref) s)).0
    ∙ refs-drop_ref (index_of_ref s.refs ref) s
    ∙ removed-index_of_ref s.refs ref

pub terminating-release_spec :
    (ref : ResourceReference) (s : WizardResourceSpec)
    → (release_spec ref s).0.terminating ≡ (is_empty (without s.refs ref) || s.terminating)
unfolding release_spec
terminating-release_spec ref s =
    let d : WizardResourceSpec × Bool = drop_ref (index_of_ref s.refs ref) s in
    let refs : d.0.refs ≡ without s.refs ref =
      refs-drop_ref (index_of_ref s.refs ref) s ∙ removed-index_of_ref s.refs ref in
    cc ((mark_terminating_lem d).1, refs, drop_ref_terminating (index_of_ref s.refs ref) s)

pub is_empty-without :
    (refs : List ResourceReference) (ref : ResourceReference)
    → is_empty refs ≡ true
    → is_empty (without refs ref) ≡ true
is_empty-without [] ref h = refl
is_empty-without (x ∷ xs) ref h = cc

pub eq-nil : (refs : List ResourceReference) → is_empty refs ≡ true → refs ≡ []
eq-nil [] h = refl
eq-nil (x ∷ xs) h = cc

pub is_empty-append :
    (refs : List ResourceReference) (ref : ResourceReference) → false ≡ is_empty (refs ++ ref ∷ [])
is_empty-append [] ref = refl
is_empty-append (x ∷ xs) ref = refl

-- An entry that is not being deleted stays sound when a reference is added.
pub add_ref_spec-IsSound :
    (ref : ResourceReference) (opts : AddOptions) (s : WizardResourceSpec)
    → s.terminating ≡ false
    → IsSound s
    → IsSound (add_ref_spec ref opts s).0
add_ref_spec-IsSound ref opts s live h = elim (Bool-cases (has_ref s.refs ref)) [
  | inl old ↦
      let refs : (add_ref_spec ref opts s).0.refs ≡ s.refs =
        rw (refs-add_ref_spec ref opts s, old) in
      record {
        distinct = rw refs h.distinct;
        marked = rw (refs, terminating-add_ref_spec ref opts s) h.marked;
      }
  | inr new ↦
      let refs : (add_ref_spec ref opts s).0.refs ≡ s.refs ++ ref ∷ [] =
        rw (refs-add_ref_spec ref opts s, new) in
      record {
        distinct = rw refs (Distinct-append s.refs ref h.distinct new);
        marked = rw (refs, terminating-add_ref_spec ref opts s, live) (is_empty-append s.refs ref);
      }
]

pub release_spec-IsSound :
    (ref : ResourceReference) (s : WizardResourceSpec) → IsSound s → IsSound (release_spec ref s).0
release_spec-IsSound ref s h = record {
  distinct = rw (refs-release_spec ref s) (Distinct-without s.refs ref h.distinct);
  marked =
      rw (refs-release_spec ref s, terminating-release_spec ref s)
        (ground (arith, h.marked, is_empty-without s.refs ref));
}

-- After `Release` from distinct references the reference is gone.
pub has_ref-release_spec :
    (ref : ResourceReference) (s : WizardResourceSpec)
    → Distinct s.refs
    → has_ref (release_spec ref s).0.refs ref ≡ false
has_ref-release_spec ref s d =
    rw (refs-release_spec ref s, has_ref-without_eq s.refs ref ref d, ref_eq_refl ref)

-- `AddOptions.Manage` makes the entry managed, and nothing makes it unmanaged.
pub managed-add_ref_spec :
    (ref : ResourceReference) (opts : AddOptions) (s : WizardResourceSpec)
    → (add_ref_spec ref opts s).0.managed ≡ (opts.manage || s.managed)
unfolding add_ref_spec
managed-add_ref_spec ref opts s = ground arith

pub new_spec_lem :
    (k : Key) (ref : ResourceReference) (n : NewEntry)
    → (has_ref (new_spec k ref n).refs ref ≡ true)
      × ((new_spec k ref n).managed ≡ n.managed)
      × ((new_spec k ref n).terminating ≡ false)
unfolding new_spec
new_spec_lem k ref n = (rw (has_ref-cons ref ref [], ref_eq_refl ref), refl, refl)

not_terminating :
    (doomed : Bool) (p q : WizardResourceSpec × Bool)
    → (if doomed then err err_terminating else ok q) ≡ ok p
    → (doomed ≡ false) × (p ≡ q)
not_terminating true p q h = cc
not_terminating false p q h = (refl, sym (ok-injective h))

-- An entry that is being deleted is not changed; another one gets the reference.
pub add_ref_change_ok :
    (ref : ResourceReference) (opts : AddOptions) (s : WizardResourceSpec)
    (p : WizardResourceSpec × Bool)
    → add_ref_change ref opts s ≡ ok p
    → (s.terminating ≡ false) × (p ≡ add_ref_spec ref opts s)
unfolding add_ref_change
add_ref_change_ok ref opts s p = not_terminating s.terminating p (add_ref_spec ref opts s)

-- The last release marks the entry.
pub release_spec_marks :
    (ref : ResourceReference) (s : WizardResourceSpec)
    → is_empty (release_spec ref s).0.refs ≡ true
    → (release_spec ref s).0.terminating ≡ true
release_spec_marks ref s h =
    rw (terminating-release_spec ref s) (ground (arith, h, refs-release_spec ref s))

managed-drop_ref : (i : Option ℕ) (s : WizardResourceSpec) → (drop_ref i s).0.managed ≡ s.managed
unfolding drop_ref
managed-drop_ref none s = refl
managed-drop_ref (some i) s = refl

managed-mark_terminating :
    (p : WizardResourceSpec × Bool) → (mark_terminating p).0.managed ≡ p.0.managed
unfolding mark_terminating
managed-mark_terminating p = ground arith

pub managed-release_spec :
    (ref : ResourceReference) (s : WizardResourceSpec) → (release_spec ref s).0.managed ≡ s.managed
unfolding release_spec
managed-release_spec ref s =
    managed-mark_terminating (drop_ref (index_of_ref s.refs ref) s)
    ∙ managed-drop_ref (index_of_ref s.refs ref) s
