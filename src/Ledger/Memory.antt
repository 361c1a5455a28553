-- ===== src/Ledger/Memory.antt =====
-- An API server in memory that satisfies the ledger's assumptions. It is not code of the
-- repository: it shows that they can be met, and runs the examples.
use fusion_wizard.Prelude.{
  ℕ, zero, suc, ◌==◌, ◌≡◌, refl, sym, ◌∙◌, ap, ◌⊎◌, inl, inr, Bool, true, false, Option, none, some,
  List, [], ◌∷◌, Text, text_eq, text_eq_iff, arith, Bool-cases, if◌then◌else◌,
}
use fusion_wizard.Errors.{Error, no_object, object_exists, update_conflict}
use fusion_wizard.Api.Resource.{WizardResourceSpec, WizardResource}
use fusion_wizard.Action.{Result, ok, err, ok-injective, ok-ne-err, Action}
use fusion_wizard.Cluster.{Cluster}
use fusion_wizard.Ledger.{Key}
use fusion_wizard.Ledger.Protocol.{same}
use fusion_wizard.Ledger.Laws.{Moved, Put, Attempts, last, again, ClusterLaws}

-- the objects, and the resources of the upstream services
pub record Memory : Type 0 where
  pub objects : List WizardResource
  pub remote : List Key

find_object : List WizardResource → Text → Option WizardResource
find_object [] n = none
find_object (e ∷ es) n = if text_eq e.object_name n then some e else find_object es n

replace_object : WizardResource → List WizardResource → List WizardResource
replace_object e [] = []
replace_object e (x ∷ xs) =
    if text_eq x.object_name e.object_name then e ∷ xs else x ∷ replace_object e xs

remove_object : Text → List WizardResource → List WizardResource
remove_object n [] = []
remove_object n (x ∷ xs) =
    if text_eq x.object_name n then remove_object n xs else x ∷ remove_object n xs

find-name :
    (es : List WizardResource) (n : Text) (e : WizardResource)
    → find_object es n ≡ some e
    → e.object_name ≡ n
unfolding find_object
find-name [] n e h = cc
find-name (x ∷ xs) n e h = ground (arith, text_eq_iff x.object_name n, find-name xs n e)

find-replace :
    (es : List WizardResource) (e : WizardResource) (n : Text) (old : WizardResource)
    → find_object es e.object_name ≡ some old
    → find_object (replace_object e es) n
      ≡ (if text_eq e.object_name n then some e else find_object es n)
unfolding find_object replace_object
find-replace [] e n old h = cc
find-replace (x ∷ xs) e n old h = ground (
  arith,
  text_eq_iff x.object_name n,
  text_eq_iff x.object_name e.object_name,
  text_eq_iff e.object_name n,
  find-replace xs e n old,
)

find-remove :
    (es : List WizardResource) (n m : Text)
    → find_object (remove_object n es) m ≡ (if text_eq n m then none else find_object es m)
unfolding find_object remove_object
find-remove [] n m = ground arith
find-remove (x ∷ xs) n m = ground (
  arith,
  text_eq_iff x.object_name n,
  text_eq_iff x.object_name m,
  text_eq_iff n m,
  find-remove xs n m,
)

answer_get : Option WizardResource → Memory → Result WizardResource × Memory
answer_get none m = (err (no_object []), m)
answer_get (some e) m = (ok e, m)

unfoldable pub memory_get : Text → Action Memory WizardResource
unfolding find_object answer_get
memory_get n m = answer_get (find_object m.objects n) m

answer_create : WizardResource → Option WizardResource → Action Memory WizardResource
answer_create e (some _) m = (err (object_exists []), m)
answer_create e none m =
    let e' = record e { resource_version = 1 } in (ok e', record m { objects = e' ∷ m.objects })

unfoldable pub memory_create : WizardResource → Action Memory WizardResource
unfolding find_object answer_create
memory_create e m = answer_create e (find_object m.objects e.object_name) m

abbrev bump : WizardResource → WizardResource
bump e = record e { resource_version = suc e.resource_version }

answer_update : WizardResource → Option WizardResource → Action Memory WizardResource
unfolding replace_object
answer_update e none m = (err (no_object []), m)
answer_update e (some old) m =
    if old.resource_version == e.resource_version
    then (ok (bump e), record m { objects = replace_object (bump e) m.objects })
    else (err (update_conflict []), m)

unfoldable pub memory_update : WizardResource → Action Memory WizardResource
unfolding find_object answer_update
memory_update e m = answer_update e (find_object m.objects e.object_name) m

answer_delete : Text → Option WizardResource → Action Memory (Unit {0})
unfolding remove_object
answer_delete n none m = (err (no_object []), m)
answer_delete n (some e) m = (ok tt, record m { objects = remove_object n m.objects })

unfoldable pub memory_delete : Text → Action Memory (Unit {0})
unfolding find_object answer_delete
memory_delete n m = answer_delete n (find_object m.objects n) m

abbrev is_conflict : Error → Bool
is_conflict (update_conflict t) = true
is_conflict _ = false

abbrev conflicted {ℓ} : {A : Type ℓ} → Result A → Bool
conflicted (ok a) = false
conflicted (err x) = is_conflict x

-- `n` retries at most
unfoldable pub retry : {A : Type 0} → ℕ → Action Memory A → Action Memory A
retry zero f m = f m
retry (suc n) f m = elim (conflicted (f m).0) [ true ↦ retry n f (f m).1 | false ↦ f m ]

is_conflict_of : (x : Error) → is_conflict x ≡ true → (t : Text) × (x ≡ update_conflict t)
is_conflict_of (update_conflict t) h = (t, refl)
is_conflict_of _ h = cc

conflicted_of :
    {A : Type 0} (r : Result A) → conflicted r ≡ true → (t : Text) × (r ≡ err (update_conflict t))
conflicted_of (ok a) h = cc
conflicted_of (err x) h = let (t, e) = is_conflict_of x h in (t, ap err e)

retry-Attempts :
    {A : Type 0} (n : ℕ) (f : Action Memory A) (m : Memory) → Attempts f m (retry n f m)
unfolding retry
retry-Attempts zero f m = last refl
retry-Attempts (suc n) f m = elim (Bool-cases (conflicted (f m).0)) [
  | inl e ↦
      let (t, conflict) = conflicted_of (f m).0 e in
      again t conflict (rw (e, retry) (retry-Attempts n f (f m).1))
  | inr e ↦ last (rw (e, retry))
]

abbrev pub memory_cluster : Cluster Memory
memory_cluster = record {
  get_object = memory_get;
  create_object = memory_create;
  update_object = memory_update;
  delete_object = memory_delete;
  list_objects = λ m. (ok m.objects, m);
  retry_on_conflict = retry 4;
}

unfoldable pub stored : Memory → Text → Option WizardResource
unfolding find_object
stored m n = find_object m.objects n

get_found_lem :
    (n : Text) (m : Memory) (e : WizardResource)
    → (memory_get n m).0 ≡ ok e
    → (stored (memory_get n m).1 n ≡ some e) × (e.object_name ≡ n)
unfolding memory_get stored
get_found_lem n m e h = ground (arith, find-name m.objects n e)

get_ok_lem :
    (n : Text) (m : Memory) (e : WizardResource)
    → (memory_get n m).0 ≡ ok e
    → (stored (memory_get n m).1 e.object_name ≡ some e) × (e.object_name ≡ n)
get_ok_lem n m e h =
    let (there, named) = get_found_lem n m e h in (ap (stored _) named ∙ there, named)

memory_get_world : (n : Text) (m : Memory) → (memory_get n m).1 ≡ m
unfolding memory_get
memory_get_world n m = ground arith

text_eq_self : (e : WizardResource) → text_eq e.object_name e.object_name ≡ true
text_eq_self e = (text_eq_iff e.object_name e.object_name).1 refl

create_law :
    (e e' : WizardResource) (o : Option WizardResource) (m : Memory)
    → find_object m.objects e.object_name ≡ o
    → (answer_create e o m).0 ≡ ok e'
    → Put stored m (answer_create e o m).1 e.object_name none (some e')
      × (e'.spec ≡ e.spec)
      × (e'.object_name ≡ e.object_name)
unfolding answer_create stored find_object
create_law e e' (some old) m f h = cc
create_law e e' none m f h = (
  record {
    at = m;
    moved = λ n. same;
    before = f;
    after = ground (arith, text_eq_self e);
    others = λ n ne. ground arith;
  },
  ground arith,
  ground arith,
)

create_err_law :
    (e : WizardResource) (o : Option WizardResource) (m : Memory) (x : Error)
    → (answer_create e o m).0 ≡ err x
    → Moved stored m (answer_create e o m).1
unfolding answer_create
create_err_law e (some old) m x h = λ n. same
create_err_law e none m x h = cc

update_lem :
    (e : WizardResource) (s : WizardResourceSpec) (m : Memory)
    → answer_update (record e { spec = s }) (some e) m ≡ (
      ok (bump (record e { spec = s })),
      record m { objects = replace_object (bump (record e { spec = s })) m.objects },
    )
unfolding answer_update
update_lem e s m = ground arith

update_law :
    (e e' : WizardResource) (s : WizardResourceSpec) (m : Memory)
    → find_object m.objects e.object_name ≡ some e
    → (answer_update (record e { spec = s }) (some e) m).0 ≡ ok e'
    → Put stored m
        (answer_update (record e { spec = s }) (some e) m).1
        e.object_name
        (some e)
        (some e')
      × (e'.spec ≡ s)
      × (e'.object_name ≡ e.object_name)
unfolding stored
update_law e e' s m f h =
    let new : bump (record e { spec = s }) ≡ e' =
      ok-injective (sym (ap (λ p. p.0) (update_lem e s m)) ∙ h) in
    (
      record {
        at = m;
        moved = λ n. same;
        before = f;
        after =
            rw
              (
                update_lem e s m,
                find-replace m.objects (bump (record e { spec = s })) e.object_name e f,
              )
              (rw (text_eq_self e) (ap some new));
        others = λ n ne.
            rw (update_lem e s m, find-replace m.objects (bump (record e { spec = s })) n e f, ne);
      },
      ap (λ x. x.spec) (sym new),
      ap (λ x. x.object_name) (sym new),
    )

update_err_law :
    (e : WizardResource) (s : WizardResourceSpec) (m : Memory) (x : Error)
    → (answer_update (record e { spec = s }) (some e) m).0 ≡ err x
    → Moved stored m (answer_update (record e { spec = s }) (some e) m).1
update_err_law e s m x h = absurd (ok-ne-err (sym (ap (λ p. p.0) (update_lem e s m)) ∙ h))

delete_law :
    (n : Text) (o : Option WizardResource) (m : Memory)
    → find_object m.objects n ≡ o
    → Moved stored m (answer_delete n o m).1
      ⊎ ((old : Option WizardResource) × Put stored m (answer_delete n o m).1 n old none)
unfolding answer_delete stored
delete_law n none m f = inl λ k. same
delete_law n (some old) m f = inr (
  some old,
  record {
    at = m;
    moved = λ k. same;
    before = f;
    after = rw (find-remove m.objects n n) (ground (arith, text_eq_iff n n));
    others = λ k ne. rw (find-remove m.objects n k, ne);
  },
)

delete_gone :
    (n : Text) (o : Option WizardResource) (m : Memory)
    → find_object m.objects n ≡ o
    → stored (answer_delete n o m).1 n ≡ none
unfolding answer_delete stored
delete_gone n none m f = f
delete_gone n (some old) m f = rw (find-remove m.objects n n) (ground (arith, text_eq_iff n n))

pub memory_laws : ClusterLaws memory_cluster stored
unfolding memory_get memory_create memory_update memory_delete stored
memory_laws = record {
  held = λ m e. stored m e.object_name ≡ some e;
  held_now = λ m e h. h;
  held_past = λ m e h. (m, h, λ n. same);
  get_moved = λ n m. rw (memory_get_world n m) (λ k. same);
  get_ok = get_ok_lem;
  create_ok = λ e e' m h. create_law e e' _ m refl h;
  create_err = λ e m x h. inl (create_err_law e _ m x h);
  update_ok = λ e e' s m f h. rw f (update_law e e' s m f (rw f at h));
  update_err = λ e s m x f h. inl (rw f (update_err_law e s m x (rw f at h)));
  delete_any = λ n m. delete_law n _ m refl;
  delete_ok = λ n m u h. delete_gone n _ m refl;
  delete_missing = λ n m t h. delete_gone n _ m refl;
  list_moved = λ m n. same;
  retried = λ f m. retry-Attempts 4 f m;
}

pub memory_held :
    (m : Memory) (e : WizardResource) → memory_laws.held m e → stored m e.object_name ≡ some e
unfolding memory_laws
memory_held m e h = h
