-- ===== src/Ledger/Laws.antt =====
-- What the ledger relies on in the API server and in `RetryOnConflict`, as Kubernetes documents
-- it. `entries w n` is the object that the server holds under the name `n` in the world `w`.
--
-- The client reads from a cache, as controller-runtime's does (cmd/main.go), and writes to the
-- server: what a read answers the server holds or has held (`held`), and a read that finds nothing
-- says nothing of the server. The server refuses to update an object that has changed since.
--
-- Every call may find that other clients acted before it. They are clients of the same ledger, so
-- what they do to an entry is a history of the protocol's changes; of `Moved` nothing else is used.
use mathlib.Core.Option
use fusion_wizard.Prelude.{◌≡◌, ◌⊎◌, false, Option, none, some, Text, text_eq}
use fusion_wizard.Errors.{Error, no_object, update_conflict}
use fusion_wizard.Api.Resource.{WizardResourceSpec, WizardResource}
use fusion_wizard.Action.{Result, ok, err, Action}
use fusion_wizard.Cluster.{Cluster}
use fusion_wizard.Ledger.Protocol.{History}

module _ {W : Type 0} (entries : W → Text → Option WizardResource) where
  abbrev pub spec_at : W → Text → Option WizardResourceSpec
  spec_at w n = Option.map (λ e. e.spec) (entries w n)

  abbrev pub Moved : W → W → Type 0
  Moved w w' = (n : Text) → History (spec_at w n) (spec_at w' n)

  -- After moves of other clients the entry `n` goes from `old` to `new` in one step.
  pub record Put (w w' : W) (n : Text) (old new : Option WizardResource) : Type 0 where
    pub at : W
    pub moved : Moved w at
    pub before : entries at n ≡ old
    pub after : entries w' n ≡ new
    pub others : (m : Text) → text_eq n m ≡ false → entries w' m ≡ entries at m

-- The attempts of `RetryOnConflict`: the result is that of the last one, and each before it ended
-- in a conflict.
pub data Attempts {W A : Type 0} (f : Action W A) : W → Result A × W → Type 0 where
  last : {w : W} {p : Result A × W} → p ≡ f w → Attempts f w p
  again :
      {w : W} {p : Result A × W} (t : Text)
      → (f w).0 ≡ err (update_conflict t)
      → Attempts f (f w).1 p
      → Attempts f w p

pub record ClusterLaws {W : Type 0} (c : Cluster W) (entries : W → Text → Option WizardResource)
    : Type 1 where
  -- the server holds the object under its name or has held it
  pub held : W → WizardResource → Type 0
  pub held_now : (w : W) (e : WizardResource) → entries w e.object_name ≡ some e → held w e
  pub held_past :
      (w : W) (e : WizardResource)
      → held w e
      → (u : W) × (entries u e.object_name ≡ some e) × Moved entries u w
  pub get_moved : (n : Text) (w : W) → Moved entries w (c.get_object n w).1
  pub get_ok :
      (n : Text) (w : W) (e : WizardResource)
      → (c.get_object n w).0 ≡ ok e
      → held (c.get_object n w).1 e × (e.object_name ≡ n)
  -- an object is created only where there is none; a failed call may have created it all the same
  pub create_ok :
      (e e' : WizardResource) (w : W)
      → (c.create_object e w).0 ≡ ok e'
      → Put entries w (c.create_object e w).1 e.object_name none (some e')
        × (e'.spec ≡ e.spec)
        × (e'.object_name ≡ e.object_name)
  pub create_err :
      (e : WizardResource) (w : W) (x : Error)
      → (c.create_object e w).0 ≡ err x
      → Moved entries w (c.create_object e w).1
        ⊎ ((e' : WizardResource) × Put entries w
              (c.create_object e w).1
              e.object_name
              none
              (some e')
            × (e'.spec ≡ e.spec))
  -- optimistic concurrency: an update of an object as it was read goes through only if the server
  -- still holds that object
  pub update_ok :
      (e e' : WizardResource) (s : WizardResourceSpec) (w : W)
      → held w e
      → (c.update_object (record e { spec = s }) w).0 ≡ ok e'
      → Put entries w (c.update_object (record e { spec = s }) w).1 e.object_name (some e) (some e')
        × (e'.spec ≡ s)
        × (e'.object_name ≡ e.object_name)
  pub update_err :
      (e : WizardResource) (s : WizardResourceSpec) (w : W) (x : Error)
      → held w e
      → (c.update_object (record e { spec = s }) w).0 ≡ err x
      → Moved entries w (c.update_object (record e { spec = s }) w).1
        ⊎ ((e' : WizardResource) × Put entries w
              (c.update_object (record e { spec = s }) w).1
              e.object_name
              (some e)
              (some e')
            × (e'.spec ≡ s))
  pub delete_any :
      (n : Text) (w : W)
      → Moved entries w (c.delete_object n w).1
        ⊎ ((old : Option WizardResource) × Put entries w (c.delete_object n w).1 n old none)
  pub delete_ok :
      (n : Text) (w : W) (u : Unit {0})
      → (c.delete_object n w).0 ≡ ok u
      → entries (c.delete_object n w).1 n ≡ none
  pub delete_missing :
      (n : Text) (w : W) (t : Text)
      → (c.delete_object n w).0 ≡ err (no_object t)
      → entries (c.delete_object n w).1 n ≡ none
  pub list_moved : (w : W) → Moved entries w (c.list_objects w).1
  pub retried : {A : Type 0} (f : Action W A) (w : W) → Attempts f w (c.retry_on_conflict f w)
