-- ===== src/Ledger/Protocol.antt =====
-- The life of one ledger entry as every client of the ledger may change it: `Register`, `AddRef`,
-- `Release` and the deletion of the entry, in any order and by any number of runs.
use fusion_wizard.Prelude.{◌≡◌, refl, Bool, true, Option, none, some, []}
use fusion_wizard.Action.{ok}
use fusion_wizard.Api.Resource.{ResourceReference, WizardResourceSpec}
use fusion_wizard.Ledger.{Key, NewEntry, AddOptions, new_spec, add_ref_change, release_spec}
use fusion_wizard.Ledger.Entry.{
  IsSound, new_spec-IsSound, add_ref_spec-IsSound, release_spec-IsSound, refs-release_spec,
  terminating-release_spec, eq-nil, add_ref_change_ok,
}

-- A change of an entry that stays in the ledger.
pub data Live : WizardResourceSpec → WizardResourceSpec → Type 0 where
  referenced :
      (ref : ResourceReference) (opts : AddOptions) {s t : WizardResourceSpec}
      {p : WizardResourceSpec × Bool}
      → add_ref_change ref opts s ≡ ok p
      → t ≡ p.0
      → Live s t
  released :
      (ref : ResourceReference) {s t : WizardResourceSpec} → t ≡ (release_spec ref s).0 → Live s t

pub data Change : Option WizardResourceSpec → Option WizardResourceSpec → Type 0 where
  registered :
      (k : Key) (ref : ResourceReference) (n : NewEntry) {o p : Option WizardResourceSpec}
      → o ≡ none
      → p ≡ some (new_spec k ref n)
      → Change o p
  changed :
      {s t : WizardResourceSpec} {o p : Option WizardResourceSpec}
      → o ≡ some s
      → p ≡ some t
      → Live s t
      → Change o p
  deleted : {o p : Option WizardResourceSpec} → p ≡ none → Change o p

pub data History (o : Option WizardResourceSpec) : Option WizardResourceSpec → Type 0 where
  same : History o o
  next : {p q : Option WizardResourceSpec} → History o p → Change p q → History o q

pub History-trans : {o p q : Option WizardResourceSpec} → History o p → History p q → History o q
History-trans h same = h
History-trans h (next k c) = next (History-trans h k) c

abbrev pub IsSoundEntry : Option WizardResourceSpec → Type 0
IsSoundEntry none = Unit
IsSoundEntry (some s) = IsSound s

pub Live-IsSound : {s t : WizardResourceSpec} → Live s t → IsSound s → IsSound t
Live-IsSound {s} (referenced ref opts r e) h =
    let (live, q) = add_ref_change_ok ref opts s _ r in
    rw (e, q) (add_ref_spec-IsSound ref opts s live h)
Live-IsSound {s} (released ref e) h = rw e (release_spec-IsSound ref s h)

Change-IsSound : {o p : Option WizardResourceSpec} → Change o p → IsSoundEntry o → IsSoundEntry p
Change-IsSound (registered k ref n _ e) h = rw e (new_spec-IsSound k ref n)
Change-IsSound (changed d e c) h = rw e (Live-IsSound c (rw d at h))
Change-IsSound (deleted e) h = rw e tt

-- Whatever any clients do, an entry never has a reference twice and is marked as being deleted
-- exactly while it has none.
pub History-IsSound :
    {o p : Option WizardResourceSpec} → History o p → IsSoundEntry o → IsSoundEntry p
History-IsSound same h = h
History-IsSound (next k c) h = Change-IsSound c (History-IsSound k h)

-- A part of an entry's life in which it is not deleted.
pub data Lifetime (s : WizardResourceSpec) : WizardResourceSpec → Type 0 where
  unchanged : Lifetime s s
  then : {t u : WizardResourceSpec} → Lifetime s t → Live t u → Lifetime s u

abbrev IsDoomed : WizardResourceSpec → Type 0
IsDoomed s = (s.terminating ≡ true) × (s.refs ≡ [])

Live-IsDoomed : {s t : WizardResourceSpec} → Live s t → IsDoomed s → IsDoomed t
Live-IsDoomed {s} (referenced ref opts r e) (m, _) =
    let (live, _) = add_ref_change_ok ref opts s _ r in cc
Live-IsDoomed {s} (released ref e) (m, r) = (
  rw e (rw (terminating-release_spec ref s, r) refl),
  rw e (rw (refs-release_spec ref s, r) refl),
)

-- Once marked as being deleted a sound entry is never adopted: until it is deleted it stays
-- marked and has no reference.
pub Lifetime-terminating :
    {s t : WizardResourceSpec}
    → IsSound s
    → s.terminating ≡ true
    → Lifetime s t
    → (t.terminating ≡ true) × (t.refs ≡ [])
Lifetime-terminating {s} h m unchanged = (m, eq-nil s.refs (cc h.marked))
Lifetime-terminating h m (then k c) = Live-IsDoomed c (Lifetime-terminating h m k)
