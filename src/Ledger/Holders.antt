-- ===== src/Ledger/Holders.antt =====
-- An entry as the set of those who hold its resource: the protocol of Ledger/Protocol forgets the
-- order of the references.
use fusion_wizard.Prelude.{
  ◌≡◌, refl, sym, ◌∙◌, ◌↔◌, Bool, true, false, ◌&&◌, ◌||◌, not, List, [], ◌∷◌, is_empty, arith,
  Bool-cases, inl, inr,
}
use fusion_wizard.Api.Resource.{ResourceReference, WizardResourceSpec}
use fusion_wizard.Ledger.{AddOptions, ref_eq, has_ref, add_ref_spec, release_spec}
use fusion_wizard.Ledger.Entry.{
  IsSound, ref_eq_iff, ref_eq_refl, has_ref_nil, has_ref-cons, has_ref-append, has_ref-without_eq,
  refs-add_ref_spec, refs-release_spec, terminating-add_ref_spec, release_spec-IsSound,
  add_ref_change_ok,
}
use fusion_wizard.Ledger.Protocol.{
  Live, Live-IsSound, referenced, released, Lifetime, unchanged, then,
}

-- who holds the resource, and whether it is given up
pub record Holders : Type 0 where
  pub holds : ResourceReference → Bool
  pub gone : Bool

abbrev IsUnheld : Holders → Type 0
IsUnheld h = (r : ResourceReference) → h.holds r ≡ false

-- One more holder joins a resource that is not given up, or a holder leaves; the resource is given
-- up exactly when the last one has left.
pub data Turn (h h' : Holders) : Type 0 where
  joins :
      (ref : ResourceReference)
      → h.gone ≡ false
      → ((r : ResourceReference) → h'.holds r ≡ (ref_eq ref r || h.holds r))
      → h'.gone ≡ false
      → Turn h h'
  leaves :
      (ref : ResourceReference)
      → ((r : ResourceReference) → h'.holds r ≡ (not (ref_eq ref r) && h.holds r))
      → (h'.gone ≡ true) ↔ IsUnheld h'
      → Turn h h'

pub data Turns (h : Holders) : Holders → Type 0 where
  none_yet : Turns h h
  and_then : {h' h'' : Holders} → Turns h h' → Turn h' h'' → Turns h h''

-- the holders of an entry
abbrev pub holders_of : WizardResourceSpec → Holders
holders_of s = record { holds = has_ref s.refs; gone = s.terminating }

has_ref-joined :
    (ref : ResourceReference) (opts : AddOptions) (s : WizardResourceSpec) (r : ResourceReference)
    → has_ref (add_ref_spec ref opts s).0.refs r ≡ (ref_eq ref r || has_ref s.refs r)
has_ref-joined ref opts s r = elim (Bool-cases (has_ref s.refs ref)) [
  | inl old ↦ rw (refs-add_ref_spec ref opts s, old) (ground (arith, ref_eq_iff ref r, old))
  | inr new ↦
      rw (refs-add_ref_spec ref opts s, new)
        (ground (arith, has_ref-append s.refs (ref ∷ []) r, has_ref-cons ref r [], has_ref_nil r))
]

unheld_empty :
    (refs : List ResourceReference)
    → ((r : ResourceReference) → has_ref refs r ≡ false)
    → is_empty refs ≡ true
unheld_empty [] h = refl
unheld_empty (x ∷ xs) h = absurd (ground (arith, has_ref-cons x x xs, ref_eq_refl x, h x))

empty_unheld :
    (refs : List ResourceReference)
    → is_empty refs ≡ true
    → (r : ResourceReference) → has_ref refs r ≡ false
empty_unheld [] h r = has_ref_nil r
empty_unheld (x ∷ xs) h r = cc

gone-IsUnheld :
    (s : WizardResourceSpec) → IsSound s → (s.terminating ≡ true) ↔ IsUnheld (holders_of s)
gone-IsUnheld s h =
    (λ m. empty_unheld s.refs (sym h.marked ∙ m), λ u. h.marked ∙ unheld_empty s.refs u)

Live-Turn : {s t : WizardResourceSpec} → IsSound s → Live s t → Turn (holders_of s) (holders_of t)
Live-Turn {s} h (referenced ref opts r e) =
    let (live, q) = add_ref_change_ok ref opts s _ r in
    rw (e, q)
      (joins ref live (has_ref-joined ref opts s) (terminating-add_ref_spec ref opts s ∙ live))
Live-Turn {s} h (released ref e) = rw e (
    leaves ref (λ r. rw (refs-release_spec ref s) (has_ref-without_eq s.refs ref r h.distinct))
      (gone-IsUnheld (release_spec ref s).0 (release_spec-IsSound ref s h)))

Lifetime-IsSound : {s t : WizardResourceSpec} → IsSound s → Lifetime s t → IsSound t
Lifetime-IsSound h unchanged = h
Lifetime-IsSound h (then k c) = Live-IsSound c (Lifetime-IsSound h k)

-- What any clients do to an entry until it is deleted is, for the set of its holders, a sequence of
-- joining and leaving: nobody joins a resource that is given up, a join and a leave change no other
-- holder, and the resource is given up exactly when its last holder leaves.
pub Lifetime-Turns :
    (s t : WizardResourceSpec) → IsSound s → Lifetime s t → Turns (holders_of s) (holders_of t)
Lifetime-Turns s t h unchanged = none_yet
Lifetime-Turns s t h (then {t = u} k c) =
    and_then (Lifetime-Turns s u h k) (Live-Turn (Lifetime-IsSound h k) c)
