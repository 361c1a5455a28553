-- ===== src/Steps/Tagging/Deleted.antt =====
-- Deleting the tag that the tag step has set.
use fusion_wizard.Prelude.{
  ℕ, suc, ◌≡◌, refl, sym, ◌∙◌, ap, Bool, true, false, ◌||◌, ◌==◌, Option, none, some, [], ◌∷◌, ◌++◌,
  Text, text_eq, length, drop, arith,
}
use fusion_wizard.Prelude.Int.{ℤ}
use fusion_wizard.Api.Resource.{WizardResourceSpec}
use fusion_wizard.Action.{ok, pure, bind-ok, ok-injective}
use fusion_wizard.Cluster.{Cluster}
use fusion_wizard.Params.Ascii.{has_byte, last_index}
use fusion_wizard.Steps.Numbers.{format_int, InRange, parse_int-format_int}
use fusion_wizard.Steps.Delete.{Deleters, delete_upstream}
use fusion_wizard.Steps.Forge.{Config}
use fusion_wizard.Steps.Tagging.{TagClient, managed_tag, point_tag}

no_head : (head rest : Bool) → head || rest ≡ false → (head ≡ false) × (rest ≡ false)
no_head true rest h = cc
no_head false rest h = (refl, h)

same_byte : (b : ℕ) → (b == b) ≡ true
same_byte b = ground arith

last_index-none : (b : ℕ) (t : Text) → has_byte b t ≡ false → last_index b t ≡ none
unfolding has_byte last_index
last_index-none b [] h = refl
last_index-none b (c ∷ cs) h =
    let (first, later) = no_head (c == b) (has_byte b cs) h in
    rw (last_index-none b cs later, first) refl

last_index-append :
    (b : ℕ) (a t : Text) → has_byte b t ≡ false → last_index b (a ++ b ∷ t) ≡ some (length a)
unfolding last_index
last_index-append b [] t h = rw (last_index-none b t h, same_byte b) refl
last_index-append b (c ∷ cs) t h = rw (last_index-append b cs t h) refl

drop-append : (a : Text) (b : ℕ) (t : Text) → drop (suc (length a)) (a ++ b ∷ t) ≡ t
drop-append [] b t = refl
drop-append (c ∷ cs) b t = drop-append cs b t

module _ {W : Type 0} (cluster : Cluster W) (sum : Text → Text) (client : TagClient W)
    (cfg : Config) (up : Deleters W) (tag_at : W → ℤ → Text → Option Text)
    (set_law : (id : ℤ) (tag version : Text) (w : W)
      → (client.set_tag id tag version w).0 ≡ ok tt
      → tag_at (client.set_tag id tag version w).1 id tag ≡ some version) where
  create-ok :
      (a name version : Text) (id : ℤ) (w : W) (external : Text)
      → ((managed_tag cluster sum client cfg a name version id).create w).0 ≡ ok external
      → (external ≡ format_int id)
        × (tag_at ((managed_tag cluster sum client cfg a name version id).create w).1 id name
            ≡ some version)
  unfolding managed_tag point_tag
  create-ok a name version id w external h =
      let (u, done, rest) =
        bind-ok (client.set_tag id name version) (λ u. pure (format_int id)) w h in
      (
        ok-injective (sym h ∙ ap (λ p. p.0) rest),
        ap (λ p. tag_at p.1 id name) rest ∙ set_law id name version w done,
      )

  -- Let the index hold a version under a tag of an artifact once `SetTag` has put it there. When
  -- the tag step's `Create` succeeds, the artifact's tag is at the step's version, and the deletion
  -- of a ledger entry with the step's key and with the external ID that `Create` returned deletes
  -- this tag of this artifact, where the tag has no colon and the artifact's ID fits in 64 bits.
  pub managed_tag-delete_upstream :
      (artifact_name name version : Text) (id : ℤ) (s : WizardResourceSpec) (w : W)
      → InRange id
      → has_byte b':' name ≡ false
      → s.service ≡ (managed_tag cluster sum client cfg artifact_name name version id).key.service
      → s.kind ≡ (managed_tag cluster sum client cfg artifact_name name version id).key.kind
      → s.name ≡ (managed_tag cluster sum client cfg artifact_name name version id).key.name
      → ((managed_tag cluster sum client cfg artifact_name name version id).create w).0
        ≡ ok s.external_id
      → (tag_at
            ((managed_tag cluster sum client cfg artifact_name name version id).create w).1
            id
            name
          ≡ some version)
        × (delete_upstream up s ≡ up.delete_tag id name)
  unfolding delete_upstream managed_tag text_eq
  managed_tag-delete_upstream a name version id s w range colon service kind named made =
      let (external, there) = create-ok a name version id w s.external_id made in
      (
        there,
        rw
            (
              service,
              kind,
              named,
              external,
              parse_int-format_int id range,
              last_index-append b':' a name colon,
            )
            (ap (up.delete_tag id) (drop-append a b':' name)),
      )
