-- ===== src/Server/Auth/Accounts.antt =====
-- The user names of service accounts.
use fusion_wizard.Prelude.{
  ℕ, ◌≡◌, ◌↔◌, refl, sym, ◌∙◌, ap, subst, Bool, true, false, not, ◌||◌, none, some, List, [], ◌∷◌,
  ◌++◌, Text, codes, text_eq, text_eq_iff, is_empty, ◌==◌, All, arith, if◌then◌else◌, if-rule,
  ==_iff,
}
use fusion_wizard.Params.Ascii.{split, add_to_first, has_byte, join_with}
use fusion_wizard.Server.Auth.{Principal, principal_of_parts, principal_of}

-- Splitting finds the part before the first separator.
split-append : (b : ℕ) (p q : Text) → has_byte b p ≡ false → split b (p ++ b ∷ q) ≡ p ∷ split b q
unfolding split has_byte add_to_first
split-append b [] q h = ground arith
split-append b (c ∷ cs) q h = ground (arith, split-append b cs q)

split_none : (b : ℕ) (p : Text) → has_byte b p ≡ false → split b p ≡ p ∷ []
unfolding split has_byte add_to_first
split_none b [] h = refl
split_none b (c ∷ cs) h = ground (arith, split_none b cs)

-- Joining the parts gives the text back.
join-add_to_first :
    (b c : ℕ) (ps : List Text) → join_with (b ∷ []) (add_to_first c ps) ≡ c ∷ join_with (b ∷ []) ps
unfolding add_to_first join_with
join-add_to_first b c [] = refl
join-add_to_first b c (p ∷ []) = refl
join-add_to_first b c (p ∷ q ∷ ps) = refl

add_clean :
    (b c : ℕ) (ps : List Text)
    → (c == b) ≡ false
    → All (λ p. has_byte b p ≡ false) ps
    → All (λ p. has_byte b p ≡ false) (add_to_first c ps)
unfolding add_to_first has_byte
add_clean b c [] e h = (rw e refl, tt)
add_clean b c (p ∷ ps) e (h, k) = (rw e h, k)

-- The parts of a text have no separator in them.
split_clean : (b : ℕ) (s : Text) → All (λ p. has_byte b p ≡ false) (split b s)
unfolding split has_byte
split_clean b [] = (refl, tt)
split_clean b (c ∷ cs) =
    if-rule (All (λ p. has_byte b p ≡ false)) (c == b) _ _ (λ e. (refl, split_clean b cs))
      (λ e. add_clean b c (split b cs) e (split_clean b cs))

add_some : (c : ℕ) (ps : List Text) → is_empty (add_to_first c ps) ≡ false
unfolding add_to_first
add_some c [] = refl
add_some c (p ∷ ps) = refl

split_some : (b : ℕ) (s : Text) → is_empty (split b s) ≡ false
unfolding split add_to_first
split_some b [] = refl
split_some b (c ∷ cs) =
    if-rule (λ (ps : List Text). is_empty ps ≡ false) (c == b) _ _ (λ e. refl)
      (λ e. add_some c (split b cs))

join_first :
    (b : ℕ) (ps : List Text)
    → is_empty ps ≡ false
    → join_with (b ∷ []) ([] ∷ ps) ≡ b ∷ join_with (b ∷ []) ps
unfolding join_with
join_first b [] h = cc
join_first b (p ∷ ps) h = refl

join-split : (b : ℕ) (s : Text) → join_with (b ∷ []) (split b s) ≡ s
unfolding split
join-split b [] = unfold join_with in refl
join-split b (c ∷ cs) =
    if-rule (λ ps. join_with (b ∷ []) ps ≡ c ∷ cs) (c == b) _ _
      (λ e.
        join_first b (split b cs) (split_some b cs)
        ∙ ap (λ t. b ∷ t) (join-split b cs)
        ∙ ap (λ x. x ∷ cs) (sym ((==_iff c b).0 e)))
      (λ e. join-add_to_first b c (split b cs) ∙ ap (λ t. c ∷ t) (join-split b cs))

-- The user name of a service account: neither part is empty or has a colon.
abbrev pub IsAccount : Text → Principal → Type 0
IsAccount username p =
    (username ≡ codes "system:serviceaccount:" ++ p.namespace ++ b':' ∷ p.name)
    × ((is_empty p.namespace ≡ false) × (has_byte b':' p.namespace ≡ false))
    × ((is_empty p.name ≡ false) × (has_byte b':' p.name ≡ false))

account_parts :
    (namespace name : Text)
    → has_byte b':' namespace ≡ false
    → has_byte b':' name ≡ false
    → split b':' (codes "system:serviceaccount:" ++ namespace ++ b':' ∷ name)
      ≡ codes "system" ∷ codes "serviceaccount" ∷ namespace ∷ name ∷ []
unfolding has_byte
account_parts namespace name h k =
    split-append b':' (codes "system") (codes "serviceaccount:" ++ namespace ++ b':' ∷ name) refl
    ∙ ap (λ ps. codes "system" ∷ ps)
        (split-append b':' (codes "serviceaccount") (namespace ++ b':' ∷ name) refl)
    ∙ ap (λ ps. codes "system" ∷ codes "serviceaccount" ∷ ps)
        (split-append b':' namespace name h ∙ ap (λ ps. namespace ∷ ps) (split_none b':' name k))

parts_accepted :
    (namespace name : Text)
    → is_empty namespace ≡ false
    → is_empty name ≡ false
    → principal_of_parts (codes "system" ∷ codes "serviceaccount" ∷ namespace ∷ name ∷ [])
      ≡ some (record { namespace = namespace; name = name })
unfolding principal_of_parts text_eq
parts_accepted namespace name h k = rw (h, k) refl

IsAccount-accepted :
    (username : Text) (p : Principal) → IsAccount username p → principal_of username ≡ some p
unfolding principal_of
IsAccount-accepted username p (e, (n, m), (k, l)) =
    ap (λ u. principal_of_parts (split b':' u)) e
    ∙ ap principal_of_parts (account_parts p.namespace p.name m l)
    ∙ parts_accepted p.namespace p.name n k

some-injective : {q p : Principal} → some q ≡ some p → q ≡ p
some-injective h = cc

when_accepted :
    (a b c d : Bool) (q p : Principal)
    → (if not a || not b || c || d then none else some q) ≡ some p
    → (a ≡ true) × (b ≡ true) × (c ≡ false) × (d ≡ false) × (q ≡ p)
when_accepted true true false false q p h = (refl, refl, refl, refl, some-injective h)
when_accepted true true false true q p h = cc
when_accepted true true true d q p h = cc
when_accepted true false c d q p h = cc
when_accepted false b c d q p h = cc

-- What four parts are accepted.
parts_account :
    (ps : List Text) (p : Principal)
    → principal_of_parts ps ≡ some p
    → (ps ≡ codes "system" ∷ codes "serviceaccount" ∷ p.namespace ∷ p.name ∷ [])
      × (is_empty p.namespace ≡ false)
      × (is_empty p.name ≡ false)
unfolding principal_of_parts
parts_account (a ∷ s ∷ n ∷ m ∷ []) p h =
    let (sys, acc, ns, nm, e) =
      when_accepted (text_eq a (codes "system")) (text_eq s (codes "serviceaccount")) (is_empty n)
        (is_empty m) (record { namespace = n; name = m }) p h in
    subst
      (λ (q : Principal).
        (a ∷ s ∷ n ∷ m ∷ [] ≡ codes "system" ∷ codes "serviceaccount" ∷ q.namespace ∷ q.name ∷ [])
        × (is_empty q.namespace ≡ false)
        × (is_empty q.name ≡ false))
      e
      (
        ap (λ x. x ∷ s ∷ n ∷ m ∷ []) ((text_eq_iff a _).0 sys)
            ∙ ap (λ x. codes "system" ∷ x ∷ n ∷ m ∷ []) ((text_eq_iff s _).0 acc),
        ns,
        nm,
      )
parts_account [] p h = cc
parts_account (a ∷ []) p h = cc
parts_account (a ∷ s ∷ []) p h = cc
parts_account (a ∷ s ∷ n ∷ []) p h = cc
parts_account (a ∷ s ∷ n ∷ m ∷ x ∷ xs) p h = cc

join_last : (b : ℕ) (xs ys : Text) → xs ++ b ∷ [] ++ ys ≡ xs ++ b ∷ ys
join_last b [] ys = refl
join_last b (x ∷ xs) ys = ap (λ t. x ∷ t) (join_last b xs ys)

IsAccount-found :
    (username : Text) (p : Principal) → principal_of username ≡ some p → IsAccount username p
unfolding principal_of join_with
IsAccount-found username p h =
    let (e, n, m) = parts_account (split b':' username) p h in
    let clean = subst (All (λ q. has_byte b':' q ≡ false)) e (split_clean b':' username) in
    (
      sym (join-split b':' username)
          ∙ ap (join_with (b':' ∷ [])) e
          ∙ ap (λ t. codes "system:serviceaccount:" ++ t) (join_last b':' p.namespace p.name),
      (n, clean.1.1.0),
      (m, clean.1.1.1.0),
    )

-- A user name stands for a service account exactly if it is "system:serviceaccount:" with the
-- account's namespace and name, neither of them empty or with a colon, and a colon between them.
pub principal_of-IsAccount_iff :
    (username : Text) (p : Principal) → (principal_of username ≡ some p) ↔ IsAccount username p
principal_of-IsAccount_iff username p = (IsAccount-found username p, IsAccount-accepted username p)
