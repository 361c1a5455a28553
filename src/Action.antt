-- ===== src/Action.antt =====
-- Go functions that act on the outside world and may return an `error`: the world comes back
-- beside the error too, since what was done before it stays done.
use fusion_wizard.Prelude.{◌≡◌, refl, ◌⊎◌, inl, inr}
use fusion_wizard.Errors.{Error}

pub data Result {ℓ} (A : Type ℓ) : Type ℓ where
  ok : A → Result A
  err : Error → Result A

pub Result-cases {ℓ} :
    {A : Type ℓ} (r : Result A) → ((a : A) × (r ≡ ok a)) ⊎ ((x : Error) × (r ≡ err x))
Result-cases (ok a) = inl (a, refl)
Result-cases (err x) = inr (x, refl)

pub ok-injective {ℓ} : {A : Type ℓ} {a b : A} → ok a ≡ ok b → a ≡ b
ok-injective h = cc

pub ok-ne-err {ℓ} : {A : Type ℓ} {a : A} {x : Error} → ok a ≡ err x → ⊥
ok-ne-err h = cc

abbrev pub Action : Type 0 → Type 0 → Type 0
Action W A = W → Result A × W

module _ {W A : Type 0} where
  abbrev pub pure : A → Action W A
  pure a w = (ok a, w)

  abbrev pub raise : Error → Action W A
  raise e w = (err e, w)

module _ {W A B : Type 0} where
  abbrev pub continue : Result A → (A → Action W B) → Action W B
  continue (ok a) f w = f a w
  continue (err e) f w = (err e, w)

  infixl 10 ◌>>=◌ ◌>>◌
  abbrev pub ◌>>=◌ : Action W A → (A → Action W B) → Action W B
  ◌>>=◌ m f w = let (r, w') = m w in continue r f w'

  abbrev pub ◌>>◌ : Action W A → Action W B → Action W B
  m >> n = m >>= λ _. n

  continue-ok :
      (r : Result A) (f : A → Action W B) (w : W) {b : B}
      → (continue r f w).0 ≡ ok b
      → (a : A) × (r ≡ ok a) × (continue r f w ≡ f a w)
  continue-ok (ok a) f w h = (a, refl, refl)
  continue-ok (err e) f w h = cc

  -- A chain that ended well went through its first part.
  pub bind-ok :
      (m : Action W A) (f : A → Action W B) (w : W) {b : B}
      → ((m >>= f) w).0 ≡ ok b
      → (a : A) × ((m w).0 ≡ ok a) × ((m >>= f) w ≡ f a (m w).1)
  bind-ok m f w h = continue-ok (m w).0 f (m w).1 h

-- `v, err := m()` where the code goes on after the error
module _ {W A : Type 0} where
  abbrev pub attempt : Action W A → Action W (Result A)
  attempt m w = let (r, w') = m w in (ok r, w')
