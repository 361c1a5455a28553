-- ===== src/Server/Auth/Laws.antt =====
-- Whom the middleware lets through.
use fusion_wizard.Prelude.{
  ◌≤◌, ◌≡◌, refl, sym, ◌∙◌, ◌⊎◌, inl, inr, true, false, ◌||◌, Option, none, some, [], ◌∷◌, Text,
  codes, contains, length, ltb, All, if-rule, subst, Bool-cases, arith, if◌then◌else◌,
}
use fusion_wizard.Action.{Result, ok, err, Action}
use fusion_wizard.Params.Ascii.{trim_space}
use fusion_wizard.Server.Reply.{Answer, refused, passed}
use fusion_wizard.Server.Auth.{
  Principal, principal_text, Caller, Headers, AuthConfig, max_header_len, bearer_token, is_control,
  has_control, header_value, header_user_id, header_user_email, with_email, with_user, named_caller,
  with_principal, with_token, auth_middleware,
}

-- short, and without control characters
abbrev pub IsClean : Text → Type 0
IsClean v = (length v ≤ max_header_len) × All (λ c. is_control c ≡ false) v

no_control : (v : Text) → has_control v ≡ false → All (λ c. is_control c ≡ false) v
unfolding has_control
no_control [] h = tt
no_control (c ∷ cs) h = (ground (arith), no_control cs (ground arith))

some-injective : {a b : Text} → some a ≡ some b → a ≡ b
some-injective h = cc

none-ne-some : {a : Text} → none ≡ some a → ⊥
none-ne-some h = cc

IsClean-value :
    (t v : Text)
    → (if ltb max_header_len (length t) || has_control t then none else some t) ≡ some v
    → (v ≡ t) × IsClean t
IsClean-value t v h = elim (Bool-cases (ltb max_header_len (length t) || has_control t)) [
  | inl e ↦ absurd (none-ne-some (rw e at h))
  | inr e ↦ (sym (some-injective (rw e at h)), (ground arith, no_control t (ground arith)))
]

-- The text is the trimmed value of the header, and clean.
abbrev pub IsStated : Headers → Text → Text → Type 0
IsStated header name v = (v ≡ trim_space (header name)) × IsClean v

stated :
    (header : Headers) (name v : Text) → header_value header name ≡ some v → IsStated header name v
unfolding header_value
stated header name v h =
    let (e, clean) = IsClean-value (trim_space (header name)) v h in
    (e, subst IsClean (sym e) clean)

-- Who is let through has the principal, and states the user by clean headers.
abbrev pub IsNamed : Text → Headers → Answer Caller → Type 0
IsNamed principal header (refused reply) = Unit
IsNamed principal header (passed c) =
    (c.principal ≡ principal)
    × IsStated header header_user_id c.user_id
    × IsStated header header_user_email c.user_email

module _ {W : Type 0} (authenticate : Text → Action W (Option Principal)) (cfg : AuthConfig) where
  with_email-IsNamed :
      (principal user_id : Text) (header : Headers) (email : Option Text)
      → IsStated header header_user_id user_id
      → header_value header header_user_email ≡ email
      → IsNamed principal header (with_email authenticate cfg principal user_id email)
  unfolding with_email
  with_email-IsNamed principal user_id header none h e = tt
  with_email-IsNamed principal user_id header (some v) h e =
      (refl, h, stated header header_user_email v e)

  with_user-IsNamed :
      (principal : Text) (header : Headers) (user : Option Text)
      → header_value header header_user_id ≡ user
      → IsNamed principal header (with_user authenticate cfg principal header user)
  unfolding with_user
  with_user-IsNamed principal header none e = tt
  with_user-IsNamed principal header (some v) e =
      with_email-IsNamed principal v header (header_value header header_user_email)
        (stated header header_user_id v e) refl

  named_caller-IsNamed :
      (principal : Text) (header : Headers)
      → IsNamed principal header (named_caller authenticate cfg principal header)
  unfolding named_caller
  named_caller-IsNamed principal header =
      with_user-IsNamed principal header (header_value header header_user_id) refl

  -- The token authenticates an account of the allowlist, of that name.
  abbrev pub IsVouched : Headers → W → Text → Type 0
  IsVouched header w principal =
      (token : Text) × (p : Principal) × (bearer_token header ≡ some token)
      × ((authenticate token w).0 ≡ ok (some p))
      × (contains cfg.allowed (principal_text p) ≡ true)
      × (principal ≡ principal_text p)

  -- what holds of an answer that lets a caller through
  Admits : Headers → W → Answer Caller → Type 0
  Admits header w (refused reply) = Unit
  Admits header w (passed c) =
      (((cfg.allow_unauthenticated ≡ true) × (c.principal ≡ codes "anonymous"))
        ⊎ IsVouched header w c.principal)
      × IsStated header header_user_id c.user_id
      × IsStated header header_user_email c.user_email

  IsNamed-Admits :
      (header : Headers) (w : W) (principal : Text) (a : Answer Caller)
      → ((cfg.allow_unauthenticated ≡ true) × (principal ≡ codes "anonymous"))
        ⊎ IsVouched header w principal
      → IsNamed principal header a
      → Admits header w a
  unfolding Admits
  IsNamed-Admits header w principal (refused reply) h n = tt
  IsNamed-Admits header w principal (passed c) (inl (allow, e)) (n, id, email) =
      (inl (allow, n ∙ e), id, email)
  IsNamed-Admits header w principal (passed c) (inr (token, p, b, a, known, e)) (n, id, email) =
      (inr (token, p, b, a, known, n ∙ e), id, email)

  with_principal-Admits :
      (header : Headers) (w : W) (token : Text) (r : Result (Option Principal))
      → bearer_token header ≡ some token
      → (authenticate token w).0 ≡ r
      → Admits header w (with_principal authenticate cfg header r)
  unfolding with_principal Admits
  with_principal-Admits header w token (err x) b e = tt
  with_principal-Admits header w token (ok none) b e = tt
  with_principal-Admits header w token (ok (some p)) b e =
      if-rule (Admits header w) (contains cfg.allowed (principal_text p)) _ _
        (λ known.
          IsNamed-Admits header w (principal_text p)
            (named_caller authenticate cfg (principal_text p) header)
            (inr (token, p, b, e, known, refl)) (named_caller-IsNamed (principal_text p) header))
        (λ _. tt)

  with_token-Admits :
      (header : Headers) (w : W) (token : Option Text)
      → bearer_token header ≡ token
      → Admits header w (with_token authenticate cfg header token w).0
  unfolding with_token Admits
  with_token-Admits header w none b = tt
  with_token-Admits header w (some token) b =
      with_principal-Admits header w token (authenticate token w).0 b refl

  auth_middleware-Admits :
      (header : Headers) (w : W) → Admits header w (auth_middleware authenticate cfg header w).0
  unfolding auth_middleware
  auth_middleware-Admits header w =
      if-rule (λ (r : Answer Caller × W). Admits header w r.0) cfg.allow_unauthenticated _ _
        (λ e.
          IsNamed-Admits header w (codes "anonymous")
            (named_caller authenticate cfg (codes "anonymous") header) (inl (e, refl))
            (named_caller-IsNamed (codes "anonymous") header))
        (λ _. with_token-Admits header w (bearer_token header) refl)

  -- A request reaches the handlers only if the server accepts unauthenticated requests, and then as
  -- "anonymous", or if its bearer token authenticates an account of the allowlist, and then as that
  -- account. The user's ID and email that it states are the trimmed headers, at most 256 bytes long
  -- and without control characters.
  pub auth_middleware-IsVouched :
      (header : Headers) (w : W) (c : Caller)
      → (auth_middleware authenticate cfg header w).0 ≡ passed c
      → (((cfg.allow_unauthenticated ≡ true) × (c.principal ≡ codes "anonymous"))
          ⊎ IsVouched header w c.principal)
        × IsStated header header_user_id c.user_id
        × IsStated header header_user_email c.user_email
  unfolding Admits
  auth_middleware-IsVouched header w c h =
      subst (Admits header w) h (auth_middleware-Admits header w)
