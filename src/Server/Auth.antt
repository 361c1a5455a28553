-- ===== src/Server/Auth.antt =====
-- internal/apiserver/auth.go: who is making a request.
pub mod Laws
pub mod Accounts
use fusion_wizard.Prelude.{
  ℕ, Bool, true, false, not, ◌&&◌, ◌||◌, Option, none, some, List, [], ◌∷◌, ◌++◌, Text, codes,
  contains, text_eq, is_empty, length, leb, ltb, ◌==◌, if◌then◌else◌,
}
use fusion_wizard.Errors.{Message, Error, format, end, text_arg}
use fusion_wizard.Action.{Result, ok, err, Action}
use fusion_wizard.Params.Ascii.{to_lower, trim_space, split}
use fusion_wizard.Server.Reply.{ErrorReply, write_error, write_challenge, Answer, refused, passed}

abbrev pub header_user_id : Text
header_user_id = codes "X-User-ID"

abbrev pub header_user_email : Text
header_user_email = codes "X-User-Email"

abbrev pub max_header_len : ℕ
max_header_len = 256

pub record Principal : Type 0 where
  pub namespace : Text
  pub name : Text

-- `(Principal).String`
abbrev pub principal_text : Principal → Text
principal_text p = p.namespace ++ codes "/" ++ p.name

pub record Caller : Type 0 where
  pub principal : Text
  pub user_id : Text
  pub user_email : Text

-- `r.Header.Get`
abbrev pub Headers : Type 0
Headers = Text → Text

-- of the server's configuration what the middleware reads; `allowed` lists the keys of the set
pub record AuthConfig : Type 0 where
  pub allow_unauthenticated : Bool
  pub allowed : List Text

-- `strings.Cut` at one byte
cut_at_byte : ℕ → Text → Text × Text × Bool
cut_at_byte b [] = ([], [], false)
cut_at_byte b (c ∷ cs) =
    let (before, after, found) = cut_at_byte b cs in
    if c == b then ([], cs, true) else (c ∷ before, after, found)

-- `strings.EqualFold` on ASCII texts
abbrev equal_fold : Text → Text → Bool
equal_fold a b = text_eq (to_lower a) (to_lower b)

unfoldable pub bearer_token : Headers → Option Text
unfolding cut_at_byte trim_space text_eq to_lower
bearer_token header =
    let (scheme, rest, found) = cut_at_byte 32 (header (codes "Authorization")) in
    let token = trim_space rest in
    if not found || not (equal_fold scheme (codes "Bearer")) || is_empty token
    then none
    else some token

-- `c < 0x20 || c == 0x7f`
abbrev pub is_control : ℕ → Bool
is_control c = ltb c 32 || c == 127

pub has_control : Text → Bool
has_control [] = false
has_control (c ∷ cs) = is_control c || has_control cs

-- The bytes of a rune beyond ASCII are no control characters, so the loop may go by bytes.
unfoldable pub header_value : Headers → Text → Option Text
unfolding has_control trim_space
header_value header name =
    let v = trim_space (header name) in
    if ltb max_header_len (length v) || has_control v then none else some v

-- the parts of "system:serviceaccount:<namespace>:<name>"
unfoldable pub principal_of_parts : List Text → Option Principal
unfolding text_eq
principal_of_parts (system ∷ account ∷ namespace ∷ name ∷ []) =
    if not (text_eq system (codes "system"))
      || not (text_eq account (codes "serviceaccount"))
      || is_empty namespace
      || is_empty name
    then none
    else some (record { namespace = namespace; name = name })
principal_of_parts _ = none

unfoldable pub principal_of : Text → Option Principal
unfolding principal_of_parts split
principal_of username = principal_of_parts (split b':' username)

module _ {W : Type 0} (review : Text → Action W (Bool × Text)) where
  reviewed : Result (Bool × Text) → Result (Option Principal)
  unfolding principal_of
  reviewed (err x) = err x
  reviewed (ok (authenticated, username)) =
      if not authenticated then ok none else ok (principal_of username)

  -- `(*TokenReviewAuthenticator).Authenticate`; `review` is the TokenReview API's answer: whether
  -- the token is authenticated, and its user name
  unfoldable pub review_token : Text → Action W (Option Principal)
  unfolding reviewed
  review_token token w = let (r, w') = review token w in (reviewed r, w')

module _ {W : Type 0} (authenticate : Text → Action W (Option Principal)) (cfg : AuthConfig) where
  with_email : Text → Text → Option Text → Answer Caller
  with_email principal user_id none =
      refused (write_error 400 (format "invalid %s header" (text_arg header_user_email end)))
  with_email principal user_id (some email) =
      passed (record { principal = principal; user_id = user_id; user_email = email })

  with_user : Text → Headers → Option Text → Answer Caller
  unfolding with_email header_value
  with_user principal header none =
      refused (write_error 400 (format "invalid %s header" (text_arg header_user_id end)))
  with_user principal header (some user_id) =
      with_email principal user_id (header_value header header_user_email)

  named_caller : Text → Headers → Answer Caller
  unfolding with_user header_value
  named_caller principal header = with_user principal header (header_value header header_user_id)

  with_principal : Headers → Result (Option Principal) → Answer Caller
  unfolding named_caller contains
  with_principal header (err x) =
      refused (write_error 503 (format "authentication is temporarily unavailable" end))
  with_principal header (ok none) = refused (write_challenge (format "invalid token" end))
  with_principal header (ok (some p)) =
      if contains cfg.allowed (principal_text p)
      then named_caller (principal_text p) header
      else refused (write_error 403 (format "service account is not allowed to use this API" end))

  with_token : Headers → Option Text → W → Answer Caller × W
  unfolding with_principal
  with_token header none w = (refused (write_challenge (format "missing bearer token" end)), w)
  with_token header (some token) w =
      let (r, w') = authenticate token w in (with_principal header r, w')

  -- what the middleware does before it calls the next handler; `passed` is that call's caller
  unfoldable pub auth_middleware : Headers → W → Answer Caller × W
  unfolding with_token named_caller bearer_token
  auth_middleware header w =
      if cfg.allow_unauthenticated
      then (named_caller (codes "anonymous") header, w)
      else with_token header (bearer_token header) w
