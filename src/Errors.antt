-- ===== src/Errors.antt =====
-- Go's `error` values and the texts that end up in a run's status.
--
-- A formatted text is kept as its format and its arguments (`fmt.Sprintf`, `fmt.Errorf`), since the
-- program never looks into one; it only tests a message for being empty. Chains of errors keep
-- their structure, which `errors.Is` and `errors.As` read.
use fusion_wizard.Prelude.{
  ℕ, Bool, true, false, ◌||◌, ◌&&◌, not, String, List, [], ◌∷◌, Text, is_empty, leb, ◌==◌,
  if◌then◌else◌,
}

mutual
  pub data Message : Type 0 where
    text : Text → Message
    format : String → Args → Message
    -- two messages with ": " between them
    colon : Message → Message → Message
    -- two messages on lines of their own
    lines : Message → Message → Message

  pub data Args : Type 0 where
    end : Args
    text_arg : Text → Args → Args
    number_arg : ℕ → Args → Args
    message_arg : Message → Args → Args

pub record ApiError : Type 0 where
  pub service : Text
  pub method : Text
  pub path : Text
  -- 0 when no response was received
  pub status : ℕ
  pub message : Text

-- `errors.New` and `fmt.Errorf` without `%w` are `plain`; `fmt.Errorf("…: %w")` is `wrap`;
-- `errors.Join` of several errors is `join`.
pub data Error : Type 0 where
  err_terminating err_not_found err_exists : Error
  -- the API server's answers, with their texts: NotFound, AlreadyExists, Conflict, any other
  no_object object_exists update_conflict cluster_failure : Text → Error
  upstream : ApiError → Error
  permanent : Error → Error
  plain : Message → Error
  wrap : Message → Error → Error
  join : Error → Error → Error

-- a joined error of every error of a list, none of an empty one
pub data Joined : Type 0 where
  fine : Joined
  problems : Error → Joined

unfoldable pub join_all : List Error → Joined
join_all [] = fine
join_all (e ∷ es) = elim (join_all es) [
  | fine ↦ problems e
  | problems rest ↦ problems (join e rest)
]

-- Whether the first error of the chain that is an upstream failure satisfies `p`, as `errors.As`
-- finds it: a wrapped error before what it wraps, joined errors in order.
unfoldable pub first_upstream : Error → List ApiError
first_upstream (upstream a) = a ∷ []
first_upstream (permanent e) = first_upstream e
first_upstream (wrap m e) = first_upstream e
first_upstream (join e f) = elim (first_upstream e) [ [] ↦ first_upstream f | a ∷ r ↦ a ∷ r ]
first_upstream _ = []

-- `errors.As(err, &pe)` for a `*PermanentError`
unfoldable pub has_permanent : Error → Bool
has_permanent (permanent e) = true
has_permanent (wrap m e) = has_permanent e
has_permanent (join e f) = has_permanent e || has_permanent f
has_permanent _ = false

-- `errors.Is` with the sentinels of the ledger
unfoldable pub is_terminating : Error → Bool
is_terminating err_terminating = true
is_terminating (permanent e) = is_terminating e
is_terminating (wrap m e) = is_terminating e
is_terminating (join e f) = is_terminating e || is_terminating f
is_terminating _ = false

unfoldable pub is_err_not_found : Error → Bool
is_err_not_found err_not_found = true
is_err_not_found (permanent e) = is_err_not_found e
is_err_not_found (wrap m e) = is_err_not_found e
is_err_not_found (join e f) = is_err_not_found e || is_err_not_found f
is_err_not_found _ = false

unfoldable pub is_err_exists : Error → Bool
is_err_exists err_exists = true
is_err_exists (permanent e) = is_err_exists e
is_err_exists (wrap m e) = is_err_exists e
is_err_exists (join e f) = is_err_exists e || is_err_exists f
is_err_exists _ = false

-- `errors.Is(err, upstream.ErrNotFound)` and `upstream.ErrConflict`: some `APIError` of the chain
-- has the status (`APIError.Is`).
abbrev pub status_is : ℕ → ApiError → Bool
status_is n a = a.status == n

unfoldable pub is_status : ℕ → Error → Bool
is_status n (upstream a) = status_is n a
is_status n (permanent e) = is_status n e
is_status n (wrap m e) = is_status n e
is_status n (join e f) = is_status n e || is_status n f
is_status n _ = false

-- `IsTransient` of upstream/client.go
abbrev pub transient_status : ℕ → Bool
transient_status s = s == 0 || s == 429 || leb 500 s

abbrev any_transient : List ApiError → Bool
any_transient [] = false
any_transient (a ∷ r) = transient_status a.status

unfoldable pub is_transient : Error → Bool
is_transient e = any_transient (first_upstream e)

-- `IsPermanent` of steps/step.go
unfoldable pub is_permanent : Error → Bool
unfolding is_transient has_permanent first_upstream
is_permanent e = has_permanent e || (not (is_empty (first_upstream e)) && not (is_transient e))

-- `(*APIError).Error`
unfoldable pub api_error_message : ApiError → Message
api_error_message a =
    if a.status == 0
    then format "%s: %s %s: %s"
        (text_arg a.service (text_arg a.method (text_arg a.path (text_arg a.message end))))
    else if is_empty a.message
    then format "%s: %s %s: HTTP %d"
        (text_arg a.service (text_arg a.method (text_arg a.path (number_arg a.status end))))
    else format "%s: %s %s: HTTP %d: %s" (
        text_arg a.service
          (text_arg a.method (text_arg a.path (number_arg a.status (text_arg a.message end)))))

-- `err.Error()`; the sentinels have their constant texts
unfoldable pub error_message : Error → Message
unfolding api_error_message
error_message err_terminating = format "ledger entry is being deleted" end
error_message err_not_found = format "ledger entry not found" end
error_message err_exists = format "ledger entry already exists" end
error_message (no_object t) = text t
error_message (object_exists t) = text t
error_message (update_conflict t) = text t
error_message (cluster_failure t) = text t
error_message (upstream a) = api_error_message a
error_message (permanent e) = error_message e
error_message (plain m) = m
error_message (wrap m e) = colon m (error_message e)
error_message (join e f) = lines (error_message e) (error_message f)

-- `m == ""`
unfoldable pub is_blank : Message → Bool
is_blank (text t) = is_empty t
is_blank _ = false
