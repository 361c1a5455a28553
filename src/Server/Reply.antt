-- ===== src/Server/Reply.antt =====
-- internal/apiserver/respond.go: the replies with an error.
use fusion_wizard.Prelude.{ℕ, Bool, true, false, Text, List, []}
use fusion_wizard.Errors.{Message, Error, no_object, format, end, text_arg}

-- a status with the body of `writeError`
pub record ErrorReply : Type 0 where
  pub status : ℕ
  pub message : Message
  pub details : List Message
  -- with the header `WWW-Authenticate: Bearer`
  pub challenge : Bool

abbrev pub write_error : ℕ → Message → ErrorReply
write_error status message = record {
  status = status;
  message = message;
  details = [];
  challenge = false;
}

abbrev pub write_challenge : Message → ErrorReply
write_challenge message = record (write_error 401 message) { challenge = true }

abbrev pub internal_error : ErrorReply
internal_error = write_error 500 (format "internal server error" end)

-- `notFoundOrInternal`
unfoldable pub not_found_or_internal : Error → Text → ErrorReply
not_found_or_internal (no_object t) what =
    write_error 404 (format "%s not found" (text_arg what end))
not_found_or_internal _ what = internal_error

pub data Answer {ℓ} (A : Type ℓ) : Type ℓ where
  refused : ErrorReply → Answer A
  passed : A → Answer A
