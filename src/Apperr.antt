-- ===== src/Apperr.antt =====
-- pkg/apperr/error.go: the application error, and Go's `error` values in general. `plain` is an
-- error made by errors.New, by fmt.Errorf without %w or by code outside the repository; `wrapped`
-- is fmt.Errorf with %w. A Go function that returns (T, error) returns a `Result T` here where it
-- gives a value only without an error.
mod Laws
use goscratch.Base.{
  ◌≡◌, refl, ◌⊎◌, inl, inr, ℕ, Option, none, some, Bool, true, false, ◌++◌, Str, str_eq, lit,
}

mutual
  -- a non-nil `error`
  pub data GoError : Type 0 where
    plain : Str → GoError
    wrapped : Str → GoError → GoError
    app : AppError → GoError

  -- *apperr.Error
  pub data AppError : Type 0 where
    app_error : Str → Str → ℕ → Cause → AppError

  -- the field Err, which may be nil
  pub data Cause : Type 0 where
    no_cause : Cause
    caused_by : GoError → Cause

abbrev pub code_of : AppError → Str
code_of (app_error code message status cause) = code

abbrev pub message_of : AppError → Str
message_of (app_error code message status cause) = message

abbrev pub http_status : AppError → ℕ
http_status (app_error code message status cause) = status

abbrev pub cause_of : AppError → Cause
cause_of (app_error code message status cause) = cause

pub data Result {ℓ} (A : Type ℓ) : Type ℓ where
  ok : A → Result A
  err : GoError → Result A

unfoldable mutual
  -- (*Error).Error, and the texts of the other errors
  pub error_text : GoError → Str
  error_text (plain text) = text
  error_text (wrapped text e) = text ++ lit ": " ++ error_text e
  error_text (app a) = app_error_text a

  pub app_error_text : AppError → Str
  app_error_text (app_error code message status cause) =
      code ++ lit ": " ++ message ++ cause_text cause

  pub cause_text : Cause → Str
  cause_text no_cause = lit ""
  cause_text (caused_by e) = lit ": " ++ error_text e

unfoldable pub unwrap : AppError → Option GoError
unwrap (app_error code message status no_cause) = none
unwrap (app_error code message status (caused_by e)) = some e

unfoldable pub new : Str → Str → ℕ → AppError
new code message status = app_error code message status no_cause

unfoldable pub wrap : GoError → Str → Str → ℕ → AppError
wrap e code message status = app_error code message status (caused_by e)

unfoldable pub with_message : AppError → Str → AppError
with_message (app_error code message status cause) text = app_error code text status cause

unfoldable pub with_error : AppError → GoError → AppError
with_error (app_error code message status cause) e = app_error code message status (caused_by e)

-- AsAppError: the first application error on the chain that errors.As walks
unfoldable pub as_app_error : GoError → Option AppError
as_app_error (plain text) = none
as_app_error (wrapped text e) = as_app_error e
as_app_error (app a) = some a

-- (*Error).Is
unfoldable pub same_code : AppError → GoError → Bool
unfolding as_app_error
same_code a target = elim (as_app_error target) [
  | none ↦ false
  | some b ↦ str_eq (code_of a) (code_of b)
]

abbrev pub code_bad_request : Str
code_bad_request = lit "BAD_REQUEST"

abbrev pub code_unauthorized : Str
code_unauthorized = lit "UNAUTHORIZED"

abbrev pub code_forbidden : Str
code_forbidden = lit "FORBIDDEN"

abbrev pub code_not_found : Str
code_not_found = lit "NOT_FOUND"

abbrev pub code_conflict : Str
code_conflict = lit "CONFLICT"

abbrev pub code_unsupported_media : Str
code_unsupported_media = lit "UNSUPPORTED_MEDIA_TYPE"

abbrev pub code_internal_error : Str
code_internal_error = lit "INTERNAL_ERROR"

unfoldable pub err_unauthorized : AppError
unfolding new
err_unauthorized = new code_unauthorized (lit "Authentication is required") 401

unfoldable pub err_internal : AppError
unfolding new
err_internal = new code_internal_error (lit "An internal error occurred") 500

unfoldable pub err_bad_request : AppError
unfolding new
err_bad_request = new code_bad_request (lit "The request was invalid or malformed") 400

-- The formatted constructors take the text that fmt.Sprintf makes.
unfoldable pub not_foundf : Str → AppError
unfolding new
not_foundf message = new code_not_found message 404

unfoldable pub bad_requestf : Str → AppError
unfolding new
bad_requestf message = new code_bad_request message 400

unfoldable pub conflictf : Str → AppError
unfolding new
conflictf message = new code_conflict message 409

unfoldable pub internalf : Str → AppError
unfolding new
internalf message = new code_internal_error message 500

unfoldable pub unsupported_media_typef : Str → AppError
unfolding new
unsupported_media_typef message = new code_unsupported_media message 415

pub Result-cases {ℓ} :
    {A : Type ℓ} (r : Result A) → ((a : A) × (r ≡ ok a)) ⊎ ((e : GoError) × (r ≡ err e))
Result-cases (ok a) = inl (a, refl)
Result-cases (err e) = inr (e, refl)
