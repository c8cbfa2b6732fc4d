-- ===== src/Apperr/Laws.antt =====
-- How the application error survives wrapping (pkg/apperr/error.go).
use goscratch.Base.{◌≡◌, refl, some, true, arith, List, [], ◌∷◌, Str, str_eq_refl}
use goscratch.Apperr.{
  GoError, AppError, app_error, wrapped, app, caused_by, http_status, unwrap, with_message,
  with_error, as_app_error, same_code,
}

-- a chain of fmt.Errorf("…: %w", err) calls around an error
abbrev pub wrap_all : List Str → GoError → GoError
wrap_all [] e = e
wrap_all (t ∷ ts) e = wrapped t (wrap_all ts e)

as_app_error-wrap_all :
    (ts : List Str) (e : GoError) → as_app_error (wrap_all ts e) ≡ as_app_error e
unfolding as_app_error
as_app_error-wrap_all [] e = refl
as_app_error-wrap_all (t ∷ ts) e = as_app_error-wrap_all ts e

-- For every application error, replacement message, attached error and chain of wrapping texts:
-- the error with that message and that attached error, wrapped by the whole chain, is found again
-- by AsAppError with the status of the original, unwraps to the attached error, and is matched
-- by Is of the original.
pub as_app_error-wrapped :
    (a : AppError) (text : Str) (e : GoError) (ts : List Str)
    → let b = with_error (with_message a text) e in
      (as_app_error (wrap_all ts (app b)) ≡ some b)
      × (http_status b ≡ http_status a)
      × (unwrap b ≡ some e)
      × (same_code a (wrap_all ts (app b)) ≡ true)
unfolding as_app_error same_code with_error with_message unwrap
as_app_error-wrapped (app_error code message status cause) text e ts =
    let b = app_error code text status (caused_by e) in
    let found = as_app_error-wrap_all ts (app b) in
    (found, refl, refl, ground (arith, found, str_eq_refl code))
