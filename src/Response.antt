-- ===== src/Response.antt =====
-- pkg/response/response.go: the error replies. A reply is its status, code and message; the JSON
-- envelope around them and the details are left out.
use goscratch.Base.{ℕ, none, some, if◌then◌else◌, Str, lit, str_eq}
use goscratch.Apperr.{
  GoError, as_app_error, http_status, code_of, message_of, code_unauthorized, code_forbidden,
  code_internal_error,
}

pub record Reply : Type 0 where
  pub status : ℕ
  pub code : Str
  pub message : Str

-- Fail: an application error anywhere on the chain gives its own status, any other error is a 500
unfoldable pub fail : GoError → Reply
unfolding as_app_error
fail e = elim (as_app_error e) [
  | some a ↦ record { status = http_status a; code = code_of a; message = message_of a }
  | none ↦ record {
    status = 500;
    code = code_internal_error;
    message = lit "An unexpected error occurred";
  }
]

unfoldable pub unauthorized : Str → Reply
unauthorized message = record {
  status = 401;
  code = code_unauthorized;
  message = if str_eq message (lit "") then lit "Authentication required" else message;
}

unfoldable pub forbidden : Str → Reply
forbidden message = record {
  status = 403;
  code = code_forbidden;
  message = if str_eq message (lit "") then lit "Access denied" else message;
}
