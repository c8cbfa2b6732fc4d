-- ===== src/Authn.antt =====
-- internal/platform/http/middleware/auth.go: the authentication middleware. The JWT library and the
-- request's headers and cookies are parameters. The logger's context values are left out.
pub mod Agreement
mod Tests
use goscratch.Base.{
  ℕ, Bool, true, false, ◌||◌, Option, none, some, List, [], ◌∷◌, if◌then◌else◌, drop, Str, lit,
  str_eq, has_prefix, split_on,
}
use goscratch.Apperr.{GoError, app, Result, ok, err, err_bad_request, err_unauthorized}
use goscratch.Response.{Reply, unauthorized}

-- authdomain.Claims; times are numbers, 0 for an absent one
pub record Claims : Type 0 where
  pub subject : Str
  pub user_id : Str
  pub email : Str
  pub name : Str
  pub issuer : Str
  pub audience : List Str
  pub expires_at : ℕ
  pub issued_at : ℕ
  pub not_before : ℕ

pub record AuthConfig : Type 0 where
  pub jwt_secret : Str
  pub jwt_issuer : Str
  pub jwt_audience : Str
  pub token_lookup : Str

unfoldable pub default_auth_config : Str → AuthConfig
default_auth_config secret = record {
  jwt_secret = secret;
  jwt_issuer = lit "goscratch";
  jwt_audience = lit "goscratch-api";
  token_lookup = lit "header:Authorization";
}

pub record Request : Type 0 where
  pub header : Str → Str
  pub cookie : Str → Str

-- jwt.ParseWithClaims at HS256, of a token, the secret, the issuer and the audience that it must
-- have, with the claims in the domain's type; and errors.Is at jwt.ErrTokenExpired
pub record Jwt : Type 0 where
  pub parse_with_claims : Str → Str → Str → Str → Result Claims
  pub is_expired : GoError → Bool

unfoldable pub extract_from : Request → Str → Str → Result Str
extract_from req place name =
    if str_eq place (lit "header")
    then (let value = req.header name in
        if str_eq value (lit "")
        then err (app err_unauthorized)
        else if has_prefix value (lit "Bearer ")
        then ok (drop 7 value)
        else ok value)
    else if str_eq place (lit "cookie")
    then ok (req.cookie name)
    else err (app err_bad_request)

unfoldable pub extract_token : Request → Str → Result Str
unfolding extract_from split_on
extract_token req lookup = elim (split_on b':' lookup) [
  | [] ↦ err (app err_bad_request)
  | ◌∷◌ place rest ↦ elim rest [
    | [] ↦ err (app err_bad_request)
    | ◌∷◌ name more ↦ elim more [
      | [] ↦ extract_from req place name
      | ◌∷◌ _ _ ↦ err (app err_bad_request)
    ]
  ]
]

unfoldable pub parse_token : Jwt → Str → Str → Str → Str → Result Claims
parse_token jwt token secret issuer audience =
    if str_eq issuer (lit "") || str_eq audience (lit "")
    then err (app err_unauthorized)
    else jwt.parse_with_claims token secret issuer audience

-- What the middleware does: it answers, or passes the request on, with claims in its locals (the
-- claims and their user id) or without.
pub data Outcome : Type 0 where
  rejected : Reply → Outcome
  accepted : Claims → Outcome
  anonymous : Outcome

unfoldable pub auth : Jwt → AuthConfig → Request → Outcome
unfolding extract_token parse_token
auth jwt cfg req = elim (extract_token req cfg.token_lookup) [
  | err _ ↦ rejected (unauthorized (lit "Missing or invalid token"))
  | ok token ↦ elim (parse_token jwt token cfg.jwt_secret cfg.jwt_issuer cfg.jwt_audience) [
    | err e ↦
        if jwt.is_expired e
        then rejected (unauthorized (lit "Token has expired"))
        else rejected (unauthorized (lit "Invalid token"))
    | ok claims ↦ accepted claims
  ]
]

unfoldable pub optional_auth : Jwt → AuthConfig → Request → Outcome
unfolding extract_token parse_token
optional_auth jwt cfg req = elim (extract_token req cfg.token_lookup) [
  | err _ ↦ anonymous
  | ok token ↦
      if str_eq token (lit "")
      then anonymous
      else elim (parse_token jwt token cfg.jwt_secret cfg.jwt_issuer cfg.jwt_audience) [
        | err _ ↦ anonymous
        | ok claims ↦ accepted claims
      ]
]
