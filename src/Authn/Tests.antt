-- ===== src/Authn/Tests.antt =====
-- A library that takes one token.
use goscratch.Base.{
  ◌≡◌, ◌⊎◌, refl, false, [], ◌∷◌, arith, if◌then◌else◌, Str, lit, str_eq, has_prefix, split_on,
}
use goscratch.Apperr.{plain, ok, err}
use goscratch.Response.{Reply}
use goscratch.Authn.{
  Claims, AuthConfig, Request, Jwt, rejected, accepted, anonymous, auth, optional_auth,
  extract_token, extract_from, parse_token, default_auth_config,
}
use goscratch.Authn.Agreement.{RejectsEmpty, auth-optional_auth}

abbrev claims : Claims
claims = record {
  subject = lit "a1";
  user_id = lit "a1";
  email = lit "alice@example.com";
  name = lit "Alice";
  issuer = lit "goscratch";
  audience = lit "goscratch-api" ∷ [];
  expires_at = 900;
  issued_at = 0;
  not_before = 0;
}

abbrev jwt : Jwt
jwt = record {
  parse_with_claims = λ token secret issuer audience.
      if str_eq token (lit "a.b.c") then ok claims else err (plain (lit "token is malformed"));
  is_expired = λ e. false;
}

rejects : RejectsEmpty jwt
unfolding str_eq lit
rejects secret issuer audience c = λ h. absurd (ground arith)

abbrev request : Request
request = record { header = λ name. lit "Bearer a.b.c"; cookie = λ name. [] }

abbrev config : AuthConfig
config = default_auth_config (lit "secret")

accepts : auth jwt config request ≡ accepted claims
unfolding auth default_auth_config extract_token extract_from parse_token str_eq lit has_prefix
    split_on
accepts = refl

auth-optional_auth_example :
    ((c : Claims) × (token : Str) × (auth jwt config request ≡ accepted c)
      × (optional_auth jwt config request ≡ accepted c)
      × (jwt.parse_with_claims token config.jwt_secret config.jwt_issuer config.jwt_audience ≡ ok c)
      × (str_eq config.jwt_issuer (lit "") ≡ false)
      × (str_eq config.jwt_audience (lit "") ≡ false))
    ⊎ ((r : Reply) × (auth jwt config request ≡ rejected r)
        × (r.status ≡ 401)
        × (optional_auth jwt config request ≡ anonymous))
auth-optional_auth_example = auth-optional_auth jwt config request rejects
