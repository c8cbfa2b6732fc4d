-- ===== src/Authn/Agreement.antt =====
-- The two authentication handlers against each other.
use goscratch.Base.{
  ◌≡◌, ◌≢◌, ◌⊎◌, inl, inr, refl, true, false, arith, Str, lit, str_eq, str_eq_iff, Bool-cases,
}
use goscratch.Apperr.{ok, Result-cases}
use goscratch.Response.{Reply, unauthorized}
use goscratch.Authn.{
  Claims, AuthConfig, Request, Jwt, rejected, accepted, anonymous, extract_token, parse_token, auth,
  optional_auth,
}

-- A library that takes no empty token; JWT tokens have three parts.
abbrev pub RejectsEmpty : Jwt → Type 0
RejectsEmpty jwt =
    (secret issuer audience : Str) (c : Claims)
    → jwt.parse_with_claims (lit "") secret issuer audience ≢ ok c

empty_token :
    (jwt : Jwt) (token secret issuer audience : Str) (c : Claims)
    → RejectsEmpty jwt
    → str_eq token (lit "") ≡ true
    → parse_token jwt token secret issuer audience ≢ ok c
unfolding parse_token
empty_token jwt token secret issuer audience c rejects empty h =
    ground (arith, str_eq_iff token (lit ""), rejects secret issuer audience c)

-- With a library that takes no empty token, the two handlers accept the same requests with the same
-- claims: either both accept, and then the server has an issuer and an audience and the library
-- took a token for these; or Auth answers 401 and OptionalAuth passes the request on without
-- claims.
pub auth-optional_auth :
    (jwt : Jwt) (cfg : AuthConfig) (req : Request)
    → RejectsEmpty jwt
    → ((c : Claims) × (token : Str) × (auth jwt cfg req ≡ accepted c)
        × (optional_auth jwt cfg req ≡ accepted c)
        × (jwt.parse_with_claims token cfg.jwt_secret cfg.jwt_issuer cfg.jwt_audience ≡ ok c)
        × (str_eq cfg.jwt_issuer (lit "") ≡ false)
        × (str_eq cfg.jwt_audience (lit "") ≡ false))
      ⊎ ((r : Reply) × (auth jwt cfg req ≡ rejected r)
          × (r.status ≡ 401)
          × (optional_auth jwt cfg req ≡ anonymous))
unfolding auth optional_auth unauthorized parse_token
auth-optional_auth jwt cfg req rejects = elim (Result-cases (extract_token req cfg.token_lookup)) [
  | inr (e, missing) ↦
      inr (unauthorized (lit "Missing or invalid token"), ground arith, refl, ground arith)
  | inl (token, given) ↦
      elim (Result-cases (parse_token jwt token cfg.jwt_secret cfg.jwt_issuer cfg.jwt_audience)) [
        | inr (e, invalid) ↦ elim (Bool-cases (jwt.is_expired e)) [
          | inl expired ↦
              inr (unauthorized (lit "Token has expired"), ground arith, refl, ground arith)
          | inr other ↦ inr (unauthorized (lit "Invalid token"), ground arith, refl, ground arith)
        ]
        | inl (c, valid) ↦ elim (Bool-cases (str_eq token (lit ""))) [
          | inl empty ↦ absurd (
              empty_token jwt token cfg.jwt_secret cfg.jwt_issuer cfg.jwt_audience c rejects empty
                valid)
          | inr nonempty ↦
              inl (c, token, ground arith, ground arith, ground arith, ground arith, ground arith)
        ]
      ]
]
