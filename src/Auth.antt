-- ===== src/Auth.antt =====
-- internal/module/auth/usecase/auth_usecase.go: login, refresh, logout and the revocation of all
-- sessions. The user repository, bcrypt, SHA-256, the JWT signer and the source of random tokens
-- are outside or behind an interface: they are the parameter `Env`. The state is the cache's. TTLs
-- are in nanoseconds, expires_in in seconds, as in the source; the products are of 64 bits, and an
-- int is its bit pattern.
pub mod Sessions
pub mod Rotation
pub mod Revocation
pub mod NoOp
pub mod Tests
use goscratch.Base.{
  ℕ, Option, none, some, ◌++◌, List, [], ◌∷◌, if◌then◌else◌, Str, lit, str_eq, Bool, not,
}
use goscratch.Base.Int64.{mul_64}
use goscratch.Apperr.{
  GoError, app, AppError, Result, ok, err, err_unauthorized, with_message, internalf,
}
use goscratch.Port.CacheStore.{CacheStore}

pub record User : Type 0 where
  pub id : Str
  pub email : Str
  pub password_hash : Str
  pub name : Str
  pub is_active : Bool
  pub created_at : ℕ
  pub updated_at : ℕ

pub record JwtConfig : Type 0 where
  pub access_token_ttl : ℕ
  pub refresh_token_ttl : ℕ

-- `compare_hash` is bcrypt.CompareHashAndPassword, `sign` makes the access token of a user id, an
-- email and a name, `random_token` is what the next call of generateRefreshToken returns.
pub record Env : Type 0 where
  pub get_by_email : Str → Result User
  pub get_by_id : Str → Result User
  pub compare_hash : Str → Str → Option GoError
  pub sign : Str → Str → Str → Result Str
  pub random_token : Result Str
  pub token_hash : Str → Str
  pub jwt : JwtConfig

pub record LoginResponse : Type 0 where
  pub access_token : Str
  pub refresh_token : Str
  pub expires_in : ℕ
  pub token_type : Str
  pub user_id : Str

pub record RefreshResponse : Type 0 where
  pub access_token : Str
  pub refresh_token : Str
  pub expires_in : ℕ
  pub token_type : Str

abbrev pub unauthorized : Str → GoError
unauthorized message = app (with_message err_unauthorized message)

abbrev pub internal : Str → GoError
internal message = app (internalf message)

abbrev pub invalid_credentials : GoError
invalid_credentials = unauthorized (lit "Invalid email or password")

abbrev pub invalid_refresh_token : GoError
invalid_refresh_token = unauthorized (lit "Invalid or expired refresh token")

abbrev pub cannot_issue : GoError
cannot_issue = internal (lit "auth: cache unavailable, cannot issue refresh token")

module _ (env : Env) where
  unfoldable pub tok_lookup_key : Str → Str
  tok_lookup_key token = lit "refresh:tok:" ++ env.token_hash token

  unfoldable pub user_idx_key : Str → Str → Str
  user_idx_key user_id token = (lit "refresh:user:" ++ user_id) ++ (b':' ∷ env.token_hash token)

  unfoldable pub user_prefix : Str → Str
  user_prefix user_id = (lit "refresh:user:" ++ user_id) ++ (b':' ∷ [])

  -- RefreshTokenDuration
  unfoldable pub refresh_ttl : ℕ
  refresh_ttl = mul_64 env.jwt.refresh_token_ttl 60000000000

  module _ (c : CacheStore) where
    open c use {Store, get, set, delete, delete_by_prefix}

    -- the dual-key write of Login and Refresh
    unfoldable pub issue_keys : Str → Str → Store → Option GoError × Store
    issue_keys user_id token s =
        let (e₁, s₁) = set (tok_lookup_key token) user_id refresh_ttl s in
        elim e₁ [
          | some _ ↦ (some cannot_issue, s₁)
          | none ↦
              let (e₂, s₂) = set (user_idx_key user_id token) (lit "1") refresh_ttl s₁ in
              elim e₂ [
                | some _ ↦ (some cannot_issue, (delete (tok_lookup_key token) s₂).1)
                | none ↦ (none, s₂)
              ]
        ]

    -- the tokens of a user and the writes, with a response made from the two tokens
    unfoldable pub issue_tokens {ℓ} :
        {R : Type ℓ} → User → (Str → Str → R) → Store → Result R × Store
    issue_tokens user respond s = elim (env.sign user.id user.email user.name) [
      | err _ ↦ (err (internal (lit "failed to generate access token")), s)
      | ok access ↦ elim env.random_token [
        | err _ ↦ (err (internal (lit "failed to generate refresh token")), s)
        | ok token ↦
            let (e, s') = issue_keys user.id token s in
            elim e [ some x ↦ (err x, s') | none ↦ (ok (respond access token), s') ]
      ]
    ]

    unfoldable pub login : Str → Str → Store → Result LoginResponse × Store
    login email password s = elim (env.get_by_email email) [
      | err _ ↦ (err invalid_credentials, s)
      | ok user ↦ elim (env.compare_hash user.password_hash password) [
        | some _ ↦ (err invalid_credentials, s)
        | none ↦
            issue_tokens user
              (λ access token. record {
                access_token = access;
                refresh_token = token;
                expires_in = mul_64 env.jwt.access_token_ttl 60;
                token_type = lit "Bearer";
                user_id = user.id;
              })
              s
      ]
    ]

    -- the revocation of the old token; the errors of the two deletions are dropped
    unfoldable pub delete_keys : Str → Str → Store → Store
    delete_keys user_id token s =
        (delete (user_idx_key user_id token) (delete (tok_lookup_key token) s).1).1

    unfoldable pub refresh : Str → Store → Result RefreshResponse × Store
    refresh token s = elim (get (tok_lookup_key token) s) [
      | err _ ↦ (err invalid_refresh_token, s)
      | ok user_id ↦ elim (get (user_idx_key user_id token) s) [
        | err _ ↦ (err invalid_refresh_token, s)
        | ok _ ↦ elim (env.get_by_id user_id) [
          | err _ ↦ (err (unauthorized (lit "User not found")), s)
          | ok user ↦
              issue_tokens user
                (λ access new_token. record {
                  access_token = access;
                  refresh_token = new_token;
                  expires_in = mul_64 env.jwt.access_token_ttl 60;
                  token_type = lit "Bearer";
                })
                (delete_keys user_id token s)
        ]
      ]
    ]

    -- Logout always returns nil.
    unfoldable pub logout : Str → Str → Store → Option GoError × Store
    logout caller_id token s = elim (get (tok_lookup_key token) s) [
      | err _ ↦ (none, s)
      | ok stored ↦
          if not (str_eq stored caller_id) then (none, s) else (none, delete_keys caller_id token s)
    ]

    unfoldable pub revoke_all_for_user : Str → Store → Option GoError × Store
    revoke_all_for_user user_id = delete_by_prefix (user_prefix user_id)
