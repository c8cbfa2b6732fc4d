-- ===== src/Auth/NoOp.antt =====
-- Sessions without a cache backend (internal/adapter/cache/noop.go).
use goscratch.Base.{◌≡◌, refl, none, some, Str, lit, arith}
use goscratch.Apperr.{ok, err}
use goscratch.Port.CacheStore.{no_op_cache, err_cache_unavailable}
use goscratch.Base.Int64.{mul_64}
use goscratch.Auth.{
  Env, User, login, refresh, revoke_all_for_user, issue_tokens, issue_keys, invalid_refresh_token,
}

-- Without a cache backend: a login with the right password whose tokens can be made succeeds and
-- hands out the token that was drawn; but every refresh is refused as invalid or expired, for this
-- token and for any other; and a revocation reports that the backend is unavailable.
pub no_op_sessions :
    (env : Env) (email password : Str) (user : User) (access token : Str) (s : Unit)
    → env.get_by_email email ≡ ok user
    → env.compare_hash user.password_hash password ≡ none
    → env.sign user.id user.email user.name ≡ ok access
    → env.random_token ≡ ok token
    → ((login env no_op_cache email password s).0
        ≡ ok (record {
          access_token = access;
          refresh_token = token;
          expires_in = mul_64 env.jwt.access_token_ttl 60;
          token_type = lit "Bearer";
          user_id = user.id;
        }))
      × ((any : Str) → (refresh env no_op_cache any s).0 ≡ err invalid_refresh_token)
      × ((user_id : Str)
          → (revoke_all_for_user env no_op_cache user_id s).0 ≡ some err_cache_unavailable)
unfolding login refresh revoke_all_for_user issue_tokens issue_keys
no_op_sessions env email password user access token s known right signed drawn =
    (ground arith, λ any. refl, λ user_id. refl)
