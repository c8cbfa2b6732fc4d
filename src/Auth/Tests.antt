-- ===== src/Auth/Tests.antt =====
-- Sessions over a cache in memory that always succeeds.
use goscratch.Base.{
  str_eq_instance, ◌≡◌, ◌≢◌, refl, true, false, Option, none, some, [], ◌∷◌, arith, if◌then◌else◌,
  Str, lit, str_eq, str_eq_iff, has_byte, has_prefix,
}
use goscratch.Base.Int64.{mul_64}
use goscratch.Base.Dict
use goscratch.Base.Dict.{Dict, get-put, get-remove}
use goscratch.Apperr.{Result, ok, err, plain}
use goscratch.Port.CacheStore.{
  CacheStore, IsStore, err_cache_miss, err_cache_unavailable, no_op_cache,
}
use goscratch.Auth.{
  Env, User, LoginResponse, RefreshResponse, login, refresh, logout, revoke_all_for_user,
  tok_lookup_key, user_idx_key, issue_tokens, issue_keys, delete_keys, invalid_refresh_token,
}
use goscratch.Auth.Sessions.{IsLive, login-IsLive}
use goscratch.Auth.Rotation.{Deletes, refresh_rotates, logout_own_session}
use goscratch.Auth.Revocation.{revoke_all_for_user_lem}
use goscratch.Auth.NoOp.{no_op_sessions}

abbrev pub found : Option Str → Result Str
found none = err err_cache_miss
found (some v) = ok v

pub drop_prefixed : Str → Dict Str Str → Dict Str Str
drop_prefixed p [] = []
drop_prefixed p ((k, v) ∷ s) =
    let rest = drop_prefixed p s in if has_prefix k p then rest else (k, v) ∷ rest

get-drop_prefixed :
    (p j : Str) (s : Dict Str Str)
    → Dict.get j (drop_prefixed p s) ≡ (if has_prefix j p then none else Dict.get j s)
unfolding drop_prefixed Dict.get
get-drop_prefixed p j [] = ground arith
get-drop_prefixed p j ((k, v) ∷ s) = ground (arith, get-drop_prefixed p j s, str_eq_iff k j)

abbrev pub memory : CacheStore
memory = record {
  Store = Dict Str Str;
  get = λ k s. found (Dict.get k s);
  set = λ k v ttl s. (none, Dict.put k v s);
  delete = λ k s. (none, Dict.remove k s);
  delete_by_prefix = λ p s. (none, drop_prefixed p s);
}

pub memory-IsStore : IsStore memory
memory-IsStore = record {
  get-set = λ k j v ttl s _. ground (arith, get-put k j v s);
  get-delete = λ k j s _. ground (arith, get-remove k j s);
  get-delete_by_prefix = λ p j s _. ground (arith, get-drop_prefixed p j s);
}

abbrev pub alice : User
alice = record {
  id = lit "a1";
  email = lit "alice@example.com";
  password_hash = lit "secret";
  name = lit "Alice";
  is_active = true;
  created_at = 0;
  updated_at = 0;
}

abbrev pub env : Env
env = record {
  get_by_email = λ email. ok alice;
  get_by_id = λ id. ok alice;
  compare_hash = λ hash password. if str_eq hash password then none else some (plain []);
  sign = λ id email name. ok (lit "jwt");
  random_token = ok (lit "token-1");
  token_hash = λ token. token;
  jwt = record { access_token_ttl = 15; refresh_token_ttl = 60 };
}

abbrev pub response : LoginResponse
response = record {
  access_token = lit "jwt";
  refresh_token = lit "token-1";
  expires_in = 900;
  token_type = lit "Bearer";
  user_id = lit "a1";
}

abbrev pub logged_in : Dict Str Str
logged_in = (login env memory (lit "alice@example.com") (lit "secret") []).1

login_succeeds :
    login env memory (lit "alice@example.com") (lit "secret") [] ≡ (ok response, logged_in)
unfolding login issue_tokens issue_keys str_eq lit mul_64
login_succeeds = refl

login-IsLive_example :
    (user : User) × (env.get_by_email (lit "alice@example.com") ≡ ok user)
    × (env.compare_hash user.password_hash (lit "secret") ≡ none)
    × (response.user_id ≡ user.id)
    × IsLive env memory response.refresh_token user.id logged_in
login-IsLive_example =
    login-IsLive env memory memory-IsStore (lit "alice@example.com") (lit "secret") [] logged_in
      response login_succeeds

-- the next request draws another token
abbrev env' : Env
env' = record env { random_token = ok (lit "token-2") }

abbrev refreshed : Dict Str Str
refreshed = (refresh env' memory (lit "token-1") logged_in).1

abbrev refresh_response : RefreshResponse
refresh_response = record {
  access_token = lit "jwt";
  refresh_token = lit "token-2";
  expires_in = 900;
  token_type = lit "Bearer";
}

refresh_succeeds : refresh env' memory (lit "token-1") logged_in ≡ (ok refresh_response, refreshed)
unfolding refresh login issue_tokens issue_keys delete_keys tok_lookup_key user_idx_key str_eq lit
    Dict.get Dict.put mul_64
refresh_succeeds = refl

refresh_rotates_example :
    (user_id : Str) × (user : User) × (memory.get (tok_lookup_key env' (lit "token-1")) logged_in
      ≡ ok user_id)
    × ((v : Str) × (memory.get (user_idx_key env' user_id (lit "token-1")) logged_in ≡ ok v))
    × (env'.get_by_id user_id ≡ ok user)
    × IsLive env' memory (lit "token-2") user.id refreshed
    × (env'.token_hash (lit "token-2") ≢ env'.token_hash (lit "token-1")
        → (next : Result Str)
        → refresh (record env' { random_token = next }) memory (lit "token-1") refreshed
          ≡ (err invalid_refresh_token, refreshed))
refresh_rotates_example =
    refresh_rotates env' memory memory-IsStore (lit "token-1") logged_in refreshed refresh_response
      (λ user_id. (refl, refl)) refresh_succeeds

logout_own_session_example :
    ((logout env memory (lit "a1") (lit "token-1") logged_in).0 ≡ none)
    × (memory.get (tok_lookup_key env (lit "token-1")) logged_in ≢ ok (lit "a1")
        → (logout env memory (lit "a1") (lit "token-1") logged_in).1 ≡ logged_in)
    × (memory.get (tok_lookup_key env (lit "token-1")) logged_in ≡ ok (lit "a1")
        → Deletes env memory (lit "a1") (lit "token-1") logged_in
        → let s' = (logout env memory (lit "a1") (lit "token-1") logged_in).1 in
          ((next : Result Str)
            → refresh (record env { random_token = next }) memory (lit "token-1") s'
              ≡ (err invalid_refresh_token, s'))
          × ((j : Str)
              → str_eq (tok_lookup_key env (lit "token-1")) j ≡ false
              → str_eq (user_idx_key env (lit "a1") (lit "token-1")) j ≡ false
              → memory.get j s' ≡ memory.get j logged_in))
logout_own_session_example =
    logout_own_session env memory memory-IsStore (lit "a1") (lit "token-1") logged_in

no_colon : has_byte b':' (lit "a1") ≡ false
unfolding has_byte lit
no_colon = refl

revoked : (revoke_all_for_user env memory (lit "a1") logged_in).0 ≡ none
unfolding revoke_all_for_user
revoked = refl

revoke_all_for_user_example :
    let s' = (revoke_all_for_user env memory (lit "a1") logged_in).1 in
    ((token : Str)
      → memory.get (tok_lookup_key env token) logged_in ≡ ok (lit "a1")
      → (memory.get (tok_lookup_key env token) s' ≡ ok (lit "a1"))
        × (refresh env memory token s' ≡ (err invalid_refresh_token, s')))
    × ((other token : Str)
        → has_byte b':' other ≡ false
        → other ≢ lit "a1"
        → IsLive env memory token other logged_in
        → IsLive env memory token other s')
revoke_all_for_user_example =
    revoke_all_for_user_lem env memory memory-IsStore (lit "a1") logged_in no_colon revoked

right_password : env.compare_hash alice.password_hash (lit "secret") ≡ none
unfolding str_eq lit
right_password = refl

no_op_sessions_example :
    ((login env no_op_cache (lit "alice@example.com") (lit "secret") tt).0 ≡ ok response)
    × ((any : Str) → (refresh env no_op_cache any tt).0 ≡ err invalid_refresh_token)
    × ((user_id : Str)
        → (revoke_all_for_user env no_op_cache user_id tt).0 ≡ some err_cache_unavailable)
unfolding mul_64
no_op_sessions_example =
    no_op_sessions env (lit "alice@example.com") (lit "secret") alice (lit "jwt") (lit "token-1") tt
      refl right_password refl refl
