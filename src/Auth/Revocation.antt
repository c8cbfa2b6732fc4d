-- ===== src/Auth/Revocation.antt =====
-- RevokeAllForUser, which a password change calls: it deletes the index keys of one user. The
-- lookup keys stay until their TTL, and Refresh asks for both.
use goscratch.Base.{
  ◌≡◌, ◌≢◌, refl, subst, true, false, none, ◌++◌, arith, Str, lit, str_eq, str_eq_iff, has_byte,
  has_prefix, has_prefix-sep, has_prefix-sep_self,
}
use goscratch.Apperr.{ok, err}
use goscratch.Port.CacheStore.{CacheStore, IsStore}
use goscratch.Auth.{
  Env, tok_lookup_key, user_idx_key, user_prefix, refresh, revoke_all_for_user,
  invalid_refresh_token,
}
use goscratch.Auth.Sessions.{IsLive, refresh_refused}

module _ (env : Env) where
  own_prefix :
      (user_id token : Str)
      → has_prefix (user_idx_key env user_id token) (user_prefix env user_id) ≡ true
  unfolding user_idx_key user_prefix
  own_prefix user_id token =
      has_prefix-sep_self b':' (lit "refresh:user:" ++ user_id) (env.token_hash token)

  other_prefix :
      (user_id other token : Str)
      → has_byte b':' user_id ≡ false
      → has_byte b':' other ≡ false
      → has_prefix (user_idx_key env other token) (user_prefix env user_id) ≡ str_eq other user_id
  unfolding user_idx_key user_prefix has_prefix lit
  other_prefix user_id other token h h' =
      has_prefix-sep b':' other user_id (env.token_hash token) h' h

  lookup_prefix :
      (user_id token : Str)
      → has_prefix (tok_lookup_key env token) (user_prefix env user_id) ≡ false
  unfolding tok_lookup_key user_prefix has_prefix lit
  lookup_prefix user_id token = refl

  -- After a revocation that the cache reports done: a refresh with any token that belongs to the
  -- user is refused and changes nothing, although its lookup key is still there; and every live
  -- token of another user stays live. Ids hold no colon, as UUIDs do not.
  pub revoke_all_for_user_lem :
      (c : CacheStore)
      → IsStore c
      → (user_id : Str) (s : c.Store) → has_byte b':' user_id ≡ false
      → (revoke_all_for_user env c user_id s).0 ≡ none
      → let s' = (revoke_all_for_user env c user_id s).1 in
        ((token : Str)
          → c.get (tok_lookup_key env token) s ≡ ok user_id
          → (c.get (tok_lookup_key env token) s' ≡ ok user_id)
            × (refresh env c token s' ≡ (err invalid_refresh_token, s')))
        × ((other token : Str)
            → has_byte b':' other ≡ false
            → other ≢ user_id
            → IsLive env c token other s
            → IsLive env c token other s')
  unfolding revoke_all_for_user
  revoke_all_for_user_lem c L user_id s colon done =
      let p = user_prefix env user_id in
      let lookup = λ (token : Str). L.get-delete_by_prefix p (tok_lookup_key env token) s done in
      let index =
        λ (other token : Str). L.get-delete_by_prefix p (user_idx_key env other token) s done in
      (
        λ token owned. (
          ground (arith, lookup token, lookup_prefix user_id token),
          refresh_refused env c token (c.delete_by_prefix p s).1 (λ found_id found v live.
              let same : found_id ≡ user_id =
                ground (arith, lookup token, lookup_prefix user_id token) in
              absurd (
                ground (
                  arith,
                  index user_id token,
                  own_prefix user_id token,
                  subst (λ u. c.get (user_idx_key env u token) (c.delete_by_prefix p s).1 ≡ ok v)
                      same live,
                ))),
        ),
        λ other token clean ne live. record {
          lookup = ground (arith, lookup token, lookup_prefix user_id token, live.lookup);
          index = ground (
            arith,
            index other token,
            other_prefix user_id other token colon clean,
            str_eq_iff other user_id,
            live.index,
          );
        },
      )
