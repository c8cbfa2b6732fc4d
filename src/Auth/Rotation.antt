-- ===== src/Auth/Rotation.antt =====
-- A refresh token is used once, and logout ends the caller's own session only.
use goscratch.Base.{
  ◌≡◌, ◌≢◌, refl, sym, subst, ap, ◌∙◌, true, false, none, arith, Str, lit, str_eq, str_eq_iff,
  str_eq_refl, Option-cases, Bool-cases, inl, inr,
}
use goscratch.Apperr.{Result, ok, err, Result-cases}
use goscratch.Port.CacheStore.{CacheStore, IsStore, err_cache_miss}
use goscratch.Auth.{
  Env, User, RefreshResponse, tok_lookup_key, user_idx_key, refresh_ttl, issue_keys, issue_tokens,
  refresh, logout, delete_keys, invalid_refresh_token,
}
use goscratch.Auth.Sessions.{
  keys_differ', IsLive, issue_tokens-IsLive, delete_keys-lookup, refresh_refused,
}

module _ (env : Env) where
  lookup_key_injective :
      (t t' : Str)
      → str_eq (tok_lookup_key env t) (tok_lookup_key env t') ≡ true
      → env.token_hash t ≡ env.token_hash t'
  unfolding tok_lookup_key str_eq lit
  lookup_key_injective t t' h = (str_eq_iff (env.token_hash t) (env.token_hash t')).0 h

  -- the cache carries out the two deletions of Logout
  abbrev pub Deletes : (c : CacheStore) → Str → Str → c.Store → Type 0
  Deletes c caller_id token s =
      ((c.delete (tok_lookup_key env token) s).0 ≡ none)
      × ((c.delete (user_idx_key env caller_id token) (c.delete (tok_lookup_key env token) s).1).0
          ≡ none)

  module _ (c : CacheStore) (L : IsStore c) where
    get-issue_keys :
        (user_id token : Str) (s : c.Store) (j : Str)
        → (issue_keys env c user_id token s).0 ≡ none
        → str_eq (tok_lookup_key env token) j ≡ false
        → str_eq (user_idx_key env user_id token) j ≡ false
        → c.get j (issue_keys env c user_id token s).1 ≡ c.get j s
    unfolding issue_keys
    get-issue_keys user_id token s j h d d' =
        let k = tok_lookup_key env token in
        let i = user_idx_key env user_id token in
        let ttl = refresh_ttl env in
        ground (
          arith,
          L.get-set k j user_id ttl s,
          L.get-set i j (lit "1") ttl (c.set k user_id ttl s).1,
        )

    -- tokens with another hash keep their lookup keys when tokens are issued
    lookup-issue_tokens {ℓ} :
        {R : Type ℓ} (user : User) (respond : Str → Str → R) (s s' : c.Store) (r : R)
        (token old : Str)
        → env.random_token ≡ ok token
        → issue_tokens env c user respond s ≡ (ok r, s')
        → env.token_hash token ≢ env.token_hash old
        → c.get (tok_lookup_key env old) s' ≡ c.get (tok_lookup_key env old) s
    unfolding issue_tokens
    lookup-issue_tokens user respond s s' r token old drawn h ne =
        elim (Result-cases (env.sign user.id user.email user.name)) [
          | inr (e, unsigned) ↦ absurd (ground arith)
          | inl (access, signed) ↦ elim (Option-cases (issue_keys env c user.id token s).0) [
            | inr (e, refused) ↦ absurd (ground arith)
            | inl done ↦ ground (
              arith,
              get-issue_keys user.id token s (tok_lookup_key env old) done,
              lookup_key_injective token old,
              keys_differ' env old user.id token,
            )
          ]
        ]

    same_lookup_key :
        (next : Result Str) (t : Str)
        → tok_lookup_key (record env { random_token = next }) t ≡ tok_lookup_key env t
    unfolding tok_lookup_key
    same_lookup_key next t = refl

    used_up :
        (token : Str) (s : c.Store) (next : Result Str)
        → c.get (tok_lookup_key env token) s ≡ err err_cache_miss
        → refresh (record env { random_token = next }) c token s ≡ (err invalid_refresh_token, s)
    used_up token s next gone =
        refresh_refused (record env { random_token = next }) c token s
          (λ user_id found v _. absurd (ground (arith, gone, same_lookup_key next token)))

    -- Of a refresh that returns a response, while the cache carries out the two deletions: both
    -- keys of the old token were there, the lookup key with the id of a user; the new token is live
    -- for the user that get_by_id found under that id; and if the two tokens' hashes differ,
    -- another refresh with the old token is refused and changes nothing.
    pub refresh_rotates :
        (token : Str) (s s' : c.Store) (r : RefreshResponse)
        → ((user_id : Str)
            → ((c.delete (tok_lookup_key env token) s).0 ≡ none)
              × ((c.delete
                    (user_idx_key env user_id token)
                    (c.delete (tok_lookup_key env token) s).1).0
                  ≡ none))
        → refresh env c token s ≡ (ok r, s')
        → (user_id : Str) × (user : User) × (c.get (tok_lookup_key env token) s ≡ ok user_id)
          × ((v : Str) × (c.get (user_idx_key env user_id token) s ≡ ok v))
          × (env.get_by_id user_id ≡ ok user)
          × IsLive env c r.refresh_token user.id s'
          × (env.token_hash r.refresh_token ≢ env.token_hash token
              → (next : Result Str)
              → refresh (record env { random_token = next }) c token s'
                ≡ (err invalid_refresh_token, s'))
    unfolding refresh
    refresh_rotates token s s' r deletes h =
        elim (Result-cases (c.get (tok_lookup_key env token) s)) [
          | inr (e, missing) ↦ absurd (ground arith)
          | inl (user_id, found) ↦ elim (Result-cases (c.get (user_idx_key env user_id token) s)) [
            | inr (e, revoked) ↦ absurd (ground arith)
            | inl (v, indexed) ↦ elim (Result-cases (env.get_by_id user_id)) [
              | inr (e, gone) ↦ absurd (ground arith)
              | inl (user, known) ↦
                  let s₁ = delete_keys env c user_id token s in
                  let issued = rw (found, indexed, known, refresh) at h in
                  let (access, new_token, drawn, made, live) =
                    issue_tokens-IsLive env c L user _ s₁ s' r issued in
                  let e = ap (λ (x : RefreshResponse). x.refresh_token) made in
                  (
                    user_id,
                    user,
                    found,
                    (v, indexed),
                    known,
                    subst (λ t. IsLive env c t user.id s') (sym e) live,
                    λ differ next. used_up token s' next (
                        lookup-issue_tokens user _ s₁ s' r new_token token drawn issued
                          (λ same. differ (ap env.token_hash e ∙ same))
                        ∙ ground (
                          arith,
                          str_eq_refl (tok_lookup_key env token),
                          delete_keys-lookup env c L user_id token s (deletes user_id).0
                              (deletes user_id).1 (tok_lookup_key env token),
                        )),
                  )
            ]
          ]
        ]

    -- Logout always returns nil, also when a deletion fails. If the token's lookup key names
    -- another user, or nobody, the cache is left as it was. If it names the caller and the cache
    -- carries out the two deletions, the token is refused from then on, and what the cache holds
    -- under any key but the two of the token stays.
    pub logout_own_session :
        (caller_id token : Str) (s : c.Store)
        → ((logout env c caller_id token s).0 ≡ none)
          × (c.get (tok_lookup_key env token) s ≢ ok caller_id
              → (logout env c caller_id token s).1 ≡ s)
          × (c.get (tok_lookup_key env token) s ≡ ok caller_id
              → Deletes c caller_id token s
              → let s' = (logout env c caller_id token s).1 in
                ((next : Result Str)
                  → refresh (record env { random_token = next }) c token s'
                    ≡ (err invalid_refresh_token, s'))
                × ((j : Str)
                    → str_eq (tok_lookup_key env token) j ≡ false
                    → str_eq (user_idx_key env caller_id token) j ≡ false
                    → c.get j s' ≡ c.get j s))
    unfolding logout
    logout_own_session caller_id token s =
        elim (Result-cases (c.get (tok_lookup_key env token) s)) [
          | inr (e, missing) ↦
              rw (missing, logout) (refl, λ _. refl, λ own _. absurd (ground arith))
          | inl (stored, found) ↦ elim (Bool-cases (str_eq stored caller_id)) [
            | inr other ↦
                rw (found, other, logout)
                  (refl, λ _. refl, λ own _. absurd (ground (arith, str_eq_iff stored caller_id)))
            | inl mine ↦
                rw (found, mine, logout)
                  (
                    refl,
                    λ others. absurd (others (ap ok ((str_eq_iff stored caller_id).0 mine))),
                    λ own deletes. (
                      λ next. used_up token (delete_keys env c caller_id token s) next (
                          ground (
                            arith,
                            str_eq_refl (tok_lookup_key env token),
                            delete_keys-lookup env c L caller_id token s deletes.0 deletes.1
                                (tok_lookup_key env token),
                          )),
                      λ j d d'. ground (
                        arith,
                        delete_keys-lookup env c L caller_id token s deletes.0 deletes.1 j,
                      ),
                    ),
                  )
          ]
        ]
