-- ===== src/Auth/Sessions.antt =====
-- The sessions that the cache holds: a refresh token is live for a user when both of its keys are
-- there.
use goscratch.Base.{
  ◌≡◌, ◌≢◌, refl, sym, subst, false, ◌||◌, none, arith, if◌then◌else◌, Str, lit, str_eq,
  str_eq_refl, Option-cases, inl, inr,
}
use goscratch.Apperr.{ok, err, Result-cases}
use goscratch.Port.CacheStore.{CacheStore, IsStore, err_cache_miss}
use goscratch.Auth.{
  Env, User, LoginResponse, tok_lookup_key, user_idx_key, refresh_ttl, issue_keys, issue_tokens,
  login, refresh, delete_keys, invalid_refresh_token,
}

module _ (env : Env) where
  pub keys_differ :
      (token user_id other : Str)
      → str_eq (tok_lookup_key env token) (user_idx_key env user_id other) ≡ false
  unfolding tok_lookup_key user_idx_key str_eq lit
  keys_differ token user_id other = refl

  pub keys_differ' :
      (token user_id other : Str)
      → str_eq (user_idx_key env user_id other) (tok_lookup_key env token) ≡ false
  unfolding tok_lookup_key user_idx_key str_eq lit
  keys_differ' token user_id other = refl

  module _ (c : CacheStore) where
    -- both keys of the token are there, and the lookup key names the user
    pub record IsLive (token user_id : Str) (s : c.Store) : Type 0 where
      pub lookup : c.get (tok_lookup_key env token) s ≡ ok user_id
      pub index : c.get (user_idx_key env user_id token) s ≡ ok (lit "1")

    module _ (L : IsStore c) where
      issue_keys-IsLive :
          (user_id token : Str) (s : c.Store)
          → (issue_keys env c user_id token s).0 ≡ none
          → IsLive token user_id (issue_keys env c user_id token s).1
      unfolding issue_keys
      issue_keys-IsLive user_id token s h =
          let k = tok_lookup_key env token in
          let j = user_idx_key env user_id token in
          let ttl = refresh_ttl env in
          let s₁ = (c.set k user_id ttl s).1 in
          record {
            lookup = ground (
              arith,
              L.get-set k k user_id ttl s,
              L.get-set j k (lit "1") ttl s₁,
              str_eq_refl k,
              keys_differ' token user_id token,
            );
            index = ground (arith, L.get-set j j (lit "1") ttl s₁, str_eq_refl j);
          }

      pub issue_tokens-IsLive {ℓ} :
          {R : Type ℓ} (user : User) (respond : Str → Str → R) (s s' : c.Store) (r : R)
          → issue_tokens env c user respond s ≡ (ok r, s')
          → (access token : Str) × (env.random_token ≡ ok token)
            × (r ≡ respond access token)
            × IsLive token user.id s'
      unfolding issue_tokens
      issue_tokens-IsLive user respond s s' r h =
          elim (Result-cases (env.sign user.id user.email user.name)) [
            | inr (e, unsigned) ↦ absurd (ground arith)
            | inl (access, signed) ↦ elim (Result-cases env.random_token) [
              | inr (e, undrawn) ↦ absurd (ground arith)
              | inl (token, drawn) ↦ elim (Option-cases (issue_keys env c user.id token s).0) [
                | inr (e, refused) ↦ absurd (ground arith)
                | inl done ↦ (
                  access,
                  token,
                  drawn,
                  ground arith,
                  subst (IsLive token user.id) (ground arith)
                      (issue_keys-IsLive user.id token s done),
                )
              ]
            ]
          ]

      -- After a login that returns a response, its refresh token is live for the user that the
      -- response names, and that user is the one with the given email and the right password.
      pub login-IsLive :
          (email password : Str) (s s' : c.Store) (r : LoginResponse)
          → login env c email password s ≡ (ok r, s')
          → (user : User) × (env.get_by_email email ≡ ok user)
            × (env.compare_hash user.password_hash password ≡ none)
            × (r.user_id ≡ user.id)
            × IsLive r.refresh_token user.id s'
      unfolding login
      login-IsLive email password s s' r h = elim (Result-cases (env.get_by_email email)) [
        | inr (e, unknown) ↦ absurd (ground arith)
        | inl (user, known) ↦ elim (Option-cases (env.compare_hash user.password_hash password)) [
          | inr (e, wrong) ↦ absurd (ground arith)
          | inl right ↦
              let (access, token, drawn, made, live) =
                issue_tokens-IsLive user _ s s' r (rw (known, right, login) at h) in
              (
                user,
                known,
                right,
                ground arith,
                subst (λ (x : LoginResponse). IsLive x.refresh_token user.id s') (sym made) live,
              )
        ]
      ]

      pub delete_keys-lookup :
          (user_id token : Str) (s : c.Store)
          → (c.delete (tok_lookup_key env token) s).0 ≡ none
          → (c.delete (user_idx_key env user_id token) (c.delete (tok_lookup_key env token) s).1).0
            ≡ none
          → (j : Str)
          → c.get j (delete_keys env c user_id token s) ≡ (
              if str_eq (tok_lookup_key env token) j || str_eq (user_idx_key env user_id token) j
              then err err_cache_miss
              else c.get j s)
      unfolding delete_keys
      delete_keys-lookup user_id token s h h' j =
          let k = tok_lookup_key env token in
          let i = user_idx_key env user_id token in
          ground (arith, L.get-delete k j s, L.get-delete i j (c.delete k s).1)

    -- A refresh of a token that is not live for anyone is refused with "Invalid or expired refresh
    -- token", and the cache is left as it was.
    pub refresh_refused :
        (token : Str) (s : c.Store)
        → ((user_id : Str)
            → c.get (tok_lookup_key env token) s ≡ ok user_id
            → (v : Str) → c.get (user_idx_key env user_id token) s ≢ ok v)
        → refresh env c token s ≡ (err invalid_refresh_token, s)
    unfolding refresh
    refresh_refused token s dead = elim (Result-cases (c.get (tok_lookup_key env token) s)) [
      | inr (e, missing) ↦ rw (missing, refresh)
      | inl (user_id, found) ↦ elim (Result-cases (c.get (user_idx_key env user_id token) s)) [
        | inr (e, revoked) ↦ rw (found, revoked, refresh)
        | inl (v, live) ↦ absurd (dead user_id found v live)
      ]
    ]
