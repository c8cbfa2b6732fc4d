-- ===== src/User/Passwords.antt =====
-- Changing a password ends the user's sessions; creating a user is atomic.
use mathlib.Core.Option
use goscratch.Base.{
  ℕ, ◌≡◌, ◌⊎◌, inl, inr, ap, subst, sym, ◌∙◌, refl, Bool, true, false, Option, none, some, arith,
  Str, lit, has_byte, Option-cases,
}
use goscratch.Apperr.{GoError, app, internalf, wrapped, Result, ok, err, Result-cases}
use goscratch.Port.CacheStore.{CacheStore, IsStore}
use goscratch.Auth.{Env, User, refresh, revoke_all_for_user, tok_lookup_key, invalid_refresh_token}
use goscratch.Auth.Revocation.{revoke_all_for_user_lem}
use goscratch.User.{
  Repo, Crypto, Transaction, change_password, create, create_in_tx, with_tx, respond,
}

-- what WithTx returns of a value when Commit has returned
unfoldable pub committed : {A : Type 0} → A → Option GoError → Result A
committed a none = ok a
committed a (some e) = err (wrapped (lit "failed to commit transaction") e)

module _ {Rows : Type 0} (t : Transaction Rows) where
  -- What a database promises of transactions: `shared` is what the other connections see, `is_open`
  -- tells whether the connection holds a transaction. Begin and Rollback change nothing that is
  -- shared, and a Rollback without an error ends the transaction.
  pub record IsTransactional : Type 1 where
    pub Shared : Type 0
    pub shared : Rows → Shared
    pub is_open : Rows → Bool
    pub shared-begin : (r : Rows) → shared (t.begin r).1 ≡ shared r
    pub begin-opens : (r : Rows) → (t.begin r).0 ≡ none → is_open (t.begin r).1 ≡ true
    pub begin-fails :
        (r : Rows) (e : GoError) → (t.begin r).0 ≡ some e → is_open (t.begin r).1 ≡ is_open r
    pub shared-rollback : (r : Rows) → shared (t.rollback r).1 ≡ shared r
    pub rollback-closes : (r : Rows) → (t.rollback r).0 ≡ none → is_open (t.rollback r).1 ≡ false

  module _ (T : IsTransactional) where
    open T use {shared, is_open}

    -- no transaction is left open, unless it is one that Rollback failed to end
    abbrev pub IsClosed : Rows → Type 0
    IsClosed after =
        (is_open after ≡ false)
        ⊎ ((stuck : Rows) × (x : GoError) × (t.rollback stuck ≡ (some x, after)))

    -- a call that has returned an error and left what is shared as it was
    abbrev pub IsUndone : {A : Type 0} → Option (Result A) × Rows → Rows → Type 0
    IsUndone r rows =
        (e : GoError) × (r.0 ≡ some (err e)) × (shared r.1 ≡ shared rows) × IsClosed r.1

    -- a function that has given its value, and the commit after it
    abbrev pub IsCommitted :
        {A : Type 0} → Option (Result A) × Rows → (Rows → Result A × Rows) → Rows → Type 0
    IsCommitted {A} r body rows =
        (a : A) × ((t.begin rows).0 ≡ none)
        × ((body (t.begin rows).1).0 ≡ ok a)
        × (r ≡ (
          some (committed a (t.commit (body (t.begin rows).1).1).0),
          (t.commit (body (t.begin rows).1).1).1,
        ))

    -- A function that changes nothing that is shared while a transaction is open is undone with an
    -- error, or committed.
    with_tx-cases :
        {A : Type 0} (body : Rows → Result A × Rows) (rows : Rows)
        → ((r : Rows) → is_open r ≡ true → shared (body r).1 ≡ shared r)
        → is_open rows ≡ false
        → let r = with_tx t (λ opened. (some (body opened).0, (body opened).1)) rows in
          IsUndone r rows ⊎ IsCommitted r body rows
    unfolding with_tx committed
    with_tx-cases body rows isolated closed = elim (Option-cases (t.begin rows).0) [
      | inr (e, unbegun) ↦ inl (
        wrapped (lit "failed to begin transaction") e,
        rw (unbegun, with_tx) refl,
        rw (unbegun, with_tx) (T.shared-begin rows),
        inl (rw (unbegun, with_tx) (T.begin-fails rows e unbegun ∙ closed)),
      )
      | inl begun ↦
          let opened = (t.begin rows).1 in
          let after = (body opened).1 in
          let unseen : shared (t.rollback after).1 ≡ shared rows =
            T.shared-rollback after
            ∙ isolated opened (T.begin-opens rows begun)
            ∙ T.shared-begin rows in
          elim (Result-cases (body opened).0) [
            | inr (e, failed) ↦ elim (Option-cases (t.rollback after).0) [
              | inl back ↦ inl (
                e,
                rw (begun, failed, back, with_tx) refl,
                rw (begun, failed, back, with_tx) unseen,
                inl (rw (begun, failed, back, with_tx) (T.rollback-closes after back)),
              )
              | inr (x, stuck) ↦ inl (
                wrapped (lit "tx error") e,
                rw (begun, failed, stuck, with_tx) refl,
                rw (begun, failed, stuck, with_tx) unseen,
                inr (after, x, rw (begun, failed, stuck, with_tx) refl),
              )
            ]
            | inl (a, made) ↦ elim (Option-cases (t.commit after).0) [
              | inl done ↦ inr (a, begun, made, rw (begun, made, done, with_tx, committed) refl)
              | inr (e, failed) ↦
                  inr (a, begun, made, rw (begun, made, failed, with_tx, committed) refl)
            ]
          ]
    ]

module _ (format_time : ℕ → Str) (repo : Repo) (crypto : Crypto) where
  open repo use {Rows}

  change_password_done :
      {S : Type 0} (revoke : Str → S → Option GoError × S) (id current new : Str) (rows : Rows)
      (s : S)
      → (change_password format_time repo crypto (some revoke) id current new rows s).0.0 ≡ none
      → (user : User) × (hash : Str) × (repo.get_by_id id rows ≡ ok user)
        × (crypto.compare_hash user.password_hash current ≡ none)
        × (crypto.generate_hash new ≡ ok hash)
        × ((repo.update_password id hash rows).0 ≡ none)
        × ((revoke id s).0 ≡ none)
        × (change_password format_time repo crypto (some revoke) id current new rows s
            ≡ ((none, (repo.update_password id hash rows).1), (revoke id s).1))
  unfolding change_password
  change_password_done revoke id current new rows s h =
      elim (Result-cases (repo.get_by_id id rows)) [
        | inr (e, unknown) ↦ absurd (ground arith)
        | inl (user, known) ↦ elim (Option-cases (crypto.compare_hash user.password_hash current)) [
          | inr (e, wrong) ↦ absurd (ground arith)
          | inl right ↦ elim (Result-cases (crypto.generate_hash new)) [
            | inr (e, unhashed) ↦ absurd (ground arith)
            | inl (hash, hashed) ↦ elim (Option-cases (repo.update_password id hash rows).0) [
              | inr (e, failed) ↦ absurd (ground arith)
              | inl updated ↦ elim (Option-cases (revoke id s).0) [
                | inr (e, unrevoked) ↦ absurd (ground arith)
                | inl revoked ↦ (
                  user,
                  hash,
                  known,
                  right,
                  hashed,
                  updated,
                  revoked,
                  rw (known, right, hashed, updated, revoked, change_password),
                )
              ]
            ]
          ]
        ]
      ]

  create_in_tx-inserted :
      (email hash name : Str) (rows : Rows) (user : User)
      → (create_in_tx format_time repo email hash name rows).0 ≡ ok user
      → (repo.exists_by_email email rows ≡ ok false)
        × (create_in_tx format_time repo email hash name rows ≡ repo.create email hash name rows)
  unfolding create_in_tx
  create_in_tx-inserted email hash name rows user h =
      elim (Result-cases (repo.exists_by_email email rows)) [
        | inr (e, unknown) ↦ absurd (ground arith)
        | inl (true, taken) ↦ absurd (ground arith)
        | inl (false, free) ↦ (free, rw (free, create_in_tx))
      ]

  -- With the sessions of the auth module as the revoker: after a change of password that reports no
  -- error, the user was found and knew the current password, the hash of the new password is what
  -- the repository was given to store and it reported no error, and a refresh with any token that
  -- belonged to the user is refused and changes nothing. The id holds no colon, as UUIDs do not.
  pub change_password_ends_sessions :
      (env : Env) (c : CacheStore)
      → IsStore c
      → (id current new : Str) (rows : Rows) (s : c.Store) → has_byte b':' id ≡ false
      → let r =
          change_password format_time repo crypto
            (some (revoke_all_for_user env c))
            id
            current
            new
            rows
            s in
        r.0.0 ≡ none
        → (user : User) × (hash : Str) × (repo.get_by_id id rows ≡ ok user)
          × (crypto.compare_hash user.password_hash current ≡ none)
          × (crypto.generate_hash new ≡ ok hash)
          × (repo.update_password id hash rows ≡ (none, r.0.1))
          × ((token : Str)
              → c.get (tok_lookup_key env token) s ≡ ok id
              → refresh env c token r.1 ≡ (err invalid_refresh_token, r.1))
  change_password_ends_sessions env c L id current new rows s colon h =
      let (user, hash, known, right, hashed, updated, revoked, result) =
        change_password_done (revoke_all_for_user env c) id current new rows s h in
      let (refused, others) = revoke_all_for_user_lem env c L id s colon revoked in
      (
        user,
        hash,
        known,
        right,
        hashed,
        ground (arith, ap (λ x. x.0.1) result),
        λ token owned.
            subst (λ s'. refresh env c token s' ≡ (err invalid_refresh_token, s'))
              (sym (ap (λ x. x.1) result)) (refused token owned).1,
      )

  -- the INSERT of a user in an open transaction is not seen by other connections
  abbrev pub IsIsolated : (t : Transaction Rows) → IsTransactional t → Type 0
  IsIsolated t T =
      (email hash name : Str) (r : Rows)
      → T.is_open r ≡ true
      → T.shared (repo.create email hash name r).1 ≡ T.shared r

  create_in_tx-isolated :
      (t : Transaction Rows) (T : IsTransactional t)
      → IsIsolated t T
      → (email hash name : Str) (r : Rows) → T.is_open r ≡ true
      → T.shared (create_in_tx format_time repo email hash name r).1 ≡ T.shared r
  unfolding create_in_tx
  create_in_tx-isolated t T isolated email hash name r held =
      elim (Result-cases (repo.exists_by_email email r)) [
        | inr (e, unknown) ↦ rw (unknown, create_in_tx) refl
        | inl (true, taken) ↦ rw (taken, create_in_tx) refl
        | inl (false, free) ↦ rw (free, create_in_tx) (isolated email hash name r held)
      ]

  -- On a connection without an open transaction, to a database whose open transactions nobody else
  -- sees: a creation either returns an error, leaves what the others see as it was, and holds no
  -- transaction open, unless Rollback has failed to end it; or it has begun a transaction, found no
  -- other user with the email in it, inserted the new row with the hash of the password, and ended
  -- with Commit, whose failure alone makes it return an error. It does not panic.
  pub create_atomic :
      (t : Transaction Rows) (T : IsTransactional t)
      → IsIsolated t T
      → (email password name : Str) (rows : Rows) → T.is_open rows ≡ false
      → let r = create format_time repo crypto t email password name rows in
        let opened = (t.begin rows).1 in
        IsUndone t T r rows
        ⊎ ((user : User) × (hash : Str) × (crypto.generate_hash password ≡ ok hash)
            × ((t.begin rows).0 ≡ none)
            × (repo.exists_by_email email opened ≡ ok false)
            × ((repo.create email hash name opened).0 ≡ ok user)
            × (r ≡ (
              some (
                  respond format_time repo
                    (committed user (t.commit (repo.create email hash name opened).1).0)),
              (t.commit (repo.create email hash name opened).1).1,
            )))
  unfolding create respond
  create_atomic t T isolated email password name rows closed =
      elim (Result-cases (crypto.generate_hash password)) [
        | inr (e, unhashed) ↦ inl (
          app (internalf (lit "failed to hash password")),
          rw (unhashed, create) refl,
          rw (unhashed, create) refl,
          inl (rw (unhashed, create) closed),
        )
        | inl (hash, hashed) ↦
            elim (with_tx-cases t T (create_in_tx format_time repo email hash name) rows
              (create_in_tx-isolated t T isolated email hash name) closed) [
                | inl (e, failed, same, ended) ↦ inl (
                  e,
                  rw (hashed, create) (ap (Option.map (respond format_time repo)) failed),
                  rw (hashed, create) same,
                  rw (hashed, create) ended,
                )
                | inr (user, begun, inserted, after) ↦
                    let (free, same) =
                      create_in_tx-inserted email hash name (t.begin rows).1 user inserted in
                    inr (
                      user,
                      hash,
                      hashed,
                      begun,
                      free,
                      rw (sym same) inserted,
                      rw (hashed, create, after, same) refl,
                    )
              ]
      ]
