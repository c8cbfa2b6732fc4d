-- ===== src/Audit/Decorators/Outcome.antt =====
-- The decorated use cases of users next to the plain ones.
use goscratch.Base.{
  ℕ, ◌≡◌, refl, arith, inl, inr, Bool, true, false, not, Option, none, some, Option-cases, [], ◌∷◌,
  if◌then◌else◌, Str, lit, str_eq,
}
use goscratch.Apperr.{
  GoError, Result, ok, err, Result-cases, as_app_error, with_message, err_unauthorized, new,
}
use goscratch.Auth.{LoginResponse, invalid_credentials}
use goscratch.User
use goscratch.User.{Repo, to_user_response, respond}
use goscratch.Audit.{AuditContext, AuditEntry, word, new_audit_entry}
use goscratch.Audit.Decorators
use goscratch.Audit.Decorators.{active, noted, switch_user, classify_login_failure}

lookup_failed :
    (format_time : ℕ → Str) (repo : Repo) (id : Str) (rows : repo.Rows) (e : GoError)
    → User.get_by_id format_time repo id rows ≡ err e
    → repo.get_by_id id rows ≡ err e
unfolding User.get_by_id respond
lookup_failed format_time repo id rows e h = elim (Result-cases (repo.get_by_id id rows)) [
  | inl (u, found) ↦ absurd (ground arith)
  | inr (e', missing) ↦ ground arith
]

module _ {L : Type 0} (log : AuditEntry → L → Option GoError × L) (ac : AuditContext)
    (now : ℕ) where
  -- the entry of a user who was switched
  abbrev pub switched : Bool → Str → AuditEntry
  switched to id = record (new_audit_entry ac now (lit "UPDATE") (lit "user") id) {
    old_value = active (not to);
    new_value = active to;
  }

  -- the log after a switch that returned `failure`, of a user who was active or not
  unfoldable pub switch_log : Bool → Str → Option GoError → Result User.UserResponse → L → L
  switch_log to id (some e) found l = l
  switch_log to id none (err e) l = l
  switch_log to id none (ok u) l =
      if (if to then not u.is_active else u.is_active)
      then noted log ac now (switched to id) l
      else l

  -- of a use case that looks the user up first, as GetByID does
  switch_lem :
      {S : Type 0} (to : Bool) (get_by_id : Str → S → Result User.UserResponse)
      (inner : Str → S → Option GoError × S) (id : Str) (s : S) (l : L)
      → ((e : GoError) → get_by_id id s ≡ err e → inner id s ≡ (some e, s))
      → switch_user log ac now to get_by_id inner id s l
        ≡ ((inner id s).0, ((inner id s).1, switch_log to id (inner id s).0 (get_by_id id s) l))
  unfolding switch_user switch_log
  switch_lem to get_by_id inner id s l looks = elim (Result-cases (get_by_id id s)) [
    | inr (e, missing) ↦ rw (missing, looks e missing, switch_user, switch_log) refl
    | inl (u, found) ↦ elim (Option-cases (inner id s).0) [
      | inl done ↦ rw (found, done, switch_user, switch_log) refl
      | inr (e, failed) ↦ rw (found, failed, switch_user, switch_log) refl
    ]
  ]

  module _ (format_time : ℕ → Str) (repo : Repo) where
    -- For any repository, auditor and user id: Activate and Deactivate with the audit decorator
    -- return what they return without it and leave the same rows, whatever Log answers; and an
    -- entry is logged exactly when the call succeeds on a user who was in the other state before.
    pub audited_switches :
        (id : Str) (rows : repo.Rows) (l : L)
        → let found = User.get_by_id format_time repo id rows in
          let on = User.activate format_time repo id rows in
          let off = User.deactivate format_time repo id rows in
          (Decorators.activate log ac now
              (User.get_by_id format_time repo)
              (User.activate format_time repo)
              id
              rows
              l
            ≡ (on.0, (on.1, switch_log true id on.0 found l)))
          × (Decorators.deactivate log ac now
                (User.get_by_id format_time repo)
                (User.deactivate format_time repo)
                id
                rows
                l
              ≡ (off.0, (off.1, switch_log false id off.0 found l)))
    unfolding Decorators.activate Decorators.deactivate User.activate User.deactivate
    audited_switches id rows l = (
      switch_lem true (User.get_by_id format_time repo) (User.activate format_time repo) id rows l
          (λ e missing. rw (missing_row e missing, User.activate) refl),
      switch_lem false (User.get_by_id format_time repo) (User.deactivate format_time repo) id rows
          l (λ e missing. rw (missing_row e missing, User.deactivate) refl),
    )
      where
        missing_row :
            (e : GoError)
            → User.get_by_id format_time repo id rows ≡ err e
            → repo.get_by_id id rows ≡ err e
        missing_row e h = lookup_failed format_time repo id rows e h

classified : classify_login_failure invalid_credentials ≡ lit "invalid_credentials"
unfolding classify_login_failure as_app_error with_message err_unauthorized new str_eq lit
classified = refl

module _ {L : Type 0} (log : AuditEntry → L → Option GoError × L) (ac : AuditContext)
    (now : ℕ) where
  -- A login that fails with the error of a wrong password or an unknown email is logged under the
  -- email with one and the same reason, and the reply and the state are those without the
  -- decorator.
  pub audited_login :
      {S : Type 0} (inner : S → Result LoginResponse × S) (email : Str) (s : S) (l : L)
      → (inner s).0 ≡ err invalid_credentials
      → Decorators.login log ac now inner email s l ≡ (
        err invalid_credentials,
        (
          (inner s).1,
          noted log ac now
              (record (new_audit_entry ac now (lit "LOGIN") (lit "user") email) {
                metadata = some (
                    (lit "outcome", word (lit "failed"))
                    ∷ (lit "reason", word (lit "invalid_credentials"))
                    ∷ []);
              })
              l,
        ),
      )
  unfolding Decorators.login
  audited_login inner email s l failed = rw (failed, classified, Decorators.login) refl
