-- ===== src/Audit/Decorators.antt =====
-- The audit_decorator.go of internal/module/user, auth, storage and job (usecase): the use cases
-- with an entry in the audit log for what changes. `log` is the auditor's Log on its state L, whose
-- error the decorators drop; `now` is the time of the entry. The use cases inside are those of
-- User, Auth, Storage and the job module, as functions on their state S.
pub mod Outcome
use goscratch.Base.{
  ℕ, Bool, true, false, not, Option, none, some, List, [], ◌∷◌, if◌then◌else◌, Str, lit, str_eq,
}
use goscratch.Apperr.{
  GoError, Result, ok, err, as_app_error, code_of, code_unauthorized, code_forbidden,
}
use goscratch.Auth.{LoginResponse}
use goscratch.User.{UserResponse}
use goscratch.Storage.{UploadResponse}
use goscratch.Audit.{AuditContext, AuditEntry, Values, Scalar, word, count, yes_no, new_audit_entry}

-- classifyLoginFailure
unfoldable pub classify_login_failure : GoError → Str
unfolding as_app_error
classify_login_failure e = elim (as_app_error e) [
  | none ↦ lit "unknown"
  | some ae ↦
      if str_eq (code_of ae) code_unauthorized
      then lit "invalid_credentials"
      else if str_eq (code_of ae) code_forbidden
      then lit "user_inactive"
      else lit "unknown"
]

-- the email and the name of a user, as values
abbrev pub named : UserResponse → Option Values
named u = some ((lit "email", word u.email) ∷ (lit "name", word u.name) ∷ [])

abbrev pub active : Bool → Option Values
active b = some ((lit "is_active", yes_no b) ∷ [])

module _ {L : Type 0} (log : AuditEntry → L → Option GoError × L) (ac : AuditContext)
    (now : ℕ) where
  abbrev entry : Str → Str → Str → AuditEntry
  entry = new_audit_entry ac now

  -- _ = d.auditor.Log(ctx, entry)
  abbrev pub noted : AuditEntry → L → L
  noted e l = (log e l).1

  -- user: Create
  unfoldable pub create_user :
      {S : Type 0} → (S → Result UserResponse × S) → S → L → Result UserResponse × (S × L)
  unfolding new_audit_entry
  create_user inner s l =
      let (reply, s') = inner s in
      elim reply [
        | err e ↦ (err e, (s', l))
        | ok resp ↦ (
          ok resp,
          (
            s',
            noted (record (entry (lit "CREATE") (lit "user") resp.id) { new_value = named resp }) l,
          ),
        )
      ]

  -- user: Update, with GetByID for the state before
  unfoldable pub update_user :
      {S : Type 0}
      → (Str → S → Result UserResponse)
      → (S → Result UserResponse × S)
      → Str
      → S
      → L
      → Result UserResponse × (S × L)
  unfolding new_audit_entry
  update_user get_by_id inner id s l = elim (get_by_id id s) [
    | err e ↦ (err e, (s, l))
    | ok old ↦
        let (reply, s') = inner s in
        elim reply [
          | err e ↦ (err e, (s', l))
          | ok resp ↦ (
            ok resp,
            (
              s',
              noted
                  (record (entry (lit "UPDATE") (lit "user") resp.id) {
                    old_value = named old;
                    new_value = named resp;
                  })
                  l,
            ),
          )
        ]
  ]

  -- an operation that only returns an error, with an entry when it succeeds
  unfoldable pub note_success :
      {S : Type 0} → AuditEntry → (S → Option GoError × S) → S → L → Option GoError × (S × L)
  note_success e inner s l =
      let (failure, s') = inner s in
      elim failure [ some x ↦ (some x, (s', l)) | none ↦ (none, (s', noted e l)) ]

  unfoldable pub change_password :
      {S : Type 0} → (S → Option GoError × S) → Str → S → L → Option GoError × (S × L)
  unfolding note_success new_audit_entry
  change_password inner id =
      note_success
        (record (entry (lit "UPDATE") (lit "user") id) {
          metadata = some ((lit "field", word (lit "password")) ∷ []);
        })
        inner

  unfoldable pub delete_user :
      {S : Type 0}
      → (Str → S → Result UserResponse)
      → (Str → S → Option GoError × S)
      → Str
      → S
      → L
      → Option GoError × (S × L)
  unfolding note_success new_audit_entry
  delete_user get_by_id inner id s l = elim (get_by_id id s) [
    | err e ↦ (some e, (s, l))
    | ok old ↦
        note_success (record (entry (lit "DELETE") (lit "user") id) { old_value = named old })
          (inner id) s l
  ]

  -- user: Activate (`to` is true) and Deactivate; no entry when nothing changed
  unfoldable pub switch_user :
      {S : Type 0}
      → Bool
      → (Str → S → Result UserResponse)
      → (Str → S → Option GoError × S)
      → Str
      → S
      → L
      → Option GoError × (S × L)
  unfolding new_audit_entry
  switch_user to get_by_id inner id s l = elim (get_by_id id s) [
    | err e ↦ (some e, (s, l))
    | ok old ↦
        let (failure, s') = inner id s in
        elim failure [
          | some x ↦ (some x, (s', l))
          | none ↦ (
            none,
            (
              s',
              if (if to then not old.is_active else old.is_active)
                  then noted
                      (record (entry (lit "UPDATE") (lit "user") id) {
                        old_value = active (not to);
                        new_value = active to;
                      })
                      l
                  else l,
            ),
          )
        ]
  ]

  unfoldable pub activate :
      {S : Type 0}
      → (Str → S → Result UserResponse)
      → (Str → S → Option GoError × S)
      → Str
      → S
      → L
      → Option GoError × (S × L)
  unfolding switch_user
  activate = switch_user true

  unfoldable pub deactivate :
      {S : Type 0}
      → (Str → S → Result UserResponse)
      → (Str → S → Option GoError × S)
      → Str
      → S
      → L
      → Option GoError × (S × L)
  unfolding switch_user
  deactivate = switch_user false

  -- auth: Login, noted whether it succeeds or fails
  unfoldable pub login :
      {S : Type 0} → (S → Result LoginResponse × S) → Str → S → L → Result LoginResponse × (S × L)
  unfolding new_audit_entry classify_login_failure
  login inner email s l =
      let (reply, s') = inner s in
      elim reply [
        | err e ↦ (
          err e,
          (
            s',
            noted
                (record (entry (lit "LOGIN") (lit "user") email) {
                  metadata = some (
                      (lit "outcome", word (lit "failed"))
                      ∷ (lit "reason", word (classify_login_failure e))
                      ∷ []);
                })
                l,
          ),
        )
        | ok resp ↦ (
          ok resp,
          (
            s',
            noted
                (record (entry (lit "LOGIN") (lit "user") resp.user_id) {
                  metadata = some ((lit "outcome", word (lit "success")) ∷ []);
                })
                l,
          ),
        )
      ]

  unfoldable pub logout :
      {S : Type 0} → (S → Option GoError × S) → Str → S → L → Option GoError × (S × L)
  unfolding note_success new_audit_entry
  logout inner caller_id = note_success (entry (lit "LOGOUT") (lit "user") caller_id) inner

  -- storage: Upload and Delete
  unfoldable pub upload :
      {S : Type 0} → (S → Result UploadResponse × S) → Str → S → L → Result UploadResponse × (S × L)
  unfolding new_audit_entry
  upload inner filename s l =
      let (reply, s') = inner s in
      elim reply [
        | err e ↦ (err e, (s', l))
        | ok resp ↦ (
          ok resp,
          (
            s',
            noted
                (record (entry (lit "CREATE") (lit "file") resp.path) {
                  new_value = some (
                      (lit "size", count resp.size)
                      ∷ (lit "original_filename", word filename)
                      ∷ []);
                })
                l,
          ),
        )
      ]

  unfoldable pub delete_file :
      {S : Type 0} → (S → Option GoError × S) → Str → S → L → Option GoError × (S × L)
  unfolding note_success new_audit_entry
  delete_file inner path = note_success (entry (lit "DELETE") (lit "file") path) inner

  -- job: Dispatch, which returns the id of the job
  unfoldable pub dispatch :
      {S : Type 0} → (S → Result Str × S) → Str → ℕ → S → L → Result Str × (S × L)
  unfolding new_audit_entry
  dispatch inner job_type max_retry s l =
      let (reply, s') = inner s in
      elim reply [
        | err e ↦ (err e, (s', l))
        | ok id ↦ (
          ok id,
          (
            s',
            noted
                (record (entry (lit "CREATE") (lit "job") id) {
                  metadata =
                      some
                        ((lit "job_type", word job_type) ∷ (lit "max_retry", count max_retry) ∷ []);
                })
                l,
          ),
        )
      ]
