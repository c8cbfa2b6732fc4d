-- ===== src/Role.antt =====
-- internal/module/role: the predefined roles (domain/role.go) and the use cases on roles and
-- permissions (usecase/role_usecase.go) over an authorizer. %s of a role name in a message is the
-- name itself. A context that has not ended leaves EnforceWithContext the same as Enforce.
pub mod Assignments
pub mod Permissions
mod Tests
use goscratch.Base.{
  ℕ, Bool, true, false, not, Option, none, some, List, [], ◌∷◌, ◌++◌, map, if◌then◌else◌, Str, lit,
  str_eq,
}
use goscratch.Apperr.{
  GoError, app, Result, ok, err, err_internal, with_error, bad_requestf, conflictf, not_foundf,
}
use goscratch.Port.Authorizer.{Authorizer}

pub record Role : Type 0 where
  pub name : Str
  pub description : Str

pub record PermissionResponse : Type 0 where
  pub object : Str
  pub action : Str

pub record UserRolesResponse : Type 0 where
  pub user_id : Str
  pub roles : List Str

pub record RoleUsersResponse : Type 0 where
  pub role : Str
  pub user_ids : List Str

pub record UserPermissionsResponse : Type 0 where
  pub user_id : Str
  pub permissions : List PermissionResponse

pub record PermissionEntry : Type 0 where
  pub object : Str
  pub action : Str

pub record RolePermissionsEntry : Type 0 where
  pub role : Str
  pub permissions : List PermissionEntry

unfoldable pub predefined_roles : List Role
unfolding lit
predefined_roles =
    record { name = lit "superadmin"; description = lit "Full system access with all permissions" }
    ∷ record { name = lit "admin"; description = lit "Administrative access with most permissions" }
    ∷ record { name = lit "editor"; description = lit "Can create and edit content" }
    ∷ record { name = lit "viewer"; description = lit "Read-only access" }
    ∷ []

unfoldable pub names_role : Str → List Role → Bool
names_role name [] = false
names_role name (r ∷ roles) = if str_eq r.name name then true else names_role name roles

-- IsValidRole
unfoldable pub is_valid_role : Str → Bool
unfolding names_role predefined_roles
is_valid_role name = names_role name predefined_roles

abbrev pub invalid_role : Str → GoError
invalid_role role = app (bad_requestf (lit "invalid role: " ++ role))

abbrev pub internal_error : GoError → GoError
internal_error e = app (with_error err_internal e)

abbrev pub has_already : Str → GoError
has_already role = app (conflictf (lit "user already has role " ++ role))

abbrev pub has_not : Str → GoError
has_not role = app (not_foundf (lit "user does not have role " ++ role))

-- toPermissionResponses keeps the rows of at least three columns.
unfoldable pub to_permission_responses : List (List Str) → List PermissionResponse
to_permission_responses [] = []
to_permission_responses ((s ∷ o ∷ x ∷ row) ∷ rows) =
    record { object = o; action = x } ∷ to_permission_responses rows
to_permission_responses (_ ∷ rows) = to_permission_responses rows

unfoldable pub permission_entries : List (List Str) → List PermissionEntry
permission_entries [] = []
permission_entries ((s ∷ o ∷ x ∷ row) ∷ rows) =
    record { object = o; action = x } ∷ permission_entries rows
permission_entries (_ ∷ rows) = permission_entries rows

module _ (a : Authorizer) where
  open a use {State}

  -- the return of a call that changes the policy
  unfoldable pub or_internal : Option GoError × State → Option GoError × State
  or_internal (none, s) = (none, s)
  or_internal (some e, s) = (some (internal_error e), s)

  unfoldable pub assign_role : Str → Str → State → Option GoError × State
  assign_role user role s =
      if not (is_valid_role role)
      then (some (invalid_role role), s)
      else elim (a.has_role_for_user user role s) [
        | err e ↦ (some (internal_error e), s)
        | ok has_role ↦
            if has_role
            then (some (has_already role), s)
            else or_internal (a.add_role_for_user user role s)
      ]

  unfoldable pub remove_role : Str → Str → State → Option GoError × State
  remove_role user role s =
      if not (is_valid_role role)
      then (some (invalid_role role), s)
      else elim (a.has_role_for_user user role s) [
        | err e ↦ (some (internal_error e), s)
        | ok has_role ↦
            if not has_role
            then (some (has_not role), s)
            else or_internal (a.remove_role_for_user user role s)
      ]

  unfoldable pub get_user_roles : Str → State → Result UserRolesResponse
  get_user_roles user s = elim (a.get_roles_for_user user s) [
    | err e ↦ err (internal_error e)
    | ok names ↦ ok (record { user_id = user; roles = names })
  ]

  unfoldable pub get_role_users : Str → State → Result RoleUsersResponse
  get_role_users name s =
      if not (is_valid_role name)
      then err (invalid_role name)
      else elim (a.get_users_for_role name s) [
        | err e ↦ err (internal_error e)
        | ok users ↦ ok (record { role = name; user_ids = users })
      ]

  unfoldable pub list_roles : List Role
  unfolding predefined_roles
  list_roles = predefined_roles

  unfoldable pub add_permission_to_role : Str → Str → Str → State → Option GoError × State
  add_permission_to_role role obj act s =
      if not (is_valid_role role)
      then (some (invalid_role role), s)
      else or_internal (a.add_permission_for_role role obj act s)

  unfoldable pub remove_permission_from_role : Str → Str → Str → State → Option GoError × State
  remove_permission_from_role role obj act s =
      if not (is_valid_role role)
      then (some (invalid_role role), s)
      else or_internal (a.remove_permission_for_role role obj act s)

  unfoldable pub get_role_permissions : Str → State → Result (List PermissionResponse)
  get_role_permissions role s =
      if not (is_valid_role role)
      then err (invalid_role role)
      else elim (a.get_permissions_for_role role s) [
        | err e ↦ err (internal_error e)
        | ok rows ↦ ok (to_permission_responses rows)
      ]

  unfoldable pub get_user_permissions : Str → State → Result UserPermissionsResponse
  get_user_permissions user s = elim (a.get_implicit_permissions_for_user user s) [
    | err e ↦ err (internal_error e)
    | ok rows ↦ ok (record { user_id = user; permissions = to_permission_responses rows })
  ]

  unfoldable pub check_permission : Str → Str → Str → State → Result Bool × State
  check_permission user obj act s =
      let (decision, s') = a.enforce user obj act s in
      elim decision [ err e ↦ (err (internal_error e), s') | ok allowed ↦ (ok allowed, s') ]

  unfoldable pub list_permissions_of : List Role → State → Result (List RolePermissionsEntry)
  list_permissions_of [] s = ok []
  list_permissions_of (r ∷ roles) s =
      let rest = list_permissions_of roles s in
      elim (a.get_permissions_for_role r.name s) [
        | err e ↦ err (internal_error e)
        | ok rows ↦ elim rest [
          | err e ↦ err e
          | ok entries ↦
              ok (record { role = r.name; permissions = permission_entries rows } ∷ entries)
        ]
      ]

  unfoldable pub list_all_permissions : State → Result (List RolePermissionsEntry)
  unfolding predefined_roles
  list_all_permissions = list_permissions_of predefined_roles

  unfoldable pub add_user_permission : Str → Str → Str → State → Option GoError × State
  add_user_permission user obj act s = or_internal (a.add_permission_for_user user obj act s)

  unfoldable pub remove_user_permission : Str → Str → Str → State → Option GoError × State
  remove_user_permission user obj act s = or_internal (a.remove_permission_for_user user obj act s)
