-- ===== src/Role/Permissions.antt =====
-- The list of all permissions against the permissions of each role.
use goscratch.Base.{
  ◌≡◌, refl, subst, true, List, [], ◌∷◌, map, arith, Str, str_eq, lit, All, inl, inr,
}
use goscratch.Apperr.{ok, Result-cases}
use goscratch.Port.Authorizer.{Authorizer}
use goscratch.Role.{
  Role, PermissionEntry, PermissionResponse, RolePermissionsEntry, predefined_roles, is_valid_role,
  names_role, to_permission_responses, permission_entries, get_role_permissions,
  list_permissions_of, list_all_permissions, list_roles,
}

predefined_valid : All (λ (r : Role). is_valid_role r.name ≡ true) predefined_roles
unfolding is_valid_role names_role predefined_roles str_eq lit
predefined_valid = (refl, (refl, (refl, (refl, tt))))

abbrev pub as_response : PermissionEntry → PermissionResponse
as_response e = record { object = e.object; action = e.action }

to_permission_responses-permission_entries :
    (rows : List (List Str))
    → to_permission_responses rows ≡ map as_response (permission_entries rows)
unfolding to_permission_responses permission_entries
to_permission_responses-permission_entries [] = refl
to_permission_responses-permission_entries ([] ∷ rows) =
    to_permission_responses-permission_entries rows
to_permission_responses-permission_entries ((s ∷ []) ∷ rows) =
    to_permission_responses-permission_entries rows
to_permission_responses-permission_entries ((s ∷ o ∷ []) ∷ rows) =
    to_permission_responses-permission_entries rows
to_permission_responses-permission_entries ((s ∷ o ∷ x ∷ row) ∷ rows) =
    rw (to_permission_responses-permission_entries rows)

module _ (a : Authorizer) where
  abbrev pub Agrees : a.State → RolePermissionsEntry → Type 0
  Agrees s entry = get_role_permissions a entry.role s ≡ ok (map as_response entry.permissions)

  agrees :
      (r : Role) (rows : List (List Str)) (s : a.State)
      → is_valid_role r.name ≡ true
      → a.get_permissions_for_role r.name s ≡ ok rows
      → Agrees s (record { role = r.name; permissions = permission_entries rows })
  unfolding get_role_permissions
  agrees r rows s valid found =
      rw (valid, found, get_role_permissions, to_permission_responses-permission_entries rows)

  list_permissions_of-Agrees :
      (roles : List Role) (s : a.State) (entries : List RolePermissionsEntry)
      → All (λ (r : Role). is_valid_role r.name ≡ true) roles
      → list_permissions_of a roles s ≡ ok entries
      → (map (λ (e : RolePermissionsEntry). e.role) entries ≡ map (λ (r : Role). r.name) roles)
        × All (Agrees s) entries
  unfolding list_permissions_of
  list_permissions_of-Agrees [] s [] valid h = (refl, tt)
  list_permissions_of-Agrees [] s (e ∷ entries) valid h = absurd (ground arith)
  list_permissions_of-Agrees (r ∷ roles) s entries valid h =
      elim (Result-cases (a.get_permissions_for_role r.name s)) [
        | inr (e, failed) ↦ absurd (ground arith)
        | inl (rows, found) ↦ elim (Result-cases (list_permissions_of a roles s)) [
          | inr (e, failed) ↦ absurd (ground arith)
          | inl (rest, listed) ↦
              let (names, all) = list_permissions_of-Agrees roles s rest valid.1 listed in
              let entry : RolePermissionsEntry = record {
                role = r.name;
                permissions = permission_entries rows;
              } in
              let made : entry ∷ rest ≡ entries = ground arith in
              subst
                (λ es.
                  (map (λ (e : RolePermissionsEntry). e.role) es
                    ≡ map (λ (r : Role). r.name) (r ∷ roles))
                  × All (Agrees s) es)
                made (rw names, (agrees r rows s valid.0 found, all))
        ]
      ]

  -- When the list of all permissions is returned, it has one entry for each predefined role, in the
  -- order of ListRoles, and each entry holds what GetRolePermissions returns for its role.
  pub list_all_permissions-get_role_permissions :
      (s : a.State) (entries : List RolePermissionsEntry)
      → list_all_permissions a s ≡ ok entries
      → (map (λ (e : RolePermissionsEntry). e.role) entries
          ≡ map (λ (r : Role). r.name) (list_roles a))
        × All (Agrees s) entries
  unfolding list_all_permissions list_roles predefined_roles
  list_all_permissions-get_role_permissions s entries h =
      list_permissions_of-Agrees predefined_roles s entries predefined_valid h
