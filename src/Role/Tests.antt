-- ===== src/Role/Tests.antt =====
-- Roles over an authorizer in memory.
use goscratch.Base.{
  str_eq_instance, ◌≡◌, refl, Bool, true, false, ◌&&◌, none, some, List, [], ◌∷◌, arith,
  if◌then◌else◌, Str, lit, str_eq, All, map,
}
use goscratch.Apperr.{ok}
use goscratch.Port.Authorizer.{Authorizer, IsRoleStore}
use goscratch.Role.{
  permission_entries, list_permissions_of, or_internal, Role, RolePermissionsEntry, assign_role,
  remove_role, is_valid_role, has_already, has_not, list_all_permissions, list_roles,
}
use goscratch.Role.Assignments.{assign_role_grants, assign_role-remove_role}
use goscratch.Role.Permissions.{list_all_permissions-get_role_permissions, Agrees}

-- Everybody may do everything; the state says who has which role.
abbrev memory : Authorizer
memory = record {
  State = Str → Str → Bool;
  enforce = λ u o x s. (ok true, s);
  add_role_for_user = λ u r s. (none, λ v q. if str_eq u v && str_eq r q then true else s v q);
  remove_role_for_user = λ u r s. (none, λ v q. if str_eq u v && str_eq r q then false else s v q);
  get_roles_for_user = λ u s. ok [];
  get_users_for_role = λ r s. ok [];
  has_role_for_user = λ u r s. ok (s u r);
  add_permission_for_role = λ r o x s. (none, s);
  remove_permission_for_role = λ r o x s. (none, s);
  get_permissions_for_role = λ r s. ok ((r ∷ lit "users" ∷ lit "read" ∷ []) ∷ []);
  add_permission_for_user = λ u o x s. (none, s);
  remove_permission_for_user = λ u o x s. (none, s);
  get_implicit_permissions_for_user = λ u s. ok [];
}

memory-IsRoleStore : IsRoleStore memory
memory-IsRoleStore = record {
  has_role-add = λ u r v q s _. ground arith;
  has_role-remove = λ u r v q s _. ground arith;
}

abbrev nobody : Str → Str → Bool
nobody u r = false

abbrev after : Str → Str → Bool
after = (assign_role memory (lit "alice") (lit "editor") nobody).1

assign_role_grants_example :
    (is_valid_role (lit "editor") ≡ true)
    × (memory.has_role_for_user (lit "alice") (lit "editor") nobody ≡ ok false)
    × ((v q : Str)
        → memory.has_role_for_user v q after
          ≡ (if str_eq (lit "alice") v && str_eq (lit "editor") q then ok true else ok false))
    × (assign_role memory (lit "alice") (lit "editor") after
        ≡ (some (has_already (lit "editor")), after))
unfolding assign_role is_valid_role str_eq or_internal
assign_role_grants_example =
    assign_role_grants memory memory-IsRoleStore (lit "alice") (lit "editor") nobody refl

assign_role-remove_role_example :
    ((v q : Str)
      → memory.has_role_for_user v q (remove_role memory (lit "alice") (lit "editor") after).1
        ≡ ok false)
    × (remove_role memory
          (lit "alice")
          (lit "editor")
          (remove_role memory (lit "alice") (lit "editor") after).1
        ≡ (
          some (has_not (lit "editor")),
          (remove_role memory (lit "alice") (lit "editor") after).1,
        ))
unfolding assign_role is_valid_role str_eq or_internal remove_role
assign_role-remove_role_example =
    assign_role-remove_role memory memory-IsRoleStore (lit "alice") (lit "editor") nobody refl refl

abbrev entry : Str → RolePermissionsEntry
entry r = record {
  role = r;
  permissions = record { object = lit "users"; action = lit "read" } ∷ [];
}

abbrev entries : List RolePermissionsEntry
entries =
    entry (lit "superadmin")
    ∷ entry (lit "admin")
    ∷ entry (lit "editor")
    ∷ entry (lit "viewer")
    ∷ []

list_all_permissions-get_role_permissions_example :
    (map (λ (e : RolePermissionsEntry). e.role) entries
      ≡ map (λ (r : Role). r.name) (list_roles memory))
    × All (Agrees memory nobody) entries
unfolding list_all_permissions list_permissions_of permission_entries
list_all_permissions-get_role_permissions_example =
    list_all_permissions-get_role_permissions memory nobody entries refl
