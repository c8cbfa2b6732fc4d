-- ===== src/Authz/Tests.antt =====
-- The middleware over the Casbin adapter with an enforcer in memory.
use goscratch.Base.{has_byte, str_eq, ◌≡◌, false, Option, none, some, List, [], ◌∷◌, Str, lit}
use goscratch.Casbin.Adapter.{apply, validate_policy_args, guarded, add_role_for_user}
use goscratch.Casbin.Adapter.Tests.{subjects, subjects-IsRbac, decode, granted, history}
use goscratch.Authz.{get_user_id, passed, require_any_permission, require_all_permissions}
use goscratch.Authz.Decisions.{every_holds, some_holds}
use goscratch.Authz.CasbinDecider.{casbin_authorizer, casbin_permissions_decide}

abbrev perms : List Str
perms = lit "users:read" ∷ lit "users:write" ∷ []

abbrev no_user : Option Str
no_user = none

casbin_permissions_decide_example :
    ((require_any_permission (casbin_authorizer subjects) perms (some (lit "alice")) granted).0
      ≡ passed)
    × ((require_all_permissions (casbin_authorizer subjects) perms (some (lit "alice")) granted).0
        ≡ passed)
unfolding str_eq get_user_id lit some_holds every_holds add_role_for_user guarded
    validate_policy_args has_byte apply
casbin_permissions_decide_example =
    casbin_permissions_decide subjects subjects-IsRbac decode (λ x. false) 10 granted perms
      (some (lit "alice")) history
