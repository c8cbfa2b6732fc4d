-- ===== src/Authz.antt =====
-- internal/platform/http/middleware/authz.go: the authorization middleware. A handler either passes
-- the request on (c.Next) or answers it. `local_user` is what c.Locals("user_id") holds as a
-- string.
pub mod Decisions
pub mod Texts
pub mod CasbinDecider
mod Tests
use goscratch.Base.{
  ℕ, Bool, true, false, Option, none, some, List, [], ◌∷◌, if◌then◌else◌, ◌==◌, Str, lit, str_eq,
}
use goscratch.Apperr.{GoError, app, internalf, Result, ok, err}
use goscratch.Response.{Reply, fail, unauthorized, forbidden}
use goscratch.Port.Authorizer.{Authorizer}

pub data Outcome : Type 0 where
  passed : Outcome
  answered : Reply → Outcome

-- GetUserID
unfoldable pub get_user_id : Option Str → Str
get_user_id none = lit ""
get_user_id (some id) = id

-- parsePermission, by the first colon from the left
unfoldable pub parse_from : Str → Str × Str
parse_from [] = ([], lit "*")
parse_from (b ∷ perm) =
    let (obj, act) = parse_from perm in if b == b':' then ([], perm) else (b ∷ obj, act)

abbrev pub check_failed : Outcome
check_failed = answered (fail (app (internalf (lit "authorization check failed"))))

abbrev pub no_permission : Outcome
no_permission = answered (forbidden (lit "insufficient permissions"))

abbrev pub no_role : Outcome
no_role = answered (forbidden (lit "insufficient role"))

abbrev pub not_authenticated : Outcome
not_authenticated = answered (unauthorized (lit "authentication required"))

module _ (a : Authorizer) where
  open a use {State, enforce, has_role_for_user}

  -- the test on the user that every handler begins with
  unfoldable pub authenticated :
      (Str → State → Outcome × State) → Option Str → State → Outcome × State
  authenticated next local_user s =
      let user = get_user_id local_user in
      if str_eq user (lit "") then (not_authenticated, s) else next user s

  unfoldable pub require_permission : Str → Str → Option Str → State → Outcome × State
  require_permission obj act = authenticated (λ user s.
      let (decision, s') = enforce user obj act s in
      elim decision [
        | err _ ↦ (check_failed, s')
        | ok allowed ↦ if allowed then (passed, s') else (no_permission, s')
      ])

  unfoldable pub require_role : Str → Option Str → State → Outcome × State
  require_role role = authenticated (λ user s. elim (has_role_for_user user role s) [
    | err _ ↦ (check_failed, s)
    | ok has_role ↦ if has_role then (passed, s) else (no_role, s)
  ])

  unfoldable pub any_permission : List Str → Str → State → Outcome × State
  any_permission [] user s = (no_permission, s)
  any_permission (perm ∷ perms) user s =
      let (decision, s') = enforce user (parse_from perm).0 (parse_from perm).1 s in
      let rest = any_permission perms user s' in
      elim decision [ err _ ↦ rest | ok allowed ↦ if allowed then (passed, s') else rest ]

  unfoldable pub require_any_permission : List Str → Option Str → State → Outcome × State
  require_any_permission perms = authenticated (any_permission perms)

  unfoldable pub all_permissions : List Str → Str → State → Outcome × State
  all_permissions [] user s = (passed, s)
  all_permissions (perm ∷ perms) user s =
      let (decision, s') = enforce user (parse_from perm).0 (parse_from perm).1 s in
      let rest = all_permissions perms user s' in
      elim decision [
        | err _ ↦ (no_permission, s')
        | ok allowed ↦ if allowed then rest else (no_permission, s')
      ]

  unfoldable pub require_all_permissions : List Str → Option Str → State → Outcome × State
  require_all_permissions perms = authenticated (all_permissions perms)

  unfoldable pub any_role : List Str → Str → State → Outcome
  any_role [] user s = no_role
  any_role (role ∷ roles) user s =
      let rest = any_role roles user s in
      elim (has_role_for_user user role s) [
        | err _ ↦ rest
        | ok has_role ↦ if has_role then passed else rest
      ]

  unfoldable pub require_any_role : List Str → Option Str → State → Outcome × State
  require_any_role roles = authenticated (λ user s. (any_role roles user s, s))
