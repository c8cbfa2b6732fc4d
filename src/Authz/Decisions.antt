-- ===== src/Authz/Decisions.antt =====
-- The handlers of the authorization middleware against the decisions of the policy.
use goscratch.Base.{
  ◌≡◌, refl, Bool, true, false, ◌&&◌, ◌||◌, Option, none, List, [], ◌∷◌, arith, if◌then◌else◌, Str,
  lit, str_eq,
}
use goscratch.Apperr.{Result, ok, err}
use goscratch.Port.Authorizer.{Authorizer, IsDecider}
use goscratch.Authz.{
  passed, get_user_id, parse_from, authenticated, any_permission, all_permissions,
  require_any_permission, require_all_permissions, not_authenticated, no_permission,
}

-- an error counts as no
abbrev pub granted : Result Bool → Bool
granted (ok v) = v
granted (err e) = false

module _ (a : Authorizer) (D : IsDecider a) where
  open a use {State, enforce}

  -- the policy's word on a permission text
  unfoldable pub holds : Str → State → Str → Bool
  holds user s perm = granted (D.decide user (parse_from perm).0 (parse_from perm).1 s)

  unfoldable pub some_holds : List Str → Str → State → Bool
  unfolding holds
  some_holds [] user s = false
  some_holds (perm ∷ perms) user s = holds user s perm || some_holds perms user s

  unfoldable pub every_holds : List Str → Str → State → Bool
  unfolding holds
  every_holds [] user s = true
  every_holds (perm ∷ perms) user s = holds user s perm && every_holds perms user s

  some_holds-enforce :
      (perms : List Str) (user u o x : Str) (s : State)
      → some_holds perms user (enforce u o x s).1 ≡ some_holds perms user s
  unfolding some_holds holds
  some_holds-enforce [] user u o x s = refl
  some_holds-enforce (perm ∷ perms) user u o x s = rw (
    D.decide-enforce u o x user (parse_from perm).0 (parse_from perm).1 s,
    some_holds-enforce perms user u o x s,
  )

  every_holds-enforce :
      (perms : List Str) (user u o x : Str) (s : State)
      → every_holds perms user (enforce u o x s).1 ≡ every_holds perms user s
  unfolding every_holds holds
  every_holds-enforce [] user u o x s = refl
  every_holds-enforce (perm ∷ perms) user u o x s = rw (
    D.decide-enforce u o x user (parse_from perm).0 (parse_from perm).1 s,
    every_holds-enforce perms user u o x s,
  )

  any_permission-some_holds :
      (perms : List Str) (user : Str) (s : State)
      → D.IsGood s
      → (any_permission a perms user s).0
        ≡ (if some_holds perms user s then passed else no_permission)
  unfolding any_permission some_holds holds
  any_permission-some_holds [] user s good = refl
  any_permission-some_holds (perm ∷ perms) user s good =
      let o = (parse_from perm).0 in
      let x = (parse_from perm).1 in
      ground (
        arith,
        any_permission-some_holds perms user (enforce user o x s).1
            (D.enforce-IsGood user o x s good),
        some_holds-enforce perms user user o x s,
        D.enforce-decide user o x s good,
      )

  all_permissions-every_holds :
      (perms : List Str) (user : Str) (s : State)
      → D.IsGood s
      → (all_permissions a perms user s).0
        ≡ (if every_holds perms user s then passed else no_permission)
  unfolding all_permissions every_holds holds
  all_permissions-every_holds [] user s good = refl
  all_permissions-every_holds (perm ∷ perms) user s good =
      let o = (parse_from perm).0 in
      let x = (parse_from perm).1 in
      ground (
        arith,
        all_permissions-every_holds perms user (enforce user o x s).1
            (D.enforce-IsGood user o x s good),
        every_holds-enforce perms user user o x s,
        D.enforce-decide user o x s good,
      )

  -- For an authorizer whose decisions follow a policy: with a user id in the request, the handler
  -- for any of some permissions passes the request on when the policy grants one of them, the
  -- handler for all of them when it grants every one, and each answers 403 otherwise, an error of
  -- the policy counting as a refusal; without a user id both answer 401 and decide nothing.
  pub require_permissions_decide :
      (perms : List Str) (local_user : Option Str) (s : State)
      → D.IsGood s
      → let user = get_user_id local_user in
        ((require_any_permission a perms local_user s).0 ≡ (
          if str_eq user (lit "")
          then not_authenticated
          else if some_holds perms user s
          then passed
          else no_permission))
        × ((require_all_permissions a perms local_user s).0 ≡ (
            if str_eq user (lit "")
            then not_authenticated
            else if every_holds perms user s
            then passed
            else no_permission))
        × (local_user ≡ none → (require_any_permission a perms local_user s).1 ≡ s)
  unfolding require_any_permission require_all_permissions authenticated get_user_id str_eq lit
  require_permissions_decide perms local_user s good =
      let user = get_user_id local_user in
      (
        ground (arith, any_permission-some_holds perms user s good),
        ground (arith, all_permissions-every_holds perms user s good),
        λ e. rw (e, get_user_id, str_eq, lit),
      )
