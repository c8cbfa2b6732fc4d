-- ===== src/Port/Authorizer.antt =====
-- internal/port/authorizer.go: authorization as the role module and the middleware use it, what a
-- working authorizer promises them, and internal/adapter/casbin/noop.go. A decision may change the
-- state (the adapter keeps a cache), so it returns the next state too.
use goscratch.Base.{
  ◌≡◌, Bool, true, false, ◌&&◌, Option, none, List, [], if◌then◌else◌, Str, str_eq,
}
use goscratch.Apperr.{GoError, Result, ok}

pub record Authorizer : Type 1 where
  pub State : Type 0
  pub enforce : Str → Str → Str → State → Result Bool × State
  pub add_role_for_user : Str → Str → State → Option GoError × State
  pub remove_role_for_user : Str → Str → State → Option GoError × State
  pub get_roles_for_user : Str → State → Result (List Str)
  pub get_users_for_role : Str → State → Result (List Str)
  pub has_role_for_user : Str → Str → State → Result Bool
  pub add_permission_for_role : Str → Str → Str → State → Option GoError × State
  pub remove_permission_for_role : Str → Str → Str → State → Option GoError × State
  pub get_permissions_for_role : Str → State → Result (List (List Str))
  pub add_permission_for_user : Str → Str → Str → State → Option GoError × State
  pub remove_permission_for_user : Str → Str → Str → State → Option GoError × State
  pub get_implicit_permissions_for_user : Str → State → Result (List (List Str))

-- Decisions follow a policy, `decide`, which deciding does not change. `IsGood` is an invariant of
-- the authorizer's own.
pub record IsDecider (a : Authorizer) : Type 1 where
  pub IsGood : a.State → Type 0
  pub decide : Str → Str → Str → a.State → Result Bool
  pub enforce-decide :
      (u o x : Str) (s : a.State) → IsGood s → (a.enforce u o x s).0 ≡ decide u o x s
  pub enforce-IsGood : (u o x : Str) (s : a.State) → IsGood s → IsGood (a.enforce u o x s).1
  pub decide-enforce :
      (u o x v p y : Str) (s : a.State) → decide v p y (a.enforce u o x s).1 ≡ decide v p y s

-- What the role operations do when they report success, as the role queries see it.
pub record IsRoleStore (a : Authorizer) : Type 0 where
  pub has_role-add :
      (u r v q : Str) (s : a.State)
      → (a.add_role_for_user u r s).0 ≡ none
      → a.has_role_for_user v q (a.add_role_for_user u r s).1
        ≡ (if str_eq u v && str_eq r q then ok true else a.has_role_for_user v q s)
  pub has_role-remove :
      (u r v q : Str) (s : a.State)
      → (a.remove_role_for_user u r s).0 ≡ none
      → a.has_role_for_user v q (a.remove_role_for_user u r s).1
        ≡ (if str_eq u v && str_eq r q then ok false else a.has_role_for_user v q s)

-- NoOpAdapter allows everything and keeps nothing.
abbrev pub no_op_authorizer : Authorizer
no_op_authorizer = record {
  State = Unit;
  enforce = λ u o x s. (ok true, s);
  add_role_for_user = λ u r s. (none, s);
  remove_role_for_user = λ u r s. (none, s);
  get_roles_for_user = λ u s. ok [];
  get_users_for_role = λ r s. ok [];
  has_role_for_user = λ u r s. ok true;
  add_permission_for_role = λ r o x s. (none, s);
  remove_permission_for_role = λ r o x s. (none, s);
  get_permissions_for_role = λ r s. ok [];
  add_permission_for_user = λ u o x s. (none, s);
  remove_permission_for_user = λ u o x s. (none, s);
  get_implicit_permissions_for_user = λ u s. ok [];
}
