-- ===== src/Authz/CasbinDecider.antt =====
-- The Casbin adapter (internal/adapter/casbin/casbin.go) as the authorizer of the middleware.
use goscratch.Base.{ℕ, ◌≡◌, Option, List, arith, if◌then◌else◌, Str, lit, str_eq}
use goscratch.Casbin.Cache
use goscratch.Casbin.Adapter
use goscratch.Casbin.Adapter.{Enforcer, WatcherOp}
use goscratch.Casbin.Adapter.Coherence.{
  IsRbac, IsCoherentAt, enforce_transparent, enforce-IsCoherent, new_cache-IsCoherent,
}
use goscratch.Casbin.Adapter.Reach.{Reach, Reach-IsCoherent}
use goscratch.Port.Authorizer.{Authorizer, IsDecider}
use goscratch.Authz.{
  passed, get_user_id, require_any_permission, require_all_permissions, not_authenticated,
  no_permission,
}
use goscratch.Authz.Decisions.{some_holds, every_holds, require_permissions_decide}

module _ (E : Enforcer) where
  abbrev pub casbin_authorizer : Authorizer
  casbin_authorizer = record {
    State = Adapter.Adapter E;
    enforce = Adapter.enforce E;
    add_role_for_user = Adapter.add_role_for_user E;
    remove_role_for_user = Adapter.remove_role_for_user E;
    get_roles_for_user = Adapter.get_roles_for_user E;
    get_users_for_role = Adapter.get_users_for_role E;
    has_role_for_user = Adapter.has_role_for_user E;
    add_permission_for_role = Adapter.add_permission_for_role E;
    remove_permission_for_role = Adapter.remove_permission_for_role E;
    get_permissions_for_role = Adapter.get_permissions_for_role E;
    add_permission_for_user = Adapter.add_permission_for_user E;
    remove_permission_for_user = Adapter.remove_permission_for_user E;
    get_implicit_permissions_for_user = Adapter.get_implicit_permissions_for_user E;
  }

  pub enforce-policies :
      (u o x : Str) (a : Adapter.Adapter E) → (Adapter.enforce E u o x a).1.policies ≡ a.policies
  unfolding Adapter.enforce Adapter.look_up Adapter.remember
  enforce-policies u o x a = ground arith

  abbrev pub casbin-IsDecider : IsDecider casbin_authorizer
  casbin-IsDecider = record {
    IsGood = λ a. IsCoherentAt E a;
    decide = λ u o x a. E.enforce u o x a.policies;
    enforce-decide = λ u o x a good. (enforce_transparent E u o x a good).0;
    enforce-IsGood = λ u o x a good. enforce-IsCoherent E u o x a good;
    decide-enforce = λ u o x v p y a. rw (enforce-policies u o x a);
  }

  -- Over the Casbin adapter, for an enforcer whose calls about a user from whom no other subject
  -- inherits change that user's decisions only, after any history of decisions, policy changes,
  -- reloads and messages of the watcher that starts with an empty cache, in which a user's roles
  -- and permissions are changed only while nobody inherits from the user, no call returns an error
  -- after it has changed a decision, a change and its invalidation are one step, and a decision is
  -- put while the enforcer still decides so: a request with a user id passes the handler for any of
  -- some permissions when the enforcer, under the policy of the moment, grants that user one of
  -- them, and the handler for all of them when it grants every one; it is answered 403 otherwise,
  -- and 401 without a user id.
  pub casbin_permissions_decide :
      (R : IsRbac E) (decode : Str → Option WatcherOp) (p : E.Policies) (n : ℕ)
      (a : Adapter.Adapter E) (perms : List Str) (local_user : Option Str)
      → Reach E decode (record { policies = p; cache = Cache.new_cache n }) a
      → let user = get_user_id local_user in
        ((require_any_permission casbin_authorizer perms local_user a).0 ≡ (
          if str_eq user (lit "")
          then not_authenticated
          else if some_holds casbin_authorizer casbin-IsDecider perms user a
          then passed
          else no_permission))
        × ((require_all_permissions casbin_authorizer perms local_user a).0 ≡ (
            if str_eq user (lit "")
            then not_authenticated
            else if every_holds casbin_authorizer casbin-IsDecider perms user a
            then passed
            else no_permission))
  casbin_permissions_decide R decode p n a perms local_user history =
      let r =
        require_permissions_decide casbin_authorizer casbin-IsDecider perms local_user a
          (Reach-IsCoherent E R decode (new_cache-IsCoherent E p n) history) in
      (r.0, r.1)
