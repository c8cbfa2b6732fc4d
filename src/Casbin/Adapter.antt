-- ===== src/Casbin/Adapter.antt =====
-- internal/adapter/casbin/casbin.go: the adapter's policy operations, its decisions and the
-- callback of the watcher. The Casbin enforcer is outside the repository: it is the parameter
-- `Enforcer`, an interface of the calls that the adapter makes. A call that returns only an error
-- gives `none` for nil. The Boolean that AddPolicy and its like return beside the error is dropped
-- by the adapter and is left out.
pub mod Coherence
pub mod Reach
pub mod Stale
pub mod Tests
use goscratch.Base.{
  ℕ, ◌+◌, Bool, true, false, ◌||◌, Option, none, some, List, [], ◌∷◌, ◌++◌, if◌then◌else◌, ◌==◌,
  Str, str_eq, lit, has_byte,
}
use goscratch.Base.Int.{ℤ, pos, negsuc}
use goscratch.Apperr.{GoError, plain, wrapped, Result, ok, err}
use goscratch.Casbin.Cache
use goscratch.Casbin.Cache.{Cache}

pub record Enforcer : Type 1 where
  pub Policies : Type 0
  pub enforce : Str → Str → Str → Policies → Result Bool
  pub add_policy : List Str → Policies → Option GoError × Policies
  pub remove_policy : List Str → Policies → Option GoError × Policies
  pub add_grouping : List Str → Policies → Option GoError × Policies
  pub remove_grouping : List Str → Policies → Option GoError × Policies
  pub load_policy : Policies → Option GoError × Policies
  pub roles_for_user : Str → Policies → Result (List Str)
  pub users_for_role : Str → Policies → Result (List Str)
  pub has_role : Str → Str → Policies → Result Bool
  pub permissions_for_user : Str → Policies → Result (List (List Str))
  pub implicit_permissions : Str → Policies → Result (List (List Str))

-- the JSON envelope watcherOp
pub record WatcherOp : Type 0 where
  pub op : Str
  pub sec : Str
  pub ptype : Str
  pub params : List Str

abbrev pub err_invalid_policy_arg : GoError
err_invalid_policy_arg = plain (lit "invalid policy argument")

unfoldable pub validate_policy_args : List Str → Option GoError
validate_policy_args [] = none
validate_policy_args (arg ∷ args) =
    if has_byte 0 arg
    then some (wrapped (lit "invalid policy arg " ++ arg) err_invalid_policy_arg)
    else validate_policy_args args

-- the size that NewAdapter gives the cache, from the int DecisionCacheSize
unfoldable pub cache_size : ℤ → ℕ
cache_size (pos n) = if n == 0 then 10000 else n
cache_size (negsuc n) = 0

-- FormatPermission and ParsePermission; strings.SplitN(perm, ":", 2) cuts at the first colon.
unfoldable pub format_permission : Str → Str → Str
format_permission obj act = obj ++ (b':' ∷ act)

unfoldable pub prepend : ℕ → Option (Str × Str) → Option (Str × Str)
prepend c none = none
prepend c (some (s, t)) = some (c ∷ s, t)

unfoldable pub cut_at : ℕ → Str → Option (Str × Str)
unfolding prepend
cut_at b [] = none
cut_at b (c ∷ s) = if c == b then some ([], s) else prepend c (cut_at b s)

unfoldable pub parse_permission : Str → Str × Str
unfolding cut_at
parse_permission perm = elim (cut_at b':' perm) [ some p ↦ p | none ↦ (perm, lit "*") ]

module _ (E : Enforcer) where
  open E use {
    Policies, add_policy, remove_policy, add_grouping, remove_grouping, load_policy, has_role,
    roles_for_user, users_for_role, permissions_for_user, implicit_permissions,
  }

  pub record Adapter : Type 0 where
    pub policies : Policies
    pub cache : Cache

  abbrev pub Update : Type 0
  Update = Policies → Option GoError × Policies

  -- Every operation that changes the policy runs the enforcer, and on success updates the cache.
  unfoldable pub apply : Update → (Cache → Cache) → Adapter → Option GoError × Adapter
  apply update on_success a =
      let (e, policies) = update a.policies in
      elim e [
        | none ↦ (none, record { policies = policies; cache = on_success a.cache })
        | some x ↦ (some x, record { policies = policies; cache = a.cache })
      ]

  -- the guard on the arguments before it
  unfoldable pub guarded : List Str → Update → (Cache → Cache) → Adapter → Option GoError × Adapter
  guarded args update on_success a = elim (validate_policy_args args) [
    | some e ↦ (some e, a)
    | none ↦ apply update on_success a
  ]

  -- The three parts of Enforce, each under a lock of its own: the look into the cache, the call of
  -- the enforcer, and the put. Between them other calls may run.
  unfoldable pub look_up : Str → Str → Str → Adapter → Option Bool × Adapter
  look_up sub obj act a =
      let (hit, cache) = Cache.get sub obj act a.cache in (hit, record a { cache = cache })

  unfoldable pub remember : Str → Str → Str → Bool → Adapter → Adapter
  remember sub obj act allowed a = record a { cache = Cache.put sub obj act allowed a.cache }

  -- Enforce when no other call runs between its parts
  unfoldable pub enforce : Str → Str → Str → Adapter → Result Bool × Adapter
  unfolding look_up remember
  enforce sub obj act a =
      let (hit, a') = look_up sub obj act a in
      elim hit [
        | some v ↦ (ok v, a')
        | none ↦ elim (E.enforce sub obj act a'.policies) [
          | ok v ↦ (ok v, remember sub obj act v a')
          | err e ↦ (err e, a')
        ]
      ]

  -- `done` is ctx.Err() of a context that has ended.
  unfoldable pub enforce_with_context :
      Option GoError → Str → Str → Str → Adapter → Result Bool × Adapter
  enforce_with_context none sub obj act a = enforce sub obj act a
  enforce_with_context (some done) sub obj act a = (err done, a)

  unfoldable pub add_role_for_user : Str → Str → Adapter → Option GoError × Adapter
  add_role_for_user user role =
      guarded (user ∷ role ∷ []) (add_grouping (user ∷ role ∷ [])) (Cache.invalidate_sub user)

  unfoldable pub remove_role_for_user : Str → Str → Adapter → Option GoError × Adapter
  remove_role_for_user user role =
      guarded (user ∷ role ∷ []) (remove_grouping (user ∷ role ∷ [])) (Cache.invalidate_sub user)

  unfoldable pub add_permission_for_role : Str → Str → Str → Adapter → Option GoError × Adapter
  add_permission_for_role role obj act =
      guarded (role ∷ obj ∷ act ∷ []) (add_policy (role ∷ obj ∷ act ∷ [])) Cache.flush

  unfoldable pub remove_permission_for_role : Str → Str → Str → Adapter → Option GoError × Adapter
  remove_permission_for_role role obj act =
      guarded (role ∷ obj ∷ act ∷ []) (remove_policy (role ∷ obj ∷ act ∷ [])) Cache.flush

  unfoldable pub add_permission_for_user : Str → Str → Str → Adapter → Option GoError × Adapter
  add_permission_for_user user obj act =
      guarded (user ∷ obj ∷ act ∷ []) (add_policy (user ∷ obj ∷ act ∷ []))
        (Cache.invalidate_sub user)

  unfoldable pub remove_permission_for_user : Str → Str → Str → Adapter → Option GoError × Adapter
  remove_permission_for_user user obj act =
      guarded (user ∷ obj ∷ act ∷ []) (remove_policy (user ∷ obj ∷ act ∷ []))
        (Cache.invalidate_sub user)

  unfoldable pub reload : Adapter → Option GoError × Adapter
  reload = apply load_policy Cache.flush

  unfoldable pub get_roles_for_user : Str → Adapter → Result (List Str)
  get_roles_for_user user a = roles_for_user user a.policies

  unfoldable pub get_users_for_role : Str → Adapter → Result (List Str)
  get_users_for_role role a = users_for_role role a.policies

  unfoldable pub has_role_for_user : Str → Str → Adapter → Result Bool
  has_role_for_user user role a = has_role user role a.policies

  unfoldable pub get_permissions_for_role : Str → Adapter → Result (List (List Str))
  get_permissions_for_role role a = permissions_for_user role a.policies

  unfoldable pub get_permissions_for_user : Str → Adapter → Result (List (List Str))
  get_permissions_for_user user a = permissions_for_user user a.policies

  unfoldable pub get_implicit_permissions_for_user : Str → Adapter → Result (List (List Str))
  get_implicit_permissions_for_user user a = implicit_permissions user a.policies

  -- The callback flushes whether or not the enforcer's call succeeded.
  unfoldable pub flush_after : Update → Adapter → Adapter
  flush_after update a = record { policies = (update a.policies).1; cache = Cache.flush a.cache }

  unfoldable pub on_operation : WatcherOp → Adapter → Adapter
  on_operation o a =
      if str_eq o.op (lit "add_policy")
      then flush_after (add_policy o.params) a
      else if str_eq o.op (lit "remove_policy")
      then flush_after (remove_policy o.params) a
      else if str_eq o.op (lit "add_grouping")
      then flush_after (add_grouping o.params) a
      else if str_eq o.op (lit "remove_grouping")
      then flush_after (remove_grouping o.params) a
      else (reload a).1

  -- makeUpdateCallback; `decode` is json.Unmarshal into a watcherOp, `none` when it fails
  unfoldable pub update_callback : (Str → Option WatcherOp) → Str → Adapter → Adapter
  update_callback decode msg a = elim (decode msg) [
    | none ↦ (reload a).1
    | some o ↦ on_operation o a
  ]
