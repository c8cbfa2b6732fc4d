-- ===== src/Casbin/Adapter/Reach.antt =====
-- Every history of an adapter: the states that its operations reach.
use goscratch.Base.{
  ℕ, ◌≡◌, Bool, false, Option, none, some, List, [], ◌∷◌, arith, Str, str_eq, lit, has_byte, if_ind,
  Option-cases, inl, inr,
}
use goscratch.Apperr.{GoError, ok}
use goscratch.Casbin.Cache
use goscratch.Casbin.Cache.{Cache}
use goscratch.Casbin.Adapter.{
  Enforcer, Adapter, Update, WatcherOp, guarded, look_up, remember, enforce, enforce_with_context,
  add_role_for_user, remove_role_for_user, add_permission_for_role, remove_permission_for_role,
  add_permission_for_user, remove_permission_for_user, reload, flush_after, on_operation,
  update_callback, validate_policy_args,
}
use goscratch.Casbin.Adapter.Coherence.{
  IsRbac, IsCoherentAt, FailsClean, AffectsOnly, enforce_transparent, enforce-IsCoherent,
  apply-flush-IsCoherent, apply_invalidate-IsCoherent, flush-IsCoherent, look_up-IsCoherent,
  remember-IsCoherent, new_cache-IsCoherent,
}

validated :
    (args : List Str) (user : Str)
    → validate_policy_args (user ∷ args) ≡ none
    → has_byte 0 user ≡ false
unfolding validate_policy_args
validated args user h = ground arith

module _ (E : Enforcer) where
  open E use {users_for_role}

  -- nobody inherits from the subject: it is a user, and not a role
  abbrev pub IsUser : Str → Adapter E → Type 0
  IsUser user a = users_for_role user a.policies ≡ ok []

  abbrev pub Clean : Update E → Adapter E → Type 0
  Clean update a = FailsClean E update a.policies

  -- One step of a history: a call, or a part of Enforce, whose put may come after other calls as
  -- long as the decision put is still the enforcer's. The operations on one user's roles and
  -- permissions are called for users; `decode` is the JSON decoder of the watcher's messages.
  pub data Step (decode : Str → Option WatcherOp) (a : Adapter E) : Adapter E → Type 0 where
    decided : (sub obj act : Str) → Step decode a (enforce E sub obj act a).1
    decided_with_context :
        (ctx : Option GoError) (sub obj act : Str)
        → Step decode a (enforce_with_context E ctx sub obj act a).1
    looked_up : (sub obj act : Str) → Step decode a (look_up E sub obj act a).1
    remembered :
        (sub obj act : Str) (v : Bool)
        → E.enforce sub obj act a.policies ≡ ok v
        → Step decode a (remember E sub obj act v a)
    role_added :
        (user role : Str)
        → IsUser user a
        → Clean (E.add_grouping (user ∷ role ∷ [])) a
        → Step decode a (add_role_for_user E user role a).1
    role_removed :
        (user role : Str)
        → IsUser user a
        → Clean (E.remove_grouping (user ∷ role ∷ [])) a
        → Step decode a (remove_role_for_user E user role a).1
    role_permission_added :
        (role obj act : Str)
        → Clean (E.add_policy (role ∷ obj ∷ act ∷ [])) a
        → Step decode a (add_permission_for_role E role obj act a).1
    role_permission_removed :
        (role obj act : Str)
        → Clean (E.remove_policy (role ∷ obj ∷ act ∷ [])) a
        → Step decode a (remove_permission_for_role E role obj act a).1
    permission_added :
        (user obj act : Str)
        → IsUser user a
        → Clean (E.add_policy (user ∷ obj ∷ act ∷ [])) a
        → Step decode a (add_permission_for_user E user obj act a).1
    permission_removed :
        (user obj act : Str)
        → IsUser user a
        → Clean (E.remove_policy (user ∷ obj ∷ act ∷ [])) a
        → Step decode a (remove_permission_for_user E user obj act a).1
    reloaded : Clean E.load_policy a → Step decode a (reload E a).1
    notified : (msg : Str) → Clean E.load_policy a → Step decode a (update_callback E decode msg a)

  pub data Reach (decode : Str → Option WatcherOp) (s : Adapter E) : Adapter E → Type 0 where
    here : Reach decode s s
    next : {a b : Adapter E} → Reach decode s a → Step decode a b → Reach decode s b

  guarded-flush-IsCoherent :
      (args : List Str) (update : Update E) (a : Adapter E)
      → Clean update a
      → IsCoherentAt E a
      → IsCoherentAt E (guarded E args update Cache.flush a).1
  unfolding guarded
  guarded-flush-IsCoherent args update a clean h = elim (Option-cases (validate_policy_args args)) [
    | inl valid ↦ rw (valid, guarded) (apply-flush-IsCoherent E update a clean h)
    | inr (e, invalid) ↦ rw (invalid, guarded) h
  ]

  guarded_invalidate-IsCoherent :
      (user : Str) (args : List Str) (update : Update E) (a : Adapter E)
      → Clean update a
      → AffectsOnly E user update
      → IsUser user a
      → IsCoherentAt E a
      → IsCoherentAt E (guarded E (user ∷ args) update (Cache.invalidate_sub user) a).1
  unfolding guarded
  guarded_invalidate-IsCoherent user args update a clean only free h =
      elim (Option-cases (validate_policy_args (user ∷ args))) [
        | inl valid ↦
            rw (valid, guarded)
              (apply_invalidate-IsCoherent E user update a clean only free
                (validated args user valid) h)
        | inr (e, invalid) ↦ rw (invalid, guarded) h
      ]

  reload-IsCoherent :
      (a : Adapter E) → Clean E.load_policy a → IsCoherentAt E a → IsCoherentAt E (reload E a).1
  unfolding reload
  reload-IsCoherent a clean h = apply-flush-IsCoherent E E.load_policy a clean h

  flush_after-IsCoherent :
      (update : Update E) (a : Adapter E)
      → IsCoherentAt E a
      → IsCoherentAt E (flush_after E update a)
  unfolding flush_after
  flush_after-IsCoherent update a h = flush-IsCoherent E a.policies (update a.policies).1 a.cache h

  on_operation-IsCoherent :
      (o : WatcherOp) (a : Adapter E)
      → Clean E.load_policy a
      → IsCoherentAt E a
      → IsCoherentAt E (on_operation E o a)
  unfolding on_operation
  on_operation-IsCoherent o a clean h =
      if_ind (IsCoherentAt E) (str_eq o.op (lit "add_policy"))
        (λ _. flush_after-IsCoherent (E.add_policy o.params) a h)
        λ _.
          if_ind (IsCoherentAt E) (str_eq o.op (lit "remove_policy"))
            (λ _. flush_after-IsCoherent (E.remove_policy o.params) a h)
            λ _.
              if_ind (IsCoherentAt E) (str_eq o.op (lit "add_grouping"))
                (λ _. flush_after-IsCoherent (E.add_grouping o.params) a h)
                λ _.
                  if_ind (IsCoherentAt E) (str_eq o.op (lit "remove_grouping"))
                    (λ _. flush_after-IsCoherent (E.remove_grouping o.params) a h)
                    λ _. reload-IsCoherent a clean h

  update_callback-IsCoherent :
      (decode : Str → Option WatcherOp) (msg : Str) (a : Adapter E)
      → Clean E.load_policy a
      → IsCoherentAt E a
      → IsCoherentAt E (update_callback E decode msg a)
  unfolding update_callback
  update_callback-IsCoherent decode msg a clean h = elim (Option-cases (decode msg)) [
    | inl unknown ↦ rw (unknown, update_callback) (reload-IsCoherent a clean h)
    | inr (o, known) ↦ rw (known, update_callback) (on_operation-IsCoherent o a clean h)
  ]

  module _ (R : IsRbac E) where
    Step-IsCoherent :
        (decode : Str → Option WatcherOp) {a b : Adapter E}
        → Step decode a b
        → IsCoherentAt E a
        → IsCoherentAt E b
    unfolding enforce_with_context add_role_for_user remove_role_for_user add_permission_for_role
        remove_permission_for_role add_permission_for_user remove_permission_for_user
    Step-IsCoherent decode {a} (decided sub obj act) h = enforce-IsCoherent E sub obj act a h
    Step-IsCoherent decode {a} (decided_with_context none sub obj act) h =
        enforce-IsCoherent E sub obj act a h
    Step-IsCoherent decode (decided_with_context (some e) sub obj act) h = h
    Step-IsCoherent decode {a} (looked_up sub obj act) h = look_up-IsCoherent E sub obj act a h
    Step-IsCoherent decode {a} (remembered sub obj act v answer) h =
        remember-IsCoherent E sub obj act v a answer h
    Step-IsCoherent decode {a} (role_added user role free clean) h =
        guarded_invalidate-IsCoherent user (role ∷ []) (E.add_grouping (user ∷ role ∷ [])) a clean
          (R.add_grouping_local user role) free h
    Step-IsCoherent decode {a} (role_removed user role free clean) h =
        guarded_invalidate-IsCoherent user (role ∷ []) (E.remove_grouping (user ∷ role ∷ [])) a
          clean (R.remove_grouping_local user role) free h
    Step-IsCoherent decode {a} (role_permission_added role obj act clean) h =
        guarded-flush-IsCoherent (role ∷ obj ∷ act ∷ []) (E.add_policy (role ∷ obj ∷ act ∷ [])) a
          clean h
    Step-IsCoherent decode {a} (role_permission_removed role obj act clean) h =
        guarded-flush-IsCoherent (role ∷ obj ∷ act ∷ []) (E.remove_policy (role ∷ obj ∷ act ∷ [])) a
          clean h
    Step-IsCoherent decode {a} (permission_added user obj act free clean) h =
        guarded_invalidate-IsCoherent user (obj ∷ act ∷ []) (E.add_policy (user ∷ obj ∷ act ∷ [])) a
          clean (R.add_policy_local user obj act) free h
    Step-IsCoherent decode {a} (permission_removed user obj act free clean) h =
        guarded_invalidate-IsCoherent user (obj ∷ act ∷ [])
          (E.remove_policy (user ∷ obj ∷ act ∷ [])) a clean (R.remove_policy_local user obj act)
          free h
    Step-IsCoherent decode {a} (reloaded clean) h = reload-IsCoherent a clean h
    Step-IsCoherent decode {a} (notified msg clean) h =
        update_callback-IsCoherent decode msg a clean h

    pub Reach-IsCoherent :
        (decode : Str → Option WatcherOp) {s a : Adapter E}
        → IsCoherentAt E s
        → Reach decode s a
        → IsCoherentAt E a
    Reach-IsCoherent decode h here = h
    Reach-IsCoherent decode h (next r step) =
        Step-IsCoherent decode step (Reach-IsCoherent decode h r)

    -- For an enforcer whose calls about a user from whom no other subject inherits change that
    -- user's decisions only: after any history of decisions, changes to users and roles, reloads
    -- and watcher messages that starts with an empty cache of any size, a decision made through the
    -- cache is the decision of the enforcer, error included. In the history a user's roles and
    -- permissions are changed only while no other subject inherits from that user; no call returns
    -- an error after it has changed a decision; a change and its invalidation are one step; and the
    -- put of a decision whose look-up came earlier is a step of its own, made while the enforcer
    -- still decides so.
    pub enforce_after_any_history :
        (decode : Str → Option WatcherOp) (p : E.Policies) (n : ℕ) (a : Adapter E)
        (sub obj act : Str)
        → Reach decode (record { policies = p; cache = Cache.new_cache n }) a
        → (enforce E sub obj act a).0 ≡ E.enforce sub obj act a.policies
    enforce_after_any_history decode p n a sub obj act r =
        (enforce_transparent E sub obj act a
          (Reach-IsCoherent decode (new_cache-IsCoherent E p n) r)).0
